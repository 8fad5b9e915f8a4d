-- ===== src/Pg/Inserts/Sent.antt =====
-- What an insert of values sends, and that it commits as a whole.
use mathlib.Core.List.{append-nil}
use mathlib.Core.Path.{subst}
use fronius_bridge.Prelude.{
  ℤ, ◌≡◌, ◌⊎◌, inl, inr, refl, sym, ◌∙◌, ap, String, Bool, List, [], ◌∷◌, ◌++◌, map, arith, ok,
}
use fronius_bridge.Devices.{InverterValues, MeterValues}
use fronius_bridge.Db.Errors.{query}
use fronius_bridge.Db.Conn.{
  Command, begin_tx, commit_tx, Server, Work, Cell, ◌>>◌, send, exec, close_tx, in_transaction,
  commit, Silent, Atomic,
}
use fronius_bridge.Db.Conn.Sends.{
  push_all, push_all-append, >>=-ok, Sends, nothing-Sends, >>-Sends, exec-Sends,
}
use fronius_bridge.Db.Conn.Atomicity.{
  >>=-Silent, >>=-Atomic, exec-Silent, commit-Atomic, in_transaction-Atomic, return-Silent,
}
use fronius_bridge.Doubles.{Doubles}
use fronius_bridge.Pg.Statements.{Sql, execute, inverter_sample, meter_sample}
use fronius_bridge.Pg.Inserts.Columns.{
  numbers, row_count, inverter_phase_row_at, inverter_input_row_at, meter_phase_row_at,
  inverter_rows, meter_rows,
}
use fronius_bridge.Pg.Inserts.{
  exec_all, inverter_sample_row, inverter_phase_rows, inverter_input_rows, insert_inverter,
  meter_sample_row, meter_phase_rows, insert_meter,
}

three-cases : (n : ℤ) → (row_count 3 n ≡ 1) ⊎ ((row_count 3 n ≡ 2) ⊎ (row_count 3 n ≡ 3))
three-cases n = ground arith

two-cases : (n : ℤ) → (row_count 2 n ≡ 1) ⊎ (row_count 2 n ≡ 2)
two-cases n = ground arith

ap2 : {A B : Type 0} (f : A → A → B) {x y z t : A} → x ≡ y → z ≡ t → f x z ≡ f y t
ap2 f p q = λ i. f (p i) (q i)

module _ {F : Type 0} (srv : Server (Sql F)) (dbl : Doubles F) where
  abbrev pub plain : Sql F → Sql F
  plain s = s

  exec_all-Silent : (ss : List (Sql F)) → Silent srv (exec_all srv dbl ss)
  unfolding exec_all
  exec_all-Silent [] = return-Silent srv tt
  exec_all-Silent (s ∷ ss) =
      >>=-Silent srv (exec srv query s) (λ _. exec_all srv dbl ss) (exec-Silent srv query s)
        (λ _. exec_all-Silent ss)

  exec_all-Sends : (ss : List (Sql F)) → Sends plain (exec_all srv dbl ss) ss
  unfolding exec_all
  exec_all-Sends [] = nothing-Sends plain
  exec_all-Sends (s ∷ ss) =
      >>-Sends plain _ _ (s ∷ []) ss (exec-Sends srv plain query s) (exec_all-Sends ss)

  -- If the work succeeds, it has sent these statements and then COMMIT.
  Ends : Work (Sql F) (Unit {0}) → List (Sql F) → Type 0
  Ends w ss =
      (sent : List (Command (Sql F)))
      → (w sent).1 ≡ ok tt
      → (w sent).0 ≡ commit_tx ∷ push_all plain ss sent

  commit-Ends : Ends (commit srv query) []
  unfolding Ends commit send
  commit-Ends sent e = ground arith

  >>-Ends :
      (m k : Work (Sql F) (Unit {0})) (ds es : List (Sql F))
      → Sends plain m ds
      → Ends k es
      → Ends (m >> k) (ds ++ es)
  unfolding Ends Sends
  >>-Ends m k ds es h g sent e =
      let (_, f, same) = >>=-ok m (λ _. k) sent e in
      ap (λ p. p.0) same
      ∙ g (m sent).0 (sym (ap (λ p. p.1) same) ∙ e)
      ∙ ap (λ l. commit_tx ∷ push_all plain es l) (h sent f)
      ∙ ap (λ l. commit_tx ∷ l) (sym (push_all-append plain ds es sent))

  exec_all-Ends : (is : List (Sql F)) → Ends (exec_all srv dbl is >> commit srv query) is
  exec_all-Ends is =
      subst (λ l. Ends (exec_all srv dbl is >> commit srv query) l) (append-nil is)
        (>>-Ends (exec_all srv dbl is) (commit srv query) is [] (exec_all-Sends is) commit-Ends)

  abbrev scope : Work (Sql F) (Unit {0}) → List (List Cell) → Work (Sql F) (Unit {0})
  scope w _ sent = let (s, r) = w sent in (close_tx srv s, r)

  in_transaction_sent :
      (w : Work (Sql F) (Unit {0})) (ss : List (Sql F)) (sent : List (Command (Sql F)))
      → Ends w ss
      → (in_transaction srv query w sent).1 ≡ ok tt
      → (in_transaction srv query w sent).0
        ≡ close_tx srv (commit_tx ∷ push_all plain ss (begin_tx ∷ sent))
  unfolding in_transaction send Ends
  in_transaction_sent w ss sent h e =
      let (_, _, next) = >>=-ok (send srv query begin_tx) (scope w) sent e in
      ap (λ p. p.0) next ∙ ap (close_tx srv) (h (begin_tx ∷ sent) (sym (ap (λ p. p.1) next) ∙ e))

  abbrev inverter_statements : String → Bool → ℤ → ℤ → InverterValues F → List (Sql F)
  inverter_statements name hybrid phases inputs v =
      execute inverter_sample name (inverter_sample_row srv dbl v)
        ∷ inverter_phase_rows srv dbl name v phases
      ++ inverter_input_rows srv dbl name v hybrid inputs

  abbrev meter_statements : String → ℤ → MeterValues F → List (Sql F)
  meter_statements name phases v =
      execute meter_sample name (meter_sample_row srv dbl v)
      ∷ meter_phase_rows srv dbl name v phases

  insert_inverter_pushes :
      (name : String) (hybrid : Bool) (phases inputs : ℤ) (v : InverterValues F)
      (sent : List (Command (Sql F)))
      → (insert_inverter srv dbl name hybrid phases inputs v sent).1 ≡ ok tt
      → (insert_inverter srv dbl name hybrid phases inputs v sent).0
        ≡ close_tx srv (
            commit_tx
            ∷ push_all plain (inverter_statements name hybrid phases inputs v) (begin_tx ∷ sent))
  unfolding insert_inverter
  insert_inverter_pushes name hybrid phases inputs v sent =
      let sample = execute inverter_sample name (inverter_sample_row srv dbl v) in
      let ps = inverter_phase_rows srv dbl name v phases in
      let is = inverter_input_rows srv dbl name v hybrid inputs in
      in_transaction_sent _ (inverter_statements name hybrid phases inputs v) sent (
        >>-Ends _ _ (sample ∷ []) (ps ++ is) (exec-Sends srv plain query sample)
          (>>-Ends _ _ ps is (exec_all-Sends ps) (exec_all-Ends is)))

  insert_meter_pushes :
      (name : String) (phases : ℤ) (v : MeterValues F) (sent : List (Command (Sql F)))
      → (insert_meter srv dbl name phases v sent).1 ≡ ok tt
      → (insert_meter srv dbl name phases v sent).0
        ≡ close_tx srv
            (commit_tx ∷ push_all plain (meter_statements name phases v) (begin_tx ∷ sent))
  unfolding insert_meter
  insert_meter_pushes name phases v sent =
      let sample = execute meter_sample name (meter_sample_row srv dbl v) in
      let ps = meter_phase_rows srv dbl name v phases in
      in_transaction_sent _ (meter_statements name phases v) sent
        (>>-Ends _ _ (sample ∷ []) ps (exec-Sends srv plain query sample) (exec_all-Ends ps))

  inverter_phases_eq :
      (name : String) (v : InverterValues F) (phases : ℤ)
      → inverter_phase_rows srv dbl name v phases
        ≡ map (inverter_phase_row_at dbl name v) (numbers (row_count 3 phases))
  inverter_phases_eq name v phases = elim (three-cases phases) [
    | inl e ↦ rw e refl
    | inr (inl e) ↦ rw e refl
    | inr (inr e) ↦ rw e refl
  ]

  inverter_inputs_eq :
      (name : String) (hybrid : Bool) (v : InverterValues F) (inputs : ℤ)
      → inverter_input_rows srv dbl name v hybrid inputs
        ≡ map (inverter_input_row_at dbl name hybrid v) (numbers (row_count 2 inputs))
  inverter_inputs_eq name hybrid v inputs = elim (two-cases inputs) [
    | inl e ↦ rw e refl
    | inr e ↦ rw e refl
  ]

  meter_phases_eq :
      (name : String) (v : MeterValues F) (phases : ℤ)
      → meter_phase_rows srv dbl name v phases
        ≡ map (meter_phase_row_at dbl name v) (numbers (row_count 3 phases))
  meter_phases_eq name v phases = elim (three-cases phases) [
    | inl e ↦ rw e refl
    | inr (inl e) ↦ rw e refl
    | inr (inr e) ↦ rw e refl
  ]

  -- An insert of inverter values that succeeds has sent, in one transaction, the sample, with each column of its
  -- INSERT filled from the quantity of that column, a row for each phase and one for each input, numbered from 1
  -- and in this order, as many as the device has, but at least one, at most three phases and two inputs, and
  -- COMMIT. Energies are scaled by `scaleToKilo`, and an input's energy is NULL for a hybrid inverter.
  pub insert_inverter_sent :
      (name : String) (hybrid : Bool) (phases inputs : ℤ) (v : InverterValues F)
      (sent : List (Command (Sql F)))
      → (insert_inverter srv dbl name hybrid phases inputs v sent).1 ≡ ok tt
      → (insert_inverter srv dbl name hybrid phases inputs v sent).0
        ≡ close_tx srv (
            commit_tx
            ∷ push_all plain (inverter_rows dbl name hybrid phases inputs v) (begin_tx ∷ sent))
  insert_inverter_sent name hybrid phases inputs v sent h =
      insert_inverter_pushes name hybrid phases inputs v sent h
      ∙ ap2
          (λ (ps is : List (Sql F)). close_tx srv (
            commit_tx
            ∷ push_all plain
                (execute inverter_sample name (inverter_sample_row srv dbl v) ∷ ps ++ is)
                (begin_tx ∷ sent)))
          (inverter_phases_eq name v phases) (inverter_inputs_eq name hybrid v inputs)

  -- An insert of meter values that succeeds has sent, in one transaction, the sample, with each column of its
  -- INSERT filled from the quantity of that column, a row for each phase, numbered from 1 and in this order, as
  -- many as the device has, but at least one and at most three, and COMMIT.
  pub insert_meter_sent :
      (name : String) (phases : ℤ) (v : MeterValues F) (sent : List (Command (Sql F)))
      → (insert_meter srv dbl name phases v sent).1 ≡ ok tt
      → (insert_meter srv dbl name phases v sent).0
        ≡ close_tx srv (commit_tx ∷ push_all plain (meter_rows dbl name phases v) (begin_tx ∷ sent))
  insert_meter_sent name phases v sent h =
      insert_meter_pushes name phases v sent h
      ∙ ap
          (λ (ps : List (Sql F)). close_tx srv (
            commit_tx
            ∷ push_all plain (execute meter_sample name (meter_sample_row srv dbl v) ∷ ps)
                (begin_tx ∷ sent)))
          (meter_phases_eq name v phases)

  -- Whatever the server answers, an insert of inverter values commits one transaction if it succeeds, and if it
  -- fails none, or at most one if the link was lost at the COMMIT, so that no reading is stored in part.
  pub insert_inverter-Atomic :
      (name : String) (hybrid : Bool) (phases inputs : ℤ) (v : InverterValues F)
      → Atomic srv (insert_inverter srv dbl name hybrid phases inputs v)
  unfolding insert_inverter
  insert_inverter-Atomic name hybrid phases inputs v = in_transaction-Atomic srv query _ (
      >>=-Atomic srv _ _ (exec-Silent srv query _) (λ _.
        >>=-Atomic srv _ _ (exec_all-Silent _)
          (λ _. >>=-Atomic srv _ _ (exec_all-Silent _) (λ _. commit-Atomic srv query))))

  -- Whatever the server answers, an insert of meter values commits one transaction if it succeeds, and if it
  -- fails none, or at most one if the link was lost at the COMMIT.
  pub insert_meter-Atomic :
      (name : String) (phases : ℤ) (v : MeterValues F)
      → Atomic srv (insert_meter srv dbl name phases v)
  unfolding insert_meter
  insert_meter-Atomic name phases v = in_transaction-Atomic srv query _ (
      >>=-Atomic srv _ _ (exec-Silent srv query _)
        (λ _. >>=-Atomic srv _ _ (exec_all-Silent _) (λ _. commit-Atomic srv query)))
