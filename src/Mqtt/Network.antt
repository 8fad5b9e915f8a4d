-- ===== src/Mqtt/Network.antt =====
-- `isFatalLoopError` and `networkLoop` of src/mqtt_client.cpp. A result of `mosquitto_loop` is named after its
-- code; `other` stands for those that the source does not name.
use fronius_bridge.Prelude.{
  ℕ, suc, ◌+◌, ◌*◌, ◌^◌, ◌≤◌, min, ℤ, pos, ◌≡◌, ◌≢◌, ◌⊎◌, inl, inr, refl, sym, ap, ◌∙◌, Bool, true,
  false, Bool-cases, List, [], ◌∷◌, ◌++◌, All, if◌then◌else◌, arith,
}
use fronius_bridge.Config.Types.{ReconnectDelayConfig}
use fronius_bridge.Backoff.{next_backoff, backoff_after, delays, backoff_after_lem}

pub data LoopCode : Type 0 where
  success errno other : LoopCode
  nomem protocol inval not_found tls payload_size : LoopCode
  not_supported auth acl_denied unknown eai proxy : LoopCode

-- `is_eproto`: errno is EPROTO right after the call.
unfoldable pub is_fatal_loop_error : LoopCode → (is_eproto : Bool) → Bool
is_fatal_loop_error success is_eproto = false
is_fatal_loop_error other is_eproto = false
is_fatal_loop_error errno is_eproto = is_eproto
is_fatal_loop_error _ is_eproto = true

abbrev pub is_success : LoopCode → Bool
is_success success = true
is_success _ = false

-- What one turn of the loop meets: the result of `mosquitto_loop`, whether a connection is established, and
-- whether the process still runs after the call and after the wait.
pub record LoopTurn : Type 0 where
  pub code : LoopCode
  pub is_eproto : Bool
  pub connected : Bool
  pub runs_after_loop : Bool
  pub runs_after_wait : Bool

-- `reconnects` counts the calls of `mosquitto_reconnect_async`.
pub record Network : Type 0 where
  pub looping : Bool
  pub failed : Bool
  pub backoff : ℤ
  pub reconnects : ℕ

module _ (cfg : ReconnectDelayConfig) where
  abbrev pub reset_backoff : Bool → Network → Network
  reset_backoff connected n = if connected then record n { backoff = cfg.min } else n

  abbrev pub retry : Bool → Network → Network
  retry runs n =
      let n' = record n { backoff = next_backoff cfg n.backoff } in
      if runs then record n' { reconnects = suc n'.reconnects } else record n' { looping = false }

  unfoldable pub network_turn : LoopTurn → Network → Network
  unfolding is_fatal_loop_error
  network_turn t n =
      if is_success t.code
      then reset_backoff t.connected n
      else if t.runs_after_loop
      then (if is_fatal_loop_error t.code t.is_eproto
          then record n { looping = false; failed = true }
          else retry t.runs_after_wait n)
      else record n { looping = false }

  unfoldable pub network_loop : List LoopTurn → Network → Network
  unfolding network_turn
  network_loop [] n = n
  network_loop (t ∷ ts) n =
      let rest = network_loop ts (network_turn t n) in if n.looping then rest else n

  abbrev pub retried : ℕ → ℕ → Network
  retried k reconnects = record {
    looping = true;
    failed = false;
    backoff = backoff_after cfg k;
    reconnects = reconnects;
  }

  retried_eq : (j k r s : ℕ) → j ≡ k → r ≡ s → retried j r ≡ retried k s
  retried_eq j k r s p q = cc

-- A code that does not end the loop: success, errno other than EPROTO, and the codes that the source does not
-- name, such as a lost connection.
abbrev pub Passes : LoopCode → (is_eproto : Bool) → Type 0
Passes c is_eproto = (c ≡ success) ⊎ ((c ≡ other) ⊎ ((c ≡ errno) × (is_eproto ≡ false)))

-- A turn after which the loop can go on, with the process running on.
abbrev pub Survives : LoopTurn → Type 0
Survives t = Passes t.code t.is_eproto × (t.runs_after_loop ≡ true) × (t.runs_after_wait ≡ true)

-- A turn that meets a connection, and one that meets none.
abbrev pub Connects : LoopTurn → Type 0
Connects t = (t.code ≡ success) × (t.connected ≡ true)

abbrev pub MeetsNone : LoopTurn → Type 0
MeetsNone t = (t.code ≢ success) ⊎ (t.connected ≡ false)

abbrev pub failures_by : LoopCode → ℕ
failures_by success = 0
failures_by _ = 1

-- How many of the turns fail.
abbrev pub failures : List LoopTurn → ℕ
failures [] = 0
failures (t ∷ ts) = failures_by t.code + failures ts

success-failures : (c : LoopCode) → c ≡ success → failures_by c ≡ 0
success-failures c e = rw e refl

not_met : (t : LoopTurn) → t.code ≡ success → MeetsNone t → t.connected ≡ false
not_met t e (inl n) = absurd (n e)
not_met t e (inr c) = c

module _ (cfg : ReconnectDelayConfig) where
  abbrev looping_at : ℤ → ℕ → Network
  looping_at backoff reconnects = record {
    looping = true;
    failed = false;
    backoff = backoff;
    reconnects = reconnects;
  }

  turn-success :
      (t : LoopTurn) (b : ℤ) (r : ℕ)
      → t.code ≡ success
      → network_turn cfg t (looping_at b r) ≡ looping_at (if t.connected then cfg.min else b) r
  unfolding network_turn
  turn-success t b r e =
      rw e (elim (Bool-cases t.connected) [ inl c ↦ rw c refl | inr c ↦ rw c refl ])

  turn-failure :
      (t : LoopTurn) (b : ℤ) (r : ℕ)
      → (t.code ≡ other) ⊎ ((t.code ≡ errno) × (t.is_eproto ≡ false))
      → t.runs_after_loop ≡ true
      → t.runs_after_wait ≡ true
      → (network_turn cfg t (looping_at b r) ≡ looping_at (next_backoff cfg b) (suc r))
        × (failures_by t.code ≡ 1)
  unfolding network_turn
  turn-failure t b r (inl e) c d = (rw (e, c, d) refl, rw e refl)
  turn-failure t b r (inr (e, f)) c d = (rw (e, f, c, d) refl, rw e refl)

  -- Before a connection the delay may be anything.
  loop_lasts :
      (ts : List LoopTurn) (b : ℤ) (r : ℕ)
      → All Survives ts
      → (b' : ℤ) × (network_loop cfg ts (looping_at b r) ≡ looping_at b' (failures ts + r))
  unfolding network_loop
  loop_lasts [] b r h = (b, ap (looping_at b) (omega arith))
  loop_lasts (t ∷ ts) b r ((inl e, _, _), hs) =
      let (b', same) = loop_lasts ts (if t.connected then cfg.min else b) r hs in
      (
        b',
        ap (network_loop cfg ts) (turn-success t b r e)
            ∙ same
            ∙ ap (looping_at b') (omega (arith, success-failures t.code e)),
      )
  loop_lasts (t ∷ ts) b r ((inr e, c, d), hs) =
      let (step, one) = turn-failure t b r e c d in
      let (b', same) = loop_lasts ts (next_backoff cfg b) (suc r) hs in
      (b', ap (network_loop cfg ts) step ∙ same ∙ ap (looping_at b') (omega (arith, one)))

  -- Without a connection the delay goes on along its schedule.
  loop_schedule :
      (ts : List LoopTurn) (k r : ℕ)
      → All Survives ts
      → All MeetsNone ts
      → network_loop cfg ts (retried cfg k r) ≡ retried cfg (failures ts + k) (failures ts + r)
  unfolding network_loop backoff_after
  loop_schedule [] k r h g = retried_eq cfg k (0 + k) r (0 + r) (omega arith) (omega arith)
  loop_schedule (t ∷ ts) k r ((inl e, _, _), hs) (g, gs) =
      ap (network_loop cfg ts) (
        turn-success t (backoff_after cfg k) r e
        ∙ ap (λ c. looping_at (if c then cfg.min else backoff_after cfg k) r) (not_met t e g))
      ∙ loop_schedule ts k r hs gs
      ∙ retried_eq cfg (failures ts + k) (failures (t ∷ ts) + k) (failures ts + r)
          (failures (t ∷ ts) + r) (omega (arith, success-failures t.code e))
          (omega (arith, success-failures t.code e))
  loop_schedule (t ∷ ts) k r ((inr e, c, d), hs) (g, gs) =
      let (step, one) = turn-failure t (backoff_after cfg k) r e c d in
      ap (network_loop cfg ts) step
      ∙ loop_schedule ts (suc k) (suc r) hs gs
      ∙ retried_eq cfg (failures ts + suc k) (failures (t ∷ ts) + k) (failures ts + suc r)
          (failures (t ∷ ts) + r) (omega (arith, one)) (omega (arith, one))

  loop_append :
      (xs ys : List LoopTurn) (n m : Network)
      → network_loop cfg xs n ≡ m
      → m.looping ≡ true
      → network_loop cfg (xs ++ ys) n ≡ network_loop cfg ys m
  unfolding network_loop
  loop_append [] ys n m e l = ap (network_loop cfg ys) e
  loop_append (t ∷ xs) ys n m e l = elim (Bool-cases n.looping) [
    | inl go ↦
        ap (λ b. if b then network_loop cfg (xs ++ ys) (network_turn cfg t n) else n) go
        ∙ loop_append xs ys (network_turn cfg t n) m
            (sym (ap (λ b. if b then network_loop cfg xs (network_turn cfg t n) else n) go) ∙ e) l
    | inr stop ↦ absurd (
        differ n.looping stop (
          ap (λ (k : Network). k.looping)
            (sym (ap (λ b. if b then network_loop cfg xs (network_turn cfg t n) else n) stop) ∙ e)
          ∙ l))
  ]
    where
      differ : (b : Bool) → b ≡ false → b ≡ true → ⊥
      differ b p q = cc

-- While the process runs, turns that succeed and failures that can be retried never end the loop, and a
-- reconnect has been asked for after each failure. After a turn that meets a connection, and any number of turns
-- that meet none, the next delay is the least one doubled for each failure since that connection and no more
-- than the greatest, or always the least one if the schedule is not exponential, whatever the delay was before.
pub network_loop-retried :
    (lo hi : ℕ) (exponential : Bool) (before after : List LoopTurn) (t : LoopTurn) (backoff : ℤ)
    (reconnects : ℕ)
    → lo ≤ hi
    → All Survives before
    → Connects t
    → All Survives after
    → All MeetsNone after
    → network_loop
        (delays lo hi exponential)
        (before ++ t ∷ after)
        (record { looping = true; failed = false; backoff = backoff; reconnects = reconnects })
      ≡ record {
        looping = true;
        failed = false;
        backoff = pos (if exponential then min (lo * 2 ^ failures after) hi else lo);
        reconnects = failures before + failures after + reconnects;
      }
unfolding network_loop backoff_after
network_loop-retried lo hi e before after t b r le hs (c, d) gs ns =
    let cfg = delays lo hi e in
    let (b', reached) = loop_lasts cfg before b r hs in
    loop_append cfg before (t ∷ after) _ _ reached refl
    ∙ ap (network_loop cfg after) (
        turn-success cfg t b' (failures before + r) c
        ∙ ap (λ x. looping_at cfg (if x then pos lo else b') (failures before + r)) d)
    ∙ loop_schedule cfg after 0 (failures before + r) gs ns
    ∙ ap2 (looping_at cfg)
        (ap (backoff_after cfg) {x = failures after + 0} {y = failures after} (omega arith)
          ∙ backoff_after_lem lo hi (failures after) e le)
        (omega arith)
  where
    ap2 : (f : ℤ → ℕ → Network) {x y : ℤ} {z w : ℕ} → x ≡ y → z ≡ w → f x z ≡ f y w
    ap2 f p q = λ i. f (p i) (q i)
