-- ===== src/Config/Validate/Lines.antt =====
-- The loops over serial lines.
use fronius_bridge.Prelude.{
  ℕ, ◌+◌, ◌≤◌, ◌≡◌, ◌≢◌, ◌↔◌, refl, sym, ◌∙◌, inl, inr, Option, none, some, List, [], ◌∷◌, ◌++◌,
  arith, String, true, find, All, length, text_eq, int_eq, int_beq_iff, ap, ◌⊎◌, ok, Option-cases,
  Bool-cases,
}
use mathlib.Core.Option.{some-injective}
use fronius_bridge.Config.Types.{ModbusRtuConfig, MeterConfig, Owner, meters, parity_beq_iff}
use fronius_bridge.Config.Validate.Emplace.{Absent, Absent-cons, Absent-tail, Absent-ne}
use fronius_bridge.Config.Validate.Refs.{Line, owner_of, as_easy_meter}
use fronius_bridge.Config.Validate.Checks.{find_ebz, same_line, check_lines, master_usage}
use fronius_bridge.Config.Validate.Spec.{Pairs, ebz_lines, SameLine, Agree, Apart, line_device}

abbrev pub listed {ℓ} : {A : Type ℓ} → Option A → List A
listed none = []
listed (some a) = a ∷ []

abbrev pub first {ℓ} : {A : Type ℓ} → List A → Option A
first [] = none
first (a ∷ as') = some a

module _ {F : Type 0} where
  pub find_ebz-listed :
      (seen : Option Line) (i : ℕ) (ms : List (MeterConfig F)) {r : Option Line}
      → find_ebz seen i ms ≡ ok r
      → listed r ≡ listed seen ++ ebz_lines i ms
  unfolding find_ebz
  find_ebz-listed none i [] h = ground arith
  find_ebz-listed (some l) i [] h = ground arith
  find_ebz-listed none i (m ∷ ms) {r} h = elim (Option-cases (as_easy_meter m.body)) [
    | inl e ↦ ground (arith, find_ebz-listed none (i + 1) ms {r = r})
    | inr (b, e) ↦
        ground (arith, find_ebz-listed (some (owner_of meters i m.name, b.rtu)) (i + 1) ms {r = r})
  ]
  find_ebz-listed (some l) i (m ∷ ms) {r} h =
      ground (arith, find_ebz-listed (some l) (i + 1) ms {r = r})

  pub find_ebz-ok :
      (seen : Option Line) (i : ℕ) (ms : List (MeterConfig F))
      → length (listed seen ++ ebz_lines i ms) ≤ 1
      → find_ebz seen i ms ≡ ok (first (listed seen ++ ebz_lines i ms))
  unfolding find_ebz
  find_ebz-ok none i [] h = refl
  find_ebz-ok (some l) i [] h = refl
  find_ebz-ok none i (m ∷ ms) h = elim (Option-cases (as_easy_meter m.body)) [
    | inl e ↦ ground (arith, find_ebz-ok none (i + 1) ms)
    | inr (b, e) ↦ ground (arith, find_ebz-ok (some (owner_of meters i m.name, b.rtu)) (i + 1) ms)
  ]
  find_ebz-ok (some l) i (m ∷ ms) h = ground (arith, find_ebz-ok (some l) (i + 1) ms)

pub same_line_iff : (q r : ModbusRtuConfig) → (same_line q r ≡ true) ↔ SameLine q r
same_line_iff q r = ground (
  arith,
  int_beq_iff q.baud r.baud,
  int_beq_iff q.data_bits r.data_bits,
  int_beq_iff q.stop_bits r.stop_bits,
  parity_beq_iff q.parity r.parity,
)

-- A line is used as the one that the map holds for its device.
abbrev pub AgreesWith : List (String × Line) → Line → Type 0
AgreesWith seen l = (k : Line) → find (line_device l) seen ≡ some k → SameLine k.1 l.1

find_here :
    (k : Line) (seen : List (String × Line)) (l : Line)
    → line_device l ≡ line_device k
    → find (line_device l) ((line_device k, k) ∷ seen) ≡ some k
unfolding find
find_here k seen l e = ground (arith, text_eq.beq_iff (line_device l) (line_device k))

find_there :
    (k : Line) (seen : List (String × Line)) (l : Line)
    → line_device l ≢ line_device k
    → find (line_device l) ((line_device k, k) ∷ seen) ≡ find (line_device l) seen
unfolding find
find_there k seen l e = ground (arith, text_eq.beq_iff (line_device l) (line_device k))

same_device : (k l : Line) → (line_device l ≡ line_device k) ⊎ (line_device l ≢ line_device k)
same_device k l = elim (Bool-cases (text_eq.beq (line_device l) (line_device k))) [
  | inl e ↦ inl ((text_eq.beq_iff _ _).0 e)
  | inr e ↦ inr (λ s. ground (arith, text_eq.beq_iff (line_device l) (line_device k)))
]

AgreesWith-first :
    (k : Line) (seen : List (String × Line)) (ls : List Line)
    → Absent seen (line_device k)
    → All (AgreesWith ((line_device k, k) ∷ seen)) ls
    → All (AgreesWith seen) ls × All (Agree k) ls
AgreesWith-first k seen [] a h = (tt, tt)
AgreesWith-first k seen (l ∷ ls) a (h, hs) =
    let (b, c) = AgreesWith-first k seen ls a hs in
    (
      (
        (λ p e. elim (same_device k l) [
          | inl s ↦ cc (a, ap (λ d. find d seen) s, e)
          | inr d ↦ h p (find_there k seen l d ∙ e)
        ]),
        b,
      ),
      ((λ s. h k (find_here k seen l s)), c),
    )

AgreesWith-cons :
    (k : Line) (seen : List (String × Line)) (ls : List Line)
    → All (AgreesWith seen) ls
    → All (Agree k) ls
    → All (AgreesWith ((line_device k, k) ∷ seen)) ls
AgreesWith-cons k seen [] h a = tt
AgreesWith-cons k seen (l ∷ ls) (h, hs) (a, as') = (
  (λ p e. elim (same_device k l) [
    | inl s ↦ rw (some-injective _ _ (sym (find_here k seen l s) ∙ e)) at (a s)
    | inr d ↦ h p (sym (find_there k seen l d) ∙ e)
  ]),
  AgreesWith-cons k seen ls hs as',
)

-- Lines that agree with the reference of `k`'s device agree with `k`.
Agree-via :
    (k p : Line) (seen : List (String × Line)) (ls : List Line)
    → find (line_device k) seen ≡ some p
    → SameLine p.1 k.1
    → All (AgreesWith seen) ls
    → All (Agree k) ls
Agree-via k p seen [] e s h = tt
Agree-via k p seen (l ∷ ls) e s (h, hs) = (
  (λ d.
      let t = h p (ap (λ x. find x seen) d ∙ e) in
      (sym s.0 ∙ t.0, sym s.1 ∙ t.1, sym s.2 ∙ t.2, sym s.3 ∙ t.3)),
  Agree-via k p seen ls e s hs,
)

pub check_lines-Agree :
    (seen : List (String × Line)) (ls : List Line)
    → check_lines seen ls ≡ ok tt
    → All (AgreesWith seen) ls × Pairs Agree ls
unfolding check_lines
check_lines-Agree seen [] h = (tt, tt)
check_lines-Agree seen ((o, r) ∷ ls) h = elim (Option-cases (find r.device seen)) [
  | inl e ↦
      let (a, p) = check_lines-Agree ((r.device, (o, r)) ∷ seen) ls (rw (e, check_lines) at h) in
      let (b, c) = AgreesWith-first (o, r) seen ls e a in (((λ q f. cc (e, f)), b), (c, p))
  | inr (q, e) ↦ elim (Bool-cases (same_line q.1 r)) [
    | inl s ↦
        let (a, p) = check_lines-Agree seen ls (ground arith) in
        let t = (same_line_iff q.1 r).0 s in
        (
          ((λ k f. rw (some-injective _ _ (sym e ∙ f)) at t), a),
          (Agree-via (o, r) q seen ls e t a, p),
        )
    | inr s ↦ ground arith
  ]
]

pub check_lines-ok :
    (seen : List (String × Line)) (ls : List Line)
    → All (AgreesWith seen) ls
    → Pairs Agree ls
    → check_lines seen ls ≡ ok tt
unfolding check_lines
check_lines-ok seen [] h p = refl
check_lines-ok seen ((o, r) ∷ ls) (h, hs) (p, ps) = elim (Option-cases (find r.device seen)) [
  | inl e ↦
      rw (e, check_lines)
        (check_lines-ok ((r.device, (o, r)) ∷ seen) ls (AgreesWith-cons (o, r) seen ls hs p) ps)
  | inr (q, e) ↦ rw (e, check_lines, (same_line_iff q.1 r).1 (h q e)) (check_lines-ok seen ls hs ps)
]

-- A device is free in `masterUsage` if it was before and no master uses it.
pub master_usage-Absent :
    (seen : List (String × Owner)) (ls : List Line) (l : Line)
    → Absent (master_usage seen ls) (line_device l) ↔ Absent seen (line_device l) × Apart ls l
unfolding master_usage
master_usage-Absent seen [] l = ((λ h. (h, tt)), λ h. h.0)
master_usage-Absent seen ((o, r) ∷ ls) l = elim (Option-cases (find r.device seen)) [
  | inl e ↦
      let ih = master_usage-Absent ((r.device, o) ∷ seen) ls l in
      rw (e, master_usage)
        (
          (λ h.
              let (a, b) = ih.0 h in
              (
                Absent-tail (line_device l) r.device o seen a,
                ((λ s. Absent-ne (line_device l) r.device o seen a (sym s)), b),
              )),
          λ h. ih.1 (Absent-cons (line_device l) r.device o seen (λ s. h.1.0 (sym s)) h.0, h.1.1),
        )
  | inr (p, e) ↦
      let ih = master_usage-Absent seen ls l in
      rw (e, master_usage)
        ((λ h. let (a, b) = ih.0 h in (a, ((λ s. cc (a, e)), b))), λ h. ih.1 (h.0, h.1.1))
]
