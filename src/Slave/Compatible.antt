-- ===== src/Slave/Compatible.antt =====
-- That the packs of a model do not disturb each other.
use fronius_bridge.Prelude.{
  ℕ, zero, suc, ◌≡◌, ◌≢◌, refl, Bool, true, false, ◌&&◌, ◌||◌, not, Option, none, some, List, [],
  ◌∷◌, All, map, nat_beq, arith, ap, sym, ◌∙◌,
}
use fronius_bridge.Devices.{MeterValues}
use fronius_bridge.Config.Validate.Spec.{Pairs}
use fronius_bridge.Slave.Registers.{
  pf, pfpha, pfphb, pfphc, w, wpha, wphb, wphc, va, vapha, vaphb, vaphc, var, varpha, varphb,
  varphc, phv, phvpha, phvphb, phvphc, ppv, ppvphab, ppvphbc, ppvphca, a, apha, aphb, aphc,
  tot_wh_imp, tot_wh_exp, tot_vah_imp, tot_vah_exp, freq, pf_sf, w_sf, va_sf, var_sf, v_sf, a_sf,
  tot_wh_sf, tot_vah_sf, freq_sf, Register, Scale, Pack, float_packs, scaled_packs,
}

abbrev pub code : Register → ℕ
code pf = 0
code pfpha = 1
code pfphb = 2
code pfphc = 3
code w = 4
code wpha = 5
code wphb = 6
code wphc = 7
code va = 8
code vapha = 9
code vaphb = 10
code vaphc = 11
code var = 12
code varpha = 13
code varphb = 14
code varphc = 15
code phv = 16
code phvpha = 17
code phvphb = 18
code phvphc = 19
code ppv = 20
code ppvphab = 21
code ppvphbc = 22
code ppvphca = 23
code a = 24
code apha = 25
code aphb = 26
code aphc = 27
code tot_wh_imp = 28
code tot_wh_exp = 29
code tot_vah_imp = 30
code tot_vah_exp = 31
code freq = 32

abbrev nth : List Register → ℕ → Register
nth [] k = freq
nth (r ∷ rs) zero = r
nth (r ∷ rs) (suc k) = nth rs k

abbrev register_at : ℕ → Register
register_at = nth (
    pf ∷ pfpha ∷ pfphb ∷ pfphc ∷ w ∷ wpha ∷ wphb ∷ wphc ∷ va ∷ vapha ∷ vaphb ∷ vaphc ∷ var ∷ varpha
    ∷ varphb ∷ varphc ∷ phv ∷ phvpha ∷ phvphb ∷ phvphc ∷ ppv ∷ ppvphab ∷ ppvphbc ∷ ppvphca ∷ a
    ∷ apha ∷ aphb ∷ aphc ∷ tot_wh_imp ∷ tot_wh_exp ∷ tot_vah_imp ∷ tot_vah_exp ∷ freq ∷ [])

register_at-code : (r : Register) → register_at (code r) ≡ r
register_at-code pf = refl
register_at-code pfpha = refl
register_at-code pfphb = refl
register_at-code pfphc = refl
register_at-code w = refl
register_at-code wpha = refl
register_at-code wphb = refl
register_at-code wphc = refl
register_at-code va = refl
register_at-code vapha = refl
register_at-code vaphb = refl
register_at-code vaphc = refl
register_at-code var = refl
register_at-code varpha = refl
register_at-code varphb = refl
register_at-code varphc = refl
register_at-code phv = refl
register_at-code phvpha = refl
register_at-code phvphb = refl
register_at-code phvphc = refl
register_at-code ppv = refl
register_at-code ppvphab = refl
register_at-code ppvphbc = refl
register_at-code ppvphca = refl
register_at-code a = refl
register_at-code apha = refl
register_at-code aphb = refl
register_at-code aphc = refl
register_at-code tot_wh_imp = refl
register_at-code tot_wh_exp = refl
register_at-code tot_vah_imp = refl
register_at-code tot_vah_exp = refl
register_at-code freq = refl

-- Different registers have different codes.
pub code-injective : (r s : Register) → code r ≡ code s → r ≡ s
code-injective r s h = sym (register_at-code r) ∙ ap register_at h ∙ register_at-code s

abbrev scale_code : Scale → ℕ
scale_code pf_sf = 0
scale_code w_sf = 1
scale_code va_sf = 2
scale_code var_sf = 3
scale_code v_sf = 4
scale_code a_sf = 5
scale_code tot_wh_sf = 6
scale_code tot_vah_sf = 7
scale_code freq_sf = 8

-- Two values that share a scale register are written with one number of decimals.
abbrev pub Agrees : Option (Scale × ℕ) → Option (Scale × ℕ) → Type 0
Agrees (some (s, d)) (some (t, e)) = s ≡ t → d ≡ e
Agrees _ _ = Unit

abbrev pub Compatible : {F : Type 0} → Pack F → Pack F → Type 0
Compatible p q = (q.register ≢ p.register) × Agrees p.scaling q.scaling

abbrev agrees : Option (Scale × ℕ) → Option (Scale × ℕ) → Bool
agrees (some (s, d)) (some (t, e)) = not (nat_beq (scale_code s) (scale_code t)) || nat_beq d e
agrees (some _) none = true
agrees none _ = true

abbrev all_compatible : {F : Type 0} → Pack F → List (Pack F) → Bool
all_compatible p [] = true
all_compatible p (q ∷ qs) =
    not (nat_beq (code q.register) (code p.register))
    && agrees p.scaling q.scaling
    && all_compatible p qs

abbrev pairs_compatible : {F : Type 0} → List (Pack F) → Bool
pairs_compatible [] = true
pairs_compatible (p ∷ ps) = all_compatible p ps && pairs_compatible ps

registers_differ : (r s : Register) → nat_beq (code r) (code s) ≡ false → r ≢ s
registers_differ r s h = λ e. ground (arith, ap code e)

agrees-Agrees : (x y : Option (Scale × ℕ)) → agrees x y ≡ true → Agrees x y
agrees-Agrees none y h = tt
agrees-Agrees (some _) none h = tt
agrees-Agrees (some (s, d)) (some (t, e)) h = λ k. ground (arith, ap scale_code k)

split : (x y z : Bool) → (not x && y && z) ≡ true → (x ≡ false) × (y ≡ true) × (z ≡ true)
split x y z h = ground arith

both : (x y : Bool) → (x && y) ≡ true → (x ≡ true) × (y ≡ true)
both x y h = ground arith

all_compatible-All :
    {F : Type 0} (p : Pack F) (qs : List (Pack F))
    → all_compatible p qs ≡ true
    → All (Compatible p) qs
all_compatible-All p [] h = tt
all_compatible-All p (q ∷ qs) h =
    let (x, y, z) = split (nat_beq (code q.register) (code p.register)) _ _ h in
    (
      (registers_differ q.register p.register x, agrees-Agrees p.scaling q.scaling y),
      all_compatible-All p qs z,
    )

pairs_compatible-Pairs :
    {F : Type 0} (ps : List (Pack F)) → pairs_compatible ps ≡ true → Pairs Compatible ps
pairs_compatible-Pairs [] h = tt
pairs_compatible-Pairs (p ∷ ps) h =
    let (x, y) = both (all_compatible p ps) (pairs_compatible ps) h in
    (all_compatible-All p ps x, pairs_compatible-Pairs ps y)

pub float_packs-Pairs : {F : Type 0} (v : MeterValues F) → Pairs Compatible (float_packs v)
unfolding float_packs
float_packs-Pairs v = pairs_compatible-Pairs (float_packs v) refl

pub scaled_packs-Pairs : {F : Type 0} (v : MeterValues F) → Pairs Compatible (scaled_packs v)
unfolding scaled_packs
scaled_packs-Pairs v = pairs_compatible-Pairs (scaled_packs v) refl

-- The two models show the same quantities, each in the register of the same name.
pub same_quantities :
    {F : Type 0} (v : MeterValues F)
    → map {B = Register × F} (λ p. (p.register, p.value)) (float_packs v)
      ≡ map {B = Register × F} (λ p. (p.register, p.value)) (scaled_packs v)
unfolding float_packs scaled_packs
same_quantities v = refl
