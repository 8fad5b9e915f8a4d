-- ===== src/Config/Validate/Slaves.antt =====
-- The checks of the serial lines that meter slaves and the EasyMeter need for themselves.
use fronius_bridge.Prelude.{
  ◌≡◌, ◌↔◌, refl, none, some, List, [], ◌∷◌, arith, String, find, All, text_eq, ok, Option,
}
use fronius_bridge.Config.Types.{Owner, ConfigError, two_slaves}
use fronius_bridge.Config.Validate.Emplace.{emplace_all, Absent}
use fronius_bridge.Config.Validate.Refs.{Line}
use fronius_bridge.Config.Validate.Checks.{
  check_slaves, check_ebz_line, check_ebz_name, master_usage,
}
use fronius_bridge.Config.Validate.Spec.{Apart, line_device}
use fronius_bridge.Config.Validate.Lines.{master_usage-Absent, listed}

abbrev pub line_owner : Line → Owner
line_owner l = l.0

abbrev pub clash_slaves : Owner → Line → ConfigError
clash_slaves p l = two_slaves p l.0

-- `check_slaves` looks at the masters first, and else is the loop over `try_emplace`.
pub check_slaves-emplace :
    (usage seen : List (String × Owner)) (ls : List Line) {m : List (String × Owner)}
    → check_slaves usage seen ls ≡ ok m
    → All (λ l. Absent usage (line_device l)) ls
      × (emplace_all line_device line_owner clash_slaves seen ls ≡ ok m)
unfolding check_slaves emplace_all
check_slaves-emplace usage seen [] h = (tt, h)
check_slaves-emplace usage seen ((o, r) ∷ ls) {m} h =
    ground (arith, check_slaves-emplace usage ((r.device, o) ∷ seen) ls {m = m})

pub emplace-check_slaves :
    (usage seen : List (String × Owner)) (ls : List Line)
    → All (λ l. Absent usage (line_device l)) ls
    → {m : List (String × Owner)} → emplace_all line_device line_owner clash_slaves seen ls ≡ ok m
    → check_slaves usage seen ls ≡ ok m
unfolding check_slaves emplace_all
emplace-check_slaves usage seen [] a h = h
emplace-check_slaves usage seen ((o, r) ∷ ls) (a, as') {m} h =
    ground (arith, emplace-check_slaves usage ((r.device, o) ∷ seen) ls as' {m = m})

-- No line of `ls` is on a master's device, and this is what the map of the masters' devices tells.
pub usage-Apart :
    (ms ls : List Line)
    → All (λ l. Absent (master_usage [] ms) (line_device l)) ls ↔ All (Apart ms) ls
unfolding find
usage-Apart ms [] = ((λ h. h), λ h. h)
usage-Apart ms (l ∷ ls) =
    let one = master_usage-Absent [] ms l in
    let rest = usage-Apart ms ls in
    ((λ h. ((one.0 h.0).1, rest.0 h.1)), λ h. (one.1 (refl, h.0), rest.1 h.1))

pub check_ebz_line_iff :
    (usage slaves : List (String × Owner)) (e : Option Line)
    → (check_ebz_line usage slaves e ≡ ok tt) ↔ (
        All (λ l. Absent usage (line_device l)) (listed e)
        × All (λ l. Absent slaves (line_device l)) (listed e))
unfolding check_ebz_line
check_ebz_line_iff usage slaves none = ground arith
check_ebz_line_iff usage slaves (some l) = ground arith

pub check_ebz_name_iff :
    (names : List (String × Owner)) (e : Option Line)
    → (check_ebz_name names e ≡ ok tt) ↔ All (λ l. Absent names l.0.name) (listed e)
unfolding check_ebz_name
check_ebz_name_iff names none = ground arith
check_ebz_name_iff names (some l) = ground arith
