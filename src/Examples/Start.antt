-- ===== src/Examples/Start.antt =====
-- A host with one user besides root, a gate and the flags of the program.
use fronius_bridge.Prelude.{
  ◌≡◌, ℕ, nat_eq, ◌==◌, Bool, true, false, none, some, String, text_eq, List, [], ◌∷◌, ok,
  if◌then◌else◌, nat_beq, nat_beq_iff, refl, arith,
}
use fronius_bridge.ChangeGate.{forward, latest, NoRepeat, forward_refines}
use fronius_bridge.Shutdown.{
  Occurrence, fresh_handler, raised, gave_up, stopped, occur_all, exit_of, failure, occur_all-exit,
}
use fronius_bridge.Privileges.{Host, IsPosix, drop, Dropped, drop-Dropped}

forward_refines_example :
    (latest {A = ℕ} none (forward {A = ℕ} none (1 ∷ 1 ∷ 2 ∷ 2 ∷ 1 ∷ [])) ≡ some 1)
    × NoRepeat {A = ℕ} none (forward {A = ℕ} none (1 ∷ 1 ∷ 2 ∷ 2 ∷ 1 ∷ []))
forward_refines_example = forward_refines none (1 ∷ 1 ∷ 2 ∷ 2 ∷ 1 ∷ [])

abbrev crash : List Occurrence
crash = gave_up "disk" ∷ stopped ∷ []

occur_all-exit_example :
    ((occur_all (raised 15 ∷ crash) fresh_handler).is_running ≡ false)
    × (exit_of (occur_all (raised 15 ∷ crash) fresh_handler) ≡ failure "disk")
occur_all-exit_example = occur_all-exit (raised 15) crash

record Process : Type 0 where
  uid : ℕ
  gid : ℕ
  groups_of : String

abbrev if_root : Process → Process → Process × Bool
if_root p q = if nat_beq p.uid 0 then (q, true) else (p, false)

abbrev set_user : ℕ → Process → Process × Bool
set_user u p = if nat_beq p.uid 0 then (record p { uid = u }, true) else (p, nat_beq p.uid u)

abbrev host : Host Process
host = record {
  getpwnam = λ s.
      if s == "fronius" then some (record { name = "fronius"; uid = 990; gid = 980 }) else none;
  getpwuid = λ u. none;
  getgrnam = λ s. if s == "dialout" then some 20 else none;
  getgrgid = λ g. none;
  strtol = λ s. none;
  initgroups = λ name g p. if_root p (record p { groups_of = name });
  setgid = λ g p. if_root p (record p { gid = g });
  setuid = set_user;
}

host_posix : IsPosix host
host_posix = record {
  uid = λ p. p.uid;
  gid = λ p. p.gid;
  InGroupsOf = λ name g p. p.groups_of ≡ name;
  initgroups-ok = λ name g p h. ground arith;
  setgid-ok = λ g p h. ground arith;
  setgid-groups = λ name g k p h. ground arith;
  setuid-ok = λ u p h. ground (arith, nat_beq_iff p.uid u);
  setuid-gid = λ u p. ground arith;
  setuid-groups = λ name u k p h. ground arith;
  setuid-failed = λ u p h. ground arith;
  setuid-root = λ p h. ground arith;
}

abbrev root : Process
root = record { uid = 0; gid = 0; groups_of = "root" }

dropped : (drop host "fronius" "dialout" root).1 ≡ ok tt
unfolding drop
dropped = refl

drop-Dropped_example :
    Dropped host host_posix "fronius" "dialout" (drop host "fronius" "dialout" root).0
drop-Dropped_example = drop-Dropped host host_posix "fronius" "dialout" root dropped
