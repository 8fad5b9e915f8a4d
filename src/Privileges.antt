-- ===== src/Privileges.antt =====
-- include/privileges.h: giving up root for good. The user database, `strtol` and the kernel are parameters.
use fronius_bridge.Prelude.{
  ℕ, ◌%◌, ◌^◌, ◌≡◌, ◌≢◌, refl, Bool, true, false, Option, none, some, String, ℤ, pos, negsuc, ◌==◌,
  text_eq, if◌then◌else◌, Result, ok, err, sym, ◌∙◌, inl, inr, Bool-cases, if-elim,
}
use mathlib.Core.Path.{subst}

pub record Passwd : Type 0 where
  pub name : String
  pub uid : ℕ
  pub gid : ℕ

pub record Host (P : Type 0) : Type 0 where
  pub getpwnam : String → Option Passwd
  pub getpwuid : ℕ → Option Passwd
  -- the group's id
  pub getgrnam : String → Option ℕ
  pub getgrgid : ℕ → Option ℕ
  -- the number, if the whole text is one
  pub strtol : String → Option ℤ
  -- the calls on a process: what it is after, and whether the call returned 0
  pub initgroups : String → ℕ → P → P × Bool
  pub setgid : ℕ → P → P × Bool
  pub setuid : ℕ → P → P × Bool

pub data DropError : Type 0 where
  no_user unknown_user unknown_group no_groups no_gid no_uid still_root : DropError

-- `static_cast<uid_t>` of a number that is not negative, or no id.
abbrev pub id_of : Option ℤ → Option ℕ
id_of none = none
id_of (some (negsuc n)) = none
id_of (some (pos n)) = some (n % 2 ^ 32)

abbrev pub or_else : {A : Type 0} → Option A → Option A → Option A
or_else none y = y
or_else (some x) y = some x

abbrev pub bind : {A B : Type 0} → Option A → (A → Option B) → Option B
bind none f = none
bind (some x) f = f x

module _ {P : Type 0} (host : Host P) where
  abbrev pub find_user : String → Option Passwd
  find_user user = or_else (host.getpwnam user) (bind (id_of (host.strtol user)) host.getpwuid)

  abbrev pub find_group : String → Option ℕ
  find_group group = or_else (host.getgrnam group) (bind (id_of (host.strtol group)) host.getgrgid)

  abbrev pub target_gid : Passwd → (group : String) → Result DropError ℕ
  target_gid pw group =
      if group == ""
      then ok pw.gid
      else elim (find_group group) [ none ↦ err unknown_group | some gid ↦ ok gid ]

  abbrev pub verify_dropped : P × Bool → P × Result DropError (Unit {0})
  verify_dropped (p, true) = (p, err still_root)
  verify_dropped (p, false) = (p, ok tt)

  abbrev pub after_uid : P × Bool → P × Result DropError (Unit {0})
  after_uid (p, false) = (p, err no_uid)
  after_uid (p, true) = verify_dropped (host.setuid 0 p)

  abbrev pub after_gid : Passwd → P × Bool → P × Result DropError (Unit {0})
  after_gid pw (p, false) = (p, err no_gid)
  after_gid pw (p, true) = after_uid (host.setuid pw.uid p)

  abbrev pub after_groups : Passwd → (gid : ℕ) → P × Bool → P × Result DropError (Unit {0})
  after_groups pw gid (p, false) = (p, err no_groups)
  after_groups pw gid (p, true) = after_gid pw (host.setgid gid p)

  abbrev pub drop_to : Passwd → Result DropError ℕ → P → P × Result DropError (Unit {0})
  drop_to pw (err e) p = (p, err e)
  drop_to pw (ok gid) p = after_groups pw gid (host.initgroups pw.name gid p)

  abbrev pub drop_user : Option Passwd → (group : String) → P → P × Result DropError (Unit {0})
  drop_user none group p = (p, err unknown_user)
  drop_user (some pw) group p = drop_to pw (target_gid pw group) p

  unfoldable pub drop : (user group : String) → P → P × Result DropError (Unit {0})
  drop user group p = if user == "" then (p, err no_user) else drop_user (find_user user) group p

-- What POSIX says of the calls, for a process seen as its user id, group id and groups. A call that fails
-- changes nothing.
pub record IsPosix {P : Type 0} (host : Host P) : Type 1 where
  pub uid : P → ℕ
  pub gid : P → ℕ
  pub InGroupsOf : String → ℕ → P → Type 0
  pub initgroups-ok :
      (name : String) (g : ℕ) (p : P)
      → (host.initgroups name g p).1 ≡ true
      → InGroupsOf name g (host.initgroups name g p).0
  pub setgid-ok : (g : ℕ) (p : P) → (host.setgid g p).1 ≡ true → gid (host.setgid g p).0 ≡ g
  pub setgid-groups :
      (name : String) (g k : ℕ) (p : P)
      → InGroupsOf name k p
      → InGroupsOf name k (host.setgid g p).0
  pub setuid-ok : (u : ℕ) (p : P) → (host.setuid u p).1 ≡ true → uid (host.setuid u p).0 ≡ u
  pub setuid-gid : (u : ℕ) (p : P) → gid (host.setuid u p).0 ≡ gid p
  pub setuid-groups :
      (name : String) (u k : ℕ) (p : P)
      → InGroupsOf name k p
      → InGroupsOf name k (host.setuid u p).0
  pub setuid-failed : (u : ℕ) (p : P) → (host.setuid u p).1 ≡ false → (host.setuid u p).0 ≡ p
  pub setuid-root : (p : P) → uid p ≡ 0 → (host.setuid 0 p).1 ≡ true

module _ {P : Type 0} (host : Host P) (posix : IsPosix host) where
  -- What a process is once its privileges are gone.
  pub record Dropped (user group : String) (p : P) : Type 0 where
    pub pw : Passwd
    pub target : ℕ
    pub is_user : find_user host user ≡ some pw
    pub is_group : target_gid host pw group ≡ ok target
    pub uid_set : posix.uid p ≡ pw.uid
    pub gid_set : posix.gid p ≡ target
    pub groups_set : posix.InGroupsOf pw.name target p
    pub not_root : posix.uid p ≢ 0
    pub no_way_back : (host.setuid 0 p).1 ≡ false

  uid_ok :
      (x : P × Bool)
      → (after_uid host x).1 ≡ ok tt
      → (x.1 ≡ true) × ((host.setuid 0 x.0).1 ≡ false) × ((after_uid host x).0 ≡ x.0)
  uid_ok (p, false) h = cc
  uid_ok (p, true) h = elim (Bool-cases (host.setuid 0 p).1) [
    | inl t ↦ absurd (still_root_err (host.setuid 0 p) t h)
    | inr f ↦ (refl, f, kept (host.setuid 0 p) f ∙ posix.setuid-failed 0 p f)
  ]
    where
      still_root_err : (y : P × Bool) → y.1 ≡ true → (verify_dropped host y).1 ≢ ok tt
      still_root_err (q, true) t = λ e. cc
      still_root_err (q, false) t = cc

      kept : (y : P × Bool) → y.1 ≡ false → (verify_dropped host y).0 ≡ y.0
      kept (q, true) t = cc
      kept (q, false) t = refl

  -- What is known once `setuid` has been called on a process with its group and groups set.
  abbrev Left : Passwd → P → P → Type 0
  Left pw p q =
      (posix.uid q ≡ pw.uid)
      × (posix.gid q ≡ posix.gid p)
      × ((name : String) (k : ℕ) → posix.InGroupsOf name k p → posix.InGroupsOf name k q)
      × ((host.setuid 0 q).1 ≡ false)

  gid_ok :
      (pw : Passwd) (x : P × Bool)
      → (after_gid host pw x).1 ≡ ok tt
      → (x.1 ≡ true) × Left pw x.0 (after_gid host pw x).0
  gid_ok pw (p, false) h = cc
  gid_ok pw (p, true) h =
      let (a, b, c) = uid_ok (host.setuid pw.uid p) h in
      (
        refl,
        subst (Left pw p) (sym c) (
          posix.setuid-ok pw.uid p a,
          posix.setuid-gid pw.uid p,
          (λ name k. posix.setuid-groups name pw.uid k p),
          b,
        ),
      )

  groups_ok :
      (pw : Passwd) (gid : ℕ) (x : P × Bool)
      → (after_groups host pw gid x).1 ≡ ok tt
      → (x.1 ≡ true)
        × ((host.setgid gid x.0).1 ≡ true)
        × Left pw (host.setgid gid x.0).0 (after_groups host pw gid x).0
  groups_ok pw gid (p, false) h = cc
  groups_ok pw gid (p, true) h = let (a, left) = gid_ok pw (host.setgid gid p) h in (refl, a, left)

  to_ok :
      (user group : String) (pw : Passwd) (t : Result DropError ℕ) (p : P)
      → find_user host user ≡ some pw
      → target_gid host pw group ≡ t
      → (drop_to host pw t p).1 ≡ ok tt
      → Dropped user group (drop_to host pw t p).0
  to_ok user group pw (err e) p u g h = cc
  to_ok user group pw (ok gid) p u g h =
      let (a, b, left) = groups_ok pw gid (host.initgroups pw.name gid p) h in
      let (uid, gid_kept, groups_kept, back) = left in
      let p1 = (host.initgroups pw.name gid p).0 in
      record {
        pw = pw;
        target = gid;
        is_user = u;
        is_group = g;
        uid_set = uid;
        gid_set = gid_kept ∙ posix.setgid-ok gid p1 b;
        groups_set =
            groups_kept pw.name gid
              (posix.setgid-groups pw.name gid gid p1 (posix.initgroups-ok pw.name gid p a));
        not_root = λ z. cc (posix.setuid-root _ z, back);
        no_way_back = back;
      }

  user_ok :
      (user group : String) (u : Option Passwd) (p : P)
      → find_user host user ≡ u
      → (drop_user host u group p).1 ≡ ok tt
      → Dropped user group (drop_user host u group p).0
  user_ok user group none p f h = cc
  user_ok user group (some pw) p f h = to_ok user group pw (target_gid host pw group) p f refl h

  -- If `drop` returns and the calls do what POSIX says, the process has the id of the user that the database
  -- names, the group that was asked for or that user's own, and the groups of that user in it; its id is not
  -- that of root, and it cannot take root's id again.
  pub drop-Dropped :
      (user group : String) (p : P)
      → (drop host user group p).1 ≡ ok tt
      → Dropped user group (drop host user group p).0
  unfolding drop
  drop-Dropped user group p =
      if-elim {A = P × Result DropError (Unit {0})} (λ r. r.1 ≡ ok tt → Dropped user group r.0)
        (user == "") (λ h. cc) (user_ok user group (find_user host user) p refl)
