-- ===== src/Config/Validate/Exact.antt =====
-- `validateConfig` accepts exactly the valid configurations.
use fronius_bridge.Prelude.{
  ◌≡◌, ◌≢◌, ◌↔◌, ◌≤◌, refl, none, some, List, [], ◌∷◌, arith, find, All, All-map, length, text_eq,
  int_eq, option_eq, pair_eq, Eq, ok, Option, >>=-eq-ok, eq_ok->>=,
}
use fronius_bridge.Config.Types.{Devices, Owner}
use fronius_bridge.Config.Validate.Emplace.{
  emplace_all, Absent, emplace_all-Distinct, emplace_all-ok, emplace_all-Absent, emplace_all-free,
}
use fronius_bridge.Config.Validate.Refs.{
  DeviceRef, Line, bus_key, masters, master_lines, slave_listens, slave_lines,
}
use fronius_bridge.Config.Validate.Checks.{
  find_ebz, check_ebz_name, check_transports, check_lines, master_usage, check_slaves, ref_name,
  unit_key, listen_key, clash_names, clash_units, clash_listens, validate_config,
}
use fronius_bridge.Config.Validate.Spec.{ebz_lines, line_device, IsValid}
use fronius_bridge.Config.Validate.Lines.{
  AgreesWith, listed, first, find_ebz-listed, find_ebz-ok, check_lines-Agree, check_lines-ok,
}
use fronius_bridge.Config.Validate.Slaves.{
  line_owner, clash_slaves, check_slaves-emplace, emplace-check_slaves, usage-Apart,
  check_ebz_line_iff, check_ebz_name_iff,
}

check_transports_iff :
    (ds : List DeviceRef) → (check_transports ds ≡ ok tt) ↔ All (λ d. bus_key d ≢ none) ds
unfolding check_transports
check_transports_iff [] = ground arith
check_transports_iff (d ∷ ds) = ground (arith, check_transports_iff ds)

-- At most one element, seen from the list that `find_ebz` returns.
listed-first : (ls : List Line) → length ls ≤ 1 → listed (first ls) ≡ ls
listed-first [] h = refl
listed-first (l ∷ []) h = refl
listed-first (k ∷ l ∷ ls) h = absurd (omega arith)

length-listed : (e : Option Line) → length (listed e) ≤ 1
length-listed none = omega arith
length-listed (some l) = omega arith

nothing_seen {ℓ κ μ} :
    {A : Type ℓ} {K : Type κ} (V : Type μ) ⦃e : Eq K⦄ (key : A → K) (xs : List A)
    → All (λ x. Absent {V = V} [] (key x)) xs
unfolding find
nothing_seen V key [] = tt
nothing_seen V key (x ∷ xs) = (refl, nothing_seen V key xs)

find_nothing {ℓ κ} : {K : Type ℓ} {V : Type κ} ⦃e : Eq K⦄ (k : K) → find {V = V} k [] ≡ none
unfolding find
find_nothing k = refl

nothing_agrees : (ls : List Line) → All (AgreesWith []) ls
unfolding find
nothing_agrees [] = tt
nothing_agrees (l ∷ ls) = ((λ k e. cc), nothing_agrees ls)

module _ {F : Type 0} (cfg : Devices F) where
  pub validate_config-IsValid : validate_config cfg ≡ ok tt → IsValid cfg
  unfolding validate_config
  validate_config-IsValid h =
      let refs = masters cfg in
      let mls = master_lines refs in
      let sls = slave_lines 0 cfg.meters in
      let (ebz, e1, h1) = >>=-eq-ok (find_ebz none 0 cfg.meters) _ h in
      let (names, e2, h2) =
        >>=-eq-ok (emplace_all ref_name (λ d. d.owner) clash_names [] refs) _ h1 in
      let (_, e3, h3) = >>=-eq-ok (check_ebz_name names ebz) _ h2 in
      let (_, e4, h4) = >>=-eq-ok (check_transports refs) _ h3 in
      let (units, e5, h5) =
        >>=-eq-ok (emplace_all unit_key (λ d. d.owner) clash_units [] refs) _ h4 in
      let (_, e6, h6) = >>=-eq-ok (check_lines [] mls) _ h5 in
      let (listens, e7, h7) =
        >>=-eq-ok (emplace_all listen_key (λ e. e.0) clash_listens [] (slave_listens 0 cfg.meters))
          _ h6 in
      let (slaves, e8, h8) = >>=-eq-ok (check_slaves (master_usage [] mls) [] sls) _ h7 in
      let found = find_ebz-listed none 0 cfg.meters e1 in
      let (usage, slots) = check_slaves-emplace (master_usage [] mls) [] sls e8 in
      let (no_master, no_slave) = (check_ebz_line_iff (master_usage [] mls) slaves ebz).0 h8 in
      record {
        one_ebz = rw found at (length-listed ebz);
        names = (emplace_all-Distinct ref_name (λ d. d.owner) clash_names [] refs e2).1;
        ebz_name = rw found at (
            All-map (listed ebz)
              (λ l a.
                (emplace_all-Absent ref_name (λ d. d.owner) clash_names [] refs l.0.name e2 a).1)
              ((check_ebz_name_iff names ebz).0 e3));
        transports = (check_transports_iff refs).0 e4;
        unit_ids = (emplace_all-Distinct unit_key (λ d. d.owner) clash_units [] refs e5).1;
        lines = (check_lines-Agree [] mls e6).1;
        listens =
            (emplace_all-Distinct listen_key (λ e. e.0) clash_listens []
              (slave_listens 0 cfg.meters) e7).1;
        slaves_apart = (usage-Apart mls sls).0 usage;
        slaves_differ = (emplace_all-Distinct line_device line_owner clash_slaves [] sls slots).1;
        ebz_apart = rw found at ((usage-Apart mls (listed ebz)).0 no_master);
        ebz_slaves = rw found at (
            All-map (listed ebz)
              (λ l a.
                (emplace_all-Absent line_device line_owner clash_slaves [] sls (line_device l) slots
                  a).1)
              no_slave);
      }

  pub IsValid-validate_config : IsValid cfg → validate_config cfg ≡ ok tt
  unfolding validate_config
  IsValid-validate_config v =
      let refs = masters cfg in
      let mls = master_lines refs in
      let sls = slave_lines 0 cfg.meters in
      let els = ebz_lines 0 cfg.meters in
      let found = listed-first els v.one_ebz in
      let e1 = find_ebz-ok none 0 cfg.meters v.one_ebz in
      let (names, e2) =
        emplace_all-ok ref_name (λ d. d.owner) clash_names [] refs
          (nothing_seen Owner ref_name refs) v.names in
      let e3 = (check_ebz_name_iff names (first els)).1 (
        rw found (
          All-map els
            (λ l.
              emplace_all-free ref_name (λ d. d.owner) clash_names [] refs l.0.name e2
                (find_nothing l.0.name))
            v.ebz_name)) in
      let e4 = (check_transports_iff refs).1 v.transports in
      let (units, e5) =
        emplace_all-ok unit_key (λ d. d.owner) clash_units [] refs
          (nothing_seen Owner unit_key refs) v.unit_ids in
      let e6 = check_lines-ok [] mls (nothing_agrees mls) v.lines in
      let (listens, e7) =
        emplace_all-ok listen_key (λ e. e.0) clash_listens [] (slave_listens 0 cfg.meters)
          (nothing_seen Owner listen_key (slave_listens 0 cfg.meters)) v.listens in
      let (slaves, slots) =
        emplace_all-ok line_device line_owner clash_slaves [] sls
          (nothing_seen Owner line_device sls) v.slaves_differ in
      let e8 =
        emplace-check_slaves (master_usage [] mls) [] sls ((usage-Apart mls sls).1 v.slaves_apart)
          slots in
      let e9 = (check_ebz_line_iff (master_usage [] mls) slaves (first els)).1 (
        rw found (
          (usage-Apart mls els).1 v.ebz_apart,
          All-map els
              (λ l.
                emplace_all-free line_device line_owner clash_slaves [] sls (line_device l) slots
                  (find_nothing (line_device l)))
              v.ebz_slaves,
        )) in
      eq_ok->>= _ _ e1 (
        eq_ok->>= _ _ e2 (
          eq_ok->>= _ _ e3 (
            eq_ok->>= _ _ e4
              (eq_ok->>= _ _ e5 (eq_ok->>= _ _ e6 (eq_ok->>= _ _ e7 (eq_ok->>= _ _ e8 e9)))))))

-- The checks across sections pass exactly if the configuration is valid: at most one EasyMeter, device
-- names that differ, a transport for every master, unit ids that differ on each bus, masters that
-- agree on the parameters of a shared serial line, slaves that listen on different endpoints, and
-- serial lines of slaves and of the EasyMeter that nothing else uses.
pub validate_config_iff :
    {F : Type 0} (cfg : Devices F) → (validate_config cfg ≡ ok tt) ↔ IsValid cfg
validate_config_iff cfg = (validate_config-IsValid cfg, IsValid-validate_config cfg)
