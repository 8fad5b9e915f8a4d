-- ===== src/Config/Buses/Lookup.antt =====
-- That main finds every device's bus in the registry.
use fronius_bridge.Prelude.{
  ◌≡◌, ◌≢◌, ◌⊎◌, refl, sym, ◌∙◌, ap, String, some, List, [], ◌∷◌, ◌++◌, All, All-append, All-map,
  find, ◌==◌, text_eq, option_eq, option_beq_iff, if-split, Option-cases, inl, inr, arith,
}
use fronius_bridge.Config.Types.{Devices}
use fronius_bridge.Config.Validate.Refs.{DeviceRef, bus_key, inverter_refs, meter_refs, masters}
use fronius_bridge.Config.Buses.Derive.{BusMember, BusInfo}
use fronius_bridge.Config.Buses.Fold.{refs_on, members_of, members_at, devices_on}

-- `buses.at` has an entry for the key of a device.
abbrev pub HasBus : List (String × BusInfo) → DeviceRef → Type 0
HasBus buses d = (k : String) → bus_key d ≡ some k → (b : BusInfo) × (find k buses ≡ some b)

abbrev Listed : List DeviceRef → DeviceRef → Type 0
Listed ds d = (k : String) → bus_key d ≡ some k → refs_on k ds ≢ []

refs_on-first : (d : DeviceRef) (ds : List DeviceRef) → Listed (d ∷ ds) d
refs_on-first d ds k h =
    if-split {A = List BusMember} (λ l. l ≢ []) (bus_key d == some k) _ _ (λ t e. cc)
      (λ f e. absurd (ground (arith, option_beq_iff text_eq (bus_key d) (some k))))

refs_on-rest :
    (d : DeviceRef) (ds : List DeviceRef) (x : DeviceRef) → Listed ds x → Listed (d ∷ ds) x
refs_on-rest d ds x more k h =
    if-split {A = List BusMember} (λ l. l ≢ []) (bus_key d == some k) _ _ (λ t e. cc)
      (λ f. more k h)

All-Listed : (ds : List DeviceRef) → All (Listed ds) ds
All-Listed [] = tt
All-Listed (d ∷ ds) = (refs_on-first d ds, All-map ds (refs_on-rest d ds) (All-Listed ds))

not_both : (xs ys : List BusMember) → (xs ≢ []) ⊎ (ys ≢ []) → xs ++ ys ≢ []
not_both [] ys (inl h) = absurd (h refl)
not_both [] ys (inr h) = h
not_both (x ∷ xs) ys h = λ e. cc

nonempty-found :
    (k : String) (buses : List (String × BusInfo))
    → members_at k buses ≢ []
    → (b : BusInfo) × (find k buses ≡ some b)
nonempty-found k buses h = elim (Option-cases (find k buses)) [
  | inl e ↦ absurd (h (ap members_of e))
  | inr (b, e) ↦ (b, e)
]

-- A registry that lists the devices under their keys has a bus for every master.
pub masters-HasBus :
    {F : Type 0} (cfg : Devices F) (buses : List (String × BusInfo))
    → ((k : String) → members_at k buses ≡ devices_on k cfg)
    → All (HasBus buses) (masters cfg)
unfolding masters
masters-HasBus cfg buses lists =
    let is = inverter_refs 0 cfg.inverters in
    let ms = meter_refs 0 cfg.meters in
    let found : (d : DeviceRef) → Listed is d ⊎ Listed ms d → HasBus buses d = (λ d l k h.
      nonempty-found k buses (λ e.
        not_both (refs_on k ms) (refs_on k is)
          (elim l [ inl x ↦ inr (x k h) | inr x ↦ inl (x k h) ]) (sym (lists k) ∙ e))) in
    All-append (HasBus buses) is ms (All-map is (λ d x. found d (inl x)) (All-Listed is))
      (All-map ms (λ d x. found d (inr x)) (All-Listed ms))
