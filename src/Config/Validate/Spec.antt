-- ===== src/Config/Validate/Spec.antt =====
-- What a configuration that the bridge accepts promises, stated without the maps of the checks.
use fronius_bridge.Prelude.{
  ℕ, ◌+◌, ◌≤◌, ◌≡◌, ◌≢◌, none, some, List, [], ◌∷◌, length, All, Distinct, String,
}
use fronius_bridge.Config.Types.{ModbusRtuConfig, MeterConfig, Devices, meters}
use fronius_bridge.Config.Validate.Refs.{
  Line, bus_key, owner_of, as_easy_meter, masters, master_lines, slave_listens, slave_lines,
}
use fronius_bridge.Config.Validate.Checks.{ref_name, unit_key, listen_key}

abbrev pub Pairs {ℓ κ} : {A : Type ℓ} → (A → A → Type κ) → List A → Type (ℓ ⊔ κ)
Pairs R [] = Unit
Pairs R (x ∷ xs) = All (R x) xs × Pairs R xs

abbrev pub ebz_lines : {F : Type 0} → ℕ → List (MeterConfig F) → List Line
ebz_lines i [] = []
ebz_lines i (m ∷ ms) = elim (as_easy_meter m.body) [
  | none ↦ ebz_lines (i + 1) ms
  | some e ↦ (owner_of meters i m.name, e.rtu) ∷ ebz_lines (i + 1) ms
]

abbrev pub SameLine : ModbusRtuConfig → ModbusRtuConfig → Type 0
SameLine q r =
    (q.baud ≡ r.baud)
    × (q.data_bits ≡ r.data_bits)
    × (q.stop_bits ≡ r.stop_bits)
    × (q.parity ≡ r.parity)

-- Two masters on one serial device use it alike.
abbrev pub Agree : Line → Line → Type 0
Agree k l = l.1.device ≡ k.1.device → SameLine k.1 l.1

abbrev pub line_device : Line → String
line_device l = l.1.device

-- No entry of the list uses the line's device.
abbrev pub Apart : List Line → Line → Type 0
Apart ls l = All (λ k. line_device k ≢ line_device l) ls

pub record IsValid {F : Type 0} (cfg : Devices F) : Type 0 where
  pub one_ebz : length (ebz_lines 0 cfg.meters) ≤ 1
  pub names : Distinct ref_name (masters cfg)
  pub ebz_name : All (λ e. All (λ d. ref_name d ≢ e.0.name) (masters cfg)) (ebz_lines 0 cfg.meters)
  pub transports : All (λ d. bus_key d ≢ none) (masters cfg)
  pub unit_ids : Distinct unit_key (masters cfg)
  pub lines : Pairs Agree (master_lines (masters cfg))
  pub listens : Distinct listen_key (slave_listens 0 cfg.meters)
  pub slaves_apart : All (Apart (master_lines (masters cfg))) (slave_lines 0 cfg.meters)
  pub slaves_differ : Distinct line_device (slave_lines 0 cfg.meters)
  pub ebz_apart : All (Apart (master_lines (masters cfg))) (ebz_lines 0 cfg.meters)
  pub ebz_slaves : All (Apart (slave_lines 0 cfg.meters)) (ebz_lines 0 cfg.meters)
