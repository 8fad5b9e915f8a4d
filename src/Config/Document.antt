-- ===== src/Config/Document.antt =====
-- A parsed document as a tree: an instance of what the parsers use of yaml-cpp, and the document that a
-- Modbus master's settings are written to.
pub mod Written
use fronius_bridge.Prelude.{
  String, Bool, true, false, Option, none, some, List, [], ◌∷◌, ℤ, ◌==◌, text_eq, if◌then◌else◌,
}
use fronius_bridge.Config.Types.{
  Parity, no_parity, even, odd, ModbusTcpClientConfig, ModbusRtuConfig, ReconnectDelayConfig,
  ResponseTimeoutConfig, ModbusMaster,
}
use fronius_bridge.Config.Yaml.{Yaml}

mutual
  pub data Doc (F : Type 0) : Type 0 where
    whole : ℤ → Doc F
    words : String → Doc F
    flag : Bool → Doc F
    real : F → Doc F
    sequence : Docs F → Doc F
    section : Fields F → Doc F

  pub data Docs (F : Type 0) : Type 0 where
    end : Docs F
    item : Doc F → Docs F → Docs F

  pub data Fields (F : Type 0) : Type 0 where
    nothing : Fields F
    field : String → Doc F → Fields F → Fields F

module _ {F : Type 0} where
  abbrev pub field_at : Fields F → String → Option (Doc F)
  field_at nothing k = none
  field_at (field j d fs) k = if k == j then some d else field_at fs k

  abbrev pub child_of : Doc F → String → Option (Doc F)
  child_of (section fs) k = field_at fs k
  child_of _ k = none

  abbrev docs_of : Docs F → List (Doc F)
  docs_of end = []
  docs_of (item d ds) = d ∷ docs_of ds

  abbrev pairs_of : Fields F → List (Doc F × Doc F)
  pairs_of nothing = []
  pairs_of (field k d fs) = (words k, d) ∷ pairs_of fs

  abbrev items_of : Doc F → List (Doc F)
  items_of (sequence ds) = docs_of ds
  items_of _ = []

  abbrev entries_of : Doc F → List (Doc F × Doc F)
  entries_of (section fs) = pairs_of fs
  entries_of _ = []

  abbrev sequence_doc : Doc F → Bool
  sequence_doc (sequence ds) = true
  sequence_doc _ = false

  abbrev section_doc : Doc F → Bool
  section_doc (section fs) = true
  section_doc _ = false

  abbrev whole_of : Doc F → Option ℤ
  whole_of (whole n) = some n
  whole_of _ = none

  abbrev words_of : Doc F → Option String
  words_of (words s) = some s
  words_of _ = none

  abbrev flag_in : Doc F → Option Bool
  flag_in (flag b) = some b
  flag_in _ = none

  abbrev real_of : Doc F → Option F
  real_of (real x) = some x
  real_of _ = none

  abbrev pub document : Yaml (Doc F) F
  document = record {
    child = child_of;
    is_null = λ d. false;
    is_map = section_doc;
    is_sequence = sequence_doc;
    items = items_of;
    entries = entries_of;
    as_int = whole_of;
    as_text = words_of;
    as_flag = flag_in;
    as_number = real_of;
  }

  abbrev pub write_tcp : ModbusTcpClientConfig → Doc F
  write_tcp t = section (field "host" (words t.host) (field "port" (whole t.port) nothing))

  abbrev pub write_parity : Parity → Doc F
  write_parity no_parity = words "none"
  write_parity even = words "even"
  write_parity odd = words "odd"

  abbrev pub write_rtu : ModbusRtuConfig → Doc F
  write_rtu r = section (
      field "device" (words r.device) (
        field "baud" (whole r.baud) (
          field "data_bits" (whole r.data_bits) (
            field "stop_bits" (whole r.stop_bits)
              (field "parity" (write_parity r.parity) nothing)))))

  abbrev pub write_timeout : ResponseTimeoutConfig → Doc F
  write_timeout t = section (field "sec" (whole t.sec) (field "usec" (whole t.usec) nothing))

  abbrev pub write_delay : ReconnectDelayConfig → Doc F
  write_delay d = section (
      field "min" (whole d.min)
        (field "max" (whole d.max) (field "exponential" (flag d.exponential) nothing)))

  abbrev pub with_tcp : Option ModbusTcpClientConfig → Fields F → Fields F
  with_tcp none fs = fs
  with_tcp (some t) fs = field "tcp" (write_tcp t) fs

  abbrev pub with_rtu : Option ModbusRtuConfig → Fields F → Fields F
  with_rtu none fs = fs
  with_rtu (some r) fs = field "rtu" (write_rtu r) fs

  abbrev pub write_polling : ModbusMaster → Fields F
  write_polling m = field "unit_id" (whole m.slave_id) (
      field "update_interval" (whole m.update_interval) (
        field "response_timeout" (write_timeout m.response_timeout)
          (field "reconnect_delay" (write_delay m.reconnect_delay) nothing)))

  abbrev pub write_master : ModbusMaster → Doc F
  write_master m = section (with_tcp m.tcp (with_rtu m.rtu (write_polling m)))
