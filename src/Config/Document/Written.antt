-- ===== src/Config/Document/Written.antt =====
-- Parsing what was written.
use fronius_bridge.Prelude.{
  ◌≡◌, refl, true, Bool, not, Option, none, some, ok, throw_if, eq_ok->>=, ◌>>=◌, arith,
}
use fronius_bridge.Config.Types.{
  Parity, no_parity, even, odd, ModbusTcpClientConfig, ModbusRtuConfig, ReconnectDelayConfig,
  ResponseTimeoutConfig, ModbusMaster,
}
use fronius_bridge.Config.Yaml.{ParseError, or_default}
use fronius_bridge.Config.Parse.{
  parity_or_throw, check_line_settings, check_polling, parse_parity, parse_tcp_client, parse_rtu,
  parse_reconnect_delay, parse_response_timeout, parse_modbus_master,
}
use fronius_bridge.Config.Parse.Ranges.{IsInRange, IsTcp, IsRtu, IsTimeout, Rises}
use fronius_bridge.Config.Document.{
  document, write_tcp, write_rtu, write_polling, section, write_parity, words_of, write_timeout,
  write_delay, write_master, with_tcp, with_rtu,
}

module _ (F : Type 0) where
  tcp_written :
      (t : ModbusTcpClientConfig)
      → IsTcp (some t)
      → parse_tcp_client (document {F = F}) (some (write_tcp t)) ≡ ok (some t)
  unfolding parse_tcp_client
  tcp_written t h = ground arith

  timeout_written :
      (t : ResponseTimeoutConfig)
      → IsTimeout t
      → parse_response_timeout (document {F = F}) (some (write_timeout t)) ≡ ok t
  unfolding parse_response_timeout
  timeout_written t h = ground arith

  delay_written :
      (d : ReconnectDelayConfig)
      → Rises d
      → parse_reconnect_delay (document {F = F}) (some (write_delay d)) ≡ ok d
  unfolding parse_reconnect_delay
  delay_written d h = ground arith

  line_accepted :
      (r : ModbusRtuConfig)
      → IsRtu (some r)
      → check_line_settings r.baud r.data_bits r.stop_bits ≡ ok tt
  unfolding check_line_settings
  line_accepted r h = ground arith

  parity_written :
      (p : Parity)
      → parity_or_throw (parse_parity (or_default (words_of (write_parity {F = F} p)) "none"))
        ≡ ok p
  unfolding parse_parity
  parity_written no_parity = refl
  parity_written even = refl
  parity_written odd = refl

  rtu_written :
      (r : ModbusRtuConfig)
      → IsRtu (some r)
      → parse_rtu (document {F = F}) (some (write_rtu r)) ≡ ok (some r)
  unfolding parse_rtu
  rtu_written r h =
      eq_ok->>= (check_line_settings r.baud r.data_bits r.stop_bits) _ (line_accepted r h) (
        eq_ok->>=
          (parity_or_throw
            (parse_parity (or_default (words_of (write_parity {F = F} r.parity)) "none")))
          _ (parity_written r.parity) refl)

  accepted : (b : Bool) (x : ParseError) → b ≡ true → throw_if (not b) x ≡ ok tt
  accepted b x h = ground arith

  polling_accepted :
      (m : ModbusMaster) → IsInRange m → check_polling m.slave_id m.update_interval ≡ ok tt
  unfolding check_polling
  polling_accepted m h = ground (arith, h.unit_id, h.interval)

  -- What is left to parse once the transport is found.
  polling_written :
      (m : ModbusMaster)
      → IsInRange m
      → (parse_response_timeout (document {F = F}) (some (write_timeout m.response_timeout))
          >>= λ timeout.
              (parse_reconnect_delay (document {F = F}) (some (write_delay m.reconnect_delay))
                >>= λ delay.
                    (check_polling m.slave_id m.update_interval >>= λ _.
                    ok (record m { response_timeout = timeout; reconnect_delay = delay }))))
        ≡ ok m
  polling_written m h =
      eq_ok->>= (parse_response_timeout document (some (write_timeout m.response_timeout))) _
        (timeout_written m.response_timeout h.timeout)
        (eq_ok->>= (parse_reconnect_delay document (some (write_delay m.reconnect_delay))) _
          (delay_written m.reconnect_delay h.delay)
          (eq_ok->>= (check_polling m.slave_id m.update_interval) _ (polling_accepted m h) refl))

  fields_written :
      (t : Option ModbusTcpClientConfig) (r : Option ModbusRtuConfig) (m : ModbusMaster)
      → IsInRange (record m { tcp = t; rtu = r })
      → parse_modbus_master document (section (with_tcp t (with_rtu r (write_polling {F = F} m))))
        ≡ ok (record m { tcp = t; rtu = r })
  unfolding parse_modbus_master parse_tcp_client parse_rtu
  fields_written (some t) (some r) m h = absurd (ground (arith, h.one_transport))
  fields_written none none m h = absurd (ground (arith, h.one_transport))
  fields_written (some t) none m h =
      eq_ok->>= (parse_tcp_client (document {F = F}) (some (write_tcp t))) _ (tcp_written t h.tcp)
        (polling_written (record m { tcp = some t; rtu = none }) h)
  fields_written none (some r) m h =
      eq_ok->>= (parse_rtu (document {F = F}) (some (write_rtu r))) _ (rtu_written r h.rtu)
        (polling_written (record m { tcp = none; rtu = some r }) h)

  -- The settings of a Modbus master that are in their ranges are read back unchanged from the document that
  -- writes them all out.
  pub parse_modbus_master-written :
      (m : ModbusMaster)
      → IsInRange m
      → parse_modbus_master document (write_master {F = F} m) ≡ ok m
  parse_modbus_master-written m h = fields_written m.tcp m.rtu m h
