-- ===== src/Ltp/Config/RoundTrip.antt =====
-- A configuration written as JSON and read again.
use Prim.Native.String.{String}
use qpsk_b.Base.{◌^◌, ◌<◌, ◌≡◌, refl, true}
use qpsk_b.Base.Result.{Result, ok}
use qpsk_b.Ltp.Engine.State.{LtpEngineConfig}
use qpsk_b.Ltp.Config.{
  Json, JsonError, defaults, LtpClaConfig, ClaConfig, IngressConfig, EgressConfig, put, ltp_json,
  cla_json, ingress_json, egress_json, to_value, to_json, field_or, section_or, read_ltp, read_cla,
  read_ingress, read_egress, from_value, from_json,
}

-- The numbers have the widths of their types.
pub record Fits (c : LtpClaConfig) : Type 0 where
  pub local_engine_id : c.ltp.local_engine_id < 2 ^ 64
  pub remote_engine_id : c.ltp.remote_engine_id < 2 ^ 64
  pub max_segment_size : c.ltp.max_segment_size < 2 ^ 32
  pub retransmission_timeout_ms : c.ltp.retransmission_timeout_ms < 2 ^ 32
  pub max_retransmissions : c.ltp.max_retransmissions < 2 ^ 8
  pub max_concurrent_sessions : c.ltp.max_concurrent_sessions < 2 ^ 32
  pub tx_port : c.cla.tx_port < 2 ^ 16
  pub rx_port : c.cla.rx_port < 2 ^ 16
  pub initial_reconnect_delay_ms : c.cla.initial_reconnect_delay_ms < 2 ^ 32
  pub max_reconnect_delay_ms : c.cla.max_reconnect_delay_ms < 2 ^ 32
  pub ingress_port : c.ingress.port < 2 ^ 16
  pub egress_port : c.egress.port < 2 ^ 16
  pub max_buffer_bytes : c.egress.max_buffer_bytes < 2 ^ 64

module _ (json : Json) where
  open json use {
    Value, Object, null, of_object, of_number, of_string, of_bool, assign, contains, at, get_number,
    get_string, get_bool, section-null, section-assign, contains-assign, at-assign, get-of_number,
    get-of_string, get-of_bool,
  }

  ltp_section : LtpEngineConfig → Object
  ltp_section c =
      assign
        (assign
          (assign
            (assign
              (assign (assign null "local_engine_id" (of_number c.local_engine_id))
                "remote_engine_id" (of_number c.remote_engine_id))
              "max_segment_size" (of_number c.max_segment_size))
            "retransmission_timeout_ms" (of_number c.retransmission_timeout_ms))
          "max_retransmissions" (of_number c.max_retransmissions))
        "max_concurrent_sessions" (of_number c.max_concurrent_sessions)

  cla_section : ClaConfig → Object
  cla_section c =
      assign
        (assign
          (assign
            (assign
              (assign (assign null "tx_addr" (of_string c.tx_addr)) "tx_port" (of_number c.tx_port))
              "rx_addr" (of_string c.rx_addr))
            "rx_port" (of_number c.rx_port))
          "initial_reconnect_delay_ms" (of_number c.initial_reconnect_delay_ms))
        "max_reconnect_delay_ms" (of_number c.max_reconnect_delay_ms)

  ingress_section : IngressConfig → Object
  ingress_section c =
      assign (assign (assign null "bind_addr" (of_string c.bind_addr)) "port" (of_number c.port))
        "default_reliable" (of_bool c.default_reliable)

  egress_section : EgressConfig → Object
  egress_section c =
      assign (assign (assign null "bind_addr" (of_string c.bind_addr)) "port" (of_number c.port))
        "max_buffer_bytes" (of_number c.max_buffer_bytes)

  at-ltp : (c : LtpClaConfig) → at (to_value json c) "ltp" ≡ of_object (ltp_section c.ltp)
  unfolding to_value ltp_json cla_json ingress_json egress_json put ltp_section
  at-ltp c = simp (at-assign, section-assign, section-null)

  at-cla : (c : LtpClaConfig) → at (to_value json c) "cla" ≡ of_object (cla_section c.cla)
  unfolding to_value ltp_json cla_json ingress_json egress_json put cla_section
  at-cla c = simp (at-assign, section-assign, section-null)

  at-ingress :
      (c : LtpClaConfig) → at (to_value json c) "ingress" ≡ of_object (ingress_section c.ingress)
  unfolding to_value ltp_json cla_json ingress_json egress_json put ingress_section
  at-ingress c = simp (at-assign, section-assign, section-null)

  at-egress :
      (c : LtpClaConfig) → at (to_value json c) "egress" ≡ of_object (egress_section c.egress)
  unfolding to_value ltp_json cla_json ingress_json egress_json put egress_section
  at-egress c = simp (at-assign, section-assign, section-null)

  contains-ltp : (c : LtpClaConfig) → contains (to_value json c) "ltp" ≡ true
  unfolding to_value ltp_json cla_json ingress_json egress_json put
  contains-ltp c = simp (contains-assign)

  contains-cla : (c : LtpClaConfig) → contains (to_value json c) "cla" ≡ true
  unfolding to_value ltp_json cla_json ingress_json egress_json put
  contains-cla c = simp (contains-assign)

  contains-ingress : (c : LtpClaConfig) → contains (to_value json c) "ingress" ≡ true
  unfolding to_value ltp_json cla_json ingress_json egress_json put
  contains-ingress c = simp (contains-assign)

  contains-egress : (c : LtpClaConfig) → contains (to_value json c) "egress" ≡ true
  unfolding to_value ltp_json cla_json ingress_json egress_json put
  contains-egress c = simp (contains-assign)

  contains-log_level : (c : LtpClaConfig) → contains (to_value json c) "log_level" ≡ true
  unfolding to_value ltp_json cla_json ingress_json egress_json put
  contains-log_level c = simp (contains-assign)

  read_ltp-ltp_section :
      (c : LtpClaConfig) (old : LtpEngineConfig)
      → Fits c
      → read_ltp json (of_object (ltp_section c.ltp)) old ≡ ok c.ltp
  unfolding read_ltp field_or ltp_section
  read_ltp-ltp_section c old f =
      let e0 = get-of_number 64 c.ltp.local_engine_id f.local_engine_id in
      let e1 = get-of_number 64 c.ltp.remote_engine_id f.remote_engine_id in
      let e2 = get-of_number 32 c.ltp.max_segment_size f.max_segment_size in
      let e3 = get-of_number 32 c.ltp.retransmission_timeout_ms f.retransmission_timeout_ms in
      let e4 = get-of_number 8 c.ltp.max_retransmissions f.max_retransmissions in
      let e5 = get-of_number 32 c.ltp.max_concurrent_sessions f.max_concurrent_sessions in
      simp (at-assign, contains-assign, e0, e1, e2, e3, e4, e5)

  read_cla-cla_section :
      (c : LtpClaConfig) (old : ClaConfig)
      → Fits c
      → read_cla json (of_object (cla_section c.cla)) old ≡ ok c.cla
  unfolding read_cla field_or cla_section
  read_cla-cla_section c old f =
      let e1 = get-of_number 16 c.cla.tx_port f.tx_port in
      let e3 = get-of_number 16 c.cla.rx_port f.rx_port in
      let e4 = get-of_number 32 c.cla.initial_reconnect_delay_ms f.initial_reconnect_delay_ms in
      let e5 = get-of_number 32 c.cla.max_reconnect_delay_ms f.max_reconnect_delay_ms in
      simp (at-assign, contains-assign, get-of_string, e1, e3, e4, e5)

  read_ingress-ingress_section :
      (c : LtpClaConfig) (old : IngressConfig)
      → Fits c
      → read_ingress json (of_object (ingress_section c.ingress)) old ≡ ok c.ingress
  unfolding read_ingress field_or ingress_section
  read_ingress-ingress_section c old f =
      let e1 = get-of_number 16 c.ingress.port f.ingress_port in
      simp (at-assign, contains-assign, get-of_string, e1, get-of_bool)

  read_egress-egress_section :
      (c : LtpClaConfig) (old : EgressConfig)
      → Fits c
      → read_egress json (of_object (egress_section c.egress)) old ≡ ok c.egress
  unfolding read_egress field_or egress_section
  read_egress-egress_section c old f =
      let e1 = get-of_number 16 c.egress.port f.egress_port in
      let e2 = get-of_number 64 c.egress.max_buffer_bytes f.max_buffer_bytes in
      simp (at-assign, contains-assign, get-of_string, e1, e2)

  -- A section that is there is read, over whatever was there before.
  section_or-there :
      {A : Type 0} (read : Value → A → Result JsonError A) (j section : Value) (key : String)
      (old new : A)
      → contains j key ≡ true
      → at j key ≡ section
      → read section old ≡ ok new
      → section_or json read j key old ≡ ok new
  unfolding section_or
  section_or-there read j section key old new there e r = rw (there, e, r) refl

  log_level-back :
      (c : LtpClaConfig) (old : String)
      → field_or json get_string (to_value json c) "log_level" old ≡ ok c.log_level
  unfolding field_or to_value
  log_level-back c old = simp (at-assign, contains-assign, get-of_string)

  from_value-to_value : (c : LtpClaConfig) → Fits c → from_value json (to_value json c) ≡ ok c
  unfolding from_value
  from_value-to_value c f =
      let j = to_value json c in
      let ltp =
        section_or-there (read_ltp json) j (of_object (ltp_section c.ltp)) "ltp" defaults.ltp c.ltp
          (contains-ltp c) (at-ltp c) (read_ltp-ltp_section c defaults.ltp f) in
      let cla =
        section_or-there (read_cla json) j (of_object (cla_section c.cla)) "cla" defaults.cla c.cla
          (contains-cla c) (at-cla c) (read_cla-cla_section c defaults.cla f) in
      let ingress =
        section_or-there (read_ingress json) j (of_object (ingress_section c.ingress)) "ingress"
          defaults.ingress c.ingress (contains-ingress c) (at-ingress c)
          (read_ingress-ingress_section c defaults.ingress f) in
      let egress =
        section_or-there (read_egress json) j (of_object (egress_section c.egress)) "egress"
          defaults.egress c.egress (contains-egress c) (at-egress c)
          (read_egress-egress_section c defaults.egress f) in
      rw (ltp, cla, ingress, egress, log_level-back c defaults.log_level) refl

-- A configuration whose numbers fit their types is the one that `from_json` reads from its own JSON.
pub from_json-to_json :
    (json : Json) (c : LtpClaConfig) → Fits c → from_json json (to_json json c) ≡ ok c
unfolding from_json to_json
from_json-to_json json c f = rw (json.parse-dump (to_value json c)) (from_value-to_value json c f)
