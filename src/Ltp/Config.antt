-- ===== src/Ltp/Config.antt =====
-- include/ltp_cla/config.h and src/ltp_cla/config.cpp: the configuration of the LTP convergence layer
-- and its JSON. The JSON library is a parameter. Reading and writing files is not modelled.
pub mod RoundTrip
pub mod Validation
pub mod Arguments
pub mod Overrides
use Prim.Native.String.{String}
use text.Mathlib.Text.{◌==◌ as str_eq}
use qpsk_b.Base.{
  ℕ, ◌+◌, ◌^◌, ◌<◌, ◌≡◌, Bool, true, false, not, ◌&&◌, ◌||◌, List, [], ◌∷◌, ◌++◌, ltb, ◌==◌,
  if◌then◌else◌,
}
use qpsk_b.Base.Result.{Result, ok, err, ◌>>=◌}
use qpsk_b.Ltp.Engine.State.{LtpEngineConfig}

pub data JsonError : Type 0 where
  parse_error type_error : JsonError

-- What is used of nlohmann::json. An `Object` is null or an object, which `j[key] = v` takes for `j`.
pub record Json : Type 1 where
  pub Value : Type 0
  pub Object : Type 0
  pub null : Object
  pub of_object : Object → Value
  pub of_number : ℕ → Value
  pub of_string : String → Value
  pub of_bool : Bool → Value
  -- `j[key] = v`, and `j[key]` as it is assigned to, null where there is no such key.
  pub assign : Object → String → Value → Object
  pub section : Object → String → Object
  -- `j.contains(key)` and `j[key]`, as they are read.
  pub contains : Value → String → Bool
  pub at : Value → String → Value
  -- `get` at an unsigned type of so many bits, at `std::string` and at `bool`.
  pub get_number : ℕ → Value → Result JsonError ℕ
  pub get_string : Value → Result JsonError String
  pub get_bool : Value → Result JsonError Bool
  -- The text of a file, and `dump(2)` and `parse` for it.
  pub Text : Type 0
  pub dump : Value → Text
  pub parse : Text → Result JsonError Value
  pub section-null : (k : String) → section null k ≡ null
  pub section-assign :
      (j o : Object) (k l : String)
      → section (assign j k (of_object o)) l ≡ (if str_eq k l then o else section j l)
  pub contains-assign :
      (j : Object) (v : Value) (k l : String)
      → contains (of_object (assign j k v)) l
        ≡ (if str_eq k l then true else contains (of_object j) l)
  pub at-assign :
      (j : Object) (v : Value) (k l : String)
      → at (of_object (assign j k v)) l ≡ (if str_eq k l then v else at (of_object j) l)
  pub get-of_number : (w n : ℕ) → n < 2 ^ w → get_number w (of_number n) ≡ ok n
  pub get-of_string : (s : String) → get_string (of_string s) ≡ ok s
  pub get-of_bool : (b : Bool) → get_bool (of_bool b) ≡ ok b
  pub parse-dump : (j : Value) → parse (dump j) ≡ ok j

pub record ClaConfig : Type 0 where
  pub tx_addr : String
  pub tx_port : ℕ
  pub rx_addr : String
  pub rx_port : ℕ
  pub initial_reconnect_delay_ms : ℕ
  pub max_reconnect_delay_ms : ℕ

pub record IngressConfig : Type 0 where
  pub bind_addr : String
  pub port : ℕ
  pub default_reliable : Bool

pub record EgressConfig : Type 0 where
  pub bind_addr : String
  pub port : ℕ
  pub max_buffer_bytes : ℕ

pub record LtpClaConfig : Type 0 where
  pub ltp : LtpEngineConfig
  pub cla : ClaConfig
  pub ingress : IngressConfig
  pub egress : EgressConfig
  pub log_level : String

unfoldable pub defaults : LtpClaConfig
defaults = record {
  ltp = record {
    local_engine_id = 1;
    remote_engine_id = 2;
    max_segment_size = 1400;
    retransmission_timeout_ms = 30000;
    max_retransmissions = 10;
    max_concurrent_sessions = 100;
  };
  cla = record {
    tx_addr = "127.0.0.1";
    tx_port = 5000;
    rx_addr = "127.0.0.1";
    rx_port = 5001;
    initial_reconnect_delay_ms = 1000;
    max_reconnect_delay_ms = 30000;
  };
  ingress = record { bind_addr = "127.0.0.1"; port = 4556; default_reliable = true };
  egress = record { bind_addr = "127.0.0.1"; port = 4557; max_buffer_bytes = 10485760 };
  log_level = "info";
}

module _ (json : Json) where
  open json use {
    Value, Object, null, of_object, of_number, of_string, of_bool, assign, section, contains, at,
    get_number, get_string, get_bool, Text, dump, parse,
  }

  -- `j[name][key] = v`.
  unfoldable pub put : String → String → Value → Object → Object
  put name key v j = assign j name (of_object (assign (section j name) key v))

  unfoldable pub ltp_json : LtpEngineConfig → Object → Object
  ltp_json c j =
      let j = put "ltp" "local_engine_id" (of_number c.local_engine_id) j in
      let j = put "ltp" "remote_engine_id" (of_number c.remote_engine_id) j in
      let j = put "ltp" "max_segment_size" (of_number c.max_segment_size) j in
      let j = put "ltp" "retransmission_timeout_ms" (of_number c.retransmission_timeout_ms) j in
      let j = put "ltp" "max_retransmissions" (of_number c.max_retransmissions) j in
      put "ltp" "max_concurrent_sessions" (of_number c.max_concurrent_sessions) j

  unfoldable pub cla_json : ClaConfig → Object → Object
  cla_json c j =
      let j = put "cla" "tx_addr" (of_string c.tx_addr) j in
      let j = put "cla" "tx_port" (of_number c.tx_port) j in
      let j = put "cla" "rx_addr" (of_string c.rx_addr) j in
      let j = put "cla" "rx_port" (of_number c.rx_port) j in
      let j = put "cla" "initial_reconnect_delay_ms" (of_number c.initial_reconnect_delay_ms) j in
      put "cla" "max_reconnect_delay_ms" (of_number c.max_reconnect_delay_ms) j

  unfoldable pub ingress_json : IngressConfig → Object → Object
  ingress_json c j =
      let j = put "ingress" "bind_addr" (of_string c.bind_addr) j in
      let j = put "ingress" "port" (of_number c.port) j in
      put "ingress" "default_reliable" (of_bool c.default_reliable) j

  unfoldable pub egress_json : EgressConfig → Object → Object
  egress_json c j =
      let j = put "egress" "bind_addr" (of_string c.bind_addr) j in
      let j = put "egress" "port" (of_number c.port) j in
      put "egress" "max_buffer_bytes" (of_number c.max_buffer_bytes) j

  unfoldable pub to_value : LtpClaConfig → Value
  to_value c =
      let j =
        egress_json c.egress (ingress_json c.ingress (cla_json c.cla (ltp_json c.ltp null))) in
      of_object (assign j "log_level" (of_string c.log_level))

  unfoldable pub to_json : LtpClaConfig → Text
  to_json c = dump (to_value c)

  -- `if (j.contains(key)) field = j[key].get<T>()`.
  unfoldable pub field_or :
      {A : Type 0} → (Value → Result JsonError A) → Value → String → A → Result JsonError A
  field_or get j key old = if contains j key then get (at j key) else ok old

  unfoldable pub read_ltp : Value → LtpEngineConfig → Result JsonError LtpEngineConfig
  read_ltp j c = do
    local_engine_id ← field_or (get_number 64) j "local_engine_id" c.local_engine_id
    remote_engine_id ← field_or (get_number 64) j "remote_engine_id" c.remote_engine_id
    max_segment_size ← field_or (get_number 32) j "max_segment_size" c.max_segment_size
    timeout ← field_or (get_number 32) j "retransmission_timeout_ms" c.retransmission_timeout_ms
    max_retransmissions ← field_or (get_number 8) j "max_retransmissions" c.max_retransmissions
    sessions ← field_or (get_number 32) j "max_concurrent_sessions" c.max_concurrent_sessions
    ok (record {
      local_engine_id = local_engine_id;
      remote_engine_id = remote_engine_id;
      max_segment_size = max_segment_size;
      retransmission_timeout_ms = timeout;
      max_retransmissions = max_retransmissions;
      max_concurrent_sessions = sessions;
    })

  unfoldable pub read_cla : Value → ClaConfig → Result JsonError ClaConfig
  read_cla j c = do
    tx_addr ← field_or get_string j "tx_addr" c.tx_addr
    tx_port ← field_or (get_number 16) j "tx_port" c.tx_port
    rx_addr ← field_or get_string j "rx_addr" c.rx_addr
    rx_port ← field_or (get_number 16) j "rx_port" c.rx_port
    initial ← field_or (get_number 32) j "initial_reconnect_delay_ms" c.initial_reconnect_delay_ms
    longest ← field_or (get_number 32) j "max_reconnect_delay_ms" c.max_reconnect_delay_ms
    ok (record {
      tx_addr = tx_addr;
      tx_port = tx_port;
      rx_addr = rx_addr;
      rx_port = rx_port;
      initial_reconnect_delay_ms = initial;
      max_reconnect_delay_ms = longest;
    })

  unfoldable pub read_ingress : Value → IngressConfig → Result JsonError IngressConfig
  read_ingress j c = do
    bind_addr ← field_or get_string j "bind_addr" c.bind_addr
    port ← field_or (get_number 16) j "port" c.port
    default_reliable ← field_or get_bool j "default_reliable" c.default_reliable
    ok (record { bind_addr = bind_addr; port = port; default_reliable = default_reliable })

  unfoldable pub read_egress : Value → EgressConfig → Result JsonError EgressConfig
  read_egress j c = do
    bind_addr ← field_or get_string j "bind_addr" c.bind_addr
    port ← field_or (get_number 16) j "port" c.port
    max_buffer_bytes ← field_or (get_number 64) j "max_buffer_bytes" c.max_buffer_bytes
    ok (record { bind_addr = bind_addr; port = port; max_buffer_bytes = max_buffer_bytes })

  -- A section that is there is read over its defaults.
  unfoldable pub section_or :
      {A : Type 0} → (Value → A → Result JsonError A) → Value → String → A → Result JsonError A
  section_or read j key old = if contains j key then read (at j key) old else ok old

  unfoldable pub from_value : Value → Result JsonError LtpClaConfig
  from_value j = do
    ltp ← section_or read_ltp j "ltp" defaults.ltp
    cla ← section_or read_cla j "cla" defaults.cla
    ingress ← section_or read_ingress j "ingress" defaults.ingress
    egress ← section_or read_egress j "egress" defaults.egress
    log_level ← field_or get_string j "log_level" defaults.log_level
    ok (record { ltp = ltp; cla = cla; ingress = ingress; egress = egress; log_level = log_level })

  unfoldable pub from_json : Text → Result JsonError LtpClaConfig
  from_json json_str = do j ← parse json_str; from_value j
