-- ===== src/Tests/Server.antt =====
-- Blocks and clients of the egress server, and configurations in a small JSON and on a command line.
use Prim.Native.String.{String}
use text.Mathlib.Text.{◌==◌ as str_eq}
use qpsk_b.Base.{
  inr, ℕ, ◌≡◌, ◌<◌, ◌^◌, refl, Bool, true, false, [], ◌∷◌, ◌++◌, map, ltb, if◌then◌else◌, arith,
}
use qpsk_b.Base.Result.{Result, ok, err}
use qpsk_b.Ltp.Egress.{TcpEgress, new_egress, serve, connect, delivered, connected, stopped}
use qpsk_b.Ltp.Egress.Invariant.{IsValid, serve-IsValid}
use qpsk_b.Ltp.Egress.Writes.{connect-loses}
use qpsk_b.Ltp.Config.{LtpClaConfig, Json, JsonError, type_error, defaults, from_json, to_json}
use qpsk_b.Ltp.Config.Arguments.Numerals.{size}
use qpsk_b.Ltp.Config.Overrides.{apply_cli_overrides}
use qpsk_b.Ltp.Config.Overrides.Values.{Values, all_fields, AreValues}
use qpsk_b.Ltp.Config.Overrides.RoundTrip.{argument, apply_cli_overrides-all_fields}
use qpsk_b.Ltp.Config.RoundTrip.{Fits, from_json-to_json}

-- The limit is of twelve bytes: the second block drives out the first, and reaches the client in two writes.
serve-IsValid_example : IsValid 12 (
    serve
      (delivered [] (1 ∷ 2 ∷ 3 ∷ [])
        ∷ delivered [] (4 ∷ 5 ∷ [])
        ∷ connected (2 ∷ 4 ∷ []) 7
        ∷ stopped
        ∷ [])
      (new_egress 12))
serve-IsValid_example =
    serve-IsValid 12
      (delivered [] (1 ∷ 2 ∷ 3 ∷ [])
        ∷ delivered [] (4 ∷ 5 ∷ [])
        ∷ connected (2 ∷ 4 ∷ []) 7
        ∷ stopped
        ∷ [])
      (omega arith) (omega arith, (omega arith, (tt, (tt, tt))))

abbrev waiting : TcpEgress
waiting = record {
  max_buffer_bytes = 100;
  client_fds = [];
  buffer = (0 ∷ 0 ∷ 0 ∷ 1 ∷ 9 ∷ []) ∷ [];
  buffer_bytes = 5;
  log = [];
}

connect-loses_example :
    ((connect (0 ∷ []) 7 waiting).buffer ≡ [])
    × ((connect (0 ∷ []) 7 waiting).client_fds ≡ [])
    × ((connect (0 ∷ []) 7 waiting).log ≡ waiting.log ++ ((7, []) ∷ []))
connect-loses_example = connect-loses [] 7 0 (0 ∷ 0 ∷ 1 ∷ 9 ∷ []) [] waiting refl refl

-- A value, and an object as its last assignment and the object before it.
data Value : Type 0 where
  null : Value
  number : ℕ → Value
  words : String → Value
  boolean : Bool → Value
  entry : String → Value → Value → Value

abbrev contains : Value → String → Bool
contains (entry k v rest) l = if str_eq k l then true else contains rest l
contains v l = false

abbrev at : Value → String → Value
at (entry k v rest) l = if str_eq k l then v else at rest l
at v l = null

abbrev get_number : ℕ → Value → Result JsonError ℕ
get_number w (number n) = if ltb n (2 ^ w) then ok n else err type_error
get_number w v = err type_error

abbrev get_string : Value → Result JsonError String
get_string (words s) = ok s
get_string v = err type_error

abbrev get_bool : Value → Result JsonError Bool
get_bool (boolean b) = ok b
get_bool v = err type_error

get_number-number : (w n : ℕ) → n < 2 ^ w → get_number w (number n) ≡ ok n
get_number-number w n h = let t : ltb n (2 ^ w) ≡ true = ground (arith, h) in rw t refl

abbrev small_json : Json
small_json = record {
  Value = Value;
  Object = Value;
  null = null;
  of_object = λ o. o;
  of_number = number;
  of_string = words;
  of_bool = boolean;
  assign = λ o k v. entry k v o;
  section = at;
  contains = contains;
  at = at;
  get_number = get_number;
  get_string = get_string;
  get_bool = get_bool;
  Text = Value;
  dump = λ v. v;
  parse = ok;
  section-null = λ k. refl;
  section-assign = λ j o k l. refl;
  contains-assign = λ j v k l. refl;
  at-assign = λ j v k l. refl;
  get-of_number = get_number-number;
  get-of_string = λ s. refl;
  get-of_bool = λ b. refl;
  parse-dump = λ j. refl;
}

from_json-to_json_example : from_json small_json (to_json small_json defaults) ≡ ok defaults
from_json-to_json_example = from_json-to_json small_json defaults (
    unfold defaults in
    record {
      local_engine_id = omega arith;
      remote_engine_id = omega arith;
      max_segment_size = omega arith;
      retransmission_timeout_ms = omega arith;
      max_retransmissions = omega arith;
      max_concurrent_sessions = omega arith;
      tx_port = omega arith;
      rx_port = omega arith;
      initial_reconnect_delay_ms = omega arith;
      max_reconnect_delay_ms = omega arith;
      ingress_port = omega arith;
      egress_port = omega arith;
      max_buffer_bytes = omega arith;
    })

abbrev chosen : LtpClaConfig
chosen = record {
  ltp = record {
    local_engine_id = 1;
    remote_engine_id = 2;
    max_segment_size = 14;
    retransmission_timeout_ms = 3;
    max_retransmissions = 4;
    max_concurrent_sessions = 5;
  };
  cla = record {
    tx_addr = "a";
    tx_port = 6;
    rx_addr = "a";
    rx_port = 7;
    initial_reconnect_delay_ms = 8;
    max_reconnect_delay_ms = 9;
  };
  ingress = record { bind_addr = "a"; port = 4; default_reliable = true };
  egress = record { bind_addr = "a"; port = 5; max_buffer_bytes = 9 };
  log_level = "off";
}

abbrev values : Values
values = record {
  local_engine_id = "1";
  remote_engine_id = "2";
  max_segment_size = "14";
  retransmission_timeout_ms = "3";
  max_retransmissions = "4";
  max_concurrent_sessions = "5";
  tx_addr = "a";
  tx_port = "6";
  rx_addr = "a";
  rx_port = "7";
  initial_reconnect_delay_ms = "8";
  max_reconnect_delay_ms = "9";
  ingress_bind_addr = "a";
  ingress_port = "4";
  default_reliable = "1";
  egress_bind_addr = "a";
  egress_port = "5";
  max_buffer_bytes = "9";
  log_level = "off";
}

chosen-Fits : Fits chosen
chosen-Fits = record {
  local_engine_id = omega arith;
  remote_engine_id = omega arith;
  max_segment_size = omega arith;
  retransmission_timeout_ms = omega arith;
  max_retransmissions = omega arith;
  max_concurrent_sessions = omega arith;
  tx_port = omega arith;
  rx_port = omega arith;
  initial_reconnect_delay_ms = omega arith;
  max_reconnect_delay_ms = omega arith;
  ingress_port = omega arith;
  egress_port = omega arith;
  max_buffer_bytes = omega arith;
}

values-AreValues : AreValues chosen values
unfolding size
values-AreValues = record {
  local_engine_id = (omega arith, refl);
  remote_engine_id = (omega arith, refl);
  max_segment_size = (1, 4, omega arith, refl, refl, (omega arith, refl));
  retransmission_timeout_ms = (omega arith, refl);
  max_retransmissions = (omega arith, refl);
  max_concurrent_sessions = (omega arith, refl);
  tx_addr = refl;
  tx_port = (omega arith, refl);
  rx_addr = refl;
  rx_port = (omega arith, refl);
  initial_reconnect_delay_ms = (omega arith, refl);
  max_reconnect_delay_ms = (omega arith, refl);
  ingress_bind_addr = refl;
  ingress_port = (omega arith, refl);
  default_reliable = inr refl;
  egress_bind_addr = refl;
  egress_port = (omega arith, refl);
  max_buffer_bytes = (omega arith, refl);
  log_level = refl;
}

apply_cli_overrides-all_fields_example :
    apply_cli_overrides ("ltp_cla" ∷ map argument (all_fields values)) defaults ≡ chosen
apply_cli_overrides-all_fields_example =
    apply_cli_overrides-all_fields "ltp_cla" chosen defaults values chosen-Fits values-AreValues
