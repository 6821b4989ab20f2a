-- ===== src/Ltp/Config/Overrides/Values.antt =====
-- The values for all fields of a configuration, as they are written on the command line.
use Prim.Native.String.{String}
use text.Mathlib.Text.{◌==◌ as str_eq}
use qpsk_b.Base.{◌≡◌, ap, Bool, true, false, ◌||◌, List, [], ◌∷◌, ◌⊎◌, inl, inr}
use qpsk_b.Ltp.Config.{LtpClaConfig}
use qpsk_b.Ltp.Config.Arguments.Numerals.{IsNumeral}

pub record Values : Type 0 where
  pub local_engine_id : String
  pub remote_engine_id : String
  pub max_segment_size : String
  pub retransmission_timeout_ms : String
  pub max_retransmissions : String
  pub max_concurrent_sessions : String
  pub tx_addr : String
  pub tx_port : String
  pub rx_addr : String
  pub rx_port : String
  pub initial_reconnect_delay_ms : String
  pub max_reconnect_delay_ms : String
  pub ingress_bind_addr : String
  pub ingress_port : String
  pub default_reliable : String
  pub egress_bind_addr : String
  pub egress_port : String
  pub max_buffer_bytes : String
  pub log_level : String

unfoldable pub all_fields : Values → List (String × String)
all_fields v =
    ("ltp.local_engine_id", v.local_engine_id)
    ∷ ("ltp.remote_engine_id", v.remote_engine_id)
    ∷ ("ltp.max_segment_size", v.max_segment_size)
    ∷ ("ltp.retransmission_timeout_ms", v.retransmission_timeout_ms)
    ∷ ("ltp.max_retransmissions", v.max_retransmissions)
    ∷ ("ltp.max_concurrent_sessions", v.max_concurrent_sessions)
    ∷ ("cla.tx_addr", v.tx_addr)
    ∷ ("cla.tx_port", v.tx_port)
    ∷ ("cla.rx_addr", v.rx_addr)
    ∷ ("cla.rx_port", v.rx_port)
    ∷ ("cla.initial_reconnect_delay_ms", v.initial_reconnect_delay_ms)
    ∷ ("cla.max_reconnect_delay_ms", v.max_reconnect_delay_ms)
    ∷ ("ingress.bind_addr", v.ingress_bind_addr)
    ∷ ("ingress.port", v.ingress_port)
    ∷ ("ingress.default_reliable", v.default_reliable)
    ∷ ("egress.bind_addr", v.egress_bind_addr)
    ∷ ("egress.port", v.egress_port)
    ∷ ("egress.max_buffer_bytes", v.max_buffer_bytes)
    ∷ ("log_level", v.log_level)
    ∷ []

-- What is written for a Boolean.
abbrev pub IsWord : String → Bool → Type 0
IsWord s true = (s ≡ "true") ⊎ (s ≡ "1")
IsWord s false = s ≡ "false"

pub IsWord-tests : (s : String) (b : Bool) → IsWord s b → (str_eq s "true" || str_eq s "1") ≡ b
IsWord-tests s true (inl e) = ap (λ s. str_eq s "true" || str_eq s "1") e
IsWord-tests s true (inr e) = ap (λ s. str_eq s "true" || str_eq s "1") e
IsWord-tests s false e = ap (λ s. str_eq s "true" || str_eq s "1") e

-- The values are those of a configuration: numerals for the numbers, and a word for the Boolean.
pub record AreValues (c : LtpClaConfig) (v : Values) : Type 0 where
  pub local_engine_id : IsNumeral v.local_engine_id c.ltp.local_engine_id
  pub remote_engine_id : IsNumeral v.remote_engine_id c.ltp.remote_engine_id
  pub max_segment_size : IsNumeral v.max_segment_size c.ltp.max_segment_size
  pub retransmission_timeout_ms :
      IsNumeral v.retransmission_timeout_ms c.ltp.retransmission_timeout_ms
  pub max_retransmissions : IsNumeral v.max_retransmissions c.ltp.max_retransmissions
  pub max_concurrent_sessions : IsNumeral v.max_concurrent_sessions c.ltp.max_concurrent_sessions
  pub tx_addr : v.tx_addr ≡ c.cla.tx_addr
  pub tx_port : IsNumeral v.tx_port c.cla.tx_port
  pub rx_addr : v.rx_addr ≡ c.cla.rx_addr
  pub rx_port : IsNumeral v.rx_port c.cla.rx_port
  pub initial_reconnect_delay_ms :
      IsNumeral v.initial_reconnect_delay_ms c.cla.initial_reconnect_delay_ms
  pub max_reconnect_delay_ms : IsNumeral v.max_reconnect_delay_ms c.cla.max_reconnect_delay_ms
  pub ingress_bind_addr : v.ingress_bind_addr ≡ c.ingress.bind_addr
  pub ingress_port : IsNumeral v.ingress_port c.ingress.port
  pub default_reliable : IsWord v.default_reliable c.ingress.default_reliable
  pub egress_bind_addr : v.egress_bind_addr ≡ c.egress.bind_addr
  pub egress_port : IsNumeral v.egress_port c.egress.port
  pub max_buffer_bytes : IsNumeral v.max_buffer_bytes c.egress.max_buffer_bytes
  pub log_level : v.log_level ≡ c.log_level
