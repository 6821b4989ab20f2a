-- ===== src/Ltp/Config/Overrides.antt =====
-- `LtpClaConfig::apply_cli_overrides`: the arguments `--section.field=value` of the command line. A
-- number is cast to the width of its field; what `std::stoul` throws is ignored with its argument.
pub mod Values
pub mod RoundTrip
use Prim.Native.String.{String}
use text.Mathlib.Text.{◌==◌ as str_eq}
use qpsk_b.Base.{
  ℕ, ◌%◌, ◌^◌, Bool, true, false, ◌||◌, Option, none, some, List, [], ◌∷◌, if◌then◌else◌,
}
use qpsk_b.Ltp.Engine.State.{LtpEngineConfig}
use qpsk_b.Ltp.Config.{LtpClaConfig, ClaConfig}
use qpsk_b.Ltp.Config.Arguments.{key_and_value, stoull}

-- A chain of `else if`: the first test that holds, and else the configuration as it is.
unfoldable pub first_of : List (Bool × LtpClaConfig) → LtpClaConfig → LtpClaConfig
first_of [] c = c
first_of ((test, new) ∷ tests) c = let rest = first_of tests c in if test then new else rest

-- The field is set to the number in a value, if there is one.
unfoldable pub with_number : Option ℕ → (ℕ → LtpClaConfig) → LtpClaConfig → LtpClaConfig
with_number none set c = c
with_number (some n) set c = set n

unfoldable pub set_field : String → String → LtpClaConfig → LtpClaConfig
set_field key val c =
    let n = stoull val in
    let is = str_eq key in
    let ltp : (ℕ → LtpEngineConfig) → LtpClaConfig =
      λ set. with_number n (λ n. record c { ltp = set n }) c in
    let cla : (ℕ → ClaConfig) → LtpClaConfig =
      λ set. with_number n (λ n. record c { cla = set n }) c in
    first_of
      ((is "ltp.local_engine_id", ltp (λ n. record c.ltp { local_engine_id = n }))
        ∷ (is "ltp.remote_engine_id", ltp (λ n. record c.ltp { remote_engine_id = n }))
        ∷ (is "ltp.max_segment_size", ltp (λ n. record c.ltp { max_segment_size = n % 2 ^ 32 }))
        ∷ (
          is "ltp.retransmission_timeout_ms",
          ltp (λ n. record c.ltp { retransmission_timeout_ms = n % 2 ^ 32 }),
        )
        ∷ (
          is "ltp.max_retransmissions",
          ltp (λ n. record c.ltp { max_retransmissions = n % 2 ^ 8 }),
        )
        ∷ (
          is "ltp.max_concurrent_sessions",
          ltp (λ n. record c.ltp { max_concurrent_sessions = n % 2 ^ 32 }),
        )
        ∷ (is "cla.tx_addr", record c { cla = record c.cla { tx_addr = val } })
        ∷ (is "cla.tx_port", cla (λ n. record c.cla { tx_port = n % 2 ^ 16 }))
        ∷ (is "cla.rx_addr", record c { cla = record c.cla { rx_addr = val } })
        ∷ (is "cla.rx_port", cla (λ n. record c.cla { rx_port = n % 2 ^ 16 }))
        ∷ (
          is "cla.initial_reconnect_delay_ms",
          cla (λ n. record c.cla { initial_reconnect_delay_ms = n % 2 ^ 32 }),
        )
        ∷ (
          is "cla.max_reconnect_delay_ms",
          cla (λ n. record c.cla { max_reconnect_delay_ms = n % 2 ^ 32 }),
        )
        ∷ (is "ingress.bind_addr", record c { ingress = record c.ingress { bind_addr = val } })
        ∷ (
          is "ingress.port",
          with_number n (λ n. record c { ingress = record c.ingress { port = n % 2 ^ 16 } }) c,
        )
        ∷ (
          is "ingress.default_reliable",
          record c {
            ingress = record c.ingress { default_reliable = str_eq val "true" || str_eq val "1" };
          },
        )
        ∷ (is "egress.bind_addr", record c { egress = record c.egress { bind_addr = val } })
        ∷ (
          is "egress.port",
          with_number n (λ n. record c { egress = record c.egress { port = n % 2 ^ 16 } }) c,
        )
        ∷ (
          is "egress.max_buffer_bytes",
          with_number n (λ n. record c { egress = record c.egress { max_buffer_bytes = n } }) c,
        )
        ∷ (is "log_level", record c { log_level = val })
        ∷ [])
      c

unfoldable pub apply_argument : String → LtpClaConfig → LtpClaConfig
apply_argument arg c = elim (key_and_value arg) [ none ↦ c | some p ↦ set_field p.0 p.1 c ]

unfoldable pub apply_arguments : List String → LtpClaConfig → LtpClaConfig
apply_arguments [] c = c
apply_arguments (arg ∷ args) c = apply_arguments args (apply_argument arg c)

-- The first of the arguments is the name of the program.
unfoldable pub apply_cli_overrides : List String → LtpClaConfig → LtpClaConfig
apply_cli_overrides [] c = c
apply_cli_overrides (program ∷ args) c = apply_arguments args c
