-- ===== src/Ltp/Config/Overrides/RoundTrip.antt =====
-- Overrides for all fields of a configuration.
use Prim.Native.String.{String, ◌++◌ as join}
use native.Mathlib.Nat.{mod-eq_of_lt}
use qpsk_b.Base.{ℕ, ◌%◌, ◌^◌, ◌<◌, ◌≡◌, refl, ap, ◌∙◌, false, List, [], ◌∷◌, map, All, arith}
use qpsk_b.Ltp.Config.{LtpClaConfig}
use qpsk_b.Ltp.Config.RoundTrip.{Fits}
use qpsk_b.Ltp.Config.Arguments.{stoull}
use qpsk_b.Ltp.Config.Arguments.Numerals.{has_eq, key_and_value-append, IsNumeral, stoull-IsNumeral}
use qpsk_b.Ltp.Config.Overrides.Values.{Values, all_fields, AreValues, IsWord-tests}
use qpsk_b.Ltp.Config.Overrides.{
  first_of, with_number, set_field, apply_argument, apply_arguments, apply_cli_overrides,
}

-- The argument that sets a field.
unfoldable pub argument : String × String → String
argument p = join "--" (join p.0 (join "=" p.1))

-- What the keys and values do, one after another.
unfoldable pub set_fields : List (String × String) → LtpClaConfig → LtpClaConfig
set_fields [] c = c
set_fields (p ∷ ps) c = set_fields ps (set_field p.0 p.1 c)

apply_argument-set_field :
    (key val : String) (c : LtpClaConfig)
    → has_eq key ≡ false
    → apply_argument (argument (key, val)) c ≡ set_field key val c
unfolding apply_argument argument
apply_argument-set_field key val c h =
    rw (apply_argument, argument, key_and_value-append key val h) refl

apply_arguments-set_fields :
    (ps : List (String × String)) (c : LtpClaConfig)
    → All (λ p. has_eq p.0 ≡ false) ps
    → apply_arguments (map argument ps) c ≡ set_fields ps c
unfolding apply_arguments set_fields
apply_arguments-set_fields [] c h = refl
apply_arguments-set_fields (p ∷ ps) c h =
    ap (apply_arguments (map argument ps)) (apply_argument-set_field p.0 p.1 c h.0)
    ∙ apply_arguments-set_fields ps (set_field p.0 p.1 c) h.1

with_number-IsNumeral :
    (val : String) (n : ℕ) (set : ℕ → LtpClaConfig) (c : LtpClaConfig)
    → IsNumeral val n
    → n < 2 ^ 64
    → with_number (stoull val) set c ≡ set n
unfolding with_number
with_number-IsNumeral val n set c h small = rw (stoull-IsNumeral val n h small) refl

reduced : {A : Type 0} (set : ℕ → A) (n m : ℕ) → n < m → set (n % m) ≡ set n
reduced set n m h = ap set (mod-eq_of_lt h)

no_eq : (v : Values) → All (λ p. has_eq p.0 ≡ false) (all_fields v)
unfolding all_fields has_eq
no_eq v = (
  refl,
  (
    refl,
    (
      refl,
      (
        refl,
        (
          refl,
          (
            refl,
            (
              refl,
              (
                refl,
                (
                  refl,
                  (
                    refl,
                    (refl, (refl, (refl, (refl, (refl, (refl, (refl, (refl, (refl, tt))))))))),
                  ),
                ),
              ),
            ),
          ),
        ),
      ),
    ),
  ),
)

module _ (c : LtpClaConfig) (v : Values) (fits : Fits c) (are : AreValues c v) where
  set-local_engine_id :
      (old : LtpClaConfig)
      → set_field "ltp.local_engine_id" v.local_engine_id old
        ≡ record old { ltp = record old.ltp { local_engine_id = c.ltp.local_engine_id } }
  unfolding set_field first_of
  set-local_engine_id old =
      with_number-IsNumeral v.local_engine_id c.ltp.local_engine_id _ old are.local_engine_id
        fits.local_engine_id

  set-remote_engine_id :
      (old : LtpClaConfig)
      → set_field "ltp.remote_engine_id" v.remote_engine_id old
        ≡ record old { ltp = record old.ltp { remote_engine_id = c.ltp.remote_engine_id } }
  unfolding set_field first_of
  set-remote_engine_id old =
      with_number-IsNumeral v.remote_engine_id c.ltp.remote_engine_id _ old are.remote_engine_id
        fits.remote_engine_id

  set-max_segment_size :
      (old : LtpClaConfig)
      → set_field "ltp.max_segment_size" v.max_segment_size old
        ≡ record old { ltp = record old.ltp { max_segment_size = c.ltp.max_segment_size } }
  unfolding set_field first_of
  set-max_segment_size old =
      with_number-IsNumeral v.max_segment_size c.ltp.max_segment_size _ old are.max_segment_size
        (omega (arith, fits.max_segment_size))
      ∙ reduced (λ n. record old { ltp = record old.ltp { max_segment_size = n } })
          c.ltp.max_segment_size (2 ^ 32) fits.max_segment_size

  set-retransmission_timeout_ms :
      (old : LtpClaConfig)
      → set_field "ltp.retransmission_timeout_ms" v.retransmission_timeout_ms old ≡ record old {
        ltp = record old.ltp { retransmission_timeout_ms = c.ltp.retransmission_timeout_ms };
      }
  unfolding set_field first_of
  set-retransmission_timeout_ms old =
      with_number-IsNumeral v.retransmission_timeout_ms c.ltp.retransmission_timeout_ms _ old
        are.retransmission_timeout_ms (omega (arith, fits.retransmission_timeout_ms))
      ∙ reduced (λ n. record old { ltp = record old.ltp { retransmission_timeout_ms = n } })
          c.ltp.retransmission_timeout_ms (2 ^ 32) fits.retransmission_timeout_ms

  set-max_retransmissions :
      (old : LtpClaConfig)
      → set_field "ltp.max_retransmissions" v.max_retransmissions old
        ≡ record old { ltp = record old.ltp { max_retransmissions = c.ltp.max_retransmissions } }
  unfolding set_field first_of
  set-max_retransmissions old =
      with_number-IsNumeral v.max_retransmissions c.ltp.max_retransmissions _ old
        are.max_retransmissions (omega (arith, fits.max_retransmissions))
      ∙ reduced (λ n. record old { ltp = record old.ltp { max_retransmissions = n } })
          c.ltp.max_retransmissions (2 ^ 8) fits.max_retransmissions

  set-max_concurrent_sessions :
      (old : LtpClaConfig)
      → set_field "ltp.max_concurrent_sessions" v.max_concurrent_sessions old ≡ record old {
        ltp = record old.ltp { max_concurrent_sessions = c.ltp.max_concurrent_sessions };
      }
  unfolding set_field first_of
  set-max_concurrent_sessions old =
      with_number-IsNumeral v.max_concurrent_sessions c.ltp.max_concurrent_sessions _ old
        are.max_concurrent_sessions (omega (arith, fits.max_concurrent_sessions))
      ∙ reduced (λ n. record old { ltp = record old.ltp { max_concurrent_sessions = n } })
          c.ltp.max_concurrent_sessions (2 ^ 32) fits.max_concurrent_sessions

  set-tx_addr :
      (old : LtpClaConfig)
      → set_field "cla.tx_addr" v.tx_addr old
        ≡ record old { cla = record old.cla { tx_addr = c.cla.tx_addr } }
  unfolding set_field first_of
  set-tx_addr old = rw are.tx_addr refl

  set-tx_port :
      (old : LtpClaConfig)
      → set_field "cla.tx_port" v.tx_port old
        ≡ record old { cla = record old.cla { tx_port = c.cla.tx_port } }
  unfolding set_field first_of
  set-tx_port old =
      with_number-IsNumeral v.tx_port c.cla.tx_port _ old are.tx_port (omega (arith, fits.tx_port))
      ∙ reduced (λ n. record old { cla = record old.cla { tx_port = n } }) c.cla.tx_port (2 ^ 16)
          fits.tx_port

  set-rx_addr :
      (old : LtpClaConfig)
      → set_field "cla.rx_addr" v.rx_addr old
        ≡ record old { cla = record old.cla { rx_addr = c.cla.rx_addr } }
  unfolding set_field first_of
  set-rx_addr old = rw are.rx_addr refl

  set-rx_port :
      (old : LtpClaConfig)
      → set_field "cla.rx_port" v.rx_port old
        ≡ record old { cla = record old.cla { rx_port = c.cla.rx_port } }
  unfolding set_field first_of
  set-rx_port old =
      with_number-IsNumeral v.rx_port c.cla.rx_port _ old are.rx_port (omega (arith, fits.rx_port))
      ∙ reduced (λ n. record old { cla = record old.cla { rx_port = n } }) c.cla.rx_port (2 ^ 16)
          fits.rx_port

  set-initial_reconnect_delay_ms :
      (old : LtpClaConfig)
      → set_field "cla.initial_reconnect_delay_ms" v.initial_reconnect_delay_ms old ≡ record old {
        cla = record old.cla { initial_reconnect_delay_ms = c.cla.initial_reconnect_delay_ms };
      }
  unfolding set_field first_of
  set-initial_reconnect_delay_ms old =
      with_number-IsNumeral v.initial_reconnect_delay_ms c.cla.initial_reconnect_delay_ms _ old
        are.initial_reconnect_delay_ms (omega (arith, fits.initial_reconnect_delay_ms))
      ∙ reduced (λ n. record old { cla = record old.cla { initial_reconnect_delay_ms = n } })
          c.cla.initial_reconnect_delay_ms (2 ^ 32) fits.initial_reconnect_delay_ms

  set-max_reconnect_delay_ms :
      (old : LtpClaConfig)
      → set_field "cla.max_reconnect_delay_ms" v.max_reconnect_delay_ms old ≡ record old {
        cla = record old.cla { max_reconnect_delay_ms = c.cla.max_reconnect_delay_ms };
      }
  unfolding set_field first_of
  set-max_reconnect_delay_ms old =
      with_number-IsNumeral v.max_reconnect_delay_ms c.cla.max_reconnect_delay_ms _ old
        are.max_reconnect_delay_ms (omega (arith, fits.max_reconnect_delay_ms))
      ∙ reduced (λ n. record old { cla = record old.cla { max_reconnect_delay_ms = n } })
          c.cla.max_reconnect_delay_ms (2 ^ 32) fits.max_reconnect_delay_ms

  set-ingress_bind_addr :
      (old : LtpClaConfig)
      → set_field "ingress.bind_addr" v.ingress_bind_addr old
        ≡ record old { ingress = record old.ingress { bind_addr = c.ingress.bind_addr } }
  unfolding set_field first_of
  set-ingress_bind_addr old = rw are.ingress_bind_addr refl

  set-ingress_port :
      (old : LtpClaConfig)
      → set_field "ingress.port" v.ingress_port old
        ≡ record old { ingress = record old.ingress { port = c.ingress.port } }
  unfolding set_field first_of
  set-ingress_port old =
      with_number-IsNumeral v.ingress_port c.ingress.port _ old are.ingress_port
        (omega (arith, fits.ingress_port))
      ∙ reduced (λ n. record old { ingress = record old.ingress { port = n } }) c.ingress.port
          (2 ^ 16) fits.ingress_port

  set-default_reliable :
      (old : LtpClaConfig)
      → set_field "ingress.default_reliable" v.default_reliable old ≡ record old {
        ingress = record old.ingress { default_reliable = c.ingress.default_reliable };
      }
  unfolding set_field first_of
  set-default_reliable old =
      rw (IsWord-tests v.default_reliable c.ingress.default_reliable are.default_reliable) refl

  set-egress_bind_addr :
      (old : LtpClaConfig)
      → set_field "egress.bind_addr" v.egress_bind_addr old
        ≡ record old { egress = record old.egress { bind_addr = c.egress.bind_addr } }
  unfolding set_field first_of
  set-egress_bind_addr old = rw are.egress_bind_addr refl

  set-egress_port :
      (old : LtpClaConfig)
      → set_field "egress.port" v.egress_port old
        ≡ record old { egress = record old.egress { port = c.egress.port } }
  unfolding set_field first_of
  set-egress_port old =
      with_number-IsNumeral v.egress_port c.egress.port _ old are.egress_port
        (omega (arith, fits.egress_port))
      ∙ reduced (λ n. record old { egress = record old.egress { port = n } }) c.egress.port (2 ^ 16)
          fits.egress_port

  set-max_buffer_bytes :
      (old : LtpClaConfig)
      → set_field "egress.max_buffer_bytes" v.max_buffer_bytes old
        ≡ record old { egress = record old.egress { max_buffer_bytes = c.egress.max_buffer_bytes } }
  unfolding set_field first_of
  set-max_buffer_bytes old =
      with_number-IsNumeral v.max_buffer_bytes c.egress.max_buffer_bytes _ old are.max_buffer_bytes
        fits.max_buffer_bytes

  set-log_level :
      (old : LtpClaConfig)
      → set_field "log_level" v.log_level old ≡ record old { log_level = c.log_level }
  unfolding set_field first_of
  set-log_level old = rw are.log_level refl

  set_fields-all_fields : (old : LtpClaConfig) → set_fields (all_fields v) old ≡ c
  unfolding set_fields all_fields
  set_fields-all_fields old = simp (
    set-local_engine_id, set-remote_engine_id, set-max_segment_size, set-retransmission_timeout_ms,
    set-max_retransmissions, set-max_concurrent_sessions, set-tx_addr, set-tx_port, set-rx_addr,
    set-rx_port, set-initial_reconnect_delay_ms, set-max_reconnect_delay_ms, set-ingress_bind_addr,
    set-ingress_port, set-default_reliable, set-egress_bind_addr, set-egress_port,
    set-max_buffer_bytes, set-log_level,
  )

-- Arguments for all fields, with the values of a configuration whose numbers fit their types, give that
-- configuration, whatever there was before.
pub apply_cli_overrides-all_fields :
    (program : String) (c old : LtpClaConfig) (v : Values)
    → Fits c
    → AreValues c v
    → apply_cli_overrides (program ∷ map argument (all_fields v)) old ≡ c
unfolding apply_cli_overrides
apply_cli_overrides-all_fields program c old v fits are =
    apply_arguments-set_fields (all_fields v) old (no_eq v) ∙ set_fields-all_fields c v fits are old
