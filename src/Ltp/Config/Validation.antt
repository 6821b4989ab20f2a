-- ===== src/Ltp/Config/Validation.antt =====
-- `LtpClaConfig::validate`, and the configurations that it finds no fault with.
use Prim.Native.String.{String}
use text.Mathlib.Text.{◌==◌ as str_eq}
use text.Mathlib.TextEquality.{eq_iff}
use qpsk_b.Base.{
  ◌==◌, ltb, ◌∷◌, if◌then◌else◌, ◌≡◌, ◌≢◌, ◌≤◌, ◌<◌, refl, ap, ◌∙◌, Bool, true, false, not, ◌||◌,
  ◌⊎◌, inl, inr, List, [], ◌++◌, Bool-cases, ltb→le, arith,
}
use qpsk_b.Ltp.Config.{LtpClaConfig}

-- The errors of `validate`, a constructor for each message.
pub data Invalid : Type 0 where
  local_engine_id remote_engine_id max_segment_size retransmission_timeout_ms : Invalid
  max_retransmissions max_concurrent_sessions tx_addr tx_port rx_addr rx_port : Invalid
  initial_reconnect_delay_ms max_reconnect_delay_ms ingress_bind_addr : Invalid
  egress_bind_addr max_buffer_bytes log_level : Invalid

unfoldable pub when : Bool → Invalid → List Invalid
when test e = if test then e ∷ [] else []

unfoldable pub is_level : String → Bool
is_level s =
    str_eq s "trace"
    || (str_eq s "debug"
        || (str_eq s "info"
            || (str_eq s "warn" || (str_eq s "error" || (str_eq s "critical" || str_eq s "off")))))

unfoldable pub validate : LtpClaConfig → List Invalid
validate c =
    when (c.ltp.local_engine_id == 0) local_engine_id
    ++ (when (c.ltp.remote_engine_id == 0) remote_engine_id
        ++ (when (c.ltp.max_segment_size == 0) max_segment_size
            ++ (when (ltb c.ltp.retransmission_timeout_ms 100) retransmission_timeout_ms
                ++ (when (c.ltp.max_retransmissions == 0) max_retransmissions
                    ++ (when (c.ltp.max_concurrent_sessions == 0) max_concurrent_sessions
                        ++ (when (str_eq c.cla.tx_addr "") tx_addr
                            ++ (when (c.cla.tx_port == 0) tx_port
                                ++ (when (str_eq c.cla.rx_addr "") rx_addr
                                    ++ (when (c.cla.rx_port == 0) rx_port
                                        ++ (when (c.cla.initial_reconnect_delay_ms == 0)
                                              initial_reconnect_delay_ms
                                            ++ (when
                                                  (ltb c.cla.max_reconnect_delay_ms
                                                    c.cla.initial_reconnect_delay_ms)
                                                  max_reconnect_delay_ms
                                                ++ (when (str_eq c.ingress.bind_addr "")
                                                      ingress_bind_addr
                                                    ++ (when (str_eq c.egress.bind_addr "")
                                                          egress_bind_addr
                                                        ++ (when (c.egress.max_buffer_bytes == 0)
                                                            max_buffer_bytes
                                                            ++ when (not (is_level c.log_level))
                                                            log_level))))))))))))))

abbrev pub IsLevel : String → Type 0
IsLevel s =
    (s ≡ "trace")
    ⊎ ((s ≡ "debug")
        ⊎ ((s ≡ "info") ⊎ ((s ≡ "warn") ⊎ ((s ≡ "error") ⊎ ((s ≡ "critical") ⊎ (s ≡ "off"))))))

pub record IsAcceptable (c : LtpClaConfig) : Type 0 where
  pub local_engine_id : 0 < c.ltp.local_engine_id
  pub remote_engine_id : 0 < c.ltp.remote_engine_id
  pub max_segment_size : 0 < c.ltp.max_segment_size
  pub retransmission_timeout_ms : 100 ≤ c.ltp.retransmission_timeout_ms
  pub max_retransmissions : 0 < c.ltp.max_retransmissions
  pub max_concurrent_sessions : 0 < c.ltp.max_concurrent_sessions
  pub tx_addr : c.cla.tx_addr ≢ ""
  pub tx_port : 0 < c.cla.tx_port
  pub rx_addr : c.cla.rx_addr ≢ ""
  pub rx_port : 0 < c.cla.rx_port
  pub initial_reconnect_delay_ms : 0 < c.cla.initial_reconnect_delay_ms
  pub max_reconnect_delay_ms : c.cla.initial_reconnect_delay_ms ≤ c.cla.max_reconnect_delay_ms
  pub ingress_bind_addr : c.ingress.bind_addr ≢ ""
  pub egress_bind_addr : c.egress.bind_addr ≢ ""
  pub max_buffer_bytes : 0 < c.egress.max_buffer_bytes
  pub log_level : IsLevel c.log_level

when-nil :
    (test : Bool) (e : Invalid) (rest : List Invalid)
    → when test e ++ rest ≡ []
    → (test ≡ false) × (rest ≡ [])
unfolding when
when-nil true e rest h = absurd (ground (arith, h))
when-nil false e rest h = (refl, h)

nil-when :
    (test : Bool) (e : Invalid) (rest : List Invalid)
    → test ≡ false
    → rest ≡ []
    → when test e ++ rest ≡ []
unfolding when
nil-when test e rest t h = rw (t, h) refl

str_eq-false : (s t : String) → str_eq s t ≡ false → s ≢ t
str_eq-false s t h e = ground (arith, (eq_iff s t).1 e)

str_eq-differs : (s t : String) → s ≢ t → str_eq s t ≡ false
str_eq-differs s t h = elim (Bool-cases (str_eq s t)) [
  | inl same ↦ absurd (h ((eq_iff s t).0 same))
  | inr other ↦ other
]

either :
    {P : Type 0}
    → (s t : String) (rest : Bool) → (rest ≡ true → P)
    → (str_eq s t || rest) ≡ true
    → (s ≡ t) ⊎ P
either s t rest f h = elim (Bool-cases (str_eq s t)) [
  | inl same ↦ inl ((eq_iff s t).0 same)
  | inr other ↦ inr (f (ground (arith, h, other)))
]

is_level-IsLevel : (s : String) → is_level s ≡ true → IsLevel s
unfolding is_level
is_level-IsLevel s = either s "trace" _ (
    either s "debug" _ (
      either s "info" _ (
        either s "warn" _
          (either s "error" _ (either s "critical" _ (λ h. (eq_iff s "off").0 h))))))

IsLevel-is_level : (s : String) → IsLevel s → is_level s ≡ true
unfolding is_level
IsLevel-is_level s (inl e) = ap is_level e ∙ refl
IsLevel-is_level s (inr (inl e)) = ap is_level e ∙ refl
IsLevel-is_level s (inr (inr (inl e))) = ap is_level e ∙ refl
IsLevel-is_level s (inr (inr (inr (inl e)))) = ap is_level e ∙ refl
IsLevel-is_level s (inr (inr (inr (inr (inl e))))) = ap is_level e ∙ refl
IsLevel-is_level s (inr (inr (inr (inr (inr (inl e)))))) = ap is_level e ∙ refl
IsLevel-is_level s (inr (inr (inr (inr (inr (inr e)))))) = ap is_level e ∙ refl

when-none : (test : Bool) (e : Invalid) → when (not test) e ≡ [] → test ≡ true
unfolding when
when-none true e h = refl
when-none false e h = absurd (ground (arith, h))

none-when : (test : Bool) (e : Invalid) → test ≡ true → when (not test) e ≡ []
unfolding when
none-when test e t = rw t refl

nil-IsAcceptable : (c : LtpClaConfig) → validate c ≡ [] → IsAcceptable c
unfolding validate
nil-IsAcceptable c h =
    let h0 = when-nil _ _ _ h in
    let h1 = when-nil _ _ _ h0.1 in
    let h2 = when-nil _ _ _ h1.1 in
    let h3 = when-nil _ _ _ h2.1 in
    let h4 = when-nil _ _ _ h3.1 in
    let h5 = when-nil _ _ _ h4.1 in
    let h6 = when-nil _ _ _ h5.1 in
    let h7 = when-nil _ _ _ h6.1 in
    let h8 = when-nil _ _ _ h7.1 in
    let h9 = when-nil _ _ _ h8.1 in
    let h10 = when-nil _ _ _ h9.1 in
    let h11 = when-nil _ _ _ h10.1 in
    let h12 = when-nil _ _ _ h11.1 in
    let h13 = when-nil _ _ _ h12.1 in
    let h14 = when-nil _ _ _ h13.1 in
    record {
      local_engine_id = ground (arith, h0.0);
      remote_engine_id = ground (arith, h1.0);
      max_segment_size = ground (arith, h2.0);
      retransmission_timeout_ms = ltb→le _ _ h3.0;
      max_retransmissions = ground (arith, h4.0);
      max_concurrent_sessions = ground (arith, h5.0);
      tx_addr = str_eq-false _ _ h6.0;
      tx_port = ground (arith, h7.0);
      rx_addr = str_eq-false _ _ h8.0;
      rx_port = ground (arith, h9.0);
      initial_reconnect_delay_ms = ground (arith, h10.0);
      max_reconnect_delay_ms = ltb→le _ _ h11.0;
      ingress_bind_addr = str_eq-false _ _ h12.0;
      egress_bind_addr = str_eq-false _ _ h13.0;
      max_buffer_bytes = ground (arith, h14.0);
      log_level = is_level-IsLevel c.log_level (when-none _ _ h14.1);
    }

IsAcceptable-validate : (c : LtpClaConfig) → IsAcceptable c → validate c ≡ []
unfolding validate
IsAcceptable-validate c a = nil-when _ _ _ (ground (arith, a.local_engine_id)) (
    nil-when _ _ _ (ground (arith, a.remote_engine_id)) (
      nil-when _ _ _ (ground (arith, a.max_segment_size)) (
        nil-when _ _ _ (ground (arith, a.retransmission_timeout_ms)) (
          nil-when _ _ _ (ground (arith, a.max_retransmissions)) (
            nil-when _ _ _ (ground (arith, a.max_concurrent_sessions)) (
              nil-when _ _ _ (str_eq-differs _ _ a.tx_addr) (
                nil-when _ _ _ (ground (arith, a.tx_port)) (
                  nil-when _ _ _ (str_eq-differs _ _ a.rx_addr) (
                    nil-when _ _ _ (ground (arith, a.rx_port)) (
                      nil-when _ _ _ (ground (arith, a.initial_reconnect_delay_ms)) (
                        nil-when _ _ _ (ground (arith, a.max_reconnect_delay_ms)) (
                          nil-when _ _ _ (str_eq-differs _ _ a.ingress_bind_addr) (
                            nil-when _ _ _ (str_eq-differs _ _ a.egress_bind_addr) (
                              nil-when _ _ _ (ground (arith, a.max_buffer_bytes)) (
                                none-when _ _
                                  (IsLevel-is_level c.log_level a.log_level))))))))))))))))

-- validate reports no error for exactly the configurations with positive identifiers, sizes, counts and
-- ports of the link, a timeout of at least 100 ms, delays in order, addresses that are there, and one of
-- the seven log levels.
pub validate-IsAcceptable :
    (c : LtpClaConfig) → ((validate c ≡ []) → IsAcceptable c) × (IsAcceptable c → validate c ≡ [])
validate-IsAcceptable c = (nil-IsAcceptable c, IsAcceptable-validate c)
