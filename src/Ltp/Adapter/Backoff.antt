-- ===== src/Ltp/Adapter/Backoff.antt =====
-- The delays between the attempts to connect.
use qpsk_b.Base.{
  ℕ, zero, suc, ◌*◌, ◌%◌, ◌^◌, ◌≤◌, ◌<◌, ◌≡◌, min, refl, ap, Bool, true, false, List, [], ◌∷◌, All,
  arith,
}
use qpsk_b.Ltp.Config.{ClaConfig}
use qpsk_b.Ltp.Adapter.{reconnect_from, reconnect_loop}

-- So many delays, each twice the one before but for the limit.
unfoldable pub doubling : ℕ → ℕ → ℕ → List ℕ
doubling limit zero delay = []
doubling limit (suc n) delay = delay ∷ doubling limit n (min (delay * 2) limit)

-- The number of attempts that fail before one succeeds.
unfoldable pub failures : List Bool → ℕ
failures [] = 0
failures (true ∷ attempts) = 0
failures (false ∷ attempts) = suc (failures attempts)

reconnect_from-doubling :
    (limit delay : ℕ) (attempts : List Bool)
    → delay ≤ limit
    → limit < 2 ^ 31
    → (reconnect_from limit delay attempts).0 ≡ doubling limit (failures attempts) delay
unfolding reconnect_from doubling failures
reconnect_from-doubling limit delay [] h small = refl
reconnect_from-doubling limit delay (true ∷ attempts) h small = refl
reconnect_from-doubling limit delay (false ∷ attempts) h small =
    let no_wrap : delay * 2 % 2 ^ 32 ≡ delay * 2 = omega arith in
    rw no_wrap (
      ap (λ l. delay ∷ l)
        (reconnect_from-doubling limit (min (delay * 2) limit) attempts (omega arith) small))

doubling-bounds :
    (limit n low delay : ℕ)
    → low ≤ delay
    → delay ≤ limit
    → All (λ d. (low ≤ d) × (d ≤ limit)) (doubling limit n delay)
unfolding doubling
doubling-bounds limit zero low delay h k = tt
doubling-bounds limit (suc n) low delay h k =
    ((h, k), doubling-bounds limit n low (min (delay * 2) limit) (omega arith) (omega arith))

-- With initial_reconnect_delay_ms at most max_reconnect_delay_ms, and this below 2^31, there is a delay
-- after each failed attempt, the first the initial one and each next one twice as long up to the maximum,
-- and all of them lie between the two.
pub reconnect_loop-doubling :
    (config : ClaConfig) (attempts : List Bool)
    → config.initial_reconnect_delay_ms ≤ config.max_reconnect_delay_ms
    → config.max_reconnect_delay_ms < 2 ^ 31
    → ((reconnect_loop config attempts).0
        ≡ doubling config.max_reconnect_delay_ms
            (failures attempts)
            config.initial_reconnect_delay_ms)
      × All
          (λ d. (config.initial_reconnect_delay_ms ≤ d) × (d ≤ config.max_reconnect_delay_ms))
          (reconnect_loop config attempts).0
unfolding reconnect_loop
reconnect_loop-doubling config attempts h small =
    let limit = config.max_reconnect_delay_ms in
    let first = config.initial_reconnect_delay_ms in
    let delays = reconnect_from-doubling limit first attempts h small in
    (delays, rw delays (doubling-bounds limit (failures attempts) first first (omega arith) h))
