-- ===== src/Ltp/Config/Arguments.antt =====
-- What `LtpClaConfig::apply_cli_overrides` makes of one argument: its key and its value
-- (`find`, `substr`), and the number in the value by `std::stoul` and `std::stoull`, which both have
-- 64 bits and throw where this gives none.
pub mod Numerals
use mathlib.Core.Option as Option
use Prim.Native.Char.{Char, code}
use Prim.Native.String.{String, [], ◌∷◌}
use qpsk_b.Base.{
  ℕ, ◌+◌, ◌*◌, ◌-◌, ◌%◌, ◌^◌, Bool, true, false, ◌&&◌, ◌||◌, Option, none, some, ltb, leb, ◌==◌,
  if◌then◌else◌,
}
use qpsk_b.Base.Bits.{sub64}

-- The texts before and after the first '='.
unfoldable pub split_at_eq : String → Option (String × String)
split_at_eq [] = none
split_at_eq (c ∷ s) =
    let rest = Option.map (λ p. (c ∷ p.0, p.1)) (split_at_eq s) in
    if code c == 61 then some ([], s) else rest

-- The key and the value of an argument that begins with two '-' and has a '='.
unfoldable pub key_and_value : String → Option (String × String)
key_and_value [] = none
key_and_value (c ∷ []) = none
key_and_value (c ∷ (d ∷ s)) = if (code c == 45) && (code d == 45) then split_at_eq s else none

-- `isspace`, in the C locale.
unfoldable pub is_space : Char → Bool
is_space c = (code c == 32) || (leb 9 (code c) && leb (code c) 13)

unfoldable pub is_digit : Char → Bool
is_digit c = leb 48 (code c) && leb (code c) 57

unfoldable pub skip_spaces : String → String
skip_spaces [] = []
skip_spaces (c ∷ s) = let rest = skip_spaces s in if is_space c then rest else c ∷ s

-- The value of the digits up to the first character that is none, behind what has been read.
unfoldable pub digits_loop : ℕ → String → ℕ
digits_loop n [] = n
digits_loop n (c ∷ s) =
    let rest = digits_loop (n * 10 + (code c - 48)) s in if is_digit c then rest else n

unfoldable pub has_digits : String → Bool
has_digits [] = false
has_digits (c ∷ s) = is_digit c

-- A sign, and what is behind it; true where it is '-'.
unfoldable pub take_sign : String → Bool × String
take_sign [] = (false, [])
take_sign (c ∷ s) =
    if code c == 45 then (true, s) else (if code c == 43 then (false, s) else (false, c ∷ s))

unfoldable pub stoull : String → Option ℕ
stoull s =
    let (is_negative, digits) = take_sign (skip_spaces s) in
    let n = digits_loop 0 digits in
    if has_digits digits && ltb n (2 ^ 64)
    then some (if is_negative then sub64 0 n else n)
    else none
