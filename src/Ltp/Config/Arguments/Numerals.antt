-- ===== src/Ltp/Config/Arguments/Numerals.antt =====
-- The keys and the decimal numerals of arguments.
use Prim.Native.Char.{Char, code}
use Prim.Native.String.{String, [], ◌∷◌, ◌++◌}
use Prim.Native.String.append as string_append
use native.Mathlib.Nat.{pow-suc}
use qpsk_b.Base.{
  ℕ, suc, ◌+◌, ◌*◌, ◌-◌, ◌^◌, ◌<◌, ◌≡◌, refl, ◌∙◌, Bool, true, false, some, ltb, ◌==◌,
  if◌then◌else◌, Bool-cases, inl, inr, arith,
}
use qpsk_b.Ltp.Config.Arguments.{
  split_at_eq, key_and_value, is_space, is_digit, skip_spaces, digits_loop, has_digits, take_sign,
  stoull,
}

unfoldable pub has_eq : String → Bool
has_eq [] = false
has_eq (c ∷ s) = let rest = has_eq s in if code c == 61 then true else rest

split_at_eq-append :
    (key val : String) → has_eq key ≡ false → split_at_eq (key ++ ("=" ++ val)) ≡ some (key, val)
unfolding split_at_eq has_eq
split_at_eq-append [] val h =
    rw (string_append.nil ("=" ++ val), string_append.cons "=" [] val, string_append.nil val) refl
split_at_eq-append (c ∷ key) val h = elim (Bool-cases (code c == 61)) [
  | inl t ↦ absurd (ground (arith, h, t))
  | inr f ↦
      let ih = split_at_eq-append key val (ground (arith, h, f)) in
      rw (string_append.cons c key ("=" ++ val), f, ih) refl
]

pub key_and_value-append :
    (key val : String)
    → has_eq key ≡ false
    → key_and_value ("--" ++ (key ++ ("=" ++ val))) ≡ some (key, val)
unfolding key_and_value
key_and_value-append key val h =
    let t = key ++ ("=" ++ val) in
    rw (string_append.cons "-" "-" t, string_append.cons "-" [] t, string_append.nil t)
      (split_at_eq-append key val h)

unfoldable pub size : String → ℕ
size [] = 0
size (c ∷ s) = suc (size s)

-- A text is the numeral of a number: one digit, or a digit before a numeral.
abbrev pub IsNumeral : String → ℕ → Type 0
IsNumeral [] n = ⊥
IsNumeral (c ∷ []) n = (n < 10) × (code c ≡ 48 + n)
IsNumeral (c ∷ (d ∷ s)) n =
    (digit : ℕ) × (rest : ℕ) × (digit < 10)
    × (code c ≡ 48 + digit)
    × (n ≡ digit * 10 ^ size (d ∷ s) + rest)
    × IsNumeral (d ∷ s) rest

digit_lem : (c : Char) (n : ℕ) → n < 10 → code c ≡ 48 + n → (is_digit c ≡ true) × (code c - 48 ≡ n)
unfolding is_digit
digit_lem c n h e = (ground (arith, h, e), omega arith)

spread : (a digit p : ℕ) → (a * 10 + digit) * p ≡ a * (p * 10) + digit * p
spread a digit p = grind arith

shifted :
    (a digit rest n m : ℕ)
    → n ≡ digit * 10 ^ m + rest
    → (a * 10 + digit) * 10 ^ m + rest ≡ a * 10 ^ suc m + n
shifted a digit rest n m sum = rw (pow-suc 10 m) (omega (arith, sum, spread a digit (10 ^ m)))

digits_loop-IsNumeral :
    (s : String) (n a : ℕ) → IsNumeral s n → digits_loop a s ≡ a * 10 ^ size s + n
unfolding digits_loop size
digits_loop-IsNumeral [] n a h = absurd h
digits_loop-IsNumeral (c ∷ []) n a (h, e) =
    rw ((digit_lem c n h e).0, (digit_lem c n h e).1) (omega arith)
digits_loop-IsNumeral (c ∷ (d ∷ s)) n a (digit, rest, h, e, sum, tail) =
    rw ((digit_lem c digit h e).0, (digit_lem c digit h e).1)
      (digits_loop-IsNumeral (d ∷ s) rest (a * 10 + digit) tail
        ∙ shifted a digit rest n (size (d ∷ s)) sum)

first : (s : String) (n : ℕ) → IsNumeral s n → has_digits s ≡ true
unfolding has_digits
first [] n h = absurd h
first (c ∷ []) n (h, e) = (digit_lem c n h e).0
first (c ∷ (d ∷ s)) n (digit, rest, h, e, sum, tail) = (digit_lem c digit h e).0

skip_spaces-digits : (s : String) → has_digits s ≡ true → skip_spaces s ≡ s
unfolding skip_spaces has_digits is_digit is_space
skip_spaces-digits [] h = refl
skip_spaces-digits (c ∷ s) h =
    let solid : is_space c ≡ false = unfold is_space in ground (arith, h) in rw solid refl

take_sign-digits : (s : String) → has_digits s ≡ true → take_sign s ≡ (false, s)
unfolding take_sign has_digits is_digit
take_sign-digits [] h = refl
take_sign-digits (c ∷ s) h =
    let no_minus : (code c == 45) ≡ false = ground (arith, h) in
    let no_plus : (code c == 43) ≡ false = ground (arith, h) in rw (no_minus, no_plus) refl

-- A numeral of a 64-bit number is read as that number.
pub stoull-IsNumeral : (s : String) (n : ℕ) → IsNumeral s n → n < 2 ^ 64 → stoull s ≡ some n
unfolding stoull
stoull-IsNumeral s n h small =
    let t = first s n h in
    let value : digits_loop 0 s ≡ n = digits_loop-IsNumeral s n 0 h ∙ omega arith in
    let fits : ltb n (2 ^ 64) ≡ true = ground (arith, small) in
    rw (skip_spaces-digits s t, take_sign-digits s t, value, t, fits) refl
