-- ===== src/Phy/Samples.antt =====
-- `float` and `std::complex<float>`: the arithmetic is a parameter of the model. Of its laws the
-- program's bits need only that a point has the parts it was made from, and the signs of 1/sqrt(2)
-- and -1/sqrt(2).
use qpsk_b.Base.{◌≡◌, Bool, true, false}

pub record Samples : Type 1 where
  pub Real : Type 0
  pub Sample : Type 0
  pub zero_real : Real
  pub one : Real
  pub minus_one : Real
  pub sqrt1_2 : Real
  pub minus_sqrt1_2 : Real
  -- `1e-12f` and `1e-10f`.
  pub sync_floor : Real
  pub phase_floor : Real
  pub point : Real → Real → Sample
  pub real : Sample → Real
  pub imag : Sample → Real
  -- `x > 0.0f`, `x >= 0.0f`, `x <= 0.0f`, and `x < y`, `x >= y`.
  pub is_positive : Real → Bool
  pub is_not_negative : Real → Bool
  pub is_not_positive : Real → Bool
  pub is_less : Real → Real → Bool
  pub is_at_least : Real → Real → Bool
  pub add_real : Real → Real → Real
  pub times_real : Real → Real → Real
  pub divide_real : Real → Real → Real
  pub sqrt : Real → Real
  -- `+`, `*`, `std::conj`, `std::norm`, `std::abs`, and the product and the quotient with a `float`.
  pub add : Sample → Sample → Sample
  pub times : Sample → Sample → Sample
  pub conj : Sample → Sample
  pub norm : Sample → Real
  pub abs : Sample → Real
  pub scale : Sample → Real → Sample
  pub divide : Sample → Real → Sample
  pub real-point : (x y : Real) → real (point x y) ≡ x
  pub imag-point : (x y : Real) → imag (point x y) ≡ y
  pub is_positive-sqrt1_2 : is_positive sqrt1_2 ≡ true
  pub is_not_negative-sqrt1_2 : is_not_negative sqrt1_2 ≡ true
  pub is_not_positive-sqrt1_2 : is_not_positive sqrt1_2 ≡ false
  pub is_positive-minus : is_positive minus_sqrt1_2 ≡ false
  pub is_not_negative-minus : is_not_negative minus_sqrt1_2 ≡ false
  pub is_not_positive-minus : is_not_positive minus_sqrt1_2 ≡ true
