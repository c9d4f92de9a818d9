-- ===== src/Validation/Quantity/Bounds.antt =====
-- A quantity that passes the check fits NUMERIC(20,4) exactly.
use mujeeb24_backend_go.Common.{
  ℕ, zero, suc, ◌+◌, ◌-◌, ◌*◌, ◌^◌, ◌≤◌, ◌<◌, String, ◌≡◌, refl, sym, ap, ◌∙◌, true, false, List,
  [], ◌∷◌, length, arith, Bool-cases, inl, inr,
}
use native.Mathlib.Nat.{pow-succ', mul_comm}
use native.Mathlib.Nat.{mul_assoc}
use native.Mathlib.Nat.{
  mul-le-mul_right, mul-lt-mul_of_pos_right, one-le-pow, mul-pos, pow-le-pow_right,
  lt_of_mul-lt-mul_right,
}
use mujeeb24_backend_go.Validation.Quantity.{
  codes, is_digit, all_digits, whole_part, fraction_part, has_point, is_whole, is_fraction,
  matches_quantity, digits_onto, numerator, validate_sales_quantity, scaled,
}
use mujeeb24_backend_go.Validation.Evidence.Sound.{&&-both}

-- Digits behind those of `n` stay below the next number of that many digits.
digits_onto-lt :
    (n : ℕ) (s : List ℕ) → all_digits s ≡ true → digits_onto n s + 1 ≤ (n + 1) * 10 ^ length s
unfolding digits_onto all_digits
digits_onto-lt n [] h = omega arith
digits_onto-lt n (c ∷ s) h =
    let both = &&-both (is_digit c) (all_digits s) h in
    let digit : c - b'0' ≤ 9 = ground (arith, both.0) in
    let rest = digits_onto-lt (n * 10 + (c - b'0')) s both.1 in
    let step : (n * 10 + (c - b'0') + 1) * 10 ^ length s ≤ ((n + 1) * 10) * 10 ^ length s =
      mul-le-mul_right (10 ^ length s) (omega arith) in
    let split : ((n + 1) * 10) * 10 ^ length s ≡ (n + 1) * 10 ^ suc (length s) =
      mul_assoc (n + 1) 10 (10 ^ length s)
      ∙ ap (λ (t : ℕ). (n + 1) * t) (sym (pow-succ' 10 (length s))) in
    omega arith

is_whole-lt : (s : List ℕ) → is_whole s ≡ true → (all_digits s ≡ true) × (length s ≤ 16)
unfolding is_whole all_digits
is_whole-lt [] h = cc
is_whole-lt (c ∷ []) h = (ground arith, omega arith)
is_whole-lt (c ∷ d ∷ s) h = (ground arith, ground arith)

fraction-none : (s : List ℕ) → has_point s ≡ false → fraction_part s ≡ []
unfolding has_point fraction_part
fraction-none [] h = refl
fraction-none (c ∷ s) h = ground (arith, fraction-none s)

matches_quantity-parts :
    (s : List ℕ)
    → matches_quantity s ≡ true
    → (all_digits (whole_part s) ≡ true)
      × (length (whole_part s) ≤ 16)
      × (all_digits (fraction_part s) ≡ true)
      × (length (fraction_part s) ≤ 4)
unfolding matches_quantity is_fraction all_digits
matches_quantity-parts s h =
    let both = &&-both (is_whole (whole_part s)) _ h in
    let whole = is_whole-lt (whole_part s) both.0 in
    elim (Bool-cases (has_point s)) [
      | inl p ↦ let f = rw p at both.1 in (whole.0, whole.1, ground (arith, f), ground (arith, f))
      | inr n ↦ (whole.0, whole.1, rw (fraction-none s n), rw (fraction-none s n) (omega arith))
    ]

ten_steps : (k : ℕ) → k ≤ 4 → 10 ^ k * 10 ^ (4 - k) ≡ 10000
ten_steps zero h = refl
ten_steps (suc zero) h = refl
ten_steps (suc (suc zero)) h = refl
ten_steps (suc (suc (suc zero))) h = refl
ten_steps (suc (suc (suc (suc zero)))) h = refl
ten_steps (suc (suc (suc (suc (suc k))))) h = absurd (omega arith)

scaled-exact :
    (s : List ℕ)
    → length (fraction_part s) ≤ 4
    → scaled s * 10 ^ length (fraction_part s) ≡ numerator s * 10000
unfolding scaled
scaled-exact s h =
    mul_assoc (numerator s) (10 ^ (4 - length (fraction_part s))) (10 ^ length (fraction_part s))
    ∙ ap (λ (t : ℕ). numerator s * t)
        (mul_comm (10 ^ (4 - length (fraction_part s))) (10 ^ length (fraction_part s))
          ∙ ten_steps (length (fraction_part s)) h)

whole-lt :
    (s : List ℕ) → all_digits s ≡ true → length s ≤ 16 → digits_onto 0 s + 1 ≤ 10000000000000000
whole-lt s digits h =
    let below = digits_onto-lt 0 s digits in
    let grown : 10 ^ length s ≤ 10 ^ 16 = pow-le-pow_right {n = 10} (omega arith) h in omega arith

numerator-lt :
    (s : List ℕ)
    → matches_quantity s ≡ true
    → numerator s < 10000000000000000 * 10 ^ length (fraction_part s)
unfolding numerator
numerator-lt s h =
    let parts = matches_quantity-parts s h in
    let whole = whole-lt (whole_part s) parts.0 parts.1 in
    let behind = digits_onto-lt (digits_onto 0 (whole_part s)) (fraction_part s) parts.2 in
    let step = mul-le-mul_right (10 ^ length (fraction_part s)) whole in omega arith

scaled-lt : (s : List ℕ) → matches_quantity s ≡ true → scaled s < 10 ^ 20
scaled-lt s h =
    let exact = scaled-exact s (matches_quantity-parts s h).3 in
    let below = mul-lt-mul_of_pos_right {k = 10000} (numerator-lt s h) (omega arith) in
    let regrouped : 10000000000000000 * 10 ^ length (fraction_part s) * 10000
        ≡ 100000000000000000000 * 10 ^ length (fraction_part s) =
      omega arith in
    lt_of_mul-lt-mul_right (10 ^ length (fraction_part s)) (omega arith)

scaled_positive : (s : List ℕ) → 0 < numerator s → 0 < scaled s
unfolding scaled
scaled_positive s p = mul-pos p (one-le-pow (4 - length (fraction_part s)) 10 (omega arith))

-- A quantity that is accepted is positive and below ten to the sixteenth, and the column that holds
-- four decimal places stores it exactly: in steps of a ten-thousandth it is between 1 and 10^20 - 1,
-- and that many steps make up the number that its digits stand for.
pub validate_sales_quantity_bounds :
    (value : String)
    → validate_sales_quantity value ≡ true
    → (0 < scaled (codes value))
      × (scaled (codes value) < 10 ^ 20)
      × (scaled (codes value) * 10 ^ length (fraction_part (codes value))
          ≡ numerator (codes value) * 10 ^ 4)
unfolding validate_sales_quantity
validate_sales_quantity_bounds value h =
    let both = &&-both (matches_quantity (codes value)) _ h in
    let parts = matches_quantity-parts (codes value) both.0 in
    let positive : 0 < numerator (codes value) = ground (arith, both.1) in
    (
      scaled_positive (codes value) positive,
      scaled-lt (codes value) both.0,
      scaled-exact (codes value) parts.3,
    )
