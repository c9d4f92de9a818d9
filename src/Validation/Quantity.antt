-- ===== src/Validation/Quantity.antt =====
-- Quantities of a sale: ports/sales_quantity.go. The text is matched with
-- ^(0|[1-9][0-9]{0,15})(\.[0-9]{1,4})?$ and must stand for a positive number.
pub mod Bounds
use mujeeb24_backend_go.Common.{
  ℕ, ◌+◌, ◌-◌, ◌*◌, ◌^◌, String, Bool, true, false, ◌&&◌, ◌||◌, not, List, [], ◌∷◌, eqb, leb, ltb,
  length, if◌then◌else◌,
}
use Prim.Native.Char.{code}

-- The code points of a text.
unfoldable pub codes : String → List ℕ
codes String.[] = []
codes (String.◌∷◌ c s) = code c ∷ codes s

abbrev pub is_digit : ℕ → Bool
is_digit c = leb b'0' c && leb c b'9'

unfoldable pub all_digits : List ℕ → Bool
all_digits [] = true
all_digits (c ∷ s) = is_digit c && all_digits s

abbrev pub is_point : ℕ → Bool
is_point c = eqb c b'.'

-- The text in front of the first point.
unfoldable pub whole_part : List ℕ → List ℕ
whole_part [] = []
whole_part (c ∷ s) = if is_point c then [] else c ∷ whole_part s

-- The text behind the first point.
unfoldable pub fraction_part : List ℕ → List ℕ
fraction_part [] = []
fraction_part (c ∷ s) = if is_point c then s else fraction_part s

unfoldable pub has_point : List ℕ → Bool
has_point [] = false
has_point (c ∷ s) = is_point c || has_point s

-- 0|[1-9][0-9]{0,15}
unfoldable pub is_whole : List ℕ → Bool
unfolding all_digits
is_whole [] = false
is_whole (c ∷ s) =
    (eqb c b'0' && eqb (length s) 0)
    || (leb b'1' c && leb c b'9' && all_digits s && leb (length s) 15)

-- [0-9]{1,4}
unfoldable pub is_fraction : List ℕ → Bool
unfolding all_digits
is_fraction s = all_digits s && leb 1 (length s) && leb (length s) 4

unfoldable pub matches_quantity : List ℕ → Bool
unfolding is_whole is_fraction whole_part fraction_part has_point
matches_quantity s = is_whole (whole_part s) && (not (has_point s) || is_fraction (fraction_part s))

-- The number that digits stand for, behind those of `n`.
unfoldable pub digits_onto : ℕ → List ℕ → ℕ
digits_onto n [] = n
digits_onto n (c ∷ s) = digits_onto (n * 10 + (c - b'0')) s

-- The rational number is this numerator over ten to the number of the fraction's digits.
unfoldable pub numerator : List ℕ → ℕ
unfolding digits_onto whole_part fraction_part
numerator s = digits_onto (digits_onto 0 (whole_part s)) (fraction_part s)

-- `ValidateSalesQuantity`: whether it returns no error
unfoldable pub validate_sales_quantity : String → Bool
unfolding matches_quantity numerator codes
validate_sales_quantity value = matches_quantity (codes value) && ltb 0 (numerator (codes value))

-- What the column NUMERIC(20,4) stores: the number in steps of a ten-thousandth.
unfoldable pub scaled : List ℕ → ℕ
unfolding numerator fraction_part
scaled s = numerator s * 10 ^ (4 - length (fraction_part s))
