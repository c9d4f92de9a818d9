-- ===== src/Common/Text.antt =====
-- What the code uses of Go's package strings: `TrimSpace` and `ToLower`.
use Prim.Native.Char.{Char, code}
use Prim.Native.String.{String}
use mathlib.Core.Bool.{Bool, ◌&&◌, ◌||◌}
use mujeeb24_backend_go.Common.Tests.{eqb, leb, if◌then◌else◌}

-- `unicode.IsSpace`
unfoldable pub is_space : Char → Bool
is_space c =
    let n = code c in
    (leb 9 n && leb n 13)
    || eqb n 32
    || eqb n 0x85
    || eqb n 0xA0
    || eqb n 0x1680
    || (leb 0x2000 n && leb n 0x200A)
    || eqb n 0x2028
    || eqb n 0x2029
    || eqb n 0x202F
    || eqb n 0x205F
    || eqb n 0x3000

trim_left : String → String
unfolding is_space
trim_left String.[] = String.[]
trim_left (String.◌∷◌ c s) = if is_space c then trim_left s else String.◌∷◌ c s

-- Adds a character in front of a text that is already trimmed at its end.
trim_cons : Char → String → String
unfolding is_space
trim_cons c String.[] = if is_space c then String.[] else String.◌∷◌ c String.[]
trim_cons c (String.◌∷◌ d s) = String.◌∷◌ c (String.◌∷◌ d s)

trim_right : String → String
unfolding trim_cons
trim_right String.[] = String.[]
trim_right (String.◌∷◌ c s) = trim_cons c (trim_right s)

-- `strings.TrimSpace`
unfoldable pub trim_space : String → String
unfolding trim_left trim_right
trim_space s = trim_right (trim_left s)

-- The character of `to` at the place where `from` has `c`.
translate : String → String → Char → Char
translate String.[] to c = c
translate (String.◌∷◌ d from) String.[] c = c
translate (String.◌∷◌ d from) (String.◌∷◌ e to) c =
    if eqb (code d) (code c) then e else translate from to c

-- `unicode.ToLower`, on the letters whose small letter is ASCII: A to Z, the dotted capital I
-- (U+0130) and the Kelvin sign (U+212A). Every other character is left alone, which no comparison
-- with an ASCII text can tell.
unfoldable pub lower : Char → Char
unfolding translate
lower c = translate "ABCDEFGHIJKLMNOPQRSTUVWXYZİK" "abcdefghijklmnopqrstuvwxyzik" c

-- `strings.ToLower`
unfoldable pub to_lower : String → String
unfolding lower
to_lower String.[] = String.[]
to_lower (String.◌∷◌ c s) = String.◌∷◌ (lower c) (to_lower s)
