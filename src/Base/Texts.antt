-- ===== src/Base/Texts.antt =====
-- Python's text methods, over the code points of a text.
use Prim.Native.Nat.{ℕ, zero, suc, ◌+◌, ◌/◌, ◌%◌}
use Prim.Native.Char.{code}
use Prim.Native.String.{String}
use mathlib.Core.Bool.{Bool, true, false, ◌&&◌, ◌||◌}
use mathlib.Core.Option.{Option, none, some}
use mathlib.Core.List.{List, [], ◌∷◌, ◌++◌, reverse}
use iclr.Base.Tests.{leb, ◌==◌, if◌then◌else◌}

-- The code points of a text.
abbrev pub codes : String → List ℕ
codes String.[] = []
codes (String.◌∷◌ c s) = code c ∷ codes s

-- Two lists of code points are equal.
abbrev pub codes_eq : List ℕ → List ℕ → Bool
codes_eq [] [] = true
codes_eq [] (y ∷ ys) = false
codes_eq (x ∷ xs) [] = false
codes_eq (x ∷ xs) (y ∷ ys) = x == y && codes_eq xs ys

-- `str.lower` where the result is one ASCII letter: of the capitals, and of the Kelvin sign. All
-- other code points are left, so the result compares with ASCII literals as Python's does.
unfoldable pub lower : ℕ → ℕ
lower c = if leb b'A' c && leb c b'Z' then c + 32 else if c == 0x212a then b'k' else c

-- `text.startswith(prefix)`
abbrev pub starts_with : List ℕ → List ℕ → Bool
starts_with text [] = true
starts_with [] (p ∷ ps) = false
starts_with (c ∷ cs) (p ∷ ps) = c == p && starts_with cs ps

-- `text.endswith(suffix)`
abbrev pub ends_with : List ℕ → List ℕ → Bool
ends_with text suffix = starts_with (reverse text) (reverse suffix)

-- `part in text`
abbrev pub contains : List ℕ → List ℕ → Bool
contains [] part = starts_with [] part
contains (c ∷ cs) part = starts_with (c ∷ cs) part || contains cs part

-- `text.split("/")`: `part` holds the current part, reversed.
abbrev pub split_from : List ℕ → List ℕ → List (List ℕ)
split_from part [] = reverse part ∷ []
split_from part (c ∷ cs) =
    let cut = reverse part ∷ split_from [] cs in
    let grown = split_from (c ∷ part) cs in if c == b'/' then cut else grown

abbrev pub split : List ℕ → List (List ℕ)
split text = split_from [] text

-- `str.isspace` of a code point, which is what `str.strip` removes.
abbrev pub is_space : ℕ → Bool
is_space c =
    (leb 9 c && leb c 13)
    || (leb 28 c && leb c 32)
    || c == 0x85
    || c == 0xa0
    || c == 0x1680
    || (leb 0x2000 c && leb c 0x200a)
    || c == 0x2028
    || c == 0x2029
    || c == 0x202f
    || c == 0x205f
    || c == 0x3000

-- `not text.strip()`
abbrev pub is_blank : List ℕ → Bool
is_blank [] = true
is_blank (c ∷ cs) = is_space c && is_blank cs

abbrev pub is_hex : ℕ → Bool
is_hex c = (leb b'0' c && leb c b'9') || (leb b'a' c && leb c b'f')

abbrev pub is_digit : ℕ → Bool
is_digit c = leb b'0' c && leb c b'9'

-- The decimal digits of a number, before those of `rest`; `fuel` above the number is enough.
abbrev pub decimal_from : ℕ → ℕ → List ℕ → List ℕ
decimal_from zero n rest = rest
decimal_from (suc fuel) n rest =
    let digit = b'0' + n % 10 in
    let more = decimal_from fuel (n / 10) (digit ∷ rest) in if leb n 9 then digit ∷ rest else more

-- `str(n)`
abbrev pub decimal : ℕ → List ℕ
decimal n = decimal_from (suc n) n []

-- `separator.join(texts)`
abbrev pub join : List ℕ → List (List ℕ) → List ℕ
join separator [] = []
join separator (t ∷ []) = t
join separator (t ∷ u ∷ ts) = t ++ separator ++ join separator (u ∷ ts)

-- `len(value.encode("utf-8"))`; a surrogate cannot be encoded.
abbrev pub is_surrogate : ℕ → Bool
is_surrogate c = leb 0xd800 c && leb c 0xdfff

abbrev pub utf8_width : ℕ → ℕ
utf8_width c = if leb c 0x7f then 1 else if leb c 0x7ff then 2 else if leb c 0xffff then 3 else 4

abbrev pub add_width : ℕ → Option ℕ → Option ℕ
add_width width none = none
add_width width (some n) = some (width + n)

unfoldable pub utf8_length : List ℕ → Option ℕ
utf8_length [] = some 0
utf8_length (c ∷ cs) =
    let rest = add_width (utf8_width c) (utf8_length cs) in if is_surrogate c then none else rest

-- `f"{n:04d}"`
abbrev pub four_digits : ℕ → List ℕ
four_digits n =
    if leb n 9999
    then (b'0' + n / 1000 % 10)
      ∷ (b'0' + n / 100 % 10)
      ∷ (b'0' + n / 10 % 10)
      ∷ (b'0' + n % 10)
      ∷ []
    else decimal n

abbrev pub take : ℕ → List ℕ → List ℕ
take zero text = []
take (suc n) [] = []
take (suc n) (c ∷ cs) = c ∷ take n cs

-- `a <= b` on texts.
abbrev pub text_le : List ℕ → List ℕ → Bool
text_le [] ys = true
text_le (x ∷ xs) [] = false
text_le (x ∷ xs) (y ∷ ys) = if x == y then text_le xs ys else leb x y
