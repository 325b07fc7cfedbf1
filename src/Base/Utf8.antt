-- ===== src/Base/Utf8.antt =====
-- `bytes.decode("utf-8")`, in its strict mode.
use Prim.Native.Nat.{ℕ, ◌+◌, ◌-◌, ◌*◌}
use mathlib.Core.Bool.{◌&&◌}
use mathlib.Core.Option.{Option, none, some}
use mathlib.Core.List.{List, [], ◌∷◌}
use mathlib.Core.Path.{◌≡◌, refl}
use iclr.Base.Tests.{leb, ◌==◌, if◌then◌else◌}

-- `need` continuation bytes are to come, the next one from `low` to `high`; `value` is what the
-- bytes so far stand for.
pub record Pending : Type 0 where
  pub need : ℕ
  pub value : ℕ
  pub low : ℕ
  pub high : ℕ

abbrev pub between_characters : Pending
between_characters = record { need = 0; value = 0; low = 0x80; high = 0xbf }

abbrev lead : ℕ → ℕ → ℕ → ℕ → Option (Pending × Option ℕ)
lead need value low high =
    some (record { need = need; value = value; low = low; high = high }, none)

abbrev pub first_byte : ℕ → Option (Pending × Option ℕ)
first_byte b =
    if leb b 0x7f
    then some (between_characters, some b)
    else if leb 0xc2 b && leb b 0xdf
    then lead 1 (b - 0xc0) 0x80 0xbf
    else if b == 0xe0
    then lead 2 0 0xa0 0xbf
    else if b == 0xed
    then lead 2 13 0x80 0x9f
    else if leb 0xe1 b && leb b 0xef
    then lead 2 (b - 0xe0) 0x80 0xbf
    else if b == 0xf0
    then lead 3 0 0x90 0xbf
    else if leb 0xf1 b && leb b 0xf3
    then lead 3 (b - 0xf0) 0x80 0xbf
    else if b == 0xf4
    then lead 3 4 0x80 0x8f
    else none

abbrev pub next_byte : Pending → ℕ → Option (Pending × Option ℕ)
next_byte p b =
    let value = p.value * 64 + (b - 0x80) in
    if leb p.low b && leb b p.high
    then (if p.need == 1
        then some (between_characters, some value)
        else lead (p.need - 1) value 0x80 0xbf)
    else none

abbrev pub read_byte : Pending → ℕ → Option (Pending × Option ℕ)
read_byte p b = if p.need == 0 then first_byte b else next_byte p b

abbrev put : Option ℕ → Option (List ℕ) → Option (List ℕ)
put none rest = rest
put (some c) none = none
put (some c) (some cs) = some (c ∷ cs)

pub decode_from : Pending → List ℕ → Option (List ℕ)
decode_from p [] = if p.need == 0 then some [] else none
decode_from p (b ∷ bs) = elim (read_byte p b) [
  | none ↦ none
  | some (p', c) ↦ put c (decode_from p' bs)
]

unfoldable pub decode_utf8 : List ℕ → Option (List ℕ)
unfolding decode_from
decode_utf8 bytes = decode_from between_characters bytes

two_and_three_bytes :
    decode_utf8 (0x41 ∷ 0xc3 ∷ 0xa9 ∷ 0xe2 ∷ 0x82 ∷ 0xac ∷ []) ≡ some (0x41 ∷ 0xe9 ∷ 0x20ac ∷ [])
unfolding decode_utf8
two_and_three_bytes = refl

no_overlong : decode_utf8 (0xc0 ∷ 0x80 ∷ []) ≡ none
unfolding decode_utf8
no_overlong = refl
