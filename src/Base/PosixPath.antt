-- ===== src/Base/PosixPath.antt =====
-- Python's `PurePosixPath`, of a value that is not absolute.
use Prim.Native.Nat.{ℕ}
use mathlib.Core.Bool.{Bool, not, ◌&&◌, ◌||◌}
use mathlib.Core.List.{List, [], ◌∷◌}
use iclr.Base.Tests.{◌==◌}
use iclr.Base.Lists.{length, select}
use iclr.Base.Texts.{codes, codes_eq, split, join}

-- `PurePosixPath` drops an empty part and the part ".".
abbrev pub is_real_part : List ℕ → Bool
is_real_part part = not (length part == 0) && not (codes_eq part (codes "."))

-- `PurePosixPath(value).parts`, for a value that is not absolute.
unfoldable pub parts : List ℕ → List (List ℕ)
parts value = select is_real_part (split value)

-- `part in {"", ".", ".."}`
abbrev pub is_special_part : List ℕ → Bool
is_special_part part = length part == 0 || (codes_eq part (codes ".") || codes_eq part (codes ".."))

-- `PurePosixPath(value).as_posix()`
abbrev pub as_posix : List (List ℕ) → List ℕ
as_posix [] = codes "."
as_posix (part ∷ parts) = join (codes "/") (part ∷ parts)
