-- ===== src/Sbs/Isolation/Paths.antt =====
-- Paths of src/sbs/isolation.py: `PurePosixPath`, `Path.relative_to` and `_is_relative_posix`.
use iclr.Base.{ℕ, Bool, true, false, not, ◌&&◌, List, [], ◌∷◌, any, length, ◌==◌}
use iclr.Base.Texts.{codes, codes_eq, starts_with, contains}
use iclr.Base.PosixPath.{parts, is_special_part}

-- An absolute path, by its components below the root.
abbrev pub FilePath : Type 0
FilePath = List (List ℕ)

-- `_is_relative_posix`
unfoldable pub is_relative_posix : List ℕ → Bool
unfolding parts
is_relative_posix value =
    not (length value == 0)
    && not (starts_with value (codes "/"))
    && not (contains value (codes "\\"))
    && not (any is_special_part (parts value))

-- `path.relative_to(root)` raises no ValueError.
abbrev pub is_under : FilePath → FilePath → Bool
is_under [] path = true
is_under (c ∷ root) [] = false
is_under (c ∷ root) (d ∷ path) = codes_eq c d && is_under root path
