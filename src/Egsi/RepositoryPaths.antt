-- ===== src/Egsi/RepositoryPaths.antt =====
-- `canonical_repo_blob_path` of src/egsi/data/repository_paths.py, on code points.
use iclr.Base.{
  ℕ, ◌≡◌, refl, sym, ap, ◌∙◌, Bool, true, not, ◌||◌, Option, none, some, List, [], ◌∷◌, any, length,
  arith, is_none, ltb, ◌==◌, if◌then◌else◌,
}
use iclr.Base.Texts.{codes, codes_eq, starts_with, ends_with, contains, utf8_length}
use iclr.Base.PosixPath.{parts, is_special_part, as_posix}

-- `ord(character) < 32 or ord(character) == 127`
abbrev pub is_control : ℕ → Bool
is_control c = ltb c 32 || c == 127

-- The tests on the characters.
unfoldable pub has_bad_text : List ℕ → Bool
has_bad_text value =
    contains value (codes "\\")
    || contains value (codes ":")
    || ends_with value (codes "/")
    || contains value (codes "//")
    || any is_control value

-- The tests on the path that the value spells.
unfoldable pub has_bad_parts : List ℕ → Bool
unfolding parts
has_bad_parts value =
    starts_with value (codes "/")
    || any is_special_part (parts value)
    || not (codes_eq (as_posix (parts value)) value)
    || codes_eq value (codes ".")

-- `none` is the ValueError.
unfoldable pub canonical_repo_blob_path : List ℕ → Option (List ℕ)
unfolding has_bad_text has_bad_parts utf8_length
canonical_repo_blob_path value =
    if length value == 0 || is_none (utf8_length value)
    then none
    else if has_bad_text value
    then none
    else if has_bad_parts value
    then none
    else some value

pub codes_eq-eq : (xs ys : List ℕ) → codes_eq xs ys ≡ true → xs ≡ ys
codes_eq-eq [] [] h = refl
codes_eq-eq [] (y ∷ ys) h = cc
codes_eq-eq (x ∷ xs) [] h = cc
codes_eq-eq (x ∷ xs) (y ∷ ys) h = ground (arith, codes_eq-eq xs ys)

-- A path that is accepted is returned as it is, and is the spelling of its parts.
pub canonical_repo_blob_path-as_posix :
    (value out : List ℕ)
    → canonical_repo_blob_path value ≡ some out
    → (out ≡ value) × (as_posix (parts value) ≡ value)
unfolding canonical_repo_blob_path
canonical_repo_blob_path-as_posix value out h =
    (ground arith, codes_eq-eq (as_posix (parts value)) value (ground arith))

-- Two accepted paths with the same parts are the same text: no path has an alias.
pub canonical_repo_blob_path-no_alias :
    (a b a' b' : List ℕ)
    → canonical_repo_blob_path a ≡ some a'
    → canonical_repo_blob_path b ≡ some b'
    → parts a ≡ parts b
    → a' ≡ b'
canonical_repo_blob_path-no_alias a b a' b' ha hb same =
    let (ea, pa) = canonical_repo_blob_path-as_posix a a' ha in
    let (eb, pb) = canonical_repo_blob_path-as_posix b b' hb in
    ea ∙ sym pa ∙ ap as_posix same ∙ pb ∙ sym eb
