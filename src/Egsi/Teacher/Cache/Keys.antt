-- ===== src/Egsi/Teacher/Cache/Keys.antt =====
-- `cache_key` and `path_for` of src/egsi/teacher/cache.py. A ValueError is `none`.
use mathlib.Core.Option.{some-injective}
use iclr.Base.{
  ℕ, zero, suc, ◌≡◌, refl, sym, ◌∙◌, ap, Bool, true, not, ◌&&◌, Option, none, some, [], ◌∷◌, ◌++◌,
  any, if◌then◌else◌, length, ◌==◌, arith,
}
use iclr.Base.Options.{◌>>=◌, ◌>>◌, guard, >>=-eq-some, guard-eq-some}
use iclr.Base.Texts.{codes, starts_with, take, is_hex}
use iclr.Egsi.Episode.Events.{is_hex_of}
use iclr.Egsi.Teacher.Responses.{Text, TeacherRequest}

-- `text[n:]`
abbrev pub drop : ℕ → Text → Text
drop zero text = text
drop (suc n) [] = []
drop (suc n) (c ∷ text) = drop n text

abbrev pub key_prefix : Text
key_prefix = codes "sha256:"

abbrev pub suffix : Text
suffix = codes ".json"

-- `key.removeprefix("sha256:")`
abbrev pub removeprefix : Text → Text
removeprefix key = if starts_with key key_prefix then drop (length key_prefix) key else key

-- The test on a provenance that is given.
unfoldable pub provenance_is_valid : Option Text → Bool
provenance_is_valid none = true
provenance_is_valid (some provenance) =
    starts_with provenance key_prefix
    && length provenance == 71
    && not (any (λ c. not (is_hex c)) (drop 7 provenance))

-- `cache_key`; `digest` is SHA-256 over the canonical JSON in hexadecimal, none if that is no UTF-8.
unfoldable pub cache_key :
    (Text → Text → TeacherRequest → Option Text → Option Text)
    → Text
    → Text
    → TeacherRequest
    → Option Text
    → Option Text
cache_key digest provider model request provenance = do
  guard (provenance_is_valid provenance)
  hash ← digest provider model request provenance
  some (key_prefix ++ hash)

-- `path_for`, the name of the file in the cache's directory.
unfoldable pub path_for : Text → Option Text
path_for key = do
  let digest = removeprefix key
  guard (starts_with key key_prefix && is_hex_of 64 digest)
  some (digest ++ suffix)

take-append : (xs ys : Text) → take (length xs) (xs ++ ys) ≡ xs
take-append [] ys = refl
take-append (x ∷ xs) ys = ap (λ t. x ∷ t) (take-append xs ys)

both_of : (a b : Bool) → (a && b) ≡ true → (a ≡ true) × (b ≡ true)
both_of a b h = ground arith

-- A text is the prefix that it starts with, and the rest.
starts_with-split :
    (text prefix : Text)
    → starts_with text prefix ≡ true
    → text ≡ prefix ++ drop (length prefix) text
starts_with-split text [] h = refl
starts_with-split [] (p ∷ ps) h = cc
starts_with-split (c ∷ cs) (p ∷ ps) h =
    let (first, rest) = both_of (c == p) (starts_with cs ps) h in
    let same : c ≡ p = ground (arith, first) in
    ap (λ t. c ∷ t) (starts_with-split cs ps rest)
    ∙ ap (λ (x : ℕ). x ∷ ps ++ drop (length ps) cs) same

-- A key with a file is the prefix and the digits of the file's name.
path_for-eq_some : (key name : Text) → path_for key ≡ some name → key ≡ key_prefix ++ take 64 name
unfolding path_for
path_for-eq_some key name h =
    let (tests, named) =
      guard-eq-some (starts_with key key_prefix && is_hex_of 64 (removeprefix key))
        (some (removeprefix key ++ suffix)) h in
    let (starts, hexadecimal) = both_of _ _ tests in
    let digest = drop 7 key in
    let removed : removeprefix key ≡ digest = rw starts refl in
    let counted : length (removeprefix key) ≡ 64 = ground (arith, hexadecimal) in
    let long : length digest ≡ 64 = ap length (sym removed) ∙ counted in
    let name_is : digest ++ suffix ≡ name =
      ap (λ t. t ++ suffix) (sym removed) ∙ some-injective _ name named in
    let digits : digest ≡ take 64 name =
      sym (take-append digest suffix)
      ∙ ap (λ n. take n (digest ++ suffix)) long
      ∙ ap (take 64) name_is in
    starts_with-split key key_prefix starts ∙ ap (λ t. key_prefix ++ t) digits

-- Two keys of one file are the same.
pub path_for-injective :
    (key other name : Text) → path_for key ≡ some name → path_for other ≡ some name → key ≡ other
path_for-injective key other name h h' =
    path_for-eq_some key name h ∙ sym (path_for-eq_some other name h')

-- Keys that `cache_key` makes have a file.
pub path_for-cache_key :
    (digest : Text → Text → TeacherRequest → Option Text → Option Text) (provider model : Text)
    (request : TeacherRequest) (provenance : Option Text) (key : Text)
    → ((hash : Text)
        → digest provider model request provenance ≡ some hash
        → is_hex_of 64 hash ≡ true)
    → cache_key digest provider model request provenance ≡ some key
    → path_for key ≡ some (drop 7 key ++ suffix)
unfolding path_for cache_key
path_for-cache_key digest provider model request provenance key hexadecimal h =
    let (valid, h1) =
      guard-eq-some (provenance_is_valid provenance)
        (digest provider model request provenance >>= λ hash. some (key_prefix ++ hash)) h in
    let (hash, e, h2) = >>=-eq-some (digest provider model request provenance) _ h1 in
    let same : key_prefix ++ hash ≡ key = some-injective _ key h2 in
    let made : path_for (key_prefix ++ hash) ≡ some (hash ++ suffix) =
      rw (hexadecimal hash e) refl in
    ap path_for (sym same) ∙ made ∙ ap (λ k. some (drop 7 k ++ suffix)) same
