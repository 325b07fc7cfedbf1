-- ===== src/Egsi/Candidates/Steps.antt =====
-- `CanonicalPolicyStep`, `_validate_step` and `canonicalize_policy_trace` of
-- src/egsi/generation/candidates.py. A text whose characters are examined is its code points.
use iclr.Base.{
  ℕ, suc, ◌+◌, String, Bool, true, false, not, ◌&&◌, ◌||◌, Option, none, some, List, [], ◌∷◌, ◌++◌,
  any, member, length, is_none, str_eq, leb, ◌==◌, if◌then◌else◌,
}
use iclr.Base.Options.{◌>>=◌, ◌>>◌, guard}
use iclr.Base.Texts.{codes, codes_eq, is_digit, utf8_length, four_digits}
use iclr.Egsi.Candidates.Profile.{Profile, profile_of, target_kinds, expected_evidence_type}
use iclr.Egsi.RepositoryPaths.{canonical_repo_blob_path}

abbrev pub Text : Type 0
Text = List ℕ

-- The part of `TraceStep` and of `EnrichmentPayload` that the compiler reads.
pub record TraceStep : Type 0 where
  pub operation : String
  pub target_kind : String
  pub target_id : Text
  pub resolves_unknowns : List Text

pub record Payload : Type 0 where
  pub obligation_ids : List Text
  pub trace : List TraceStep

pub record CanonicalPolicyStep : Type 0 where
  pub step_id : Text
  pub goal : String
  pub operation : String
  pub target_kind : String
  pub target_id : Text
  pub target_location : Option Text
  pub resolves_unknowns : List Text
  pub expected_evidence_type : String
  pub tool_class : String

-- `x in xs`, on code points.
abbrev pub text_member : Text → List Text → Bool
text_member x [] = false
text_member x (y ∷ ys) = codes_eq y x || text_member x ys

-- `len(set(values)) == len(values)`
abbrev pub all_different : List Text → Bool
all_different [] = true
all_different (x ∷ xs) = not (text_member x xs) && all_different xs

-- `re.fullmatch(r"S-[0-9]{4}", value)`, and the same with `O`.
abbrev pub is_identifier : ℕ → Text → Bool
is_identifier letter (l ∷ dash ∷ a ∷ b ∷ c ∷ d ∷ []) =
    l == letter && dash == b'-' && is_digit a && is_digit b && is_digit c && is_digit d
is_identifier letter value = false

-- `_require_identifier`
abbrev pub is_bounded : ℕ → Option ℕ → Bool
is_bounded limit none = false
is_bounded limit (some n) = leb n limit

unfoldable pub require_identifier : Text → Bool
require_identifier value = not (length value == 0) && is_bounded 4096 (utf8_length value)

-- The loop of `_validate_trace_list`, from the bytes counted so far.
unfoldable pub items_fit : ℕ → List Text → Bool
items_fit total [] = true
items_fit total (value ∷ values) = elim (utf8_length value) [
  | none ↦ false
  | some n ↦
      not (length value == 0) && leb n 256 && leb (total + n) 8192 && items_fit (total + n) values
]

-- `_validate_trace_list(..., unique=True)`
unfoldable pub trace_list_fits : List Text → Bool
unfolding items_fit
trace_list_fits values = leb (length values) 64 && items_fit 0 values && all_different values

-- `f"{target_kind}-{ordinal}"`
abbrev pub numbered : String → Text → Text
numbered kind ordinal = codes kind ++ b'-' ∷ ordinal

-- `step_id.removeprefix("S-")`
abbrev pub ordinal_of : Text → Text
ordinal_of (l ∷ dash ∷ rest) = if l == b'S' && dash == b'-' then rest else l ∷ dash ∷ rest
ordinal_of value = value

abbrev pub text_is : Option Text → Text → Bool
text_is none value = false
text_is (some text) value = codes_eq text value

-- `expected is not None and target_id != expected` is false.
abbrev pub matches_override : Option String → Text → Bool
matches_override none target_id = true
matches_override (some id) target_id = codes_eq target_id (codes id)

-- The last block of `_validate_step`: what binds the target.
unfoldable pub target_is_bound : Profile → CanonicalPolicyStep → Bool
target_is_bound p step =
    if str_eq step.target_kind "path"
    then text_is (canonical_repo_blob_path step.target_id) step.target_id
      && text_is step.target_location step.target_id
    else is_none step.target_location && elim p.override [
      | none ↦ codes_eq step.target_id (numbered step.target_kind (ordinal_of step.step_id))
      | some (kind, id) ↦ str_eq step.target_kind kind && matches_override id step.target_id
    ]

abbrev pub type_is : Option String → String → Bool
type_is none value = false
type_is (some text) value = str_eq value text

abbrev pub optional_identifier : Option Text → Bool
optional_identifier none = true
optional_identifier (some text) = require_identifier text

-- The tests of `_validate_step` against the profile.
unfoldable pub fits_profile : CanonicalPolicyStep → Bool
fits_profile step = elim (profile_of step.operation) [
  | none ↦ false
  | some p ↦
      str_eq step.goal p.goal
      && str_eq step.tool_class p.tool_class
      && member step.target_kind target_kinds
      && type_is (expected_evidence_type step.operation step.target_kind)
          step.expected_evidence_type
      && target_is_bound p step
]

-- `_validate_step`
unfoldable pub validate_step : CanonicalPolicyStep → Bool
validate_step step =
    require_identifier step.step_id
    && require_identifier (codes step.goal)
    && require_identifier (codes step.operation)
    && require_identifier (codes step.target_kind)
    && require_identifier step.target_id
    && require_identifier (codes step.expected_evidence_type)
    && require_identifier (codes step.tool_class)
    && is_identifier b'S' step.step_id
    && optional_identifier step.target_location
    && trace_list_fits step.resolves_unknowns
    && not (any (λ item. not (is_identifier b'O' item)) step.resolves_unknowns)
    && fits_profile step

-- `obligation_map[value]`: the number of the last obligation with the identifier.
unfoldable pub obligation_number : ℕ → List Text → Text → Option ℕ
obligation_number index [] value = none
obligation_number index (id ∷ ids) value =
    let later = obligation_number (suc index) ids value in
    elim later [ some n ↦ some n | none ↦ if codes_eq id value then some index else none ]

-- `tuple(obligation_map[value] for value in raw.resolves_unknowns)`
unfoldable pub resolve_obligations : List Text → List Text → Option (List Text)
unfolding obligation_number
resolve_obligations ids [] = some []
resolve_obligations ids (value ∷ values) = obligation_number 1 ids value >>= λ n.
    resolve_obligations ids values >>= λ rest. some ((codes "O-" ++ four_digits n) ∷ rest)

-- The target of a step before an override: its identifier and its location.
unfoldable pub raw_target : (Text → Bool) → ℕ → TraceStep → Option (Text × Option Text)
raw_target vulnerable_path_exists index raw =
    if str_eq raw.target_kind "path"
    then (canonical_repo_blob_path raw.target_id >>= λ path.
        guard (vulnerable_path_exists path) >> some (path, some path))
    else some (numbered raw.target_kind (four_digits index), none)

abbrev pub override_id : Text → Option String → Text
override_id episode_id none = episode_id
override_id episode_id (some id) = codes id

-- A target: kind, identifier and location.
pub record Target : Type 0 where
  pub kind : String
  pub id : Text
  pub location : Option Text

-- `if override is not None: ...`
abbrev pub override_target : Text → Option (String × Option String) → Target → Target
override_target episode_id none target = target
override_target episode_id (some (kind, id)) target = record {
  kind = kind;
  id = override_id episode_id id;
  location = none;
}

module _ (vulnerable_path_exists : Text → Bool) (episode_id : Text)
    (obligation_ids : List Text) where
  -- One round of the loop of `canonicalize_policy_trace`; `none` is a ValueError or a KeyError.
  unfoldable pub canonicalize_step : ℕ → TraceStep → Option CanonicalPolicyStep
  canonicalize_step index raw = do
    guard (member raw.target_kind target_kinds)
    p ← profile_of raw.operation
    (id, location) ← raw_target vulnerable_path_exists index raw
    resolves ← resolve_obligations obligation_ids raw.resolves_unknowns
    let target =
        override_target episode_id p.override
          (record { kind = raw.target_kind; id = id; location = location })
    evidence ← expected_evidence_type raw.operation target.kind
    some (record {
      step_id = codes "S-" ++ four_digits index;
      goal = p.goal;
      operation = raw.operation;
      target_kind = target.kind;
      target_id = target.id;
      target_location = target.location;
      resolves_unknowns = resolves;
      expected_evidence_type = evidence;
      tool_class = p.tool_class;
    })

  -- The loop, from a position of the trace on.
  unfoldable pub canonicalize_from : ℕ → List TraceStep → Option (List CanonicalPolicyStep)
  canonicalize_from index [] = some []
  canonicalize_from index (raw ∷ trace) = canonicalize_step index raw >>= λ step.
      canonicalize_from (suc index) trace >>= λ rest. some (step ∷ rest)

-- `canonicalize_policy_trace`
unfoldable pub canonicalize_policy_trace :
    (Text → Bool) → Payload → Text → Option (List CanonicalPolicyStep)
canonicalize_policy_trace vulnerable_path_exists payload episode_id =
    guard (not (length episode_id == 0))
    >> canonicalize_from vulnerable_path_exists episode_id payload.obligation_ids 1 payload.trace
