-- ===== src/Egsi/Tests.antt =====
-- A small schema and hash, a compiled candidate set and a replayed episode, and the theorems of the
-- package at those inputs.
mod Episodes
mod Labels
mod Redactions
mod Caches
use iclr.Base.{Bool, ◌≡◌, refl, true, none, some, List, [], ◌∷◌}
use iclr.Base.Options.{some_of}
use iclr.Base.PosixPath.{parts}
use iclr.Base.Texts.{codes, utf8_length}
use iclr.Egsi.Candidates.Actions.{
  Action, Library, action_eq, base_eq, base_action, make_action,
  canonical_step_from_selected_action,
}
use iclr.Egsi.Candidates.Compile.{
  Compiled, operations_of, insert_action, sort_actions, make_actions, check_compiled,
  compile_candidates,
}
use iclr.Egsi.Candidates.Frontier.{IsCompiled, compile_candidates-IsCompiled}
use iclr.Egsi.Candidates.Profile.{profile_of, alternatives, expected_evidence_type}
use iclr.Egsi.Candidates.RoundTrip.{canonical_step_from_selected_action-make_action}
use iclr.Egsi.Candidates.Steps.{
  Text, CanonicalPolicyStep, require_identifier, items_fit, trace_list_fits, target_is_bound,
  fits_profile, validate_step, TraceStep, raw_target, resolve_obligations, obligation_number,
  canonicalize_step,
}
use iclr.Egsi.RepositoryPaths.{
  canonical_repo_blob_path, has_bad_text, has_bad_parts, canonical_repo_blob_path-no_alias,
}

-- The operation of an action stands for its hash.
abbrev pub lib : Library
lib = record {
  digest = λ base. codes base.operation;
  ordering_key = λ base. codes base.operation;
  fingerprint = λ action. codes action.base.operation;
  is_legal = λ _. true;
}

abbrev pub step : CanonicalPolicyStep
step = record {
  step_id = codes "S-0001";
  goal = "ESTABLISH_REACHABILITY";
  operation = "find_callers";
  target_kind = "function";
  target_id = codes "function-0001";
  target_location = none;
  resolves_unknowns = codes "O-0001" ∷ [];
  expected_evidence_type = "program_element";
  tool_class = "graph_query";
}

unfoldable pub compiled :
    (c : Compiled) × (compile_candidates lib (codes "C-1") (codes "EP-1") (codes "B-1") step
      ≡ some c)
unfolding compile_candidates check_compiled operations_of alternatives make_actions make_action
    base_action profile_of expected_evidence_type sort_actions insert_action action_eq base_eq
    require_identifier validate_step fits_profile target_is_bound trace_list_fits items_fit
    utf8_length
compiled = some_of (compile_candidates lib (codes "C-1") (codes "EP-1") (codes "B-1") step) refl

compile_candidates-IsCompiled_example :
    IsCompiled lib (codes "C-1") (codes "EP-1") (codes "B-1") step compiled.0
compile_candidates-IsCompiled_example =
    compile_candidates-IsCompiled lib (codes "C-1") (codes "EP-1") (codes "B-1") step compiled.0
      compiled.1

abbrev raw_step : TraceStep
raw_step = record {
  operation = "find_callers";
  target_kind = "function";
  target_id = codes "com.example.A#run";
  resolves_unknowns = codes "guard" ∷ [];
}

abbrev obligation_ids : List Text
obligation_ids = codes "guard" ∷ []

abbrev path_exists : Text → Bool
path_exists path = true

canonicalized : canonicalize_step path_exists (codes "EP-1") obligation_ids 1 raw_step ≡ some step
unfolding canonicalize_step profile_of raw_target resolve_obligations obligation_number
    expected_evidence_type
canonicalized = refl

step_validates : validate_step step ≡ true
unfolding require_identifier validate_step fits_profile target_is_bound trace_list_fits items_fit
    utf8_length profile_of expected_evidence_type
step_validates = refl

own_made :
    (a : Action) × (make_action lib (codes "C-1") (codes "EP-1") (codes "B-1") step "find_callers"
      ≡ some a)
unfolding make_action base_action profile_of expected_evidence_type
own_made =
    some_of (make_action lib (codes "C-1") (codes "EP-1") (codes "B-1") step "find_callers") refl

canonical_step_from_selected_action-make_action_example :
    canonical_step_from_selected_action lib own_made.0 ≡ some step
canonical_step_from_selected_action-make_action_example =
    canonical_step_from_selected_action-make_action lib path_exists (codes "C-1") (codes "EP-1")
      (codes "B-1") obligation_ids 1 raw_step step own_made.0 canonicalized step_validates refl
      own_made.1 refl

abbrev path : Text
path = codes "src/A.java"

accepted : canonical_repo_blob_path path ≡ some path
unfolding canonical_repo_blob_path has_bad_text has_bad_parts utf8_length parts
accepted = refl

canonical_repo_blob_path-no_alias_example : path ≡ path
canonical_repo_blob_path-no_alias_example =
    canonical_repo_blob_path-no_alias path path path path accepted accepted refl

-- An alias of the path is refused.
refused : canonical_repo_blob_path (codes "src/./A.java") ≡ none
unfolding canonical_repo_blob_path has_bad_text has_bad_parts utf8_length parts
refused = refl
