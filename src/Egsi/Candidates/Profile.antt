-- ===== src/Egsi/Candidates/Profile.antt =====
-- The vocabulary of src/egsi/generation/candidates.py.
use iclr.Base.{String, Option, none, some, List, [], ◌∷◌, map, member, str_eq, if◌then◌else◌}

-- `(goal, tool_class, override)`; an override is the kind and the identifier of a target, the
-- identifier of the episode where it is none.
pub record Profile : Type 0 where
  pub goal : String
  pub tool_class : String
  pub override : Option (String × Option String)

abbrev pub profile : String → String → Option (String × Option String) → Profile
profile goal tool_class override = record {
  goal = goal;
  tool_class = tool_class;
  override = override;
}

-- `OPERATION_PROFILE`, in the order of its entries.
abbrev pub operation_profile : List (String × Profile)
operation_profile =
    (
      "enumerate_entrypoints",
      profile "ESTABLISH_ENTRY" "repository_index" (some ("repository", some "repository-0001")),
    )
    ∷ (
      "map_trust_boundary",
      profile "ESTABLISH_ENTRY" "semantic_model" (some ("component", some "component-0001")),
    )
    ∷ (
      "locate_sensitive_asset",
      profile "CHECK_SECURITY_INVARIANT" "repository_index"
          (some ("resource", some "resource-0001")),
    )
    ∷ ("find_callers", profile "ESTABLISH_REACHABILITY" "graph_query" none)
    ∷ ("find_callees", profile "ESTABLISH_REACHABILITY" "graph_query" none)
    ∷ ("find_references", profile "ESTABLISH_REACHABILITY" "repository_index" none)
    ∷ ("inspect_dispatch", profile "ESTABLISH_REACHABILITY" "static_query" none)
    ∷ ("find_source", profile "ESTABLISH_ATTACKER_CONTROL" "repository_index" none)
    ∷ ("find_sink", profile "ESTABLISH_IMPACT" "repository_index" none)
    ∷ ("trace_flow", profile "ESTABLISH_REACHABILITY" "graph_query" none)
    ∷ ("track_alias", profile "ESTABLISH_REACHABILITY" "static_query" none)
    ∷ ("track_field", profile "ESTABLISH_REACHABILITY" "static_query" none)
    ∷ ("verify_path_constraints", profile "CHECK_GUARD_OR_SANITIZER" "static_query" none)
    ∷ ("find_guard", profile "CHECK_GUARD_OR_SANITIZER" "repository_index" none)
    ∷ ("find_sanitizer", profile "CHECK_GUARD_OR_SANITIZER" "repository_index" none)
    ∷ ("trace_identity", profile "CHECK_SECURITY_INVARIANT" "graph_query" none)
    ∷ (
      "check_auth_relation",
      profile "CHECK_SECURITY_INVARIANT" "semantic_model" (some ("resource", some "resource-0001")),
    )
    ∷ ("check_lifecycle", profile "CHECK_SECURITY_INVARIANT" "semantic_model" none)
    ∷ (
      "check_ownership",
      profile "CHECK_SECURITY_INVARIANT" "semantic_model" (some ("resource", some "resource-0001")),
    )
    ∷ (
      "check_resource_control",
      profile "CHECK_SECURITY_INVARIANT" "semantic_model" (some ("resource", some "resource-0001")),
    )
    ∷ ("classify_operation", profile "CHECK_SECURITY_INVARIANT" "semantic_model" none)
    ∷ ("infer_invariant", profile "CHECK_SECURITY_INVARIANT" "semantic_model" none)
    ∷ ("compare_peer", profile "FALSIFY_HYPOTHESIS" "repository_index" none)
    ∷ (
      "update_hypothesis",
      profile "FALSIFY_HYPOTHESIS" "semantic_model" (some ("hypothesis", some "H-1")),
    )
    ∷ (
      "falsify_hypothesis",
      profile "FALSIFY_HYPOTHESIS" "semantic_model" (some ("hypothesis", some "H-1")),
    )
    ∷ ("validate_finding", profile "VALIDATE_FINDING" "static_query" none)
    ∷ ("reproduce_finding", profile "VALIDATE_FINDING" "dynamic_harness" none)
    ∷ (
      "open_or_switch_branch",
      profile "CONTROL_SEARCH" "control_only" (some ("branch", some "B-1")),
    )
    ∷ ("backtrack", profile "CONTROL_SEARCH" "control_only" (some ("checkpoint", some "initial")))
    ∷ ("terminate", profile "CONTROL_SEARCH" "control_only" (some ("episode", none)))
    ∷ []

-- `OPERATION_PROFILE.get(operation)`
abbrev pub lookup {ℓ} : {A : Type ℓ} → String → List (String × A) → Option A
lookup k [] = none
lookup k ((j, a) ∷ rest) = if str_eq j k then some a else lookup k rest

unfoldable pub profile_of : String → Option Profile
profile_of operation = lookup operation operation_profile

-- `ALTERNATIVES`
unfoldable pub alternatives : List String
alternatives = map (λ entry. entry.0) operation_profile

abbrev pub target_kinds : List String
target_kinds =
    "repository" ∷ "component" ∷ "function" ∷ "symbol" ∷ "value" ∷ "field" ∷ "type" ∷ "path"
    ∷ "resource" ∷ "identity" ∷ "hypothesis" ∷ "branch" ∷ "checkpoint" ∷ "episode" ∷ []

abbrev pub control_operations : List String
control_operations = "open_or_switch_branch" ∷ "backtrack" ∷ "terminate" ∷ []

abbrev pub evidence_types : List (String × String)
evidence_types =
    ("path", "source_location")
    ∷ ("function", "program_element")
    ∷ ("symbol", "program_element")
    ∷ ("value", "program_element")
    ∷ ("field", "program_element")
    ∷ ("type", "program_element")
    ∷ ("resource", "semantic_relation")
    ∷ ("identity", "semantic_relation")
    ∷ ("repository", "repository_metadata")
    ∷ ("component", "repository_metadata")
    ∷ ("hypothesis", "hypothesis_assessment")
    ∷ ("branch", "control_decision")
    ∷ ("checkpoint", "control_decision")
    ∷ ("episode", "control_decision")
    ∷ []

-- `expected_evidence_type`; `none` is the KeyError of an unknown kind.
unfoldable pub expected_evidence_type : String → String → Option String
expected_evidence_type operation target_kind =
    if member operation control_operations
    then some "control_decision"
    else lookup target_kind evidence_types
