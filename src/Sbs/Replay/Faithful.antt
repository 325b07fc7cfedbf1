-- ===== src/Sbs/Replay/Faithful.antt =====
-- What `replay_case` guarantees of every result that it returns.
use iclr.Base.{
  ℕ, ◌≡◌, refl, inl, inr, true, Option, some, List, [], ok, arith, Result-cases, Option-cases,
}
use iclr.Base.Integers.{pos, ℤ-cases}
use iclr.Base.Texts.{codes}
use iclr.Json.{Json}
use iclr.Sbs.Isolation.Paths.{FilePath}
use iclr.Sbs.Isolation.Reads.{IsIsolated, load_case_view-IsIsolated, read_text-IsIsolated}
use iclr.Sbs.Isolation.Store.{
  World, IsolatedStore, resolve_optional, open_store, read_text, load_case_view,
}
use iclr.Sbs.Replay.Case.{Run, CaseResult, initial_state, run_script, replay_store, replay_case}
use iclr.Sbs.Replay.Outcome.{IsFinished, run_script-IsFinished}
use iclr.Sbs.Schema.Records.{ReplayScript, SmokeConfig, CaseView}
use iclr.Sbs.Schema.Scripts.{replay_script}
use iclr.Sbs.Views.{views_share_evidence, build_views}

module _ (w : World) (config : SmokeConfig) where
  -- The store after the case was loaded, and after the script was read.
  abbrev pub text_store : IsolatedStore → IsolatedStore
  text_store s = (load_case_view w s).1

  abbrev pub run_store : IsolatedStore → IsolatedStore
  run_store s = (read_text w (codes "script.json") (text_store s)).1

  -- The script is what `script.json` holds when the case was loaded from the store.
  pub record IsScriptOf (s : IsolatedStore) (script : ReplayScript) : Type 0 where
    pub payload : List ℕ
    pub value : Json
    pub text_read : (read_text w (codes "script.json") (text_store s)).0 ≡ ok payload
    pub decoded : w.pydantic_json payload ≡ some value
    pub validated : replay_script value ≡ some script

  -- The result comes of the case and the script that the store holds: it is the finished run of that
  -- script, and its views agree.
  pub record IsFaithful (s : IsolatedStore) (c : CaseResult) : Type 0 where
    pub script : ReplayScript
    pub budget : ℕ
    pub view_read : (load_case_view w s).0 ≡ ok c.view
    pub script_read : IsScriptOf s script
    pub limit : config.max_observations ≡ pos budget
    pub ran :
        (run_script w config c.view script (run_store s)).0
        ≡ ok (record { state = c.state; observations = c.observations })
    pub finished :
        IsFinished w c.view script s.actor_root s.evaluator_root budget
          (record { state = c.state; observations = c.observations })
    pub shared : views_share_evidence c.history c.sbs ≡ true

  module _ (s : IsolatedStore) (c : CaseResult) (done : (replay_store w config s).0 ≡ ok c) where
    view_loaded : (load_case_view w s).0 ≡ ok c.view
    unfolding replay_store
    view_loaded = ground arith

    text_loaded :
        (payload : List ℕ) × ((read_text w (codes "script.json") (text_store s)).0 ≡ ok payload)
    unfolding replay_store
    text_loaded = elim (Result-cases (read_text w (codes "script.json") (load_case_view w s).1).0) [
      | inl (e, q) ↦ absurd (ground (arith, view_loaded, q))
      | inr (payload, q) ↦ (payload, q)
    ]

    script_run :
        (script : ReplayScript) × IsScriptOf s script
        × ((run_script w config c.view script (run_store s)).0
            ≡ ok (record { state = c.state; observations = c.observations }))
        × (views_share_evidence c.history c.sbs ≡ true)
    unfolding replay_store
    script_run =
        let (payload, q) = text_loaded in
        elim (Option-cases (w.pydantic_json payload)) [
          | inl e ↦ absurd (ground (arith, view_loaded, q, e))
          | inr (value, q') ↦ elim (Option-cases (replay_script value)) [
            | inl e ↦ absurd (ground (arith, view_loaded, q, q', e))
            | inr (script, q'') ↦
                elim (Result-cases (run_script w config c.view script (run_store s)).0) [
                  | inl (f, r) ↦ absurd (ground (arith, view_loaded, q, q', q'', r))
                  | inr (run, r) ↦
                      elim (Result-cases (build_views c.view run.state run.observations)) [
                        | inl (f, b) ↦ absurd (ground (arith, view_loaded, q, q', q'', r, b))
                        | inr (views, b) ↦ (
                          script,
                          record {
                            payload = payload;
                            value = value;
                            text_read = q;
                            decoded = q';
                            validated = q'';
                          },
                          ground (arith, view_loaded, q, q', q'', r, b),
                          ground (arith, view_loaded, q, q', q'', r, b),
                        )
                      ]
                ]
          ]
        ]

  -- The budget of a run that returned is not negative.
  budget_of :
      (view : CaseView) (script : ReplayScript) (s : IsolatedStore) (run : Run)
      → (run_script w config view script s).0 ≡ ok run
      → (budget : ℕ) × (config.max_observations ≡ pos budget)
  unfolding run_script initial_state
  budget_of view script s run done = elim (ℤ-cases config.max_observations) [
    | inl (budget, e) ↦ (budget, e)
    | inr (n, e) ↦ absurd (ground (arith, e))
  ]

  replay_store-IsFaithful :
      (s : IsolatedStore) (c : CaseResult)
      → IsIsolated s.actor_root s.evaluator_root s
      → (replay_store w config s).0 ≡ ok c
      → IsFaithful s c
  replay_store-IsFaithful s c isolated done =
      let (script, script_read, ran, shared) = script_run s c done in
      let (budget, limit) = budget_of c.view script (run_store s) _ ran in
      let isolated' =
        (read_text-IsIsolated w s.actor_root s.evaluator_root (codes "script.json")).at
          (text_store s)
          ((load_case_view-IsIsolated w s.actor_root s.evaluator_root).at s isolated) in
      record {
        script = script;
        budget = budget;
        view_read = view_loaded s c done;
        script_read = script_read;
        limit = limit;
        ran = ran;
        finished =
            run_script-IsFinished w c.view script s.actor_root s.evaluator_root budget config
              (run_store s) _ limit isolated' ran;
        shared = shared;
      }

-- A store that was just opened has read nothing, so it is isolated.
open_store-IsIsolated :
    (w : World) (actor_root : FilePath) (evaluator_root : Option FilePath) (s : IsolatedStore)
    → open_store w actor_root evaluator_root ≡ ok s
    → IsIsolated s.actor_root s.evaluator_root s
unfolding open_store
open_store-IsIsolated w actor_root evaluator_root s done = record {
  same_actor = refl;
  same_evaluator = refl;
  readable = let e : s.read_paths ≡ [] = ground arith in rw e tt;
}

open_store-roots :
    (w : World) (actor_root : FilePath) (evaluator_root : Option FilePath) (s : IsolatedStore)
    → open_store w actor_root evaluator_root ≡ ok s
    → (w.resolve actor_root ≡ some s.actor_root)
      × (resolve_optional w evaluator_root ≡ some s.evaluator_root)
unfolding open_store
open_store-roots w actor_root evaluator_root s done = ground arith

-- When `replay_case` returns, the store was opened on the resolved roots, the budget was not negative,
-- and the result is that of the finished run of the script that `script.json` of that store holds, with
-- the case that it holds: the observed evidence is an initial part of the script's order, in that
-- order, and its number and the budget left add up to the configured budget; what was not read was
-- left since the budget was spent or the update for the evidence that was read last ends the run;
-- every observation is of an allowed evidence, read inside the actor root and outside the evaluator
-- root with the recorded hash; the run has a terminal, and the decision is the one that the terminal
-- and the status of the only hypothesis call for; and the two views show the same evidence.
pub replay_case-IsFaithful :
    (w : World) (config : SmokeConfig) (actor_root : FilePath) (evaluator_root : Option FilePath)
    (c : CaseResult)
    → replay_case w actor_root config evaluator_root ≡ ok c
    → (s : IsolatedStore) × (open_store w actor_root evaluator_root ≡ ok s)
      × (w.resolve actor_root ≡ some s.actor_root)
      × (resolve_optional w evaluator_root ≡ some s.evaluator_root)
      × IsFaithful w config s c
unfolding replay_case
replay_case-IsFaithful w config actor_root evaluator_root c done =
    elim (Result-cases (open_store w actor_root evaluator_root)) [
      | inl (e, q) ↦ absurd (ground (arith, q))
      | inr (s, q) ↦ (
        s,
        q,
        (open_store-roots w actor_root evaluator_root s q).0,
        (open_store-roots w actor_root evaluator_root s q).1,
        replay_store-IsFaithful w config s c (open_store-IsIsolated w actor_root evaluator_root s q)
            (ground (arith, q)),
      )
    ]
