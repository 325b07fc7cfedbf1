-- ===== src/Sbs/Isolation/Reads.antt =====
-- No read of an `IsolatedStore` leaves the actor root or enters the evaluator root.
use iclr.Base.{
  ◌⊎◌, ℕ, String, ◌≡◌, Bool, true, false, Option, List, [], ◌∷◌, ◌++◌, All, All-append, Result, ok,
  err, arith, Result-cases, inl, inr,
}
use iclr.Base.Exec
use iclr.Base.Exec.{Exec, pure, lift, gets, ◌>>=◌, ◌>>◌}
use iclr.Sbs.Errors.{Failure}
use iclr.Sbs.Isolation.Paths.{FilePath, is_under}
use iclr.Sbs.Isolation.Store.{
  World, IsolatedStore, Action, is_evaluator_path, raise_when, resolve_actor_path, read_bytes,
  read_text, load_evidence_record, read_evidence, load_case_view,
}
use iclr.Sbs.Schema.Records.{CaseView}

-- A path that the store may read.
abbrev pub IsReadable : FilePath → Option FilePath → FilePath → Type 0
IsReadable actor_root evaluator_root path =
    (is_under actor_root path ≡ true) × (is_evaluator_path evaluator_root path ≡ false)

-- The store has the given roots, and every read so far was of a readable path.
pub record IsIsolated (actor_root : FilePath) (evaluator_root : Option FilePath) (s : IsolatedStore)
    : Type 0 where
  pub same_actor : s.actor_root ≡ actor_root
  pub same_evaluator : s.evaluator_root ≡ evaluator_root
  pub readable : All (IsReadable actor_root evaluator_root) s.read_paths

-- `m` keeps `P`, whether it returns or raises.
pub record Keeps {A : Type 0} (P : IsolatedStore → Type 0) (m : Action A) : Type 0 where
  pub at : (s : IsolatedStore) → P s → P (m s).1

module _ {P : IsolatedStore → Type 0} where
  Keeps-pure : {A : Type 0} (a : A) → Keeps P (pure a)
  Keeps-pure a = record { at = λ s h. h }

  Keeps-lift : {A : Type 0} (r : Result Failure A) → Keeps P (lift r)
  Keeps-lift r = record { at = λ s h. h }

  Keeps-gets : {A : Type 0} (f : IsolatedStore → A) → Keeps P (gets f)
  Keeps-gets f = record { at = λ s h. h }

  Keeps-raise_when : (b : Bool) (e : Failure) → Keeps P (raise_when b e)
  Keeps-raise_when true e = record { at = λ s h. h }
  Keeps-raise_when false e = record { at = λ s h. h }

  Keeps-continue :
      {A B : Type 0} (r : Result Failure A) (f : A → Action B)
      → ((a : A) → Keeps P (f a))
      → (s : IsolatedStore) → P s
      → P (Exec.continue r f s).1
  Keeps-continue (ok a) f k s h = (k a).at s h
  Keeps-continue (err e) f k s h = h

  Keeps-bind :
      {A B : Type 0} (m : Action A) (f : A → Action B)
      → Keeps P m
      → ((a : A) → Keeps P (f a))
      → Keeps P (m >>= f)
  Keeps-bind m f km kf = record { at = λ s h. Keeps-continue (m s).0 f kf (m s).1 (km.at s h) }

ruleset keeps_rules = (Keeps-pure, Keeps-lift, Keeps-gets, Keeps-raise_when, Keeps-bind)

module _ (w : World) where
  pub store-resolve_actor_path :
      (relative : List ℕ) (s : IsolatedStore) → (resolve_actor_path w relative s).1 ≡ s
  unfolding resolve_actor_path
  store-resolve_actor_path relative s = ground arith

  -- A path that resolves is inside the store's actor root and outside its evaluator root.
  pub resolve_actor_path-IsReadable :
      (relative : List ℕ) (s : IsolatedStore) (path : FilePath)
      → (resolve_actor_path w relative s).0 ≡ ok path
      → IsReadable s.actor_root s.evaluator_root path
  unfolding resolve_actor_path
  resolve_actor_path-IsReadable relative s path h = ground arith

  abbrev with_read : IsolatedStore → FilePath → IsolatedStore
  with_read s path = record s { read_paths = s.read_paths ++ path ∷ [] }

  -- A read leaves the store alone, or logs one readable path.
  store-read_bytes :
      (relative : List ℕ) (s : IsolatedStore)
      → ((read_bytes w relative s).1 ≡ s)
        ⊎ ((path : FilePath) × ((read_bytes w relative s).1 ≡ with_read s path)
            × IsReadable s.actor_root s.evaluator_root path)
  unfolding read_bytes
  store-read_bytes relative s = elim (Result-cases (resolve_actor_path w relative s).0) [
    | inl (e, h) ↦ inl (ground (arith, h, store-resolve_actor_path relative s))
    | inr (path, h) ↦ inr (
      path,
      ground (
        arith,
        h,
        store-resolve_actor_path relative s,
        resolve_actor_path-IsReadable relative s path,
      ),
      resolve_actor_path-IsReadable relative s path h,
    )
  ]

  module _ (actor_root : FilePath) (evaluator_root : Option FilePath) where
    with_read-IsIsolated :
        (s : IsolatedStore) (path : FilePath)
        → IsReadable s.actor_root s.evaluator_root path
        → IsIsolated actor_root evaluator_root s
        → IsIsolated actor_root evaluator_root (with_read s path)
    with_read-IsIsolated s path r h = record {
      same_actor = h.same_actor;
      same_evaluator = h.same_evaluator;
      readable =
          All-append (IsReadable actor_root evaluator_root) s.read_paths (path ∷ []) h.readable
            (rw (h.same_actor, h.same_evaluator) at r, tt);
    }

    read_bytes-IsIsolated :
        (relative : List ℕ) → Keeps (IsIsolated actor_root evaluator_root) (read_bytes w relative)
    read_bytes-IsIsolated relative = record {
      at = λ s h. elim (store-read_bytes relative s) [
        | inl e ↦ rw e h
        | inr (path, e, r) ↦ rw e (with_read-IsIsolated s path r h)
      ];
    }

    pub read_text-IsIsolated :
        (relative : List ℕ) → Keeps (IsIsolated actor_root evaluator_root) (read_text w relative)
    unfolding read_text
    read_text-IsIsolated relative = search (keeps_rules, read_bytes-IsIsolated)

    pub load_evidence_record-IsIsolated :
        (evidence_id : String)
        → Keeps (IsIsolated actor_root evaluator_root) (load_evidence_record w evidence_id)
    unfolding load_evidence_record
    load_evidence_record-IsIsolated evidence_id = search (keeps_rules, read_text-IsIsolated)

    pub read_evidence-IsIsolated :
        (view : CaseView) (evidence_id : String) (expected_generation : Option String)
        → Keeps
            (IsIsolated actor_root evaluator_root)
            (read_evidence w view evidence_id expected_generation)
    unfolding read_evidence
    read_evidence-IsIsolated view evidence_id expected_generation =
        search (keeps_rules, read_bytes-IsIsolated, load_evidence_record-IsIsolated) depth 14

    -- `read_evidence` keeps a store isolated, whether it returns or raises: the roots stay, and every
    -- file that it reads is inside the actor root and outside the evaluator root.
    pub read_evidence-keeps_isolation :
        (view : CaseView) (evidence_id : String) (expected_generation : Option String)
        (s : IsolatedStore)
        → IsIsolated actor_root evaluator_root s
        → IsIsolated actor_root evaluator_root
            (read_evidence w view evidence_id expected_generation s).1
    read_evidence-keeps_isolation view evidence_id expected_generation s isolated =
        (read_evidence-IsIsolated view evidence_id expected_generation).at s isolated

    pub load_case_view-IsIsolated : Keeps (IsIsolated actor_root evaluator_root) (load_case_view w)
    unfolding load_case_view
    load_case_view-IsIsolated = search (keeps_rules, read_text-IsIsolated)
