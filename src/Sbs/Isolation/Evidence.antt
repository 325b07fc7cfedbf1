-- ===== src/Sbs/Isolation/Evidence.antt =====
-- What a successful `read_evidence` has checked, and what a refused one has not touched.
use iclr.Base.{
  ℕ, String, ◌≡◌, true, false, Option, List, member, str_eq, ok, arith, Result-cases, inl, inr,
}
use iclr.Base.Texts.{codes, codes_eq}
use iclr.Base.Utf8.{decode_utf8}
use iclr.Sbs.Isolation.Paths.{FilePath}
use iclr.Sbs.Isolation.Reads.{
  IsReadable, IsIsolated, resolve_actor_path-IsReadable, store-resolve_actor_path,
  load_evidence_record-IsIsolated,
}
use iclr.Sbs.Isolation.Store.{
  World, IsolatedStore, bytes, resolve_actor_path, read_bytes, sha256_bytes, load_evidence_record,
  is_stale, observe, read_evidence,
}
use iclr.Sbs.Schema.Records.{CaseView, EvidenceRecord, Observation}

module _ (w : World) where
  -- Some readable file of the actor has the contents.
  abbrev pub IsRead : FilePath → Option FilePath → List ℕ → Type 0
  IsRead actor_root evaluator_root body =
      (path : FilePath) × IsReadable actor_root evaluator_root path
      × (w.read_file path ≡ bytes body)

  pub read_bytes-IsRead :
      (relative : List ℕ) (s : IsolatedStore) (body : List ℕ)
      → (read_bytes w relative s).0 ≡ ok body
      → IsRead s.actor_root s.evaluator_root body
  unfolding read_bytes
  read_bytes-IsRead relative s body h = elim (Result-cases (resolve_actor_path w relative s).0) [
    | inl (e, r) ↦ absurd (ground (arith, r))
    | inr (path, r) ↦ (
      path,
      resolve_actor_path-IsReadable w relative s path r,
      ground (arith, r, store-resolve_actor_path w relative s),
    )
  ]

  -- What the caller of `read_evidence` may rely on.
  pub record IsVerified (view : CaseView) (evidence_id : String) (expected : Option String)
      (actor_root : FilePath) (evaluator_root : Option FilePath) (r : EvidenceRecord)
      (o : Observation) : Type 0 where
    pub allowed : member evidence_id view.allowed_evidence_ids ≡ true
    pub same_id : str_eq r.evidence_id evidence_id ≡ true
    pub fresh : is_stale expected r.generation_id ≡ false
    pub body : List ℕ
    pub read : IsRead actor_root evaluator_root body
    pub same_hash : codes_eq (sha256_bytes w body) (codes r.content_sha256) ≡ true
    pub observed : o ≡ observe evidence_id r (decode_utf8 body)

  module _ (view : CaseView) (evidence_id : String) (expected : Option String) (s : IsolatedStore)
      (r : EvidenceRecord) (o : Observation)
      (done : (read_evidence w view evidence_id expected s).0 ≡ ok (r, o)) where
    loaded : (load_evidence_record w evidence_id s).0 ≡ ok r
    unfolding read_evidence
    loaded = ground arith

    allow_listed : member evidence_id view.allowed_evidence_ids ≡ true
    unfolding read_evidence
    allow_listed = ground arith

    checked :
        (str_eq r.evidence_id evidence_id ≡ true) × (is_stale expected r.generation_id ≡ false)
    unfolding read_evidence
    checked = ground (arith, loaded)

    after_load : IsolatedStore
    after_load = (load_evidence_record w evidence_id s).1

    body_read :
        (body : List ℕ) × ((read_bytes w (codes r.relative_read_path) after_load).0 ≡ ok body)
        × (codes_eq (sha256_bytes w body) (codes r.content_sha256) ≡ true)
        × (o ≡ observe evidence_id r (decode_utf8 body))
    unfolding read_evidence after_load
    body_read = elim (Result-cases (read_bytes w (codes r.relative_read_path) after_load).0) [
      | inl (e, q) ↦ absurd (ground (arith, loaded, q))
      | inr (body, q) ↦ (body, q, ground (arith, loaded, q), ground (arith, loaded, q))
    ]

  -- From an isolated store, evidence that is returned is on the allow-list and fresh, its record names it, and its body is
  -- the contents of a file inside the actor root and outside the evaluator root, with the hash
  -- that the record states.
  pub read_evidence-IsVerified :
      (actor_root : FilePath) (evaluator_root : Option FilePath) (view : CaseView)
      (evidence_id : String) (expected : Option String) (s : IsolatedStore) (r : EvidenceRecord)
      (o : Observation)
      → IsIsolated actor_root evaluator_root s
      → (read_evidence w view evidence_id expected s).0 ≡ ok (r, o)
      → IsVerified view evidence_id expected actor_root evaluator_root r o
  unfolding after_load
  read_evidence-IsVerified actor_root evaluator_root view evidence_id expected s r o isolated done =
      let (body, q, same_hash, observed) = body_read view evidence_id expected s r o done in
      let kept =
        (load_evidence_record-IsIsolated w actor_root evaluator_root evidence_id).at s isolated in
      let (same_id, fresh) = checked view evidence_id expected s r o done in
      record {
        allowed = allow_listed view evidence_id expected s r o done;
        same_id = same_id;
        fresh = fresh;
        body = body;
        read =
            rw (kept.same_actor, kept.same_evaluator) at
              (read_bytes-IsRead (codes r.relative_read_path)
                (load_evidence_record w evidence_id s).1 body q);
        same_hash = same_hash;
        observed = observed;
      }
