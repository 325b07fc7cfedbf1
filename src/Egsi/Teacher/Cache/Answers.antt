-- ===== src/Egsi/Teacher/Cache/Answers.antt =====
-- What `CachedTeacher.generate` answers, and from where.
use mathlib.Core.Path.{subst}
use iclr.Base.{
  ◌≡◌, refl, inl, inr, ◌⊎◌, Bool, true, false, not, ◌&&◌, Option, none, some, List, ok, or_raise,
  arith,
}
use iclr.Base.Exec.{pure, ◌>>◌, continue-eq-ok}
use iclr.Base.Texts.{codes_eq}
use iclr.Egsi.RepositoryPaths.{codes_eq-eq}
use iclr.Egsi.Teacher.Cache.Keys.{cache_key}
use iclr.Egsi.Teacher.Cache.Run.{runtime_error, value_error, teacher_error, System, Run}
use iclr.Egsi.Teacher.Cache.Store.{
  Codec, Teacher, read, write, has_requested_identity, ask, answer, generate,
}
use iclr.Egsi.Teacher.Responses.{Text, TeacherRequest, TeacherResponse}
use iclr.Egsi.Teacher.Cache.Found.{IsFound, or_raise-eq-ok, off_of, read-IsFound}

three_of : (a b c : Bool) → not (a && b && c) ≡ false → (a ≡ true) × (b ≡ true) × (c ≡ true)
three_of a b c h = ground arith

module _ {W : Type 0} (sys : System W) (codec : Codec) (directory : List Text) where
  module _ (teacher : Teacher W) (request : TeacherRequest) (run : Run W) where
    -- The cache has the response, and nothing happens after it is read: the teacher is not asked.
    pub record IsHit (key : Text) (r : TeacherResponse) : Type 0 where
      pub found : (read sys codec directory key run).0 ≡ ok (some r)
      pub is_found : IsFound codec r
      pub nothing_more :
          (generate sys codec directory teacher request run).1
          ≡ (read sys codec directory key run).1

    -- The cache has nothing, the teacher gives the response, and it is written.
    pub record IsMiss (key : Text) (r : TeacherResponse) : Type 0 where
      pub absent : (read sys codec directory key run).0 ≡ ok none
      pub asked : (teacher.ask request (read sys codec directory key run).1.world).0 ≡ some r
      pub written :
          (write sys codec directory key r
            (ask sys codec directory teacher request (read sys codec directory key run).1).1).0
          ≡ ok tt

    pub record IsAnswered (r : TeacherResponse) : Type 0 where
      pub key : Text
      pub keyed :
          cache_key codec.key_digest teacher.provider teacher.model request teacher.cache_identity
          ≡ some key
      pub same_provider : r.provider ≡ teacher.provider
      pub same_model : r.model ≡ teacher.model
      pub same_requested : r.requested_model ≡ teacher.model
      pub source : IsHit key r ⊎ IsMiss key r

    -- The three texts of a response with the requested identity.
    identity_of :
        (r : TeacherResponse)
        → not (has_requested_identity sys codec directory teacher r) ≡ false
        → (r.provider ≡ teacher.provider)
          × (r.model ≡ teacher.model)
          × (r.requested_model ≡ teacher.model)
    unfolding has_requested_identity
    identity_of r h =
        let (a, b, c) =
          three_of (codes_eq r.provider teacher.provider) (codes_eq r.model teacher.model)
            (codes_eq r.requested_model teacher.model) h in
        (codes_eq-eq _ _ a, codes_eq-eq _ _ b, codes_eq-eq _ _ c)

    abbrev after : Text → Run W
    after key = (read sys codec directory key run).1

    hit_of :
        (key : Text) (cached r : TeacherResponse)
        → cache_key codec.key_digest teacher.provider teacher.model request teacher.cache_identity
          ≡ some key
        → (read sys codec directory key run).0 ≡ ok (some cached)
        → (answer sys codec directory teacher key request (some cached) (after key)).0 ≡ ok r
        → IsAnswered r
    unfolding answer generate
    hit_of key cached r keyed found h =
        let (off, returned) =
          off_of (not (has_requested_identity sys codec directory teacher cached)) runtime_error
            (pure cached) (after key) r h in
        let same : cached ≡ r = cc in
        let i = identity_of cached off in
        subst IsAnswered same (record {
          key = key;
          keyed = keyed;
          same_provider = i.0;
          same_model = i.1;
          same_requested = i.2;
          source = inl (record {
            found = found;
            is_found = read-IsFound sys codec directory key run cached found;
            nothing_more = rw (keyed, found, off) refl;
          });
        })

    miss_of :
        (key : Text) (r : TeacherResponse)
        → cache_key codec.key_digest teacher.provider teacher.model request teacher.cache_identity
          ≡ some key
        → (read sys codec directory key run).0 ≡ ok none
        → (answer sys codec directory teacher key request none (after key)).0 ≡ ok r
        → IsAnswered r
    unfolding answer
    miss_of key r keyed found h =
        let asked = ask sys codec directory teacher request (after key) in
        let (response, given, h1) = continue-eq-ok asked.0 _ asked.1 h in
        let (off, h2) =
          off_of (not (has_requested_identity sys codec directory teacher response)) runtime_error
            (write sys codec directory key response >> pure response) asked.1 r h1 in
        let (done, written, h3) =
          continue-eq-ok (write sys codec directory key response asked.1).0 _
            (write sys codec directory key response asked.1).1 h2 in
        let same : response ≡ r = cc in
        let i = identity_of response off in
        subst IsAnswered same (record {
          key = key;
          keyed = keyed;
          same_provider = i.0;
          same_model = i.1;
          same_requested = i.2;
          source = inr (record {
            absent = found;
            asked = or_raise-eq-ok _ teacher_error response given;
            written = written;
          });
        })

    -- Whatever `generate` returns has the provider and the model of the teacher. It is what the cache
    -- has under the key of the request, marked as cached and valid under its own commitment, and then
    -- nothing happens after the cache is read; or the cache has nothing, the teacher is asked and gives
    -- it, and it is written under that key.
    pub generate-IsAnswered :
        (r : TeacherResponse)
        → (generate sys codec directory teacher request run).0 ≡ ok r
        → IsAnswered r
    unfolding generate
    generate-IsAnswered r h =
        let keys =
          cache_key codec.key_digest teacher.provider teacher.model request
            teacher.cache_identity in
        let (key, named, h1) = continue-eq-ok (or_raise keys value_error) _ run h in
        let keyed = or_raise-eq-ok keys value_error key named in
        let (cached, found, h2) =
          continue-eq-ok (read sys codec directory key run).0 _ (after key) h1 in
        elim cached
            as (λ (c : Option TeacherResponse).
              (read sys codec directory key run).0 ≡ ok c
              → (answer sys codec directory teacher key request c (after key)).0 ≡ ok r
              → IsAnswered r) [
                | none ↦ λ f a. miss_of key r keyed f a
                | some response ↦ λ f a. hit_of key response r keyed f a
              ]
          found h2
