-- ===== src/Lib.antt =====
-- EGSI and SBS: the evidence-guided security investigation library.
--
-- The repository holds two Python packages. `src/sbs` replays scripted audits over isolated case
-- files, and checks the registry and the reports of a round. `src/egsi` compiles validated teacher
-- labels into training episodes. This library models the core of both.
--
-- Sbs, of src/sbs:
--   Errors        errors.py, and the exceptions of Python and pydantic that the package lets pass.
--   Schema        schema.py: Answers is `iter_answer_field_hits` and `reject_answer_fields`, Records the
--                 models' fields, Fields the field and model validators, Models and Scripts the models
--                 as readers of JSON. Occurs says what a payload without answer fields is.
--   Isolation     isolation.py: Paths and Store. `IsolatedStore` is a record with the roots and the log
--                 of read paths, an operation takes it and gives a result and the store after it, also
--                 where it raises. Reads and Evidence prove what the reads keep and return.
--   Scorer        scorer.py.
--   Views         views.py, with Agree on the two views of one run.
--   Replay        replay.py: Update is `_apply_update` and `_terminate`, Case is `replay_case`. The loop
--                 is recursion on the order of the script, so it ends. Settled, Loop, Audit, Outcome,
--                 Failures, Closing and Faithful prove what a run is, step by step.
--   Registry      registry.py, on the lines of the registry, with Rows.
--   StaticCheck   static_check.py: `classify_readiness`, with Blockers.
--   Reports       reports.py: the validators, with Validate and Accepted.
--
-- A replay opens a store, loads the case and the script through it, reads one evidence a round,
-- applies the update of the script, and builds both views of the state that it ends in. The reports
-- count the rows of the registry.
--
-- Egsi, of src/egsi:
--   RepositoryPaths  data/repository_paths.py.
--   Candidates       generation/candidates.py: Profile is the vocabulary, Steps the canonical steps,
--                    Actions the signed actions, Compile is `compile_candidates`. Choices and Frontier
--                    prove what it returns, Canonical and RoundTrip that a step is read back from its
--                    action.
--   Contracts        contracts/case.py and contracts/enrichment.py: Case and Enrichment are the models
--                    and their validators, with Catalog on the catalog of cases and Committed on the
--                    commitment of a record.
--   Redaction        generation/redaction.py: Traversal is `_walk_limited` and what is collected by it,
--                    Extensions the walk over the extensions of a case, Oracle the seed and its
--                    verification, Values the hits of an artifact. Counts, Limits and Collected are about
--                    a traversal, Exposed and Placed about the texts that the walk over the extensions
--                    finds sensitive, Hidden, Secrecy and Artifacts about what no seed and no artifact
--                    shows.
--   Episode          contracts/trajectory.py, generation/trajectory.py and generation/replay.py: Events
--                    and Transitions are the records and their validators, Compile is
--                    `compile_t1_episode`, Replay is `replay_events`. Chain, Rounds, Grammar and
--                    Selections are about what the replay accepts. Appended, Candidates, Round, Recorded,
--                    Labelled, Loop, Validated, Accepted, Trusted, Built and RoundTrip follow the compiler
--                    through the replay.
--   Teacher          teacher/base.py and teacher/cache.py: Responses are the records and the commitment
--                    of a response, Retries is `post_json`. In Cache, Keys is `cache_key` and `path_for`,
--                    Run the calls of the system with the descriptors that are open, Directory
--                    `_open_directory`, Entry `_read_entry_at`, Write `_atomic_write_at`, and Store
--                    `TeacherCache` and `CachedTeacher`. Outcomes, Bounded, Releases and Released are
--                    about what is returned, raised and closed, Written about a write that returns,
--                    Found and Answers about what a teacher with a cache answers.
--
-- A validated case and its enrichment give a policy seed and canonical steps. The compiler embeds
-- the candidates of each step in a transition, and appends the events of its round. The redaction
-- looks at the seed, and at every artifact. `replay_events` compiles the candidates again from each
-- selected action before it walks the events.
--
-- Base holds what the components share: results, options, a state with errors, Boolean tests, texts
-- as code points, UTF-8, and `PurePosixPath`. Json is a JSON value as the parser gives it.
--
-- The native natural numbers stand for Python's integers where these are never negative, and ℤ of
-- Base/Integers where they may be. Bounds of the source (64 items, 256 events, 1024 records, bytes of
-- a text, 4,096 values and depth 128 of a traversal) are kept as they are. Loops are recursion on a
-- list, but for three, which take fuel: `traverse` has 4,097 steps and `scan` 4,098, one more than the
-- values that may be met before the code itself stops, and `read_chunks` has one step more than the
-- bytes that it asks for, each chunk having one at least. A JSON value is a tree, so no container is
-- met twice.
--
-- Parameters, for code outside the repository: `World` has the file system, SHA-256, the JSON
-- parsers and pydantic's conversions; `Library` has the JSON schema of actions and hashes over
-- canonical JSON; `Hashes` and `Sizes` have the hashes and lengths of events and transitions;
-- `Unicode` has NFKC with case folding, and digests of texts; `Tools` has these, the Git store, the
-- dumps of pydantic and the digest that names an episode. A catalog's lines are read by `parse`.
-- `System` has the calls of the operating system, over a state that other processes may change between
-- two calls; `Codec` has the digests and the JSON of a teacher's response; `answers` the replies to the
-- attempts of a request.
--
-- Not modelled: the command lines, writing of outputs, the adapters of the teachers, the
-- reading of Git objects, the provenance of a record (one Boolean of `compile_t1_episode`), the frozen version
-- 2.1 of the compiler, the batches, the attestation and supervision of processes, and the scripts.
-- They are input and output, or stand on the operating system.
pub mod Base
pub mod Json
pub mod Sbs
pub mod Egsi
