-- ===== src/Sbs/Registry/Rows.antt =====
-- What the loaded rows of a registry satisfy.
use iclr.Base.{
  ℕ, ◌≡◌, refl, inl, inr, true, false, not, Option, some, List, [], ◌∷◌, map, length, select,
  IsUnique, is_unique, is_unique-IsUnique, ok, err, arith, Bool, ◌+◌, sym, ◌∙◌, ◌⊎◌, dedup, is_none,
  Result-cases, Option-cases, Bool-cases,
}
use iclr.Base.Texts.{is_blank}
use iclr.Base.Options.{Ensures, ensures_rules}
use mathlib.Core.Path.{subst}
use iclr.Json.{Json}
use iclr.Sbs.Errors.{Failure}
use iclr.Sbs.Registry.{
  parse_row, load_rows, load_candidates, assert_r01_split, is_human_verified, human_verified_count,
  validate_registry_file, RegistryReport, report_of,
}
use iclr.Sbs.Schema.Records.{CandidatePair, CandidateStatus}
use iclr.Sbs.Schema.Scripts.{candidate_pair, nulls_are_explicit}

nulls_are_explicit-not_verified :
    (status : CandidateStatus) → nulls_are_explicit status ≡ true → is_human_verified status ≡ false
unfolding nulls_are_explicit
nulls_are_explicit-not_verified CandidateStatus.human_verified h = cc
nulls_are_explicit-not_verified _ h = refl

abbrev IsNotVerified : CandidatePair → Type 0
IsNotVerified row = is_human_verified row.status ≡ false

-- A pair that validates is not marked as verified by a human.
candidate_pair-IsNotVerified : (value : Json) → Ensures IsNotVerified (candidate_pair value)
unfolding candidate_pair
candidate_pair-IsNotVerified value =
    search (ensures_rules, nulls_are_explicit-not_verified) depth 40

-- The lines that hold a row.
abbrev pub row_lines : List (List ℕ) → List (List ℕ)
row_lines lines = select (λ raw. not (is_blank raw)) lines

-- What a test selects and what it leaves are the whole.
select-parts :
    (test : CandidatePair → Bool) (rows : List CandidatePair)
    → length (select test rows) + length (select (λ row. not (test row)) rows) ≡ length rows
select-parts test [] = refl
select-parts test (row ∷ rows) = elim (Bool-cases (test row)) [
  | inl chosen ↦ ground (arith, chosen, select-parts test rows)
  | inr left ↦ ground (arith, left, select-parts test rows)
]

module _ (json_loads : List ℕ → Option Json) where
  parse_row-IsNotVerified : (raw : List ℕ) → Ensures IsNotVerified (parse_row json_loads raw)
  parse_row-IsNotVerified raw = elim (Option-cases (json_loads raw)) [
    | inl e ↦ record { at = λ row q. absurd (ground (arith, e)) }
    | inr (value, e) ↦ record {
      at = λ row q. (candidate_pair-IsNotVerified value).at row (ground (arith, e));
    }
  ]

  -- The rows stand for the lines that are not blank, one for one and in order, and none is marked
  -- as verified by a human.
  abbrev Rows : List (List ℕ) → List CandidatePair → Type 0
  Rows [] [] = Unit
  Rows (raw ∷ lines) (row ∷ rows) =
      (parse_row json_loads raw ≡ some row) × IsNotVerified row × Rows lines rows
  Rows [] (row ∷ rows) = ⊥
  Rows (raw ∷ lines) [] = ⊥

  load_rows-Rows :
      (lines : List (List ℕ)) (rows : List CandidatePair)
      → load_rows json_loads lines ≡ ok rows
      → Rows (row_lines lines) rows
  unfolding load_rows
  load_rows-Rows [] rows h = let e : [] ≡ rows = ground arith in subst (Rows []) e tt
  load_rows-Rows (raw ∷ lines) rows h = elim (Bool-cases (is_blank raw)) [
    | inl blank ↦ rw blank (load_rows-Rows lines rows (ground (arith, blank)))
    | inr full ↦ elim (Option-cases (parse_row json_loads raw)) [
      | inl e ↦ absurd (ground (arith, full, e))
      | inr (row, e) ↦ elim (Result-cases (load_rows json_loads lines)) [
        | inl (f, q) ↦ absurd (ground (arith, full, e, q))
        | inr (rest, q) ↦
            let same : (row ∷ rest) ≡ rows = ground (arith, full, e, q) in
            rw full (
              subst (Rows (raw ∷ row_lines lines)) same
                (e, (parse_row-IsNotVerified raw).at row e, load_rows-Rows lines rest q))
      ]
    ]
  ]

  Rows-count :
      (lines : List (List ℕ)) (rows : List CandidatePair)
      → Rows lines rows
      → (human_verified_count rows ≡ 0) × (length rows ≡ length lines)
  unfolding human_verified_count
  Rows-count [] [] h = (refl, refl)
  Rows-count [] (row ∷ rows) h = absurd h
  Rows-count (raw ∷ lines) [] h = absurd h
  Rows-count (raw ∷ lines) (row ∷ rows) (e, v, h) = ground (arith, v, Rows-count lines rows h)

  -- A registry that loads has a row for each line that is not blank, no identifier twice, and no
  -- row that is marked as verified by a human.
  pub load_candidates-rows :
      (lines : List (List ℕ)) (rows : List CandidatePair)
      → load_candidates json_loads lines ≡ ok rows
      → (length rows ≡ length (row_lines lines))
        × IsUnique (map (λ (row : CandidatePair). row.pair_id) rows)
        × (human_verified_count rows ≡ 0)
  unfolding load_candidates
  load_candidates-rows lines rows h = elim (Result-cases (load_rows json_loads lines)) [
    | inl (f, q) ↦ absurd (ground (arith, q))
    | inr (rest, q) ↦
        let same : rest ≡ rows = ground (arith, q) in
        let unique : is_unique (map (λ (row : CandidatePair). row.pair_id) rest) ≡ true =
          ground (arith, q) in
        let counts = Rows-count (row_lines lines) rest (load_rows-Rows lines rest q) in
        subst
          (λ (out : List CandidatePair).
            (length out ≡ length (row_lines lines))
            × IsUnique (map (λ (row : CandidatePair). row.pair_id) out)
            × (human_verified_count out ≡ 0))
          same (counts.1, is_unique-IsUnique _ unique, counts.0)
  ]

  assert_r01_split-ok : (rows : List CandidatePair) → assert_r01_split rows ≡ ok tt
  unfolding assert_r01_split
  assert_r01_split-ok [] = refl
  assert_r01_split-ok (row ∷ rows) = ground (arith, assert_r01_split-ok rows)

  -- The checks of `validate_registry_file` beyond the loading refuse nothing: whatever the
  -- lines, it fails exactly when `load_candidates` does, with the same error; and otherwise reports the
  -- number of lines that are not blank, the number of different project families, no pair verified by a
  -- human, and the rows without a source locator, which with those that have one are all.
  pub validate_registry_file-load_candidates :
      (lines : List (List ℕ))
      → ((e : Failure) × (load_candidates json_loads lines ≡ err e)
          × (validate_registry_file json_loads lines ≡ err e))
        ⊎ ((rows : List CandidatePair) × (report : RegistryReport) × (load_candidates json_loads
                lines
              ≡ ok rows)
            × (validate_registry_file json_loads lines ≡ ok report)
            × (report.candidate_pairs ≡ length (row_lines lines))
            × (report.project_families
                ≡ length (dedup (map (λ (row : CandidatePair). row.project_family) rows)))
            × (report.human_verified_pairs ≡ human_verified_count rows)
            × (report.null_source_locator_rows
                  + length (select (λ row. not (is_none row.source_locator)) rows)
                ≡ length (row_lines lines)))
  unfolding validate_registry_file
  validate_registry_file-load_candidates lines =
      elim (Result-cases (load_candidates json_loads lines)) [
        | inl (e, h) ↦ inl (e, h, ground (arith, h))
        | inr (rows, h) ↦
            let (count, unique, verified) = load_candidates-rows lines rows h in
            inr (
              rows,
              report_of rows,
              h,
              ground (arith, h, assert_r01_split-ok rows, verified),
              count,
              refl,
              sym verified,
              select-parts (λ row. is_none row.source_locator) rows ∙ count,
            )
      ]
