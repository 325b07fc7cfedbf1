-- ===== src/Egsi/Contracts/Catalog.antt =====
-- What `load_case_catalog` returns, and which line its error names.
use iclr.Base.{
  Result, ok, err, ◌>>=◌, ℕ, zero, suc, ◌+◌, ◌≡◌, refl, inl, inr, true, false, not, Option, none,
  some, List, [], ◌∷◌, map, All, select, get_elem?, arith, Bool-cases, Option-cases,
}
use iclr.Base.Texts.{is_blank}
use iclr.Egsi.Contracts.Case.{
  CaseManifest, case_is_valid, validate_case_json, load_cases, load_case_catalog,
}

abbrev first_lines : ℕ → List (List ℕ) → List (List ℕ)
first_lines zero lines = []
first_lines (suc n) [] = []
first_lines (suc n) (line ∷ lines) = line ∷ first_lines n lines

plus_zero : (n : ℕ) → n ≡ n + 0
plus_zero n = omega arith

module _ (parse : List ℕ → Option CaseManifest) where
  -- The case of a line, if the line holds a valid one.
  abbrev pub case_of : List ℕ → Option CaseManifest
  case_of line = validate_case_json parse line

  -- The cases are those of the lines that are not blank, in order, and all are valid.
  pub record IsLoaded (lines : List (List ℕ)) (cases : List CaseManifest) : Type 0 where
    pub complete : map some cases ≡ map case_of (select (λ line. not (is_blank line)) lines)
    pub valid : All (λ (case : CaseManifest). case_is_valid case ≡ true) cases

  -- The line at the index is the first one that is neither blank nor a valid case.
  pub record IsFirstBad (lines : List (List ℕ)) (index : ℕ) : Type 0 where
    pub line : List ℕ
    pub there : get_elem? lines index ≡ some line
    pub not_blank : is_blank line ≡ false
    pub no_case : case_of line ≡ none
    pub cases : List CaseManifest
    pub before : IsLoaded (first_lines index lines) cases

  abbrev pub Outcome : ℕ → List (List ℕ) → Result ℕ (List CaseManifest) → Type 0
  Outcome number lines (ok cases) = IsLoaded lines cases
  Outcome number lines (err n) = (index : ℕ) × (n ≡ number + index) × IsFirstBad lines index

  case_of-valid :
      (line : List ℕ) (case : CaseManifest) → case_of line ≡ some case → case_is_valid case ≡ true
  unfolding validate_case_json
  case_of-valid line case h = elim (Option-cases (parse line)) [
    | inl e ↦ absurd (ground (arith, e))
    | inr (c, e) ↦ ground (arith, e)
  ]

  IsLoaded-blank :
      (line : List ℕ) (lines : List (List ℕ)) (cases : List CaseManifest)
      → is_blank line ≡ true
      → IsLoaded lines cases
      → IsLoaded (line ∷ lines) cases
  IsLoaded-blank line lines cases blank l = record {
    complete = rw blank (l.complete);
    valid = l.valid;
  }

  IsLoaded-case :
      (line : List ℕ) (lines : List (List ℕ)) (case : CaseManifest) (cases : List CaseManifest)
      → is_blank line ≡ false
      → case_of line ≡ some case
      → IsLoaded lines cases
      → IsLoaded (line ∷ lines) (case ∷ cases)
  IsLoaded-case line lines case cases full e l = record {
    complete = rw (full, e, l.complete);
    valid = (case_of-valid line case e, l.valid);
  }

  Outcome-blank :
      (number : ℕ) (line : List ℕ) (lines : List (List ℕ)) (r : Result ℕ (List CaseManifest))
      → is_blank line ≡ true
      → Outcome (suc number) lines r
      → Outcome number (line ∷ lines) r
  Outcome-blank number line lines (ok cases) blank l = IsLoaded-blank line lines cases blank l
  Outcome-blank number line lines (err n) blank (index, named, bad) = (
    suc index,
    omega arith,
    record {
      line = bad.line;
      there = bad.there;
      not_blank = bad.not_blank;
      no_case = bad.no_case;
      cases = bad.cases;
      before = IsLoaded-blank line (first_lines index lines) bad.cases blank bad.before;
    },
  )

  Outcome-case :
      (number : ℕ) (line : List ℕ) (lines : List (List ℕ)) (case : CaseManifest)
      (r : Result ℕ (List CaseManifest))
      → is_blank line ≡ false
      → case_of line ≡ some case
      → Outcome (suc number) lines r
      → Outcome number (line ∷ lines) (r >>= λ cases. ok (case ∷ cases))
  Outcome-case number line lines case (ok cases) full e l =
      IsLoaded-case line lines case cases full e l
  Outcome-case number line lines case (err n) full e (index, named, bad) = (
    suc index,
    omega arith,
    record {
      line = bad.line;
      there = bad.there;
      not_blank = bad.not_blank;
      no_case = bad.no_case;
      cases = case ∷ bad.cases;
      before = IsLoaded-case line (first_lines index lines) case bad.cases full e bad.before;
    },
  )

  load_cases-Outcome :
      (number : ℕ) (lines : List (List ℕ)) → Outcome number lines (load_cases parse number lines)
  unfolding load_cases
  load_cases-Outcome number [] = record { complete = refl; valid = tt }
  load_cases-Outcome number (line ∷ lines) =
      let rest = load_cases-Outcome (suc number) lines in
      elim (Bool-cases (is_blank line)) [
        | inl blank ↦ rw blank (Outcome-blank number line lines _ blank rest)
        | inr full ↦ elim (Option-cases (case_of line)) [
          | inl e ↦
              rw (full, e)
                (
                  0,
                  plus_zero number,
                  record {
                    line = line;
                    there = refl;
                    not_blank = full;
                    no_case = e;
                    cases = [];
                    before = record { complete = refl; valid = tt };
                  },
                )
          | inr (case, e) ↦ rw (full, e) (Outcome-case number line lines case _ full e rest)
        ]
      ]

  -- The catalog loads as the valid cases of its lines that are not blank, in their order; or the error
  -- names the number, from 1, of the first line that is neither blank nor a valid case.
  pub load_case_catalog-Outcome :
      (lines : List (List ℕ)) → Outcome 1 lines (load_case_catalog parse lines)
  unfolding load_case_catalog
  load_case_catalog-Outcome lines = load_cases-Outcome 1 lines
