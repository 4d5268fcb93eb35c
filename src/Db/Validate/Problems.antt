-- ===== src/Db/Validate/Problems.antt =====
-- What `validateProblem` and `validateRevision` of `internal/db/problems.go` accept.
use Prim.Native.String.{len}
use cotests.Prelude.{
  ℕ, zero, suc, ◌*◌, ◌^◌, ◌≤◌, ◌≡◌, ◌≢◌, refl, ap, sym, subst, ◌∙◌, ◌↔◌, inl, inr, String, true,
  false, Option, none, some, List, [], ◌∷◌, arith, Bool-cases, Option-cases, eq_iff, str_eq,
  is_empty, trim_space, length, any, In,
}
use cotests.Prelude.Int.{ℤ, pos, negsuc, is_nonpositive, given_and}
use cotests.Outcome.{ok}
use cotests.Db.Models.{Problem, ProblemRevision}
use cotests.Db.Validate.Normal.{
  NormalProblem, NormalRevision, normal_problem_iff, normal_revision_iff,
}
use cotests.Db.Validate.{
  normal_problem, check_problem, validate_problem, normal_revision, bad_language, languages_fine,
  check_metadata, check_languages, validate_revision,
}

pub record IsValidProblem (p : Problem) : Type 0 where
  pub owner_given : p.owner_id ≢ 0
  pub title_given : is_empty p.title ≡ false
  pub title_fits : len p.title ≤ 300
  pub code_given : is_empty p.code ≡ false
  pub code_fits : len p.code ≤ 64
  pub kind_known : p.kind ≡ "programming"

check_problem-IsValidProblem :
    (p p' : Problem) → check_problem p ≡ ok p' → (p' ≡ p) × IsValidProblem p
unfolding check_problem
check_problem-IsValidProblem p p' h = ground (arith, eq_iff p.kind "programming")

IsValidProblem-check_problem : (p : Problem) → IsValidProblem p → check_problem p ≡ ok p
unfolding check_problem
IsValidProblem-check_problem p v = ground (arith, eq_iff p.kind "programming")

validate_problem_parts :
    (p p' : Problem)
    → (validate_problem p ≡ ok p') ↔ ((p' ≡ normal_problem p) × IsValidProblem (normal_problem p))
unfolding validate_problem
validate_problem_parts p p' = (
  check_problem-IsValidProblem (normal_problem p) p',
  λ h. IsValidProblem-check_problem (normal_problem p) h.1 ∙ ap ok (sym h.0),
)

-- A problem is accepted and comes back as `p'` exactly when `p'` is that problem with title and code
-- without the white space at their ends and an empty kind set to "programming", and nothing else
-- changed, and `p'` has an owner, a title of 1 to 300 bytes, a code of 1 to 64 bytes and the kind
-- "programming".
pub validate_problem_iff :
    (p p' : Problem) → (validate_problem p ≡ ok p') ↔ (NormalProblem p p' × IsValidProblem p')
validate_problem_iff p p' = (
  λ h.
      let (e, v) = (validate_problem_parts p p').0 h in
      ((normal_problem_iff p p').0 e, subst IsValidProblem (sym e) v),
  λ (n, v).
      let e = (normal_problem_iff p p').1 n in
      (validate_problem_parts p p').1 (e, subst IsValidProblem e v),
)

-- A limit that is given is positive.
abbrev pub PositiveIfGiven : Option ℤ → Type 0
PositiveIfGiven none = Unit
PositiveIfGiven (some i) = (n : ℕ) × (i ≡ pos (suc n))

PositiveIfGiven-of : (o : Option ℤ) → given_and is_nonpositive o ≡ false → PositiveIfGiven o
PositiveIfGiven-of none h = tt
PositiveIfGiven-of (some (pos zero)) h = cc
PositiveIfGiven-of (some (pos (suc n))) h = (n, refl)
PositiveIfGiven-of (some (negsuc n)) h = cc

of-PositiveIfGiven : (o : Option ℤ) → PositiveIfGiven o → given_and is_nonpositive o ≡ false
of-PositiveIfGiven none h = refl
of-PositiveIfGiven (some i) (n, e) = rw e (ground arith)

-- An identifier as the program wants it: trimmed, of 1 to 100 bytes.
abbrev pub IsIdentifier : String → Type 0
IsIdentifier s = (trim_space s ≡ s) × (is_empty s ≡ false) × (len s ≤ 100)

any-str_eq : (s : String) (l : List String) → (any (str_eq s) l ≡ true) ↔ In s l
any-str_eq s [] = (λ h. ground arith, λ m. absurd m)
any-str_eq s (x ∷ l) = (
  λ h. elim (Bool-cases (str_eq s x)) [
    | inl t ↦ inl ((eq_iff s x).0 t)
    | inr f ↦ inr ((any-str_eq s l).0 (ground arith))
  ],
  λ m. elim m [
    | inl e ↦ rw ((eq_iff s x).1 e)
    | inr m' ↦ let t = (any-str_eq s l).1 m' in ground arith
  ],
)

-- The identifiers are good, and none is among those before it.
abbrev pub Languages : List String → List String → Type 0
Languages seen [] = Unit
Languages seen (x ∷ l) = IsIdentifier x × (¬ In x seen) × Languages (x ∷ seen) l

bad_language_sound :
    (seen : List String) (s : String)
    → (bad_language seen s ≡ false) ↔ (IsIdentifier s × (¬ In s seen))
unfolding bad_language
bad_language_sound seen s = (
  λ h.
      let e : str_eq (trim_space s) s ≡ true = ground arith in
      let a : is_empty s ≡ false = ground arith in
      let f : any (str_eq s) seen ≡ false = ground arith in
      (
        ((eq_iff (trim_space s) s).0 e, a, ground arith),
        λ m. let t = (any-str_eq s seen).1 m in cc,
      ),
  λ h.
      let t = (eq_iff (trim_space s) s).1 h.0.0 in
      elim (Bool-cases (any (str_eq s) seen)) [
        | inl bad ↦ absurd (h.1 ((any-str_eq s seen).0 bad))
        | inr fresh ↦ ground arith
      ],
)

languages_fine_iff : (seen l : List String) → (languages_fine seen l ≡ true) ↔ Languages seen l
unfolding languages_fine
languages_fine_iff seen [] = (λ h. tt, λ h. refl)
languages_fine_iff seen (x ∷ l) =
    let one = bad_language_sound seen x in
    let more = languages_fine_iff (x ∷ seen) l in
    (
      λ h.
          let b : bad_language seen x ≡ false = ground arith in
          let (i, f) = one.0 b in (i, f, more.0 (ground arith)),
      λ h. let b = one.1 (h.0, h.1) in let m = more.1 h.2 in ground arith,
    )

module _ (unmarshal : String → Option (List String)) where
  pub record IsValidRevision (r : ProblemRevision) : Type 0 where
    pub statement_fits : len r.statement ≤ 512 * 2 ^ 10
    pub checker_fits : len r.checker_metadata ≤ 200
    pub time_limit_positive : PositiveIfGiven r.time_limit_millis
    pub memory_limit_positive : PositiveIfGiven r.memory_limit_kib
    pub languages : List String
    pub languages_read : unmarshal r.language_metadata ≡ some languages
    pub languages_few : length languages ≤ 100
    pub languages_good : Languages [] languages

  check_metadata_sound :
      (r r' : ProblemRevision)
      → check_metadata unmarshal r ≡ ok r'
      → (r' ≡ r)
        × (len r.statement ≤ 512 * 2 ^ 10)
        × (len r.checker_metadata ≤ 200)
        × (given_and is_nonpositive r.time_limit_millis ≡ false)
        × (given_and is_nonpositive r.memory_limit_kib ≡ false)
  unfolding check_metadata
  check_metadata_sound r r' h = ground arith

  check_languages-IsValidRevision :
      (r r' : ProblemRevision)
      → check_languages unmarshal r (unmarshal r.language_metadata) ≡ ok r'
      → (r' ≡ r) × IsValidRevision r
  unfolding check_languages
  check_languages-IsValidRevision r r' h = elim (Option-cases (unmarshal r.language_metadata)) [
    | inl bad ↦ ground arith
    | inr (l, e) ↦
        let fine : languages_fine [] l ≡ true = ground arith in
        let m = check_metadata_sound r r' (ground arith) in
        (
          m.0,
          record {
            statement_fits = m.1;
            checker_fits = m.2;
            time_limit_positive = PositiveIfGiven-of r.time_limit_millis m.3;
            memory_limit_positive = PositiveIfGiven-of r.memory_limit_kib m.4;
            languages = l;
            languages_read = e;
            languages_few = ground arith;
            languages_good = (languages_fine_iff [] l).0 fine;
          },
        )
  ]

  IsValidRevision-check_languages :
      (r : ProblemRevision)
      → IsValidRevision r
      → check_languages unmarshal r (unmarshal r.language_metadata) ≡ ok r
  unfolding check_languages check_metadata
  IsValidRevision-check_languages r v =
      let fine = (languages_fine_iff [] v.languages).1 v.languages_good in
      let t = of-PositiveIfGiven r.time_limit_millis v.time_limit_positive in
      let m = of-PositiveIfGiven r.memory_limit_kib v.memory_limit_positive in
      rw v.languages_read (ground arith)

  pub validate_revision_parts :
      (r r' : ProblemRevision)
      → (validate_revision unmarshal r ≡ ok r')
        ↔ ((r' ≡ normal_revision r) × IsValidRevision (normal_revision r))
  unfolding validate_revision
  validate_revision_parts r r' = (
    check_languages-IsValidRevision (normal_revision r) r',
    λ h. IsValidRevision-check_languages (normal_revision r) h.1 ∙ ap ok (sym h.0),
  )

  -- A revision is accepted and comes back as `r'` exactly when `r'` is that revision with statement,
  -- language metadata and checker without the white space at their ends and the empty array for
  -- language metadata of which nothing is left, and nothing else changed, and the language metadata
  -- of `r'` read as an array of at most 100 identifiers without a duplicate, each of 1 to 100 bytes
  -- with no white space at its ends, its statement has at most 512 KiB, its checker at most 200
  -- bytes, and the limits that are given are positive.
  pub validate_revision_iff :
      (r r' : ProblemRevision)
      → (validate_revision unmarshal r ≡ ok r') ↔ (NormalRevision r r' × IsValidRevision r')
  validate_revision_iff r r' = (
    λ h.
        let (e, v) = (validate_revision_parts r r').0 h in
        ((normal_revision_iff r r').0 e, subst IsValidRevision (sym e) v),
    λ (n, v).
        let e = (normal_revision_iff r r').1 n in
        (validate_revision_parts r r').1 (e, subst IsValidRevision e v),
  )
