-- ===== src/Db/Validate/Normal.antt =====
-- The normal forms that the validation functions of `internal/db/contests.go` and
-- `internal/db/problems.go` write back, stated without the functions that compute them.
use cotests.Prelude.{
  ◌≡◌, ◌≢◌, refl, ap, sym, subst, ◌∙◌, ◌↔◌, ◌⊎◌, inl, inr, String, is_empty, trim_space,
}
use cotests.Prelude.Trim.{Trims, trim_space_iff}
use cotests.Db.Models.{Contest, Series, Problem, ProblemRevision, contest_draft}
use cotests.Db.Validate.{or_default, normal_contest, normal_series, normal_problem, normal_revision}

-- An empty text becomes the fallback, any other stays.
abbrev pub DefaultsTo : String → String → String → Type 0
DefaultsTo fallback given stored =
    ((given ≡ "") × (stored ≡ fallback)) ⊎ ((given ≢ "") × (stored ≡ given))

or_default_iff :
    (fallback given stored : String)
    → (stored ≡ or_default given fallback) ↔ DefaultsTo fallback given stored
or_default_iff fallback String.[] stored =
    (λ e. inl (refl, e), λ d. elim d [ inl (_, e) ↦ e | inr (ne, _) ↦ absurd (ne refl) ])
or_default_iff fallback (String.◌∷◌ c s) stored = (
  λ e. inr (λ k. full (ap is_empty k), e),
  λ d. elim d [ inl (k, _) ↦ absurd (full (ap is_empty k)) | inr (_, e) ↦ e ],
)
  where
    full : is_empty (String.◌∷◌ c s) ≡ is_empty "" → ⊥
    full k = cc

pub record NormalContest (c c' : Contest) : Type 0 where
  pub title : Trims c.title c'.title
  pub description : Trims c.description c'.description
  pub visibility : DefaultsTo contest_draft c.visibility c'.visibility
  pub rest :
      c' ≡ record c { title = c'.title; description = c'.description; visibility = c'.visibility }

pub normal_contest_iff : (c c' : Contest) → (c' ≡ normal_contest c) ↔ NormalContest c c'
unfolding normal_contest
normal_contest_iff c c' = (
  λ e. subst (NormalContest c) (sym e) (record {
    title = (trim_space_iff c.title (trim_space c.title)).0 refl;
    description = (trim_space_iff c.description (trim_space c.description)).0 refl;
    visibility = (or_default_iff contest_draft c.visibility _).0 refl;
    rest = refl;
  }),
  λ n.
      let t = (trim_space_iff c.title c'.title).1 n.title in
      let d = (trim_space_iff c.description c'.description).1 n.description in
      let v = (or_default_iff contest_draft c.visibility c'.visibility).1 n.visibility in
      n.rest ∙ (λ i. record c { title = t i; description = d i; visibility = v i }),
)

-- Only the title is trimmed.
pub record NormalSeries (s s' : Series) : Type 0 where
  pub title : Trims s.title s'.title
  pub rest : s' ≡ record s { title = s'.title }

pub normal_series_iff : (s s' : Series) → (s' ≡ normal_series s) ↔ NormalSeries s s'
unfolding normal_series
normal_series_iff s s' = (
  λ e.
      subst (NormalSeries s) (sym e)
        (record { title = (trim_space_iff s.title (trim_space s.title)).0 refl; rest = refl }),
  λ n.
      let t = (trim_space_iff s.title s'.title).1 n.title in
      n.rest ∙ ap (λ x. record s { title = x }) t,
)

pub record NormalProblem (p p' : Problem) : Type 0 where
  pub title : Trims p.title p'.title
  pub code : Trims p.code p'.code
  pub kind : DefaultsTo "programming" p.kind p'.kind
  pub rest : p' ≡ record p { title = p'.title; code = p'.code; kind = p'.kind }

pub normal_problem_iff : (p p' : Problem) → (p' ≡ normal_problem p) ↔ NormalProblem p p'
unfolding normal_problem
normal_problem_iff p p' = (
  λ e. subst (NormalProblem p) (sym e) (record {
    title = (trim_space_iff p.title (trim_space p.title)).0 refl;
    code = (trim_space_iff p.code (trim_space p.code)).0 refl;
    kind = (or_default_iff "programming" p.kind _).0 refl;
    rest = refl;
  }),
  λ n.
      let t = (trim_space_iff p.title p'.title).1 n.title in
      let c = (trim_space_iff p.code p'.code).1 n.code in
      let k = (or_default_iff "programming" p.kind p'.kind).1 n.kind in
      n.rest ∙ (λ i. record p { title = t i; code = c i; kind = k i }),
)

-- The language metadata are trimmed, and the empty array if nothing is left.
pub record NormalRevision (r r' : ProblemRevision) : Type 0 where
  pub statement : Trims r.statement r'.statement
  pub languages :
      (t : String) × Trims r.language_metadata t × DefaultsTo "[]" t r'.language_metadata
  pub checker : Trims r.checker_metadata r'.checker_metadata
  pub rest : r' ≡ record r {
    statement = r'.statement;
    language_metadata = r'.language_metadata;
    checker_metadata = r'.checker_metadata;
  }

pub normal_revision_iff : (r r' : ProblemRevision) → (r' ≡ normal_revision r) ↔ NormalRevision r r'
unfolding normal_revision
normal_revision_iff r r' = (
  λ e. subst (NormalRevision r) (sym e) (record {
    statement = (trim_space_iff r.statement (trim_space r.statement)).0 refl;
    languages = (
      trim_space r.language_metadata,
      (trim_space_iff r.language_metadata (trim_space r.language_metadata)).0 refl,
      (or_default_iff "[]" (trim_space r.language_metadata) _).0 refl,
    );
    checker = (trim_space_iff r.checker_metadata (trim_space r.checker_metadata)).0 refl;
    rest = refl;
  }),
  λ n.
      let (t, trimmed, given) = n.languages in
      let s = (trim_space_iff r.statement r'.statement).1 n.statement in
      let c = (trim_space_iff r.checker_metadata r'.checker_metadata).1 n.checker in
      let l : r'.language_metadata ≡ or_default (trim_space r.language_metadata) "[]" =
        (or_default_iff "[]" t r'.language_metadata).1 given
        ∙ ap (λ x. or_default x "[]") ((trim_space_iff r.language_metadata t).1 trimmed) in
      n.rest ∙ (λ i. record r { statement = s i; language_metadata = l i; checker_metadata = c i }),
)
