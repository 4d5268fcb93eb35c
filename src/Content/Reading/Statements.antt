-- ===== src/Content/Reading/Statements.antt =====
-- What a statement shows (`Statement` of `internal/content/service.go`).
use cotests.Prelude.{
  ℕ, ◌≡◌, refl, sym, ap, subst, inl, inr, true, Option, List, [], ◌∷◌, map, arith, eq_iff, In,
  In-keep, keep-In,
}
use cotests.Outcome.{ok, forbidden, >>=-eq-ok, guard->>-eq-ok, ok-injective}
use cotests.Db.Models.{
  User, Series, Problem, ProblemRevision, SeriesProblem, TestCase, Table, has_id,
  revision_published,
}
use cotests.Db.Gorm.{Gorm, GormLaws}
use cotests.Db.Contests.{get_series}
use cotests.Content.Access.{can_read_series}
use cotests.Content.Access.Spec.{Stored, Reads}
use cotests.Content.Access.Sound.{can_read_series_sound}
use cotests.Content.Assignments.{is_published}
use cotests.Content.Reading.{PublicSample, Statement, sample_of, public_sample, read_statement}

map-In :
    {A B : Type 0} (f : A → B) (l : List A) (b : B) → In b (map f l) → (a : A) × In a l × (b ≡ f a)
map-In f [] b m = absurd m
map-In f (x ∷ l) b (inl e) = (x, inl refl, e)
map-In f (x ∷ l) b (inr m) = let (a, i, e) = map-In f l b m in (a, inr i, e)

In-map : {A B : Type 0} (f : A → B) (l : List A) (a : A) → In a l → In (f a) (map f l)
In-map f [] a m = absurd m
In-map f (x ∷ l) a (inl e) = inl (ap f e)
In-map f (x ∷ l) a (inr m) = inr (In-map f l a m)

module _ (g : Gorm) (laws : GormLaws g) where
  open g use {State, rows, first, find}

  -- The statement shows a published revision that is assigned to a series which the user may read,
  -- with the samples among the tests of that revision, all of them and no other test.
  pub record Shown (actor : Option User) (id now : ℕ) (shown : Statement) (s : State) : Type 0 where
    pub assignment : SeriesProblem
    pub series : Series
    pub revision : ProblemRevision
    pub problem : Problem
    pub assigned : Stored g Table.series_problems id assignment s
    pub listed : Stored g Table.series assignment.series_id series s
    pub reads : Reads g actor series now s
    pub revised : Stored g Table.revisions assignment.published_revision_id revision s
    pub released : revision.state ≡ revision_published
    pub named : Stored g Table.problems assignment.problem_id problem s
    pub text : shown.statement ≡ revision.statement
    pub limits :
        (shown.time_limit_millis ≡ revision.time_limit_millis)
        × (shown.memory_limit_kib ≡ revision.memory_limit_kib)
    pub heading : (shown.title ≡ problem.title) × (shown.code ≡ assignment.code)
    pub samples_only :
        (p : PublicSample)
        → In p shown.samples
        → (t : TestCase) × In t (rows Table.test_cases s)
          × (t.problem_revision_id ≡ revision.id)
          × (t.is_sample ≡ true)
          × (p ≡ public_sample t)
    pub samples_all :
        (t : TestCase)
        → In t (rows Table.test_cases s)
        → t.problem_revision_id ≡ revision.id
        → t.is_sample ≡ true
        → In (public_sample t) shown.samples

  -- A statement is shown only to those who may read the series of the assignment, only of a published
  -- revision, and with its samples and no other test.
  pub read_statement-Shown :
      (actor : Option User) (id now : ℕ) (shown : Statement) (s : State)
      → read_statement g actor id now s ≡ ok shown
      → Shown actor id now shown s
  unfolding read_statement get_series
  read_statement-Shown actor id now shown s h =
      let (a, h_a, r₁) =
        >>=-eq-ok (first Table.series_problems (has_id Table.series_problems id) s) _ h in
      let (x, h_x, r₂) = >>=-eq-ok (get_series g a.series_id s) _ r₁ in
      let (_, may, r₃) = >>=-eq-ok (can_read_series g actor x now s) _ r₂ in
      let (r, h_r, r₄) =
        >>=-eq-ok (first Table.revisions (has_id Table.revisions a.published_revision_id) s) _ r₃ in
      let (published, r₅) = guard->>-eq-ok (is_published r) forbidden _ r₄ in
      let (p, h_p, r₆) =
        >>=-eq-ok (first Table.problems (has_id Table.problems a.problem_id) s) _ r₅ in
      let (l, h_l, r₇) = >>=-eq-ok (find Table.test_cases (sample_of r.id) s) _ r₆ in
      let e = ok-injective r₇ in
      let found = laws.find_ok Table.test_cases (sample_of r.id) s l h_l in
      record {
        assignment = a;
        series = x;
        revision = r;
        problem = p;
        assigned = laws.first_ok Table.series_problems (has_id Table.series_problems id) s a h_a;
        listed = laws.first_ok Table.series (has_id Table.series a.series_id) s x h_x;
        reads = can_read_series_sound g laws actor x now s may;
        revised =
            laws.first_ok Table.revisions (has_id Table.revisions a.published_revision_id) s r h_r;
        released = (eq_iff r.state revision_published).0 published;
        named = laws.first_ok Table.problems (has_id Table.problems a.problem_id) s p h_p;
        text = ap (λ z. z.statement) (sym e);
        limits = (ap (λ z. z.time_limit_millis) (sym e), ap (λ z. z.memory_limit_kib) (sym e));
        heading = (ap (λ z. z.title) (sym e), ap (λ z. z.code) (sym e));
        samples_only = λ q m.
            let (t, i, same) = map-In public_sample l q (subst (λ z. In q z.samples) (sym e) m) in
            let (k, j) = In-keep (sample_of r.id) (rows Table.test_cases s) ((found t).0 i) in
            (t, j, ground arith, ground arith, same);
        samples_all = λ t i k sample.
            subst (λ z. In (public_sample t) z.samples) e
              (In-map public_sample l t (
                (found t).1 (keep-In (sample_of r.id) (rows Table.test_cases s) i (ground arith))));
      }
