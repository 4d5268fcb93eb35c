-- ===== src/Content/Reading/Sound.antt =====
-- Who gets a file or a statement (`Artifact` and `Statement` of `internal/content/service.go`).
use cotests.Prelude.{
  ℕ, ◌<◌, ◌≡◌, refl, ap, ◌∙◌, subst, ◌⊎◌, inl, inr, Bool, true, false, not, ◌&&◌, Option, none,
  some, List, [], ◌∷◌, arith, Bool-cases, eq_iff, ◌==◌, if◌then◌else◌, In, In-keep, count_where-pos,
}
use cotests.Prelude.Int.{given_and}
use cotests.Outcome.{Result, ok, err, forbidden, >>=-eq-ok, guard->>-eq-ok, ok-injective}
use cotests.Db.Models.{
  User, Series, Artifact, Problem, ProblemRevision, SeriesProblem, TestCase, Table, has_id,
  role_admin, revision_published,
}
use cotests.Db.Gorm.{Gorm, GormLaws}
use cotests.Db.Contests.{get_series}
use cotests.Content.Access.{require_user, is_admin, manage_problem, can_read_series}
use cotests.Content.Access.Spec.{Stored, ManagesProblem, Reads}
use cotests.Content.Access.Sound.{
  require_user_sound, manage_problem_sound, can_read_series_sound, is_admin_sound,
}
use cotests.Content.Assignments.{is_published}
use cotests.Content.Reading.{
  sample_of, uses, has_pdf, attached, assigned, granted, through_assignments, allowed_file,
  as_member, through_revisions, artifact,
}

granted-eq-true : {A : Type 0} (r : Result A) → granted r ≡ ok true → (a : A) × (r ≡ ok a)
unfolding granted
granted-eq-true (ok a) h = (a, refl)
granted-eq-true (err e) h = ground arith

either_true :
    (b : Bool) (later : Result Bool)
    → (if b then ok true else later) ≡ ok true
    → (b ≡ true) ⊎ ((b ≡ false) × (later ≡ ok true))
either_true true later h = inl refl
either_true false later h = inr (refl, h)

has_pdf_sound : (id : ℕ) (r : ProblemRevision) → has_pdf id r ≡ true → r.pdf_artifact_id ≡ some id
has_pdf_sound id r h = go r.pdf_artifact_id h
  where
    go : (o : Option ℕ) → given_and (λ pdf. pdf == id) o ≡ true → o ≡ some id
    go none h = cc
    go (some pdf) h = ap some (ground arith)

uses_sound :
    (id : ℕ) (t : TestCase)
    → uses id t ≡ true
    → (t.input_artifact_id ≡ id) ⊎ (t.output_artifact_id ≡ id)
uses_sound id t h = elim (Bool-cases (t.input_artifact_id == id)) [
  | inl input ↦ inl (ground arith)
  | inr other ↦ inr (ground arith)
]

module _ (g : Gorm) where
  open g use {State, rows}

  -- The file is the PDF of the revision or belongs to one of its samples.
  abbrev pub PublicFile : ℕ → ProblemRevision → State → Type 0
  PublicFile id r s =
      (r.pdf_artifact_id ≡ some id)
      ⊎ ((t : TestCase) × In t (rows Table.test_cases s)
          × (t.problem_revision_id ≡ r.id)
          × (t.is_sample ≡ true)
          × ((t.input_artifact_id ≡ id) ⊎ (t.output_artifact_id ≡ id)))

  -- The revision is assigned to a series that the user may read.
  abbrev pub ReadsRevision : Option User → ProblemRevision → (ℕ → ℕ → ℕ) → State → Type 0
  ReadsRevision actor r clock s =
      (a : SeriesProblem) × (x : Series) × In a (rows Table.series_problems s)
      × (a.published_revision_id ≡ r.id)
      × Stored g Table.series a.series_id x s
      × Reads g actor x (clock r.id a.id) s

  -- Some revision gives the user the file: they manage its problem, or it is published, the file
  -- is public in it, and it is assigned to a series that they may read.
  abbrev pub MayFetch : Option User → ℕ → (ℕ → ℕ → ℕ) → State → Type 0
  MayFetch actor id clock s =
      (r : ProblemRevision) × In r (rows Table.revisions s)
      × (((p : Problem) × ManagesProblem g actor r.problem_id p s)
          ⊎ ((r.state ≡ revision_published) × PublicFile id r s × ReadsRevision actor r clock s))

module _ (g : Gorm) (laws : GormLaws g) (actor : Option User) (id : ℕ) (clock : ℕ → ℕ → ℕ) where
  open g use {State, rows, first, find, count}

  module _ (s : State) where
    through_assignments_sound :
        (r : ProblemRevision) (l : List SeriesProblem)
        → ((a : SeriesProblem)
            → In a l
            → In a (rows Table.series_problems s) × (a.published_revision_id ≡ r.id))
        → through_assignments g actor id clock s r l ≡ ok true
        → ReadsRevision g actor r clock s
    unfolding through_assignments get_series
    through_assignments_sound r [] among h = absurd (ground arith)
    through_assignments_sound r (a ∷ l) among h =
        let (x, found, h₁) = >>=-eq-ok (get_series g a.series_id s) _ h in
        let (b, asked, h₂) =
          >>=-eq-ok (granted (can_read_series g actor x (clock r.id a.id) s)) _ h₁ in
        elim (either_true b _ h₂) [
          | inl t ↦
              let (u, e) =
                granted-eq-true (can_read_series g actor x (clock r.id a.id) s) (asked ∙ ap ok t) in
              let (m, k) = among a (inl refl) in
              (
                a,
                x,
                m,
                k,
                laws.first_ok Table.series (has_id Table.series a.series_id) s x found,
                can_read_series_sound g laws actor x (clock r.id a.id) s e,
              )
          | inr (_, later) ↦ through_assignments_sound r l (λ c m. among c (inr m)) later
        ]

    allowed_file_sound :
        (r : ProblemRevision) → allowed_file g actor id clock s r ≡ ok true → PublicFile g id r s
    unfolding allowed_file
    allowed_file_sound r h = elim (Bool-cases (has_pdf id r)) [
      | inl pdf ↦ inl (has_pdf_sound id r pdf)
      | inr other ↦
          let p = λ (t : TestCase). sample_of r.id t && uses id t in
          let (n, counted, e) =
            >>=-eq-ok (count Table.test_cases p s) _ (rw (allowed_file, other) at h) in
          let pos : not (n == 0) ≡ true = ok-injective e in
          let (t, good, found) =
            count_where-pos p (rows Table.test_cases s)
              (subst (λ k. 0 < k) (laws.count_ok Table.test_cases p s n counted) (ground arith)) in
          inr (t, found, ground arith, ground arith, uses_sound id t (ground arith))
    ]

    as_member_sound :
        (r : ProblemRevision)
        → as_member g actor id clock s r ≡ ok true
        → PublicFile g id r s × ReadsRevision g actor r clock s
    unfolding as_member
    as_member_sound r h =
        let (b, asked, h₁) = >>=-eq-ok (allowed_file g actor id clock s r) _ h in
        elim (Bool-cases b) [
          | inl t ↦
              let (l, listed, h₂) =
                >>=-eq-ok (find Table.series_problems (assigned r.id) s) _ (rw t at h₁) in
              (
                allowed_file_sound r (asked ∙ ap ok t),
                through_assignments_sound r l
                    (λ a m.
                      let (k, i) =
                        In-keep (assigned r.id) (rows Table.series_problems s)
                          ((laws.find_ok Table.series_problems (assigned r.id) s l listed a).0 m) in
                      (i, ground arith))
                    h₂,
              )
          | inr f ↦ let e = (rw f at h₁) in absurd (ground arith)
        ]

    through_revisions_sound :
        (l : List ProblemRevision)
        → ((r : ProblemRevision) → In r l → In r (rows Table.revisions s))
        → through_revisions g actor id clock s l ≡ ok true
        → MayFetch g actor id clock s
    unfolding through_revisions
    through_revisions_sound [] among h = absurd (ground arith)
    through_revisions_sound (r ∷ l) among h =
        let (b, asked, h₁) = >>=-eq-ok (granted (manage_problem g actor r.problem_id s)) _ h in
        elim (either_true b _ h₁) [
          | inl t ↦
              let (p, managed) =
                granted-eq-true (manage_problem g actor r.problem_id s) (asked ∙ ap ok t) in
              (
                r,
                among r (inl refl),
                inl (p, manage_problem_sound g laws actor r.problem_id s p managed),
              )
          | inr (_, h₂) ↦ elim (Bool-cases (is_published r)) [
            | inl published ↦
                let (c, member, h₃) =
                  >>=-eq-ok (as_member g actor id clock s r) _ (rw published at h₂) in
                elim (either_true c _ h₃) [
                  | inl t ↦
                      let (file, reads) = as_member_sound r (member ∙ ap ok t) in
                      (
                        r,
                        among r (inl refl),
                        inr ((eq_iff r.state revision_published).0 published, file, reads),
                      )
                  | inr (_, later) ↦ through_revisions_sound l (λ q m. among q (inr m)) later
                ]
            | inr draft ↦ through_revisions_sound l (λ q m. among q (inr m)) (rw draft at h₂)
          ]
        ]

  -- A file is handed out only to signed-in users: administrators, those who manage a problem with a
  -- revision of which the file is a part, and those who may read a series to which a published
  -- revision is assigned that has the file as its PDF or in a sample.
  pub artifact_sound :
      (s : State) (item : Artifact)
      → artifact g actor id clock s ≡ ok item
      → (u : User) × (actor ≡ some u)
        × Stored g Table.artifacts id item s
        × ((u.role ≡ role_admin) ⊎ MayFetch g actor id clock s)
  unfolding artifact
  artifact_sound s item h =
      let (u, signed, h₁) = >>=-eq-ok (require_user actor) _ h in
      let (x, found, h₂) = >>=-eq-ok (first Table.artifacts (has_id Table.artifacts id) s) _ h₁ in
      let stored = laws.first_ok Table.artifacts (has_id Table.artifacts id) s x found in
      let who = require_user_sound actor u signed in
      elim (Bool-cases (is_admin u)) [
        | inl t ↦
            let e : x ≡ item = ok-injective (rw t at h₂) in
            (
              u,
              who,
              subst (λ i. Stored g Table.artifacts id i s) e stored,
              inl (is_admin_sound g laws u t),
            )
        | inr f ↦
            let (l, listed, h₃) =
              >>=-eq-ok (find Table.revisions (attached id (rows Table.test_cases s)) s) _
                (rw f at h₂) in
            let (b, searched, h₄) = >>=-eq-ok (through_revisions g actor id clock s l) _ h₃ in
            let (t, e) = guard->>-eq-ok b forbidden (ok x) h₄ in
            (
              u,
              who,
              subst (λ i. Stored g Table.artifacts id i s) (ok-injective e) stored,
              inr (
                  through_revisions_sound s l
                    (λ r m.
                      (In-keep (attached id (rows Table.test_cases s)) (rows Table.revisions s)
                        ((laws.find_ok Table.revisions _ s l listed r).0 m)).1)
                    (searched ∙ ap ok t)),
            )
      ]
