-- ===== src/Db/Revisions/Rows.antt =====
-- The list facts behind the revision workflows of
-- `internal/db/problems.go`: primary keys under an update and an insert.
use cotests.Prelude.{
  ℕ, ◌≡◌, ◌≢◌, refl, ap, sym, ◌∙◌, ◌⊎◌, inl, inr, Bool, false, none, some, List, [], ◌∷◌, ◌++◌,
  arith, if◌then◌else◌, find?, keep, map_where, In, find?-none,
}
use cotests.Db.Models.{ProblemRevision, Table, has_id}

abbrev pub UniqueIds : List ProblemRevision → Type 0
UniqueIds l = (r q : ProblemRevision) → In r l → In q l → r.id ≡ q.id → r ≡ q

abbrev pub by_id : ℕ → ProblemRevision → Bool
by_id = has_id Table.revisions

pub find?-map_where_ne :
    (id k : ℕ) (f : ProblemRevision → ProblemRevision) (l : List ProblemRevision)
    → ((r : ProblemRevision) → (f r).id ≡ r.id)
    → id ≢ k
    → find? (by_id id) (map_where (by_id k) f l) ≡ find? (by_id id) l
find?-map_where_ne id k f [] same ne = refl
find?-map_where_ne id k f (r ∷ l) same ne =
    ground (arith, same r, find?-map_where_ne id k f l same ne)

pub In-map_where :
    (k : ℕ) (f : ProblemRevision → ProblemRevision) (l : List ProblemRevision) (r : ProblemRevision)
    → In r (map_where (by_id k) f l)
    → (q : ProblemRevision) × In q l × (r ≡ (if by_id k q then f q else q))
In-map_where k f [] r m = absurd m
In-map_where k f (x ∷ l) r (inl e) = (x, inl refl, e)
In-map_where k f (x ∷ l) r (inr m) = let (q, i, e) = In-map_where k f l r m in (q, inr i, e)

pub UniqueIds-map_where :
    (k : ℕ) (f : ProblemRevision → ProblemRevision) (l : List ProblemRevision)
    → ((r : ProblemRevision) → (f r).id ≡ r.id)
    → UniqueIds l
    → UniqueIds (map_where (by_id k) f l)
UniqueIds-map_where k f l same unique r q i j e =
    let (r₀, i₀, er) = In-map_where k f l r i in
    let (q₀, j₀, eq) = In-map_where k f l q j in
    let ids : (x : ProblemRevision) → (if by_id k x then f x else x).id ≡ x.id =
      λ x. ground (arith, same x) in
    let e₀ : r₀.id ≡ q₀.id =
      sym (ids r₀) ∙ ap (λ x. x.id) (sym er) ∙ e ∙ ap (λ x. x.id) eq ∙ ids q₀ in
    er ∙ ap (λ x. if by_id k x then f x else x) (unique r₀ q₀ i₀ j₀ e₀) ∙ sym eq

pub In-append :
    (l : List ProblemRevision) (x r : ProblemRevision) → In r (l ++ x ∷ []) → In r l ⊎ (r ≡ x)
In-append [] x r (inl e) = inr e
In-append [] x r (inr m) = absurd m
In-append (y ∷ l) x r (inl e) = inl (inl e)
In-append (y ∷ l) x r (inr m) = elim (In-append l x r m) [ inl i ↦ inl (inr i) | inr e ↦ inr e ]

pub UniqueIds-append :
    (l : List ProblemRevision) (x : ProblemRevision)
    → find? (by_id x.id) l ≡ none
    → UniqueIds l
    → UniqueIds (l ++ x ∷ [])
UniqueIds-append l x fresh unique r q i j e = elim (In-append l x r i) [
  | inl i₀ ↦ elim (In-append l x q j) [
    | inl j₀ ↦ unique r q i₀ j₀ e
    | inr f ↦ absurd (clash r i₀ (e ∙ ap (λ z. z.id) f))
  ]
  | inr f ↦ elim (In-append l x q j) [
    | inl j₀ ↦ absurd (clash q j₀ (sym e ∙ ap (λ z. z.id) f))
    | inr h ↦ f ∙ sym h
  ]
]
  where
    clash : (z : ProblemRevision) → In z l → z.id ≡ x.id → ⊥
    clash z m k = let b = find?-none (by_id x.id) l fresh m in ground arith

pub find?-append_some :
    {A : Type 0} (p : A → Bool) (l : List A) (x : A) {r : A}
    → find? p l ≡ some r
    → find? p (l ++ x ∷ []) ≡ some r
find?-append_some p [] x h = cc
find?-append_some p (y ∷ l) x {r} h = ground (arith, find?-append_some p l x {r = r})

pub keep-append_none :
    {A : Type 0} (p : A → Bool) (l : List A) (x : A) → p x ≡ false → keep p (l ++ x ∷ []) ≡ keep p l
keep-append_none p [] x h = ground arith
keep-append_none p (y ∷ l) x h = ground (arith, keep-append_none p l x h)
