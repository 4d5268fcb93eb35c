-- ===== src/Content/Files/Positions.antt =====
-- The position that `CommitZIP` of `internal/content/files.go` counts on from,
-- `COALESCE(MAX(position), -1)` over the tests of the revision.
use cotests.Prelude.{
  ◌≡◌, refl, sym, ap, ◌∙◌, subst, ◌⊎◌, inl, inr, none, some, Option, List, [], ◌∷◌, In,
}
use cotests.Prelude.Int.{ℤ, negsuc, max_ℤ, AtMost, AtMost-refl, AtMost-trans, max_ℤ_cases}
use cotests.Db.Models.{TestCase}
use cotests.Content.Files.Archives.{greatest, last_position}

-- `m` is the greatest position of a test of the list.
abbrev IsGreatest : List TestCase → ℤ → Type 0
IsGreatest l m =
    ((t : TestCase) → In t l → AtMost t.position m) × ((t : TestCase) × In t l × (t.position ≡ m))

greatest-cases :
    (l : List TestCase)
    → ((l ≡ []) × (greatest l ≡ none)) ⊎ ((m : ℤ) × (greatest l ≡ some m) × IsGreatest l m)
greatest-cases [] = inl (refl, refl)
greatest-cases (t ∷ l) = elim (greatest-cases l) [
  | inl (empty, e) ↦ inr (
    t.position,
    (rw e refl),
    (
      λ q. elim [
        | inl same ↦ subst (λ z. AtMost z.position t.position) (sym same) (AtMost-refl t.position)
        | inr i ↦ absurd (subst (In q) empty i)
      ],
      (t, inl refl, refl),
    ),
  )
  | inr (m, e, (above, (q, i, at))) ↦
      let (left, right, either) = max_ℤ_cases t.position m in
      inr (
        max_ℤ t.position m,
        (rw e refl),
        (
          λ x. elim [
            | inl same ↦ subst (λ z. AtMost z.position (max_ℤ t.position m)) (sym same) left
            | inr j ↦ AtMost-trans x.position m (max_ℤ t.position m) (above x j) right
          ],
          elim either [
            | inl first ↦ (t, inl refl, sym first)
            | inr later ↦ (q, inr i, at ∙ sym later)
          ],
        ),
      )
]

-- The position is -1 where there is no test, and else the greatest one.
pub last_position_sound :
    (l : List TestCase)
    → ((t : TestCase) → In t l → AtMost t.position (last_position l))
      × ((last_position l ≡ negsuc 0) ⊎ ((t : TestCase) × In t l × (t.position ≡ last_position l)))
last_position_sound l = elim (greatest-cases l) [
  | inl (empty, e) ↦ (λ t i. absurd (subst (In t) empty i), inl (ap or_minus_one e))
  | inr (m, e, (above, (t, i, at))) ↦
      let same : m ≡ last_position l = sym (ap or_minus_one e) in
      (λ q j. subst (AtMost q.position) same (above q j), inr (t, i, at ∙ same))
]
  where
    or_minus_one : Option ℤ → ℤ
    or_minus_one o = elim o [ none ↦ negsuc 0 | some m ↦ m ]
