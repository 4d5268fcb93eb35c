-- ===== src/Content/Members/Rows.antt =====
-- The role of a user in the rows of memberships, under the writes of `SetMember` and `RemoveMember`
-- of `internal/content/service.go`.
use cotests.Prelude.{
  ℕ, ◌≡◌, refl, ◌⊎◌, inl, inr, String, Bool, true, false, not, ◌&&◌, ◌||◌, Option, none, some, List,
  [], ◌∷◌, ◌++◌, arith, Bool-cases, eq_iff, str_eq, ◌==◌, if◌then◌else◌, find?, keep, map_where,
}
use mathlib.Core.Option
use cotests.Outcome.{Result, ok, err, not_found}
use cotests.Db.Models.{ContestMembership}
use cotests.Content.Access.{is_member}
use cotests.Content.Members.{existing_role}

abbrev pub role_of : ℕ → ℕ → List ContestMembership → Option String
role_of contest user l = Option.map (λ m. m.role) (find? (is_member contest user) l)

abbrev pub updated : ℕ → ℕ → ℕ → ℕ → Option String → Option String → Option String
updated c u c' u' new old = if c' == c && u' == u then new else old

role_of-map_where_ne :
    (c u c' u' : ℕ) (role : String) (l : List ContestMembership)
    → (c' == c && u' == u) ≡ false
    → role_of c' u' (map_where (is_member c u) (λ m. record m { role = role }) l) ≡ role_of c' u' l
role_of-map_where_ne c u c' u' role [] h = refl
role_of-map_where_ne c u c' u' role (m ∷ l) h =
    ground (arith, role_of-map_where_ne c u c' u' role l h)

role_of-map_where_self :
    (c u : ℕ) (role : String) (l : List ContestMembership) {q : ContestMembership}
    → find? (is_member c u) l ≡ some q
    → role_of c u (map_where (is_member c u) (λ m. record m { role = role }) l) ≡ some role
role_of-map_where_self c u role [] h = cc
role_of-map_where_self c u role (m ∷ l) {q} h = elim (Bool-cases (is_member c u m)) [
  | inl here ↦ rw (here, here)
  | inr there ↦ ground (arith, role_of-map_where_self c u role l {q = q})
]

pub role_of-map_where :
    (c u c' u' : ℕ) (role : String) (l : List ContestMembership) {q : ContestMembership}
    → find? (is_member c u) l ≡ some q
    → role_of c' u' (map_where (is_member c u) (λ m. record m { role = role }) l)
      ≡ updated c u c' u' (some role) (role_of c' u' l)
role_of-map_where c u c' u' role l {q} h = elim (Bool-cases (c' == c && u' == u)) [
  | inl same ↦
      let e : c' ≡ c = ground arith in
      let k : u' ≡ u = ground arith in rw same (rw (e, k) (role_of-map_where_self c u role l h))
  | inr other ↦ rw other (role_of-map_where_ne c u c' u' role l other)
]

pub role_of-keep :
    (c u c' u' : ℕ) (l : List ContestMembership)
    → role_of c' u' (keep (λ m. not (is_member c u m)) l) ≡ updated c u c' u' none (role_of c' u' l)
role_of-keep c u c' u' [] = ground arith
role_of-keep c u c' u' (m ∷ l) = ground (arith, role_of-keep c u c' u' l)

pub role_of-append :
    (c u c' u' : ℕ) (r : ContestMembership) (l : List ContestMembership)
    → r.contest_id ≡ c
    → r.user_id ≡ u
    → find? (is_member c u) l ≡ none
    → role_of c' u' (l ++ r ∷ []) ≡ updated c u c' u' (some r.role) (role_of c' u' l)
role_of-append c u c' u' r [] e k h = ground arith
role_of-append c u c' u' r (m ∷ l) e k h = ground (arith, role_of-append c u c' u' r l e k)

pub some_injective : {a b : String} → some a ≡ some b → a ≡ b
some_injective h = cc

pub existing_role_cases :
    (r : Result ContestMembership) (x : String)
    → existing_role r ≡ ok x
    → ((m : ContestMembership) × (r ≡ ok m) × (m.role ≡ x)) ⊎ (r ≡ err not_found)
unfolding existing_role
existing_role_cases (ok m) x h = inl (m, refl, ground arith)
existing_role_cases (err not_found) x h = inr refl
existing_role_cases (err e) x h = absurd (cc)

pub known_cases :
    (role : String) (remove : Bool)
    → (str_eq role "organizer" || str_eq role "participant" || remove) ≡ true
    → (role ≡ "organizer") ⊎ (role ≡ "participant") ⊎ (remove ≡ true)
known_cases role remove h = ground (arith, eq_iff role "organizer", eq_iff role "participant")
