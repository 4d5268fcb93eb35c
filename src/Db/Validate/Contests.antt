-- ===== src/Db/Validate/Contests.antt =====
-- What `validateContest` and `validateSeries` of `internal/db/contests.go` accept.
use Prim.Native.String.{len}
use cotests.Prelude.{
  ℕ, ◌≤◌, ◌<◌, ◌≡◌, ◌≢◌, refl, ap, sym, subst, ◌∙◌, ◌↔◌, ◌⊎◌, false, Option, none, some, arith,
  eq_iff, is_empty, trim_space_idem,
}
use cotests.Prelude.Int.{ℤ, pos, negsuc, is_negative}
use cotests.Outcome.{ok}
use cotests.Db.Models.{Contest, Series, contest_draft, contest_published}
use cotests.Db.Validate.Normal.{NormalContest, NormalSeries, normal_contest_iff, normal_series_iff}
use cotests.Db.Validate.{
  ends_early, normal_contest, check_contest, validate_contest, normal_series, check_series,
  validate_series,
}

-- Either bound may be missing; where both are given, the end is later.
abbrev pub InOrder : Option ℕ → Option ℕ → Type 0
InOrder (some start) (some end_time) = start < end_time
InOrder (some start) none = Unit
InOrder none end_at = Unit

ends_early-InOrder : (a b : Option ℕ) → ends_early a b ≡ false → InOrder a b
ends_early-InOrder none b h = tt
ends_early-InOrder (some x) none h = tt
ends_early-InOrder (some x) (some y) h = ground arith

InOrder-ends_early : (a b : Option ℕ) → InOrder a b → ends_early a b ≡ false
InOrder-ends_early none b h = refl
InOrder-ends_early (some x) none h = refl
InOrder-ends_early (some x) (some y) h = ground arith

pub record IsValidContest (c : Contest) : Type 0 where
  pub title_given : is_empty c.title ≡ false
  pub title_fits : len c.title ≤ 300
  pub description_fits : len c.description ≤ 100000
  pub visibility_known : (c.visibility ≡ contest_draft) ⊎ (c.visibility ≡ contest_published)
  pub in_order : InOrder c.start_at c.end_at

check_contest-IsValidContest :
    (c c' : Contest) → check_contest c ≡ ok c' → (c' ≡ c) × IsValidContest c
unfolding check_contest
check_contest-IsValidContest c c' h = ground (
  arith,
  eq_iff c.visibility contest_draft,
  eq_iff c.visibility contest_published,
  ends_early-InOrder c.start_at c.end_at,
)

IsValidContest-check_contest : (c : Contest) → IsValidContest c → check_contest c ≡ ok c
unfolding check_contest
IsValidContest-check_contest c v = ground (
  arith,
  eq_iff c.visibility contest_draft,
  eq_iff c.visibility contest_published,
  InOrder-ends_early c.start_at c.end_at v.in_order,
)

normal_contest_idem : (c : Contest) → normal_contest (normal_contest c) ≡ normal_contest c
unfolding normal_contest
normal_contest_idem c = ground (arith, trim_space_idem c.title, trim_space_idem c.description)

validate_contest_parts :
    (c c' : Contest)
    → (validate_contest c ≡ ok c') ↔ ((c' ≡ normal_contest c) × IsValidContest (normal_contest c))
unfolding validate_contest
validate_contest_parts c c' = (
  check_contest-IsValidContest (normal_contest c) c',
  λ h. IsValidContest-check_contest (normal_contest c) h.1 ∙ ap ok (sym h.0),
)

-- A contest is accepted and comes back as `c'` exactly when `c'` is that contest with title and
-- description without the white space at their ends and an empty visibility set to draft, and
-- nothing else changed, and `c'` has a title of 1 to 300 bytes, a description of at most 100000
-- bytes, a known visibility and, where both are given, an end after its start.
pub validate_contest_iff :
    (c c' : Contest) → (validate_contest c ≡ ok c') ↔ (NormalContest c c' × IsValidContest c')
validate_contest_iff c c' = (
  λ h.
      let (e, v) = (validate_contest_parts c c').0 h in
      ((normal_contest_iff c c').0 e, subst IsValidContest (sym e) v),
  λ (n, v).
      let e = (normal_contest_iff c c').1 n in
      (validate_contest_parts c c').1 (e, subst IsValidContest e v),
)

-- A contest that validation returned is accepted again, and unchanged.
validate_contest_idem : (c c' : Contest) → validate_contest c ≡ ok c' → validate_contest c' ≡ ok c'
validate_contest_idem c c' h =
    let (e, v) = (validate_contest_parts c c').0 h in
    let same : normal_contest c' ≡ c' = ap normal_contest e ∙ normal_contest_idem c ∙ sym e in
    (validate_contest_parts c' c').1 (sym same, subst IsValidContest (sym e ∙ sym same) v)

pub record IsValidSeries (s : Series) : Type 0 where
  pub contest_given : s.contest_id ≢ 0
  pub title_given : is_empty s.title ≡ false
  pub title_fits : len s.title ≤ 300
  pub position_natural : (n : ℕ) × (s.position ≡ pos n)
  pub in_order : InOrder s.start_at s.end_at

is_negative-pos : (i : ℤ) → is_negative i ≡ false → (n : ℕ) × (i ≡ pos n)
is_negative-pos (pos n) h = (n, refl)
is_negative-pos (negsuc n) h = cc

check_series-IsValidSeries : (s s' : Series) → check_series s ≡ ok s' → (s' ≡ s) × IsValidSeries s
unfolding check_series
check_series-IsValidSeries s s' h =
    let negative : is_negative s.position ≡ false = ground arith in
    (
      ground arith,
      record {
        contest_given = ground arith;
        title_given = ground arith;
        title_fits = ground arith;
        position_natural = is_negative-pos s.position negative;
        in_order = ends_early-InOrder s.start_at s.end_at (ground arith);
      },
    )

IsValidSeries-check_series : (s : Series) → IsValidSeries s → check_series s ≡ ok s
unfolding check_series
IsValidSeries-check_series s v =
    let e = v.position_natural.1 in
    ground (arith, InOrder-ends_early s.start_at s.end_at v.in_order, e)

validate_series_parts :
    (s s' : Series)
    → (validate_series s ≡ ok s') ↔ ((s' ≡ normal_series s) × IsValidSeries (normal_series s))
unfolding validate_series
validate_series_parts s s' = (
  check_series-IsValidSeries (normal_series s) s',
  λ h. IsValidSeries-check_series (normal_series s) h.1 ∙ ap ok (sym h.0),
)

-- A series is accepted and comes back as `s'` exactly when `s'` is that series with its title
-- without the white space at its ends, and nothing else changed, and `s'` names a contest, has a
-- title of 1 to 300 bytes, a position that is not negative and, where both are given, an end after
-- its start.
pub validate_series_iff :
    (s s' : Series) → (validate_series s ≡ ok s') ↔ (NormalSeries s s' × IsValidSeries s')
validate_series_iff s s' = (
  λ h.
      let (e, v) = (validate_series_parts s s').0 h in
      ((normal_series_iff s s').0 e, subst IsValidSeries (sym e) v),
  λ (n, v).
      let e = (normal_series_iff s s').1 n in
      (validate_series_parts s s').1 (e, subst IsValidSeries e v),
)
