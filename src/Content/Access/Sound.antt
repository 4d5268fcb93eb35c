-- ===== src/Content/Access/Sound.antt =====
-- A check that passes has granted no more than the rules of `Spec` allow, whatever the database
-- fails to answer.
use cotests.Prelude.{
  ℕ, ◌≡◌, refl, ap, ◌⊎◌, inl, inr, String, true, false, not, ◌&&◌, Option, none, some, arith,
  Bool-cases, eq_iff, str_eq, ◌==◌, count_where-pos,
}
use cotests.Outcome.{
  Result, ok, err, unauthorized, forbidden, >>=-eq-ok, guard-eq-ok, guard->>-eq-ok, counted-eq-ok,
  exempt_or_counted, not-false, ok-injective,
}
use cotests.Db.Models.{
  User, Series, Problem, ProblemRevision, Table, has_id, role_admin, contest_published,
}
use cotests.Db.Gorm.{Gorm, GormLaws}
use cotests.Content.Access.{
  require_user, is_admin, has_role, is_member, manage_contest, manage_problem, revision,
  managed_series, member_can_read, read_after, can_read_series, can_submit, before, reached,
  release_time, outside,
}
use cotests.Content.Access.Spec.{
  Stored, HasRole, IsMember, Manages, ManagesProblem, From, Until, Released, MemberReads, Reads,
  Submits,
}

before-From : (now : ℕ) (t : Option ℕ) → before now t ≡ false → From t now
unfolding before
before-From now none h = tt
before-From now (some t) h = ground arith

reached-Until : (now : ℕ) (t : Option ℕ) → reached now t ≡ false → Until t now
unfolding reached
reached-Until now none h = tt
reached-Until now (some t) h = ground arith

release_time-Released :
    (x : Series) (now : ℕ)
    → before now (release_time x) ≡ false
    → Released x.release_at x.start_at now
unfolding release_time
release_time-Released x now = go x.release_at
  where
    go :
        (release : Option ℕ)
        → before now (elim release [ none ↦ x.start_at | some t ↦ some t ]) ≡ false
        → Released release x.start_at now
    go none h = before-From now x.start_at h
    go (some t) h = before-From now (some t) h

outside-window : (now : ℕ) (a b : Option ℕ) → outside now a b ≡ false → From a now × Until b now
unfolding outside
outside-window now a b h =
    let early : before now a ≡ false = ground arith in
    let late : reached now b ≡ false = ground arith in
    (before-From now a early, reached-Until now b late)

-- Whoever passes `CanReadSeries` got past `ManageContest` or past the checks for members.
read_after_cases :
    (m rest : Result (Unit {0})) → read_after m rest ≡ ok tt → (m ≡ ok tt) ⊎ (rest ≡ ok tt)
unfolding read_after
read_after_cases (ok _) rest h = inl refl
read_after_cases (err forbidden) rest h = inr h
read_after_cases (err unauthorized) rest h = inr h
read_after_cases (err e) rest h = ground arith

pub require_user_sound :
    (actor : Option User) (u : User) → require_user actor ≡ ok u → actor ≡ some u
unfolding require_user
require_user_sound none u h = cc
require_user_sound (some v) u h = ap some (ok-injective h)

module _ (g : Gorm) (laws : GormLaws g) where
  open g use {State, rows, first, count}

  HasRole-of_count :
      (contest user : ℕ) (role : String) (s : State) (n : ℕ)
      → count Table.memberships (has_role contest user role) s ≡ ok n
      → (n == 0) ≡ false
      → HasRole g contest user role s
  HasRole-of_count contest user role s n h pos =
      let e = laws.count_ok Table.memberships (has_role contest user role) s n h in
      let (m, t, found) =
        count_where-pos (has_role contest user role) (rows Table.memberships s)
          (rw (← e) (ground arith)) in
      (m, found, ground arith, ground arith, (eq_iff m.role role).0 (ground arith))

  pub is_admin_sound : (u : User) → is_admin u ≡ true → u.role ≡ role_admin
  unfolding is_admin
  is_admin_sound u h = (eq_iff u.role role_admin).0 h

  -- Only a manager of the contest passes `ManageContest`: an administrator, or a user with the
  -- organizer role in that contest, and the contest exists.
  pub manage_contest_sound :
      (actor : Option User) (id : ℕ) (s : State)
      → manage_contest g actor id s ≡ ok tt
      → Manages g actor id s
  unfolding manage_contest
  manage_contest_sound none id s h = cc
  manage_contest_sound (some u) id s h =
      let (c, found, rest) = >>=-eq-ok (first Table.contests (has_id Table.contests id) s) _ h in
      let stored = laws.first_ok Table.contests (has_id Table.contests id) s c found in
      elim (exempt_or_counted (is_admin u)
        (count Table.memberships (has_role id u.id "organizer") s) forbidden rest) [
          | inl admin ↦ (u, refl, (c, stored), inl (is_admin_sound u admin))
          | inr (n, e, pos) ↦
              (u, refl, (c, stored), inr (HasRole-of_count id u.id "organizer" s n e pos))
        ]

  -- Only an administrator or the owner passes `ManageProblem`, and gets the problem stored under
  -- that key.
  pub manage_problem_sound :
      (actor : Option User) (id : ℕ) (s : State) (p : Problem)
      → manage_problem g actor id s ≡ ok p
      → ManagesProblem g actor id p s
  unfolding manage_problem
  manage_problem_sound none id s p h = cc
  manage_problem_sound (some u) id s p h =
      let (q, found, rest) = >>=-eq-ok (first Table.problems (has_id Table.problems id) s) _ h in
      let stored = laws.first_ok Table.problems (has_id Table.problems id) s q found in
      let (passed, same) =
        guard->>-eq-ok (not (not (is_admin u) && not (q.owner_id == u.id))) forbidden (ok q) rest in
      let e : q ≡ p = ok-injective same in
      rw (← e) (
        u,
        refl,
        stored,
        elim (Bool-cases (is_admin u)) [
          | inl admin ↦ inl (is_admin_sound u admin)
          | inr other ↦ inr (ground arith)
        ],
      )

  -- A revision is handed to those who manage its problem.
  pub revision_sound :
      (actor : Option User) (id : ℕ) (s : State) (r : ProblemRevision)
      → revision g actor id s ≡ ok r
      → Stored g Table.revisions id r s × ((p : Problem) × ManagesProblem g actor r.problem_id p s)
  unfolding revision
  revision_sound actor id s r h =
      let (q, found, rest) = >>=-eq-ok (first Table.revisions (has_id Table.revisions id) s) _ h in
      let stored = laws.first_ok Table.revisions (has_id Table.revisions id) s q found in
      let (p, managed, same) = >>=-eq-ok (manage_problem g actor q.problem_id s) _ rest in
      let e : q ≡ r = ok-injective same in
      rw (← e) (stored, (p, manage_problem_sound actor q.problem_id s p managed))

  pub managed_series_sound :
      (actor : Option User) (id : ℕ) (s : State) (x : Series)
      → managed_series g actor id s ≡ ok x
      → Stored g Table.series id x s × Manages g actor x.contest_id s
  unfolding managed_series
  managed_series_sound actor id s x h =
      let (y, found, rest) = >>=-eq-ok (first Table.series (has_id Table.series id) s) _ h in
      let stored = laws.first_ok Table.series (has_id Table.series id) s y found in
      let (_, managed, same) = >>=-eq-ok (manage_contest g actor y.contest_id s) _ rest in
      let e : y ≡ x = ok-injective same in
      rw (← e) (stored, manage_contest_sound actor y.contest_id s managed)

  IsMember-of_count :
      (contest user : ℕ) (s : State) (n : ℕ)
      → count Table.memberships (is_member contest user) s ≡ ok n
      → (n == 0) ≡ false
      → IsMember g contest user s
  IsMember-of_count contest user s n h pos =
      let e = laws.count_ok Table.memberships (is_member contest user) s n h in
      let (m, t, found) =
        count_where-pos (is_member contest user) (rows Table.memberships s)
          (rw (← e) (ground arith)) in
      (m, found, ground arith, ground arith)

  member_can_read_sound :
      (actor : Option User) (x : Series) (now : ℕ) (s : State)
      → member_can_read g actor x now s ≡ ok tt
      → MemberReads g actor x now s
  unfolding member_can_read
  member_can_read_sound none x now s h = cc
  member_can_read_sound (some u) x now s h =
      let (c, found, rest) =
        >>=-eq-ok (first Table.contests (has_id Table.contests x.contest_id) s) _ h in
      let stored = laws.first_ok Table.contests (has_id Table.contests x.contest_id) s c found in
      let (published, h₁) =
        guard->>-eq-ok (str_eq c.visibility contest_published) forbidden _ rest in
      let (started, h₂) = guard->>-eq-ok (not (before now c.start_at)) forbidden _ h₁ in
      let (released, h₃) = guard->>-eq-ok (not (before now (release_time x))) forbidden _ h₂ in
      let (n, e, pos) =
        counted-eq-ok (count Table.memberships (is_member x.contest_id u.id) s) forbidden h₃ in
      (
        u,
        c,
        refl,
        stored,
        (eq_iff c.visibility contest_published).0 published,
        before-From now c.start_at (not-false (before now c.start_at) started),
        release_time-Released x now (not-false (before now (release_time x)) released),
        IsMember-of_count x.contest_id u.id s n e pos,
      )

  -- Only those read a series who manage its contest, or who are members of its published contest
  -- once that has started and the series is released (at its start, if it has no release time).
  pub can_read_series_sound :
      (actor : Option User) (x : Series) (now : ℕ) (s : State)
      → can_read_series g actor x now s ≡ ok tt
      → Reads g actor x now s
  unfolding can_read_series
  can_read_series_sound actor x now s h =
      elim (read_after_cases (manage_contest g actor x.contest_id s)
        (member_can_read g actor x now s) h) [
          | inl managed ↦ inl (manage_contest_sound actor x.contest_id s managed)
          | inr member ↦ inr (member_can_read_sound actor x now s member)
        ]

  -- Only participants of a published contest submit, who may read the series, and only at or after
  -- the starts and strictly before the ends of the contest and of the series.
  pub can_submit_sound :
      (actor : Option User) (id read_now now : ℕ) (s : State)
      → can_submit g actor id read_now now s ≡ ok tt
      → Submits g actor id read_now now s
  unfolding can_submit
  can_submit_sound none id read_now now s h = cc
  can_submit_sound (some u) id read_now now s h =
      let (x, found, h₁) = >>=-eq-ok (first Table.series (has_id Table.series id) s) _ h in
      let (_, may_read, h₂) = >>=-eq-ok (can_read_series g (some u) x read_now s) _ h₁ in
      let (n, counted, h₃) =
        >>=-eq-ok (count Table.memberships (has_role x.contest_id u.id "participant") s) _ h₂ in
      let (pos, h₄) = guard->>-eq-ok (not (n == 0)) forbidden _ h₃ in
      let (c, found_contest, h₅) =
        >>=-eq-ok (first Table.contests (has_id Table.contests x.contest_id) s) _ h₄ in
      let (published, h₆) = guard->>-eq-ok (str_eq c.visibility contest_published) forbidden _ h₅ in
      let (in_contest, h₇) =
        guard->>-eq-ok (not (outside now c.start_at c.end_at)) forbidden _ h₆ in
      let in_series = guard-eq-ok (not (outside now x.start_at x.end_at)) forbidden h₇ in
      let cw =
        outside-window now c.start_at c.end_at
          (not-false (outside now c.start_at c.end_at) in_contest) in
      let sw =
        outside-window now x.start_at x.end_at
          (not-false (outside now x.start_at x.end_at) in_series) in
      (
        u,
        x,
        c,
        refl,
        laws.first_ok Table.series (has_id Table.series id) s x found,
        laws.first_ok Table.contests (has_id Table.contests x.contest_id) s c found_contest,
        can_read_series_sound (some u) x read_now s may_read,
        HasRole-of_count x.contest_id u.id "participant" s n counted (not-false (n == 0) pos),
        (eq_iff c.visibility contest_published).0 published,
        cw.0,
        cw.1,
        sw.0,
        sw.1,
      )
