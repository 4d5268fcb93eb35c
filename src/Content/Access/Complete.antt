-- ===== src/Content/Access/Complete.antt =====
-- A database that answers every statement grants all that the rules of `Spec` allow.
use cotests.Prelude.{
  ℕ, ◌≡◌, refl, sym, subst, ◌⊎◌, inl, inr, String, Bool, true, false, Option, none, some, arith,
  eq_iff, ◌==◌, In, count_where, In-count_where,
}
use cotests.Outcome.{ok, err, forbidden}
use cotests.Db.Models.{
  User, Contest, Series, ContestMembership, Problem, Table, has_id, role_admin, contest_published,
}
use cotests.Db.Gorm.{Gorm, IsReliable}
use cotests.Content.Access.{
  has_role, is_member, manage_contest, manage_problem, member_can_read, read_after, can_read_series,
  can_submit, before, reached, release_time, outside,
}
use cotests.Content.Access.Spec.{
  Stored, HasRole, IsMember, Manages, ManagesProblem, From, Until, Released, MemberReads, Reads,
  Submits,
}

From-before : (now : ℕ) (t : Option ℕ) → From t now → before now t ≡ false
unfolding before
From-before now none h = refl
From-before now (some t) h = ground arith

Until-reached : (now : ℕ) (t : Option ℕ) → Until t now → reached now t ≡ false
unfolding reached
Until-reached now none h = refl
Until-reached now (some t) h = ground arith

Released-release_time :
    (x : Series) (now : ℕ)
    → Released x.release_at x.start_at now
    → before now (release_time x) ≡ false
unfolding release_time
Released-release_time x now = go x.release_at
  where
    go :
        (release : Option ℕ)
        → Released release x.start_at now
        → before now (elim release [ none ↦ x.start_at | some t ↦ some t ]) ≡ false
    go none h = From-before now x.start_at h
    go (some t) h = From-before now (some t) h

window-outside : (now : ℕ) (a b : Option ℕ) → From a now → Until b now → outside now a b ≡ false
unfolding outside
window-outside now a b h k = ground (arith, From-before now a h, Until-reached now b k)

module _ (g : Gorm) (reliable : IsReliable g) where
  open g use {State, rows, first, count}

  some_count :
      (p : ContestMembership → Bool) (s : State) {m : ContestMembership}
      → In m (rows Table.memberships s)
      → p m ≡ true
      → (n : ℕ) × (count Table.memberships p s ≡ ok n) × ((n == 0) ≡ false)
  some_count p s i t = (
    count_where p (rows Table.memberships s),
    reliable.count_answers Table.memberships p s,
    ground (arith, In-count_where p (rows Table.memberships s) i t),
  )

  count_HasRole :
      (contest user : ℕ) (role : String) (s : State)
      → HasRole g contest user role s
      → (n : ℕ) × (count Table.memberships (has_role contest user role) s ≡ ok n)
        × ((n == 0) ≡ false)
  count_HasRole contest user role s (m, i, c, u, r) =
      some_count (has_role contest user role) s i (ground (arith, eq_iff m.role role))

  count_IsMember :
      (contest user : ℕ) (s : State)
      → IsMember g contest user s
      → (n : ℕ) × (count Table.memberships (is_member contest user) s ≡ ok n) × ((n == 0) ≡ false)
  count_IsMember contest user s (m, i, c, u) =
      some_count (is_member contest user) s i (ground arith)

  -- Every manager of a contest passes `ManageContest`.
  pub manage_contest_complete :
      (actor : Option User) (id : ℕ) (s : State)
      → Manages g actor id s
      → manage_contest g actor id s ≡ ok tt
  unfolding manage_contest
  manage_contest_complete actor id s (u, e, (c, stored), inl admin) =
      rw (e, reliable.first_found Table.contests (has_id Table.contests id) s c stored)
        (ground (arith, eq_iff u.role role_admin))
  manage_contest_complete actor id s (u, e, (c, stored), inr organizer) =
      let (n, counted, pos) = count_HasRole id u.id "organizer" s organizer in
      rw
        (e, reliable.first_found Table.contests (has_id Table.contests id) s c stored, counted, pos)
        (ground arith)

  -- Every manager of a problem passes `ManageProblem`.
  pub manage_problem_complete :
      (actor : Option User) (id : ℕ) (p : Problem) (s : State)
      → ManagesProblem g actor id p s
      → manage_problem g actor id s ≡ ok p
  unfolding manage_problem
  manage_problem_complete actor id p s (u, e, stored, rule) =
      rw (e, reliable.first_found Table.problems (has_id Table.problems id) s p stored)
        (ground (arith, eq_iff u.role role_admin))

  -- `ManageContest` lets a user of an existing contest pass or refuses access.
  manage_contest_answers :
      (u : User) (id : ℕ) (c : Contest) (s : State)
      → Stored g Table.contests id c s
      → (manage_contest g (some u) id s ≡ ok tt) ⊎ (manage_contest g (some u) id s ≡ err forbidden)
  unfolding manage_contest
  manage_contest_answers u id c s stored =
      rw
        (
          reliable.first_found Table.contests (has_id Table.contests id) s c stored,
          reliable.count_answers Table.memberships (has_role id u.id "organizer") s,
        )
        (ground arith)

  member_can_read_complete :
      (actor : Option User) (x : Series) (now : ℕ) (s : State)
      → MemberReads g actor x now s
      → member_can_read g actor x now s ≡ ok tt
  unfolding member_can_read
  member_can_read_complete actor x now s (u, c, e, stored, published, started, released, member) =
      let (n, counted, pos) = count_IsMember x.contest_id u.id s member in
      rw (
        e,
        reliable.first_found Table.contests (has_id Table.contests x.contest_id) s c stored,
        (eq_iff c.visibility contest_published).1 published,
        From-before now c.start_at started,
        Released-release_time x now released,
        counted,
        pos,
      )

  -- If no read of the database fails, all who may read a series pass `CanReadSeries`: the managers
  -- of its contest, and its members once it is published, started and released.
  pub can_read_series_complete :
      (actor : Option User) (x : Series) (now : ℕ) (s : State)
      → Reads g actor x now s
      → can_read_series g actor x now s ≡ ok tt
  unfolding can_read_series read_after
  can_read_series_complete actor x now s (inl managed) =
      rw (manage_contest_complete actor x.contest_id s managed)
  can_read_series_complete actor x now s (inr member) =
      let (u, c, e, stored, p, st, r, m) = member in
      elim (manage_contest_answers u x.contest_id c s stored) [
        | inl passed ↦ rw (e, passed)
        | inr refused ↦
            rw (subst (λ a. manage_contest g a x.contest_id s ≡ err forbidden) (sym e) refused)
              (member_can_read_complete actor x now s member)
      ]

  -- If no read of the database fails, all who may submit pass `CanSubmit`: participants of a
  -- published contest who may read the series, while both windows are open.
  pub can_submit_complete :
      (actor : Option User) (id read_now now : ℕ) (s : State)
      → Submits g actor id read_now now s
      → can_submit g actor id read_now now s ≡ ok tt
  unfolding can_submit
  can_submit_complete actor id read_now now s
        (u, x, c, e, stored, contest, reads, role, published, cf, cu, sf, su) =
      let (n, counted, pos) = count_HasRole x.contest_id u.id "participant" s role in
      rw (
        e,
        reliable.first_found Table.series (has_id Table.series id) s x stored,
        subst (λ a. can_read_series g a x read_now s ≡ ok tt) e
            (can_read_series_complete actor x read_now s reads),
        counted,
        pos,
        reliable.first_found Table.contests (has_id Table.contests x.contest_id) s c contest,
        (eq_iff c.visibility contest_published).1 published,
        window-outside now c.start_at c.end_at cf cu,
        window-outside now x.start_at x.end_at sf su,
      )
