-- ===== src/Db/Gorm/Memory/Laws.antt =====
-- The database in memory keeps the promises that the program relies on.
use cotests.Prelude.{
  ℕ, ◌≤◌, ◌<◌, ◌≡◌, refl, ap, sym, subst, ◌∙◌, Bool, not, Option, none, some, List, [], ◌∷◌, ◌++◌,
  find?, keep, count_where, map_where, In, In-keep, keep-In, arith, inr,
}
use cotests.Outcome.{Error, Result, ok, err, not_found}
use cotests.Db.Models.{Table, Row, row_id, with_id, has_id, row_id-with_id}
use cotests.Db.Gorm.{GormLaws, IsReliable, SameElsewhere, Created, Table-discrete}
use cotests.Db.Gorm.Memory.{
  Tables, rows_of, with_rows, answer, next_id, insert_row, roll_back, roll_back_with, upsert_row,
  memory,
}
use cotests.Db.Gorm.Memory.Rows.{rows-with_rows, rows-with_rows_ne, top?-Greatest}

answer_ok : {A : Type 0} (o : Option A) (a : A) → answer o ≡ ok a → o ≡ some a
answer_ok none a h = cc
answer_ok (some b) a h = cc

answer_not_found : {A : Type 0} (o : Option A) → answer o ≡ err not_found → o ≡ none
answer_not_found none h = refl
answer_not_found (some b) h = cc

next_id-fresh :
    (t : Table) (l : List (Row t)) (n : ℕ) → next_id t l ≤ n → find? (has_id t n) l ≡ none
next_id-fresh t [] n h = refl
next_id-fresh t (r ∷ l) n h = ground (arith, next_id-fresh t l n)

next_id-pos : (t : Table) (l : List (Row t)) → 0 < next_id t l
next_id-pos t [] = omega arith
next_id-pos t (r ∷ l) = omega (arith, next_id-pos t l)

insert_row-Created :
    (t : Table) (r r' : Row t) (s s' : Tables)
    → insert_row t r s ≡ (ok r', s')
    → Created memory t r r' s s'
insert_row-Created t r r' s s' h =
    let n = next_id t (rows_of t s) in
    let e : with_id t n r ≡ r' = some_ok (ap (λ x. x.0) h) in
    let k : row_id t r' ≡ n = sym (ap (row_id t) e) ∙ row_id-with_id t n r in
    let state : s' ≡ with_rows t (rows_of t s ++ r' ∷ []) s =
      sym (ap (λ x. x.1) h) ∙ ap (λ q. with_rows t (rows_of t s ++ q ∷ []) s) e in
    (
      sym e ∙ ap (λ i. with_id t i r) (sym k),
      λ z. absurd (omega (arith, next_id-pos t (rows_of t s), k, z)),
      subst (λ i. find? (has_id t i) (rows_of t s) ≡ none) (sym k)
          (next_id-fresh t (rows_of t s) n (omega arith)),
      ap (rows_of t) state ∙ rows-with_rows t _ s,
      λ u ne. ap (rows_of u) state ∙ rows-with_rows_ne t u _ s ne,
    )
  where
    some_ok : {A : Type 0} {a b : A} → ◌≡◌ {A = Result A} (ok a) (ok b) → a ≡ b
    some_ok h = cc

pair_state :
    {A : Type 0} {a b : Result A} {s s' : Tables}
    → ◌≡◌ {A = Result A × Tables} (a, s) (b, s')
    → s' ≡ s
pair_state h = sym (ap (λ x. x.1) h)

ok_value :
    {A : Type 0} {a b : A} {s s' : Tables}
    → ◌≡◌ {A = Result A × Tables} (ok a, s) (ok b, s')
    → b ≡ a
ok_value h = cc

not_err :
    {A : Type 0} {a : A} {e : Error} {s s' : Tables}
    → ◌≡◌ {A = Result A × Tables} (ok a, s) (err e, s')
    → ⊥
not_err h = cc

upsert_row-new :
    (t : Table) (p : Row t → Bool) (f : Row t → Row t) (r r' : Row t) (o : Option (Row t))
    (s s' : Tables)
    → upsert_row t p f r o s ≡ (ok r', s')
    → o ≡ none
    → Created memory t r r' s s'
upsert_row-new t p f r r' none s s' h e = insert_row-Created t r r' s s' h
upsert_row-new t p f r r' (some q) s s' h e = absurd (cc)

upsert_row-old :
    (t : Table) (p : Row t → Bool) (f : Row t → Row t) (r r' q : Row t) (o : Option (Row t))
    (s s' : Tables)
    → upsert_row t p f r o s ≡ (ok r', s')
    → o ≡ some q
    → (rows_of t s' ≡ map_where p f (rows_of t s)) × SameElsewhere memory t s s'
upsert_row-old t p f r r' q none s s' h e = absurd (cc)
upsert_row-old t p f r r' q (some q') s s' h e =
    let state = pair_state h in
    (
      ap (rows_of t) state ∙ rows-with_rows t _ s,
      λ u ne. ap (rows_of u) state ∙ rows-with_rows_ne t u _ s ne,
    )

upsert_row-not_err :
    (t : Table) (p : Row t → Bool) (f : Row t → Row t) (r : Row t) (o : Option (Row t)) (e : Error)
    (s s' : Tables)
    → upsert_row t p f r o s ≡ (err e, s')
    → ⊥
upsert_row-not_err t p f r none e s s' h = not_err h
upsert_row-not_err t p f r (some q) e s s' h = not_err h

roll_back_ok :
    {A : Type 0} (x : Result A × Tables) (a : A) (s s' : Tables)
    → roll_back s x ≡ (ok a, s')
    → x ≡ (ok a, s')
roll_back_ok (ok b, s₁) a s s' h = h
roll_back_ok (err e, s₁) a s s' h = absurd (cc)

roll_back_err :
    {A : Type 0} (x : Result A × Tables) (e : Error) (s s' : Tables)
    → roll_back s x ≡ (err e, s')
    → s' ≡ s
roll_back_err (ok b, s₁) e s s' h = absurd (not_err h)
roll_back_err (err c, s₁) e s s' h = pair_state h

roll_back_with_ok :
    {A W : Type 0} (x : Result A × (Tables × W)) (a : A) (s : Tables) (s' : Tables × W)
    → roll_back_with s x ≡ (ok a, s')
    → x ≡ (ok a, s')
roll_back_with_ok (ok b, s₁) a s s' h = h
roll_back_with_ok (err e, s₁) a s s' h = absurd (cc)

roll_back_with_err :
    {A W : Type 0} (x : Result A × (Tables × W)) (e : Error) (s : Tables) (s' : Tables × W)
    → roll_back_with s x ≡ (err e, s')
    → (s'.0 ≡ s) × (s'.1 ≡ x.1.1)
roll_back_with_err (ok b, s₁) e s s' h = absurd (cc)
roll_back_with_err (err c, s₁) e s s' h = (sym (ap (λ x. x.1.0) h), sym (ap (λ x. x.1.1) h))

-- The engine in memory keeps what is asked of one.
shrunk :
    (t u : Table) (p : Row t → Bool) (s : Tables) (r : Row u)
    → In r (rows_of u (with_rows t (keep (λ x. not (p x)) (rows_of t s)) s))
    → In r (rows_of u s)
shrunk t u p s r m = elim (Table-discrete u t) [
  | yes e ↦
      subst
        (λ v.
          (q : Row v)
          → In q (rows_of v (with_rows t (keep (λ x. not (p x)) (rows_of t s)) s))
          → In q (rows_of v s))
        (sym e)
        (λ q j. (In-keep (λ x. not (p x)) (rows_of t s) (subst (In q) (rows-with_rows t _ s) j)).1)
        r m
  | no ne ↦ subst (In r) (rows-with_rows_ne t u _ s ne) m
]

pub memory-GormLaws : GormLaws memory
memory-GormLaws = record {
  first_ok = λ t p s r h. answer_ok _ r h;
  first_not_found = λ t p s h. answer_not_found _ h;
  first_desc_ok = λ t key p s r h.
      let (m, greatest) = top?-Greatest key (keep p (rows_of t s)) r (answer_ok _ r h) in
      let (fits, found) = In-keep p (rows_of t s) m in
      (fits, found, λ q i e. greatest q (keep-In p (rows_of t s) i e));
  find_ok = λ t p s l h r. let e = ok_list h in (subst (In r) e, subst (In r) (sym e));
  find_count = λ t p s l h q. ap (count_where q) (ok_list h);
  count_ok = λ t p s n h. ok_number h;
  create_ok = insert_row-Created;
  create_err = λ t r e s s' h. absurd (not_err h);
  upsert_new = λ t p f r r' s s' h e. upsert_row-new t p f r r' _ s s' h e;
  upsert_old = λ t p f r r' q s s' h e. upsert_row-old t p f r r' q _ s s' h e;
  upsert_err = λ t p f r e s s' h. absurd (upsert_row-not_err t p f r _ e s s' h);
  update_ok = λ t p f n s s' h ids.
      let state = pair_state h in
      (
        ok_value h,
        ap (rows_of t) state ∙ rows-with_rows t _ s,
        λ u ne. ap (rows_of u) state ∙ rows-with_rows_ne t u _ s ne,
      );
  update_err = λ t p f e s s' h. absurd (not_err h);
  delete_ok = λ t p n s s' h.
      let state = pair_state h in
      (
        ok_value h,
        ap (rows_of t) state ∙ rows-with_rows t _ s,
        λ u ne c. ap (rows_of u) state ∙ rows-with_rows_ne t u _ s ne,
      );
  delete_shrinks =
      λ t p n s s' h u r m. shrunk t u p s r (subst (In r) (ap (rows_of u) (pair_state h)) m);
  delete_err = λ t p e s s' h. absurd (not_err h);
  transaction_ok = λ m a s s' h. roll_back_ok (m s) a s s' h;
  transaction_err = λ m e s s' h t. ap (rows_of t) (roll_back_err (m s) e s s' h);
  transaction_with_ok = λ m a s s' h. roll_back_with_ok (m s) a s.0 s' h;
  transaction_with_err = λ m e s s' h.
      let (same, outside) = roll_back_with_err (m s) e s.0 s' h in
      (λ t. ap (rows_of t) same, inr outside);
}
  where
    ok_list : {A : Type 0} {l l' : List A} → ◌≡◌ {A = Result (List A)} (ok l) (ok l') → l' ≡ l
    ok_list h = cc

    ok_number : {n m : ℕ} → ◌≡◌ {A = Result ℕ} (ok n) (ok m) → m ≡ n
    ok_number h = cc

pub memory-IsReliable : IsReliable memory
memory-IsReliable = record {
  first_found = λ t p s r h. ap answer h;
  first_missing = λ t p s h. ap answer h;
  count_answers = λ t p s. refl;
}
