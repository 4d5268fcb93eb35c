-- ===== src/Outcome/Action.antt =====
-- Calls that change a state, such as the database: the state comes back with an error too, since
-- what was written stays written unless a transaction takes it back.
use cotests.Prelude.{◌≡◌, refl, ap, sym, ◌∙◌, ◌⊎◌, inl, inr}
use cotests.Outcome.{Error, Result, ok, err, ok-injective}

abbrev pub Action : Type 0 → Type 0 → Type 0
Action S A = S → Result A × S

module _ {S A : Type 0} where
  abbrev pub pure : A → Action S A
  pure a s = (ok a, s)

  abbrev fail : Error → Action S A
  fail e s = (err e, s)

  -- a call that only reads the state
  abbrev pub ask : (S → Result A) → Action S A
  ask f s = (f s, s)

  -- a value that was computed without the state
  abbrev pub lift : Result A → Action S A
  lift r s = (r, s)

-- a call on one part of the state
abbrev pub on_first : {S W A : Type 0} → Action S A → Action (S × W) A
on_first m (s, w) = let (r, s') = m s in (r, (s', w))

-- an error is passed on as another
abbrev pub renamed : {S A : Type 0} → (Error → Error) → Result A × S → Result A × S
renamed f (ok a, s) = (ok a, s)
renamed f (err e, s) = (err (f e), s)

abbrev pub with_error : {S A : Type 0} → (Error → Error) → Action S A → Action S A
with_error f m s = renamed f (m s)

infixl 5 ◌>>=◌ ◌>>◌
module _ {S A B : Type 0} where
  -- what follows a call that ended with `x`
  abbrev pub continue : Result A × S → (A → Action S B) → Result B × S
  continue (ok a, s) f = f a s
  continue (err e, s) f = (err e, s)

  abbrev pub ◌>>=◌ : Action S A → (A → Action S B) → Action S B
  ◌>>=◌ m f s = continue (m s) f

  abbrev pub ◌>>◌ : Action S A → Action S B → Action S B
  ◌>>◌ m k s = continue (m s) (λ _. k)

  continue-eq-ok :
      (x : Result A × S) (f : A → Action S B) (y : B × S)
      → continue x f ≡ (ok y.0, y.1)
      → (a : A) × (s₁ : S) × (x ≡ (ok a, s₁)) × (f a s₁ ≡ (ok y.0, y.1))
  continue-eq-ok (ok a, s₁) f y h = (a, s₁, refl, h)
  continue-eq-ok (err e, s₁) f y h = cc

module _ {S A B : Type 0} (m : Action S A) where
  -- A call that returned went through each of its parts.
  pub >>=-eq-ok :
      (f : A → Action S B) (s s' : S) {b : B}
      → (m >>= f) s ≡ (ok b, s')
      → (a : A) × (s₁ : S) × (m s ≡ (ok a, s₁)) × (f a s₁ ≡ (ok b, s'))
  >>=-eq-ok f s s' {b} h = continue-eq-ok (m s) f (b, s') h

  pub >>-eq-ok :
      (k : Action S B) (s s' : S) {b : B}
      → (m >> k) s ≡ (ok b, s')
      → (a : A) × (s₁ : S) × (m s ≡ (ok a, s₁)) × (k s₁ ≡ (ok b, s'))
  >>-eq-ok k s s' {b} h = continue-eq-ok (m s) (λ _. k) (b, s') h

module _ {S A B : Type 0} where
  continue-eq-err :
      (x : Result A × S) (f : A → Action S B) (e : Error) (s' : S)
      → continue x f ≡ (err e, s')
      → (x ≡ (err e, s')) ⊎ ((a : A) × (s₁ : S) × (x ≡ (ok a, s₁)) × (f a s₁ ≡ (err e, s')))
  continue-eq-err (ok a, s₁) f e s' h = inr (a, s₁, refl, h)
  continue-eq-err (err c, s₁) f e s' h = inl (cc)

  -- A call that failed did so in its first part, or in the rest after the first part returned.
  pub >>=-eq-err :
      (m : Action S A) (f : A → Action S B) (e : Error) (s s' : S)
      → (m >>= f) s ≡ (err e, s')
      → (m s ≡ (err e, s')) ⊎ ((a : A) × (s₁ : S) × (m s ≡ (ok a, s₁)) × (f a s₁ ≡ (err e, s')))
  >>=-eq-err m f e s s' h = continue-eq-err (m s) f e s' h

  pub >>-eq-err :
      (m : Action S A) (k : Action S B) (e : Error) (s s' : S)
      → (m >> k) s ≡ (err e, s')
      → (m s ≡ (err e, s')) ⊎ ((a : A) × (s₁ : S) × (m s ≡ (ok a, s₁)) × (k s₁ ≡ (err e, s')))
  >>-eq-err m k e s s' h = continue-eq-err (m s) (λ _. k) e s' h

-- `ask` and `lift` leave the state alone.
pub same_state :
    {S A : Type 0} {r : Result A} {a : A} {s s' : S}
    → ◌≡◌ {A = Result A × S} (r, s) (ok a, s')
    → (r ≡ ok a) × (s' ≡ s)
same_state h = (ap (λ x. x.0) h, sym (ap (λ x. x.1) h))

pub same_state_err :
    {S A : Type 0} {r : Result A} {e : Error} {s s' : S}
    → ◌≡◌ {A = Result A × S} (r, s) (err e, s')
    → s' ≡ s
same_state_err h = sym (ap (λ x. x.1) h)

-- A read or a value that was computed before leaves the state to what follows.
module _ {S A B : Type 0} where
  pub ask->>=-eq-ok :
      (f : S → Result A) (k : A → Action S B) (s s' : S) {b : B}
      → (ask f >>= k) s ≡ (ok b, s')
      → (a : A) × (f s ≡ ok a) × (k a s ≡ (ok b, s'))
  ask->>=-eq-ok f k s s' {b} h = go (f s) refl h
    where
      go :
          (x : Result A)
          → f s ≡ x
          → continue (x, s) k ≡ (ok b, s')
          → (a : A) × (f s ≡ ok a) × (k a s ≡ (ok b, s'))
      go (ok a) e j = (a, e, j)
      go (err c) e j = cc

  pub ask->>-eq-ok :
      (f : S → Result A) (k : Action S B) (s s' : S) {b : B}
      → (ask f >> k) s ≡ (ok b, s')
      → (a : A) × (f s ≡ ok a) × (k s ≡ (ok b, s'))
  ask->>-eq-ok f k s s' h = ask->>=-eq-ok f (λ _. k) s s' h

  pub lift->>=-eq-ok :
      (r : Result A) (k : A → Action S B) (s s' : S) {b : B}
      → (lift r >>= k) s ≡ (ok b, s')
      → (a : A) × (r ≡ ok a) × (k a s ≡ (ok b, s'))
  lift->>=-eq-ok r k s s' h = ask->>=-eq-ok (λ _. r) k s s' h

  pub lift->>-eq-ok :
      (r : Result A) (k : Action S B) (s s' : S) {b : B}
      → (lift r >> k) s ≡ (ok b, s')
      → (a : A) × (r ≡ ok a) × (k s ≡ (ok b, s'))
  lift->>-eq-ok r k s s' h = ask->>=-eq-ok (λ _. r) (λ _. k) s s' h

module _ {S A : Type 0} where
  -- a `defer` whose own error is dropped
  abbrev pub deferred : Action S (Unit {0}) → Action S A → Action S A
  deferred clean m s = let (r, s') = m s in (r, (clean s').1)

  -- a call whose error counts only if there was none before (`Close` after a write)
  abbrev pub close_after : Result A × S → Action S (Unit {0}) → Result A × S
  close_after (ok a, s) close = continue (close s) (λ _. pure a)
  close_after (err e, s) close = (err e, (close s).1)

  abbrev pub closed_by : Action S (Unit {0}) → Action S A → Action S A
  closed_by close m s = close_after (m s) close

  pub deferred-eq :
      (clean : Action S (Unit {0})) (m : Action S A) (x : Result A) (s s' : S)
      → deferred clean m s ≡ (x, s')
      → (s₁ : S) × (m s ≡ (x, s₁)) × ((clean s₁).1 ≡ s')
  deferred-eq clean m x s s' h =
      ((m s).1, ap (λ y. (y, (m s).1)) (ap (λ y. y.0) h), ap (λ y. y.1) h)

  close_after-eq-ok :
      (y : Result A × S) (close : Action S (Unit {0})) (a : A) (s' : S)
      → close_after y close ≡ (ok a, s')
      → (s₁ : S) × (y ≡ (ok a, s₁)) × (close s₁ ≡ (ok tt, s'))
  close_after-eq-ok (ok b, s₁) close a s' h =
      let (u, s₂, closed, done) = continue-eq-ok (close s₁) (λ _. pure b) (a, s') h in
      let (same, e) = same_state done in
      (s₁, ap (λ z. (ok z, s₁)) (ok-injective same), closed ∙ ap (λ z. (ok tt, z)) (sym e))
  close_after-eq-ok (err e, s₁) close a s' h = cc

  pub closed_by-eq-ok :
      (close : Action S (Unit {0})) (m : Action S A) (a : A) (s s' : S)
      → closed_by close m s ≡ (ok a, s')
      → (s₁ : S) × (m s ≡ (ok a, s₁)) × (close s₁ ≡ (ok tt, s'))
  closed_by-eq-ok close m a s s' h = close_after-eq-ok (m s) close a s' h

-- A call on one part of the state leaves the other alone.
pub on_first-eq :
    {S W A : Type 0} (m : Action S A) (x : Result A) (w w' : S × W)
    → on_first m w ≡ (x, w')
    → (m w.0 ≡ (x, w'.0)) × (w'.1 ≡ w.1)
on_first-eq m x w w' h = (ap (λ y. (y.0, y.1.0)) h, ap (λ y. y.1.1) (sym h))

pub with_error-eq-ok :
    {S A : Type 0} (f : Error → Error) (m : Action S A) (a : A) (s s' : S)
    → with_error f m s ≡ (ok a, s')
    → m s ≡ (ok a, s')
with_error-eq-ok {S} {A} f m a s s' h = go (m s) h
  where
    go : (x : Result A × S) → renamed f x ≡ (ok a, s') → x ≡ (ok a, s')
    go (ok b, s₁) k = k
    go (err e, s₁) k = cc
