-- ===== src/Outcome/Keeps.antt =====
-- Calls that keep a relation between the state before and the state after, however they end.
use cotests.Prelude.{◌≡◌, refl, ap, subst, inl, inr}
use cotests.Outcome.{Error, Result, ok, err}
use cotests.Outcome.Action.{
  Action, pure, ask, lift, continue, close_after, deferred, closed_by, ◌>>=◌, ◌>>◌, >>=-eq-err,
}

-- A relation on states that composes.
pub record Preorder {S : Type 0} (R : S → S → Type 0) : Type 0 where
  pub reflexive : (s : S) → R s s
  pub transitive : (s s₁ s' : S) → R s s₁ → R s₁ s' → R s s'

module _ {S : Type 0} (R : S → S → Type 0) where
  abbrev pub Keeps : {A : Type 0} → Action S A → Type 0
  Keeps m = (s : S) → R s (m s).1

  pub Keeps-of :
      {A : Type 0} (m : Action S A) → ((x : Result A) (s s' : S) → m s ≡ (x, s') → R s s') → Keeps m
  Keeps-of m h s = h (m s).0 s (m s).1 refl

  pub Keeps-at :
      {A : Type 0} (m : Action S A) (x : Result A) (s s' : S) → Keeps m → m s ≡ (x, s') → R s s'
  Keeps-at m x s s' h e = subst (R s) (ap (λ y. y.1) e) (h s)

module _ {S : Type 0} {R : S → S → Type 0} (order : Preorder R) where
  pub Keeps-lift : {A : Type 0} (r : Result A) → Keeps R (lift r)
  Keeps-lift r s = order.reflexive s

  pub Keeps-ask : {A : Type 0} (f : S → Result A) → Keeps R (ask f)
  Keeps-ask f s = order.reflexive s

  Keeps-continue :
      {A B : Type 0} (s : S) (x : Result A × S) (f : A → Action S B)
      → R s x.1
      → ((a : A) → Keeps R (f a))
      → R s (continue x f).1
  Keeps-continue s (ok a, s₁) f h k = order.transitive s s₁ (f a s₁).1 h (k a s₁)
  Keeps-continue s (err e, s₁) f h k = h

  pub Keeps->>= :
      {A B : Type 0} (m : Action S A) (f : A → Action S B)
      → Keeps R m
      → ((a : A) → Keeps R (f a))
      → Keeps R (m >>= f)
  Keeps->>= m f h k s = Keeps-continue s (m s) f (h s) k

  pub Keeps->> :
      {A B : Type 0} (m : Action S A) (k : Action S B) → Keeps R m → Keeps R k → Keeps R (m >> k)
  Keeps->> m k h h' s = Keeps-continue s (m s) (λ _. k) (h s) (λ _. h')

  -- What follows a value that was computed without a change.
  pub Keeps-after_lift :
      {A B : Type 0} (r : Result A) (f : A → Action S B)
      → ((a : A) → Keeps R (f a))
      → Keeps R (lift r >>= f)
  Keeps-after_lift r f h = Keeps->>= (lift r) f (Keeps-lift r) h

  pub Keeps-after_ask :
      {A B : Type 0} (q : S → Result A) (f : A → Action S B)
      → ((a : A) → Keeps R (f a))
      → Keeps R (ask q >>= f)
  Keeps-after_ask q f h = Keeps->>= (ask q) f (Keeps-ask q) h

  pub Keeps-deferred :
      {A : Type 0} (clean : Action S (Unit {0})) (m : Action S A)
      → Keeps R clean
      → Keeps R m
      → Keeps R (deferred clean m)
  Keeps-deferred clean m h k s = order.transitive s (m s).1 (clean (m s).1).1 (k s) (h (m s).1)

  Keeps-close_after :
      {A : Type 0} (s : S) (x : Result A × S) (close : Action S (Unit {0}))
      → R s x.1
      → Keeps R close
      → R s (close_after x close).1
  Keeps-close_after s (ok a, s₁) close h k =
      Keeps-continue s (close s₁) (λ _. pure a) (order.transitive s s₁ (close s₁).1 h (k s₁))
        (λ _ s₂. order.reflexive s₂)
  Keeps-close_after s (err e, s₁) close h k = order.transitive s s₁ (close s₁).1 h (k s₁)

  pub Keeps-closed_by :
      {A : Type 0} (close : Action S (Unit {0})) (m : Action S A)
      → Keeps R close
      → Keeps R m
      → Keeps R (closed_by close m)
  Keeps-closed_by close m h k s = Keeps-close_after s (m s) close (k s) h

-- What is left when a call fails, while a call that returns may do more.
abbrev pub Fails : {S A : Type 0} → (S → S → Type 0) → Action S A → Type 0
Fails {S} R m = (e : Error) (s s' : S) → m s ≡ (err e, s') → R s s'

pub pure_returns : {S A : Type 0} (a : A) (e : Error) (s s' : S) → pure a s ≡ (err e, s') → ⊥
pure_returns a e s s' h = cc

module _ {S : Type 0} {R : S → S → Type 0} (order : Preorder R) where
  Fails-of_Keeps : {A : Type 0} (m : Action S A) → Keeps R m → Fails R m
  Fails-of_Keeps m h e s s' k = Keeps-at R m (err e) s s' h k

  pub Fails->>= :
      {A B : Type 0} (m : Action S A) (f : A → Action S B)
      → Keeps R m
      → ((a : A) → Fails R (f a))
      → Fails R (m >>= f)
  Fails->>= m f h k e s s' j = elim (>>=-eq-err m f e s s' j) [
    | inl first ↦ Keeps-at R m (err e) s s' h first
    | inr (a, s₁, done, rest) ↦
        order.transitive s s₁ s' (Keeps-at R m (ok a) s s₁ h done) (k a e s₁ s' rest)
  ]

  pub Fails-then_pure :
      {A B : Type 0} (m : Action S A) (f : A → B) → Fails R m → Fails R (m >>= λ a. pure (f a))
  Fails-then_pure m f h e s s' j = elim (>>=-eq-err m (λ a. pure (f a)) e s s' j) [
    | inl first ↦ h e s s' first
    | inr (a, s₁, done, rest) ↦ absurd (pure_returns (f a) e s₁ s' rest)
  ]

  pub Fails->> :
      {A B : Type 0} (m : Action S A) (k : Action S B) → Keeps R m → Fails R k → Fails R (m >> k)
  Fails->> m k h h' = Fails->>= m (λ _. k) h (λ _. h')

  -- A value that was computed before is known to the rest.
  pub Fails-lift :
      {A B : Type 0} (r : Result A) (f : A → Action S B)
      → ((a : A) → r ≡ ok a → Fails R (f a))
      → Fails R (lift r >>= f)
  Fails-lift (ok a) f h e s s' j = h a refl e s s' j
  Fails-lift (err c) f h e s s' j = subst (R s) (ap (λ y. y.1) j) (order.reflexive s)
