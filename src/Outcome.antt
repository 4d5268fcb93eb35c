-- ===== src/Outcome.antt =====
-- What a Go function hands back: a value or an error (`internal/content/service.go`,
-- `internal/db/problems.go`, `internal/artifact/store.go` name the errors), and calls that also
-- change the state they run against.
pub mod Action
pub mod Keeps
use cotests.Prelude.{
  ℕ, ◌≡◌, refl, ◌⊎◌, inl, inr, String, Bool, true, false, not, ◌==◌, if◌then◌else◌,
}

-- The errors that a caller can tell apart by `errors.Is` and `errors.As`. `failure` is any other:
-- a broken connection, a refused constraint, a file that cannot be read.
pub data Error : Type 0 where
  unauthorized forbidden conflict not_found not_draft : Error
  quota too_large body_too_large duplicated_key not_exist : Error
  validation failure : String → Error

pub data Result (A : Type 0) : Type 0 where
  ok : A → Result A
  err : Error → Result A

-- `if err := check; err != nil { return err }`
abbrev pub guard : Bool → Error → Result (Unit {0})
guard true e = ok tt
guard false e = err e

pub ok-injective : {A : Type 0} {a b : A} → ◌≡◌ {A = Result A} (ok a) (ok b) → a ≡ b
ok-injective h = cc

module _ {A B : Type 0} where
  -- `value, err := call; if err != nil { return err }`, and then the rest
  infixl 5 ◌>>=◌
  abbrev pub ◌>>=◌ : Result A → (A → Result B) → Result B
  ◌>>=◌ (err e) rest = err e
  ◌>>=◌ (ok value) rest = rest value

  -- What returned went through both parts.
  pub >>=-eq-ok :
      (call : Result A) (rest : A → Result B) {b : B}
      → (call >>= rest) ≡ ok b
      → (value : A) × (call ≡ ok value) × (rest value ≡ ok b)
  >>=-eq-ok (err e) rest h = cc
  >>=-eq-ok (ok value) rest h = (value, refl, h)

module _ {B : Type 0} where
  infixl 5 ◌>>◌
  abbrev pub ◌>>◌ : Result (Unit {0}) → Result B → Result B
  check >> rest = check >>= (λ passed. rest)

pub guard-eq-ok : (b : Bool) (e : Error) {u : Unit} → guard b e ≡ ok u → b ≡ true
guard-eq-ok true e h = refl
guard-eq-ok false e h = cc

-- A guard that let the rest return has passed.
pub guard->>-eq-ok :
    {B : Type 0} (b : Bool) (e : Error) (k : Result B) {x : B}
    → (guard b e >> k) ≡ ok x
    → (b ≡ true) × (k ≡ ok x)
guard->>-eq-ok true e k h = (refl, h)
guard->>-eq-ok false e k h = cc

pub not-false : (b : Bool) → not b ≡ true → b ≡ false
not-false true h = cc
not-false false h = refl

-- `if count == 0 { return err }`
pub counted-eq-ok :
    (r : Result ℕ) (e : Error) {u : Unit}
    → (r >>= λ n. guard (not (n == 0)) e) ≡ ok u
    → (n : ℕ) × (r ≡ ok n) × ((n == 0) ≡ false)
counted-eq-ok (ok n) e h = (n, refl, not-false (n == 0) (guard-eq-ok (not (n == 0)) e h))
counted-eq-ok (err c) e h = cc

-- `if exempt { return nil }`, and else a count that must not be 0
pub exempt_or_counted :
    (b : Bool) (r : Result ℕ) (e : Error) {u : Unit}
    → (if b then ok tt else r >>= λ n. guard (not (n == 0)) e) ≡ ok u
    → (b ≡ true) ⊎ ((n : ℕ) × (r ≡ ok n) × ((n == 0) ≡ false))
exempt_or_counted true r e h = inl refl
exempt_or_counted false r e h = inr (counted-eq-ok r e h)
