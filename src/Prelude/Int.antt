-- ===== src/Prelude/Int.antt =====
-- Go's signed `int` and `int64` where a negative value can be given: their order and tests.
use Prim.Native.Nat.{ℕ, zero, suc, ◌-◌, ◌≤◌}
use mathlib.Core.Path.{◌≡◌, refl}
use mathlib.Core.Logic.{◌⊎◌, inl, inr}
use native.Mathlib.Omega.{arith}
use mathlib.Core.Bool.{Bool, true, false}
use mathlib.Core.Option.{Option, none, some}
use cotests.Prelude.Tests.{◌==◌, ltb, leb, if◌then◌else◌, Bool-cases}

-- `negsuc n` is -(n + 1).
pub data ℤ : Type 0 where
  pos : ℕ → ℤ
  negsuc : ℕ → ℤ

abbrev pub is_negative : ℤ → Bool
is_negative (pos n) = false
is_negative (negsuc n) = true

-- value <= 0
abbrev pub is_nonpositive : ℤ → Bool
is_nonpositive (pos n) = n == 0
is_nonpositive (negsuc n) = true

-- `p != nil && test(*p)`
abbrev pub given_and {ℓ} : {A : Type ℓ} → (A → Bool) → Option A → Bool
given_and p none = false
given_and p (some a) = p a

-- a - b
unfoldable pub difference : ℕ → ℕ → ℤ
difference a b = if leb b a then pos (a - b) else negsuc (b - a - 1)

-- n > limit
abbrev pub exceeds : ℕ → ℤ → Bool
exceeds n (pos limit) = ltb limit n
exceeds n (negsuc limit) = true

abbrev succ : ℤ → ℤ
succ (pos n) = pos (suc n)
succ (negsuc zero) = pos 0
succ (negsuc (suc n)) = negsuc n

-- z + n
infixl 40 ◌+ℤ◌
abbrev pub ◌+ℤ◌ : ℤ → ℕ → ℤ
◌+ℤ◌ z zero = z
◌+ℤ◌ z (suc n) = succ (◌+ℤ◌ z n)

-- the greater
abbrev pub max_ℤ : ℤ → ℤ → ℤ
max_ℤ (pos a) (pos b) = if ltb a b then pos b else pos a
max_ℤ (pos a) (negsuc b) = pos a
max_ℤ (negsuc a) (pos b) = pos b
max_ℤ (negsuc a) (negsuc b) = if ltb a b then negsuc a else negsuc b

-- a ≤ b
abbrev pub AtMost : ℤ → ℤ → Type 0
AtMost (pos a) (pos b) = a ≤ b
AtMost (pos a) (negsuc b) = ⊥
AtMost (negsuc a) (pos b) = Unit
AtMost (negsuc a) (negsuc b) = b ≤ a

pub AtMost-refl : (a : ℤ) → AtMost a a
AtMost-refl (pos a) = omega arith
AtMost-refl (negsuc a) = omega arith

pub AtMost-trans : (a b c : ℤ) → AtMost a b → AtMost b c → AtMost a c
AtMost-trans (pos a) (pos b) (pos c) h k = omega arith
AtMost-trans (pos a) (pos b) (negsuc c) h k = absurd k
AtMost-trans (pos a) (negsuc b) c h k = absurd h
AtMost-trans (negsuc a) (pos b) (pos c) h k = tt
AtMost-trans (negsuc a) (pos b) (negsuc c) h k = absurd k
AtMost-trans (negsuc a) (negsuc b) (pos c) h k = tt
AtMost-trans (negsuc a) (negsuc b) (negsuc c) h k = omega arith

-- The greater one is one of the two, and neither is beyond it.
pub max_ℤ_cases :
    (a b : ℤ) → AtMost a (max_ℤ a b) × AtMost b (max_ℤ a b) × ((max_ℤ a b ≡ a) ⊎ (max_ℤ a b ≡ b))
max_ℤ_cases (pos a) (pos b) = elim (Bool-cases (ltb a b)) [
  | inl less ↦ rw less (ground arith, ground arith, inr refl)
  | inr more ↦ rw more (ground arith, ground arith, inl refl)
]
max_ℤ_cases (pos a) (negsuc b) = (omega arith, tt, inl refl)
max_ℤ_cases (negsuc a) (pos b) = (tt, omega arith, inr refl)
max_ℤ_cases (negsuc a) (negsuc b) = elim (Bool-cases (ltb a b)) [
  | inl less ↦ rw less (ground arith, ground arith, inl refl)
  | inr more ↦ rw more (ground arith, ground arith, inr refl)
]
