-- ===== src/Circuit/Field.antt =====
-- The scalar field of circuit/common/src/lib.rs, as arithmetic modulo the prime `p` that the build
-- selects (BN254 or BLS12-381), and the parts of the constraint system that the circuits use.
-- A variable is its value; a constraint is a test of values, and the prover chooses the values.
use native.Mathlib.Nat.{mod-eq_of_lt}
use shielded_ledger_hivemind.Common.{
  ℕ, ◌+◌, ◌*◌, ◌%◌, ◌<◌, ◌≡◌, Bool, true, false, ◌==◌, not, Result, ok, fail_if, arith,
}

-- `SynthesisError`; `unsatisfied` marks an assignment that violates a constraint.
pub data SynthesisError : Type 0 where
  assignment_missing unsatisfied : SynthesisError

abbrev pub Synthesis : Type 0 → Type 0
Synthesis = Result SynthesisError

-- `a.enforce_equal(&b)` on values.
abbrev pub enforce_equal : ℕ → ℕ → Synthesis (Unit {0})
enforce_equal a b = fail_if (not (a == b)) unsatisfied

-- `a.enforce_not_equal(&b)`: the difference has an inverse exactly when the values differ.
abbrev pub enforce_not_equal : ℕ → ℕ → Synthesis (Unit {0})
enforce_not_equal a b = fail_if (a == b) unsatisfied

-- `FpVar::from(Boolean)`
abbrev pub of_bool : Bool → ℕ
of_bool true = 1
of_bool false = 0

module _ (p : ℕ) where
  unfoldable pub add : ℕ → ℕ → ℕ
  add a b = (a + b) % p

  unfoldable pub mul : ℕ → ℕ → ℕ
  mul a b = a * b % p

  pub add-small : (a b : ℕ) → a + b < p → add a b ≡ a + b
  unfolding add
  add-small a b h = mod-eq_of_lt h

  pub mul-small : (a b : ℕ) → a * b < p → mul a b ≡ a * b
  unfolding mul
  mul-small a b h = mod-eq_of_lt h

pub enforce_equal-ok : (a b : ℕ) → enforce_equal a b ≡ ok tt → a ≡ b
enforce_equal-ok a b h = ground arith

pub enforce_not_equal-ok : (a b : ℕ) → enforce_not_equal a b ≡ ok tt → a ≡ b → ⊥
enforce_not_equal-ok a b h e = ground arith

pub equal-enforce : (a b : ℕ) → a ≡ b → enforce_equal a b ≡ ok tt
equal-enforce a b e = ground arith

pub ne-enforce : (a b : ℕ) → (a ≡ b → ⊥) → enforce_not_equal a b ≡ ok tt
ne-enforce a b h = ground arith
