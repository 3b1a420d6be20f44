-- ===== src/Circuit/Tree/Nodes.antt =====
-- The abstract tree: every level is a function on all indices, empty places included, and a node
-- is the compression of its four children.
use shielded_ledger_hivemind.Common.{ℕ, zero, suc, ◌+◌, ◌*◌, ◌≤◌, ◌<◌, ◌≡◌, List, get_or, arith}
use shielded_ledger_hivemind.Circuit.Row.{from_fn, splat}
use shielded_ledger_hivemind.Circuit.Hash.{Poseidon, merkle_compress}

module _ {F S : Type 0} (P : Poseidon F S) where
  -- The level above.
  unfoldable pub up : (ℕ → F) → ℕ → F
  up f i = merkle_compress P (from_fn (λ j. f (4 * i + j)))

  -- `n` levels above.
  unfoldable pub up_by : ℕ → (ℕ → F) → ℕ → F
  up_by zero f = f
  up_by (suc n) f = up_by n (up f)

  -- What `n` levels over an empty leaf `z` holds where all below is empty.
  unfoldable pub zero_at : ℕ → F → F
  zero_at zero z = z
  zero_at (suc n) z = zero_at n (merkle_compress P (splat z))

  -- The root that commits to a list of leaves.
  unfoldable pub tree_root : List F → F
  tree_root leaves = up_by 16 (λ i. get_or leaves i (P.of_u64 0)) 0

  -- A parent whose children are all equal to `z`.
  pub up-splat :
      (f : ℕ → F) (z : F) (i : ℕ)
      → ((k : ℕ) → 4 * i ≤ k → f k ≡ z)
      → up f i ≡ merkle_compress P (splat z)
  unfolding up
  up-splat f z i h = rw (
    h (4 * i + 0) (omega arith),
    h (4 * i + 1) (omega arith),
    h (4 * i + 2) (omega arith),
    h (4 * i + 3) (omega arith),
  )

  -- Two levels that agree on the four children of a node agree on it.
  pub up_cong :
      (f g : ℕ → F) (i : ℕ) → ((k : ℕ) → 4 * i ≤ k → k < 4 * i + 4 → f k ≡ g k) → up f i ≡ up g i
  unfolding up
  up_cong f g i h = rw (
    h (4 * i + 0) (omega arith) (omega arith),
    h (4 * i + 1) (omega arith) (omega arith),
    h (4 * i + 2) (omega arith) (omega arith),
    h (4 * i + 3) (omega arith) (omega arith),
  )
