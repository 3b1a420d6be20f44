-- ===== src/Soak/Pir/Noise.antt =====
-- How much noise decryption in soak/src/pir2.rs takes.
use native.Mathlib.Nat.{mul_comm, mul-add}
use shielded_ledger_hivemind.Common.{
  ℕ, zero, suc, ◌+◌, ◌*◌, ◌/◌, ◌^◌, ◌≤◌, ◌<◌, ◌≡◌, ◌⊎◌, refl, sym, ap, ◌∙◌, arith, List, length,
  All, inl, inr,
}
use shielded_ledger_hivemind.Adapter.Legacy.Messages.{Bytes}
use shielded_ledger_hivemind.Soak.Scan.RoundTrip.{IsByte}
use shielded_ledger_hivemind.Soak.Pir.{delta, Geometry, pinned_columns}
use shielded_ledger_hivemind.Soak.Pir.Sums.{sum_range, SameWord}
use shielded_ledger_hivemind.Soak.Pir.Shards.{concat}
use shielded_ledger_hivemind.Soak.Pir.Decrypt.{cell}
use shielded_ledger_hivemind.Soak.Pir.RoundTrip.{IsQuiet, get_or-IsByte}

-- A word that stands for a number from -b to b.
abbrev pub IsNear : ℕ → ℕ → Type 0
IsNear b e = (e ≤ b) ⊎ ((d : ℕ) × (d ≤ b) × (e + d ≡ 2 ^ 32))

-- A sum of words as a positive and a negative part.
record Parts (bound x : ℕ) : Type 0 where
  up : ℕ
  down : ℕ
  up_le : up ≤ bound
  down_le : down ≤ bound
  same : SameWord (x + down) up

product_le : (a b c : ℕ) → a < 256 → c ≤ b → a * c ≤ 255 * b
product_le a b c h k = grind arith

full_turn : (a e d : ℕ) → e + d ≡ 2 ^ 32 → a * e + a * d ≡ 2 ^ 32 * a
full_turn a e d h = sym (mul-add a e d) ∙ (ap (λ n. a * n) h ∙ mul_comm a (2 ^ 32))

one_more : (k x : ℕ) → suc k * x ≡ k * x + x
one_more k x = grind arith

sum-Parts :
    (c k b : ℕ) (a e : ℕ → ℕ)
    → ((i : ℕ) → a i < 256)
    → ((i : ℕ) → IsNear b (e i))
    → Parts (k * (255 * b)) (sum_range c k (λ i. a i * e i))
unfolding sum_range
sum-Parts c zero b a e bytes near = record {
  up = 0;
  down = 0;
  up_le = omega arith;
  down_le = omega arith;
  same = refl;
}
sum-Parts c (suc k) b a e bytes near =
    let rest = sum-Parts (c + 1) k b a e bytes near in
    let step = one_more k (255 * b) in
    elim (near c) [
      | inl small ↦ record {
        up = a c * e c + rest.up;
        down = rest.down;
        up_le = omega (arith, product_le (a c) b (e c) (bytes c) small, rest.up_le);
        down_le = omega (arith, rest.down_le);
        same = omega (arith, rest.same);
      }
      | inr (d, small, e') ↦ record {
        up = rest.up;
        down = rest.down + a c * d;
        up_le = omega (arith, rest.up_le);
        down_le = omega (arith, product_le (a c) b d (bytes c) small, rest.down_le);
        same = omega (arith, rest.same, full_turn (a c) (e c) d e');
      }
    ]

-- Noise of at most b in each column is quiet if 255 times b times the columns is below half a step.
pub IsNear-IsQuiet :
    (g : Geometry) (before : List Bytes) (error : ℕ → ℕ) (b : ℕ)
    → All IsByte (concat before)
    → ((c : ℕ) → IsNear b (error c))
    → pinned_columns g (length before) * (255 * b) < delta / 2
    → IsQuiet g before error
IsNear-IsQuiet g before error b bytes near margin r lr =
    let parts =
      sum-Parts 0 (pinned_columns g (length before)) b (cell g (concat before) r) error
        (λ c. get_or-IsByte (concat before) (c * g.m_rows + r) bytes) near in
    omega (arith, parts.up_le, parts.down_le, parts.same)
