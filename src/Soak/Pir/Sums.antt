-- ===== src/Soak/Pir/Sums.antt =====
-- Finite sums over a range, and sums of 32-bit words.
use native.Mathlib.Nat.{mul-add, mul-zero}
use native.Mathlib.Decide.{ℕ_discrete}
use shielded_ledger_hivemind.Common.{
  subst, ℕ, zero, suc, ◌+◌, ◌*◌, ◌%◌, ◌^◌, ◌≤◌, ◌<◌, ◌≡◌, ◌≢◌, refl, sym, ap₂, arith,
}

-- `f c + … + f (c + k - 1)`
unfoldable pub sum_range : ℕ → ℕ → (ℕ → ℕ) → ℕ
sum_range c zero f = 0
sum_range c (suc k) f = f c + sum_range (c + 1) k f

-- Equal as 32-bit words.
abbrev pub SameWord : ℕ → ℕ → Type 0
SameWord a b = a % 2 ^ 32 ≡ b % 2 ^ 32

pub sum_range_cong :
    (c k : ℕ) (f g : ℕ → ℕ)
    → ((i : ℕ) → c ≤ i → i < c + k → f i ≡ g i)
    → sum_range c k f ≡ sum_range c k g
unfolding sum_range
sum_range_cong c zero f g h = refl
sum_range_cong c (suc k) f g h = omega (
  arith,
  h c (omega arith) (omega arith),
  sum_range_cong (c + 1) k f g (λ i lo hi. h i (omega arith) (omega arith)),
)

pub sum_range_SameWord :
    (c k : ℕ) (f g : ℕ → ℕ)
    → ((i : ℕ) → c ≤ i → i < c + k → SameWord (f i) (g i))
    → SameWord (sum_range c k f) (sum_range c k g)
unfolding sum_range
sum_range_SameWord c zero f g h = refl
sum_range_SameWord c (suc k) f g h = omega (
  arith,
  h c (omega arith) (omega arith),
  sum_range_SameWord (c + 1) k f g (λ i lo hi. h i (omega arith) (omega arith)),
)

-- The bounds of a range may be rewritten.
pub sum_range_bounds :
    (c c' k k' : ℕ) (f : ℕ → ℕ) → c ≡ c' → k ≡ k' → sum_range c k f ≡ sum_range c' k' f
sum_range_bounds c c' k k' f e e' = ap₂ (λ i n. sum_range i n f) e e'

pub sum_range_parts :
    (c k l : ℕ) (f : ℕ → ℕ) → sum_range c (k + l) f ≡ sum_range c k f + sum_range (c + k) l f
unfolding sum_range
sum_range_parts c zero l f =
    let fewer = sum_range_bounds c c (zero + l) l f refl (omega arith) in
    let same = sum_range_bounds (c + zero) c l l f (omega arith) refl in omega (arith, fewer, same)
sum_range_parts c (suc k) l f =
    let regroup = sum_range_bounds c c (suc k + l) (suc (k + l)) f refl (omega arith) in
    let shift = sum_range_bounds (c + 1 + k) (c + suc k) l l f (omega arith) refl in
    omega (arith, regroup, shift, sum_range_parts (c + 1) k l f)

pub sum_range_add :
    (c k : ℕ) (f g : ℕ → ℕ) → sum_range c k (λ i. f i + g i) ≡ sum_range c k f + sum_range c k g
unfolding sum_range
sum_range_add c zero f g = refl
sum_range_add c (suc k) f g = omega (arith, sum_range_add (c + 1) k f g)

pub sum_range_mul : (c k a : ℕ) (f : ℕ → ℕ) → sum_range c k (λ i. a * f i) ≡ a * sum_range c k f
unfolding sum_range
sum_range_mul c zero a f = sym (mul-zero a)
sum_range_mul c (suc k) a f =
    omega (arith, mul-add a (f c) (sum_range (c + 1) k f), sum_range_mul (c + 1) k a f)

pub sum_range_zero :
    (c k : ℕ) (f : ℕ → ℕ) → ((i : ℕ) → c ≤ i → i < c + k → f i ≡ 0) → sum_range c k f ≡ 0
unfolding sum_range
sum_range_zero c zero f h = refl
sum_range_zero c (suc k) f h = omega (
  arith,
  h c (omega arith) (omega arith),
  sum_range_zero (c + 1) k f (λ i lo hi. h i (omega arith) (omega arith)),
)

-- The order of two sums.
pub sum_range_swap :
    (c k d l : ℕ) (f : ℕ → ℕ → ℕ)
    → sum_range c k (λ i. sum_range d l (λ j. f i j))
      ≡ sum_range d l (λ j. sum_range c k (λ i. f i j))
unfolding sum_range
sum_range_swap c zero d l f = sym (sum_range_zero d l (λ j. 0) (λ i lo hi. refl))
sum_range_swap c (suc k) d l f = omega (
  arith,
  sum_range_swap (c + 1) k d l f,
  sum_range_add d l (f c) (λ j. sum_range (c + 1) k (λ i. f i j)),
)

-- A sum of two functions that differ at one place.
pub sum_range_at :
    (c k : ℕ) (f g : ℕ → ℕ) (at x : ℕ)
    → c ≤ at
    → at < c + k
    → g at ≡ f at + x
    → ((i : ℕ) → i ≢ at → g i ≡ f i)
    → sum_range c k g ≡ sum_range c k f + x
unfolding sum_range
sum_range_at c zero f g at x lo hi here else_where = absurd (omega arith)
sum_range_at c (suc k) f g at x lo hi here else_where = elim (ℕ_discrete c at) [
  | yes e ↦
      let first : g c ≡ f c + x = subst (λ i. g i ≡ f i + x) (sym e) here in
      let rest : sum_range (c + 1) k g ≡ sum_range (c + 1) k f =
        sum_range_cong (c + 1) k g f (λ i l h. else_where i (λ same. omega arith)) in
      omega arith
  | no ne ↦
      let first : g c ≡ f c = else_where c ne in
      let rest : sum_range (c + 1) k g ≡ sum_range (c + 1) k f + x =
        sum_range_at (c + 1) k f g at x (omega arith) (omega arith) here else_where in
      omega arith
]
