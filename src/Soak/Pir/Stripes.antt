-- ===== src/Soak/Pir/Stripes.antt =====
-- Columns and stripes as parts of a sum, and what the loops over words in soak/src/pir2.rs write.
use native.Mathlib.Nat.{div-add-mod, mod-lt}
use native.Mathlib.Decide.{dec_lt, ℕ_discrete}
use shielded_ledger_hivemind.Common.{
  min, ne→==, ℕ, zero, suc, ◌+◌, ◌-◌, ◌*◌, ◌%◌, ◌^◌, ◌≤◌, ◌<◌, ◌≡◌, refl, arith, List, [], ◌∷◌,
  length, get_or, get_elem?-eq-get_or, some, ltb, ==_iff, lt→ltb, if◌then◌else◌,
}
use shielded_ledger_hivemind.Soak.Pir.{wrapping_add, wrapping_mul, div_ceil, at_least_one}
use shielded_ledger_hivemind.Soak.Pir.Server.{add_column, add_words}
use shielded_ledger_hivemind.Soak.Pir.Sums.{sum_range, sum_range_parts, sum_range_bounds}

-- The range up to `p`, as far as it is below `n`, and the next `k`.
pub sum_up_to :
    (p k n : ℕ) (f : ℕ → ℕ)
    → sum_range 0 (min p n) f + sum_range p (min (p + k) n - p) f ≡ sum_range 0 (min (p + k) n) f
unfolding sum_range
sum_up_to p k n f = elim (dec_lt p n) [
  | yes below ↦
      let first = sum_range_bounds 0 0 (min p n) p f refl (ground arith) in
      let shift =
        sum_range_bounds p (0 + p) (min (p + k) n - p) (min (p + k) n - p) f (omega arith) refl in
      let whole =
        sum_range_bounds 0 0 (min (p + k) n) (p + (min (p + k) n - p)) f refl (ground arith) in
      omega (arith, sum_range_parts 0 p (min (p + k) n - p) f)
  | no beyond ↦
      let first = sum_range_bounds 0 0 (min p n) n f refl (ground arith) in
      let none_left = sum_range_bounds p p (min (p + k) n - p) 0 f refl (ground arith) in
      let whole = sum_range_bounds 0 0 (min (p + k) n) n f refl (ground arith) in omega arith
]

at_least_one_pos : (k : ℕ) → 0 < k → at_least_one k ≡ k
at_least_one_pos k h = ground arith

min_beyond : (a b : ℕ) → b ≤ a → min a b ≡ b
min_beyond a b h = ground arith

pub next_start : (stripe k : ℕ) → stripe * k + k ≡ (stripe + 1) * k
next_start stripe k = grind arith

pub no_columns : (k cols x : ℕ) (f : ℕ → ℕ) → x ≡ 0 → x ≡ sum_range 0 (min (0 * k) cols) f % 2 ^ 32
unfolding sum_range
no_columns k cols x f h =
    let empty = sum_range_bounds 0 0 (min (0 * k) cols) 0 f refl (ground arith) in omega arith

-- Enough stripes for all columns.
pub all_columns : (k cols : ℕ) → 0 < k → min ((0 + div_ceil cols (at_least_one k)) * k) cols ≡ cols
all_columns k cols h =
    let split = div-add-mod cols k in
    let some_left = mod-lt cols h in
    elim (ℕ_discrete (cols % k) 0) [
      | yes exact ↦
          rw (at_least_one_pos k h, (==_iff (cols % k) 0).1 exact) (min_beyond _ cols (grind arith))
      | no rest ↦
          rw (at_least_one_pos k h, ne→== (cols % k) 0 rest) (min_beyond _ cols (grind arith))
    ]

pub sum_words :
    (t p a b : ℕ) → t ≡ a % 2 ^ 32 → p ≡ b % 2 ^ 32 → wrapping_add t p ≡ (a + b) % 2 ^ 32
sum_words t p a b h h' = omega arith

pub length-add_words : (t p : List ℕ) → length t ≡ length p → length (add_words t p) ≡ length t
unfolding add_words
length-add_words [] p h = refl
length-add_words (x ∷ t) [] h = refl
length-add_words (x ∷ t) (y ∷ p) h = omega (arith, length-add_words t p (omega arith))

pub get_or-add_words :
    (t p : List ℕ) (r : ℕ)
    → r < length t
    → length t ≡ length p
    → get_or (add_words t p) r 0 ≡ wrapping_add (get_or t r 0) (get_or p r 0)
unfolding add_words
get_or-add_words [] p r lt h = absurd (omega arith)
get_or-add_words (x ∷ t) [] r lt h = absurd (omega arith)
get_or-add_words (x ∷ t) (y ∷ p) zero lt h = refl
get_or-add_words (x ∷ t) (y ∷ p) (suc r) lt h = get_or-add_words t p r (omega arith) (omega arith)

-- What `add_column` gives where every index is within bounds.
unfoldable pub column_added : List ℕ → ℕ → ℕ → ℕ → List ℕ → List ℕ
column_added d base q zero ans = ans
column_added d base q (suc rows) [] = []
column_added d base q (suc rows) (x ∷ ans) =
    wrapping_add x (wrapping_mul (get_or d base 0) q) ∷ column_added d (base + 1) q rows ans

pub add_column-eq-some :
    (d : List ℕ) (base q rows : ℕ) (ans : List ℕ)
    → base + rows ≤ length d
    → rows ≤ length ans
    → add_column d base q rows ans ≡ some (column_added d base q rows ans)
unfolding add_column column_added
add_column-eq-some d base q zero ans inside fits = refl
add_column-eq-some d base q (suc rows) [] inside fits = absurd (omega arith)
add_column-eq-some d base q (suc rows) (x ∷ ans) inside fits =
    rw
      (
        add_column,
        get_elem?-eq-get_or d base 0 (omega arith),
        add_column-eq-some d (base + 1) q rows ans (omega arith) (omega arith),
      )
      refl

pub length-column_added :
    (d : List ℕ) (base q rows : ℕ) (ans : List ℕ)
    → length (column_added d base q rows ans) ≡ length ans
unfolding column_added
length-column_added d base q zero ans = refl
length-column_added d base q (suc rows) [] = refl
length-column_added d base q (suc rows) (x ∷ ans) =
    omega (arith, length-column_added d (base + 1) q rows ans)

-- What a column adds to a row.
abbrev pub pinned_term : List ℕ → ℕ → ℕ → ℕ → ℕ → ℕ
pinned_term d base q rows r = if ltb r rows then get_or d (base + r) 0 * q else 0

ltb-suc : (a b : ℕ) → ltb (suc a) (suc b) ≡ ltb a b
ltb-suc a b = ground arith

word_step : (y x t : ℕ) → y ≡ x % 2 ^ 32 → wrapping_add y (t % 2 ^ 32) ≡ (x + t) % 2 ^ 32
word_step y x t e = omega arith

pub get_or-column_added :
    (d : List ℕ) (base q rows : ℕ) (ans : List ℕ) (r x : ℕ)
    → r < length ans
    → get_or ans r 0 ≡ x % 2 ^ 32
    → get_or (column_added d base q rows ans) r 0 ≡ (x + pinned_term d base q rows r) % 2 ^ 32
unfolding column_added
get_or-column_added d base q zero ans r x lt e = ground arith
get_or-column_added d base q (suc rows) [] r x lt e = absurd (omega arith)
get_or-column_added d base q (suc rows) (y ∷ ans) zero x lt e =
    let at : base + 0 ≡ base = omega arith in
    rw (at, lt→ltb 0 (suc rows) (omega arith)) (word_step y x (get_or d base 0 * q) e)
get_or-column_added d base q (suc rows) (y ∷ ans) (suc r) x lt e =
    let at : base + suc r ≡ base + 1 + r = omega arith in
    rw (at, ltb-suc r rows) (get_or-column_added d (base + 1) q rows ans r x (omega arith) e)
