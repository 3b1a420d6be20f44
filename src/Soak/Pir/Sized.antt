-- ===== src/Soak/Pir/Sized.antt =====
-- The geometry of soak/src/pir2.rs and its integer square root.
use native.Mathlib.Nat.{
  div-add-mod, mod-lt, mul_comm, mul-add, div_self, mul-one, add_comm, le-div_iff_mul-le,
}
use native.Mathlib.Decide.{dec_lt}
use shielded_ledger_hivemind.Common.{
  ℕ, zero, suc, ◌+◌, ◌-◌, ◌*◌, ◌/◌, ◌≤◌, ◌<◌, ◌≡◌, refl, sym, ap, subst, arith, ltb, ltb→lt, some,
  none, ◌^◌, ◌⊎◌, Option-cases, some-injective, false, Bool-cases, inl, inr,
}
use shielded_ledger_hivemind.Soak.Pir.{
  Geometry, record_bytes, for_shard_size, geometry_of, in_usize, isqrt, newton, at_least_one,
  div_ceil,
}
use shielded_ledger_hivemind.Soak.Pir.Places.{Fits}
use shielded_ledger_hivemind.Soak.Pir.Rows.{le-mul_of_div_ceil-le}

at_least_one-pos : (n : ℕ) → 0 < at_least_one n
at_least_one-pos n = ground arith

geometry_of-Fits : (shard_size root : ℕ) → Fits (geometry_of shard_size root)
geometry_of-Fits shard_size root =
    let some_records = at_least_one-pos ((root + record_bytes / 2) / record_bytes) in
    let rpc = at_least_one ((root + record_bytes / 2) / record_bytes) in
    record {
      some_records = some_records;
      rows = refl;
      columns =
          le-mul_of_div_ceil-le shard_size rpc (div_ceil shard_size rpc) some_records (omega arith);
    }

for_shard_size-root :
    (shard_size : ℕ) (g : Geometry)
    → for_shard_size shard_size ≡ some g
    → (root : ℕ) × (geometry_of shard_size root ≡ g)
unfolding for_shard_size
for_shard_size-root shard_size g made = elim (Bool-cases (ltb 0 shard_size)) [
  | inr empty ↦ cc (rw (for_shard_size, empty) at made)
  | inl pos ↦ elim (Option-cases (in_usize (shard_size * record_bytes))) [
    | inl over ↦ cc (rw (for_shard_size, pos, over) at made)
    | inr (cells, fits) ↦ elim (Option-cases (isqrt cells)) [
      | inl over ↦ cc (rw (for_shard_size, pos, fits, over) at made)
      | inr (root, found) ↦ (root, some-injective (rw (for_shard_size, pos, fits, found) at made))
    ]
  ]
]

pub for_shard_size-Fits :
    (shard_size : ℕ) (g : Geometry)
    → for_shard_size shard_size ≡ some g
    → Fits g × (g.shard_size ≡ shard_size)
for_shard_size-Fits shard_size g made =
    let (root, e) = for_shard_size-root shard_size g made in
    subst (λ (x : Geometry). Fits x × (x.shard_size ≡ shard_size)) e
      (geometry_of-Fits shard_size root, refl)

am_gm_ordered : (a b d : ℕ) → b ≡ a + d → 4 * (a * b) ≤ (a + b) * (a + b)
am_gm_ordered a b d e = rw e (grind arith)

square_mono : (a b : ℕ) → a ≤ b → a * a ≤ b * b
square_mono a b h = grind arith

square_twice : (m : ℕ) → 2 * (m + 1) * (2 * (m + 1)) ≡ 4 * ((m + 1) * (m + 1))
square_twice m = grind arith

below_product : (v y : ℕ) → 0 < y → v < y * (v / y + 1)
below_product v y pos = omega (arith, div-add-mod v y, mod-lt v pos, mul-add y (v / y) 1, mul-one y)

-- Twice the geometric mean is at most the sum.
am_gm : (a b : ℕ) → 4 * (a * b) ≤ (a + b) * (a + b)
am_gm a b = elim (dec_lt a b) [
  | yes less ↦ am_gm_ordered a b (b - a) (omega arith)
  | no more ↦ rw (mul_comm a b, add_comm a b) (am_gm_ordered b a (a - b) (omega arith))
]

-- A Newton step from above stays above the root.
newton_step : (v y : ℕ) → 0 < y → v < ((y + v / y) / 2 + 1) * ((y + v / y) / 2 + 1)
newton_step v y pos =
    let q = v / y in
    let m = (y + q) / 2 in
    let bound : y + (q + 1) ≤ 2 * (m + 1) = omega arith in
    omega (
      arith,
      below_product v y pos,
      am_gm y (q + 1),
      square_mono (y + (q + 1)) (2 * (m + 1)) bound,
      square_twice m,
    )

root_pos : (v y : ℕ) → 0 < v → v < (y + 1) * (y + 1) → 0 < y
root_pos v zero some_v h = absurd (omega arith)
root_pos v (suc y) some_v h = omega arith

ltb-false : (a b : ℕ) → ltb a b ≡ false → b ≤ a
ltb-false a b h = ground arith

square-le : (v x : ℕ) → 0 < x → x ≤ v / x → x * x ≤ v
square-le v x pos h = (le-div_iff_mul-le pos).0 h

sum_of_product : (a b v : ℕ) → suc a * suc b ≤ v → suc a + suc b ≤ v + 1
sum_of_product a b v h = grind arith

-- The sum of the loop is at most the number and one.
sum-le : (v y : ℕ) → 0 < y → y ≤ v → y + v / y ≤ v + 1
sum-le v zero pos le = absurd (omega arith)
sum-le v (suc a) pos le =
    let quotient : 1 ≤ v / suc a = (le-div_iff_mul-le pos).1 (omega arith) in
    let e : suc (v / suc a - 1) ≡ v / suc a = omega arith in
    subst (λ q. suc a + q ≤ v + 1) e
      (sum_of_product a (v / suc a - 1) v
        (subst (λ q. suc a * q ≤ v) (sym e) (omega (arith, div-add-mod v (suc a)))))

in_usize-eq-some : (n : ℕ) → n < 2 ^ 64 → in_usize n ≡ some n
in_usize-eq-some n h = ground arith

in_usize-eq-none : (n : ℕ) → 2 ^ 64 ≤ n → in_usize n ≡ none
in_usize-eq-none n h = ground arith

-- A number whose square is at most `v`, and that of the next is not.
abbrev IsRoot : ℕ → ℕ → Type 0
IsRoot v r = (r * r ≤ v) × (v < (r + 1) * (r + 1))

-- From above the root, the loop ends at its floor.
newton-floor :
    (fuel v x y : ℕ)
    → 0 < v
    → v + 1 < 2 ^ 64
    → 0 < x
    → x ≤ fuel
    → x ≤ v
    → v < (x + 1) * (x + 1)
    → y ≡ (x + v / x) / 2
    → (r : ℕ) × (newton fuel v x y ≡ some r) × IsRoot v r
unfolding newton
newton-floor zero v x y some_v bound pos small low above made = absurd (omega arith)
newton-floor (suc fuel) v x y some_v bound pos small low above made = elim (Bool-cases (ltb y x)) [
  | inl more ↦
      let next : v < (y + 1) * (y + 1) =
        subst (λ m. v < (m + 1) * (m + 1)) (sym made) (newton_step v x pos) in
      let falls = ltb→lt y x more in
      let y_pos = root_pos v y some_v next in
      let fits = in_usize-eq-some (y + v / y) (omega (arith, sum-le v y y_pos (omega arith))) in
      let (r, done, is_root) =
        newton-floor fuel v y ((y + v / y) / 2) some_v bound y_pos (omega arith) (omega arith) next
          refl in
      (r, rw (newton, more, fits) done, is_root)
  | inr done ↦
      (x, rw (newton, done) refl, (square-le v x pos (omega (arith, ltb-false y x done)), above))
]

tiny_square : (v : ℕ) → v < 2 → (v * v ≤ v) × (v < (v + 1) * (v + 1))
tiny_square zero h = omega arith
tiny_square (suc zero) h = omega arith
tiny_square (suc (suc v)) h = absurd (omega arith)

-- Below the largest `usize`, `isqrt` ends at the floor of the square root without an overflow, and at the
-- largest `usize` it overflows.
pub isqrt-floor :
    (v : ℕ)
    → v < 2 ^ 64
    → ((v + 1 < 2 ^ 64) × ((r : ℕ) × (isqrt v ≡ some r) × (r * r ≤ v) × (v < (r + 1) * (r + 1))))
      ⊎ ((v ≡ 2 ^ 64 - 1) × (isqrt v ≡ none))
unfolding isqrt
isqrt-floor v bound = elim (Bool-cases (ltb v 2)) [
  | inl tiny ↦
      let root = tiny_square v (ltb→lt v 2 tiny) in
      inl (omega (arith, ltb→lt v 2 tiny), (v, rw tiny refl, root.0, root.1))
  | inr large ↦
      let two = ltb-false v 2 large in
      elim (dec_lt (v + 1) (2 ^ 64)) [
        | no over ↦ inr (omega arith, rw (large, in_usize-eq-none (v + 1) (omega arith)) refl)
        | yes below ↦
            let (r, done, is_root) =
              newton-floor v v v ((v + 1) / 2) (omega arith) below (omega arith) (omega arith)
                (omega arith) (grind arith)
                (ap (λ q. (v + q) / 2) (sym (div_self (omega arith)))) in
            inl (below, (r, rw (large, in_usize-eq-some (v + 1) below) done, is_root.0, is_root.1))
      ]
]
