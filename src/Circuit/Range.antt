-- ===== src/Circuit/Range.antt =====
-- `enforce_u64_range` of circuit/common/src/lib.rs: a value below 2^64 by 64 boolean witnesses.
use native.Mathlib.Nat.{pow-suc, one-le-pow, mul-le-mul_right, div-div-eq-div-mul, div-add-mod}
use native.Mathlib.Nat.{mul-add-mod_self_left, mod-eq_of_lt, mod-lt}
use native.Mathlib.Numerals.{add-one}
use shielded_ledger_hivemind.Common.{
  ℕ, zero, suc, ◌+◌, ◌*◌, ◌/◌, ◌%◌, ◌^◌, ◌≤◌, ◌<◌, ◌≡◌, sym, ap, ap₂, ◌∙◌, arith, Bool, true, false,
  ◌==◌, ok, ◌↔◌,
}
use shielded_ledger_hivemind.Circuit.Field.{
  Synthesis, enforce_equal, enforce_equal-ok, equal-enforce, of_bool, add, mul, add-small,
  mul-small,
}

module _ (p : ℕ) where
  -- The rounds `i` to `i + n - 1`: `acc += bit * pow; pow += pow`.
  unfoldable pub recompose : ℕ → ℕ → (ℕ → Bool) → ℕ → ℕ → ℕ
  recompose zero i bits acc pow = acc
  recompose (suc n) i bits acc pow =
      recompose n (i + 1) bits (add p acc (mul p (of_bool (bits i)) pow)) (add p pow pow)

  -- The constraint, at whatever bits the prover has assigned.
  unfoldable pub enforce_u64_range : (ℕ → Bool) → ℕ → Synthesis (Unit {0})
  enforce_u64_range bits v = enforce_equal (recompose 64 0 bits 0 1) v

-- The assignment of the bits: the low 64 bits of the claimed value.
unfoldable pub low64_bits : ℕ → ℕ → Bool
low64_bits v i = v % 2 ^ 64 / 2 ^ i % 2 == 1

bits_value : ℕ → ℕ → (ℕ → Bool) → ℕ
bits_value zero i bits = 0
bits_value (suc n) i bits = of_bool (bits i) + 2 * bits_value n (i + 1) bits

pub of_bool-le : (b : Bool) → of_bool b ≤ 1
of_bool-le true = omega arith
of_bool-le false = omega arith

bits_value-lt : (n i : ℕ) (bits : ℕ → Bool) → bits_value n i bits < 2 ^ n
unfolding bits_value
bits_value-lt zero i bits = omega arith
bits_value-lt (suc n) i bits =
    omega (arith, of_bool-le (bits i), bits_value-lt n (i + 1) bits, pow-suc 2 n)

pub of_bool-mul : (p : ℕ) (b : Bool) (x : ℕ) → x < p → mul p (of_bool b) x ≡ of_bool b * x
of_bool-mul p true x h = mul-small p 1 x (omega arith)
of_bool-mul p false x h = mul-small p 0 x (omega arith)

pub of_bool-mul-le : (b : Bool) (x : ℕ) → of_bool b * x ≤ x
of_bool-mul-le true x = omega arith
of_bool-mul-le false x = omega arith

-- While nothing wraps around the modulus, the loop adds up the binary digits.
recompose_lem :
    (p n i : ℕ) (bits : ℕ → Bool) (acc pow : ℕ)
    → acc + 2 ^ n * pow < p + pow
    → 2 ^ n * pow < p
    → recompose p n i bits acc pow ≡ acc + pow * bits_value n i bits
unfolding recompose bits_value
recompose_lem p zero i bits acc pow h k = omega arith
recompose_lem p (suc n) i bits acc pow h k =
    let b : ℕ = of_bool (bits i) in
    let double : 2 ^ suc n * pow ≡ 2 * (2 ^ n * pow) =
      omega (arith, ap (λ (t : ℕ). t * pow) (pow-suc 2 n)) in
    let grows : pow ≤ 2 ^ n * pow =
      omega (arith, mul-le-mul_right pow (one-le-pow n 2 (omega arith))) in
    let small : b * pow ≤ pow = of_bool-mul-le (bits i) pow in
    let shifted : 2 ^ n * (pow + pow) ≡ 2 * (2 ^ n * pow) = omega arith in
    rw
      (
        of_bool-mul p (bits i) pow (omega arith),
        add-small p acc (b * pow) (omega arith),
        add-small p pow pow (omega arith),
      )
      (recompose_lem p n (i + 1) bits (acc + b * pow) (pow + pow) (omega arith) (omega arith)
        ∙ omega arith)

odd_bit : (x : ℕ) → of_bool (x % 2 == 1) ≡ x % 2
odd_bit x = ground arith

div-pow-suc : (w i : ℕ) → w / 2 ^ (i + 1) ≡ w / 2 ^ i / 2
div-pow-suc w i = rw (add-one, pow-suc) (sym (div-div-eq-div-mul w (2 ^ i) 2))

mod_double : (x m : ℕ) → 0 < m → x % (m * 2) ≡ x % 2 + 2 * (x / 2 % m)
mod_double x m h =
    let y : ℕ = x / 2 in
    let r : ℕ = x % 2 + 2 * (y % m) in
    let e : x ≡ m * 2 * (y / m) + r = omega (arith, div-add-mod y m) in
    ap (λ (t : ℕ). t % (m * 2)) e
    ∙ mul-add-mod_self_left (m * 2) (y / m) r
    ∙ mod-eq_of_lt (omega (arith, mod-lt y h))

-- The assigned bits are those of the low 64 bits.
bits_value-low : (n i w : ℕ) → bits_value n i (λ k. w / 2 ^ k % 2 == 1) ≡ w / 2 ^ i % 2 ^ n
unfolding bits_value
bits_value-low zero i w = omega arith
bits_value-low (suc n) i w =
    let x : ℕ = w / 2 ^ i in
    ap₂ (λ (a b : ℕ). a + 2 * b) (odd_bit x)
      (bits_value-low n (i + 1) w ∙ ap (λ (t : ℕ). t % 2 ^ n) (div-pow-suc w i))
    ∙ sym (mod_double x (2 ^ n) (one-le-pow n 2 (omega arith)))
    ∙ ap (λ (t : ℕ). x % t) (sym (pow-suc 2 n))

-- No bits at all satisfy the gadget for a value of 2^64 or more.
pub range_sound :
    (p : ℕ) (bits : ℕ → Bool) (v : ℕ) → 2 ^ 66 ≤ p → enforce_u64_range p bits v ≡ ok tt → v < 2 ^ 64
unfolding enforce_u64_range
range_sound p bits v hp h = omega (
  arith,
  enforce_equal-ok _ v h,
  recompose_lem p 64 0 bits 0 1 (omega arith) (omega arith),
  bits_value-lt 64 0 bits,
)

-- The bits that an honest prover assigns satisfy it for every value below 2^64.
pub range_complete :
    (p v : ℕ) → 2 ^ 66 ≤ p → v < 2 ^ 64 → enforce_u64_range p (low64_bits v) v ≡ ok tt
unfolding enforce_u64_range low64_bits
range_complete p v hp h = equal-enforce _ v (
    omega (
      arith,
      recompose_lem p 64 0 (λ i. v % 2 ^ 64 / 2 ^ i % 2 == 1) 0 1 (omega arith) (omega arith),
      bits_value-low 64 0 (v % 2 ^ 64),
    ))

-- Over a modulus of at least 2^66, some assignment of the bits satisfies the range gadget at a value
-- exactly when the value is below 2^64.
pub range_exact :
    (p v : ℕ)
    → 2 ^ 66 ≤ p
    → ((bits : ℕ → Bool) × (enforce_u64_range p bits v ≡ ok tt)) ↔ (v < 2 ^ 64)
range_exact p v hp =
    ((λ s. range_sound p s.0 v hp s.1), (λ h. (low64_bits v, range_complete p v hp h)))
