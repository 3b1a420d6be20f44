-- ===== src/Soak/Pir/Dots.antt =====
-- The inner products and the queries of soak/src/pir2.rs.
use shielded_ledger_hivemind.Common.{
  ℕ, zero, suc, ◌+◌, ◌*◌, ◌%◌, ◌^◌, ◌<◌, ◌≡◌, refl, sym, ap, ◌∙◌, arith, List, [], ◌∷◌, length,
  get_or, ◌==◌, ==_iff, lt→ltb, some, if◌then◌else◌, Bool-cases, inl, inr,
}
use shielded_ledger_hivemind.Adapter.Legacy.Messages.{Bytes}
use shielded_ledger_hivemind.Soak.Pir.{
  lwe_n, delta, Geometry, pinned_columns, wrapping_add, wrapping_mul, a_row,
}
use shielded_ledger_hivemind.Soak.Pir.Client.{dot, hint_dot, query_columns, build_query}
use shielded_ledger_hivemind.Soak.Pir.Sums.{sum_range, SameWord, sum_range_bounds}
use shielded_ledger_hivemind.Soak.Pir.Shards.{entry, length-a_row}

sum_range_shift : (c k : ℕ) (f : ℕ → ℕ) → sum_range (c + 1) k f ≡ sum_range c k (λ i. f (suc i))
unfolding sum_range
sum_range_shift c zero f = refl
sum_range_shift c (suc k) f =
    let at : f (c + 1) ≡ f (suc c) = ap f (omega arith) in
    omega (arith, sum_range_shift (c + 1) k f)

dot_lem :
    (acc x : ℕ) (a secret : List ℕ)
    → length a ≡ length secret
    → acc ≡ x % 2 ^ 32
    → dot acc a secret
      ≡ (x + sum_range 0 (length a) (λ j. get_or a j 0 * get_or secret j 0)) % 2 ^ 32
unfolding dot sum_range
dot_lem acc x [] secret len e = omega arith
dot_lem acc x (aj ∷ a) [] len e = absurd (omega arith)
dot_lem acc x (aj ∷ a) (sj ∷ secret) len e =
    let rest =
      dot_lem (wrapping_add acc (wrapping_mul aj sj)) (x + aj * sj) a secret (omega arith)
        (omega arith) in
    let shift =
      sum_range_shift 0 (length a) (λ j. get_or (aj ∷ a) j 0 * get_or (sj ∷ secret) j 0) in
    omega arith

pub hint_dot_lem :
    (hint : List ℕ) (base : ℕ) (secret : List ℕ) (k j acc x : ℕ)
    → acc ≡ x % 2 ^ 32
    → hint_dot hint base secret k j acc
      ≡ (x + sum_range j k (λ i. get_or hint (base + i) 0 * get_or secret i 0)) % 2 ^ 32
unfolding hint_dot sum_range
hint_dot_lem hint base secret zero j acc x e = omega arith
hint_dot_lem hint base secret (suc k) j acc x e =
    let t = get_or hint (base + j) 0 * get_or secret j 0 in
    let rest =
      hint_dot_lem hint base secret k (j + 1)
        (wrapping_add acc (wrapping_mul (get_or hint (base + j) 0) (get_or secret j 0))) (x + t)
        (omega arith) in
    omega arith

word_cases :
    (c c_star d m e : ℕ)
    → d ≡ m % 2 ^ 32
    → SameWord
        (if c == c_star then wrapping_add (wrapping_add d e) delta else wrapping_add d e)
        (m + e + (if c == c_star then delta else 0))
word_cases c c_star d m e h = elim (Bool-cases (c == c_star)) [
  | inl at ↦ rw at (omega arith)
  | inr away ↦ rw away (omega arith)
]

-- The inner product of a row of A with the secret.
abbrev pub masked : (Bytes → Bytes) → ℕ → List ℕ → ℕ → ℕ
masked sha256 shard secret c = sum_range 0 lwe_n (λ j. entry sha256 shard c j * get_or secret j 0)

abbrev pub at_target : ℕ → ℕ → ℕ
at_target c_star c = if c == c_star then delta else 0

module _ (sha256 : Bytes → Bytes) (shard c_star : ℕ) (error : ℕ → ℕ) (secret : List ℕ) where
  dot-masked :
      (c : ℕ)
      → length secret ≡ lwe_n
      → dot 0 (a_row sha256 shard c) secret ≡ masked sha256 shard secret c % 2 ^ 32
  dot-masked c len =
      let a = a_row sha256 shard c in
      let size = length-a_row sha256 shard c in
      let bounds =
        sum_range_bounds 0 0 (length a) lwe_n (λ j. get_or a j 0 * get_or secret j 0) refl size in
      omega (arith, dot_lem 0 0 a secret (size ∙ sym len) refl)

  length-query_columns : (k c : ℕ) → length (query_columns sha256 shard c_star error secret k c) ≡ k
  unfolding query_columns
  length-query_columns zero c = refl
  length-query_columns (suc k) c = omega (arith, length-query_columns k (c + 1))

  get_or-query_columns :
      (k c i : ℕ)
      → length secret ≡ lwe_n
      → i < k
      → SameWord
          (get_or (query_columns sha256 shard c_star error secret k c) i 0)
          (masked sha256 shard secret (c + i) + error (c + i) + at_target c_star (c + i))
  unfolding query_columns
  get_or-query_columns zero c i len lt = absurd (omega arith)
  get_or-query_columns (suc k) c zero len lt =
      let e : c ≡ c + zero = omega arith in
      word_cases c c_star (dot 0 (a_row sha256 shard c) secret) (masked sha256 shard secret c)
        (error c) (dot-masked c len)
      ∙ ap (λ i. (masked sha256 shard secret i + error i + at_target c_star i) % 2 ^ 32) e
  get_or-query_columns (suc k) c (suc i) len lt =
      let e : c + 1 + i ≡ c + suc i = omega arith in
      get_or-query_columns k (c + 1) i len (omega arith)
      ∙ ap (λ i. (masked sha256 shard secret i + error i + at_target c_star i) % 2 ^ 32) e

  pub build_query-words :
      (g : Geometry) (fill : ℕ)
      → length secret ≡ lwe_n
      → c_star < pinned_columns g fill
      → (qu : List ℕ) × (build_query sha256 shard g fill c_star secret error ≡ some qu)
        × (length qu ≡ pinned_columns g fill)
        × ((c : ℕ)
            → c < pinned_columns g fill
            → SameWord
                (get_or qu c 0)
                (masked sha256 shard secret c + error c + at_target c_star c))
  unfolding build_query
  build_query-words g fill len lt = (
    query_columns sha256 shard c_star error secret (pinned_columns g fill) 0,
    rw ((==_iff (length secret) lwe_n).1 len, lt→ltb c_star (pinned_columns g fill) lt) refl,
    length-query_columns (pinned_columns g fill) 0,
    λ c below.
        let e : 0 + c ≡ c = omega arith in
        get_or-query_columns (pinned_columns g fill) 0 c len below
        ∙ ap (λ i. (masked sha256 shard secret i + error i + at_target c_star i) % 2 ^ 32) e,
  )
