-- ===== src/Soak/Pir/Shards.antt =====
-- What a shard of soak/src/pir2.rs holds after its records are appended, and the client's hint.
use native.Mathlib.Decide.{ℕ_discrete, dec_lt}
use shielded_ledger_hivemind.Common.{
  ℕ, zero, suc, ◌+◌, ◌-◌, ◌*◌, ◌≤◌, ◌<◌, ◌≡◌, ◌≢◌, ◌⊎◌, inl, inr, refl, ap, ◌∙◌, arith, List, [],
  ◌∷◌, ◌++◌, length, replicate, get_or, length-append, get_or-beyond,
}
use shielded_ledger_hivemind.Adapter.Legacy.Messages.{Bytes}
use shielded_ledger_hivemind.Soak.Pir.{
  lwe_n, record_bytes, Geometry, place, a_row, fold_record, a_blocks, a_domain, block_words,
  wrapping_add, wrapping_mul,
}
use shielded_ledger_hivemind.Soak.Scan.{u64_le}
use shielded_ledger_hivemind.Soak.Pir.Server.{Shard, shard_new}
use shielded_ledger_hivemind.Soak.Pir.Sums.{
  sum_range, SameWord, sum_range_cong, sum_range_zero, sum_range_at,
}
use shielded_ledger_hivemind.Soak.Pir.Vectors.{fold_record_outside, fold_record_inside}
use shielded_ledger_hivemind.Soak.Pir.Places.{
  Fits, length-replicate, get_or-replicate, get_or-append_right, get_or-append_outside,
  place_offset, place_row, place_column, other_column,
}

abbrev pub IsRecord : Bytes → Type 0
IsRecord cells = length cells ≡ record_bytes

abbrev pub concat : List Bytes → Bytes
concat [] = []
concat (r ∷ records) = r ++ concat records

length-block_words : (k : ℕ) (block : Bytes) (w : ℕ) → length (block_words k block w) ≡ k
unfolding block_words
length-block_words zero block w = refl
length-block_words (suc k) block w = omega (arith, length-block_words k block (w + 1))

module _ (sha256 : Bytes → Bytes) where
  length-a_blocks : (n shard c k : ℕ) → length (a_blocks sha256 n shard c k) ≡ 8 * n
  unfolding a_blocks
  length-a_blocks zero shard c k = refl
  length-a_blocks (suc n) shard c k =
      let block = sha256 (a_domain ++ (u64_le shard ++ (u64_le c ++ u64_le k))) in
      omega (
        arith,
        length-append (block_words 8 block 0) (a_blocks sha256 n shard c (k + 1)),
        length-block_words 8 block 0,
        length-a_blocks n shard c (k + 1),
      )

  pub length-a_row : (shard c : ℕ) → length (a_row sha256 shard c) ≡ lwe_n
  unfolding a_row
  length-a_row shard c = length-a_blocks 144 shard c 0

  abbrev pub entry : ℕ → ℕ → ℕ → ℕ
  entry shard c j = get_or (a_row sha256 shard c) j 0

  -- Row `r` and column `j` of the product of the database with A.
  abbrev pub product : Geometry → ℕ → Bytes → ℕ → ℕ → ℕ
  product g index cells r j =
      sum_range 0 g.m_cols (λ c. get_or cells (c * g.m_rows + r) 0 * entry index c j)

  -- A shard with the given cells: they are its database, and the hint is its product with A.
  pub record Holds (cells : Bytes) (s : Shard) : Type 0 where
    pub fits : Fits s.geometry
    pub size : length cells ≡ record_bytes * s.fill
    pub within : s.fill ≤ s.geometry.shard_size
    pub database : s.d ≡ cells ++ replicate (s.geometry.m_rows * s.geometry.m_cols - length cells) 0
    pub hint_size : length s.h ≡ s.geometry.m_rows * lwe_n
    pub hint :
        (r j : ℕ)
        → r < s.geometry.m_rows
        → j < lwe_n
        → SameWord (get_or s.h (r * lwe_n + j) 0) (product s.geometry s.index cells r j)

  pub shard_new-Holds : (index : ℕ) (g : Geometry) → Fits g → Holds [] (shard_new index g)
  unfolding shard_new
  shard_new-Holds index g f = record {
    fits = f;
    size = refl;
    within = omega arith;
    database =
        let room : g.m_rows * g.m_cols ≡ g.m_rows * g.m_cols - 0 = omega arith in
        ap (λ n. replicate n 0) room;
    hint_size = length-replicate (g.m_rows * lwe_n) 0;
    hint = λ r j lr lj.
        let empty : product g index [] r j ≡ 0 =
          sum_range_zero 0 g.m_cols _ (λ c lo hi. grind arith) in
        let unset : get_or (replicate (g.m_rows * lwe_n) 0) (r * lwe_n + j) 0 ≡ 0 =
          get_or-replicate (g.m_rows * lwe_n) (r * lwe_n + j) in
        omega arith;
  }

  inside_or_outside :
      (r r0 : ℕ)
      → ((k : ℕ) × (k < record_bytes) × (r ≡ r0 + k)) ⊎ ((r < r0) ⊎ (r0 + record_bytes ≤ r))
  inside_or_outside r r0 = elim (dec_lt r r0) [
    | yes above ↦ inr (inl above)
    | no reached ↦ elim (dec_lt r (r0 + record_bytes)) [
      | yes inside ↦ inl (r - r0, omega arith, omega arith)
      | no below ↦ inr (inr (omega arith))
    ]
  ]

  ne_outside : (r r0 k : ℕ) → (r < r0) ⊎ (r0 + record_bytes ≤ r) → k < record_bytes → r ≢ r0 + k
  ne_outside r r0 k (inl above) lk e = omega arith
  ne_outside r r0 k (inr below) lk e = omega arith

  module _ (g : Geometry) (f : Fits g) (index fill : ℕ) (cells new : Bytes)
      (size : length cells ≡ record_bytes * fill) (len : IsRecord new) where
    other_cells :
        (c r : ℕ)
        → r < g.m_rows
        → (c ≢ (place g fill).0) ⊎ ((r < (place g fill).1) ⊎ ((place g fill).1 + record_bytes ≤ r))
        → get_or (cells ++ new) (c * g.m_rows + r) 0 ≡ get_or cells (c * g.m_rows + r) 0
    other_cells c r lr away = get_or-append_outside cells new (c * g.m_rows + r) (elim away [
      | inl ne ↦ elim (other_column g f fill c r ne lr) [
        | inl before ↦ inl (omega arith)
        | inr behind ↦ inr (omega arith)
      ]
      | inr outside ↦ elim (ℕ_discrete c (place g fill).0) [
        | no ne ↦ elim (other_column g f fill c r ne lr) [
          | inl before ↦ inl (omega arith)
          | inr behind ↦ inr (omega arith)
        ]
        | yes e ↦
            let same : c * g.m_rows ≡ (place g fill).0 * g.m_rows = ap (λ i. i * g.m_rows) e in
            elim outside [
              | inl above ↦ inl (omega (arith, place_offset g f fill))
              | inr below ↦ inr (omega (arith, place_offset g f fill))
            ]
      ]
    ])

    -- The cell of the new record in its row.
    new_cell :
        (k : ℕ)
        → k < record_bytes
        → (get_or (cells ++ new) ((place g fill).0 * g.m_rows + ((place g fill).1 + k)) 0
            ≡ get_or new k 0)
          × (get_or cells ((place g fill).0 * g.m_rows + ((place g fill).1 + k)) 0 ≡ 0)
    new_cell k lk =
        let at : (place g fill).0 * g.m_rows + ((place g fill).1 + k) ≡ length cells + k =
          omega (arith, place_offset g f fill) in
        (
          ap (λ i. get_or (cells ++ new) i 0) at ∙ get_or-append_right cells new k,
          get_or-beyond cells _ 0 (omega arith),
        )

    pub fold_record-product :
        (h : List ℕ) (r j : ℕ)
        → fill < g.shard_size
        → length h ≡ g.m_rows * lwe_n
        → r < g.m_rows
        → j < lwe_n
        → SameWord (get_or h (r * lwe_n + j) 0) (product g index cells r j)
        → SameWord
            (get_or
              (fold_record (a_row sha256 index (place g fill).0) (place g fill).1 new h)
              (r * lwe_n + j)
              0)
            (product g index (cells ++ new) r j)
    fold_record-product h r j room hs lr lj before =
        let a = a_row sha256 index (place g fill).0 in
        let r0 = (place g fill).1 in
        elim (inside_or_outside r r0) [
          | inr outside ↦
              let kept =
                fold_record_outside a r0 new h r j (length-a_row index (place g fill).0) lj
                  (λ k lk. ne_outside r r0 k outside (omega arith)) in
              let same : product g index (cells ++ new) r j ≡ product g index cells r j =
                sum_range_cong 0 g.m_cols _ _
                  (λ c lo hi. ap (λ x. x * entry index c j) (other_cells c r lr (inr outside))) in
              omega arith
          | inl (k, lk, e) ↦
              let changed =
                fold_record_inside a r0 new h k j (length-a_row index (place g fill).0) lj
                  (omega arith) (omega (arith, place_row g f fill)) in
              let moved : get_or (fold_record a r0 new h) (r * lwe_n + j) 0
                  ≡ wrapping_add (get_or h (r * lwe_n + j) 0)
                      (wrapping_mul (get_or new k 0) (get_or a j 0)) =
                rw e changed in
              let grown : product g index (cells ++ new) r j
                  ≡ product g index cells r j + get_or new k 0 * get_or a j 0 =
                sum_range_at 0 g.m_cols _ _ (place g fill).0 _ (omega arith)
                  (omega (arith, place_column g f fill room)) (rw e (grind (arith, new_cell k lk)))
                  (λ c ne. ap (λ x. x * entry index c j) (other_cells c r lr (inl ne))) in
              omega arith
        ]
