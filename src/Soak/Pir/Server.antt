-- ===== src/Soak/Pir/Server.antt =====
-- The shards of soak/src/pir2.rs and their answers.
use mathlib.Core.Option
use shielded_ledger_hivemind.Common.{
  min, ℕ, zero, suc, ◌+◌, ◌-◌, ◌*◌, Option, none, some, List, [], ◌∷◌, length, replicate, get_elem?,
  set, ltb, leb, ◌==◌, ◌&&◌, if◌then◌else◌,
}
use shielded_ledger_hivemind.Adapter.Legacy.Messages.{Bytes}
use shielded_ledger_hivemind.Soak.Pir.{
  lwe_n, wrapping_add, wrapping_mul, div_ceil, Geometry, at_least_one, place, pinned_columns,
  pinned_rows, fold_record, a_row,
}

-- `copy_from_slice` at an offset.
unfoldable pub write_at : ℕ → List ℕ → List ℕ → List ℕ
write_at base [] cells = cells
write_at base (x ∷ xs) cells = write_at (base + 1) xs (set cells base x)

-- One column of the database times one word of the query, over the first rows. `none` is an index out
-- of bounds.
unfoldable pub add_column : List ℕ → ℕ → ℕ → ℕ → List ℕ → Option (List ℕ)
add_column d base q zero ans = some ans
add_column d base q (suc rows) [] = none
add_column d base q (suc rows) (x ∷ ans) = elim (get_elem? d base) [
  | none ↦ none
  | some cell ↦
      Option.map (λ (rest : List ℕ). wrapping_add x (wrapping_mul cell q) ∷ rest)
        (add_column d (base + 1) q rows ans)
]

pub record Shard : Type 0 where
  pub geometry : Geometry
  pub index : ℕ
  pub fill : ℕ
  pub d : List ℕ
  pub h : List ℕ

unfoldable pub shard_new : ℕ → Geometry → Shard
shard_new index geometry = record {
  geometry = geometry;
  index = index;
  fill = 0;
  d = replicate (geometry.m_rows * geometry.m_cols) 0;
  h = replicate (geometry.m_rows * lwe_n) 0;
}

-- The loop of `answer_stripe`, over the given number of columns from `c` on.
unfoldable pub answer_columns : Shard → ℕ → List ℕ → ℕ → ℕ → List ℕ → Option (List ℕ)
unfolding add_column pinned_rows
answer_columns s fill qu zero c ans = some ans
answer_columns s fill qu (suc k) c ans = elim (get_elem? qu c) [
  | none ↦ none
  | some q_c ↦
      elim (add_column s.d (c * s.geometry.m_rows) q_c (pinned_rows s.geometry fill c) ans) [
        | none ↦ none
        | some next ↦ answer_columns s fill qu k (c + 1) next
      ]
]

-- `none` is a failed assertion or an index out of bounds.
unfoldable pub answer_stripe : Shard → ℕ → ℕ → ℕ → List ℕ → Option (List ℕ)
unfolding answer_columns
answer_stripe s fill stripe k_cols qu =
    let cols = pinned_columns s.geometry fill in
    let start = stripe * k_cols in
    if leb fill s.fill && length qu == cols
    then answer_columns s fill qu (min (start + k_cols) cols - start) start
        (replicate s.geometry.m_rows 0)
    else none

unfoldable pub add_words : List ℕ → List ℕ → List ℕ
add_words [] part = []
add_words (t ∷ total) [] = t ∷ total
add_words (t ∷ total) (p ∷ part) = wrapping_add t p ∷ add_words total part

-- The loop of `answer`, over the given number of stripes from `stripe` on.
unfoldable pub answer_stripes : Shard → ℕ → ℕ → List ℕ → ℕ → ℕ → List ℕ → Option (List ℕ)
unfolding answer_stripe add_words
answer_stripes s fill k_cols qu zero stripe total = some total
answer_stripes s fill k_cols qu (suc n) stripe total =
    elim (answer_stripe s fill stripe k_cols qu) [
      | none ↦ none
      | some part ↦ answer_stripes s fill k_cols qu n (stripe + 1) (add_words total part)
    ]

unfoldable pub answer : Shard → ℕ → ℕ → List ℕ → Option (List ℕ)
unfolding answer_stripes
answer s fill k_cols qu =
    answer_stripes s fill k_cols qu
      (div_ceil (pinned_columns s.geometry fill) (at_least_one k_cols)) 0
      (replicate s.geometry.m_rows 0)

module _ (sha256 : Bytes → Bytes) where
  -- `none` is the failed assertion.
  unfoldable pub append : Shard → Bytes → Option Shard
  unfolding a_row write_at fold_record
  append s cells =
      let (c, r0) = place s.geometry s.fill in
      if ltb s.fill s.geometry.shard_size
      then some (record s {
        d = write_at (c * s.geometry.m_rows + r0) cells s.d;
        h = fold_record (a_row sha256 s.index c) r0 cells s.h;
        fill = s.fill + 1;
      })
      else none
