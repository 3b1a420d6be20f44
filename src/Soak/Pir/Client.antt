-- ===== src/Soak/Pir/Client.antt =====
-- The client of soak/src/pir2.rs: its hint, queries and decryption.
use shielded_ledger_hivemind.Common.{
  ℕ, zero, suc, ◌+◌, ◌*◌, ◌/◌, ◌%◌, ◌^◌, Option, none, some, List, [], ◌∷◌, length, replicate,
  get_or, ltb, ◌==◌, ◌&&◌, if◌then◌else◌,
}
use shielded_ledger_hivemind.Adapter.Legacy.Messages.{Bytes}
use shielded_ledger_hivemind.Soak.Pir.{
  lwe_n, delta, record_bytes, wrapping_add, wrapping_mul, wrapping_sub, Geometry, place,
  pinned_columns, fold_record, a_row,
}

pub record ClientHint : Type 0 where
  pub geometry : Geometry
  pub shard : ℕ
  pub fill : ℕ
  pub h : List ℕ

unfoldable pub client_new : ℕ → Geometry → ClientHint
client_new shard geometry = record {
  geometry = geometry;
  shard = shard;
  fill = 0;
  h = replicate (geometry.m_rows * lwe_n) 0;
}

-- The loop of the inner product in `build_query`.
unfoldable pub dot : ℕ → List ℕ → List ℕ → ℕ
dot acc [] secret = acc
dot acc (aj ∷ a) [] = acc
dot acc (aj ∷ a) (sj ∷ secret) = dot (wrapping_add acc (wrapping_mul aj sj)) a secret

-- The inner product of a row of the hint with the secret, over the given number of columns from `j` on.
unfoldable pub hint_dot : List ℕ → ℕ → List ℕ → ℕ → ℕ → ℕ → ℕ
hint_dot hint base secret zero j acc = acc
hint_dot hint base secret (suc k) j acc =
    hint_dot hint base secret k (j + 1)
      (wrapping_add acc (wrapping_mul (get_or hint (base + j) 0) (get_or secret j 0)))

unfoldable pub decrypt_cell : List ℕ → List ℕ → List ℕ → ℕ → ℕ
unfolding hint_dot
decrypt_cell ans hint secret r =
    let phase = wrapping_sub (get_or ans r 0) (hint_dot hint (r * lwe_n) secret lwe_n 0 0) in
    wrapping_add phase (delta / 2) / 2 ^ 24 % 256

-- The cells from row `r` on.
unfoldable pub decrypt_cells : List ℕ → List ℕ → List ℕ → ℕ → ℕ → Bytes
unfolding decrypt_cell
decrypt_cells ans hint secret zero r = []
decrypt_cells ans hint secret (suc k) r =
    decrypt_cell ans hint secret r ∷ decrypt_cells ans hint secret k (r + 1)

-- `none` is a failed assertion.
unfoldable pub decrypt_record : List ℕ → List ℕ → ℕ → ℕ → List ℕ → Option Bytes
decrypt_record ans hint m_rows r0 secret =
    if length ans == m_rows && length hint == m_rows * lwe_n
    then some (decrypt_cells ans hint secret record_bytes r0)
    else none

-- The draws of `keygen` from a source of numbers.
unfoldable pub draws : ℕ → (ℕ → ℕ) → ℕ → List ℕ
draws zero next_u32 i = []
draws (suc k) next_u32 i = next_u32 i ∷ draws k next_u32 (i + 1)

unfoldable pub keygen : (ℕ → ℕ) → List ℕ
unfolding draws
keygen next_u32 = draws lwe_n next_u32 0

module _ (sha256 : Bytes → Bytes) where
  unfoldable pub absorb : ClientHint → Bytes → ClientHint
  unfolding a_row fold_record
  absorb s cells =
      let (c, r0) = place s.geometry s.fill in
      record s { h = fold_record (a_row sha256 s.shard c) r0 cells s.h; fill = s.fill + 1 }

  -- The loop of `build_query`, over the given number of columns from `c` on. The noise of column `c`,
  -- which `gaussian_error` draws by floating-point arithmetic, is an argument.
  unfoldable pub query_columns : ℕ → ℕ → (ℕ → ℕ) → List ℕ → ℕ → ℕ → List ℕ
  unfolding a_row dot
  query_columns shard c_star error secret zero c = []
  query_columns shard c_star error secret (suc k) c =
      let value = wrapping_add (dot 0 (a_row sha256 shard c) secret) (error c) in
      (if c == c_star then wrapping_add value delta else value)
      ∷ query_columns shard c_star error secret k (c + 1)

  -- `none` is a failed assertion.
  unfoldable pub build_query : ℕ → Geometry → ℕ → ℕ → List ℕ → (ℕ → ℕ) → Option (List ℕ)
  unfolding query_columns
  build_query shard g fill c_star secret error =
      if length secret == lwe_n && ltb c_star (pinned_columns g fill)
      then some (query_columns shard c_star error secret (pinned_columns g fill) 0)
      else none
