-- ===== src/Soak/Pir.antt =====
-- The private information retrieval scheme of soak/src/pir2.rs.
-- A u32 is a number with its wrap-around written out. The vectors are flat, as in the source: column
-- `c` of the database at `c * m_rows`, row `r` of the hint at `r * lwe_n`.
pub mod Server
pub mod Client
pub mod Wire
pub mod Sums
pub mod Vectors
pub mod Places
pub mod Shards
pub mod Appended
pub mod Stripes
pub mod Answers
pub mod Inside
pub mod Dots
pub mod Rows
pub mod Decrypt
pub mod Retrieve
pub mod Sized
pub mod RoundTrip
pub mod Noise
pub mod Widths
pub mod Streams
pub mod Hints
mod Tests
use shielded_ledger_hivemind.Common.{
  ℕ, zero, suc, ◌+◌, ◌-◌, ◌*◌, ◌/◌, ◌%◌, ◌^◌, true, false, Option, none, some, List, [], ◌∷◌, ◌++◌,
  length, take, drop, replicate, get_or, set, ltb, ◌==◌, if◌then◌else◌,
}
use shielded_ledger_hivemind.Adapter.Legacy.Messages.{Bytes}
use shielded_ledger_hivemind.Soak.Scan.{le_value, u64_le}

abbrev pub lwe_n : ℕ
lwe_n = 1152

abbrev pub delta : ℕ
delta = 2 ^ 24

abbrev pub record_bytes : ℕ
record_bytes = 288

abbrev pub commitment_bytes : ℕ
commitment_bytes = 32

abbrev pub envelope_bytes : ℕ
envelope_bytes = record_bytes - commitment_bytes

abbrev pub dpage : ℕ
dpage = 4096

abbrev pub a_domain : Bytes
a_domain =
    b'z' ∷ b'k' ∷ b'-' ∷ b'l' ∷ b'e' ∷ b'd' ∷ b'g' ∷ b'e' ∷ b'r' ∷ b'/' ∷ b'p' ∷ b'i' ∷ b'r' ∷ b'2'
    ∷ b'/' ∷ b'v' ∷ b'1' ∷ b'/' ∷ b'A' ∷ []

abbrev pub wrapping_add : ℕ → ℕ → ℕ
wrapping_add a b = (a + b) % 2 ^ 32

abbrev pub wrapping_mul : ℕ → ℕ → ℕ
wrapping_mul a b = a * b % 2 ^ 32

abbrev pub wrapping_sub : ℕ → ℕ → ℕ
wrapping_sub a b = (a + 2 ^ 32 - b) % 2 ^ 32

abbrev pub div_ceil : ℕ → ℕ → ℕ
div_ceil a b = if a % b == 0 then a / b else a / b + 1

pub record Geometry : Type 0 where
  pub shard_size : ℕ
  pub records_per_column : ℕ
  pub m_rows : ℕ
  pub m_cols : ℕ

-- The value of a `usize` operation; `none` is the panic of the overflow check.
abbrev pub in_usize : ℕ → Option ℕ
in_usize n = if ltb n (2 ^ 64) then some n else none

-- The loop of `isqrt`. Its `x` falls with every round, so `v` rounds are enough.
unfoldable pub newton : ℕ → ℕ → ℕ → ℕ → Option ℕ
newton zero v x y = some x
newton (suc fuel) v x y = elim (ltb y x) [
  | true ↦ elim (in_usize (y + v / y)) [ none ↦ none | some sum ↦ newton fuel v y (sum / 2) ]
  | false ↦ some x
]

unfoldable pub isqrt : ℕ → Option ℕ
unfolding newton
isqrt v =
    if ltb v 2
    then some v
    else elim (in_usize (v + 1)) [ none ↦ none | some sum ↦ newton v v v (sum / 2) ]

-- `max(1)`
abbrev pub at_least_one : ℕ → ℕ
at_least_one n = if n == 0 then 1 else n

-- The rest of `for_shard_size` from the root on, whose numbers stay below those checked before.
abbrev pub geometry_of : ℕ → ℕ → Geometry
geometry_of shard_size root =
    let rpc = at_least_one ((root + record_bytes / 2) / record_bytes) in
    record {
      shard_size = shard_size;
      records_per_column = rpc;
      m_rows = record_bytes * rpc;
      m_cols = div_ceil shard_size rpc;
    }

-- `none` is the failed assertion or an overflow.
unfoldable pub for_shard_size : ℕ → Option Geometry
unfolding isqrt
for_shard_size shard_size =
    if ltb 0 shard_size
    then elim (in_usize (shard_size * record_bytes)) [
      | none ↦ none
      | some cells ↦ elim (isqrt cells) [
        | none ↦ none
        | some root ↦ some (geometry_of shard_size root)
      ]
    ]
    else none

abbrev pub place : Geometry → ℕ → ℕ × ℕ
place g index = (index / g.records_per_column, record_bytes * (index % g.records_per_column))

abbrev pub pinned_columns : Geometry → ℕ → ℕ
pinned_columns g fill = div_ceil fill g.records_per_column

unfoldable pub pinned_rows : Geometry → ℕ → ℕ → ℕ
pinned_rows g fill c =
    let full_cols = fill / g.records_per_column in
    if ltb c full_cols
    then g.m_rows
    else if c == full_cols
    then record_bytes * (fill % g.records_per_column)
    else 0

-- The words of a block of 32 bytes from the w-th on.
unfoldable pub block_words : ℕ → Bytes → ℕ → List ℕ
unfolding le_value
block_words zero block w = []
block_words (suc k) block w = le_value (take 4 (drop (4 * w) block)) ∷ block_words k block (w + 1)

-- The inner loop of the hint's fold: a multiple of a row of A is added to a row of H.
unfoldable pub add_multiple : ℕ → List ℕ → ℕ → List ℕ → List ℕ
add_multiple cell [] base h = h
add_multiple cell (aj ∷ a) base h =
    add_multiple cell a (base + 1)
      (set h base (wrapping_add (get_or h base 0) (wrapping_mul cell aj)))

-- The fold of a record, whose first cell stands in a row, into the hint.
unfoldable pub fold_record : List ℕ → ℕ → Bytes → List ℕ → List ℕ
unfolding add_multiple
fold_record a row [] h = h
fold_record a row (cell ∷ cells) h =
    fold_record a (row + 1) cells (add_multiple cell a (row * lwe_n) h)

unfoldable pub pack_record : Bytes → Bytes → Bytes
pack_record commitment envelope =
    commitment ++ (take envelope_bytes envelope ++ replicate (envelope_bytes - length envelope) 0)

module _ (sha256 : Bytes → Bytes) where
  -- The blocks of `a_row` from the k-th on.
  unfoldable pub a_blocks : ℕ → ℕ → ℕ → ℕ → List ℕ
  unfolding block_words u64_le
  a_blocks zero shard c k = []
  a_blocks (suc n) shard c k =
      block_words 8 (sha256 (a_domain ++ (u64_le shard ++ (u64_le c ++ u64_le k)))) 0
      ++ a_blocks n shard c (k + 1)

  unfoldable pub a_row : ℕ → ℕ → List ℕ
  unfolding a_blocks
  a_row shard c = a_blocks (lwe_n / 8) shard c 0
