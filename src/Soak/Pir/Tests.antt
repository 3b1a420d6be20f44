-- ===== src/Soak/Pir/Tests.antt =====
-- The theorems on soak/src/pir2.rs at a shard of three records, and runs of the definitions.
use shielded_ledger_hivemind.Common.{
  ℕ, zero, suc, ◌+◌, ◌-◌, ◌*◌, ◌%◌, ◌^◌, ◌≤◌, ◌<◌, ◌≡◌, refl, arith, List, [], ◌∷◌, ◌++◌, length,
  none, replicate, get_or, All, All-append, some, inr, ◌⊎◌,
}
use shielded_ledger_hivemind.Adapter.Legacy.Messages.{Bytes}
use shielded_ledger_hivemind.Soak.Scan.RoundTrip.{IsByte}
use shielded_ledger_hivemind.Soak.Pir.{Geometry, for_shard_size, isqrt, newton, pinned_rows, lwe_n}
use shielded_ledger_hivemind.Soak.Pir.Server.{
  Shard, shard_new, answer, answer_stripes, answer_stripe, answer_columns, add_column, add_words,
}
use shielded_ledger_hivemind.Soak.Pir.Client.{build_query, decrypt_record, client_new}
use shielded_ledger_hivemind.Soak.Pir.Wire.{to_wire, from_wire, stream_absorb}
use shielded_ledger_hivemind.Soak.Pir.Shards.{concat, product}
use shielded_ledger_hivemind.Soak.Pir.Appended.{append_all, absorb_all}
use shielded_ledger_hivemind.Soak.Pir.Sums.{SameWord}
use shielded_ledger_hivemind.Soak.Pir.Hints.{absorb_all-append_all}
use shielded_ledger_hivemind.Soak.Pir.RoundTrip.{decrypt_record-answer}
use shielded_ledger_hivemind.Soak.Pir.Noise.{IsNear, IsNear-IsQuiet}
use shielded_ledger_hivemind.Soak.Pir.Widths.{answer_widths}
use shielded_ledger_hivemind.Soak.Pir.Streams.{
  Collides, stream_all, from_wire-to_wire, stream_all-binds,
}
use shielded_ledger_hivemind.Soak.Pir.Sized.{isqrt-floor}

abbrev digest : Bytes → Bytes
digest bytes = replicate 32 (length bytes % 251)

abbrev small : Geometry
small = record { shard_size = 3; records_per_column = 1; m_rows = 288; m_cols = 3 }

small_made : for_shard_size 3 ≡ some small
unfolding for_shard_size isqrt newton
small_made = refl

default_made :
    for_shard_size (2 ^ 20)
    ≡ some (record { shard_size = 2 ^ 20; records_per_column = 60; m_rows = 17280; m_cols = 17477 })
unfolding for_shard_size isqrt newton
default_made = refl

rows_of_partial : pinned_rows (record small { records_per_column = 2; m_rows = 576 }) 3 1 ≡ 288
unfolding pinned_rows
rows_of_partial = refl

abbrev before : List Bytes
before = replicate 288 7 ∷ replicate 288 255 ∷ []

abbrev after : List Bytes
after = replicate 288 9 ∷ []

replicate-All : (n x : ℕ) → x < 256 → All IsByte (replicate n x)
replicate-All zero x h = tt
replicate-All (suc n) x h = (h, replicate-All n x h)

before_bytes : All (All IsByte) before
before_bytes = (replicate-All 288 7 (omega arith), (replicate-All 288 255 (omega arith), tt))

abbrev noisy : ℕ → ℕ
noisy c = 2 ^ 32 - 40

noisy-IsNear : (c : ℕ) → IsNear 40 (noisy c)
noisy-IsNear c = inr (40, omega arith, refl)

cells_bytes : All IsByte (concat before)
cells_bytes =
    All-append IsByte (replicate 288 7) (replicate 288 255 ++ [])
      (replicate-All 288 7 (omega arith))
      (All-append IsByte (replicate 288 255) [] (replicate-All 288 255 (omega arith)) tt)

decrypt_record-answer_example :
    (pinned : Shard) × (grown : Shard) × (append_all digest (shard_new 5 small) before
      ≡ some pinned)
    × (append_all digest pinned after ≡ some grown)
    × ((qu : List ℕ) × (ans : List ℕ) × (build_query digest 5 small 2 1 (replicate lwe_n 3) noisy
          ≡ some qu)
        × (answer grown 2 1 qu ≡ some ans)
        × (decrypt_record ans pinned.h 288 0 (replicate lwe_n 3) ≡ some (replicate 288 255)))
decrypt_record-answer_example =
    decrypt_record-answer digest 3 5 small before after 1 1 (replicate lwe_n 3) noisy small_made
      (refl, (refl, tt)) before_bytes (refl, tt) (omega arith) (omega arith) (omega arith) refl
      (IsNear-IsQuiet small before noisy 40 cells_bytes noisy-IsNear (omega arith))

answer_widths_example :
    (s : Shard) × (append_all digest (shard_new 5 small) before ≡ some s)
    × ((ans : List ℕ) × (answer s 2 2 (6 ∷ 7 ∷ []) ≡ some ans)
        × (answer s 2 1 (6 ∷ 7 ∷ []) ≡ some ans)
        × (length ans ≡ 288))
answer_widths_example =
    answer_widths digest 3 5 small before 2 (6 ∷ 7 ∷ []) 2 1 small_made (refl, (refl, tt))
      (omega arith) (omega arith) refl (omega arith) (omega arith)

isqrt-floor_example :
    ((864 + 1 < 2 ^ 64)
      × ((r : ℕ) × (isqrt 864 ≡ some r) × (r * r ≤ 864) × (864 < (r + 1) * (r + 1))))
    ⊎ ((864 ≡ 2 ^ 64 - 1) × (isqrt 864 ≡ none))
isqrt-floor_example = isqrt-floor 864 (omega arith)

isqrt_run : isqrt 864 ≡ some 29
unfolding isqrt newton
isqrt_run = refl

isqrt_overflow : isqrt (2 ^ 64 - 1) ≡ none
unfolding isqrt newton
isqrt_overflow = refl

-- The source panics on a shard with too few cells.
short_shard_run :
    answer
      (record { geometry = small; index = 0; fill = 3; d = 4 ∷ 5 ∷ []; h = [] })
      3
      2
      (6 ∷ 7 ∷ 8 ∷ [])
    ≡ none
unfolding answer answer_stripes answer_stripe answer_columns add_column pinned_rows add_words
short_shard_run = refl

from_wire-to_wire_example :
    (from_wire (to_wire (1 ∷ 0xdeadbeef ∷ [])) ≡ some (1 ∷ 0xdeadbeef ∷ []))
    × (length (to_wire (1 ∷ 0xdeadbeef ∷ [])) ≡ 8)
from_wire-to_wire_example = from_wire-to_wire (1 ∷ 0xdeadbeef ∷ []) (omega arith, (omega arith, tt))

abbrev stream1 : List Bytes
stream1 = (1 ∷ 2 ∷ []) ∷ []

abbrev stream2 : List Bytes
stream2 = (3 ∷ 4 ∷ []) ∷ []

-- This digest sees only the length of a text, so the second case holds.
stream_all-binds_example : (stream1 ≡ stream2) ⊎ Collides digest
unfolding stream_all stream_absorb
stream_all-binds_example = stream_all-binds digest (λ x. refl) stream1 stream2 refl refl

absorb_all-append_all_example :
    (t : Shard) × (append_all digest (shard_new 5 small) before ≡ some t)
    × ((absorb_all digest (client_new 5 small) before).h ≡ t.h)
    × SameWord (get_or t.h (287 * lwe_n + 4) 0) (product digest small 5 (concat before) 287 4)
absorb_all-append_all_example =
    absorb_all-append_all digest 3 5 small before 287 4 small_made (refl, (refl, tt)) (omega arith)
      (omega arith) (omega arith)
