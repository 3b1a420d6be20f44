-- ===== src/Adapter/Values/Sort.antt =====
-- `pairs.sort_unstable()` of `hash_value` in nns_adapter/src/lib.rs, as an insertion sort: equal pairs
-- are indistinguishable.
use shielded_ledger_hivemind.Common.{Bool, true, false, List, [], ◌∷◌, ltb, if◌then◌else◌}
use shielded_ledger_hivemind.Adapter.Legacy.Messages.{Bytes}

-- -1, 0, 1 of `cmp` on byte strings.
pub data Comparison : Type 0 where
  less equal greater : Comparison

unfoldable pub compare_bytes : Bytes → Bytes → Comparison
compare_bytes [] [] = Comparison.equal
compare_bytes [] (y ∷ ys) = Comparison.less
compare_bytes (x ∷ xs) [] = Comparison.greater
compare_bytes (x ∷ xs) (y ∷ ys) =
    if ltb x y
    then Comparison.less
    else (if ltb y x then Comparison.greater else compare_bytes xs ys)

-- The order of pairs: the values decide where the keys are equal.
unfoldable pub pair_le : Bytes × Bytes → Bytes × Bytes → Bool
unfolding compare_bytes
pair_le (k, v) (l, w) = elim (compare_bytes k l) [
  | Comparison.less ↦ true
  | Comparison.greater ↦ false
  | Comparison.equal ↦ elim (compare_bytes v w) [ Comparison.greater ↦ false | _ ↦ true ]
]

unfoldable pub insert : Bytes × Bytes → List (Bytes × Bytes) → List (Bytes × Bytes)
unfolding pair_le
insert p [] = p ∷ []
insert p (q ∷ qs) = if pair_le p q then p ∷ q ∷ qs else q ∷ insert p qs

unfoldable pub sort_pairs : List (Bytes × Bytes) → List (Bytes × Bytes)
unfolding insert
sort_pairs [] = []
sort_pairs (p ∷ ps) = insert p (sort_pairs ps)
