-- ===== src/Circuit/Tree/Agree.antt =====
-- `IncrementalTree` and `DenseTree` of circuit/common/src/lib.rs side by side.
use mathlib.Core.List.{append_assoc, append-nil}
use shielded_ledger_hivemind.Common.{
  ◌+◌, ◌≤◌, ◌≡◌, refl, sym, ap, ◌∙◌, arith, Option, some, none, List, [], ◌∷◌, ◌++◌, length,
  length-append,
}
use shielded_ledger_hivemind.Circuit.Hash.{Poseidon}
use shielded_ledger_hivemind.Circuit.Tree.{IncrementalTree, tree_capacity, new, append, root}
use shielded_ledger_hivemind.Circuit.Tree.Dense.{root-tree_root}
use shielded_ledger_hivemind.Circuit.Tree.Append.{Holds, new-Holds, append-Holds}

module _ {F S : Type 0} (P : Poseidon F S) where
  -- Appends in a row.
  pub append_all : IncrementalTree F → List F → Option (IncrementalTree F)
  append_all t [] = some t
  append_all t (leaf ∷ leaves) = elim (append P t leaf) [
    | none ↦ none
    | some (t', _) ↦ append_all t' leaves
  ]

  append_all-cons :
      (t u : IncrementalTree F) (leaf r : F) (leaves : List F)
      → append P t leaf ≡ some (u, r)
      → append_all t (leaf ∷ leaves) ≡ append_all u leaves
  unfolding append_all
  append_all-cons t u leaf r leaves e = rw (e, append_all)

  append_all-Holds :
      (leaves before : List F) (t : IncrementalTree F)
      → Holds P t before
      → length before + length leaves ≤ tree_capacity
      → (t' : IncrementalTree F) × (append_all t leaves ≡ some t') × Holds P t' (before ++ leaves)
  unfolding append_all
  append_all-Holds [] before t h fits = (t, refl, rw append-nil h)
  append_all-Holds (leaf ∷ leaves) before t h fits =
      let (u, step, hu) = append-Holds P t before leaf h (omega arith) in
      let (t', done, ht) =
        append_all-Holds leaves (before ++ (leaf ∷ [])) u hu
          (omega (arith, length-append before (leaf ∷ []))) in
      (t', append_all-cons t u leaf u.root leaves step ∙ done, rw append_assoc at ht)

  -- From the empty tree, any number of leaves up to the capacity can be appended, and the root then
  -- is the one that the dense tree computes from scratch over the same leaves.
  pub append_all-root :
      (leaves : List F)
      → length leaves ≤ tree_capacity
      → (t : IncrementalTree F) × (append_all (new P) leaves ≡ some t)
        × (t.next_index ≡ length leaves)
        × (root P (record { leaves = leaves }) ≡ some t.root)
  append_all-root leaves fits =
      let (t, done, h) = append_all-Holds leaves [] (new P) (new-Holds P) (omega arith) in
      (t, done, h.count, root-tree_root P (record { leaves = leaves }) ∙ ap some (sym h.root))
