-- ===== src/Circuit/Tree/Dense.antt =====
-- `DenseTree::root` of circuit/common/src/lib.rs against the abstract tree.
use mathlib.Core.Path.{fun_ext}
use shielded_ledger_hivemind.Common.{
  ℕ, zero, suc, ◌+◌, ◌*◌, ◌/◌, ◌≤◌, ◌<◌, ◌≡◌, refl, ap, ◌∙◌, arith, some, List, [], ◌∷◌, length,
  get_or, get_elem?, take, get_or-beyond, get_elem?-eq-get_or, ltb, if◌then◌else◌,
}
use shielded_ledger_hivemind.Circuit.Row.{splat}
use shielded_ledger_hivemind.Circuit.Hash.{Poseidon, merkle_compress}
use shielded_ledger_hivemind.Circuit.Tree.{
  DenseTree, div_ceil, zeros_from, zero_hashes, row_of, parents, or_empty_parent, next_level,
  dense_levels, root,
}
use shielded_ledger_hivemind.Circuit.Tree.Nodes.{up, up_by, tree_root, up-splat}

module _ {F S : Type 0} (P : Poseidon F S) where
  parent_at : F → List F → ℕ → F
  parent_at z level i = merkle_compress P (row_of P z level (4 * i))

  parents-get :
      (z : F) (level : List F) (n i j : ℕ) (d : F)
      → get_or (parents P z level n i) j d ≡ (if ltb j n then parent_at z level (i + j) else d)
  unfolding parents parent_at
  parents-get z level zero i j d = ground arith
  parents-get z level (suc n) i zero d = ground arith
  parents-get z level (suc n) i (suc j) d = ground (arith, parents-get z level n (i + 1) j d)

  row_of-get :
      (z : F) (level : List F) (i : ℕ) → parent_at z level i ≡ up P (λ k. get_or level k z) i
  unfolding parent_at row_of up
  row_of-get z level i = refl

  -- Past the parents that are computed, all children are empty.
  no_more_parents :
      (z : F) (level : List F) (i : ℕ)
      → (length level + 3) / 4 ≤ i
      → up P (λ k. get_or level k z) i ≡ merkle_compress P (splat z)
  no_more_parents z level i h =
      up-splat P (λ k. get_or level k z) z i (λ k hk. get_or-beyond level k z (omega arith))

  or_empty_parent-get :
      (z : F) (xs : List F) (i : ℕ)
      → get_or (or_empty_parent P z xs) i (merkle_compress P (splat z))
        ≡ get_or xs i (merkle_compress P (splat z))
  unfolding or_empty_parent
  or_empty_parent-get z [] zero = refl
  or_empty_parent-get z [] (suc i) = refl
  or_empty_parent-get z (x ∷ xs) i = refl

  pub next_level-get :
      (z : F) (level : List F) (i : ℕ)
      → get_or (next_level P z level) i (merkle_compress P (splat z))
        ≡ up P (λ k. get_or level k z) i
  unfolding next_level
  next_level-get z level i = ground (
    arith,
    or_empty_parent-get z (parents P z level (div_ceil (length level)) 0) i,
    parents-get z level (div_ceil (length level)) 0 i (merkle_compress P (splat z)),
    row_of-get z level i,
    no_more_parents z level i,
  )

  next_level_nonempty : (z : F) (level : List F) → 0 < length (next_level P z level)
  unfolding next_level
  next_level_nonempty z level = nonempty (parents P z level (div_ceil (length level)) 0)
    where
      nonempty : (xs : List F) → 0 < length (or_empty_parent P z xs)
      nonempty [] = unfold or_empty_parent in omega arith
      nonempty (x ∷ xs) = unfold or_empty_parent in omega arith

  pub dense_levels-up_by :
      (n : ℕ) (z : F) (level : List F)
      → 0 < length level
      → get_elem? (dense_levels P (take n (zeros_from P n z)) level) 0
        ≡ some (up_by P n (λ k. get_or level k z) 0)
  unfolding dense_levels zeros_from up_by
  dense_levels-up_by zero z level h = get_elem?-eq-get_or level 0 z h
  dense_levels-up_by (suc n) z level h =
      dense_levels-up_by n (merkle_compress P (splat z)) (next_level P z level)
        (next_level_nonempty z level)
      ∙ ap (λ f. some (up_by P n f 0)) (fun_ext (next_level-get z level))

  -- One round makes the level nonempty, whatever the leaves are.
  pub dense_levels-up_by-suc :
      (n : ℕ) (z : F) (level : List F)
      → get_elem? (dense_levels P (take (suc n) (zeros_from P (suc n) z)) level) 0
        ≡ some (up_by P (suc n) (λ k. get_or level k z) 0)
  unfolding dense_levels zeros_from up_by
  dense_levels-up_by-suc n z level =
      dense_levels-up_by n (merkle_compress P (splat z)) (next_level P z level)
        (next_level_nonempty z level)
      ∙ ap (λ f. some (up_by P n f 0)) (fun_ext (next_level-get z level))

  -- `DenseTree::root` never fails, on the empty list of leaves neither, and is the root of the
  -- abstract tree over the leaves padded by empty ones.
  pub root-tree_root : (t : DenseTree F) → root P t ≡ some (tree_root P t.leaves)
  unfolding root zero_hashes tree_root
  root-tree_root t = dense_levels-up_by-suc 15 (P.of_u64 0) t.leaves
