-- ===== src/Circuit/Tree.antt =====
-- The commitment tree of circuit/common/src/lib.rs: `zero_hashes`, `IncrementalTree`, `DenseTree`.
-- A loop `for lvl in 0..TREE_LEVELS` is a recursion on the first TREE_LEVELS zero hashes.
pub mod Nodes
pub mod Dense
pub mod Append
pub mod Agree
pub mod Path
use shielded_ledger_hivemind.Common.{
  ℕ, zero, suc, ◌+◌, ◌-◌, ◌*◌, ◌/◌, ◌%◌, ◌^◌, Option, none, some, List, [], ◌∷◌, map, ltb,
  if◌then◌else◌, length, get_or, get_elem?, take,
}
use shielded_ledger_hivemind.Circuit.Row.{Row, splat, from_fn, set_slot, copy_prefix}
use shielded_ledger_hivemind.Circuit.Hash.{Poseidon, merkle_compress}

abbrev pub tree_arity : ℕ
tree_arity = 4

abbrev pub tree_levels : ℕ
tree_levels = 16

abbrev pub tree_capacity : ℕ
tree_capacity = 2 ^ 32

pub record IncrementalTree (F : Type 0) : Type 0 where
  pub filled : List (Row F)
  pub zeros : List F
  pub next_index : ℕ
  pub root : F

pub record DenseTree (F : Type 0) : Type 0 where
  pub leaves : List F

-- `level.len().div_ceil(TREE_ARITY)`
abbrev pub div_ceil : ℕ → ℕ
div_ceil n = (n + (tree_arity - 1)) / tree_arity

module _ {F S : Type 0} (P : Poseidon F S) where
  -- The zero hashes from the one given on, `n` levels up.
  unfoldable pub zeros_from : ℕ → F → List F
  zeros_from zero z = z ∷ []
  zeros_from (suc n) z = z ∷ zeros_from n (merkle_compress P (splat z))

  unfoldable pub zero_hashes : List F
  zero_hashes = zeros_from tree_levels (P.of_u64 0)

  -- `IncrementalTree::new`
  unfoldable pub new : IncrementalTree F
  new = record {
    filled = map splat (take tree_levels zero_hashes);
    zeros = zero_hashes;
    next_index = 0;
    root = get_or zero_hashes tree_levels (P.of_u64 0);
  }

  -- The loop of `append`: the rows as they are written, and the node carried out at the top.
  unfoldable pub append_levels : List (Row F) → List F → ℕ → F → List (Row F) × F
  append_levels [] zeros idx cur = ([], cur)
  append_levels (old ∷ filled) [] idx cur = (old ∷ filled, cur)
  append_levels (old ∷ filled) (z ∷ zeros) idx cur =
      let pos = idx % tree_arity in
      let kept = set_slot old pos cur in
      let row = copy_prefix pos kept (splat z) in
      let (above, root) = append_levels filled zeros (idx / tree_arity) (merkle_compress P row) in
      (kept ∷ above, root)

  -- `IncrementalTree::append`; `none` is the failed assertion "tree full".
  unfoldable pub append : IncrementalTree F → F → Option (IncrementalTree F × F)
  append t leaf =
      if ltb t.next_index tree_capacity
      then (let (filled, root) = append_levels t.filled t.zeros t.next_index leaf in
          some (record t { filled = filled; next_index = t.next_index + 1; root = root }, root))
      else none

  -- One row of a level: the children that are there, and the zero hash for the others.
  unfoldable pub row_of : F → List F → ℕ → Row F
  row_of z level base = from_fn (λ j. get_or level (base + j) z)

  -- The parents with numbers `i` to `i + n - 1` of a level.
  unfoldable pub parents : F → List F → ℕ → ℕ → List F
  parents z level zero i = []
  parents z level (suc n) i =
      merkle_compress P (row_of z level (tree_arity * i)) ∷ parents z level n (i + 1)

  unfoldable pub or_empty_parent : F → List F → List F
  or_empty_parent z [] = merkle_compress P (splat z) ∷ []
  or_empty_parent z (x ∷ xs) = x ∷ xs

  -- One round of the loop of `DenseTree::root`.
  unfoldable pub next_level : F → List F → List F
  unfolding parents or_empty_parent
  next_level z level = or_empty_parent z (parents z level (div_ceil (length level)) 0)

  unfoldable pub dense_levels : List F → List F → List F
  dense_levels [] level = level
  dense_levels (z ∷ zeros) level = dense_levels zeros (next_level z level)

  -- `DenseTree::root`; `none` would be the failing index `level[0]`.
  unfoldable pub root : DenseTree F → Option F
  root t = get_elem? (dense_levels (take tree_levels zero_hashes) t.leaves) 0

  -- The loop of `DenseTree::path`: the full row and the position at each level.
  unfoldable pub path_levels : List F → List F → ℕ → List (Row F × ℕ)
  path_levels [] level idx = []
  path_levels (z ∷ zeros) level idx =
      let pos = idx % tree_arity in
      (row_of z level (idx - pos), pos) ∷ path_levels zeros (next_level z level) (idx / tree_arity)

  -- `DenseTree::path`; the source's two vectors are the two parts of the pairs.
  unfoldable pub path : DenseTree F → ℕ → List (Row F × ℕ)
  path t index = path_levels (take tree_levels zero_hashes) t.leaves index
