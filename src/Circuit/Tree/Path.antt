-- ===== src/Circuit/Tree/Path.antt =====
-- Authentication paths of circuit/common/src/lib.rs: `DenseTree::path`, and what a path proves.
use native.Mathlib.Nat.{pow-suc}
use mathlib.Core.Path.{fun_ext}
use shielded_ledger_hivemind.Common.{
  ℕ, zero, suc, ◌+◌, ◌-◌, ◌*◌, ◌/◌, ◌%◌, ◌^◌, ◌<◌, ◌≡◌, ◌≢◌, ◌⊎◌, inl, inr, refl, sym, ap, subst,
  ◌∙◌, arith, List, [], ◌∷◌, length, get_or, take,
}
use shielded_ledger_hivemind.Circuit.Row.{Row, splat, from_fn, slot}
use shielded_ledger_hivemind.Circuit.Hash.{Poseidon, merkle_compress}
use shielded_ledger_hivemind.Circuit.Tree.{
  DenseTree, tree_capacity, tree_levels, zeros_from, zero_hashes, row_of, next_level, path_levels,
  path,
}
use shielded_ledger_hivemind.Circuit.Tree.Nodes.{up, up_by, tree_root}
use shielded_ledger_hivemind.Circuit.Tree.Dense.{next_level-get}

-- The slot of `from_fn` at an index below the arity.
slot-from_fn : {F : Type 0} (f : ℕ → F) (j : ℕ) → j < 4 → slot (from_fn f) j ≡ f j
slot-from_fn f zero h = refl
slot-from_fn f (suc zero) h = refl
slot-from_fn f (suc (suc zero)) h = refl
slot-from_fn f (suc (suc (suc zero))) h = refl
slot-from_fn f (suc (suc (suc (suc j)))) h = absurd (omega arith)

Row-discrete : {F : Type 0} → Discrete F → Discrete (Row F)
Row-discrete d = hlevel d

-- The leaf index that the positions of a path spell, lowest level first.
pub path_index : {F : Type 0} → List (Row F × ℕ) → ℕ
path_index [] = 0
path_index ((row, pos) ∷ rest) = pos + 4 * path_index rest

module _ {F S : Type 0} (P : Poseidon F S) where
  -- A path leads from a node to a root: at each level the node stands in its place of the row, and
  -- the row is what is hashed.
  abbrev pub Opens : List (Row F × ℕ) → F → F → Type 0
  Opens [] cur root = cur ≡ root
  Opens ((row, pos) ∷ rest) cur root =
      (pos < 4) × (slot row pos ≡ cur) × Opens rest (merkle_compress P row) root

  -- Two rows with the same compression.
  abbrev pub Collision : Type 0
  Collision = (r : Row F) × (s : Row F) × (r ≢ s) × (merkle_compress P r ≡ merkle_compress P s)

  row_of-up :
      (z : F) (level : List F) (idx : ℕ)
      → up P (λ k. get_or level k z) (idx / 4)
        ≡ merkle_compress P (row_of P z level (idx - idx % 4))
  unfolding row_of up
  row_of-up z level idx =
      let e : 4 * (idx / 4) ≡ idx - idx % 4 = omega arith in
      ap (λ (b : ℕ). merkle_compress P (from_fn (λ j. get_or level (b + j) z))) e

  slot-row_of :
      (z : F) (level : List F) (idx : ℕ)
      → slot (row_of P z level (idx - idx % 4)) (idx % 4) ≡ get_or level idx z
  unfolding row_of
  slot-row_of z level idx =
      let e : idx - idx % 4 + idx % 4 ≡ idx = omega arith in
      slot-from_fn (λ j. get_or level (idx - idx % 4 + j) z) (idx % 4) (omega arith)
      ∙ ap (λ (i : ℕ). get_or level i z) e

  path_levels-Opens :
      (n : ℕ) (z : F) (level : List F) (idx : ℕ)
      → idx < 4 ^ n
      → Opens
          (path_levels P (take n (zeros_from P n z)) level idx)
          (get_or level idx z)
          (up_by P n (λ k. get_or level k z) 0)
  unfolding path_levels zeros_from up_by
  path_levels-Opens zero z level idx h =
      let e : idx ≡ 0 = omega arith in ap (λ (i : ℕ). get_or level i z) e
  path_levels-Opens (suc n) z level idx h =
      let z' = merkle_compress P (splat z) in
      let rest = path_levels P (take n (zeros_from P n z')) (next_level P z level) (idx / 4) in
      let ih =
        path_levels-Opens n z' (next_level P z level) (idx / 4) (omega (arith, pow-suc 4 n)) in
      let levels_agree = fun_ext (next_level-get P z level) in
      let opened = subst (λ g. Opens rest (g (idx / 4)) (up_by P n g 0)) levels_agree ih in
      (
        omega arith,
        slot-row_of z level idx,
        subst (λ c. Opens rest c (up_by P n (up P (λ k. get_or level k z)) 0))
            (row_of-up z level idx) opened,
      )

  -- The path of any index within the capacity opens the root at the leaf that stands there (or at
  -- the empty leaf).
  pub path-Opens :
      (t : DenseTree F) (index : ℕ)
      → index < tree_capacity
      → Opens (path P t index) (get_or t.leaves index (P.of_u64 0)) (tree_root P t.leaves)
  unfolding path zero_hashes tree_root
  path-Opens t index h = path_levels-Opens 16 (P.of_u64 0) t.leaves index h

  path_levels-index :
      (n : ℕ) (z : F) (level : List F) (idx : ℕ)
      → idx < 4 ^ n
      → path_index (path_levels P (take n (zeros_from P n z)) level idx) ≡ idx
  unfolding path_levels zeros_from path_index
  path_levels-index zero z level idx h = omega arith
  path_levels-index (suc n) z level idx h = omega (
    arith,
    pow-suc 4 n,
    path_levels-index n (merkle_compress P (splat z)) (next_level P z level) (idx / 4)
        (omega (arith, pow-suc 4 n)),
  )

  binds_row :
      Discrete F
      → (row : Row F) (pos : ℕ) (cur : F) (f : ℕ → F) (i : ℕ) → pos < 4
      → slot row pos ≡ cur
      → merkle_compress P row ≡ up P f i
      → (cur ≡ f (pos + 4 * i)) ⊎ Collision
  unfolding up
  binds_row d row pos cur f i lt at e =
      let shown = from_fn (λ j. f (4 * i + j)) in
      elim (Row-discrete d row shown) [
        | yes same ↦
            let place : 4 * i + pos ≡ pos + 4 * i = omega arith in
            inl (
              sym at
              ∙ ap (λ (r : Row F). slot r pos) same
              ∙ slot-from_fn (λ j. f (4 * i + j)) pos lt
              ∙ ap f place)
        | no differ ↦ inr (row, shown, differ, e)
      ]

  -- A path of `n` rows that leads to the root over the level `f` starts at the node of `f` whose
  -- index its positions spell, unless two different rows have the same compression.
  path_index-Opens :
      Discrete F
      → (n : ℕ) (ps : List (Row F × ℕ)) (cur : F) (f : ℕ → F) → length ps ≡ n
      → Opens ps cur (up_by P n f 0)
      → (cur ≡ f (path_index ps)) ⊎ Collision
  unfolding up_by path_index
  path_index-Opens d zero [] cur f len o = inl o
  path_index-Opens d zero (p ∷ ps) cur f len o = absurd (omega arith)
  path_index-Opens d (suc n) [] cur f len o = absurd (omega arith)
  path_index-Opens d (suc n) ((row, pos) ∷ ps) cur f len (lt, at, o) =
      elim (path_index-Opens d n ps (merkle_compress P row) (up P f) (omega arith) o) [
        | inr c ↦ inr c
        | inl e ↦ binds_row d row pos cur f (path_index ps) lt at e
      ]

  -- Over a field with decidable equality, whoever opens the root over `leaves` with any path of
  -- TREE_LEVELS rows starts at the leaf of the index that its positions spell (the empty leaf beyond
  -- the last), or shows two rows with the same compression.
  pub Opens-leaf :
      Discrete F
      → (leaves : List F) (ps : List (Row F × ℕ)) (cur : F) → length ps ≡ tree_levels
      → Opens ps cur (tree_root P leaves)
      → (cur ≡ get_or leaves (path_index ps) (P.of_u64 0)) ⊎ Collision
  unfolding tree_root
  Opens-leaf d leaves ps cur len o =
      path_index-Opens d 16 ps cur (λ i. get_or leaves i (P.of_u64 0)) len o

  path_levels-length :
      (n : ℕ) (z : F) (level : List F) (idx : ℕ)
      → length (path_levels P (take n (zeros_from P n z)) level idx) ≡ n
  unfolding path_levels zeros_from
  path_levels-length zero z level idx = refl
  path_levels-length (suc n) z level idx =
      ap suc (path_levels-length n (merkle_compress P (splat z)) (next_level P z level) (idx / 4))

  pub path-length : (t : DenseTree F) (index : ℕ) → length (path P t index) ≡ tree_levels
  unfolding path zero_hashes
  path-length t index = path_levels-length 16 (P.of_u64 0) t.leaves index

  -- The positions of the path of an index within the capacity spell that index.
  pub path-path_index :
      (t : DenseTree F) (index : ℕ) → index < tree_capacity → path_index (path P t index) ≡ index
  unfolding path zero_hashes
  path-path_index t index h = path_levels-index 16 (P.of_u64 0) t.leaves index h
