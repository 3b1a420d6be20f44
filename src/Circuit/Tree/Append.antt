-- ===== src/Circuit/Tree/Append.antt =====
-- `IncrementalTree::append` of circuit/common/src/lib.rs against the abstract tree.
use native.Mathlib.Nat.{pow-suc}
use native.Mathlib.Decide.{dec_lt}
use shielded_ledger_hivemind.Common.{
  ℕ, zero, suc, ◌+◌, ◌*◌, ◌/◌, ◌%◌, ◌^◌, ◌<◌, ◌≡◌, ◌⊎◌, inr, refl, sym, ap, ◌∙◌, arith, some, none,
  List, [], ◌∷◌, ◌++◌, map, length, get_or, take, length-append, get_or-append_left,
  get_or-append_last, get_or-beyond, lt→ltb, ltb→lt, ltb, Bool-cases, inl,
}
use shielded_ledger_hivemind.Circuit.Row.{Row, splat, from_fn, slot, set_slot, copy_prefix}
use shielded_ledger_hivemind.Circuit.Hash.{Poseidon, merkle_compress}
use shielded_ledger_hivemind.Circuit.Tree.{
  IncrementalTree, tree_capacity, tree_levels, zeros_from, zero_hashes, new, append_levels, append,
}
use shielded_ledger_hivemind.Circuit.Tree.Nodes.{up, up_by, tree_root, up-splat, up_cong, zero_at}

-- The row that `append` hashes, slot by slot: kept children, the carried node, empty places.
row_by_slots :
    {F : Type 0} (pos : ℕ) (old : Row F) (z cur : F) (g : ℕ → F)
    → pos < 4
    → ((j : ℕ) → j < pos → slot old j ≡ g j)
    → g pos ≡ cur
    → ((j : ℕ) → pos < j → g j ≡ z)
    → copy_prefix pos (set_slot old pos cur) (splat z) ≡ from_fn g
row_by_slots zero old z cur g lt front here above = ground (arith, above 1, above 2, above 3)
row_by_slots (suc zero) old z cur g lt front here above = ground (arith, front 0, above 2, above 3)
row_by_slots (suc (suc zero)) old z cur g lt front here above =
    ground (arith, front 0, front 1, above 3)
row_by_slots (suc (suc (suc zero))) old z cur g lt front here above =
    ground (arith, front 0, front 1, front 2)
row_by_slots (suc (suc (suc (suc n)))) old z cur g lt front here above = absurd (omega arith)

slot-set_slot_self :
    {F : Type 0} (pos : ℕ) (r : Row F) (x : F) → pos < 4 → slot (set_slot r pos x) pos ≡ x
slot-set_slot_self zero r x h = refl
slot-set_slot_self (suc zero) r x h = refl
slot-set_slot_self (suc (suc zero)) r x h = refl
slot-set_slot_self (suc (suc (suc n))) r x h = refl

slot-set_slot_lt :
    {F : Type 0} (j pos : ℕ) (r : Row F) (x : F)
    → j < pos
    → pos < 4
    → slot (set_slot r pos x) j ≡ slot r j
slot-set_slot_lt j zero r x h k = absurd (omega arith)
slot-set_slot_lt zero (suc zero) r x h k = refl
slot-set_slot_lt (suc j) (suc zero) r x h k = absurd (omega arith)
slot-set_slot_lt zero (suc (suc zero)) r x h k = refl
slot-set_slot_lt (suc zero) (suc (suc zero)) r x h k = refl
slot-set_slot_lt (suc (suc j)) (suc (suc zero)) r x h k = absurd (omega arith)
slot-set_slot_lt zero (suc (suc (suc n))) r x h k = refl
slot-set_slot_lt (suc zero) (suc (suc (suc n))) r x h k = refl
slot-set_slot_lt (suc (suc zero)) (suc (suc (suc n))) r x h k = refl
slot-set_slot_lt (suc (suc (suc j))) (suc (suc (suc n))) r x h k = absurd (omega arith)

module _ {F S : Type 0} (P : Poseidon F S) where
  -- The cached rows are right for a tree whose next place at this level is `idx`: the children left
  -- of it are the nodes of `f`, and so on upwards.
  abbrev Frontier : List (Row F) → ℕ → (ℕ → F) → Type 0
  Frontier [] idx f = Unit
  Frontier (row ∷ rows) idx f =
      ((j : ℕ) → j < idx % 4 → slot row j ≡ f (4 * (idx / 4) + j))
      × Frontier rows (idx / 4) (up P f)

  -- The change of one level by an append at `idx`: nothing on the left, `cur` there, and nothing
  -- but empty places `z` on the right.
  record Appends (idx : ℕ) (cur z : F) (f g : ℕ → F) : Type 0 where
    left : (k : ℕ) → k < idx → g k ≡ f k
    here : g idx ≡ cur
    right : (k : ℕ) → idx < k → g k ≡ z

  abbrev carried : ℕ → F → F → Row F → F
  carried idx cur z old =
      merkle_compress P (copy_prefix (idx % 4) (set_slot old (idx % 4) cur) (splat z))

  -- The level above changes in the same way, at `idx / 4`.
  Appends-up :
      (idx : ℕ) (cur z : F) (old : Row F) (f g : ℕ → F)
      → ((j : ℕ) → j < idx % 4 → slot old j ≡ f (4 * (idx / 4) + j))
      → Appends idx cur z f g
      → Appends (idx / 4) (carried idx cur z old) (merkle_compress P (splat z)) (up P f) (up P g)
  unfolding up
  Appends-up idx cur z old f g front a = record {
    left = λ k h. up_cong P g f k (λ m lo hi. a.left m (omega arith));
    here = sym (
        ap (merkle_compress P) (
          row_by_slots (idx % 4) old z cur (λ j. g (4 * (idx / 4) + j)) (omega arith)
            (λ j h. front j h ∙ sym (a.left _ (omega arith)))
            (let e : 4 * (idx / 4) + idx % 4 ≡ idx = omega arith in ap g e ∙ a.here)
            (λ j h. a.right _ (omega arith))));
    right = λ k h. up-splat P g z k (λ m lo. a.right m (omega arith));
  }

  -- The kept row serves the next append, whether or not that one moves on at this level.
  frontier_row :
      (idx m : ℕ) (cur z : F) (old : Row F) (f g : ℕ → F)
      → ((j : ℕ) → j < idx % 4 → slot old j ≡ f (4 * (idx / 4) + j))
      → Appends idx cur z f g
      → (m ≡ idx) ⊎ (m ≡ idx + 1)
      → (j : ℕ) → j < m % 4
      → slot (set_slot old (idx % 4) cur) j ≡ g (4 * (m / 4) + j)
  frontier_row idx m cur z old f g front a next j h =
      let e : m / 4 ≡ idx / 4 = omega arith in
      elim (dec_lt j (idx % 4)) [
        | yes lt ↦
            slot-set_slot_lt j (idx % 4) old cur lt (omega arith)
            ∙ front j lt
            ∙ sym (a.left _ (omega arith))
            ∙ ap (λ (q : ℕ). g (4 * q + j)) (sym e)
        | no ge ↦
            let same : j ≡ idx % 4 = omega arith in
            ap (slot (set_slot old (idx % 4) cur)) same
            ∙ slot-set_slot_self (idx % 4) old cur (omega arith)
            ∙ sym a.here
            ∙ ap g (omega arith)
      ]

  append_levels_lem :
      (n : ℕ) (filled : List (Row F)) (idx m : ℕ) (cur z : F) (f g : ℕ → F)
      → length filled ≡ n
      → idx < 4 ^ n
      → Appends idx cur z f g
      → (m ≡ idx) ⊎ (m ≡ idx + 1)
      → Frontier filled idx f
      → let r = append_levels P filled (zeros_from P n z) idx cur in
        Frontier r.0 m g × (r.1 ≡ up_by P n g 0) × (length r.0 ≡ n)
  unfolding append_levels zeros_from up_by
  append_levels_lem zero [] idx m cur z f g len lt a next fr =
      let e : idx ≡ 0 = omega arith in (tt, sym a.here ∙ ap g e, refl)
  append_levels_lem zero (r ∷ rs) idx m cur z f g len lt a next fr = absurd (omega arith)
  append_levels_lem (suc n) [] idx m cur z f g len lt a next fr = absurd (omega arith)
  append_levels_lem (suc n) (old ∷ filled) idx m cur z f g len lt a next fr =
      let rest =
        append_levels_lem n filled (idx / 4) (m / 4) (carried idx cur z old)
          (merkle_compress P (splat z)) (up P f) (up P g) (omega arith) (omega (arith, pow-suc 4 n))
          (Appends-up idx cur z old f g fr.0 a) (omega arith) fr.1 in
      ((frontier_row idx m cur z old f g fr.0 a next, rest.0), rest.1, omega (arith, rest.2))

  empty-Frontier : (rows : List (Row F)) (f : ℕ → F) → Frontier rows 0 f
  empty-Frontier [] f = tt
  empty-Frontier (row ∷ rows) f = ((λ j h. absurd (omega arith)), empty-Frontier rows (up P f))

  get_or-zeros_from : (n : ℕ) (z d : F) → get_or (zeros_from P n z) n d ≡ zero_at P n z
  unfolding zeros_from zero_at
  get_or-zeros_from zero z d = refl
  get_or-zeros_from (suc n) z d = get_or-zeros_from n (merkle_compress P (splat z)) d

  length-zeros : (n : ℕ) (z : F) → length (map splat (take n (zeros_from P n z))) ≡ n
  unfolding zeros_from
  length-zeros zero z = refl
  length-zeros (suc n) z = ap suc (length-zeros n (merkle_compress P (splat z)))

  up_by-empty : (n : ℕ) (z : F) (f : ℕ → F) → ((k : ℕ) → f k ≡ z) → up_by P n f 0 ≡ zero_at P n z
  unfolding up_by zero_at
  up_by-empty zero z f h = h 0
  up_by-empty (suc n) z f h =
      up_by-empty n (merkle_compress P (splat z)) (up P f) (λ k. up-splat P f z k (λ m lo. h m))

  -- The state of an incremental tree that holds `leaves`.
  pub record Holds (t : IncrementalTree F) (leaves : List F) : Type 0 where
    pub frontier : Frontier t.filled (length leaves) (λ i. get_or leaves i (P.of_u64 0))
    pub levels : length t.filled ≡ tree_levels
    pub zeros : t.zeros ≡ zero_hashes P
    pub count : t.next_index ≡ length leaves
    pub root : t.root ≡ tree_root P leaves

  pub new-Holds : Holds (new P) []
  unfolding new zero_hashes tree_root
  new-Holds = record {
    frontier = empty-Frontier _ _;
    levels = length-zeros 16 (P.of_u64 0);
    zeros = refl;
    count = refl;
    root =
        get_or-zeros_from 16 (P.of_u64 0) (P.of_u64 0)
        ∙ sym (up_by-empty 16 (P.of_u64 0) (λ i. P.of_u64 0) (λ k. refl));
  }

  append-Appends :
      (leaves : List F) (leaf z : F)
      → Appends
          (length leaves)
          leaf
          z
          (λ i. get_or leaves i z)
          (λ i. get_or (leaves ++ (leaf ∷ [])) i z)
  append-Appends leaves leaf z = record {
    left = λ k h. get_or-append_left leaves (leaf ∷ []) k z h;
    here = get_or-append_last leaves leaf (length leaves) z refl;
    right = λ k h.
        get_or-beyond (leaves ++ (leaf ∷ [])) k z (omega (arith, length-append leaves (leaf ∷ [])));
  }

  append_levels_at :
      (leaves : List F) (leaf : F) (filled : List (Row F)) (zeros : List F) (idx : ℕ)
      → zeros ≡ zero_hashes P
      → idx ≡ length leaves
      → length leaves < tree_capacity
      → length filled ≡ tree_levels
      → Frontier filled (length leaves) (λ i. get_or leaves i (P.of_u64 0))
      → let after = leaves ++ (leaf ∷ []) in
        let r = append_levels P filled zeros idx leaf in
        Frontier r.0 (length after) (λ i. get_or after i (P.of_u64 0))
        × (r.1 ≡ tree_root P after)
        × (length r.0 ≡ tree_levels)
  unfolding zero_hashes tree_root
  append_levels_at leaves leaf filled zeros idx ez ei lt len fr =
      let z : F = P.of_u64 0 in
      rw (ez, ei)
        (append_levels_lem 16 filled (length leaves) (length (leaves ++ (leaf ∷ []))) leaf z
          (λ i. get_or leaves i z) (λ i. get_or (leaves ++ (leaf ∷ [])) i z) len lt
          (append-Appends leaves leaf z) (inr (length-append leaves (leaf ∷ []))) fr)

  appended : IncrementalTree F → F → IncrementalTree F
  appended t leaf =
      let (filled, root) = append_levels P t.filled t.zeros t.next_index leaf in
      record t { filled = filled; next_index = t.next_index + 1; root = root }

  append-appended :
      (t : IncrementalTree F) (leaf : F)
      → t.next_index < tree_capacity
      → append P t leaf ≡ some (appended t leaf, (appended t leaf).root)
  unfolding append appended
  append-appended t leaf h = rw (lt→ltb t.next_index tree_capacity h)

  appended-Holds :
      (t : IncrementalTree F) (leaves : List F) (leaf : F)
      → Holds t leaves
      → length leaves < tree_capacity
      → Holds (appended t leaf) (leaves ++ (leaf ∷ []))
  unfolding appended
  appended-Holds t leaves leaf h lt =
      let r =
        append_levels_at leaves leaf t.filled t.zeros t.next_index h.zeros h.count lt h.levels
          h.frontier in
      record {
        frontier = r.0;
        levels = r.2;
        zeros = h.zeros;
        count = omega (arith, h.count, length-append leaves (leaf ∷ []));
        root = r.1;
      }

  -- On a tree that holds fewer leaves than the capacity an append succeeds, returns the new root, and
  -- the tree then holds one leaf more.
  pub append-Holds :
      (t : IncrementalTree F) (leaves : List F) (leaf : F)
      → Holds t leaves
      → length leaves < tree_capacity
      → (t' : IncrementalTree F) × (append P t leaf ≡ some (t', t'.root))
        × Holds t' (leaves ++ (leaf ∷ []))
  append-Holds t leaves leaf h lt = (
    appended t leaf,
    append-appended t leaf (omega (arith, h.count)),
    appended-Holds t leaves leaf h lt,
  )

  -- A full tree refuses.
  pub append_full :
      (t : IncrementalTree F) (leaves : List F) (leaf : F)
      → Holds t leaves
      → length leaves ≡ tree_capacity
      → append P t leaf ≡ none
  unfolding append
  append_full t leaves leaf h full = ground (arith, h.count)

  -- Only a tree with room accepts.
  pub append-lt :
      (t : IncrementalTree F) (x : F) (r : IncrementalTree F × F)
      → append P t x ≡ some r
      → t.next_index < tree_capacity
  unfolding append
  append-lt t x r h = elim (Bool-cases (ltb t.next_index tree_capacity)) [
    | inl lt ↦ ltb→lt t.next_index tree_capacity lt
    | inr ge ↦ cc (rw ge at h)
  ]
