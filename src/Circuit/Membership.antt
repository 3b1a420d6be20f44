-- ===== src/Circuit/Membership.antt =====
-- `merkle_root_gadget` of circuit/common/src/lib.rs: the fold of a Merkle path under constraints.
use shielded_ledger_hivemind.Common.{
  ℕ, zero, suc, ◌+◌, ◌<◌, ◌≡◌, refl, sym, ap, ◌∙◌, arith, Bool, true, false, List, [], ◌∷◌, length,
  ok, ◌>>◌, ◌==◌, if◌then◌else◌, >>-eq-ok,
}
use shielded_ledger_hivemind.Circuit.Row.{Row, slot, from_fn}
use shielded_ledger_hivemind.Circuit.Hash.{Poseidon, merkle_compress, tag_merge}
use shielded_ledger_hivemind.Circuit.Field.{
  Synthesis, enforce_equal, enforce_equal-ok, equal-enforce, of_bool, add, mul, add-small,
  mul-small,
}
use shielded_ledger_hivemind.Circuit.Range.{of_bool-le}
use shielded_ledger_hivemind.Circuit.Tree.Path.{Opens}

module _ (p : ℕ) where
  -- `sum += FpVar::from(s)` over the selector.
  unfoldable pub selector_sum : Row Bool → ℕ
  selector_sum s =
      add p (add p (add p (add p 0 (of_bool s.c0)) (of_bool s.c1)) (of_bool s.c2)) (of_bool s.c3)

  -- `selected += FpVar::from(s) * c` over the selector and the row.
  unfoldable pub selected_sum : Row Bool → Row ℕ → ℕ
  selected_sum s r =
      let s0 = add p 0 (mul p (of_bool s.c0) r.c0) in
      let s1 = add p s0 (mul p (of_bool s.c1) r.c1) in
      let s2 = add p s1 (mul p (of_bool s.c2) r.c2) in add p s2 (mul p (of_bool s.c3) r.c3)

-- The in-circuit hash of a row: the steps of arkworks' sponge gadget take the values of the native ones.
unfoldable pub merkle_compress_gadget : {S : Type 0} (P : Poseidon ℕ S) → Row ℕ → ℕ
merkle_compress_gadget P row =
    let sponge = P.set_state0 (P.of_u64 tag_merge) P.new_tree in
    P.squeeze (P.absorb row.c3 (P.absorb row.c2 (P.absorb row.c1 (P.absorb row.c0 sponge))))

module _ {S : Type 0} (p : ℕ) (P : Poseidon ℕ S) where
  unfoldable pub merkle_root_gadget : ℕ → List (Row ℕ × Row Bool) → Synthesis ℕ
  unfolding merkle_compress_gadget
  merkle_root_gadget cur [] = ok cur
  merkle_root_gadget cur ((row, sel) ∷ rest) = do
    enforce_equal (selector_sum p sel) 1
    enforce_equal (selected_sum p sel row) cur
    merkle_root_gadget (merkle_compress_gadget P row) rest

-- The selector of an honest prover: `j == *pos` for each slot.
unfoldable pub one_hot : ℕ → Row Bool
one_hot pos = from_fn (λ j. j == pos)

-- The rows and selectors that an honest prover assigns.
unfoldable pub assign_path : List (Row ℕ × ℕ) → List (Row ℕ × Row Bool)
assign_path [] = []
assign_path ((row, pos) ∷ rest) = (row, one_hot pos) ∷ assign_path rest

-- Field elements are residues.
abbrev pub AllBelow : ℕ → List (Row ℕ × Row Bool) → Type 0
AllBelow p [] = Unit
AllBelow p ((row, sel) ∷ rest) =
    ((row.c0 < p) × (row.c1 < p) × (row.c2 < p) × (row.c3 < p)) × AllBelow p rest

-- The slot that the selector marks.
pub marked : Row Bool → ℕ
marked s = if s.c0 then 0 else if s.c1 then 1 else if s.c2 then 2 else 3

pub marked_path : List (Row ℕ × Row Bool) → List (Row ℕ × ℕ)
marked_path [] = []
marked_path ((row, sel) ∷ rest) = (row, marked sel) ∷ marked_path rest

pub length-marked_path : (vars : List (Row ℕ × Row Bool)) → length (marked_path vars) ≡ length vars
unfolding marked_path
length-marked_path [] = refl
length-marked_path (v ∷ vars) = ap suc (length-marked_path vars)

module _ {p : ℕ} (hp : 4 < p) where
  zero-add_field : (x : ℕ) → x < p → add p 0 x ≡ x
  zero-add_field x h = add-small p 0 x (omega arith) ∙ omega arith

  add-zero_field : (x : ℕ) → x < p → add p x 0 ≡ x
  add-zero_field x h = add-small p x 0 (omega arith) ∙ omega arith

  mul-true : (x : ℕ) → x < p → mul p 1 x ≡ x
  mul-true x h = mul-small p 1 x (omega arith) ∙ omega arith

  mul-false : (x : ℕ) → mul p 0 x ≡ 0
  mul-false x = mul-small p 0 x (omega arith) ∙ omega arith

  selector_sum-count :
      (a b c d : Bool)
      → selector_sum p (record { c0 = a; c1 = b; c2 = c; c3 = d })
        ≡ of_bool a + of_bool b + of_bool c + of_bool d
  unfolding selector_sum
  selector_sum-count a b c d =
      let la = of_bool-le a in
      let lb = of_bool-le b in
      let lc = of_bool-le c in
      let ld = of_bool-le d in
      let ea : add p 0 (of_bool a) ≡ of_bool a = zero-add_field (of_bool a) (omega arith) in
      rw
        (
          ea,
          add-small p (of_bool a) (of_bool b) (omega arith),
          add-small p (of_bool a + of_bool b) (of_bool c) (omega arith),
          add-small p (of_bool a + of_bool b + of_bool c) (of_bool d) (omega arith),
        )
        refl

  select_case :
      (a b c d : Bool) (r : Row ℕ)
      → (r.c0 < p) × (r.c1 < p) × (r.c2 < p) × (r.c3 < p)
      → of_bool a + of_bool b + of_bool c + of_bool d ≡ 1
      → let s : Row Bool = record { c0 = a; c1 = b; c2 = c; c3 = d } in
        (marked s < 4) × (selected_sum p s r ≡ slot r (marked s))
  unfolding marked selected_sum
  select_case true false false false r (h0, h1, h2, h3) one = (
    omega arith,
    simp (mul-true r.c0 h0, zero-add_field r.c0 h0, add-zero_field r.c0 h0, mul-false),
  )
  select_case false true false false r (h0, h1, h2, h3) one = (
    omega arith,
    simp (
      mul-true r.c1 h1,
      zero-add_field 0 (omega arith),
      zero-add_field r.c1 h1,
      add-zero_field r.c1 h1,
      mul-false,
    ),
  )
  select_case false false true false r (h0, h1, h2, h3) one = (
    omega arith,
    simp (
      mul-true r.c2 h2,
      zero-add_field 0 (omega arith),
      zero-add_field r.c2 h2,
      add-zero_field r.c2 h2,
      mul-false,
    ),
  )
  select_case false false false true r (h0, h1, h2, h3) one = (
    omega arith,
    simp (mul-true r.c3 h3, zero-add_field 0 (omega arith), zero-add_field r.c3 h3, mul-false),
  )
  select_case a b c d r h one = absurd (omega arith)

  -- A boolean selector that sums to one marks exactly one slot, and the inner product is its entry.
  selected_marked :
      (s : Row Bool) (r : Row ℕ)
      → (r.c0 < p) × (r.c1 < p) × (r.c2 < p) × (r.c3 < p)
      → selector_sum p s ≡ 1
      → (marked s < 4) × (selected_sum p s r ≡ slot r (marked s))
  selected_marked s r h one =
      select_case s.c0 s.c1 s.c2 s.c3 r h (sym (selector_sum-count s.c0 s.c1 s.c2 s.c3) ∙ one)

  one_hot_lem :
      (pos : ℕ) → pos < 4 → (selector_sum p (one_hot pos) ≡ 1) × (marked (one_hot pos) ≡ pos)
  unfolding one_hot marked
  one_hot_lem zero h = (selector_sum-count true false false false, refl)
  one_hot_lem (suc zero) h = (selector_sum-count false true false false, refl)
  one_hot_lem (suc (suc zero)) h = (selector_sum-count false false true false, refl)
  one_hot_lem (suc (suc (suc zero))) h = (selector_sum-count false false false true, refl)
  one_hot_lem (suc (suc (suc (suc n)))) h = absurd (omega arith)

module _ {S : Type 0} (p : ℕ) (P : Poseidon ℕ S) (hp : 4 < p) where
  -- Over a modulus above 4, whatever residues the prover assigns to the rows and whatever selectors:
  -- if the constraints hold, the marked entries are a path from the node to the root.
  pub merkle_root_gadget-Opens :
      (cur root : ℕ) (vars : List (Row ℕ × Row Bool))
      → AllBelow p vars
      → merkle_root_gadget p P cur vars ≡ ok root
      → Opens P (marked_path vars) cur root
  unfolding merkle_root_gadget marked_path merkle_compress
  merkle_root_gadget-Opens cur root [] below h = ground arith
  merkle_root_gadget-Opens cur root ((row, sel) ∷ rest) (here, below) h =
      let (one, h1) = >>-eq-ok (enforce_equal (selector_sum p sel) 1) _ h in
      let (same, h2) = >>-eq-ok (enforce_equal (selected_sum p sel row) cur) _ h1 in
      let (lt, picked) = selected_marked hp sel row here (enforce_equal-ok _ 1 one) in
      (
        lt,
        sym picked ∙ enforce_equal-ok _ cur same,
        merkle_root_gadget-Opens (merkle_compress P row) root rest below h2,
      )

  -- Over a modulus above 4, a path of residues satisfies the constraints with the one-hot selectors of
  -- its positions, and the gadget returns the root that it leads to.
  pub Opens-merkle_root_gadget :
      (cur root : ℕ) (path : List (Row ℕ × ℕ))
      → AllBelow p (assign_path path)
      → Opens P path cur root
      → merkle_root_gadget p P cur (assign_path path) ≡ ok root
  unfolding merkle_root_gadget assign_path merkle_compress
  Opens-merkle_root_gadget cur root [] below e = ap ok e
  Opens-merkle_root_gadget cur root ((row, pos) ∷ rest) (here, below) (lt, at, o) =
      let (one, is) = one_hot_lem hp pos lt in
      let picked = (selected_marked hp (one_hot pos) row here one).1 in
      rw
        (
          equal-enforce (selector_sum p (one_hot pos)) 1 one,
          equal-enforce (selected_sum p (one_hot pos) row) cur (picked ∙ ap (slot row) is ∙ at),
        )
        (Opens-merkle_root_gadget (merkle_compress P row) root rest below o)
