-- ===== src/Soak/Wire.antt =====
-- What model.rs and replayer.rs of soak/src share: the panics, which are values here, checked indexing,
-- sets, and the interfaces of the field's encoding and of the Merkle mirror of soak/src/crypto.rs.
use mathlib.Core.Logic.{ite}
use shielded_ledger_hivemind.Common.{
  ℕ, ◌-◌, Option, List, [], ◌∷◌, Bool, true, false, Result, ok, err, ok_or, get_elem?, ltb, ◌==◌,
  if◌then◌else◌,
}
use shielded_ledger_hivemind.Adapter.Legacy.Messages.{Bytes}

-- `f_bytes` of crypto.rs and `F::from_le_bytes_mod_order`, both of arkworks.
pub record Encoding (F : Type 0) : Type 0 where
  pub f_bytes : F → Bytes
  pub from_le_bytes_mod_order : Bytes → F

-- The operations of `MerkleMirror` that the model calls. Its code stands on names that circuit/common
-- does not have, so it is an interface here. `append` is `none` where the tree is full.
pub record MerkleMirror (F M : Type 0) : Type 0 where
  pub new : M
  pub append : M → F → Option (M × ℕ)
  pub root : M → F

-- The failed assertions, `expect`s and index operations of the model.
pub data Panic : Type 0 where
  out_of_bounds : Panic
  tree_full : Panic
  double_spend : ℕ → Panic
  overdraws_account : Panic
  overdraws_custody : Panic
  overdraws_pool : Panic
  needs_recipient : Panic
  unshield_fee : Panic
  private_fee : Panic

abbrev pub Checked : Type 0 → Type 0
Checked = Result Panic

-- `xs[i]`
abbrev pub at : {A : Type 0} → List A → ℕ → Checked A
at xs i = ok_or (get_elem? xs i) Panic.out_of_bounds

-- `a.checked_sub(b).expect(..)`
abbrev pub checked_sub : ℕ → ℕ → Panic → Checked ℕ
checked_sub a b panic = if ltb a b then err panic else ok (a - b)

-- `BTreeSet::insert` and `BTreeSet::remove` on the ascending list of the elements.
unfoldable pub insert_index : ℕ → List ℕ → List ℕ
insert_index i [] = i ∷ []
insert_index i (x ∷ xs) =
    let rest = insert_index i xs in
    if i == x then x ∷ xs else (if ltb i x then i ∷ x ∷ xs else x ∷ rest)

unfoldable pub remove_index : ℕ → List ℕ → List ℕ
remove_index i [] = []
remove_index i (x ∷ xs) = let rest = remove_index i xs in if i == x then xs else x ∷ rest

-- `HashSet::contains` and `HashSet::insert`
unfoldable pub contains : {A : Type 0} → Discrete A → A → List A → Bool
contains d x [] = false
contains d x (y ∷ ys) = ite (d x y) true (contains d x ys)

unfoldable pub insert_new : {A : Type 0} → Discrete A → A → List A → List A
unfolding contains
insert_new d x ys = if contains d x ys then ys else x ∷ ys
