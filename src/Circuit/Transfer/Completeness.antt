-- ===== src/Circuit/Transfer/Completeness.antt =====
-- The transfer circuit of circuit/common/src/lib.rs for an honest prover.
use shielded_ledger_hivemind.Common.{
  ℕ, zero, suc, ◌+◌, ◌/◌, ◌^◌, ◌≤◌, ◌<◌, ◌≡◌, ◌≢◌, refl, subst, arith, true, false, some, List, [],
  ◌∷◌, get_or, ok, take,
}
use shielded_ledger_hivemind.Circuit.Row.{Row, splat}
use shielded_ledger_hivemind.Circuit.Hash.{
  Poseidon, derive_pk, derive_nf, note_commitment, merkle_compress, Note, pk, cm, nf,
}
use shielded_ledger_hivemind.Circuit.Field.{equal-enforce, ne-enforce, add, add-small}
use shielded_ledger_hivemind.Circuit.Range.{enforce_u64_range, low64_bits, range_complete}
use shielded_ledger_hivemind.Circuit.Membership.{AllBelow, assign_path, Opens-merkle_root_gadget}
use shielded_ledger_hivemind.Circuit.Tree.{
  tree_capacity, zeros_from, zero_hashes, row_of, parents, or_empty_parent, next_level, path_levels,
  path, root,
}
use shielded_ledger_hivemind.Circuit.Tree.Nodes.{tree_root}
use shielded_ledger_hivemind.Circuit.Tree.Dense.{root-tree_root}
use shielded_ledger_hivemind.Circuit.Tree.Path.{Opens, path-Opens}
use shielded_ledger_hivemind.Circuit.Transfer.{
  Input, Output, TransferCircuit, TransferVars, InputVars, OutputVars, constrain_input,
  constrain_output, constraints, generate_constraints,
}
use shielded_ledger_hivemind.Circuit.Transfer.Soundness.{EmbedsU64}

-- All values that the hash gives are residues.
abbrev pub HashesBelow : {S : Type 0} → ℕ → Poseidon ℕ S → Type 0
HashesBelow {S} p P = (s : S) → P.squeeze s < p

abbrev pub LeavesBelow : ℕ → List ℕ → Type 0
LeavesBelow p [] = Unit
LeavesBelow p (x ∷ xs) = (x < p) × LeavesBelow p xs

module _ {S : Type 0} (p : ℕ) (P : Poseidon ℕ S) (hashes : HashesBelow p P) where
  compress-lt : (r : Row ℕ) → merkle_compress P r < p
  unfolding merkle_compress
  compress-lt r = hashes _

  get_or-lt : (xs : List ℕ) (i z : ℕ) → z < p → LeavesBelow p xs → get_or xs i z < p
  get_or-lt [] i z hz h = hz
  get_or-lt (x ∷ xs) zero z hz h = h.0
  get_or-lt (x ∷ xs) (suc i) z hz h = get_or-lt xs i z hz h.1

  parents-LeavesBelow : (z : ℕ) (level : List ℕ) (n i : ℕ) → LeavesBelow p (parents P z level n i)
  unfolding parents
  parents-LeavesBelow z level zero i = tt
  parents-LeavesBelow z level (suc n) i = (compress-lt _, parents-LeavesBelow z level n (i + 1))

  or_empty_parent-LeavesBelow :
      (z : ℕ) (xs : List ℕ) → LeavesBelow p xs → LeavesBelow p (or_empty_parent P z xs)
  unfolding or_empty_parent
  or_empty_parent-LeavesBelow z [] h = (compress-lt _, tt)
  or_empty_parent-LeavesBelow z (x ∷ xs) h = h

  next_level-LeavesBelow : (z : ℕ) (level : List ℕ) → LeavesBelow p (next_level P z level)
  unfolding next_level
  next_level-LeavesBelow z level = or_empty_parent-LeavesBelow z _ (parents-LeavesBelow z level _ 0)

  path_levels-AllBelow :
      (n z : ℕ) (level : List ℕ) (idx : ℕ)
      → z < p
      → LeavesBelow p level
      → AllBelow p (assign_path (path_levels P (take n (zeros_from P n z)) level idx))
  unfolding path_levels zeros_from assign_path row_of
  path_levels-AllBelow zero z level idx hz h = tt
  path_levels-AllBelow (suc n) z level idx hz h = (
    (
      get_or-lt level _ z hz h,
      get_or-lt level _ z hz h,
      get_or-lt level _ z hz h,
      get_or-lt level _ z hz h,
    ),
    path_levels-AllBelow n (merkle_compress P (splat z)) (next_level P z level) (idx / 4)
        (compress-lt _) (next_level-LeavesBelow z level),
  )

module _ {S : Type 0} (P : Poseidon ℕ S) where
  abbrev input_vars : Note ℕ → List (Row ℕ × ℕ) → InputVars
  input_vars n path = record {
    v = P.of_u64 n.v;
    nk = n.nk;
    rho = n.rho;
    rcm = n.rcm;
    path = assign_path path;
    bits = low64_bits (P.of_u64 n.v);
  }

  abbrev output_vars : Note ℕ → OutputVars
  output_vars n = record {
    v = P.of_u64 n.v;
    pk = pk P n;
    rcm = n.rcm;
    bits = low64_bits (P.of_u64 n.v);
  }

module _ {S : Type 0} (p : ℕ) (P : Poseidon ℕ S) (hp : 2 ^ 66 ≤ p) (embeds : EmbedsU64 P) where
  range_at :
      (v : ℕ) → v < 2 ^ 64 → enforce_u64_range p (low64_bits (P.of_u64 v)) (P.of_u64 v) ≡ ok tt
  range_at v h = rw (embeds v h) (range_complete p v hp h)

  constrain_input_complete :
      (n : Note ℕ) (anchor : ℕ) (path : List (Row ℕ × ℕ))
      → n.v < 2 ^ 64
      → AllBelow p (assign_path path)
      → Opens P path (cm P n) anchor
      → constrain_input p P true anchor (nf P n) (input_vars P n path) ≡ ok (nf P n)
  unfolding constrain_input cm nf pk derive_pk derive_nf note_commitment
  constrain_input_complete n anchor path fits below opens =
      rw
        (
          Opens-merkle_root_gadget p P (omega arith) (cm P n) anchor path below opens,
          equal-enforce anchor anchor refl,
          equal-enforce (nf P n) (nf P n) refl,
          range_at n.v fits,
        )
        refl

  constrain_output_complete :
      (n : Note ℕ) (rho : ℕ)
      → n.v < 2 ^ 64
      → n.rho ≡ rho
      → constrain_output p P true rho (cm P n) (output_vars P n) ≡ ok tt
  unfolding constrain_output cm pk note_commitment
  constrain_output_complete n rho fits chained =
      rw (← chained, equal-enforce (cm P n) (cm P n) refl, range_at n.v fits) refl

  sums_balance :
      (a b c d e f : ℕ)
      → (a < 2 ^ 64) × (b < 2 ^ 64) × (c < 2 ^ 64) × (d < 2 ^ 64) × (e < 2 ^ 64) × (f < 2 ^ 64)
      → a + b ≡ c + d + e + f
      → add p (add p 0 (P.of_u64 a)) (P.of_u64 b)
        ≡ add p (add p (add p (add p 0 (P.of_u64 c)) (P.of_u64 d)) (P.of_u64 e)) (P.of_u64 f)
  sums_balance a b c d e f (ha, hb, hc, hd, he, hf) h =
      rw
        (
          embeds a ha,
          embeds b hb,
          embeds c hc,
          embeds d hd,
          embeds e he,
          embeds f hf,
          add-small p 0 a (omega arith),
          add-small p (0 + a) b (omega arith),
          add-small p 0 c (omega arith),
          add-small p (0 + c) d (omega arith),
          add-small p (0 + c + d) e (omega arith),
          add-small p (0 + c + d + e) f (omega arith),
        )
        (omega arith)

module _ {S : Type 0} (P : Poseidon ℕ S) where
  abbrev honest_input : List ℕ → Note ℕ → ℕ → Input
  honest_input leaves n index = record {
    v = some n.v;
    nk = some n.nk;
    rho = some n.rho;
    rcm = some n.rcm;
    path = path P (record { leaves = leaves }) index;
  }

  abbrev honest_output : Note ℕ → Output
  honest_output n = record { v = some (P.of_u64 n.v); pk = some (pk P n); rcm = some n.rcm }

  -- The circuit that a prover builds to spend the notes at two indices of the tree over `leaves`
  -- and to create two notes.
  abbrev pub honest_transfer :
      List ℕ → Note ℕ × ℕ → Note ℕ × ℕ → Note ℕ → Note ℕ → ℕ → ℕ → ℕ → TransferCircuit
  honest_transfer leaves (n1, index1) (n2, index2) o1 o2 fee v_pub_out recipient = record {
    enforce_range = true;
    legacy_statement = false;
    anchor = root P (record { leaves = leaves });
    nf1 = some (nf P n1);
    nf2 = some (nf P n2);
    cm_out1 = some (cm P o1);
    cm_out2 = some (cm P o2);
    fee = some fee;
    v_pub_out = some v_pub_out;
    recipient_binding = some recipient;
    in1 = honest_input leaves n1 index1;
    in2 = honest_input leaves n2 index2;
    out1 = honest_output o1;
    out2 = honest_output o2;
  }

  -- The variables that this circuit assigns.
  abbrev pub honest_vars :
      List ℕ → Note ℕ × ℕ → Note ℕ × ℕ → Note ℕ → Note ℕ → ℕ → ℕ → ℕ → TransferVars
  honest_vars leaves (n1, index1) (n2, index2) o1 o2 fee v_pub_out recipient = record {
    anchor = tree_root P leaves;
    nf1 = nf P n1;
    nf2 = nf P n2;
    cm_out1 = cm P o1;
    cm_out2 = cm P o2;
    fee = P.of_u64 fee;
    v_pub_out = P.of_u64 v_pub_out;
    recipient_binding = recipient;
    recipient_binding_witness = recipient;
    fee_bits = low64_bits (P.of_u64 fee);
    v_pub_out_bits = low64_bits (P.of_u64 v_pub_out);
    in1 = input_vars P n1 (path P (record { leaves = leaves }) index1);
    in2 = input_vars P n2 (path P (record { leaves = leaves }) index2);
    out1 = output_vars P o1;
    out2 = output_vars P o2;
  }

  -- Two notes of the tree, with different nullifiers and 64-bit values, are spent in a balanced way.
  pub record IsBalanced (p : ℕ) (leaves : List ℕ) (n1 : Note ℕ) (index1 : ℕ) (n2 : Note ℕ)
      (index2 : ℕ) (o1 o2 : Note ℕ) (fee v_pub_out : ℕ) : Type 0 where
    pub leaves_below : LeavesBelow p leaves
    pub index1_below : index1 < tree_capacity
    pub index2_below : index2 < tree_capacity
    pub leaf1 : get_or leaves index1 (P.of_u64 0) ≡ cm P n1
    pub leaf2 : get_or leaves index2 (P.of_u64 0) ≡ cm P n2
    pub distinct : nf P n1 ≢ nf P n2
    pub chained1 : o1.rho ≡ nf P n1
    pub chained2 : o2.rho ≡ nf P n2
    pub in_range :
        (n1.v < 2 ^ 64)
        × (n2.v < 2 ^ 64)
        × (o1.v < 2 ^ 64)
        × (o2.v < 2 ^ 64)
        × (fee < 2 ^ 64)
        × (v_pub_out < 2 ^ 64)
    pub balanced : n1.v + n2.v ≡ o1.v + o2.v + fee + v_pub_out

module _ {S : Type 0} (p : ℕ) (P : Poseidon ℕ S) (hp : 2 ^ 66 ≤ p) (embeds : EmbedsU64 P)
    (hashes : HashesBelow p P) where
  pub honest_path :
      (leaves : List ℕ) (index : ℕ)
      → LeavesBelow p leaves
      → AllBelow p (assign_path (path P (record { leaves = leaves }) index))
  unfolding path zero_hashes
  honest_path leaves index h =
      path_levels-AllBelow p P hashes 16 (P.of_u64 0) leaves index
        (rw (embeds 0 (omega arith)) (omega arith)) h

  honest_input_ok :
      (leaves : List ℕ) (n : Note ℕ) (index : ℕ)
      → LeavesBelow p leaves
      → index < tree_capacity
      → get_or leaves index (P.of_u64 0) ≡ cm P n
      → n.v < 2 ^ 64
      → constrain_input p P true
          (tree_root P leaves)
          (nf P n)
          (input_vars P n (path P (record { leaves = leaves }) index))
        ≡ ok (nf P n)
  honest_input_ok leaves n index below fits leaf small =
      constrain_input_complete p P hp embeds n (tree_root P leaves)
        (path P (record { leaves = leaves }) index) small (honest_path leaves index below)
        (subst (λ c. Opens P (path P (record { leaves = leaves }) index) c (tree_root P leaves))
          leaf (path-Opens P (record { leaves = leaves }) index fits))

  -- The variables of an honest transfer satisfy the constraints of the hardened statement.
  pub constraints-honest_vars :
      (leaves : List ℕ) (n1 : Note ℕ) (index1 : ℕ) (n2 : Note ℕ) (index2 : ℕ) (o1 o2 : Note ℕ)
      (fee v_pub_out recipient : ℕ)
      → IsBalanced P p leaves n1 index1 n2 index2 o1 o2 fee v_pub_out
      → constraints p P true false
          (honest_vars P leaves (n1, index1) (n2, index2) o1 o2 fee v_pub_out recipient)
        ≡ ok tt
  unfolding constraints
  constraints-honest_vars leaves n1 index1 n2 index2 o1 o2 fee v_pub_out recipient b =
      let (fa, fb, fc, fd, fe, ff) = b.in_range in
      rw
        (
          equal-enforce recipient recipient refl,
          range_at p P hp embeds fee fe,
          range_at p P hp embeds v_pub_out ff,
          honest_input_ok leaves n1 index1 b.leaves_below b.index1_below b.leaf1 fa,
          honest_input_ok leaves n2 index2 b.leaves_below b.index2_below b.leaf2 fb,
          ne-enforce (nf P n1) (nf P n2) b.distinct,
          constrain_output_complete p P hp embeds o1 (nf P n1) fc b.chained1,
          constrain_output_complete p P hp embeds o2 (nf P n2) fd b.chained2,
        )
        (equal-enforce _ _
          (sums_balance p P hp embeds n1.v n2.v o1.v o2.v fee v_pub_out b.in_range b.balanced))

  -- Over a modulus of at least 2^66 into which the 64-bit integers embed, with hashes that are
  -- residues: a transfer circuit that spends two notes of the tree over `leaves`, at indices below the capacity,
  -- with different nullifiers, into two notes chained to them, with 64-bit values that balance over
  -- the integers, has a complete assignment, and it satisfies every constraint of the hardened
  -- statement.
  pub generate_constraints_honest :
      (leaves : List ℕ) (n1 : Note ℕ) (index1 : ℕ) (n2 : Note ℕ) (index2 : ℕ) (o1 o2 : Note ℕ)
      (fee v_pub_out recipient : ℕ)
      → IsBalanced P p leaves n1 index1 n2 index2 o1 o2 fee v_pub_out
      → generate_constraints p P
          (honest_transfer P leaves (n1, index1) (n2, index2) o1 o2 fee v_pub_out recipient)
        ≡ ok tt
  unfolding generate_constraints
  generate_constraints_honest leaves n1 index1 n2 index2 o1 o2 fee v_pub_out recipient b =
      rw (root-tree_root P (record { leaves = leaves }))
        (constraints-honest_vars leaves n1 index1 n2 index2 o1 o2 fee v_pub_out recipient b)
