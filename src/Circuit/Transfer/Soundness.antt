-- ===== src/Circuit/Transfer/Soundness.antt =====
-- The conditions that the transfer circuit of circuit/common/src/lib.rs enforces.
use shielded_ledger_hivemind.Common.{
  ℕ, ◌+◌, ◌^◌, ◌≤◌, ◌<◌, ◌≡◌, ◌≢◌, ◌⊎◌, inl, inr, sym, ◌∙◌, arith, true, false, List, [], ◌∷◌,
  length, get_or, ok, >>=-eq-ok, >>-eq-ok, subst, subst₂, ok-injective,
}
use shielded_ledger_hivemind.Circuit.Hash.{
  Poseidon, hash_n, tag_cm, derive_pk, derive_nf, note_commitment,
}
use shielded_ledger_hivemind.Circuit.Field.{
  enforce_equal, enforce_not_equal, enforce_equal-ok, enforce_not_equal-ok, add, add-small,
}
use shielded_ledger_hivemind.Circuit.Range.{enforce_u64_range, range_sound}
use shielded_ledger_hivemind.Circuit.Membership.{
  merkle_root_gadget, AllBelow, marked_path, length-marked_path, merkle_root_gadget-Opens,
}
use native.Mathlib.Decide.{ℕ_discrete}
use shielded_ledger_hivemind.Circuit.Tree.{tree_levels}
use shielded_ledger_hivemind.Circuit.Tree.Nodes.{tree_root}
use shielded_ledger_hivemind.Circuit.Tree.Path.{Opens, Collision, Opens-leaf, path_index}
use shielded_ledger_hivemind.Circuit.Transfer.{
  InputVars, OutputVars, TransferVars, constrain_input, constrain_output, constraints,
}

-- `F::from(u64)` embeds the 64-bit integers as residues.
abbrev pub EmbedsU64 : {S : Type 0} → Poseidon ℕ S → Type 0
EmbedsU64 P = (v : ℕ) → v < 2 ^ 64 → P.of_u64 v ≡ v

module _ {S : Type 0} (P : Poseidon ℕ S) where
  -- The commitment of the note that an input variable block stands for.
  abbrev pub spent_cm : InputVars → ℕ
  spent_cm i = note_commitment P i.v (derive_pk P i.nk) i.rho i.rcm

  -- An input note: its value is 64 bits wide, its commitment opens the anchor, and `nf` is its
  -- nullifier.
  pub record Spends (anchor nf : ℕ) (i : InputVars) : Type 0 where
    pub in_range : i.v < 2 ^ 64
    pub opens : Opens P (marked_path i.path) (spent_cm i) anchor
    pub nullifier : derive_nf P i.nk i.rho ≡ nf

  -- An output note with the given rho.
  pub record Creates (rho cm : ℕ) (o : OutputVars) : Type 0 where
    pub in_range : o.v < 2 ^ 64
    pub commits : note_commitment P o.v o.pk rho o.rcm ≡ cm

  -- The transfer statement, over the integers.
  pub record TransferStatement (t : TransferVars) : Type 0 where
    pub spends1 : Spends t.anchor t.nf1 t.in1
    pub spends2 : Spends t.anchor t.nf2 t.in2
    pub distinct : t.nf1 ≢ t.nf2
    pub creates1 : Creates t.nf1 t.cm_out1 t.out1
    pub creates2 : Creates t.nf2 t.cm_out2 t.out2
    pub fee_in_range : t.fee < 2 ^ 64
    pub v_pub_out_in_range : t.v_pub_out < 2 ^ 64
    pub conserves : t.in1.v + t.in2.v ≡ t.out1.v + t.out2.v + t.fee + t.v_pub_out

module _ {S : Type 0} (p : ℕ) (P : Poseidon ℕ S) (hp : 2 ^ 66 ≤ p) (embeds : EmbedsU64 P) where
  -- On 64-bit values the commitment that the circuit hashes is that of the note.
  commitment_of_value :
      (v pk rho rcm : ℕ)
      → v < 2 ^ 64
      → hash_n P (P.of_u64 tag_cm ∷ v ∷ pk ∷ rho ∷ rcm ∷ []) ≡ note_commitment P v pk rho rcm
  unfolding note_commitment
  commitment_of_value v pk rho rcm h = rw (embeds v h)

  constrain_input-Spends :
      (anchor nf_pub nf : ℕ) (i : InputVars)
      → AllBelow p i.path
      → constrain_input p P true anchor nf_pub i ≡ ok nf
      → Spends P anchor nf_pub i × (nf ≡ nf_pub)
  unfolding constrain_input derive_pk derive_nf
  constrain_input-Spends anchor nf_pub nf i below h =
      let (root, opened, h1) = >>=-eq-ok (merkle_root_gadget p P _ i.path) _ h in
      let (at, h2) = >>-eq-ok (enforce_equal root anchor) _ h1 in
      let (nul, h3) = >>-eq-ok (enforce_equal (derive_nf P i.nk i.rho) nf_pub) _ h2 in
      let (range, h4) = >>-eq-ok (enforce_u64_range p i.bits i.v) _ h3 in
      let fits = range_sound p i.bits i.v hp range in
      let path = merkle_root_gadget-Opens p P (omega arith) _ root i.path below opened in
      let same = commitment_of_value i.v (derive_pk P i.nk) i.rho i.rcm fits in
      let nullified = enforce_equal-ok _ nf_pub nul in
      (
        record {
          in_range = fits;
          opens = subst₂ (Opens P (marked_path i.path)) same (enforce_equal-ok root anchor at) path;
          nullifier = nullified;
        },
        sym (ok-injective h4) ∙ nullified,
      )

  constrain_output-Creates :
      (rho cm : ℕ) (o : OutputVars)
      → constrain_output p P true rho cm o ≡ ok tt
      → Creates P rho cm o
  unfolding constrain_output
  constrain_output-Creates rho cm o h =
      let (commits, range) = >>-eq-ok (enforce_equal _ cm) _ h in
      let fits = range_sound p o.bits o.v hp range in
      record {
        in_range = fits;
        commits = sym (commitment_of_value o.v o.pk rho o.rcm fits) ∙ enforce_equal-ok _ cm commits;
      }

  -- Sums of four 64-bit values do not wrap around the modulus.
  sums_exact :
      (a b c d e f : ℕ)
      → (a < 2 ^ 64) × (b < 2 ^ 64) × (c < 2 ^ 64) × (d < 2 ^ 64) × (e < 2 ^ 64) × (f < 2 ^ 64)
      → add p (add p 0 a) b ≡ add p (add p (add p (add p 0 c) d) e) f
      → a + b ≡ c + d + e + f
  sums_exact a b c d e f (ha, hb, hc, hd, he, hf) h =
      let h' : 0 + a + b ≡ 0 + c + d + e + f =
        rw
          (
            add-small p 0 a (omega arith),
            add-small p (0 + a) b (omega arith),
            add-small p 0 c (omega arith),
            add-small p (0 + c) d (omega arith),
            add-small p (0 + c + d) e (omega arith),
            add-small p (0 + c + d + e) f (omega arith),
          )
          at h in
      omega arith

  -- Over a modulus of at least 2^66 into which the 64-bit integers embed, whatever residues the prover
  -- assigns to the variables, if the constraints of the hardened statement hold then both inputs are
  -- notes under the anchor with the published nullifiers, which differ, both published commitments are
  -- of notes chained to them, and the values, fee and withdrawal are 64-bit integers that balance.
  pub constraints-TransferStatement :
      (t : TransferVars)
      → AllBelow p t.in1.path
      → AllBelow p t.in2.path
      → constraints p P true false t ≡ ok tt
      → TransferStatement P t
  unfolding constraints
  constraints-TransferStatement t below1 below2 h =
      let (_, h1) = >>-eq-ok (enforce_equal t.recipient_binding_witness t.recipient_binding) _ h in
      let (fee, h2) = >>-eq-ok (enforce_u64_range p t.fee_bits t.fee) _ h1 in
      let (out, h3) = >>-eq-ok (enforce_u64_range p t.v_pub_out_bits t.v_pub_out) _ h2 in
      let (nf1, i1, h4) = >>=-eq-ok (constrain_input p P true t.anchor t.nf1 t.in1) _ h3 in
      let (nf2, i2, h5) = >>=-eq-ok (constrain_input p P true t.anchor t.nf2 t.in2) _ h4 in
      let (ne, h6) = >>-eq-ok (enforce_not_equal nf1 nf2) _ h5 in
      let (o1, h7) = >>-eq-ok (constrain_output p P true nf1 t.cm_out1 t.out1) _ h6 in
      let (o2, sums) = >>-eq-ok (constrain_output p P true nf2 t.cm_out2 t.out2) _ h7 in
      let (s1, e1) = constrain_input-Spends t.anchor t.nf1 nf1 t.in1 below1 i1 in
      let (s2, e2) = constrain_input-Spends t.anchor t.nf2 nf2 t.in2 below2 i2 in
      let c1 =
        subst (λ r. Creates P r t.cm_out1 t.out1) e1
          (constrain_output-Creates nf1 t.cm_out1 t.out1 o1) in
      let c2 =
        subst (λ r. Creates P r t.cm_out2 t.out2) e2
          (constrain_output-Creates nf2 t.cm_out2 t.out2 o2) in
      let fee_fits = range_sound p t.fee_bits t.fee hp fee in
      let out_fits = range_sound p t.v_pub_out_bits t.v_pub_out hp out in
      record {
        spends1 = s1;
        spends2 = s2;
        distinct = λ e. enforce_not_equal-ok nf1 nf2 ne (e1 ∙ e ∙ sym e2);
        creates1 = c1;
        creates2 = c2;
        fee_in_range = fee_fits;
        v_pub_out_in_range = out_fits;
        conserves =
            sums_exact t.in1.v t.in2.v t.out1.v t.out2.v t.fee t.v_pub_out
              (s1.in_range, s2.in_range, c1.in_range, c2.in_range, fee_fits, out_fits)
              (enforce_equal-ok _ _ sums);
      }

module _ {S : Type 0} (p : ℕ) (P : Poseidon ℕ S) (hp : 2 ^ 66 ≤ p) (embeds : EmbedsU64 P) where
  -- Over a modulus of at least 2^66 into which the 64-bit integers embed, an assignment of residues
  -- with paths of TREE_LEVELS rows whose anchor is the root over `leaves` and which satisfies the
  -- hardened constraints spends leaves: each input commitment is the leaf at the index that its
  -- selectors mark (the empty leaf beyond the last), or there are two rows with one compression.
  pub constraints-spent_leaves :
      (t : TransferVars) (leaves : List ℕ)
      → t.anchor ≡ tree_root P leaves
      → AllBelow p t.in1.path
      → AllBelow p t.in2.path
      → length t.in1.path ≡ tree_levels
      → length t.in2.path ≡ tree_levels
      → constraints p P true false t ≡ ok tt
      → ((spent_cm P t.in1 ≡ get_or leaves (path_index (marked_path t.in1.path)) (P.of_u64 0))
          × (spent_cm P t.in2 ≡ get_or leaves (path_index (marked_path t.in2.path)) (P.of_u64 0)))
        ⊎ Collision P
  constraints-spent_leaves t leaves anchor below1 below2 len1 len2 h =
      let s = constraints-TransferStatement p P hp embeds t below1 below2 h in
      let leaf1 =
        Opens-leaf P ℕ_discrete leaves (marked_path t.in1.path) (spent_cm P t.in1)
          (length-marked_path t.in1.path ∙ len1)
          (subst (Opens P (marked_path t.in1.path) (spent_cm P t.in1)) anchor s.spends1.opens) in
      let leaf2 =
        Opens-leaf P ℕ_discrete leaves (marked_path t.in2.path) (spent_cm P t.in2)
          (length-marked_path t.in2.path ∙ len2)
          (subst (Opens P (marked_path t.in2.path) (spent_cm P t.in2)) anchor s.spends2.opens) in
      both leaf1 leaf2
    where
      both : {A B C : Type 0} → A ⊎ C → B ⊎ C → (A × B) ⊎ C
      both (inl a) (inl b) = inl (a, b)
      both (inl a) (inr c) = inr c
      both (inr c) b = inr c
