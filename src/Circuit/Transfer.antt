-- ===== src/Circuit/Transfer.antt =====
-- `TransferCircuit` of circuit/common/src/lib.rs: the 2-in/2-out transfer statement. An array of two
-- is two fields, and the rows of a path are paired with its positions, as the gadget zips them.
pub mod Soundness
pub mod Completeness
use shielded_ledger_hivemind.Common.{
  ℕ, Bool, true, false, not, ◌&&◌, Option, none, List, [], ◌∷◌, replicate, ok, ok_or, ◌>>=◌, ◌>>◌,
}
use shielded_ledger_hivemind.Circuit.Row.{Row, splat}
use shielded_ledger_hivemind.Circuit.Hash.{Poseidon, hash_n, tag_pk, tag_nf, tag_cm}
use shielded_ledger_hivemind.Circuit.Field.{
  assignment_missing, Synthesis, enforce_equal, enforce_not_equal, add,
}
use shielded_ledger_hivemind.Circuit.Range.{enforce_u64_range, low64_bits}
use shielded_ledger_hivemind.Circuit.Membership.{merkle_root_gadget, assign_path}
use shielded_ledger_hivemind.Circuit.Tree.{tree_levels}

-- `in_v[i]`, `in_nk[i]`, `in_rho[i]`, `in_rcm[i]`, `in_rows[i]` with `in_pos[i]`.
pub record Input : Type 0 where
  pub v : Option ℕ
  pub nk : Option ℕ
  pub rho : Option ℕ
  pub rcm : Option ℕ
  pub path : List (Row ℕ × ℕ)

-- `out_v[j]` (a field value), `out_pk[j]`, `out_rcm[j]`.
pub record Output : Type 0 where
  pub v : Option ℕ
  pub pk : Option ℕ
  pub rcm : Option ℕ

pub record TransferCircuit : Type 0 where
  pub enforce_range : Bool
  pub legacy_statement : Bool
  pub anchor : Option ℕ
  pub nf1 : Option ℕ
  pub nf2 : Option ℕ
  pub cm_out1 : Option ℕ
  pub cm_out2 : Option ℕ
  pub fee : Option ℕ
  pub v_pub_out : Option ℕ
  pub recipient_binding : Option ℕ
  pub in1 : Input
  pub in2 : Input
  pub out1 : Output
  pub out2 : Output

abbrev pub blank_input : Input
blank_input = record {
  v = none;
  nk = none;
  rho = none;
  rcm = none;
  path = replicate tree_levels (splat 0, 0);
}

abbrev pub blank_output : Output
blank_output = record { v = none; pk = none; rcm = none }

-- The circuit for key generation, of the hardened statement.
unfoldable pub blank : TransferCircuit
blank = record {
  enforce_range = true;
  legacy_statement = false;
  anchor = none;
  nf1 = none;
  nf2 = none;
  cm_out1 = none;
  cm_out2 = none;
  fee = none;
  v_pub_out = none;
  recipient_binding = none;
  in1 = blank_input;
  in2 = blank_input;
  out1 = blank_output;
  out2 = blank_output;
}

unfoldable pub blank_legacy : TransferCircuit
unfolding blank
blank_legacy = record blank { legacy_statement = true }

-- The variables of one input note: the allocated witnesses, the rows with their selectors, and the
-- bits of the range gadget.
pub record InputVars : Type 0 where
  pub v : ℕ
  pub nk : ℕ
  pub rho : ℕ
  pub rcm : ℕ
  pub path : List (Row ℕ × Row Bool)
  pub bits : ℕ → Bool

pub record OutputVars : Type 0 where
  pub v : ℕ
  pub pk : ℕ
  pub rcm : ℕ
  pub bits : ℕ → Bool

-- All variables of the circuit, the public ones first.
pub record TransferVars : Type 0 where
  pub anchor : ℕ
  pub nf1 : ℕ
  pub nf2 : ℕ
  pub cm_out1 : ℕ
  pub cm_out2 : ℕ
  pub fee : ℕ
  pub v_pub_out : ℕ
  pub recipient_binding : ℕ
  pub recipient_binding_witness : ℕ
  pub fee_bits : ℕ → Bool
  pub v_pub_out_bits : ℕ → Bool
  pub in1 : InputVars
  pub in2 : InputVars
  pub out1 : OutputVars
  pub out2 : OutputVars

-- `if b { c }`
abbrev pub when : Bool → Synthesis (Unit {0}) → Synthesis (Unit {0})
when true c = c
when false c = ok tt

module _ {S : Type 0} (p : ℕ) (P : Poseidon ℕ S) where
  -- One round of the loop over the inputs; the nullifier is what the outputs chain to. The sponge
  -- gadget takes the value of the native sponge.
  unfoldable pub constrain_input : Bool → ℕ → ℕ → InputVars → Synthesis ℕ
  constrain_input enforce_range anchor nf_pub i = do
    let pk = hash_n P (P.of_u64 tag_pk ∷ i.nk ∷ [])
    let cm = hash_n P (P.of_u64 tag_cm ∷ i.v ∷ pk ∷ i.rho ∷ i.rcm ∷ [])
    root ← merkle_root_gadget p P cm i.path
    enforce_equal root anchor
    let nf = hash_n P (P.of_u64 tag_nf ∷ i.nk ∷ i.rho ∷ [])
    enforce_equal nf nf_pub
    when enforce_range (enforce_u64_range p i.bits i.v)
    ok nf

  -- One round of the loop over the outputs: rho is the nullifier of the input of the same number.
  unfoldable pub constrain_output : Bool → ℕ → ℕ → OutputVars → Synthesis (Unit {0})
  constrain_output enforce_range rho_out cm_pub o = do
    let cm = hash_n P (P.of_u64 tag_cm ∷ o.v ∷ o.pk ∷ rho_out ∷ o.rcm ∷ [])
    enforce_equal cm cm_pub
    when enforce_range (enforce_u64_range p o.bits o.v)

  -- The constraints of `generate_constraints`, in the order of the source.
  unfoldable pub constraints : Bool → Bool → TransferVars → Synthesis (Unit {0})
  constraints enforce_range legacy t = do
    enforce_equal t.recipient_binding_witness t.recipient_binding
    when (not legacy && enforce_range) (enforce_u64_range p t.fee_bits t.fee)
    when (not legacy && enforce_range) (enforce_u64_range p t.v_pub_out_bits t.v_pub_out)
    nf1 ← constrain_input enforce_range t.anchor t.nf1 t.in1
    nf2 ← constrain_input enforce_range t.anchor t.nf2 t.in2
    when (not legacy) (enforce_not_equal nf1 nf2)
    constrain_output enforce_range nf1 t.cm_out1 t.out1
    constrain_output enforce_range nf2 t.cm_out2 t.out2
    let in_value_sum = add p (add p 0 t.in1.v) t.in2.v
    let out_value_sum = add p (add p 0 t.out1.v) t.out2.v
    enforce_equal in_value_sum (add p (add p out_value_sum t.fee) t.v_pub_out)

  abbrev pub opt : Option ℕ → Synthesis ℕ
  opt o = ok_or o assignment_missing

  unfoldable pub assign_input : Input → Synthesis InputVars
  assign_input i = do
    v ← opt i.v
    nk ← opt i.nk
    rho ← opt i.rho
    rcm ← opt i.rcm
    ok (record {
      v = P.of_u64 v;
      nk = nk;
      rho = rho;
      rcm = rcm;
      path = assign_path i.path;
      bits = low64_bits (P.of_u64 v);
    })

  unfoldable pub assign_output : Output → Synthesis OutputVars
  assign_output o = do
    v ← opt o.v
    pk ← opt o.pk
    rcm ← opt o.rcm
    ok (record { v = v; pk = pk; rcm = rcm; bits = low64_bits v })

  -- The values that the closures of `generate_constraints` give the variables.
  unfoldable pub assign : TransferCircuit → Synthesis TransferVars
  unfolding assign_input assign_output
  assign c = do
    anchor ← opt c.anchor
    nf1 ← opt c.nf1
    nf2 ← opt c.nf2
    cm_out1 ← opt c.cm_out1
    cm_out2 ← opt c.cm_out2
    fee ← opt c.fee
    v_pub_out ← opt c.v_pub_out
    recipient_binding ← opt c.recipient_binding
    in1 ← assign_input c.in1
    in2 ← assign_input c.in2
    out1 ← assign_output c.out1
    out2 ← assign_output c.out2
    ok (record {
      anchor = anchor;
      nf1 = nf1;
      nf2 = nf2;
      cm_out1 = cm_out1;
      cm_out2 = cm_out2;
      fee = P.of_u64 fee;
      v_pub_out = P.of_u64 v_pub_out;
      recipient_binding = recipient_binding;
      recipient_binding_witness = recipient_binding;
      fee_bits = low64_bits (P.of_u64 fee);
      v_pub_out_bits = low64_bits (P.of_u64 v_pub_out);
      in1 = in1;
      in2 = in2;
      out1 = out1;
      out2 = out2;
    })

  -- `generate_constraints` run by a prover: the assignment, and whether it satisfies them all.
  unfoldable pub generate_constraints : TransferCircuit → Synthesis (Unit {0})
  unfolding assign constraints
  generate_constraints c = do t ← assign c; constraints c.enforce_range c.legacy_statement t

  -- The public inputs in the order of allocation.
  unfoldable pub public_inputs : TransferVars → List ℕ
  public_inputs t =
      t.anchor ∷ t.nf1 ∷ t.nf2 ∷ t.cm_out1 ∷ t.cm_out2 ∷ t.fee ∷ t.v_pub_out ∷ t.recipient_binding
      ∷ []
