-- ===== src/Circuit/Deposit.antt =====
-- `DepositCircuit` of circuit/common/src/lib.rs: the commitment of a note to a public value.
use shielded_ledger_hivemind.Common.{
  ℕ, ◌≡◌, refl, sym, ◌∙◌, ap, Option, none, some, List, [], ◌∷◌, ok, ok_or, ◌>>=◌, >>=-eq-ok,
  ok_or-eq-ok, ◌↔◌,
}
use shielded_ledger_hivemind.Circuit.Hash.{Poseidon, hash_n, tag_cm, note_commitment}
use shielded_ledger_hivemind.Circuit.Field.{
  Synthesis, assignment_missing, enforce_equal, enforce_equal-ok, equal-enforce,
}

pub record DepositCircuit : Type 0 where
  pub cm : Option ℕ
  pub v_pub : Option ℕ
  pub pk : Option ℕ
  pub rho : Option ℕ
  pub rcm : Option ℕ

unfoldable pub blank_deposit : DepositCircuit
blank_deposit = record { cm = none; v_pub = none; pk = none; rho = none; rcm = none }

module _ {S : Type 0} (P : Poseidon ℕ S) where
  -- `generate_constraints` of the deposit circuit: the allocations, and the one constraint.
  unfoldable pub deposit_constraints : DepositCircuit → Synthesis (Unit {0})
  deposit_constraints c = do
    cm_pub ← ok_or c.cm assignment_missing
    v ← ok_or c.v_pub assignment_missing
    pk ← ok_or c.pk assignment_missing
    rho ← ok_or c.rho assignment_missing
    rcm ← ok_or c.rcm assignment_missing
    let cm = hash_n P (P.of_u64 tag_cm ∷ P.of_u64 v ∷ pk ∷ rho ∷ rcm ∷ [])
    enforce_equal cm cm_pub

  -- `none` is the panic of `unwrap`.
  unfoldable pub deposit_public_inputs : DepositCircuit → Option (List ℕ)
  deposit_public_inputs c = elim c.cm [
    | none ↦ none
    | some cm ↦ elim c.v_pub [ none ↦ none | some v ↦ some (cm ∷ P.of_u64 v ∷ []) ]
  ]

  -- An assignment that is complete and whose public commitment is that of a note of the public value.
  pub record Deposits (c : DepositCircuit) : Type 0 where
    pub value : ℕ
    pub owner : ℕ
    pub rho : ℕ
    pub rcm : ℕ
    pub commits : c.cm ≡ some (note_commitment P value owner rho rcm)
    pub v_pub_is : c.v_pub ≡ some value
    pub pk_is : c.pk ≡ some owner
    pub rho_is : c.rho ≡ some rho
    pub rcm_is : c.rcm ≡ some rcm

  deposit_constraints-Deposits : (c : DepositCircuit) → deposit_constraints c ≡ ok tt → Deposits c
  unfolding deposit_constraints note_commitment
  deposit_constraints-Deposits c h =
      let (cm, e1, h1) = >>=-eq-ok (ok_or c.cm assignment_missing) _ h in
      let (v, e2, h2) = >>=-eq-ok (ok_or c.v_pub assignment_missing) _ h1 in
      let (pk, e3, h3) = >>=-eq-ok (ok_or c.pk assignment_missing) _ h2 in
      let (rho, e4, h4) = >>=-eq-ok (ok_or c.rho assignment_missing) _ h3 in
      let (rcm, e5, h5) = >>=-eq-ok (ok_or c.rcm assignment_missing) _ h4 in
      record {
        value = v;
        owner = pk;
        rho = rho;
        rcm = rcm;
        commits = ok_or-eq-ok c.cm assignment_missing e1 ∙ ap some (sym (enforce_equal-ok _ cm h5));
        v_pub_is = ok_or-eq-ok c.v_pub assignment_missing e2;
        pk_is = ok_or-eq-ok c.pk assignment_missing e3;
        rho_is = ok_or-eq-ok c.rho assignment_missing e4;
        rcm_is = ok_or-eq-ok c.rcm assignment_missing e5;
      }

  Deposits-deposit_constraints : (c : DepositCircuit) → Deposits c → deposit_constraints c ≡ ok tt
  unfolding deposit_constraints note_commitment
  Deposits-deposit_constraints c d =
      rw (d.commits, d.v_pub_is, d.pk_is, d.rho_is, d.rcm_is)
        (equal-enforce (note_commitment P d.value d.owner d.rho d.rcm) _ refl)

  -- A deposit assignment satisfies the circuit exactly when it is complete and its public commitment
  -- is that of the note with the public value and the witnesses.
  pub deposit_constraints-exact :
      (c : DepositCircuit) → (deposit_constraints c ≡ ok tt) ↔ Deposits c
  deposit_constraints-exact c = (deposit_constraints-Deposits c, Deposits-deposit_constraints c)
