-- ===== src/Soak/Model/Reachable.antt =====
-- The operations of soak/src/model.rs that the ledger accepts, as steps, and the models they lead to.
use shielded_ledger_hivemind.Common.{
  ℕ, ◌+◌, ◌≡◌, ◌≢◌, some, List, [], ◌∷◌, ◌++◌, true, false, ok, get_elem?,
}
use shielded_ledger_hivemind.Adapter.Legacy.Messages.{Bytes, Bytes-discrete}
use shielded_ledger_hivemind.Circuit.Hash.{Poseidon}
use shielded_ledger_hivemind.Soak.Wire.{Encoding, MerkleMirror, contains}
use shielded_ledger_hivemind.Soak.Model.{
  AccountKeys, NoteRecord, ExpectedBlock, Model, PrivateTransfer, new_model, apply_shield,
  apply_transfer,
}

abbrev nullifiers_of : List ExpectedBlock → List Bytes
nullifiers_of [] = []
nullifiers_of (b ∷ blocks) = b.nullifiers ++ nullifiers_of blocks

module _ {F S M : Type 0} (P : Poseidon F S) (E : Encoding F) (R : MerkleMirror F M) where
  -- What the ledger has checked when it accepts a transfer: the circuit's balance, a known anchor, and
  -- two different nullifiers that no block carries yet.
  pub record Accepted (t : PrivateTransfer F) (m : Model F M) : Type 0 where
    pub note1 : NoteRecord F
    pub note2 : NoteRecord F
    pub found1 : get_elem? m.notes t.in1 ≡ some note1
    pub found2 : get_elem? m.notes t.in2 ≡ some note2
    pub balanced : note1.v + note2.v ≡ t.out1.v + t.out2.v + t.fee + t.v_pub_out
    pub known : contains Bytes-discrete t.anchor m.historical_roots ≡ true
    pub different : E.f_bytes note1.nf ≢ E.f_bytes note2.nf
    pub unused1 : contains Bytes-discrete (E.f_bytes note1.nf) (nullifiers_of m.blocks) ≡ false
    pub unused2 : contains Bytes-discrete (E.f_bytes note2.nf) (nullifiers_of m.blocks) ≡ false

  pub data Step : Model F M → Model F M → Type 0 where
    shield :
        {m m' : Model F M} (acct : AccountKeys F) (v : ℕ) (rho rcm : F)
        → apply_shield P E R acct v rho rcm m ≡ ok m'
        → Step m m'
    transfer :
        {m m' : Model F M} (t : PrivateTransfer F) (accounts : List (AccountKeys F))
        → Accepted t m
        → apply_transfer P E R t accounts m ≡ ok m'
        → Step m m'

  pub data Reachable (accounts balance fee : ℕ) : Model F M → Type 0 where
    start : Reachable accounts balance fee (new_model P E R accounts balance fee)
    next :
        {m m' : Model F M}
        → Reachable accounts balance fee m
        → Step m m'
        → Reachable accounts balance fee m'
