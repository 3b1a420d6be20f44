-- ===== src/Soak/Model.antt =====
-- The reference model of soak/src/model.rs. Amounts are plain numbers: the sums of u64 amounts are
-- u128 in the source. A `HashMap` is the list of its insertions, the latest first, and a
-- `BTreeSet<usize>` its ascending list. The mirror is an interface.
pub mod Steps
pub mod Reachable
pub mod Conserves
use shielded_ledger_hivemind.Common.{
  ℕ, ◌+◌, ◌-◌, Option, List, [], ◌∷◌, ◌++◌, Bool, true, false, not, ok, ◌>>=◌, ◌>>◌, fail_if, ok_or,
  length, set, replicate, ltb, ◌==◌, if◌then◌else◌,
}
use shielded_ledger_hivemind.Adapter.Legacy.Messages.{Bytes, Bytes-discrete}
use shielded_ledger_hivemind.Circuit.Hash.{Poseidon, derive_nf, note_commitment}
use shielded_ledger_hivemind.Soak.Wire.{
  Encoding, MerkleMirror, Panic, Checked, at, checked_sub, insert_index, remove_index, insert_new,
}

pub record AccountKeys (F : Type 0) : Type 0 where
  pub index : ℕ
  pub principal : Bytes
  pub nk : F
  pub pk : F
  pub scan_key : Bytes

pub record NoteRecord (F : Type 0) : Type 0 where
  pub leaf_index : ℕ
  pub cm : F
  pub owner : ℕ
  pub v : ℕ
  pub rho : F
  pub rcm : F
  pub nf : F
  pub spent : Bool

-- `origin` of a block: "shield" or "confidential_transfer".
pub data Origin : Type 0 where
  shield : Origin
  confidential_transfer : Origin

pub record ExpectedBlock : Type 0 where
  pub origin : Origin
  pub commitment : Bytes
  pub nullifiers : List Bytes
  pub anchor_before : Bytes
  pub root_after : Bytes
  pub actor : ℕ
  pub output_note : ℕ

pub record PublicAmountEvent : Type 0 where
  pub value : ℕ
  pub block_index : ℕ

pub record Model (F M : Type 0) : Type 0 where
  pub mirror : M
  pub notes : List (NoteRecord F)
  pub cm_to_note : List (Bytes × ℕ)
  pub nf_to_note : List (Bytes × ℕ)
  pub unspent_by_account : List (List ℕ)
  pub blocks : List ExpectedBlock
  pub historical_roots : List Bytes
  pub token_balances : List ℕ
  pub pool_custody : ℕ
  pub pool_value : ℕ
  pub epoch : ℕ
  pub token_fee : ℕ
  pub cumulative_shield_in : ℕ
  pub cumulative_unshield_out : ℕ
  pub shield_events : List PublicAmountEvent
  pub unshield_events : List PublicAmountEvent

-- One of the two outputs of a transfer: the owner's account, the value and the blinding.
pub record PrivateOutput (F : Type 0) : Type 0 where
  pub owner : ℕ
  pub v : ℕ
  pub rcm : F

-- The arguments of `apply_transfer`.
pub record PrivateTransfer (F : Type 0) : Type 0 where
  pub in1 : ℕ
  pub in2 : ℕ
  pub out1 : PrivateOutput F
  pub out2 : PrivateOutput F
  pub fee : ℕ
  pub v_pub_out : ℕ
  pub recipient_acct : Option ℕ
  pub anchor : Bytes

abbrev pub snoc : {A : Type 0} → List A → A → List A
snoc xs x = xs ++ (x ∷ [])

-- The sum that `total_unspent` computes.
unfoldable pub unspent_value : {F : Type 0} → List (NoteRecord F) → ℕ
unspent_value [] = 0
unspent_value (n ∷ notes) = (if n.spent then 0 else n.v) + unspent_value notes

unfoldable pub count_spent : {F : Type 0} → List (NoteRecord F) → ℕ
count_spent [] = 0
count_spent (n ∷ notes) = (if n.spent then 1 else 0) + count_spent notes

unfoldable pub sum_values : {F : Type 0} → List (NoteRecord F) → List ℕ → Checked ℕ
sum_values notes [] = ok 0
sum_values notes (i ∷ is) = do n ← at notes i; rest ← sum_values notes is; ok (n.v + rest)

module _ {F S M : Type 0} (P : Poseidon F S) (E : Encoding F) (R : MerkleMirror F M) where
  abbrev pub root_bytes : M → Bytes
  root_bytes mirror = E.f_bytes (R.root mirror)

  -- `Model::new`
  unfoldable pub new_model : ℕ → ℕ → ℕ → Model F M
  unfolding insert_new
  new_model n_accounts initial_balance token_fee = record {
    mirror = R.new;
    notes = [];
    cm_to_note = [];
    nf_to_note = [];
    unspent_by_account = replicate n_accounts [];
    blocks = [];
    historical_roots = insert_new Bytes-discrete (root_bytes R.new) [];
    token_balances = replicate n_accounts initial_balance;
    pool_custody = 0;
    pool_value = 0;
    epoch = 0;
    token_fee = token_fee;
    cumulative_shield_in = 0;
    cumulative_unshield_out = 0;
    shield_events = [];
    unshield_events = [];
  }

  -- The new note of a shield or of one output: mirror, note list, the two maps, the owner's set.
  unfoldable pub record_note : ℕ → AccountKeys F → ℕ → F → F → Model F M → Checked (Model F M)
  unfolding insert_index
  record_note owner keys v rho rcm m =
      let cm = note_commitment P v keys.pk rho rcm in
      let nf = derive_nf P keys.nk rho in
      let idx = length m.notes in
      do
        appended ← ok_or (R.append m.mirror cm) Panic.tree_full
        owned ← at m.unspent_by_account owner
        ok (record m {
          mirror = appended.0;
          notes = snoc m.notes (record {
            leaf_index = appended.1;
            cm = cm;
            owner = owner;
            v = v;
            rho = rho;
            rcm = rcm;
            nf = nf;
            spent = false;
          });
          cm_to_note = (E.f_bytes cm, idx) ∷ m.cm_to_note;
          nf_to_note = (E.f_bytes nf, idx) ∷ m.nf_to_note;
          unspent_by_account = set m.unspent_by_account owner (insert_index idx owned);
        })

  -- What a shield writes besides the note.
  abbrev pub credited : AccountKeys F → ℕ → F → F → Bytes → ℕ → ℕ → Model F M → Model F M
  credited acct v rho rcm anchor_before idx left m = record m {
    blocks = snoc m.blocks (record {
      origin = Origin.shield;
      commitment = E.f_bytes (note_commitment P v acct.pk rho rcm);
      nullifiers = [];
      anchor_before = anchor_before;
      root_after = root_bytes m.mirror;
      actor = acct.index;
      output_note = idx;
    });
    shield_events = snoc m.shield_events (record { value = v; block_index = length m.blocks });
    historical_roots = insert_new Bytes-discrete (root_bytes m.mirror) m.historical_roots;
    token_balances = set m.token_balances acct.index left;
    pool_custody = m.pool_custody + v;
    pool_value = m.pool_value + v;
    cumulative_shield_in = m.cumulative_shield_in + v;
    epoch = m.epoch + 1;
  }

  -- The block and the public numbers of a shield.
  unfoldable pub credit_shield :
      AccountKeys F → ℕ → F → F → Bytes → ℕ → Model F M → Checked (Model F M)
  unfolding insert_new
  credit_shield acct v rho rcm anchor_before idx m = do
    balance ← at m.token_balances acct.index
    left ← checked_sub balance (v + m.token_fee) Panic.overdraws_account
    ok (credited acct v rho rcm anchor_before idx left m)

  unfoldable pub apply_shield : AccountKeys F → ℕ → F → F → Model F M → Checked (Model F M)
  unfolding record_note credit_shield
  apply_shield acct v rho rcm m = do
    noted ← record_note acct.index acct v rho rcm m
    credit_shield acct v rho rcm (root_bytes m.mirror) (length m.notes) noted

  -- One round of `for input in [in1, in2]`.
  unfoldable pub spend : ℕ → Model F M → Checked (Model F M)
  unfolding remove_index
  spend input m = do
    note ← at m.notes input
    fail_if note.spent (Panic.double_spend input)
    owned ← at m.unspent_by_account note.owner
    ok (record m {
      notes = set m.notes input (record note { spent = true });
      unspent_by_account = set m.unspent_by_account note.owner (remove_index input owned);
    })

  -- The block of one output of a transfer.
  abbrev pub transfer_block : List Bytes → Bytes → Bytes → ℕ → F → ℕ → ExpectedBlock
  transfer_block nullifiers anchor final_root actor cm idx = record {
    origin = Origin.confidential_transfer;
    commitment = E.f_bytes cm;
    nullifiers = nullifiers;
    anchor_before = anchor;
    root_after = final_root;
    actor = actor;
    output_note = idx;
  }

  -- What an unshield writes besides the blocks.
  abbrev pub paid : PrivateTransfer F → ℕ → ℕ → ℕ → Model F M → Model F M
  paid t recipient balance debit m = record m {
    unshield_events =
        snoc m.unshield_events (record { value = t.v_pub_out; block_index = length m.blocks - 2 });
    pool_custody = m.pool_custody - debit;
    pool_value = m.pool_value - debit;
    cumulative_unshield_out = m.cumulative_unshield_out + debit;
    token_balances = set m.token_balances recipient (balance + t.v_pub_out);
  }

  -- The branch `v_pub_out > 0`.
  unfoldable pub pay_out : PrivateTransfer F → Model F M → Checked (Model F M)
  pay_out t m =
      let debit = t.v_pub_out + m.token_fee in
      do
        recipient ← ok_or t.recipient_acct Panic.needs_recipient
        fail_if (ltb m.pool_custody debit) Panic.overdraws_custody
        fail_if (ltb m.pool_value debit) Panic.overdraws_pool
        balance ← at m.token_balances recipient
        fail_if (not (t.fee == m.token_fee)) Panic.unshield_fee
        ok (paid t recipient balance debit m)

  -- The branch of a private transfer.
  unfoldable pub stay_private : PrivateTransfer F → Model F M → Checked (Model F M)
  stay_private t m = fail_if (not (t.fee == 0)) Panic.private_fee >> ok m

  -- The two blocks of a transfer, which carry the final root, and that root as a known one.
  abbrev pub written : PrivateTransfer F → List Bytes → ℕ → F → F → ℕ → Model F M → Model F M
  written t nullifiers actor cm1 cm2 idx m =
      let block = transfer_block nullifiers t.anchor (root_bytes m.mirror) actor in
      record m {
        blocks = snoc (snoc m.blocks (block cm1 idx)) (block cm2 (idx + 1));
        historical_roots = insert_new Bytes-discrete (root_bytes m.mirror) m.historical_roots;
      }

  -- The rest of `apply_transfer` once both inputs are spent and both outputs are recorded.
  unfoldable pub settle :
      PrivateTransfer F → List Bytes → ℕ → F → F → ℕ → Model F M → Checked (Model F M)
  unfolding pay_out stay_private insert_new
  settle t nullifiers actor cm1 cm2 idx m =
      let before = written t nullifiers actor cm1 cm2 idx m in
      do
        after ← (if ltb 0 t.v_pub_out then pay_out t before else stay_private t before)
        ok (record after { epoch = after.epoch + 1 })

  unfoldable pub apply_transfer :
      PrivateTransfer F → List (AccountKeys F) → Model F M → Checked (Model F M)
  unfolding spend record_note settle
  apply_transfer t accounts m = do
    note1 ← at m.notes t.in1
    note2 ← at m.notes t.in2
    spent1 ← spend t.in1 m
    spent2 ← spend t.in2 spent1
    keys1 ← at accounts t.out1.owner
    one ← record_note t.out1.owner keys1 t.out1.v note1.nf t.out1.rcm spent2
    keys2 ← at accounts t.out2.owner
    two ← record_note t.out2.owner keys2 t.out2.v note2.nf t.out2.rcm one
    settle t (E.f_bytes note1.nf ∷ E.f_bytes note2.nf ∷ []) note1.owner
        (note_commitment P t.out1.v keys1.pk note1.nf t.out1.rcm)
        (note_commitment P t.out2.v keys2.pk note2.nf t.out2.rcm) (length m.notes) two

module _ {F M : Type 0} where
  unfoldable pub balance_of : Model F M → ℕ → Checked ℕ
  unfolding sum_values
  balance_of m account = do owned ← at m.unspent_by_account account; sum_values m.notes owned

  unfoldable pub total_unspent : Model F M → ℕ
  unfolding unspent_value
  total_unspent m = unspent_value m.notes

  unfoldable pub spent_count : Model F M → ℕ
  unfolding count_spent
  spent_count m = count_spent m.notes
