-- ===== src/Soak/Toy.antt =====
-- A ledger of two shields and an unshield in the model of soak/src, and the stream of its blocks.
use native.Mathlib.Decide.{ℕ_discrete}
use mathlib.Core.Option
use shielded_ledger_hivemind.Common.{
  replicate, get_elem?, ℕ, ◌+◌, ◌*◌, ◌%◌, ◌^◌, ◌≡◌, refl, ap, arith, Option, none, some, List, [],
  ◌∷◌, ok, err, get_or,
}
use shielded_ledger_hivemind.Adapter.Legacy.Messages.{Bytes, Bytes-discrete}
use shielded_ledger_hivemind.Circuit.Hash.{
  Poseidon, derive_pk, hash_n, derive_nf, note_commitment, merkle_compress,
}
use shielded_ledger_hivemind.Circuit.Tree.{
  IncrementalTree, new, append, append_levels, zero_hashes, zeros_from,
}
use shielded_ledger_hivemind.Soak.Wire.{
  Encoding, MerkleMirror, Checked, insert_index, remove_index, contains, insert_new,
}
use shielded_ledger_hivemind.Soak.Model.{
  AccountKeys, NoteRecord, Model, PrivateTransfer, Origin, new_model, apply_shield, apply_transfer,
  record_note, credit_shield, spend, settle, pay_out, stay_private, balance_of, total_unspent,
  spent_count, unspent_value, count_spent, sum_values,
}
use shielded_ledger_hivemind.Soak.Model.Reachable.{
  Accepted, Reachable, start, next, shield, transfer,
}
use shielded_ledger_hivemind.Soak.Model.Conserves.{sum}
use shielded_ledger_hivemind.Soak.Replay.{RawBlock, zknote1, origin_text}
use shielded_ledger_hivemind.Soak.Scan.{encrypt_note}

-- A sponge whose state is one number.
abbrev pub sponge : Poseidon ℕ ℕ
sponge = record {
  of_u64 = λ v. v;
  new_note = 3;
  new_tree = 13;
  set_state0 = λ x s. s + x;
  absorb = λ x s. (s * 29 + x + 5) % 2 ^ 64;
  squeeze = λ s. s;
}

abbrev pub encoding : Encoding ℕ
encoding = record { f_bytes = λ x. x ∷ replicate 31 0; from_le_bytes_mod_order = λ b. get_or b 0 0 }

abbrev pub numbered : ℕ → IncrementalTree ℕ × ℕ → IncrementalTree ℕ × ℕ
numbered n (t, root) = (t, n)

-- The incremental tree itself as the mirror.
abbrev pub mirror : MerkleMirror ℕ (IncrementalTree ℕ)
mirror = record {
  new = new sponge;
  append = λ t x. Option.map (numbered t.next_index) (append sponge t x);
  root = λ t. t.root;
}

abbrev pub keys : ℕ → AccountKeys ℕ
keys i = record {
  index = i;
  principal = i ∷ [];
  nk = 100 + i;
  pk = derive_pk sponge (100 + i);
  scan_key = i ∷ [];
}

abbrev from_ok : {A : Type 0} → A → Checked A → A
from_ok a (ok x) = x
from_ok a (err e) = a

abbrev model0 : Model ℕ (IncrementalTree ℕ)
model0 = new_model sponge encoding mirror 2 100 1

abbrev model1 : Model ℕ (IncrementalTree ℕ)
model1 = from_ok model0 (apply_shield sponge encoding mirror (keys 0) 30 7 8 model0)

abbrev model2 : Model ℕ (IncrementalTree ℕ)
model2 = from_ok model0 (apply_shield sponge encoding mirror (keys 1) 20 9 10 model1)

abbrev payment : PrivateTransfer ℕ
payment = record {
  in1 = 0;
  in2 = 1;
  out1 = record { owner = 1; v = 25; rcm = 11 };
  out2 = record { owner = 0; v = 14; rcm = 12 };
  fee = 1;
  v_pub_out = 10;
  recipient_acct = some 1;
  anchor = encoding.f_bytes (mirror.root model1.mirror);
}

abbrev pub model3 : Model ℕ (IncrementalTree ℕ)
model3 =
    from_ok model0 (apply_transfer sponge encoding mirror payment (keys 0 ∷ keys 1 ∷ []) model2)

-- The pool, the epoch and the sums after the three operations.
run3 :
    model3.pool_value
      ∷ model3.epoch
      ∷ total_unspent model3
      ∷ spent_count model3
      ∷ from_ok 0 (balance_of model3 1)
      ∷ sum model3.token_balances
      ∷ []
    ≡ 39 ∷ 3 ∷ 39 ∷ 2 ∷ 25 ∷ 158 ∷ []
unfolding new_model apply_shield record_note credit_shield insert_index remove_index contains
    insert_new spend settle pay_out stay_private apply_transfer total_unspent unspent_value
    spent_count count_spent balance_of sum_values new append append_levels zero_hashes zeros_from
    derive_pk derive_nf note_commitment hash_n merkle_compress Bytes-discrete ℕ_discrete
run3 = refl

step1 : apply_shield sponge encoding mirror (keys 0) 30 7 8 model0 ≡ ok model1
unfolding new_model apply_shield record_note credit_shield insert_index remove_index contains
    insert_new spend settle pay_out stay_private apply_transfer new append append_levels zero_hashes
    zeros_from derive_pk derive_nf note_commitment hash_n merkle_compress Bytes-discrete ℕ_discrete
step1 = refl

step2 : apply_shield sponge encoding mirror (keys 1) 20 9 10 model1 ≡ ok model2
unfolding new_model apply_shield record_note credit_shield insert_index remove_index contains
    insert_new spend settle pay_out stay_private apply_transfer new append append_levels zero_hashes
    zeros_from derive_pk derive_nf note_commitment hash_n merkle_compress Bytes-discrete ℕ_discrete
step2 = refl

step3 : apply_transfer sponge encoding mirror payment (keys 0 ∷ keys 1 ∷ []) model2 ≡ ok model3
unfolding new_model apply_shield record_note credit_shield insert_index remove_index contains
    insert_new spend settle pay_out stay_private apply_transfer new append append_levels zero_hashes
    zeros_from derive_pk derive_nf note_commitment hash_n merkle_compress Bytes-discrete ℕ_discrete
step3 = refl

accepted3 : Accepted sponge encoding mirror payment model2
unfolding new_model apply_shield record_note credit_shield insert_index remove_index contains
    insert_new spend settle pay_out stay_private apply_transfer new append append_levels zero_hashes
    zeros_from derive_pk derive_nf note_commitment hash_n merkle_compress Bytes-discrete ℕ_discrete
accepted3 = record {
  note1 = _;
  note2 = _;
  found1 = refl;
  found2 = refl;
  balanced = refl;
  known = refl;
  different = λ e. absurd (omega (arith, ap (λ (b : Bytes). get_or b 0 0) e));
  unused1 = refl;
  unused2 = refl;
}

pub reachable3 : Reachable sponge encoding mirror 2 100 1 model3
reachable3 =
    next (next (next start (shield (keys 0) 30 7 8 step1)) (shield (keys 1) 20 9 10 step2))
      (transfer payment (keys 0 ∷ keys 1 ∷ []) accepted3 step3)

-- A digest that depends on every byte.
abbrev pub digest : Bytes → Bytes
digest bytes = replicate 32 (sum bytes % 251)

abbrev ciphertext : Option (NoteRecord ℕ) → Bytes → Bytes
ciphertext none eph = []
ciphertext (some n) eph = encrypt_note digest encoding (keys n.owner) n.v n.rho n.rcm eph

-- The stream's block for the expected block with a number.
abbrev raw : ℕ → Option Bytes → Bytes → RawBlock
raw i prev hash =
    let e = get_or model3.blocks i (record {
      origin = Origin.shield;
      commitment = [];
      nullifiers = [];
      anchor_before = [];
      root_after = [];
      actor = 0;
      output_note = 0;
    }) in
    record {
      position = i;
      btype = zknote1;
      encoding_version = 1;
      phash = prev;
      commitment = e.commitment;
      ephemeral_key = i ∷ [];
      note_ciphertext = ciphertext (get_elem? model3.notes i) (i ∷ []);
      nullifiers = e.nullifiers;
      anchor_before = e.anchor_before;
      note_root_after = e.root_after;
      timestamp = 0;
      origin = origin_text e.origin;
      hash = hash;
    }

abbrev pub stream : List RawBlock
stream =
    raw 0 none (50 ∷ [])
    ∷ raw 1 (some (50 ∷ [])) (51 ∷ [])
    ∷ raw 2 (some (51 ∷ [])) (52 ∷ [])
    ∷ raw 3 (some (52 ∷ [])) (53 ∷ [])
    ∷ []
