-- ===== src/Soak/Replay.antt =====
-- The block stream's replayer of soak/src/replayer.rs: parsing of a block, and the loop of `replay`. A
-- panic is a value that names the violated check and the block; a text is its UTF-8 bytes.
pub mod Runs
pub mod Checks
pub mod Sound
use Prim.Native.String.{String}
use mathlib.Core.Logic.{ite}
use mathlib.Core.Option
use native.Mathlib.Decide.{ℕ_discrete}
use shielded_ledger_hivemind.Common.{
  ℕ, ◌+◌, Option, none, some, List, [], ◌∷◌, not, Result, ok, err, ◌>>=◌, ◌>>◌, fail_if, ok_or,
}
use shielded_ledger_hivemind.Adapter.Legacy.Messages.{Bytes, Bytes-discrete}
use shielded_ledger_hivemind.Circuit.Hash.{Poseidon}
use shielded_ledger_hivemind.Circuit.Tree.{IncrementalTree, new, append}
use shielded_ledger_hivemind.Soak.Wire.{Encoding, contains, insert_new}
use shielded_ledger_hivemind.Soak.Model.{Origin}

pub record RawBlock : Type 0 where
  pub position : ℕ
  pub btype : Bytes
  pub encoding_version : ℕ
  pub phash : Option Bytes
  pub commitment : Bytes
  pub ephemeral_key : Bytes
  pub note_ciphertext : Bytes
  pub nullifiers : List Bytes
  pub anchor_before : Bytes
  pub note_root_after : Bytes
  pub timestamp : ℕ
  pub origin : Bytes
  pub hash : Bytes

-- A failed assertion or `panic!`: what is violated, and where.
pub data Violation : Type 0 where
  violation : String → ℕ → Violation

abbrev pub Replayed : Type 0 → Type 0
Replayed = Result Violation

-- `assert!`, `assert_eq!`
abbrev pub assert : {Q : Type 0} → Dec Q → String → ℕ → Replayed (Unit {0})
assert d what i = ite d (ok tt) (err (Violation.violation what i))

abbrev pub zknote1 : Bytes
zknote1 = b'z' ∷ b'k' ∷ b'n' ∷ b'o' ∷ b't' ∷ b'e' ∷ b'1' ∷ []

-- The text of `origin`.
abbrev pub origin_text : Origin → Bytes
origin_text Origin.shield = b's' ∷ b'h' ∷ b'i' ∷ b'e' ∷ b'l' ∷ b'd' ∷ []
origin_text Origin.confidential_transfer =
    b'c' ∷ b'o' ∷ b'n' ∷ b'f' ∷ b'i' ∷ b'd' ∷ b'e' ∷ b'n' ∷ b't' ∷ b'i' ∷ b'a' ∷ b'l' ∷ b'_' ∷ b't'
    ∷ b'r' ∷ b'a' ∷ b'n' ∷ b's' ∷ b'f' ∷ b'e' ∷ b'r' ∷ []

-- The arms of `match b.origin.as_str()`.
unfoldable pub origin_of : Bytes → Option Origin
origin_of text = ite (Bytes-discrete text (origin_text Origin.shield)) (some Origin.shield) (
    ite (Bytes-discrete text (origin_text Origin.confidential_transfer))
      (some Origin.confidential_transfer) none)

unfoldable pub blocks-discrete : Discrete (List Bytes)
unfolding Bytes-discrete
blocks-discrete = hlevel Bytes-discrete

unfoldable pub hash_option-discrete : Discrete (Option Bytes)
unfolding Bytes-discrete
hash_option-discrete = hlevel Bytes-discrete

-- The mutable variables of `replay`.
pub record Replay (F : Type 0) : Type 0 where
  pub tree : IncrementalTree F
  pub known_roots : List Bytes
  pub spent : List Bytes
  pub prev_hash : Option Bytes
  pub shield_ops : ℕ
  pub transfer_ops : ℕ

-- What every block is checked for first.
unfoldable pub check_header : {F : Type 0} → ℕ → RawBlock → Replay F → Replayed (Unit {0})
unfolding hash_option-discrete
check_header i b st = do
  assert (ℕ_discrete b.position i) "position mismatch" i
  assert (Bytes-discrete b.btype zknote1) "unexpected btype" i
  assert (ℕ_discrete b.encoding_version 1) "unexpected encoding_version" i
  assert (hash_option-discrete b.phash st.prev_hash) "phash link broken" i

-- `spent.insert(*nf)`, asserted to be new.
unfoldable pub spend_nullifier : Bytes → ℕ → List Bytes → Replayed (List Bytes)
unfolding contains
spend_nullifier nf i spent = do
  fail_if (contains Bytes-discrete nf spent) (Violation.violation "nullifier reused across chain" i)
  ok (nf ∷ spent)

-- The two nullifiers of a transfer.
unfoldable pub two_nullifiers : ℕ → List Bytes → Replayed (Bytes × Bytes)
two_nullifiers i [] = err (Violation.violation "transfer must spend exactly two notes" i)
two_nullifiers i (a ∷ []) = err (Violation.violation "transfer must spend exactly two notes" i)
two_nullifiers i (a ∷ b ∷ []) =
    ite (Bytes-discrete a b) (err (Violation.violation "duplicate nullifier in tx" i)) (ok (a, b))
two_nullifiers i (a ∷ b ∷ c ∷ rest) =
    err (Violation.violation "transfer must spend exactly two notes" i)

module _ {F S : Type 0} (P : Poseidon F S) (E : Encoding F) where
  -- The leaf of a commitment, which must be canonical, and the tree with it.
  unfoldable pub append_commitment : Bytes → ℕ → IncrementalTree F → Replayed (IncrementalTree F)
  append_commitment commitment i tree =
      let leaf = E.from_le_bytes_mod_order commitment in
      do
        assert (Bytes-discrete (E.f_bytes leaf) commitment) "non-canonical commitment" i
        appended ← ok_or (append P tree leaf) (Violation.violation "tree full" i)
        ok appended.0

  -- The arm "shield".
  unfoldable pub replay_shield : ℕ → RawBlock → Replay F → Replayed (Replay F)
  unfolding append_commitment insert_new blocks-discrete
  replay_shield i b st = do
    assert (blocks-discrete b.nullifiers []) "shield block must carry no nullifiers" i
    assert (Bytes-discrete b.anchor_before (E.f_bytes st.tree.root))
        "anchor_before must be the pre-append root" i
    tree ← append_commitment b.commitment i st.tree
    assert (Bytes-discrete b.note_root_after (E.f_bytes tree.root)) "root_after mismatch" i
    ok (record st {
      tree = tree;
      known_roots = insert_new Bytes-discrete b.note_root_after st.known_roots;
      prev_hash = some b.hash;
      shield_ops = st.shield_ops + 1;
    })

  -- The arm "confidential_transfer", once the second block is there.
  unfoldable pub replay_pair : ℕ → RawBlock → RawBlock → Replay F → Replayed (Replay F)
  unfolding two_nullifiers spend_nullifier append_commitment contains insert_new blocks-discrete
      hash_option-discrete
  replay_pair i b b2 st = do
    assert (Bytes-discrete b2.origin (origin_text Origin.confidential_transfer))
        "transfer pair broken" i
    assert (blocks-discrete b2.nullifiers b.nullifiers) "transfer pair nullifiers differ" i
    assert (Bytes-discrete b2.anchor_before b.anchor_before) "transfer pair anchors differ" i
    assert (Bytes-discrete b2.note_root_after b.note_root_after) "transfer pair roots differ" i
    nfs ← two_nullifiers i b.nullifiers
    fail_if (not (contains Bytes-discrete b.anchor_before st.known_roots))
        (Violation.violation "references an anchor that never appeared in the chain" i)
    spent1 ← spend_nullifier nfs.0 i st.spent
    spent2 ← spend_nullifier nfs.1 i spent1
    tree1 ← append_commitment b.commitment i st.tree
    tree2 ← append_commitment b2.commitment i tree1
    assert (Bytes-discrete b.note_root_after (E.f_bytes tree2.root)) "transfer root_after mismatch"
        i
    assert (hash_option-discrete b2.phash (some b.hash)) "phash link broken inside transfer pair" i
    ok (record {
      tree = tree2;
      known_roots = insert_new Bytes-discrete (E.f_bytes tree2.root) st.known_roots;
      spent = spent2;
      prev_hash = some b2.hash;
      shield_ops = st.shield_ops;
      transfer_ops = st.transfer_ops + 1;
    })

  -- The loop `while i < blocks.len()`, on the blocks from number `i` on.
  unfoldable pub replay_from : ℕ → List RawBlock → Replay F → Replayed (Replay F)
  unfolding check_header origin_of replay_shield replay_pair
  replay_from i [] st = ok st
  replay_from i (b ∷ []) st = do
    check_header i b st
    elim (origin_of b.origin) [
      | none ↦ err (Violation.violation "unknown origin" i)
      | some Origin.shield ↦ replay_shield i b st
      | some Origin.confidential_transfer ↦ err (Violation.violation "dangling transfer block" i)
    ]
  replay_from i (b ∷ b2 ∷ rest) st = do
    check_header i b st
    elim (origin_of b.origin) [
      | none ↦ err (Violation.violation "unknown origin" i)
      | some Origin.shield ↦ replay_shield i b st >>= (λ st'. replay_from (i + 1) (b2 ∷ rest) st')
      | some Origin.confidential_transfer ↦
          replay_pair i b b2 st >>= (λ st'. replay_from (i + 2) rest st')
    ]

  -- The variables before the loop.
  unfoldable pub replay_start : Replay F
  unfolding new
  replay_start = record {
    tree = new P;
    known_roots = E.f_bytes (new P).root ∷ [];
    spent = [];
    prev_hash = none;
    shield_ops = 0;
    transfer_ops = 0;
  }

  -- The first half of `replay`: the whole chain.
  unfoldable pub replay_chain : List RawBlock → Replayed (Replay F)
  unfolding replay_from replay_start
  replay_chain blocks = replay_from 0 blocks replay_start
