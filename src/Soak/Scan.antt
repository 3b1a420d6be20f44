-- ===== src/Soak/Scan.antt =====
-- Balances by recognition of note ciphertexts: `try_decrypt_note` of soak/src/prover.rs, the wallet's
-- scan of soak/src/scan.rs, and the second half of `replay` in soak/src/replayer.rs.
pub mod Agree
pub mod RoundTrip
pub mod Stream
use Prim.Native.Nat.{bit_xor}
use mathlib.Core.Logic.{ite}
use shielded_ledger_hivemind.Common.{
  ℕ, zero, suc, ◌+◌, ◌*◌, ◌/◌, ◌%◌, ◌^◌, true, false, not, Option, none, some, List, [], ◌∷◌, ◌++◌,
  ok, ◌>>=◌, ◌>>◌, fail_if, length, take, drop, ltb, ◌==◌, if◌then◌else◌,
}
use shielded_ledger_hivemind.Adapter.Legacy.Messages.{Bytes, Bytes-discrete}
use shielded_ledger_hivemind.Circuit.Hash.{Poseidon, derive_nf, note_commitment}
use shielded_ledger_hivemind.Soak.Wire.{Encoding, contains}
use shielded_ledger_hivemind.Soak.Model.{AccountKeys}
use shielded_ledger_hivemind.Soak.Replay.{RawBlock, Violation, Replayed, assert, replay_chain}

abbrev pub note_payload_len : ℕ
note_payload_len = 104

abbrev pub note_tag_len : ℕ
note_tag_len = 8

abbrev pub stream_domain : Bytes
stream_domain =
    b's' ∷ b'o' ∷ b'a' ∷ b'k' ∷ b'-' ∷ b'n' ∷ b'o' ∷ b't' ∷ b'e' ∷ b'-' ∷ b's' ∷ b't' ∷ b'r' ∷ b'e'
    ∷ b'a' ∷ b'm' ∷ b'-' ∷ b'v' ∷ b'1' ∷ []

abbrev pub tag_domain : Bytes
tag_domain =
    b's' ∷ b'o' ∷ b'a' ∷ b'k' ∷ b'-' ∷ b'n' ∷ b'o' ∷ b't' ∷ b'e' ∷ b'-' ∷ b't' ∷ b'a' ∷ b'g' ∷ b'-'
    ∷ b'v' ∷ b'1' ∷ []

-- The opening of a note: value, rho, rcm and pk.
pub record Opening : Type 0 where
  pub v : ℕ
  pub rho : Bytes
  pub rcm : Bytes
  pub pk : Bytes

-- `u64::from_le_bytes`
unfoldable pub le_value : Bytes → ℕ
le_value [] = 0
le_value (b ∷ bytes) = b + 256 * le_value bytes

-- `counter.to_le_bytes()` of a u32
unfoldable pub u32_le : ℕ → Bytes
u32_le n = n % 256 ∷ n / 2 ^ 8 % 256 ∷ n / 2 ^ 16 % 256 ∷ n / 2 ^ 24 % 256 ∷ []

-- `v.to_le_bytes()` of a u64
unfoldable pub u64_le : ℕ → Bytes
unfolding u32_le
u64_le n = u32_le n ++ u32_le (n / 2 ^ 32)

unfoldable pub xor_all : Bytes → Bytes → Bytes
xor_all [] ys = []
xor_all (x ∷ xs) [] = []
xor_all (x ∷ xs) (y ∷ ys) = bit_xor x y ∷ xor_all xs ys

module _ (sha256 : Bytes → Bytes) where
  -- The loop of `keystream`, for at most the given number of rounds; every digest adds bytes, so
  -- `len` rounds are enough.
  unfoldable pub keystream_rounds : ℕ → Bytes → Bytes → ℕ → ℕ → Bytes → Bytes
  unfolding u32_le
  keystream_rounds zero scan_key eph len counter out = take len out
  keystream_rounds (suc rounds) scan_key eph len counter out = elim (ltb (length out) len) [
    | true ↦
        keystream_rounds rounds scan_key eph len (counter + 1)
          (out ++ sha256 (stream_domain ++ (scan_key ++ (eph ++ u32_le counter))))
    | false ↦ take len out
  ]

  unfoldable pub keystream : Bytes → Bytes → ℕ → Bytes
  unfolding keystream_rounds
  keystream scan_key eph len = keystream_rounds len scan_key eph len 0 []

  unfoldable pub recognition_tag : Bytes → Bytes → Bytes
  recognition_tag scan_key eph = take note_tag_len (sha256 (tag_domain ++ (scan_key ++ eph)))

  unfoldable pub try_decrypt_note : Bytes → Bytes → Bytes → Option Opening
  unfolding keystream recognition_tag xor_all le_value
  try_decrypt_note scan_key eph ciphertext =
      if not (length ciphertext == note_tag_len + note_payload_len)
      then none
      else ite (Bytes-discrete (take note_tag_len ciphertext) (recognition_tag scan_key eph))
          (let plain =
              xor_all (drop note_tag_len ciphertext) (keystream scan_key eph note_payload_len) in
            some (record {
              v = le_value (take 8 plain);
              rho = take 32 (drop 8 plain);
              rcm = take 32 (drop 40 plain);
              pk = take 32 (drop 72 plain);
            }))
          none

  -- `encrypt_note`; the ephemeral bytes, which the source draws at random, are an argument.
  unfoldable pub encrypt_note :
      {F : Type 0} → Encoding F → AccountKeys F → ℕ → F → F → Bytes → Bytes
  unfolding keystream recognition_tag xor_all u64_le
  encrypt_note E recipient v rho rcm eph =
      let payload = u64_le v ++ (E.f_bytes rho ++ (E.f_bytes rcm ++ E.f_bytes recipient.pk)) in
      recognition_tag recipient.scan_key eph
      ++ xor_all payload (keystream recipient.scan_key eph note_payload_len)

-- The union of the nullifier lists of all blocks.
abbrev pub nullifiers_in : List RawBlock → List Bytes
nullifiers_in [] = []
nullifiers_in (b ∷ blocks) = b.nullifiers ++ nullifiers_in blocks

-- The loop over one account's notes: its balance, and the notes owned so far.
unfoldable pub tally : List Bytes → List (Bytes × ℕ) → List Bytes → Replayed (ℕ × List Bytes)
unfolding contains
tally spent [] owned = ok (0, owned)
tally spent ((nf, v) ∷ mine) owned = do
  fail_if (contains Bytes-discrete nf owned)
      (Violation.violation "two accounts recognized the same note" 0)
  rest ← tally spent mine (nf ∷ owned)
  ok ((if contains Bytes-discrete nf spent then 0 else v) + rest.0, rest.1)

pub record ReplayResult : Type 0 where
  pub block_count : ℕ
  pub last_block_hash : Option Bytes
  pub final_root : Bytes
  pub balances : List ℕ
  pub total_unspent : ℕ
  pub spent_nullifiers : ℕ
  pub transfer_ops : ℕ
  pub shield_ops : ℕ
  pub recognized_notes : ℕ

module _ {F S : Type 0} (P : Poseidon F S) (E : Encoding F) (sha256 : Bytes → Bytes) where
  -- The commitment of an opening, and its nullifier under an account's key.
  unfoldable pub opening_cm : Opening → Bytes
  opening_cm o = E.f_bytes (
      note_commitment P o.v (E.from_le_bytes_mod_order o.pk) (E.from_le_bytes_mod_order o.rho)
        (E.from_le_bytes_mod_order o.rcm))

  unfoldable pub opening_nf : AccountKeys F → Opening → Bytes
  opening_nf acct o = E.f_bytes (derive_nf P acct.nk (E.from_le_bytes_mod_order o.rho))

  unfoldable pub opened : AccountKeys F → RawBlock → Option Opening
  unfolding try_decrypt_note
  opened acct b = try_decrypt_note sha256 acct.scan_key b.ephemeral_key b.note_ciphertext

  -- The loop of one account in `wallet_scan_balances`.
  unfoldable pub scan_account : List Bytes → AccountKeys F → List RawBlock → Replayed ℕ
  unfolding opened opening_cm opening_nf contains
  scan_account spent acct [] = ok 0
  scan_account spent acct (b ∷ blocks) =
      let rest = scan_account spent acct blocks in
      elim (opened acct b) [
        | none ↦ rest
        | some o ↦
            assert (Bytes-discrete (opening_cm o) b.commitment)
              "scan: opening does not match the public commitment" b.position
            >> (rest >>= (λ later.
                ok
                  ((if contains Bytes-discrete (opening_nf acct o) spent then 0 else o.v) + later)))
      ]

  unfoldable pub scan_accounts :
      List Bytes → List RawBlock → List (AccountKeys F) → Replayed (List ℕ)
  unfolding scan_account
  scan_accounts spent blocks [] = ok []
  scan_accounts spent blocks (acct ∷ accounts) = do
    balance ← scan_account spent acct blocks
    rest ← scan_accounts spent blocks accounts
    ok (balance ∷ rest)

  unfoldable pub wallet_scan_balances : List (AccountKeys F) → List RawBlock → Replayed (List ℕ)
  unfolding scan_accounts
  wallet_scan_balances accounts blocks = scan_accounts (nullifiers_in blocks) blocks accounts

  -- `per_account` of the replayer for one account: nullifiers and values.
  unfoldable pub recognize : AccountKeys F → List RawBlock → Replayed (List (Bytes × ℕ))
  unfolding opened opening_cm opening_nf
  recognize acct [] = ok []
  recognize acct (b ∷ blocks) =
      let rest = recognize acct blocks in
      elim (opened acct b) [
        | none ↦ rest
        | some o ↦
            assert (Bytes-discrete (opening_cm o) b.commitment)
              "decrypted opening does not recompute the block commitment" b.position
            >> (rest >>= (λ later. ok ((opening_nf acct o, o.v) ∷ later)))
      ]

  -- Balances, their total, and the number of recognized notes.
  unfoldable pub tally_accounts :
      List Bytes → List (AccountKeys F) → List RawBlock → List Bytes → Replayed (List ℕ × (ℕ × ℕ))
  unfolding recognize tally
  tally_accounts spent [] blocks owned = ok ([], (0, 0))
  tally_accounts spent (acct ∷ accounts) blocks owned = do
    mine ← recognize acct blocks
    own ← tally spent mine owned
    rest ← tally_accounts spent accounts blocks own.1
    ok (own.0 ∷ rest.0, (own.0 + rest.1.0, length mine + rest.1.1))

  unfoldable pub replay : List RawBlock → List (AccountKeys F) → Replayed ReplayResult
  unfolding replay_chain tally_accounts
  replay blocks accounts = do
    st ← replay_chain P E blocks
    found ← tally_accounts st.spent accounts blocks []
    ok (record {
      block_count = length blocks;
      last_block_hash = st.prev_hash;
      final_root = E.f_bytes st.tree.root;
      balances = found.0;
      total_unspent = found.1.0;
      spent_nullifiers = length st.spent;
      transfer_ops = st.transfer_ops;
      shield_ops = st.shield_ops;
      recognized_notes = found.1.1;
    })
