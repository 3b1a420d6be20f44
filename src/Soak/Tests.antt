-- ===== src/Soak/Tests.antt =====
-- The theorems on soak/src at a ledger of two shields and an unshield, and runs of the definitions.
use native.Mathlib.Decide.{ℕ_discrete}
use shielded_ledger_hivemind.Common.{
  replicate, ℕ, ◌%◌, ◌≡◌, refl, arith, none, some, zero, suc, All, List, [], ◌∷◌, ok, err, get_or,
}
use shielded_ledger_hivemind.Adapter.Legacy.Messages.{Bytes-discrete}
use shielded_ledger_hivemind.Circuit.Hash.{
  derive_pk, hash_n, derive_nf, note_commitment, merkle_compress,
}
use shielded_ledger_hivemind.Circuit.Tree.{new, append, append_levels, zero_hashes, zeros_from}
use shielded_ledger_hivemind.Soak.Wire.{Encoding, insert_index, remove_index, contains, insert_new}
use shielded_ledger_hivemind.Soak.Model.{
  AccountKeys, new_model, apply_shield, apply_transfer, record_note, credit_shield, spend, settle,
  pay_out, stay_private,
}
use shielded_ledger_hivemind.Soak.Model.Conserves.{sum, Conserved, Reachable-Conserved}
use shielded_ledger_hivemind.Soak.Replay.{
  Replayed, Replay, replay_chain, replay_start, replay_from, check_header, origin_of, replay_shield,
  replay_pair, two_nullifiers, spend_nullifier, append_commitment, blocks-discrete,
  hash_option-discrete,
}
use shielded_ledger_hivemind.Soak.Replay.Sound.{SoundChain, replay_chain-SoundChain}
use shielded_ledger_hivemind.Soak.Scan.RoundTrip.{IsByte, try_decrypt_note-encrypt_note}
use shielded_ledger_hivemind.Soak.Scan.{
  ReplayResult, replay, tally_accounts, tally, recognize, opened, opening_cm, opening_nf,
  try_decrypt_note, encrypt_note, keystream, keystream_rounds, recognition_tag, xor_all, le_value,
  u32_le, u64_le, wallet_scan_balances,
}
use shielded_ledger_hivemind.Soak.Scan.Agree.{replay-wallet_scan_balances}
use shielded_ledger_hivemind.Soak.Toy.{
  sponge, encoding, mirror, keys, model3, reachable3, digest, stream,
}

Reachable-Conserved_example : Conserved sponge encoding mirror 200 model3
Reachable-Conserved_example = Reachable-Conserved sponge encoding mirror 2 100 1 model3 reachable3

abbrev replayed : Replay ℕ
replayed = elim (replay_chain sponge encoding stream) [
  | ok st ↦ st
  | err e ↦ replay_start sponge encoding
]

replay3 : replay_chain sponge encoding stream ≡ ok replayed
unfolding new_model apply_shield record_note credit_shield insert_index remove_index contains
    insert_new spend settle pay_out stay_private apply_transfer new append append_levels zero_hashes
    zeros_from derive_pk derive_nf note_commitment hash_n merkle_compress Bytes-discrete ℕ_discrete
    replay_chain replay_start replay_from check_header origin_of replay_shield replay_pair
    two_nullifiers spend_nullifier append_commitment blocks-discrete hash_option-discrete
replay3 = refl

replay_chain-SoundChain_example : SoundChain sponge encoding stream replayed
replay_chain-SoundChain_example = replay_chain-SoundChain sponge encoding stream replayed replay3

abbrev accounts : List (AccountKeys ℕ)
accounts = keys 0 ∷ keys 1 ∷ []

abbrev result_of : Replayed ReplayResult → ReplayResult
result_of (ok r) = r
result_of (err e) = record {
  block_count = 0;
  last_block_hash = none;
  final_root = [];
  balances = [];
  total_unspent = 0;
  spent_nullifiers = 0;
  transfer_ops = 0;
  shield_ops = 0;
  recognized_notes = 0;
}

abbrev result : ReplayResult
result = result_of (replay sponge encoding digest stream accounts)

-- The accounts hold the outputs of the unshield.
balances3 : result.balances ≡ 14 ∷ 25 ∷ []
unfolding new_model apply_shield record_note credit_shield insert_index remove_index contains
    insert_new spend settle pay_out stay_private apply_transfer new append append_levels zero_hashes
    zeros_from derive_pk derive_nf note_commitment hash_n merkle_compress Bytes-discrete ℕ_discrete
    replay_chain replay_start replay_from check_header origin_of replay_shield replay_pair
    two_nullifiers spend_nullifier append_commitment blocks-discrete hash_option-discrete replay
    tally_accounts tally recognize opened opening_cm opening_nf try_decrypt_note encrypt_note
    keystream keystream_rounds recognition_tag xor_all le_value u32_le u64_le
balances3 = refl

replay-result : replay sponge encoding digest stream accounts ≡ ok result
unfolding new_model apply_shield record_note credit_shield insert_index remove_index contains
    insert_new spend settle pay_out stay_private apply_transfer new append append_levels zero_hashes
    zeros_from derive_pk derive_nf note_commitment hash_n merkle_compress Bytes-discrete ℕ_discrete
    replay_chain replay_start replay_from check_header origin_of replay_shield replay_pair
    two_nullifiers spend_nullifier append_commitment blocks-discrete hash_option-discrete replay
    tally_accounts tally recognize opened opening_cm opening_nf try_decrypt_note encrypt_note
    keystream keystream_rounds recognition_tag xor_all le_value u32_le u64_le
replay-result = refl

replay-wallet_scan_balances_example :
    (wallet_scan_balances sponge encoding digest accounts stream ≡ ok result.balances)
    × (result.total_unspent ≡ sum result.balances)
replay-wallet_scan_balances_example =
    replay-wallet_scan_balances sponge encoding digest stream accounts result replay-result

-- An encoding of field elements whose bytes are all below 256.
abbrev byte_encoding : Encoding ℕ
byte_encoding = record {
  f_bytes = λ x. x % 256 ∷ replicate 31 0;
  from_le_bytes_mod_order = λ b. get_or b 0 0;
}

replicate-All : (n x : ℕ) → IsByte x → All IsByte (replicate n x)
replicate-All zero x h = tt
replicate-All (suc n) x h = (h, replicate-All n x h)

try_decrypt_note-encrypt_note_example :
    try_decrypt_note digest
      (keys 1).scan_key
      (1 ∷ 2 ∷ [])
      (encrypt_note digest byte_encoding (keys 1) 700 21 22 (1 ∷ 2 ∷ []))
    ≡ some (record {
      v = 700;
      rho = byte_encoding.f_bytes 21;
      rcm = byte_encoding.f_bytes 22;
      pk = byte_encoding.f_bytes (keys 1).pk;
    })
try_decrypt_note-encrypt_note_example =
    try_decrypt_note-encrypt_note byte_encoding digest (λ x. refl)
      (λ x. replicate-All 32 (sum x % 251) (omega arith)) (λ x. refl)
      (λ x. (omega arith, replicate-All 31 0 (omega arith))) (keys 1) 700 21 22 (1 ∷ 2 ∷ [])
      (omega arith)
