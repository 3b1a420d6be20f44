-- ===== src/Lib.antt =====
-- Shielded Ledger: the circuits, the legacy-ledger adapter, the soak harness and the setup ceremony.
--
-- The repository holds a shielded pool for ICP ledgers. Notes are committed in a Merkle tree; a
-- transfer proves in zero knowledge that it spends two notes of the tree and creates two; a deposit
-- proves that a commitment is of a note with a public value. An adapter canister reads the history of
-- the legacy ledger, checks each encoded block against its Candid form, and serves ICRC-3 blocks. The
-- soak harness keeps its own account of the ledger, replays its block stream, and reads notes from it
-- privately. A ceremony of many parties makes the keys of the proofs.
--
-- Common: re-exports, Boolean tests, list lookups, results with do blocks, integers.
-- Circuit: circuit/common/src/lib.rs.
--   Row: the four children of a node. Hash: `hash_n`, `derive_pk`, `derive_nf`, `note_commitment`,
--   `merkle_compress`, `Note`. Tree: `zero_hashes`, `IncrementalTree`, `DenseTree`; Tree.Nodes is the
--   abstract tree over an infinite sequence of leaves that both are compared with.
--   Field: field elements as residues below a modulus, with `enforce_equal` as a check.
--   Range, Membership: the gadgets. Transfer, Deposit: the two circuits. A circuit is the sequence of
--   its checks on an assignment of all variables: `constraints` takes any assignment, and
--   `generate_constraints` takes the one that the prover's closures give.
-- Adapter: nns_adapter/src.
--   Legacy: legacy.rs, with the Candid and protobuf forms (Messages), account identifiers (Accounts),
--   operations (Operations) and whole blocks (Blocks).
--   Values: `Value` and `hash_value` of lib.rs. State: the canister's state and account lookups.
--   Hints: `verify_hint`. Translation: `translate`, `rebuild_translated`, the certification tree.
--   Fetch: `fetch_source` with `place` and the archives. Calls: the updates and queries; an update
--   gives the next state and its answer, and one that awaits is split before and after the answers.
--   The state has one field more than the source's, `certified_data`, for what the system was given.
--   Audit: `verify_source` of main.rs, the command line audit of a fetched chain. A panic is an error
--   there, and the time is an argument.
-- Soak: soak/src.
--   Wire: panics, sets, and the encoding of field elements. Model: model.rs, with its parts as the
--   functions that `apply_shield` and `apply_transfer` call; Model.Reachable is the step relation of
--   the operations that the ledger accepts. Replay: the loop of `replay` in replayer.rs on a list of
--   blocks; Replay.Runs is its relation, and Replay.Checks what its arms have checked. Scan: the note
--   encryption of prover.rs, the wallet's scan of scan.rs, and the balances of replayer.rs.
--   Pir: the private retrieval of pir2.rs, with its geometry and matrix A; Pir.Server the shards,
--   Pir.Client the client, Pir.Wire the wire form and the record stream. Its vectors are flat lists.
--   An index out of bounds is none in an answer; elsewhere a read gives 0 and a write changes nothing.
-- Ceremony: ceremony/src, the trusted setup of phase 2.
--   Curve: the curve as an interface with its laws. Transcript, Hashing: transcript.rs. Contribute,
--   Verify: contribute.rs and verify.rs. Params: `split_pk` and `join_pk` of params.rs. Session:
--   session.rs, whose `verify_full_transcript` is in Session.Verifier. The random generator is the
--   list of what it will give.
-- The soak model hashes with Circuit.Hash; the replayer and the wallet's scan read one stream of blocks,
-- and the replayer rebuilds the tree of Circuit.Tree; the session calls `contribute` and the two tiers
-- of the verifier.
--
-- Parameters: the Poseidon sponge of arkworks (record Poseidon), the checksum, digest and protobuf
-- crates (record Crates), the certificate crates (record Certificates), the hash trees of
-- ic-certified-map (record HashTrees), the answers of the other canisters (record Canisters), SHA-256,
-- and the noise that `gaussian_error` draws in floating point. What is relied on is named: F::from
-- embeds the 64-bit integers, digests are residues, checksums and digests have their documented
-- widths, and the protobuf codec decodes what it encodes. The modulus is any number of at least 2^66;
-- that of the scalar field of BLS12-381 has 255 bits. No hypothesis says that hashes have no
-- collisions: where that matters, the result is the wanted equation or a collision. For the ceremony:
-- the scalars are a field, the two groups are cyclic of prime order, and the pairing is bilinear and
-- not degenerate. The model's Merkle mirror is an interface without laws, since its code in
-- soak/src/crypto.rs stands on names that circuit/common does not have and builds a tree of arity two,
-- not the one that the replayer rebuilds; that the replayer accepts the model's blocks is not claimed.
--
-- Loops are structural recursion, on the levels of the tree, the bits or a list. Three run on fuel:
-- the variable-length numbers in Values.Leb128 on the number and one more, while each round divides
-- the number by 128; `keystream` on as many rounds as bytes are wanted, while each gives 32; and the
-- Newton loop of `isqrt` on as many rounds as its argument, while each lowers its estimate. The sums of
-- `isqrt` and the size of the database in `for_shard_size` are checked for overflow of 64 bits.
-- A `usize` of the canister has 32 bits, as on its target, and one of the command line has 64.
-- A `u64` is a number, with its bound as a hypothesis where the code depends on it.
--
-- Not modelled: the queries of the adapter that only copy fields; the rest of its command line
-- verifier, which fetches through the agent and reads the adapter's own certificate; the drivers,
-- batteries and checkpoints of the soak harness; the parsers of the ceremony's wire forms and its file
-- formats; the oracles; the pairing towers of fortress; and the canisters in Motoko.
pub mod Common
pub mod Circuit
pub mod Adapter
pub mod Soak
pub mod Ceremony
