-- ===== src/Adapter/Fetch/Exact.antt =====
-- What `fetch_source` of nns_adapter/src/lib.rs hands over.
use mathlib.Core.Option
use shielded_ledger_hivemind.Common.{
  ℕ, suc, ◌+◌, ◌-◌, ◌^◌, ◌≡◌, refl, ap, subst, ◌∙◌, not, Option, none, some, List, [], ◌∷◌, ok, err,
  ok_or, fail_if, >>=-eq-ok, >>-eq-ok, ok-injective, ◌==◌, replicate, length,
}
use shielded_ledger_hivemind.Adapter.Legacy.Messages.{Bytes, Block, Block-discrete, Crates, Decoded}
use shielded_ledger_hivemind.Adapter.Legacy.Blocks.{decode_exact, hash_encoded, is_some}
use shielded_ledger_hivemind.Adapter.State.{SourceBlock, AdapterError, of_decoded, require}
use shielded_ledger_hivemind.Adapter.Hints.{usize, memos-discrete}
use shielded_ledger_hivemind.Adapter.Fetch.{
  LegacyGetBlocksArgs, Canisters, get_blocks, get_encoded_blocks, place, resolve_archives,
  validate_archive_pairing, check_parent, assemble, fetch_source,
}

pub require-yes : {Q : Type 0} (d : Dec Q) (e : AdapterError) → require d e ≡ ok tt → Q
require-yes (yes q) e h = q
require-yes (no nq) e h = cc

pub of_decoded-eq-ok : {A : Type 0} (r : Decoded A) (a : A) → of_decoded r ≡ ok a → r ≡ ok a
of_decoded-eq-ok (ok b) a h = ap ok (ok-injective h)
of_decoded-eq-ok (err e) a h = cc

module _ (C : Crates) where
  -- A source block is what its bytes decode to.
  abbrev pub IsExact : SourceBlock → Type 0
  IsExact b =
      decode_exact C b.encoded
      ≡ ok (record {
        block = b.candid;
        created_at_time_present = b.created_at_time_present;
        encoded_hash = b.encoded_hash;
      })

  abbrev pub AllExact : List SourceBlock → Type 0
  AllExact [] = Unit
  AllExact (b ∷ bs) = IsExact b × AllExact bs

  -- Every block carries the hash of the encoding before it, and the first one none.
  abbrev pub Linked : Option Bytes → List SourceBlock → Type 0
  Linked previous [] = Unit
  Linked previous (b ∷ bs) =
      (b.candid.parent_hash ≡ Option.map (hash_encoded C) previous) × Linked (some b.encoded) bs

  absent : (o : Option Bytes) (e : AdapterError) → fail_if (is_some o) e ≡ ok tt → o ≡ none
  absent none e h = refl
  absent (some b) e h = cc

  check_parent_lem :
      (previous : Option Bytes) (index : ℕ) (b : Block)
      → check_parent C previous index b ≡ ok tt
      → b.parent_hash ≡ Option.map (hash_encoded C) previous
  unfolding check_parent
  check_parent_lem none index b h = absent b.parent_hash _ h
  check_parent_lem (some previous) index b h = require-yes (memos-discrete b.parent_hash _) _ h

  assemble_lem :
      (index : ℕ) (previous : Option Bytes) (cs : List (Option Block)) (es : List (Option Bytes))
      (source : List SourceBlock)
      → assemble C index previous cs es ≡ ok source
      → AllExact source × Linked previous source × (length source ≡ length cs)
  unfolding assemble
  assemble_lem index previous [] es source h =
      subst (λ (s : List SourceBlock). AllExact s × Linked previous s × (length s ≡ 0))
        (ok-injective h) (tt, tt, refl)
  assemble_lem index previous (c ∷ cs) [] source h = cc
  assemble_lem index previous (c ∷ cs) (e ∷ es) source h =
      let (candid, _, h1) =
        >>=-eq-ok (ok_or c (AdapterError.text_at "missing Candid block" index)) _ h in
      let (encoded, _, h2) =
        >>=-eq-ok (ok_or e (AdapterError.text_at "missing encoded block" index)) _ h1 in
      let (d, ed, h3) = >>=-eq-ok (of_decoded (decode_exact C encoded)) _ h2 in
      let (same, h4) =
        >>-eq-ok
          (require (Block-discrete d.block candid)
            (AdapterError.text_at "encoded protobuf and query_blocks semantics differ" index))
          _ h3 in
      let (parent, h5) = >>-eq-ok (check_parent C previous index candid) _ h4 in
      let (rest, er, h6) = >>=-eq-ok (assemble C (index + 1) (some encoded) cs es) _ h5 in
      let (exact, linked, count) = assemble_lem (index + 1) (some encoded) cs es rest er in
      let here : d.block ≡ candid = require-yes (Block-discrete d.block candid) _ same in
      let back : d ≡ record d { block = candid } =
        ap (λ (b : Block). record d { block = b }) here in
      subst
        (λ (s : List SourceBlock). AllExact s × Linked previous s × (length s ≡ length (c ∷ cs)))
        (ok-injective h6)
        (
          (of_decoded-eq-ok (decode_exact C encoded) d ed ∙ ap ok back, exact),
          (check_parent_lem previous index candid parent, linked),
          ap suc count,
        )

  -- Whatever the canisters answer, if the fetch succeeds then every block of the source is what its own
  -- bytes decode to, the first has no parent hash, and each other carries the hash of the bytes of the
  -- block before it.
  pub fetch_source-Linked :
      (canisters : Canisters) (ledger : Bytes) (source : List SourceBlock) (ranges : ℕ)
      → fetch_source C canisters ledger ≡ ok (source, ranges)
      → AllExact source × Linked none source
  unfolding fetch_source
  fetch_source-Linked canisters ledger source ranges h =
      let request : LegacyGetBlocksArgs = record { start = 0; length = 2 ^ 32 - 1 } in
      let (candid, _, h1) = >>=-eq-ok (canisters.query_blocks ledger request) _ h in
      let (encoded, _, h2) = >>=-eq-ok (canisters.query_encoded_blocks ledger request) _ h1 in
      let (_, h3) =
        >>-eq-ok
          (fail_if (not (candid.chain_length == encoded.chain_length))
            (AdapterError.text "Candid/encoded chain lengths differ"))
          _ h2 in
      let (_, h4) =
        >>-eq-ok (validate_archive_pairing candid.archived_blocks encoded.archived_blocks) _ h3 in
      let count = usize candid.chain_length in
      let (lc, _, h5) =
        >>=-eq-ok
          (place (replicate count none) candid.first_block_index candid.blocks "ledger Candid") _
          h4 in
      let (le, _, h6) =
        >>=-eq-ok
          (place (replicate count none) encoded.first_block_index encoded.blocks "ledger encoded") _
          h5 in
      let (cs, _, h7) =
        >>=-eq-ok
          (resolve_archives get_blocks "legacy archive" canisters.archived lc
            candid.archived_blocks)
          _ h6 in
      let (es, _, h8) =
        >>=-eq-ok
          (resolve_archives get_encoded_blocks "encoded archive" canisters.archived_encoded le
            encoded.archived_blocks)
          _ h7 in
      let (s, a, h9) = >>=-eq-ok (assemble C 0 none cs es) _ h8 in
      let (exact, linked, _) = assemble_lem 0 none cs es s a in
      subst (λ (r : List SourceBlock × ℕ). AllExact r.0 × Linked none r.0) (ok-injective h9)
        (exact, linked)
