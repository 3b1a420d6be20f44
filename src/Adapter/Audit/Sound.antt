-- ===== src/Adapter/Audit/Sound.antt =====
-- What a successful audit by `verify_source` of nns_adapter/src/main.rs shows.
use mathlib.Core.Option
use shielded_ledger_hivemind.Common.{
  ℕ, ◌+◌, ◌≡◌, ◌↔◌, refl, sym, ap, ◌∙◌, arith, Bool, true, false, not, Option, none, some, List, [],
  ◌∷◌, ok, fail_if, >>=-eq-ok, >>-eq-ok, ok-injective, length, min,
}
use shielded_ledger_hivemind.Adapter.Legacy.Messages.{
  Bytes, Block, Block-discrete, Crates, DecodedBlock,
}
use shielded_ledger_hivemind.Adapter.Legacy.Blocks.{decode_exact, hash_encoded, is_some}
use shielded_ledger_hivemind.Adapter.State.{AdapterError, of_decoded, require}
use shielded_ledger_hivemind.Adapter.Hints.{memos-discrete}
use shielded_ledger_hivemind.Adapter.Fetch.Exact.{require-yes, of_decoded-eq-ok}
use shielded_ledger_hivemind.Adapter.Audit.{Lossy, is_yes, audit_parent, lossy_step, audit_blocks}

is_yes-true : {P : Type 0} (d : Dec P) → is_yes d ≡ true → P
is_yes-true (yes p) h = p
is_yes-true (no np) h = cc

is_yes-yes : {P : Type 0} (d : Dec P) → P → is_yes d ≡ true
is_yes-yes (yes p) h = refl
is_yes-yes (no np) h = absurd (np h)

pub not_passed : (b : Bool) (e : AdapterError) → fail_if (not b) e ≡ ok tt → b ≡ true
not_passed true e h = refl
not_passed false e h = cc

require-passes : {P : Type 0} (d : Dec P) (e : AdapterError) → P → require d e ≡ ok tt
require-passes (yes p) e h = refl
require-passes (no np) e h = absurd (np h)

absent : (o : Option Bytes) (e : AdapterError) → fail_if (is_some o) e ≡ ok tt → o ≡ none
absent none e h = refl
absent (some b) e h = cc

module _ (C : Crates) where
  -- The pairs of blocks: each is what its bytes decode to, with the hash of the bytes before it as its
  -- parent, and none for the first.
  abbrev pub Chain : Option Bytes → List Block → List Bytes → Type 0
  Chain previous [] encoded = Unit
  Chain previous (c ∷ candid) [] = Unit
  Chain previous (c ∷ candid) (e ∷ encoded) =
      ((d : DecodedBlock) × (decode_exact C e ≡ ok d) × (d.block ≡ c))
      × (c.parent_hash ≡ Option.map (hash_encoded C) previous)
      × Chain (some e) candid encoded

  audit_parent_lem :
      (previous : Option Bytes) (index : ℕ) (c : Block)
      → audit_parent C previous index c ≡ ok tt
      → c.parent_hash ≡ Option.map (hash_encoded C) previous
  unfolding audit_parent
  audit_parent_lem none index c h = absent c.parent_hash _ h
  audit_parent_lem (some p) index c h =
      is_yes-true (memos-discrete c.parent_hash _) (not_passed _ _ h)

  audit_parent-passes :
      (previous : Option Bytes) (index : ℕ) (c : Block)
      → c.parent_hash ≡ Option.map (hash_encoded C) previous
      → audit_parent C previous index c ≡ ok tt
  unfolding audit_parent
  audit_parent-passes none index c h = rw h refl
  audit_parent-passes (some p) index c h =
      rw (is_yes-yes (memos-discrete c.parent_hash (some (hash_encoded C p))) h) refl

  pub audit_blocks-Chain :
      (index : ℕ) (previous : Option Bytes) (cs : List Block) (es : List Bytes) (seen : Lossy)
      (r : ℕ × Lossy)
      → audit_blocks C index previous cs es seen ≡ ok r
      → Chain previous cs es × (r.0 ≡ index + min (length cs) (length es))
  unfolding audit_blocks
  audit_blocks-Chain index previous [] es seen r h =
      (tt, ap (λ (x : ℕ × Lossy). x.0) (sym (ok-injective h)) ∙ ground arith)
  audit_blocks-Chain index previous (c ∷ cs) [] seen r h =
      (tt, ap (λ (x : ℕ × Lossy). x.0) (sym (ok-injective h)) ∙ ground arith)
  audit_blocks-Chain index previous (c ∷ cs) (e ∷ es) seen r h =
      let (d, ed, h1) = >>=-eq-ok (of_decoded (decode_exact C e)) _ h in
      let (same, h2) =
        >>-eq-ok
          (require (Block-discrete d.block c)
            (AdapterError.text_at "Candid semantics differ at block" index))
          _ h1 in
      let (parent, h3) = >>-eq-ok (audit_parent C previous index c) _ h2 in
      let (chain, count) = audit_blocks-Chain (index + 1) (some e) cs es _ r h3 in
      (
        (
          (
            d,
            of_decoded-eq-ok (decode_exact C e) d ed,
            require-yes (Block-discrete d.block c) _ same,
          ),
          audit_parent_lem previous index c parent,
          chain,
        ),
        count ∙ ground arith,
      )

  Chain-audit_blocks :
      (index : ℕ) (previous : Option Bytes) (cs : List Block) (es : List Bytes) (seen : Lossy)
      → Chain previous cs es
      → (r : ℕ × Lossy) × (audit_blocks C index previous cs es seen ≡ ok r)
  unfolding audit_blocks
  Chain-audit_blocks index previous [] es seen h = ((index, seen), refl)
  Chain-audit_blocks index previous (c ∷ cs) [] seen h = ((index, seen), refl)
  Chain-audit_blocks index previous (c ∷ cs) (e ∷ es) seen h =
      let (d, decodes, same) = h.0 in
      let (r, done) =
        Chain-audit_blocks (index + 1) (some e) cs es
          (lossy_step C c e d.created_at_time_present seen) h.2 in
      (
        r,
        rw
            (
              audit_blocks,
              decodes,
              require-passes (Block-discrete d.block c)
                  (AdapterError.text_at "Candid semantics differ at block" index) same,
              audit_parent-passes previous index c h.1,
            )
            done,
      )

  -- The loop over the blocks refuses exactly the pairs of which one is not what its bytes decode to or
  -- has another parent hash than that of the bytes before it.
  pub audit_blocks-exact :
      (cs : List Block) (es : List Bytes) (seen : Lossy)
      → ((r : ℕ × Lossy) × (audit_blocks C 0 none cs es seen ≡ ok r)) ↔ Chain none cs es
  audit_blocks-exact cs es seen = (
    λ done. (audit_blocks-Chain 0 none cs es seen done.0 done.1).0,
    Chain-audit_blocks 0 none cs es seen,
  )
