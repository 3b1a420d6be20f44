-- ===== src/Adapter/Hints/Stable.antt =====
-- `verify_hint` of nns_adapter/src/lib.rs in states that grow.
use Prim.Native.String.{String}
use shielded_ledger_hivemind.Common.{
  ℕ, ◌≡◌, none, some, ok, ok_or, >>=-eq-ok, >>-eq-ok, ok_or-eq-ok, Option-cases, inl, inr,
  get_elem?,
}
use shielded_ledger_hivemind.Adapter.Legacy.Messages.{Bytes, Bytes-discrete, Operation, Crates}
use shielded_ledger_hivemind.Adapter.State.{
  Account, TransactionHint, SourceBlock, State, AdapterError, find, account_id, registered_as,
  registered_account, expect_account,
}
use shielded_ledger_hivemind.Adapter.Hints.{
  Kind, kind_of, usize, verify_request, verify_operation, verify_source, verify_hint,
}

-- All accounts and all source blocks are still there.
pub record Extends (s t : State) : Type 0 where
  pub accounts :
      (id : Bytes) (a : Account)
      → find Bytes-discrete id s.accounts ≡ some a
      → find Bytes-discrete id t.accounts ≡ some a
  pub source :
      (i : ℕ) (b : SourceBlock) → get_elem? s.source i ≡ some b → get_elem? t.source i ≡ some b

module _ (C : Crates) (s : State) where
  -- The block that an accepted hint is about.
  pub verify_hint-source :
      (hint : TransactionHint)
      → verify_hint C s hint ≡ ok tt
      → (b : SourceBlock) × (get_elem? s.source (usize hint.block_index) ≡ some b)
        × (verify_source C s hint b ≡ ok tt)
  unfolding verify_hint
  verify_hint-source hint h =
      let (b, eb, h1) =
        >>=-eq-ok
          (ok_or (get_elem? s.source (usize hint.block_index))
            (AdapterError.text "source block has not been synced"))
          _ h in
      (b, ok_or-eq-ok _ (AdapterError.text "source block has not been synced") eb, h1)

module _ (C : Crates) (s t : State) (e : Extends s t) where
  registered_as-Extends :
      (a : Account) (i id : Bytes) → registered_as s a i ≡ ok id → registered_as t a i ≡ ok id
  unfolding registered_as
  registered_as-Extends a i id h = elim (Option-cases (find Bytes-discrete i s.accounts)) [
    | inl n ↦ cc (rw (n, registered_as) at h)
    | inr (reg, f) ↦ rw (e.accounts i reg f, registered_as) (rw (f, registered_as) at h)
  ]

  registered_account-Extends :
      (a : Account) (id : Bytes)
      → registered_account C s a ≡ ok id
      → registered_account C t a ≡ ok id
  unfolding registered_account
  registered_account-Extends a id h =
      let (i, ei, h1) = >>=-eq-ok (account_id C a) _ h in rw ei (registered_as-Extends a i id h1)

  expect_account-Extends :
      (a : Account) (observed : Bytes) (field : String)
      → expect_account C s a observed field ≡ ok tt
      → expect_account C t a observed field ≡ ok tt
  unfolding expect_account
  expect_account-Extends a observed field h =
      let (id, ei, h1) = >>=-eq-ok (registered_account C s a) _ h in
      rw (registered_account-Extends a id ei) h1

  verify_operation-Extends :
      (hint : TransactionHint) (kind : Kind) (op : Operation)
      → verify_operation C s hint kind op ≡ ok tt
      → verify_operation C t hint kind op ≡ ok tt
  unfolding verify_operation
  verify_operation-Extends hint Kind.transfer (Operation.transfer from to amount fee none) h =
      let (a, h1) = >>-eq-ok (expect_account C s hint.from from "from") _ h in
      let (th, et, h2) =
        >>=-eq-ok (ok_or hint.to (AdapterError.text "1xfer hint is missing to")) _ h1 in
      let (b, h3) = >>-eq-ok (expect_account C s th to "to") _ h2 in
      rw (expect_account-Extends hint.from from "from" a, et, expect_account-Extends th to "to" b)
        h3
  verify_operation-Extends hint Kind.transfer_from (Operation.transfer from to amount fee (some sp))
        h =
      let (a, h1) = >>-eq-ok (expect_account C s hint.from from "from") _ h in
      let (th, et, h2) =
        >>=-eq-ok (ok_or hint.to (AdapterError.text "2xfer hint is missing to")) _ h1 in
      let (b, h3) = >>-eq-ok (expect_account C s th to "to") _ h2 in
      let (sh, es, h4) =
        >>=-eq-ok (ok_or hint.spender (AdapterError.text "2xfer hint is missing spender")) _ h3 in
      let (c, h5) = >>-eq-ok (expect_account C s sh sp "spender") _ h4 in
      rw
        (
          expect_account-Extends hint.from from "from" a,
          et,
          expect_account-Extends th to "to" b,
          es,
          expect_account-Extends sh sp "spender" c,
        )
        h5
  verify_operation-Extends hint Kind.approve
        (Operation.approve from sp e8s allowance fee ex expected) h =
      let (a, h1) = >>-eq-ok (expect_account C s hint.from from "from") _ h in
      let (sh, es, h2) =
        >>=-eq-ok (ok_or hint.spender (AdapterError.text "2approve hint is missing spender")) _
          h1 in
      let (c, h3) = >>-eq-ok (expect_account C s sh sp "spender") _ h2 in
      rw
        (
          expect_account-Extends hint.from from "from" a,
          es,
          expect_account-Extends sh sp "spender" c,
        )
        h3
  verify_operation-Extends hint kind op h = cc

  -- Where accounts and source blocks only grow, a hint that was accepted still is.
  pub verify_hint-Extends :
      (hint : TransactionHint) → verify_hint C s hint ≡ ok tt → verify_hint C t hint ≡ ok tt
  unfolding verify_hint verify_source
  verify_hint-Extends hint h =
      let (b, at, h1) = verify_hint-source C s hint h in
      let (op, eo, h2) = >>=-eq-ok (verify_request hint b) _ h1 in
      rw (e.source (usize hint.block_index) b at, eo)
        (verify_operation-Extends hint (kind_of hint.btype) op h2)
