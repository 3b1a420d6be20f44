-- ===== src/Adapter/Calls/Seals.antt =====
-- Registering an accepted hint by `register_transaction_hint` of nns_adapter/src/lib.rs.
use native.Mathlib.Decide.{ℕ_discrete}
use mathlib.Core.Logic.{if_pos}
use shielded_ledger_hivemind.Common.{
  ◌≡◌, refl, sym, ap, ◌∙◌, none, some, ok, ◌∷◌, >>=-eq-ok, ok-injective, Result-cases, inl, inr,
  length,
}
use shielded_ledger_hivemind.Adapter.Legacy.Messages.{Bytes, Crates}
use shielded_ledger_hivemind.Adapter.State.{TransactionHint, TransactionHint-discrete, State, find}
use shielded_ledger_hivemind.Adapter.Hints.{verify_hint}
use shielded_ledger_hivemind.Adapter.Translation.{
  HashTrees, rebuild_from, rebuild_translated, refresh_certification,
}
use shielded_ledger_hivemind.Adapter.Calls.{
  principal-discrete, seal, registered, register_transaction_hint,
}
use shielded_ledger_hivemind.Adapter.Calls.Answers.{seal-hints}
use shielded_ledger_hivemind.Adapter.Calls.Invariant.{WellFormed, seal-WellFormed}

module _ (C : Crates) {T : Type 0} (trees : HashTrees T) where
  -- The call of the registrar passes the guard.
  by_registrar :
      (s : State) (caller : Bytes) (hint : TransactionHint)
      → s.registrar ≡ some caller
      → register_transaction_hint C trees s caller hint ≡ registered C trees s hint
  unfolding register_transaction_hint
  by_registrar s caller hint is =
      if_pos (principal-discrete s.registrar (some caller)) is (registered C trees s hint) _

  rebuild_translated-registrar :
      (s t : State) → rebuild_translated C trees s ≡ ok t → t.registrar ≡ s.registrar
  unfolding rebuild_translated refresh_certification
  rebuild_translated-registrar s t h =
      let (vs, _, made) = >>=-eq-ok (rebuild_from C s (length s.source) 0 none) _ h in
      ap (λ (x : State). x.registrar) (sym (ok-injective made))

  seal-registrar :
      (s : State) (hint : TransactionHint) → (seal C trees s hint).0.registrar ≡ s.registrar
  unfolding seal
  seal-registrar s hint =
      let sealed : State = record s { hints = (hint.block_index, hint) ∷ s.hints } in
      elim (Result-cases (rebuild_translated C trees sealed)) [
        | inl (t, done) ↦ rw (seal, done) (rebuild_translated-registrar sealed t done)
        | inr (e, failed) ↦ rw (seal, failed) refl
      ]

  registered_again :
      (s : State) (hint : TransactionHint)
      → find ℕ_discrete hint.block_index s.hints ≡ some hint
      → registered C trees s hint ≡ (s, ok hint.block_index)
  unfolding registered
  registered_again s hint there =
      rw (registered, there) (if_pos (TransactionHint-discrete hint hint) refl _ _)

  registered_fresh :
      (s : State) (hint : TransactionHint)
      → find ℕ_discrete hint.block_index s.hints ≡ none
      → verify_hint C s hint ≡ ok tt
      → registered C trees s hint ≡ seal C trees s hint
  unfolding registered
  registered_fresh s hint fresh good = rw (registered, fresh, good) refl

  -- In a well-formed state an accepted hint for a block that has none, from the registrar, is answered
  -- with its block index and found under it in the next state, where registering it again changes nothing.
  pub register_transaction_hint_sealed :
      (s : State) (caller : Bytes) (hint : TransactionHint)
      → WellFormed C s
      → s.registrar ≡ some caller
      → find ℕ_discrete hint.block_index s.hints ≡ none
      → verify_hint C s hint ≡ ok tt
      → (t : State) × (register_transaction_hint C trees s caller hint ≡ (t, ok hint.block_index))
        × (find ℕ_discrete hint.block_index t.hints ≡ some hint)
        × (register_transaction_hint C trees t caller hint ≡ (t, ok hint.block_index))
  unfolding find
  register_transaction_hint_sealed s caller hint w is fresh good =
      let (t, done, _) = seal-WellFormed C trees s hint w good in
      let here : find ℕ_discrete hint.block_index t.hints ≡ some hint =
        ap (λ r. find ℕ_discrete hint.block_index r.0.hints) (sym done)
        ∙ (ap (find ℕ_discrete hint.block_index) (seal-hints C trees s hint)
            ∙ if_pos (ℕ_discrete hint.block_index hint.block_index) refl (some hint) _) in
      let same : t.registrar ≡ some caller =
        ap (λ r. r.0.registrar) (sym done) ∙ (seal-registrar s hint ∙ is) in
      (
        t,
        by_registrar s caller hint is ∙ (registered_fresh s hint fresh good ∙ done),
        here,
        by_registrar t caller hint same ∙ registered_again t hint here,
      )
