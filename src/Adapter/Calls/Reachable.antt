-- ===== src/Adapter/Calls/Reachable.antt =====
-- The states that the calls of nns_adapter/src/lib.rs lead to, from the default state.
use shielded_ledger_hivemind.Common.{
  ℕ, subst, ◌≡◌, refl, sym, none, List, [], ok, err, Bool-cases, inl, inr, ◌==◌, length,
}
use shielded_ledger_hivemind.Adapter.Legacy.Messages.{Bytes, Crates}
use shielded_ledger_hivemind.Adapter.Values.{Value}
use shielded_ledger_hivemind.Adapter.State.{Account, TransactionHint, State, Adapted, find}
use shielded_ledger_hivemind.Adapter.Translation.{HashTrees, refresh_certification, rebuild_from}
use shielded_ledger_hivemind.Adapter.Translation.Chain.{
  Rebuilt, rebuild_from-Sealed, rebuild_from-Rebuilt,
}
use shielded_ledger_hivemind.Adapter.Fetch.{Canisters, fetch_source}
use shielded_ledger_hivemind.Adapter.Fetch.Exact.{AllExact, fetch_source-Linked}
use shielded_ledger_hivemind.Adapter.Calls.{
  configure_finish, register_account, register_transaction_hint, sync_finish, post_upgrade,
}
use shielded_ledger_hivemind.Adapter.Calls.Invariant.{
  WellFormed, WellFormed-Extends, Extends-refl, register_account-WellFormed,
  register_transaction_hint-WellFormed,
}
use shielded_ledger_hivemind.Adapter.Calls.Sync.{sync_finish_outcome}

-- `State::default()`
abbrev pub default_state : State
default_state = record {
  ledger = none;
  registrar = none;
  fee = none;
  decimals = none;
  accounts = [];
  hints = [];
  sealed_conflicts = [];
  source = [];
  translated = [];
  archive_ranges = 0;
  encoded_roundtrips = 0;
  candid_semantic_matches = 0;
  certified_data = [];
}

module _ (C : Crates) {T : Type 0} (trees : HashTrees T) where
  -- The completed calls, with any arguments, any caller and any answers of other canisters. A sync
  -- commits to the state at its end, whatever calls came in while it waited.
  pub data Reachable : State → Type 0 where
    start : Reachable default_state
    configured :
        (s : State) (ledger caller : Bytes) (fee decimals : Adapted ℕ)
        → Reachable s
        → Reachable (configure_finish C trees s ledger caller fee decimals).0
    account_registered :
        (s : State) (a : Account) → Reachable s → Reachable (register_account C trees s a).0
    hint_registered :
        (s : State) (caller : Bytes) (hint : TransactionHint)
        → Reachable s
        → Reachable (register_transaction_hint C trees s caller hint).0
    synced :
        (s : State) (canisters : Canisters) (ledger : Bytes)
        → Reachable s
        → Reachable (sync_finish C trees s (fetch_source C canisters ledger)).0
    refreshed : (s : State) → Reachable s → Reachable (post_upgrade C trees s)

  default_state-WellFormed : WellFormed C default_state
  unfolding find
  default_state-WellFormed = record { exact = tt; sealed = λ i hint there. cc }

  same-WellFormed :
      (s t : State)
      → WellFormed C s
      → t.accounts ≡ s.accounts
      → t.source ≡ s.source
      → t.hints ≡ s.hints
      → WellFormed C t
  same-WellFormed s t w ea es eh =
      WellFormed-Extends C s t w (Extends-refl C s t ea es) eh (subst (AllExact C) (sym es) w.exact)

  configure_finish-WellFormed :
      (s : State) (ledger caller : Bytes) (fee decimals : Adapted ℕ)
      → WellFormed C s
      → WellFormed C (configure_finish C trees s ledger caller fee decimals).0
  unfolding configure_finish refresh_certification
  configure_finish-WellFormed s ledger caller (err e) decimals w = w
  configure_finish-WellFormed s ledger caller (ok fee) (err e) w = w
  configure_finish-WellFormed s ledger caller (ok fee) (ok decimals) w =
      elim (Bool-cases (decimals == 8)) [
        | inr other ↦ rw (configure_finish, other) w
        | inl eight ↦ rw (configure_finish, eight) (same-WellFormed s _ w refl refl refl)
      ]

  sync_finish-WellFormed :
      (s : State) (canisters : Canisters) (ledger : Bytes)
      → WellFormed C s
      → WellFormed C (sync_finish C trees s (fetch_source C canisters ledger)).0
  sync_finish-WellFormed s canisters ledger w =
      elim (sync_finish_outcome C trees s (fetch_source C canisters ledger) w
        (λ source n e. (fetch_source-Linked C canisters ledger source n e).0)) [
          | inl (same, _) ↦ subst (WellFormed C) (sym same) w
          | inr (source, n, e, done) ↦ done.well_formed
        ]

  -- In every reachable state, every sealed hint is accepted and every source block is what its bytes
  -- decode to.
  pub Reachable-WellFormed : (s : State) → Reachable s → WellFormed C s
  unfolding post_upgrade refresh_certification
  Reachable-WellFormed _ Reachable.start = default_state-WellFormed
  Reachable-WellFormed _ (Reachable.configured s ledger caller fee decimals r) =
      configure_finish-WellFormed s ledger caller fee decimals (Reachable-WellFormed s r)
  Reachable-WellFormed _ (Reachable.account_registered s a r) =
      register_account-WellFormed C trees s a (Reachable-WellFormed s r)
  Reachable-WellFormed _ (Reachable.hint_registered s caller hint r) =
      register_transaction_hint-WellFormed C trees s caller hint (Reachable-WellFormed s r)
  Reachable-WellFormed _ (Reachable.synced s canisters ledger r) =
      sync_finish-WellFormed s canisters ledger (Reachable-WellFormed s r)
  Reachable-WellFormed _ (Reachable.refreshed s r) =
      same-WellFormed s (post_upgrade C trees s) (Reachable-WellFormed s r) refl refl refl

  -- In every reachable state, building the translation again succeeds, and gives a hash chain over the
  -- sealed hints that stops only at the end of the source or at a missing hint.
  pub Reachable-Rebuilt :
      (s : State)
      → Reachable s
      → (vs : List Value) × (rebuild_from C s (length s.source) 0 none ≡ ok vs)
        × Rebuilt C s (length s.source) 0 none vs
  Reachable-Rebuilt s r =
      let (vs, e) =
        rebuild_from-Sealed C s (length s.source) 0 none (Reachable-WellFormed s r).sealed in
      (vs, e, rebuild_from-Rebuilt C s (length s.source) 0 none vs e)
