-- ===== src/Adapter/Calls/Sync.antt =====
-- What `sync` of nns_adapter/src/lib.rs leaves, on every branch.
use shielded_ledger_hivemind.Common.{
  ℕ, ◌≤◌, ◌≡◌, refl, arith, none, List, ok, err, Option-cases, Bool-cases, ◌⊎◌, inl, inr, length,
  ltb,
}
use shielded_ledger_hivemind.Adapter.Legacy.Messages.{Crates}
use shielded_ledger_hivemind.Adapter.State.{SourceBlock, State, AdapterError, Adapted}
use shielded_ledger_hivemind.Adapter.Hints.Stable.{Extends}
use shielded_ledger_hivemind.Adapter.Translation.{
  HashTrees, rebuild_translated, refresh_certification,
}
use shielded_ledger_hivemind.Adapter.Translation.Chain.{rebuild_from-Sealed}
use shielded_ledger_hivemind.Adapter.Fetch.Exact.{AllExact}
use shielded_ledger_hivemind.Adapter.Calls.{
  sync_finish, first_rewrite, with_source, report, SyncReport,
}
use shielded_ledger_hivemind.Adapter.Calls.Invariant.{
  WellFormed, WellFormed-Extends, Extends-refl, first_rewrite-prefix, rebuilt,
}

module _ (C : Crates) {T : Type 0} (trees : HashTrees T) where
  -- What a sync leaves: on an error the state as it was; otherwise the new source, of which the old one
  -- is a part, with the accounts and the hints as they were.
  pub record Synced (s : State) (source : List SourceBlock) (r : State × Adapted SyncReport)
      : Type 0 where
    pub well_formed : WellFormed C r.0
    pub source_is : r.0.source ≡ source
    pub hints_are : r.0.hints ≡ s.hints
    pub extends : Extends s r.0
    pub reports : (report : SyncReport) × (r.1 ≡ ok report)

  abbrev pub SyncOutcome :
      State → Adapted (List SourceBlock × ℕ) → State × Adapted SyncReport → Type 0
  SyncOutcome s answer r =
      ((r.0 ≡ s) × ((e : AdapterError) × (r.1 ≡ err e)))
      ⊎ ((source : List SourceBlock) × (n : ℕ) × (answer ≡ ok (source, n)) × Synced s source r)

  sync_succeeds :
      (s : State) (source : List SourceBlock) (n : ℕ)
      → WellFormed C s
      → AllExact C source
      → length s.source ≤ length source
      → first_rewrite 0 s.source source ≡ none
      → (t : State) × (rebuild_translated C trees (with_source s source n) ≡ ok t)
        × Synced s source (t, ok (report t))
  unfolding rebuild_translated refresh_certification
  sync_succeeds s source n w exact fits same =
      let new = with_source s source n in
      let grown = first_rewrite-prefix C s.source source 0 w.exact exact fits same in
      let e : Extends s new = record { accounts = λ id a q. q; source = grown } in
      let wn = WellFormed-Extends C s new w e refl exact in
      let (vs, done) = rebuild_from-Sealed C new (length source) 0 none wn.sealed in
      let t = rebuilt C trees new vs in
      (
        t,
        rw (rebuild_translated, done) refl,
        record {
          well_formed = WellFormed-Extends C new t wn (Extends-refl C new t refl refl) refl exact;
          source_is = refl;
          hints_are = refl;
          extends = record { accounts = λ id a q. q; source = grown };
          reports = (report t, refl);
        },
      )

  -- In a well-formed state, a sync whose fetched blocks are what their bytes decode to either refuses
  -- and changes nothing, or takes over the fetched source: the old one is a prefix of it, accounts and
  -- hints stay, and the state is well formed again. The translation never fails.
  pub sync_finish_outcome :
      (s : State) (answer : Adapted (List SourceBlock × ℕ))
      → WellFormed C s
      → ((source : List SourceBlock) (n : ℕ) → answer ≡ ok (source, n) → AllExact C source)
      → SyncOutcome s answer (sync_finish C trees s answer)
  unfolding sync_finish
  sync_finish_outcome s (err e) w h = inl (refl, (AdapterError.nested "REJECT:source" e, refl))
  sync_finish_outcome s (ok (source, n)) w h =
      elim (Bool-cases (ltb (length source) (length s.source))) [
        | inl short ↦
            rw (sync_finish, short) (inl (refl, (AdapterError.text "REJECT:source-rollback", refl)))
        | inr long ↦ elim (Option-cases (first_rewrite 0 s.source source)) [
          | inr (index, differs) ↦
              rw (sync_finish, long, differs)
                (inl (refl, (AdapterError.text_at "REJECT:source-rewrite" index, refl)))
          | inl same ↦
              let fits : length s.source ≤ length source = ground arith in
              let (t, done, synced) = sync_succeeds s source n w (h source n refl) fits same in
              rw (sync_finish, long, same, done) (inr (source, n, refl, synced))
        ]
      ]
