-- ===== src/Adapter/Calls/Invariant.antt =====
-- The invariant of the adapter of nns_adapter/src/lib.rs over its updates.
use native.Mathlib.Decide.{ℕ_discrete}
use mathlib.Core.Logic.{ite, if_pos, if_neg}
use shielded_ledger_hivemind.Common.{
  ℕ, zero, suc, ◌+◌, ◌≤◌, ◌≡◌, refl, sym, ap, ap₂, subst, ◌∙◌, arith, none, some, List, [], ◌∷◌, ok,
  Result-cases, ok-injective, Option-cases, inl, inr, get_elem?, length,
}
use shielded_ledger_hivemind.Adapter.Legacy.Messages.{Bytes, Bytes-discrete, DecodedBlock, Crates}
use shielded_ledger_hivemind.Adapter.Legacy.Blocks.{decode_exact}
use shielded_ledger_hivemind.Adapter.State.{
  Account, Account-discrete, TransactionHint, TransactionHint-discrete, SourceBlock, State, Adapted,
  account_id, find,
}
use shielded_ledger_hivemind.Adapter.Values.{Value}
use shielded_ledger_hivemind.Adapter.Hints.{verify_hint}
use shielded_ledger_hivemind.Adapter.Hints.Stable.{Extends, verify_hint-Extends}
use shielded_ledger_hivemind.Adapter.Translation.{
  HashTrees, rebuild_translated, refresh_certification,
}
use shielded_ledger_hivemind.Adapter.Translation.Chain.{Sealed, rebuild_from-Sealed}
use shielded_ledger_hivemind.Adapter.Fetch.Exact.{IsExact, AllExact}
use shielded_ledger_hivemind.Adapter.Calls.{
  register_account, seal, register_transaction_hint, first_rewrite, principal-discrete, registered,
  conflicting,
}

-- Both branches of a decided choice.
pub ite-both : {A Q : Type 0} (R : A → Type 0) (d : Dec Q) {x y : A} → R x → R y → R (ite d x y)
ite-both R (yes q) hx hy = hx
ite-both R (no nq) hx hy = hy

module _ (C : Crates) where
  abbrev source_of : Bytes → DecodedBlock → SourceBlock
  source_of encoded d = record {
    candid = d.block;
    encoded = encoded;
    encoded_hash = d.encoded_hash;
    created_at_time_present = d.created_at_time_present;
  }

  -- The bytes determine the block.
  exact-eq : (a b : SourceBlock) → IsExact C a → IsExact C b → a.encoded ≡ b.encoded → a ≡ b
  exact-eq a b ha hb e = ap₂ source_of e (ok-injective (sym ha ∙ ap (decode_exact C) e ∙ hb))

  pub first_rewrite-prefix :
      (old new : List SourceBlock) (n : ℕ)
      → AllExact C old
      → AllExact C new
      → length old ≤ length new
      → first_rewrite n old new ≡ none
      → (i : ℕ) (b : SourceBlock) → get_elem? old i ≡ some b
      → get_elem? new i ≡ some b
  unfolding first_rewrite
  first_rewrite-prefix [] new n ho hn fits h i b at = cc
  first_rewrite-prefix (p ∷ old) [] n ho hn fits h i b at = absurd (omega arith)
  first_rewrite-prefix (p ∷ old) (q ∷ new) n ho hn fits h i b at =
      elim (Bytes-discrete p.encoded q.encoded) [
        | no ne ↦ cc (rw (if_neg (Bytes-discrete p.encoded q.encoded) ne) at h)
        | yes e ↦
            let rest =
              first_rewrite-prefix old new (n + 1) ho.1 hn.1 (omega arith)
                (rw (if_pos (Bytes-discrete p.encoded q.encoded) e) at h) in
            at_index p q old new i b (exact-eq p q ho.0 hn.0 e) rest at
      ]
    where
      at_index :
          (p q : SourceBlock) (old new : List SourceBlock) (i : ℕ) (b : SourceBlock)
          → p ≡ q
          → ((j : ℕ) (c : SourceBlock) → get_elem? old j ≡ some c → get_elem? new j ≡ some c)
          → get_elem? (p ∷ old) i ≡ some b
          → get_elem? (q ∷ new) i ≡ some b
      at_index p q old new zero b e rest at = ap some (sym e) ∙ at
      at_index p q old new (suc i) b e rest at = rest i b at

  -- What holds between the calls: the source is decoded from its bytes, and the sealed hints are
  -- accepted.
  pub record WellFormed (s : State) : Type 0 where
    pub exact : AllExact C s.source
    pub sealed : Sealed C s

  -- A state with the same hints and at least the accounts and blocks keeps the seals.
  pub WellFormed-Extends :
      (s t : State)
      → WellFormed s
      → Extends s t
      → t.hints ≡ s.hints
      → AllExact C t.source
      → WellFormed t
  WellFormed-Extends s t w e same exact = record {
    exact = exact;
    sealed = λ i hint there.
        verify_hint-Extends C s t e hint
          (w.sealed i hint (ap (find ℕ_discrete i) (sym same) ∙ there));
  }

  pub Extends-refl : (s t : State) → t.accounts ≡ s.accounts → t.source ≡ s.source → Extends s t
  Extends-refl s t ea es = record {
    accounts = λ id a h. ap (find Bytes-discrete id) ea ∙ h;
    source = λ i b h. ap (λ (bs : List SourceBlock). get_elem? bs i) es ∙ h;
  }

  find-add :
      (id : Bytes) (a : Account) (accounts : List (Bytes × Account))
      → find Bytes-discrete id accounts ≡ none
      → (k : Bytes) (b : Account) → find Bytes-discrete k accounts ≡ some b
      → find Bytes-discrete k ((id, a) ∷ accounts) ≡ some b
  unfolding find
  find-add id a accounts fresh k b h = elim (Bytes-discrete id k) [
    | yes e ↦ cc (ap (λ (x : Bytes). find Bytes-discrete x accounts) e)
    | no ne ↦ if_neg (Bytes-discrete id k) ne (some a) _ ∙ h
  ]

  add_seal :
      (s : State) (hint : TransactionHint)
      → WellFormed s
      → verify_hint C s hint ≡ ok tt
      → Extends s (record s { hints = (hint.block_index, hint) ∷ s.hints })
      → Sealed C (record s { hints = (hint.block_index, hint) ∷ s.hints })
  unfolding find
  add_seal s hint w a e i other there = elim (ℕ_discrete hint.block_index i) [
    | yes here ↦
        let is : some hint ≡ some other =
          sym (if_pos (ℕ_discrete hint.block_index i) here (some hint) _) ∙ there in
        let same : hint ≡ other = cc in
        subst
          (λ (x : TransactionHint).
            verify_hint C (record s { hints = (hint.block_index, hint) ∷ s.hints }) x ≡ ok tt)
          same (verify_hint-Extends C s _ e hint a)
    | no ne ↦
        verify_hint-Extends C s _ e other
          (w.sealed i other (sym (if_neg (ℕ_discrete hint.block_index i) ne (some hint) _) ∙ there))
  ]

  module _ {T : Type 0} (trees : HashTrees T) where
    -- Registering an account keeps the invariant.
    pub register_account-WellFormed :
        (s : State) (a : Account) → WellFormed s → WellFormed (register_account C trees s a).0
    unfolding register_account
    register_account-WellFormed s a w = elim (Result-cases (account_id C a)) [
      | inr (e, bad) ↦ rw (bad, register_account) w
      | inl (id, good) ↦ elim (Option-cases (find Bytes-discrete id s.accounts)) [
        | inl fresh ↦
            rw (good, register_account, fresh)
              (WellFormed-Extends s (record s { accounts = (id, a) ∷ s.accounts }) w
                (record { accounts = find-add id a s.accounts fresh; source = λ i b h. h }) refl
                w.exact)
        | inr (existing, there) ↦
            rw (good, register_account, there)
              (ite-both (λ (r : State × Adapted Bytes). WellFormed r.0)
                (Account-discrete existing a) w w)
      ]
    ]

    refresh-WellFormed : (s : State) → WellFormed s → WellFormed (refresh_certification C trees s)
    unfolding refresh_certification
    refresh-WellFormed s w =
        WellFormed-Extends s (refresh_certification C trees s) w
          (Extends-refl s (refresh_certification C trees s) refl refl) refl w.exact

    -- The state that a rebuild leaves, in a form that shows what it keeps.
    abbrev pub rebuilt : State → List Value → State
    rebuilt s vs = refresh_certification C trees (record s { translated = vs })

    rebuild_translated-WellFormed :
        (s : State)
        → WellFormed s
        → (t : State) × (rebuild_translated C trees s ≡ ok t) × WellFormed t
    unfolding rebuild_translated
    rebuild_translated-WellFormed s w =
        let (vs, e) = rebuild_from-Sealed C s (length s.source) 0 none w.sealed in
        (
          rebuilt s vs,
          rw (rebuild_translated, e) refl,
          refresh-WellFormed (record s { translated = vs })
              (WellFormed-Extends s (record s { translated = vs }) w
                (Extends-refl s (record s { translated = vs }) refl refl) refl w.exact),
        )

    pub seal-WellFormed :
        (s : State) (hint : TransactionHint)
        → WellFormed s
        → verify_hint C s hint ≡ ok tt
        → (t : State) × (seal C trees s hint ≡ (t, ok hint.block_index)) × WellFormed t
    unfolding seal
    seal-WellFormed s hint w a =
        let sealed : State = record s { hints = (hint.block_index, hint) ∷ s.hints } in
        let e : Extends s sealed = Extends-refl s sealed refl refl in
        let (t, done, wt) =
          rebuild_translated-WellFormed sealed
            (record { exact = w.exact; sealed = add_seal s hint w a e }) in
        (t, rw (seal, done) refl, wt)

    -- Registering a hint keeps the invariant, whoever calls and whatever the hint.
    pub register_transaction_hint-WellFormed :
        (s : State) (caller : Bytes) (hint : TransactionHint)
        → WellFormed s
        → WellFormed (register_transaction_hint C trees s caller hint).0
    unfolding register_transaction_hint
    register_transaction_hint-WellFormed s caller hint w =
        ite-both (λ (r : State × Adapted ℕ). WellFormed r.0)
          (principal-discrete s.registrar (some caller)) (registrar_part s hint w) w
      where
        registrar_part :
            (s : State) (hint : TransactionHint)
            → WellFormed s
            → WellFormed (registered C trees s hint).0
        registrar_part s hint w = elim (Option-cases (find ℕ_discrete hint.block_index s.hints)) [
          | inr (existing, there) ↦
              rw (registered, there)
                (ite-both (λ (r : State × Adapted ℕ). WellFormed r.0)
                  (TransactionHint-discrete existing hint) w
                  (WellFormed-Extends s (conflicting s hint) w
                    (Extends-refl s (conflicting s hint) refl refl) refl w.exact))
          | inl fresh ↦ elim (Result-cases (verify_hint C s hint)) [
            | inr (e, bad) ↦ rw (registered, fresh, bad) w
            | inl (u, good) ↦
                let (t, done, wt) = seal-WellFormed s hint w good in
                rw (registered, fresh, good, done) wt
          ]
        ]
