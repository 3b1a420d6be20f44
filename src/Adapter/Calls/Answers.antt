-- ===== src/Adapter/Calls/Answers.antt =====
-- What the calls of nns_adapter/src/lib.rs answer.
use native.Mathlib.Decide.{ℕ_discrete}
use mathlib.Core.Logic.{if_neg}
use mathlib.Core.Option
use shielded_ledger_hivemind.Common.{
  ℕ, zero, suc, ◌+◌, ◌-◌, ◌%◌, ◌^◌, ◌≤◌, ◌<◌, ◌≡◌, refl, sym, ap, ◌∙◌, arith, false, none, some,
  List, [], ◌∷◌, ok, >>=-eq-ok, ok-injective, Result-cases, Option-cases, inl, inr, get_elem?,
  length, ◌==◌,
}
use shielded_ledger_hivemind.Adapter.Legacy.Messages.{Bytes, Crates}
use shielded_ledger_hivemind.Adapter.Values.{Value, hash_value}
use shielded_ledger_hivemind.Adapter.Values.Leb128.{uleb128}
use shielded_ledger_hivemind.Adapter.Keys
use shielded_ledger_hivemind.Adapter.State.{
  TransactionHint, TransactionHint-discrete, State, Adapted, find,
}
use shielded_ledger_hivemind.Adapter.Hints.{verify_hint}
use shielded_ledger_hivemind.Adapter.Translation.{
  HashTrees, last, rebuild_from, rebuild_translated, refresh_certification, certification_tree,
}
use shielded_ledger_hivemind.Adapter.Calls.{
  GetBlocksArgs, BlockWithId, configure_begin, configure_finish, seal, registered,
  register_transaction_hint, principal-discrete, audit_binding, nat_to_usize, blocks_from,
  blocks_of,
}
use shielded_ledger_hivemind.Adapter.Calls.Invariant.{ite-both}

module _ (C : Crates) {T : Type 0} (trees : HashTrees T) where
  rebuild_translated-hints : (s t : State) → rebuild_translated C trees s ≡ ok t → t.hints ≡ s.hints
  unfolding rebuild_translated refresh_certification
  rebuild_translated-hints s t h =
      let (vs, _, h1) = >>=-eq-ok (rebuild_from C s (length s.source) 0 none) _ h in
      ap (λ (x : State). x.hints) (sym (ok-injective h1))

  pub seal-hints :
      (s : State) (hint : TransactionHint)
      → (seal C trees s hint).0.hints ≡ (hint.block_index, hint) ∷ s.hints
  unfolding seal
  seal-hints s hint =
      let sealed : State = record s { hints = (hint.block_index, hint) ∷ s.hints } in
      elim (Result-cases (rebuild_translated C trees sealed)) [
        | inl (t, done) ↦ rw (seal, done) (rebuild_translated-hints sealed t done)
        | inr (e, failed) ↦ rw (seal, failed) refl
      ]

  find_behind :
      (k i : ℕ) (hint h : TransactionHint) (hints : List (ℕ × TransactionHint))
      → find ℕ_discrete k hints ≡ none
      → find ℕ_discrete i hints ≡ some h
      → find ℕ_discrete i ((k, hint) ∷ hints) ≡ some h
  unfolding find
  find_behind k i hint h hints fresh there = elim (ℕ_discrete k i) [
    | yes e ↦ cc (ap (λ (x : ℕ). find ℕ_discrete x hints) e)
    | no ne ↦ if_neg (ℕ_discrete k i) ne (some hint) _ ∙ there
  ]

  abbrev Keeps : ℕ → TransactionHint → State × Adapted ℕ → Type 0
  Keeps i h r = find ℕ_discrete i r.0.hints ≡ some h

  registered-hints :
      (s : State) (hint : TransactionHint) (i : ℕ) (h : TransactionHint)
      → find ℕ_discrete i s.hints ≡ some h
      → Keeps i h (registered C trees s hint)
  unfolding registered
  registered-hints s hint i h there =
      elim (Option-cases (find ℕ_discrete hint.block_index s.hints)) [
        | inr (existing, taken) ↦
            rw (registered, taken)
              (ite-both (Keeps i h) (TransactionHint-discrete existing hint) there there)
        | inl fresh ↦ elim (Result-cases (verify_hint C s hint)) [
          | inr (e, bad) ↦ rw (registered, fresh, bad) there
          | inl (u, good) ↦
              rw (registered, fresh, good)
                (ap (find ℕ_discrete i) (seal-hints s hint)
                  ∙ find_behind hint.block_index i hint h s.hints fresh there)
        ]
      ]

  -- A sealed hint is never replaced or removed, whoever registers what.
  pub register_transaction_hint-hints :
      (s : State) (caller : Bytes) (hint : TransactionHint) (i : ℕ) (h : TransactionHint)
      → find ℕ_discrete i s.hints ≡ some h
      → find ℕ_discrete i (register_transaction_hint C trees s caller hint).0.hints ≡ some h
  unfolding register_transaction_hint
  register_transaction_hint-hints s caller hint i h there =
      ite-both (Keeps i h) (principal-discrete s.registrar (some caller))
        (registered-hints s hint i h there) there

  -- Two calls of `configure` that both begin before the first has its answers both succeed, and the
  -- second replaces the ledger and the registrar of the first.
  pub configure_overlap :
      (s : State) (ledger1 caller1 ledger2 caller2 : Bytes) (fee1 fee2 : ℕ)
      → s.ledger ≡ none
      → let r1 = configure_finish C trees s ledger1 caller1 (ok fee1) (ok 8) in
        let r2 = configure_finish C trees r1.0 ledger2 caller2 (ok fee2) (ok 8) in
        (configure_begin s ≡ ok tt)
        × (r1.1 ≡ ok (fee1, 8))
        × (r2.1 ≡ ok (fee2, 8))
        × (r1.0.registrar ≡ some caller1)
        × (r2.0.registrar ≡ some caller2)
        × (r2.0.ledger ≡ some ledger2)
  unfolding configure_begin configure_finish refresh_certification
  configure_overlap s ledger1 caller1 ledger2 caller2 fee1 fee2 h =
      (rw (h, configure_begin) refl, refl, refl, refl, refl, refl)

  last-length : {A : Type 0} (xs : List A) (x : A) → last xs ≡ some x → (length xs == 0) ≡ false
  last-length [] x h = cc
  last-length (y ∷ ys) x h = ground arith

  abbrev pub certified_tree : Bytes → ℕ → Bytes → Bytes → T
  certified_tree tip index ledger source_tip =
      trees.fork (trees.labeled Keys.last_block_hash (trees.leaf tip)) (
        trees.fork (trees.labeled Keys.last_block_index (trees.leaf (uleb128 index))) (
          trees.fork (trees.labeled Keys.source_ledger (trees.leaf ledger))
            (trees.labeled Keys.source_legacy_tip_hash (trees.leaf source_tip))))

  -- The four certified values are those that the audit query reports.
  pub audit_binding-certification_tree :
      (s : State) (t : T)
      → certification_tree C trees s ≡ some t
      → (tip : Bytes) × (index : ℕ) × (ledger : Bytes) × (source_tip : Bytes) × (t
          ≡ certified_tree tip index ledger source_tip)
        × ((audit_binding C s).adapter_tip_hash ≡ some tip)
        × ((audit_binding C s).adapter_tip_index ≡ some index)
        × ((audit_binding C s).source_ledger ≡ some ledger)
        × ((audit_binding C s).source_tip_hash ≡ some source_tip)
  unfolding certification_tree audit_binding
  audit_binding-certification_tree s t h = elim (Option-cases (last s.translated)) [
    | inl n ↦ cc (rw (n, certification_tree) at h)
    | inr (tip, et) ↦ elim (Option-cases (get_elem? s.source (length s.translated - 1))) [
      | inl n ↦ cc (rw (et, n, certification_tree) at h)
      | inr (source, es) ↦ elim (Option-cases s.ledger) [
        | inl n ↦ cc (rw (et, es, n, certification_tree) at h)
        | inr (ledger, el) ↦
            let some_is : some (
                  certified_tree (hash_value C tip) (length s.translated - 1) ledger
                    source.encoded_hash)
                ≡ some t =
              rw (et, es, el, certification_tree) at h in
            (
              hash_value C tip,
              length s.translated - 1,
              ledger,
              source.encoded_hash,
              cc,
              rw (et) refl,
              rw (last-length s.translated tip et) refl,
              el,
              rw (last-length s.translated tip et, es) refl,
            )
      ]
    ]
  ]

-- Every number counts as what is left of it below 2^64, so a multiple of 2^64 counts as 0.
pub nat_to_usize_wraps : (n : ℕ) → nat_to_usize n ≡ nat_to_usize (n % 2 ^ 64)
unfolding nat_to_usize
nat_to_usize_wraps n = ground arith

nat_to_usize_small : (n : ℕ) → n < 2 ^ 32 → nat_to_usize n ≡ some n
unfolding nat_to_usize
nat_to_usize_small n h = ground arith

abbrev pub with_id : ℕ → Value → BlockWithId
with_id id block = record { id = id; block = block }

get_elem?-some :
    {A : Type 0} (xs : List A) (i : ℕ) → i < length xs → (x : A) × (get_elem? xs i ≡ some x)
get_elem?-some [] i h = absurd (omega arith)
get_elem?-some (x ∷ xs) zero h = (x, refl)
get_elem?-some (x ∷ xs) (suc i) h = get_elem?-some xs i (omega arith)

blocks_from_lem :
    (translated : List Value) (count index j : ℕ)
    → index + count ≤ length translated
    → j < count
    → get_elem? (blocks_from translated count index) j
      ≡ Option.map (with_id (index + j)) (get_elem? translated (index + j))
unfolding blocks_from
blocks_from_lem translated zero index j fits h = absurd (omega arith)
blocks_from_lem translated (suc count) index zero fits h =
    let (v, e) = get_elem?-some translated index (omega arith) in
    let place : index + 0 ≡ index = omega arith in rw (place, e, blocks_from) refl
blocks_from_lem translated (suc count) index (suc j) fits h =
    let (v, e) = get_elem?-some translated index (omega arith) in
    let place : index + suc j ≡ index + 1 + j = omega arith in
    rw (place, e, blocks_from)
      (blocks_from_lem translated count (index + 1) j (omega arith) (omega arith))

-- For a range of 32-bit numbers that does not overflow, the j-th block of the answer is the translated
-- block of the number start + j, under that number, as far as the range and the translation reach.
pub blocks_of-get_elem? :
    (translated : List Value) (range : GetBlocksArgs) (j : ℕ)
    → range.start + range.length < 2 ^ 32
    → j < range.length
    → range.start + j < length translated
    → get_elem? (blocks_of translated range) j
      ≡ Option.map (with_id (range.start + j)) (get_elem? translated (range.start + j))
unfolding blocks_of
blocks_of-get_elem? translated range j fits below reach =
    rw
      (
        nat_to_usize_small range.start (omega arith),
        nat_to_usize_small range.length (omega arith),
        blocks_of,
      )
      (blocks_from_lem translated _ range.start j (ground arith) (ground arith))
