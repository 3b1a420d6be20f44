-- ===== src/Adapter/Calls.antt =====
-- The calls of nns_adapter/src/lib.rs: updates as functions to the next state and the answer, queries as
-- functions of the state. A call that awaits is two functions, before and after the answers.
pub mod Invariant
pub mod Sync
pub mod Answers
pub mod Reachable
pub mod Seals
use native.Mathlib.Decide.{ℕ_discrete}
use mathlib.Core.Logic.{ite}
use mathlib.Core.Option
use shielded_ledger_hivemind.Common.{
  min, ℕ, zero, suc, ◌+◌, ◌-◌, ◌%◌, ◌^◌, Option, none, some, List, [], ◌∷◌, ◌++◌, ok, err, ok_or,
  ◌==◌, ltb, if◌then◌else◌, length, get_elem?,
}
use shielded_ledger_hivemind.Adapter.Legacy.Messages.{Bytes, Bytes-discrete, Crates}
use shielded_ledger_hivemind.Adapter.Legacy.Blocks.{is_some}
use shielded_ledger_hivemind.Adapter.Values.{Value, hash_value}
use shielded_ledger_hivemind.Adapter.State.{
  Account, Account-discrete, TransactionHint, TransactionHint-discrete, SourceBlock, State,
  AdapterError, Adapted, account_id, find,
}
use shielded_ledger_hivemind.Adapter.Hints.{verify_hint}
use shielded_ledger_hivemind.Adapter.Translation.{
  HashTrees, last, rebuild_translated, refresh_certification,
}

pub record SyncReport : Type 0 where
  pub source_blocks : ℕ
  pub translated_blocks : ℕ
  pub archive_ranges : ℕ
  pub encoded_roundtrips : ℕ
  pub candid_semantic_matches : ℕ
  pub source_tip_hash : Option Bytes

pub record GetBlocksArgs : Type 0 where
  pub start : ℕ
  pub length : ℕ

pub record BlockWithId : Type 0 where
  pub id : ℕ
  pub block : Value

pub record GetBlocksResult : Type 0 where
  pub log_length : ℕ
  pub blocks : List BlockWithId

pub record AuditBinding : Type 0 where
  pub adapter_tip_index : Option ℕ
  pub adapter_tip_hash : Option Bytes
  pub source_tip_hash : Option Bytes
  pub source_ledger : Option Bytes

unfoldable pub principal-discrete : Discrete (Option Bytes)
principal-discrete = hlevel ℕ_discrete

-- `BTreeSet::insert`
unfoldable pub insert_conflict : ℕ → List ℕ → List ℕ
insert_conflict n [] = n ∷ []
insert_conflict n (m ∷ ms) = if n == m then m ∷ ms else m ∷ insert_conflict n ms

-- The first index at which the encodings differ.
unfoldable pub first_rewrite : ℕ → List SourceBlock → List SourceBlock → Option ℕ
first_rewrite index [] new = none
first_rewrite index (p ∷ previous) [] = none
first_rewrite index (p ∷ previous) (b ∷ new) =
    ite (Bytes-discrete p.encoded b.encoded) (first_rewrite (index + 1) previous new) (some index)

abbrev pub conflicting : State → TransactionHint → State
conflicting state hint = record state {
  sealed_conflicts = insert_conflict hint.block_index state.sealed_conflicts;
}

abbrev pub report : State → SyncReport
report state = record {
  source_blocks = length state.source;
  translated_blocks = length state.translated;
  archive_ranges = state.archive_ranges;
  encoded_roundtrips = state.encoded_roundtrips;
  candid_semantic_matches = state.candid_semantic_matches;
  source_tip_hash = Option.map (λ (b : SourceBlock). b.encoded_hash) (last state.source);
}

abbrev pub with_source : State → List SourceBlock → ℕ → State
with_source state source archive_ranges = record state {
  source = source;
  archive_ranges = archive_ranges;
  encoded_roundtrips = length source;
  candid_semantic_matches = length source;
}

-- The ledger that `sync` fetches from.
unfoldable pub sync_begin : State → Adapted Bytes
sync_begin state = ok_or state.ledger (AdapterError.text "REJECT:unconfigured")

-- Before the calls of the ledger.
unfoldable pub configure_begin : State → Adapted (Unit {0})
configure_begin state =
    if is_some state.ledger then err (AdapterError.text "REJECT:already-configured") else ok tt

module _ (C : Crates) {T : Type 0} (trees : HashTrees T) where
  -- After the answers of the ledger to `icrc1_fee` and `icrc1_decimals`.
  unfoldable pub configure_finish :
      State → Bytes → Bytes → Adapted ℕ → Adapted ℕ → State × Adapted (ℕ × ℕ)
  unfolding refresh_certification
  configure_finish state ledger caller (err e) decimals =
      (state, err (AdapterError.nested "REJECT:fee" e))
  configure_finish state ledger caller (ok fee) (err e) =
      (state, err (AdapterError.nested "REJECT:decimals" e))
  configure_finish state ledger caller (ok fee) (ok decimals) =
      if decimals == 8
      then ((
        refresh_certification C trees (record state {
          ledger = some ledger;
          registrar = some caller;
          fee = some fee;
          decimals = some decimals;
        }),
        ok (fee, decimals),
      ))
      else (state, err (AdapterError.text_at "REJECT:decimals" decimals))

  unfoldable pub register_account : State → Account → State × Adapted Bytes
  unfolding account_id find
  register_account state account = elim (account_id C account) [
    | err e ↦ (state, err e)
    | ok id ↦ elim (find Bytes-discrete id state.accounts) [
      | some existing ↦
          ite (Account-discrete existing account) (state, ok id)
            (state, err (AdapterError.text "account identifier collision with different preimage"))
      | none ↦ (record state { accounts = (id, account) ∷ state.accounts }, ok id)
    ]
  ]

  -- The hint is sealed before the translation is built again.
  unfoldable pub seal : State → TransactionHint → State × Adapted ℕ
  unfolding rebuild_translated
  seal state hint =
      let sealed : State = record state { hints = (hint.block_index, hint) ∷ state.hints } in
      elim (rebuild_translated C trees sealed) [
        | err e ↦ (sealed, err e)
        | ok rebuilt ↦ (rebuilt, ok hint.block_index)
      ]

  -- The registrar's call.
  unfoldable pub registered : State → TransactionHint → State × Adapted ℕ
  unfolding seal verify_hint find insert_conflict
  registered state hint = elim (find ℕ_discrete hint.block_index state.hints) [
    | some existing ↦
        ite (TransactionHint-discrete existing hint) (state, ok hint.block_index)
          (
            conflicting state hint,
            err (AdapterError.text_at "REJECT:conflicting-sealed-hint" hint.block_index),
          )
    | none ↦ elim (verify_hint C state hint) [ err e ↦ (state, err e) | ok _ ↦ seal state hint ]
  ]

  unfoldable pub register_transaction_hint : State → Bytes → TransactionHint → State × Adapted ℕ
  unfolding registered
  register_transaction_hint state caller hint =
      ite (principal-discrete state.registrar (some caller)) (registered state hint)
        (state, err (AdapterError.text "REJECT:not-registrar"))

  -- `sync` after the source has been fetched.
  unfoldable pub sync_finish : State → Adapted (List SourceBlock × ℕ) → State × Adapted SyncReport
  unfolding rebuild_translated first_rewrite
  sync_finish state (err e) = (state, err (AdapterError.nested "REJECT:source" e))
  sync_finish state (ok (source, archive_ranges)) =
      if ltb (length source) (length state.source)
      then (state, err (AdapterError.text "REJECT:source-rollback"))
      else (elim (first_rewrite 0 state.source source) [
        | some index ↦ (state, err (AdapterError.text_at "REJECT:source-rewrite" index))
        | none ↦ elim (rebuild_translated C trees (with_source state source archive_ranges)) [
          | err e ↦ (
            with_source state source archive_ranges,
            err (AdapterError.nested "REJECT:translation" e),
          )
          | ok rebuilt ↦ (rebuilt, ok (report rebuilt))
        ]
      ])

  unfoldable pub post_upgrade : State → State
  unfolding refresh_certification
  post_upgrade state = refresh_certification C trees state

module _ (C : Crates) where
  unfoldable pub audit_binding : State → AuditBinding
  audit_binding state = record {
    adapter_tip_index =
        if length state.translated == 0 then none else some (length state.translated - 1);
    adapter_tip_hash = Option.map (hash_value C) (last state.translated);
    source_tip_hash =
        if length state.translated == 0
        then none
        else Option.map (λ (b : SourceBlock). b.encoded_hash)
            (get_elem? state.source (length state.translated - 1));
    source_ledger = state.ledger;
  }

-- The lowest 64-bit digit, where it fits a `usize` of 32 bits; zero has no digits.
unfoldable pub nat_to_usize : ℕ → Option ℕ
nat_to_usize n =
    if n == 0 then some 0 else (if ltb (n % 2 ^ 64) (2 ^ 32) then some (n % 2 ^ 64) else none)

-- `start.saturating_add(length)`
abbrev pub saturating_add : ℕ → ℕ → ℕ
saturating_add m n = min (m + n) (2 ^ 32 - 1)

-- The blocks with numbers `index` to `index + count - 1`.
unfoldable pub blocks_from : List Value → ℕ → ℕ → List BlockWithId
blocks_from translated zero index = []
blocks_from translated (suc count) index = elim (get_elem? translated index) [
  | none ↦ []
  | some block ↦ record { id = index; block = block } ∷ blocks_from translated count (index + 1)
]

unfoldable pub blocks_of : List Value → GetBlocksArgs → List BlockWithId
unfolding nat_to_usize blocks_from
blocks_of translated range = elim (nat_to_usize range.start) [
  | none ↦ []
  | some start ↦ elim (nat_to_usize range.length) [
    | none ↦ []
    | some count ↦
        blocks_from translated (min (length translated) (saturating_add start count) - start) start
  ]
]

unfoldable pub blocks_of_all : List Value → List GetBlocksArgs → List BlockWithId
unfolding blocks_of
blocks_of_all translated [] = []
blocks_of_all translated (range ∷ ranges) =
    blocks_of translated range ++ blocks_of_all translated ranges

unfoldable pub icrc3_get_blocks : State → List GetBlocksArgs → GetBlocksResult
unfolding blocks_of_all
icrc3_get_blocks state ranges = record {
  log_length = length state.source;
  blocks = blocks_of_all state.translated ranges;
}
