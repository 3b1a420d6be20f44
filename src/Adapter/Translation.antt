-- ===== src/Adapter/Translation.antt =====
-- `translate`, `certification_tree`, `refresh_certification` and `rebuild_translated` of
-- nns_adapter/src/lib.rs.
pub mod Chain
use shielded_ledger_hivemind.Common.{
  ℕ, zero, suc, ◌+◌, ◌-◌, Bool, true, false, Option, none, some, List, [], ◌∷◌, ok, ok_or, ◌>>=◌,
  ◌>>◌, length, get_elem?, replicate,
}
use native.Mathlib.Decide.{ℕ_discrete}
use mathlib.Core.Option
use shielded_ledger_hivemind.Adapter.Legacy.Messages.{Bytes, Crates}
use shielded_ledger_hivemind.Adapter.Values.{Value, Entries, hash_value}
use shielded_ledger_hivemind.Adapter.Values.Leb128.{uleb128}
use shielded_ledger_hivemind.Adapter.Keys
use shielded_ledger_hivemind.Adapter.State.{
  TransactionHint, SourceBlock, State, AdapterError, Adapted, find, account_value,
}
use shielded_ledger_hivemind.Adapter.Hints.{usize, verify_hint}

-- The hash trees of the crate ic-certified-map.
pub record HashTrees (T : Type 0) : Type 0 where
  pub fork : T → T → T
  pub labeled : Bytes → T → T
  pub leaf : Bytes → T
  pub digest : T → Bytes

-- `if let Some(value) = &option { entries.push((key, f(value))) }`, in front of the later entries.
abbrev pub push_some : {A : Type 0} → Bytes → (A → Value) → Option A → Entries → Entries
push_some key f none rest = rest
push_some key f (some a) rest = Entries.entry key (f a) rest

abbrev pub push_if : Bool → Bytes → Value → Entries → Entries
push_if true key value rest = Entries.entry key value rest
push_if false key value rest = rest

-- The transaction map of a hint.
unfoldable pub transaction_of : TransactionHint → Value
unfolding account_value
transaction_of hint = Value.map (
    Entries.entry Keys.amt (Value.nat hint.amount) (
      Entries.entry Keys.from (account_value hint.from) (
        push_some Keys.to account_value hint.to (
          push_some Keys.spender account_value hint.spender (
            push_if hint.fee_was_supplied Keys.fee (Value.nat hint.effective_fee) (
              push_some Keys.memo Value.blob hint.memo (
                push_some Keys.ts Value.nat hint.created_at_time (
                  push_some Keys.expected_allowance Value.nat hint.expected_allowance
                    (push_some Keys.expires_at Value.nat hint.expires_at Entries.end)))))))))

-- `translate` with the source block already looked up.
unfoldable pub translate_source : SourceBlock → TransactionHint → Option Bytes → Value
unfolding transaction_of
translate_source source hint parent = Value.map (
    Entries.entry Keys.btype (Value.text hint.btype) (
      push_if (elim hint.fee_was_supplied [ true ↦ false | false ↦ true ]) Keys.fee
        (Value.nat hint.effective_fee)
        (push_some Keys.phash Value.blob parent (
          Entries.entry Keys.ts (Value.nat source.candid.timestamp.timestamp_nanos)
            (Entries.entry Keys.tx (transaction_of hint) Entries.end)))))

-- `none` is the panic of an index that is out of range.
unfoldable pub translate : State → TransactionHint → Option Bytes → Option Value
unfolding translate_source
translate state hint parent = elim (get_elem? state.source (usize hint.block_index)) [
  | none ↦ none
  | some source ↦ some (translate_source source hint parent)
]

abbrev pub last : {A : Type 0} → List A → Option A
last [] = none
last (x ∷ []) = some x
last (x ∷ y ∷ ys) = last (y ∷ ys)

module _ (C : Crates) where
  -- The rounds of `rebuild_translated` from `index` on, with the hash of the block before it.
  unfoldable pub rebuild_from : State → ℕ → ℕ → Option Bytes → Adapted (List Value)
  unfolding find translate
  rebuild_from state zero index parent = ok []
  rebuild_from state (suc rounds) index parent = elim (find ℕ_discrete index state.hints) [
    | none ↦ ok []
    | some hint ↦ do
      verify_hint C state hint
      block ← ok_or (translate state hint parent) (AdapterError.text "index out of range")
      rest ← rebuild_from state rounds (index + 1) (some (hash_value C block))
      ok (block ∷ rest)
  ]

  module _ {T : Type 0} (trees : HashTrees T) where
    abbrev pub tip_tree : Value → SourceBlock → Bytes → ℕ → T
    tip_tree tip source ledger index =
        trees.fork (trees.labeled Keys.last_block_hash (trees.leaf (hash_value C tip))) (
          trees.fork (trees.labeled Keys.last_block_index (trees.leaf (uleb128 index))) (
            trees.fork (trees.labeled Keys.source_ledger (trees.leaf ledger))
              (trees.labeled Keys.source_legacy_tip_hash (trees.leaf source.encoded_hash))))

    unfoldable pub certification_tree : State → Option T
    unfolding uleb128
    certification_tree state = elim (last state.translated) [
      | none ↦ none
      | some tip ↦ elim (get_elem? state.source (length state.translated - 1)) [
        | none ↦ none
        | some source ↦ elim state.ledger [
          | none ↦ none
          | some ledger ↦ some (tip_tree tip source ledger (length state.translated - 1))
        ]
      ]
    ]

    unfoldable pub refresh_certification : State → State
    unfolding certification_tree
    refresh_certification state = record state {
      certified_data = elim (certification_tree state) [
        | none ↦ replicate 32 0
        | some tree ↦ trees.digest tree
      ];
    }

    unfoldable pub rebuild_translated : State → Adapted State
    unfolding rebuild_from refresh_certification
    rebuild_translated state = do
      translated ← rebuild_from state (length state.source) 0 none
      ok (refresh_certification (record state { translated = translated }))
