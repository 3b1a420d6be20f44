-- ===== src/Adapter/Legacy/Operations.antt =====
-- `decode_operation` and `encode_operation` of nns_adapter/src/legacy.rs.
use Prim.Native.String.{String}
use mathlib.Core.Option
use shielded_ledger_hivemind.Common.{
  pos, ◌≡◌, refl, Option, none, some, ok, ◌>>=◌, >>=-eq-ok, ap₂, subst, ok-injective,
}
use shielded_ledger_hivemind.Adapter.Legacy.Messages.{
  Bytes, Tokens, TimeStamp, Operation, PbTimeStamp, PbTokens, PbAccountIdentifier, Extension,
  Transfer, Decoded, Crates,
}
use shielded_ledger_hivemind.Adapter.Legacy.Accounts.{
  required, canonical_account, pb_account, HasWidths, IsIdentifier, canonical_account-IsIdentifier,
  canonical_account-identifier,
}

unfoldable pub pb_tokens : Option PbTokens → String → Decoded Tokens
pb_tokens value field = do v ← required value field; ok (record { e8s = v.e8s })

-- `Option<Result<T>>::transpose`
abbrev pub transpose : {A : Type 0} → Option (Decoded A) → Decoded (Option A)
transpose none = ok none
transpose (some r) = r >>= λ a. ok (some a)

module _ (C : Crates) where
  -- The `match value.extension` of a decoded send.
  unfoldable pub decode_extension :
      Bytes → Bytes → Tokens → Tokens → Option Extension → Decoded Operation
  unfolding pb_tokens required
  decode_extension from to amount fee none = ok (Operation.transfer from to amount fee none)
  decode_extension from to amount fee (some (Extension.transfer_from extension)) = do
    account ← required extension.spender "transfer_from.spender"
    spender ← canonical_account C account
    ok (Operation.transfer from to amount fee (some spender))
  decode_extension from to amount fee (some (Extension.approve extension)) = do
    allowance ← pb_tokens extension.allowance "approve.allowance"
    ok (
        Operation.approve from to (pos allowance.e8s) allowance fee
          (Option.map (λ (t : PbTimeStamp). record { timestamp_nanos = t.timestamp_nanos })
            extension.expires_at)
          (Option.map (λ (t : PbTokens). record { e8s = t.e8s }) extension.expected_allowance))

  unfoldable pub decode_operation : Transfer → Decoded Operation
  unfolding pb_tokens required decode_extension
  decode_operation (Transfer.mint value) = do
    account ← required value.to "mint.to"
    to ← canonical_account C account
    amount ← pb_tokens value.amount "mint.amount"
    ok (Operation.mint to amount)
  decode_operation (Transfer.burn value) = do
    account ← required value.from "burn.from"
    from ← canonical_account C account
    spender ← transpose (Option.map (canonical_account C) value.spender)
    amount ← pb_tokens value.amount "burn.amount"
    ok (Operation.burn from spender amount)
  decode_operation (Transfer.send value) = do
    from_account ← required value.from "send.from"
    from ← canonical_account C from_account
    to_account ← required value.to "send.to"
    to ← canonical_account C to_account
    amount ← pb_tokens value.amount "send.amount"
    fee ← pb_tokens value.max_fee "send.max_fee"
    decode_extension from to amount fee value.extension

unfoldable pub pb_amount : Tokens → PbTokens
pb_amount value = record { e8s = value.e8s }

unfoldable pub encode_operation : Operation → Transfer
unfolding pb_amount pb_account
encode_operation (Operation.mint to amount) =
    Transfer.mint (record { to = some (pb_account to); amount = some (pb_amount amount) })
encode_operation (Operation.burn from spender amount) = Transfer.burn (record {
  from = some (pb_account from);
  amount = some (pb_amount amount);
  spender = Option.map pb_account spender;
})
encode_operation (Operation.transfer from to amount fee spender) = Transfer.send (record {
  from = some (pb_account from);
  to = some (pb_account to);
  amount = some (pb_amount amount);
  max_fee = some (pb_amount fee);
  extension =
      Option.map (λ (s : Bytes). Extension.transfer_from (record { spender = some (pb_account s) }))
        spender;
})
encode_operation (Operation.approve from spender allowance_e8s allowance fee expires_at expected) =
    Transfer.send (record {
      from = some (pb_account from);
      to = some (pb_account spender);
      amount = some (pb_amount (record { e8s = 0 }));
      max_fee = some (pb_amount fee);
      extension = some (
          Extension.approve (record {
            allowance = some (pb_amount allowance);
            expires_at =
                Option.map (λ (t : TimeStamp). record { timestamp_nanos = t.timestamp_nanos })
                  expires_at;
            expected_allowance = Option.map pb_amount expected;
          }));
    })

module _ (C : Crates) where
  abbrev IsIdentifier? : Option Bytes → Type 0
  IsIdentifier? none = Unit
  IsIdentifier? (some b) = IsIdentifier C b

  -- What the ledger's Candid interface gives: identifiers, and an approval whose deprecated
  -- `allowance_e8s` repeats the allowance.
  abbrev pub IsWellFormed : Operation → Type 0
  IsWellFormed (Operation.mint to amount) = IsIdentifier C to
  IsWellFormed (Operation.burn from spender amount) = IsIdentifier C from × IsIdentifier? spender
  IsWellFormed (Operation.transfer from to amount fee spender) =
      IsIdentifier C from × IsIdentifier C to × IsIdentifier? spender
  IsWellFormed (Operation.approve from spender allowance_e8s allowance fee expires_at expected) =
      IsIdentifier C from × IsIdentifier C spender × (allowance_e8s ≡ pos allowance.e8s)

map-stamp :
    (o : Option TimeStamp)
    → Option.map {A = PbTimeStamp} {B = TimeStamp}
        (λ t. record { timestamp_nanos = t.timestamp_nanos })
        (Option.map (λ t. record { timestamp_nanos = t.timestamp_nanos }) o)
      ≡ o
map-stamp none = refl
map-stamp (some t) = refl

map-tokens :
    (o : Option Tokens)
    → Option.map {A = PbTokens} {B = Tokens}
        (λ t. record { e8s = t.e8s })
        (Option.map (λ t. record { e8s = t.e8s }) o)
      ≡ o
map-tokens none = refl
map-tokens (some t) = refl

module _ (C : Crates) (widths : HasWidths C) where
  -- With checksums of their documented widths, every well-formed operation survives the way into its protobuf form and back.
  pub decode_operation-encode_operation :
      (op : Operation) → IsWellFormed C op → decode_operation C (encode_operation op) ≡ ok op
  unfolding decode_operation encode_operation
  decode_operation-encode_operation (Operation.mint to amount) h =
      rw (canonical_account-identifier C widths to h)
  decode_operation-encode_operation (Operation.burn from none amount) h =
      rw (canonical_account-identifier C widths from h.0)
  decode_operation-encode_operation (Operation.burn from (some spender) amount) h = rw (
    canonical_account-identifier C widths from h.0,
    canonical_account-identifier C widths spender h.1,
  )
  decode_operation-encode_operation (Operation.transfer from to amount fee none) h =
      rw (
        canonical_account-identifier C widths from h.0,
        canonical_account-identifier C widths to h.1,
      )
  decode_operation-encode_operation (Operation.transfer from to amount fee (some s)) h = rw (
    canonical_account-identifier C widths from h.0,
    canonical_account-identifier C widths to h.1,
    canonical_account-identifier C widths s h.2,
  )
  decode_operation-encode_operation (Operation.approve from s e a fee expires expected) h =
      rw
        (
          canonical_account-identifier C widths from h.0,
          canonical_account-identifier C widths s h.1,
          h.2,
        )
        (ap₂ (λ t x. ok (Operation.approve from s (pos a.e8s) a fee t x)) (map-stamp expires)
          (map-tokens expected))

  transpose-IsIdentifier :
      (o : Option PbAccountIdentifier) (r : Option Bytes)
      → transpose (Option.map (canonical_account C) o) ≡ ok r
      → IsIdentifier? C r
  transpose-IsIdentifier none r h = subst (IsIdentifier? C) (ok-injective h) tt
  transpose-IsIdentifier (some v) r h =
      let (b, e, h1) = >>=-eq-ok (canonical_account C v) _ h in
      subst (IsIdentifier? C) (ok-injective h1) (canonical_account-IsIdentifier C widths v b e)

  decode_extension-IsWellFormed :
      (from to : Bytes) (amount fee : Tokens) (x : Option Extension) (op : Operation)
      → IsIdentifier C from
      → IsIdentifier C to
      → decode_extension C from to amount fee x ≡ ok op
      → IsWellFormed C op
  unfolding decode_extension
  decode_extension-IsWellFormed from to amount fee none op hf ht h =
      subst (IsWellFormed C) (ok-injective h) (hf, ht, tt)
  decode_extension-IsWellFormed from to amount fee (some (Extension.transfer_from x)) op hf ht h =
      let (account, _, h1) = >>=-eq-ok (required x.spender "transfer_from.spender") _ h in
      let (s, e, h2) = >>=-eq-ok (canonical_account C account) _ h1 in
      subst (IsWellFormed C) (ok-injective h2)
        (hf, ht, canonical_account-IsIdentifier C widths account s e)
  decode_extension-IsWellFormed from to amount fee (some (Extension.approve x)) op hf ht h =
      let (a, _, h1) = >>=-eq-ok (pb_tokens x.allowance "approve.allowance") _ h in
      subst (IsWellFormed C) (ok-injective h1) (hf, ht, refl)

  -- With checksums of their documented widths, whatever is decoded is well formed.
  pub decode_operation-IsWellFormed :
      (t : Transfer) (op : Operation) → decode_operation C t ≡ ok op → IsWellFormed C op
  unfolding decode_operation
  decode_operation-IsWellFormed (Transfer.mint v) op h =
      let (account, _, h1) = >>=-eq-ok (required v.to "mint.to") _ h in
      let (to, e, h2) = >>=-eq-ok (canonical_account C account) _ h1 in
      let (a, _, h3) = >>=-eq-ok (pb_tokens v.amount "mint.amount") _ h2 in
      subst (IsWellFormed C) (ok-injective h3)
        (canonical_account-IsIdentifier C widths account to e)
  decode_operation-IsWellFormed (Transfer.burn v) op h =
      let (account, _, h1) = >>=-eq-ok (required v.from "burn.from") _ h in
      let (from, e, h2) = >>=-eq-ok (canonical_account C account) _ h1 in
      let (spender, es, h3) =
        >>=-eq-ok (transpose (Option.map (canonical_account C) v.spender)) _ h2 in
      let (a, _, h4) = >>=-eq-ok (pb_tokens v.amount "burn.amount") _ h3 in
      subst (IsWellFormed C) (ok-injective h4) (
        canonical_account-IsIdentifier C widths account from e,
        transpose-IsIdentifier v.spender spender es,
      )
  decode_operation-IsWellFormed (Transfer.send v) op h =
      let (f, _, h1) = >>=-eq-ok (required v.from "send.from") _ h in
      let (from, ef, h2) = >>=-eq-ok (canonical_account C f) _ h1 in
      let (t, _, h3) = >>=-eq-ok (required v.to "send.to") _ h2 in
      let (to, et, h4) = >>=-eq-ok (canonical_account C t) _ h3 in
      let (a, _, h5) = >>=-eq-ok (pb_tokens v.amount "send.amount") _ h4 in
      let (fee, _, h6) = >>=-eq-ok (pb_tokens v.max_fee "send.max_fee") _ h5 in
      decode_extension-IsWellFormed from to a fee v.extension op
        (canonical_account-IsIdentifier C widths f from ef)
        (canonical_account-IsIdentifier C widths t to et) h6
