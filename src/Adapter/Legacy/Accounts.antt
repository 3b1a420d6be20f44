-- ===== src/Adapter/Legacy/Accounts.antt =====
-- Account identifiers in nns_adapter/src/legacy.rs: a CRC-32 checksum in front of a SHA-224 digest.
use Prim.Native.String.{String}
use mathlib.Core.Logic.{ite}
use shielded_ledger_hivemind.Common.{
  ◌≡◌, refl, sym, ap, ◌∙◌, Option, none, some, [], ◌∷◌, ◌++◌, arith, ok, err, ok_or, ◌==◌,
  if◌then◌else◌, length, take, drop, replicate, length-append, inl, inr, subst, ok-injective,
  Bool-cases,
}
use shielded_ledger_hivemind.Adapter.Legacy.Messages.{
  Bytes, Bytes-discrete, PbAccountIdentifier, missing_field, checksum_mismatch,
  invalid_account_length, subaccount_length, Decoded, Crates,
}

unfoldable pub required : {A : Type 0} → Option A → String → Decoded A
required value field = ok_or value (missing_field field)

-- b"\x0Aaccount-id"
abbrev pub account_domain : Bytes
account_domain = 0x0a ∷ b'a' ∷ b'c' ∷ b'c' ∷ b'o' ∷ b'u' ∷ b'n' ∷ b't' ∷ b'-' ∷ b'i' ∷ b'd' ∷ []

module _ (C : Crates) where
  unfoldable pub canonical_account : PbAccountIdentifier → Decoded Bytes
  canonical_account value =
      if length value.hash == 28
      then ok (C.crc32 value.hash ++ value.hash)
      else (if length value.hash == 32
          then ite (Bytes-discrete (take 4 value.hash) (C.crc32 (drop 4 value.hash)))
              (ok value.hash) (err checksum_mismatch)
          else err (invalid_account_length (length value.hash)))

  identifier_of : Bytes → Bytes → Bytes
  identifier_of owner subaccount =
      let digest = C.sha224 (account_domain ++ (owner ++ subaccount)) in C.crc32 digest ++ digest

  -- A principal is its bytes.
  unfoldable pub account_identifier : Bytes → Option Bytes → Decoded Bytes
  unfolding identifier_of
  account_identifier owner none = ok (identifier_of owner (replicate 32 0))
  account_identifier owner (some subaccount) =
      if length subaccount == 32
      then ok (identifier_of owner subaccount)
      else err (subaccount_length (length subaccount))

unfoldable pub pb_account : Bytes → PbAccountIdentifier
pb_account value = record { hash = value }

-- The widths that the crates document.
pub record HasWidths (C : Crates) : Type 0 where
  pub crc32_width : (b : Bytes) → length (C.crc32 b) ≡ 4
  pub sha224_width : (b : Bytes) → length (C.sha224 b) ≡ 28

module _ (C : Crates) where
  -- Thirty-two bytes, the first four the checksum of the others.
  abbrev pub IsIdentifier : Bytes → Type 0
  IsIdentifier b = (length b ≡ 32) × (take 4 b ≡ C.crc32 (drop 4 b))

take-append_four : (a b : Bytes) → length a ≡ 4 → take 4 (a ++ b) ≡ a
take-append_four [] b h = absurd (omega arith)
take-append_four (x ∷ []) b h = absurd (omega arith)
take-append_four (x ∷ y ∷ []) b h = absurd (omega arith)
take-append_four (x ∷ y ∷ z ∷ []) b h = absurd (omega arith)
take-append_four (x ∷ y ∷ z ∷ w ∷ []) b h = refl
take-append_four (x ∷ y ∷ z ∷ w ∷ v ∷ r) b h = absurd (omega arith)

drop-append_four : (a b : Bytes) → length a ≡ 4 → drop 4 (a ++ b) ≡ b
drop-append_four [] b h = absurd (omega arith)
drop-append_four (x ∷ []) b h = absurd (omega arith)
drop-append_four (x ∷ y ∷ []) b h = absurd (omega arith)
drop-append_four (x ∷ y ∷ z ∷ []) b h = absurd (omega arith)
drop-append_four (x ∷ y ∷ z ∷ w ∷ []) b h = refl
drop-append_four (x ∷ y ∷ z ∷ w ∷ v ∷ r) b h = absurd (omega arith)

module _ (C : Crates) (widths : HasWidths C) where
  checksummed-IsIdentifier : (b : Bytes) → length b ≡ 28 → IsIdentifier C (C.crc32 b ++ b)
  checksummed-IsIdentifier b h =
      let w = widths.crc32_width b in
      (
        omega (arith, length-append (C.crc32 b) b),
        take-append_four (C.crc32 b) b w ∙ ap C.crc32 (sym (drop-append_four (C.crc32 b) b w)),
      )

  identifier_of-IsIdentifier :
      (owner subaccount : Bytes) → IsIdentifier C (identifier_of C owner subaccount)
  unfolding identifier_of
  identifier_of-IsIdentifier owner subaccount =
      let preimage = account_domain ++ (owner ++ subaccount) in
      checksummed-IsIdentifier (C.sha224 preimage) (widths.sha224_width preimage)

  -- With checksums of their documented widths, what is accepted is an identifier: 28 bytes get their checksum, 32 bytes are kept if theirs is
  -- right, and any other length is refused.
  pub canonical_account-IsIdentifier :
      (v : PbAccountIdentifier) (b : Bytes) → canonical_account C v ≡ ok b → IsIdentifier C b
  unfolding canonical_account
  canonical_account-IsIdentifier v b h = ground (arith, checksummed-IsIdentifier v.hash)

  -- An identifier is its own canonical form.
  pub canonical_account-identifier :
      (b : Bytes) → IsIdentifier C b → canonical_account C (pb_account b) ≡ ok b
  unfolding canonical_account pb_account
  canonical_account-identifier b h = ground arith

  -- With checksums and digests of their documented widths, the identifier of an owner and a subaccount,
  -- where the subaccount has the right length, is 32 bytes that start with the checksum of the others.
  pub account_identifier-IsIdentifier :
      (owner : Bytes) (subaccount : Option Bytes) (b : Bytes)
      → account_identifier C owner subaccount ≡ ok b
      → IsIdentifier C b
  unfolding account_identifier
  account_identifier-IsIdentifier owner none b h =
      subst (IsIdentifier C) (ok-injective h) (identifier_of-IsIdentifier owner (replicate 32 0))
  account_identifier-IsIdentifier owner (some s) b h = elim (Bool-cases (length s == 32)) [
    | inl fits ↦
        subst (IsIdentifier C) (ok-injective (rw fits at h)) (identifier_of-IsIdentifier owner s)
    | inr wide ↦ cc (rw wide at h)
  ]
