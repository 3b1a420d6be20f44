-- ===== src/Adapter/Values.antt =====
-- `Value` and `hash_value` of nns_adapter/src/lib.rs. A text is its UTF-8 bytes. A vector of values
-- and a vector of named values are the types `Values` and `Entries`.
pub mod Sort
pub mod Leb128
use shielded_ledger_hivemind.Common.{ℕ, ℤ, List, [], ◌∷◌, ◌++◌}
use shielded_ledger_hivemind.Adapter.Legacy.Messages.{Bytes, Crates}
use shielded_ledger_hivemind.Adapter.Values.Sort.{sort_pairs}
use shielded_ledger_hivemind.Adapter.Values.Leb128.{uleb128, sleb128}

mutual
  pub data Value : Type 0 where
    blob : Bytes → Value
    text : Bytes → Value
    nat : ℕ → Value
    int : ℤ → Value
    array : Values → Value
    map : Entries → Value

  pub data Values : Type 0 where
    nil : Values
    cons : Value → Values → Values

  pub data Entries : Type 0 where
    end : Entries
    entry : Bytes → Value → Entries → Entries

-- The bytes that are fed to the digest, pair by pair.
abbrev pub concat_pairs : List (Bytes × Bytes) → Bytes
concat_pairs [] = []
concat_pairs ((key, value) ∷ rest) = key ++ (value ++ concat_pairs rest)

module _ (C : Crates) where
  unfoldable mutual
    unfolding uleb128 sleb128 sort_pairs

    pub hash_value : Value → Bytes
    hash_value (Value.blob b) = C.sha256 b
    hash_value (Value.text b) = C.sha256 b
    hash_value (Value.nat n) = C.sha256 (uleb128 n)
    hash_value (Value.int z) = C.sha256 (sleb128 z)
    hash_value (Value.array values) = C.sha256 (hash_values values)
    hash_value (Value.map entries) = C.sha256 (concat_pairs (sort_pairs (hash_entries entries)))

    -- The digests of the elements, one after the other.
    pub hash_values : Values → Bytes
    hash_values Values.nil = []
    hash_values (Values.cons v vs) = hash_value v ++ hash_values vs

    pub hash_entries : Entries → List (Bytes × Bytes)
    hash_entries Entries.end = []
    hash_entries (Entries.entry key v rest) = (C.sha256 key, hash_value v) ∷ hash_entries rest
