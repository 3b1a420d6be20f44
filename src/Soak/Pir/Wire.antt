-- ===== src/Soak/Pir/Wire.antt =====
-- The wire form of words and the record stream's chain, of soak/src/pir2.rs.
use shielded_ledger_hivemind.Common.{
  ℕ, ◌+◌, ◌%◌, Option, none, some, List, [], ◌∷◌, ◌++◌, length, replicate, ◌==◌, if◌then◌else◌,
}
use shielded_ledger_hivemind.Adapter.Legacy.Messages.{Bytes}
use shielded_ledger_hivemind.Soak.Pir.{dpage}
use shielded_ledger_hivemind.Soak.Scan.{le_value, u32_le}

unfoldable pub to_wire : List ℕ → Bytes
unfolding u32_le
to_wire [] = []
to_wire (w ∷ words) = u32_le w ++ to_wire words

-- `chunks_exact(4)`
unfoldable pub chunk_words : Bytes → List ℕ
unfolding le_value
chunk_words (a ∷ b ∷ c ∷ e ∷ bytes) = le_value (a ∷ b ∷ c ∷ e ∷ []) ∷ chunk_words bytes
chunk_words bytes = []

-- `none` is the failed assertion.
unfoldable pub from_wire : Bytes → Option (List ℕ)
unfolding chunk_words
from_wire bytes = if length bytes % 4 == 0 then some (chunk_words bytes) else none

pub record StreamChain : Type 0 where
  pub chain : Bytes
  pub count : ℕ
  pub boundaries : List Bytes

abbrev pub stream_new : StreamChain
stream_new = record { chain = replicate 32 0; count = 0; boundaries = [] }

module _ (sha256 : Bytes → Bytes) where
  unfoldable pub stream_absorb : StreamChain → Bytes → StreamChain
  stream_absorb s cells =
      let chain = sha256 (s.chain ++ cells) in
      record {
        chain = chain;
        count = s.count + 1;
        boundaries =
            if (s.count + 1) % dpage == 0 then s.boundaries ++ (chain ∷ []) else s.boundaries;
      }
