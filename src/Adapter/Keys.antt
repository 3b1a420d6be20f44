-- ===== src/Adapter/Keys.antt =====
-- The map keys and the tree labels of nns_adapter/src/lib.rs, as their bytes.
use shielded_ledger_hivemind.Common.{[], ◌∷◌}
use shielded_ledger_hivemind.Adapter.Legacy.Messages.{Bytes}

abbrev pub amt : Bytes
amt = b'a' ∷ b'm' ∷ b't' ∷ []

abbrev pub from : Bytes
from = b'f' ∷ b'r' ∷ b'o' ∷ b'm' ∷ []

abbrev pub to : Bytes
to = b't' ∷ b'o' ∷ []

abbrev pub spender : Bytes
spender = b's' ∷ b'p' ∷ b'e' ∷ b'n' ∷ b'd' ∷ b'e' ∷ b'r' ∷ []

abbrev pub fee : Bytes
fee = b'f' ∷ b'e' ∷ b'e' ∷ []

abbrev pub memo : Bytes
memo = b'm' ∷ b'e' ∷ b'm' ∷ b'o' ∷ []

abbrev pub ts : Bytes
ts = b't' ∷ b's' ∷ []

abbrev pub expected_allowance : Bytes
expected_allowance =
    b'e' ∷ b'x' ∷ b'p' ∷ b'e' ∷ b'c' ∷ b't' ∷ b'e' ∷ b'd' ∷ b'_' ∷ b'a' ∷ b'l' ∷ b'l' ∷ b'o' ∷ b'w'
    ∷ b'a' ∷ b'n' ∷ b'c' ∷ b'e' ∷ []

abbrev pub expires_at : Bytes
expires_at = b'e' ∷ b'x' ∷ b'p' ∷ b'i' ∷ b'r' ∷ b'e' ∷ b's' ∷ b'_' ∷ b'a' ∷ b't' ∷ []

abbrev pub btype : Bytes
btype = b'b' ∷ b't' ∷ b'y' ∷ b'p' ∷ b'e' ∷ []

abbrev pub phash : Bytes
phash = b'p' ∷ b'h' ∷ b'a' ∷ b's' ∷ b'h' ∷ []

abbrev pub tx : Bytes
tx = b't' ∷ b'x' ∷ []

-- The four labels.
abbrev pub last_block_hash : Bytes
last_block_hash =
    b'l' ∷ b'a' ∷ b's' ∷ b't' ∷ b'_' ∷ b'b' ∷ b'l' ∷ b'o' ∷ b'c' ∷ b'k' ∷ b'_' ∷ b'h' ∷ b'a' ∷ b's'
    ∷ b'h' ∷ []

abbrev pub last_block_index : Bytes
last_block_index =
    b'l' ∷ b'a' ∷ b's' ∷ b't' ∷ b'_' ∷ b'b' ∷ b'l' ∷ b'o' ∷ b'c' ∷ b'k' ∷ b'_' ∷ b'i' ∷ b'n' ∷ b'd'
    ∷ b'e' ∷ b'x' ∷ []

abbrev pub source_ledger : Bytes
source_ledger =
    b's' ∷ b'o' ∷ b'u' ∷ b'r' ∷ b'c' ∷ b'e' ∷ b'_' ∷ b'l' ∷ b'e' ∷ b'd' ∷ b'g' ∷ b'e' ∷ b'r' ∷ []

abbrev pub source_legacy_tip_hash : Bytes
source_legacy_tip_hash =
    b's' ∷ b'o' ∷ b'u' ∷ b'r' ∷ b'c' ∷ b'e' ∷ b'_' ∷ b'l' ∷ b'e' ∷ b'g' ∷ b'a' ∷ b'c' ∷ b'y' ∷ b'_'
    ∷ b't' ∷ b'i' ∷ b'p' ∷ b'_' ∷ b'h' ∷ b'a' ∷ b's' ∷ b'h' ∷ []
