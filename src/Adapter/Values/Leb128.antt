-- ===== src/Adapter/Values/Leb128.antt =====
-- The variable-length numbers of `hash_value` in nns_adapter/src/lib.rs. The fuel of a loop is the
-- number itself and one more: each round divides by 128.
use shielded_ledger_hivemind.Common.{
  ℕ, zero, suc, ◌+◌, ◌-◌, ◌/◌, ◌%◌, ℤ, pos, negsuc, Bool, true, false, ◌&&◌, not, [], ◌∷◌, ltb,
  ◌==◌,
}
use shielded_ledger_hivemind.Adapter.Legacy.Messages.{Bytes}

-- The digits to base 128, the lowest first, all but the last with the high bit.
unfoldable pub uleb_digits : ℕ → ℕ → Bytes
uleb_digits zero n = []
uleb_digits (suc fuel) n = elim (ltb n 128) [
  | true ↦ n ∷ []
  | false ↦ (n % 128 + 128) ∷ uleb_digits fuel (n / 128)
]

unfoldable pub uleb128 : ℕ → Bytes
unfolding uleb_digits
uleb128 n = uleb_digits (suc n) n

-- `((number % 128) + 128) % 128`, and `(number - low) / 128`.
abbrev pub low_digit : ℤ → ℕ
low_digit (pos n) = n % 128
low_digit (negsuc n) = 127 - n % 128

abbrev pub next_number : ℤ → ℤ
next_number (pos n) = pos (n / 128)
next_number (negsuc n) = negsuc (n / 128)

-- Zero with a clear sign bit, or minus one with a set one.
abbrev pub is_last : ℤ → ℕ → Bool
is_last (pos n) low = n == 0 && ltb low 64
is_last (negsuc n) low = n == 0 && not (ltb low 64)

unfoldable pub sleb_digits : ℕ → ℤ → Bytes
sleb_digits zero z = []
sleb_digits (suc fuel) z = elim (is_last (next_number z) (low_digit z)) [
  | true ↦ low_digit z ∷ []
  | false ↦ (low_digit z + 128) ∷ sleb_digits fuel (next_number z)
]

abbrev sleb_fuel : ℤ → ℕ
sleb_fuel (pos n) = suc (suc n)
sleb_fuel (negsuc n) = suc (suc n)

unfoldable pub sleb128 : ℤ → Bytes
unfolding sleb_digits
sleb128 z = sleb_digits (sleb_fuel z) z
