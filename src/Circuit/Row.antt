-- ===== src/Circuit/Row.antt =====
-- `[F; TREE_ARITY]`, the row of children of one tree node, and the array operations on it.
use shielded_ledger_hivemind.Common.{ℕ, zero, suc, leb, if◌then◌else◌}

pub record Row (F : Type 0) : Type 0 where
  pub c0 : F
  pub c1 : F
  pub c2 : F
  pub c3 : F

module _ {F : Type 0} where
  -- `[x; TREE_ARITY]`
  abbrev pub splat : F → Row F
  splat x = record { c0 = x; c1 = x; c2 = x; c3 = x }

  -- `core::array::from_fn`, and a loop that fills slot `j` with `f j`
  abbrev pub from_fn : (ℕ → F) → Row F
  from_fn f = record { c0 = f 0; c1 = f 1; c2 = f 2; c3 = f 3 }

  -- `row[j]`; every index of the source is below the arity
  abbrev pub slot : Row F → ℕ → F
  slot r zero = r.c0
  slot r (suc zero) = r.c1
  slot r (suc (suc zero)) = r.c2
  slot r (suc (suc (suc _))) = r.c3

  -- `row[j] = x`
  abbrev pub set_slot : Row F → ℕ → F → Row F
  set_slot r zero x = record r { c0 = x }
  set_slot r (suc zero) x = record r { c1 = x }
  set_slot r (suc (suc zero)) x = record r { c2 = x }
  set_slot r (suc (suc (suc _))) x = record r { c3 = x }

  -- `row[..=pos].copy_from_slice(&from[..=pos])`
  abbrev pub copy_prefix : ℕ → Row F → Row F → Row F
  copy_prefix pos from row = from_fn (λ j. if leb j pos then slot from j else slot row j)
