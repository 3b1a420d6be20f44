-- ===== src/Soak/Pir/Inside.antt =====
-- The indices of the answers of soak/src/pir2.rs are within the database of a shard.
use native.Mathlib.Nat.{mod-lt, mul_comm}
use shielded_ledger_hivemind.Common.{
  ℕ, ◌+◌, ◌-◌, ◌*◌, ◌≤◌, ◌≡◌, ap, ◌∙◌, arith, length, replicate, length-append, ltb, ◌==◌,
  Bool-cases, inl, inr,
}
use shielded_ledger_hivemind.Adapter.Legacy.Messages.{Bytes}
use shielded_ledger_hivemind.Soak.Pir.{Geometry, pinned_rows, place}
use shielded_ledger_hivemind.Soak.Pir.Server.{Shard}
use shielded_ledger_hivemind.Soak.Pir.Places.{Fits, mul_step, length-replicate}
use shielded_ledger_hivemind.Soak.Pir.Rows.{pinned_columns-le}
use shielded_ledger_hivemind.Soak.Pir.Shards.{Holds}
use shielded_ledger_hivemind.Soak.Pir.Answers.{Inside}

pinned_rows-le : (g : Geometry) → Fits g → (fill c : ℕ) → pinned_rows g fill c ≤ g.m_rows
unfolding pinned_rows
pinned_rows-le g f fill c =
    let left = mod-lt fill f.some_records in
    let rows = f.rows in
    elim (Bool-cases (ltb c (place g fill).0)) [
      | inl before ↦ rw before (omega arith)
      | inr reached ↦ elim (Bool-cases (c == (place g fill).0)) [
        | inl at ↦ rw (reached, at) (omega arith)
        | inr behind ↦ rw (reached, behind) (omega arith)
      ]
    ]

-- The database of a shard has all cells of its geometry.
pub Holds-Inside :
    (sha256 : Bytes → Bytes) (cells : Bytes) (s : Shard) (fill : ℕ)
    → Holds sha256 cells s
    → fill ≤ s.fill
    → Inside s fill
Holds-Inside sha256 cells s fill holds pin c lt =
    let g = s.geometry in
    let room : ℕ = g.m_rows * g.m_cols - length cells in
    let size : length s.d ≡ length cells + room =
      ap length holds.database
      ∙ (length-append cells (replicate room 0)
          ∙ ap (λ n. length cells + n) (length-replicate room 0)) in
    let rows = pinned_rows-le g holds.fits fill c in
    let columns = pinned_columns-le g holds.fits fill (omega (arith, holds.within)) in
    let column = mul_step c g.m_cols g.m_rows (omega arith) in
    (omega (arith, mul_comm g.m_rows g.m_cols), rows)
