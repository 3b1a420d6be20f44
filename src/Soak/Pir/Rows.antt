-- ===== src/Soak/Pir/Rows.antt =====
-- One row of an answer of soak/src/pir2.rs, and what decryption makes of it.
use native.Mathlib.Nat.{div-add-mod, mod-lt, div-lt_iff_lt-mul, mul-mod_left, div-mul-le_self}
use native.Mathlib.Decide.{ℕ_discrete, dec_lt}
use shielded_ledger_hivemind.Common.{
  ne→==, le→ltb, ℕ, ◌+◌, ◌*◌, ◌/◌, ◌%◌, ◌≤◌, ◌<◌, ◌≡◌, ◌≢◌, ◌⊎◌, ap, ◌∙◌, arith, ltb, ==_iff, inl,
  inr, lt→ltb, true, false,
}
use shielded_ledger_hivemind.Soak.Pir.{
  record_bytes, Geometry, place, pinned_columns, pinned_rows, div_ceil,
}
use shielded_ledger_hivemind.Soak.Pir.Places.{mul_step, Fits, place_offset, place_row}

ltb_irrefl : (a b : ℕ) → a ≡ b → ltb a b ≡ false
ltb_irrefl a b h = ground arith

strict : (a n c : ℕ) → a % n ≢ 0 → a ≤ c * n → a < c * n
strict a n c rest le = elim (ℕ_discrete a (c * n)) [
  | yes e ↦ absurd (rest (ap (λ i. i % n) e ∙ mul-mod_left c n))
  | no ne ↦ omega arith
]

div-le-of : (n q c : ℕ) → 0 < n → q * n ≤ c * n → q ≤ c
div-le-of n q c h le = elim (dec_lt c q) [
  | yes more ↦ absurd (omega (arith, mul_step c q n more))
  | no fits ↦ omega arith
]

pub le-mul_of_div_ceil-le : (a n c : ℕ) → 0 < n → div_ceil a n ≤ c → a ≤ c * n
le-mul_of_div_ceil-le a n c h le =
    let split = div-add-mod a n in
    let left = mod-lt a h in
    elim (ℕ_discrete (a % n) 0) [
      | yes exact ↦ let q : a / n ≤ c = rw ((==_iff (a % n) 0).1 exact) at le in grind arith
      | no rest ↦ let q : a / n + 1 ≤ c = rw (ne→== (a % n) 0 rest) at le in grind arith
    ]

div_ceil-le : (a n c : ℕ) → 0 < n → a ≤ c * n → div_ceil a n ≤ c
div_ceil-le a n c h le =
    let split = div-add-mod a n in
    elim (ℕ_discrete (a % n) 0) [
      | yes exact ↦ rw ((==_iff (a % n) 0).1 exact) (div-le-of n (a / n) c h (grind arith))
      | no rest ↦
          let below : a / n < c = (div-lt_iff_lt-mul h).1 (strict a n c rest le) in
          rw (ne→== (a % n) 0 rest) (omega arith)
    ]

-- The pinned rows of a column are those of the records below the pin.
module _ (g : Geometry) (f : Fits g) (fill c r : ℕ) (lr : r < g.m_rows) where
  pub pinned_row :
      ((ltb r (pinned_rows g fill c) ≡ true) × (c * g.m_rows + r < record_bytes * fill))
      ⊎ ((ltb r (pinned_rows g fill c) ≡ false) × (record_bytes * fill ≤ c * g.m_rows + r))
  unfolding pinned_rows
  pinned_row =
      let full = (place g fill).0 in
      let offset = place_offset g f fill in
      let row = place_row g f fill in
      elim (dec_lt c full) [
        | yes before ↦
            let room = mul_step c full g.m_rows before in
            inl (rw (lt→ltb c full before) (lt→ltb r g.m_rows lr), omega arith)
        | no reached ↦ elim (ℕ_discrete c full) [
          | yes e ↦
              let same : c * g.m_rows ≡ full * g.m_rows = ap (λ i. i * g.m_rows) e in
              elim (dec_lt r (place g fill).1) [
                | yes above ↦ inl (
                  rw (ltb_irrefl c full e, (==_iff c full).1 e) (lt→ltb r (place g fill).1 above),
                  omega arith,
                )
                | no below ↦ inr (
                  rw (ltb_irrefl c full e, (==_iff c full).1 e)
                      (le→ltb r (place g fill).1 (omega arith)),
                  omega arith,
                )
              ]
          | no ne ↦
              let room = mul_step full c g.m_rows (omega arith) in
              inr (
                rw (le→ltb c full (omega arith), ne→== c full ne) (le→ltb r 0 (omega arith)),
                omega arith,
              )
        ]
      ]

-- Columns behind the pin hold nothing.
pub pinned_columns-le :
    (g : Geometry) → Fits g → (fill : ℕ) → fill ≤ g.shard_size → pinned_columns g fill ≤ g.m_cols
pinned_columns-le g f fill le =
    div_ceil-le fill g.records_per_column g.m_cols f.some_records (omega (arith, f.columns))

pub pinned_columns_behind :
    (g : Geometry)
    → Fits g
    → (fill c : ℕ) → pinned_columns g fill ≤ c
    → record_bytes * fill ≤ c * g.m_rows
pinned_columns_behind g f fill c h =
    let bound = le-mul_of_div_ceil-le fill g.records_per_column c f.some_records h in
    let scale : c * g.m_rows ≡ 288 * (c * g.records_per_column) = rw f.rows (grind arith) in
    omega arith

pub place_pinned :
    (g : Geometry)
    → Fits g
    → (fill index : ℕ) → index < fill
    → (place g index).0 < pinned_columns g fill
place_pinned g f fill index lt = elim (dec_lt (place g index).0 (pinned_columns g fill)) [
  | yes below ↦ below
  | no beyond ↦
      let bound =
        le-mul_of_div_ceil-le fill g.records_per_column (place g index).0 f.some_records
          (omega arith) in
      absurd (omega (arith, div-mul-le_self index g.records_per_column))
]
