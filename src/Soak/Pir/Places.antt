-- ===== src/Soak/Pir/Places.antt =====
-- Where soak/src/pir2.rs puts a record: the database is the records one after another.
use mathlib.Core.List.{append_assoc}
use native.Mathlib.Nat.{div-lt_iff_lt-mul, div-add-mod, mod-lt}
use native.Mathlib.Decide.{dec_lt}
use shielded_ledger_hivemind.Common.{
  ℕ, zero, suc, ◌+◌, ◌-◌, ◌*◌, ◌/◌, ◌%◌, ◌≤◌, ◌<◌, ◌≡◌, ◌≢◌, ◌⊎◌, inl, inr, refl, sym, ap, ◌∙◌,
  arith, List, [], ◌∷◌, ◌++◌, length, drop, replicate, get_or, set, length-append,
  get_or-append_left, get_or-beyond,
}
use shielded_ledger_hivemind.Soak.Pir.{record_bytes, Geometry, place}
use shielded_ledger_hivemind.Soak.Pir.Server.{write_at}

-- The columns have room for the records of a shard.
pub record Fits (g : Geometry) : Type 0 where
  pub some_records : 0 < g.records_per_column
  pub rows : g.m_rows ≡ record_bytes * g.records_per_column
  pub columns : g.shard_size ≤ g.m_cols * g.records_per_column

pub length-replicate : (n x : ℕ) → length (replicate n x) ≡ n
length-replicate zero x = refl
length-replicate (suc n) x = omega (arith, length-replicate n x)

pub get_or-replicate : (n p : ℕ) → get_or {A = ℕ} (replicate n 0) p 0 ≡ 0
get_or-replicate zero p = refl
get_or-replicate (suc n) zero = refl
get_or-replicate (suc n) (suc p) = get_or-replicate n p

pub get_or-append_right :
    (xs ys : List ℕ) (k : ℕ) → get_or (xs ++ ys) (length xs + k) 0 ≡ get_or ys k 0
get_or-append_right [] ys k = ap (λ i. get_or ys i 0) (omega arith)
get_or-append_right (x ∷ xs) ys k =
    let e : suc (length xs) + k ≡ suc (length xs + k) = omega arith in
    rw e (get_or-append_right xs ys k)

pub get_or-append_outside :
    (xs ys : List ℕ) (p : ℕ)
    → (p < length xs) ⊎ (length xs + length ys ≤ p)
    → get_or (xs ++ ys) p 0 ≡ get_or xs p 0
get_or-append_outside xs ys p (inl lt) = get_or-append_left xs ys p 0 lt
get_or-append_outside xs ys p (inr ge) =
    get_or-beyond (xs ++ ys) p 0 (omega (arith, length-append xs ys))
    ∙ sym (get_or-beyond xs p 0 (omega arith))

drop-replicate : (k n : ℕ) → drop {A = ℕ} k (replicate n 0) ≡ replicate (n - k) 0
drop-replicate zero n = let all : n ≡ n - 0 = omega arith in ap (λ m. replicate m 0) all
drop-replicate (suc k) zero = let gone : 0 ≡ 0 - suc k = omega arith in ap (λ m. replicate m 0) gone
drop-replicate (suc k) (suc n) =
    let less : n - k ≡ suc n - suc k = omega arith in
    drop-replicate k n ∙ ap (λ m. replicate m 0) less

set-append :
    (xs : List ℕ) (z : ℕ) (zs : List ℕ) (v : ℕ)
    → set (xs ++ (z ∷ zs)) (length xs) v ≡ xs ++ (v ∷ zs)
set-append [] z zs v = refl
set-append (x ∷ xs) z zs v = ap (λ l. x ∷ l) (set-append xs z zs v)

append_snoc : (xs : List ℕ) (y : ℕ) (zs : List ℕ) → (xs ++ (y ∷ [])) ++ zs ≡ xs ++ (y ∷ zs)
append_snoc [] y zs = refl
append_snoc (x ∷ xs) y zs = ap (λ l. x ∷ l) (append_snoc xs y zs)

-- Cells written behind what is there.
write_at-append :
    (xs ys zs : List ℕ) (base : ℕ)
    → base ≡ length xs
    → length ys ≤ length zs
    → write_at base ys (xs ++ zs) ≡ xs ++ (ys ++ drop (length ys) zs)
unfolding write_at
write_at-append xs [] zs base at fits = refl
write_at-append xs (y ∷ ys) [] base at fits = absurd (omega arith)
write_at-append xs (y ∷ ys) (z ∷ zs) base at fits =
    ap (write_at (base + 1) ys)
      (ap (λ i. set (xs ++ (z ∷ zs)) i y) at ∙ (set-append xs z zs y ∙ sym (append_snoc xs y zs)))
    ∙ (write_at-append (xs ++ (y ∷ [])) ys zs (base + 1) (omega (arith, length-append xs (y ∷ [])))
          (omega arith)
        ∙ append_snoc xs y (ys ++ drop (length ys) zs))

pub write_at_end :
    (xs ys : List ℕ) (room base : ℕ)
    → base ≡ length xs
    → length ys ≤ room
    → write_at base ys (xs ++ replicate room 0) ≡ (xs ++ ys) ++ replicate (room - length ys) 0
write_at_end xs ys room base at fits =
    write_at-append xs ys (replicate room 0) base at (omega (arith, length-replicate room 0))
    ∙ (ap (λ l. xs ++ (ys ++ l)) (drop-replicate (length ys) room) ∙ sym (append_assoc xs ys _))

column_scale : (q n m : ℕ) → m ≡ 288 * n → q * m ≡ 288 * (n * q)
column_scale q n m e = rw e (grind arith)

capacity_scale : (cols n m fill : ℕ) → m ≡ 288 * n → fill ≤ cols * n → 288 * fill ≤ m * cols
capacity_scale cols n m fill e le =
    let size : m * cols ≡ 288 * (cols * n) = rw e (grind arith) in omega arith

pub mul_step : (a b m : ℕ) → a < b → a * m + m ≤ b * m
mul_step a b m h = grind arith

module _ (g : Geometry) (f : Fits g) where
  row_lt : (index : ℕ) → index % g.records_per_column < g.records_per_column
  row_lt index = mod-lt index f.some_records

  -- A record's cells start at its number times the size of a record.
  pub place_offset :
      (index : ℕ) → (place g index).0 * g.m_rows + (place g index).1 ≡ record_bytes * index
  place_offset index =
      let split = div-add-mod index g.records_per_column in
      let rows : (index / g.records_per_column) * g.m_rows
          ≡ record_bytes * (g.records_per_column * (index / g.records_per_column)) =
        column_scale (index / g.records_per_column) g.records_per_column g.m_rows f.rows in
      omega arith

  pub place_row : (index : ℕ) → (place g index).1 + record_bytes ≤ g.m_rows
  place_row index = omega (arith, row_lt index, f.rows)

  pub place_column : (index : ℕ) → index < g.shard_size → (place g index).0 < g.m_cols
  place_column index lt = (div-lt_iff_lt-mul f.some_records).1 (omega (arith, f.columns))

  -- There is room for every record.
  pub capacity : (fill : ℕ) → fill ≤ g.shard_size → record_bytes * fill ≤ g.m_rows * g.m_cols
  capacity fill le =
      capacity_scale g.m_cols g.records_per_column g.m_rows fill f.rows (omega (arith, f.columns))

  -- The cells of another column stand before or behind those of a record.
  pub other_column :
      (index c r : ℕ)
      → c ≢ (place g index).0
      → r < g.m_rows
      → (c * g.m_rows + r < record_bytes * index)
        ⊎ (record_bytes * index + record_bytes ≤ c * g.m_rows + r)
  other_column index c r ne lt = elim (dec_lt c (place g index).0) [
    | yes before ↦
        inl (omega (arith, mul_step c (place g index).0 g.m_rows before, place_offset index))
    | no behind ↦ inr (
        omega (
          arith,
          mul_step (place g index).0 c g.m_rows (omega arith),
          place_offset index,
          place_row index,
        ))
  ]
