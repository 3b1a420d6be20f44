-- ===== src/Soak/Pir/Retrieve.antt =====
-- Private retrieval of a record in soak/src/pir2.rs, from the query to the decrypted record.
use native.Mathlib.Nat.{zero-mul}
use shielded_ledger_hivemind.Common.{
  ℕ, zero, suc, ◌+◌, ◌*◌, ◌/◌, ◌%◌, ◌^◌, ◌≤◌, ◌<◌, ◌≡◌, refl, sym, ap, subst, subst₂, ◌∙◌, arith,
  List, [], ◌∷◌, ◌++◌, length, get_or, get_or-beyond, get_or-append_left, length-append, ==_iff,
  some, inl, inr, All,
}
use shielded_ledger_hivemind.Adapter.Legacy.Messages.{Bytes}
use shielded_ledger_hivemind.Soak.Pir.{lwe_n, delta, record_bytes, Geometry, pinned_columns}
use shielded_ledger_hivemind.Soak.Pir.Server.{Shard, shard_new}
use shielded_ledger_hivemind.Soak.Pir.Client.{hint_dot, decrypt_cell, decrypt_cells, decrypt_record}
use shielded_ledger_hivemind.Soak.Pir.Sums.{sum_range, SameWord, sum_range_cong}
use shielded_ledger_hivemind.Soak.Pir.Places.{Fits, get_or-append_right}
use shielded_ledger_hivemind.Soak.Pir.Shards.{IsRecord, concat, Holds, shard_new-Holds, product}
use shielded_ledger_hivemind.Soak.Pir.Appended.{append_all, append_all-Grown}
use shielded_ledger_hivemind.Soak.Pir.Answers.{term}
use shielded_ledger_hivemind.Soak.Pir.Rows.{pinned_row}
use shielded_ledger_hivemind.Soak.Pir.Dots.{masked, at_target}
use shielded_ledger_hivemind.Soak.Pir.Decrypt.{
  cell, noise, hint_row, masked_row, masked_row-pinned, query_row, decode,
}

-- The cells of a record among the others.
pub get_or-concat :
    (records : List Bytes) (t o : ℕ)
    → All IsRecord records
    → t < length records
    → o < record_bytes
    → get_or (concat records) (record_bytes * t + o) 0 ≡ get_or (get_or records t []) o 0
get_or-concat [] t o all lt lo = absurd (omega arith)
get_or-concat (x ∷ records) zero o all lt lo =
    let e : record_bytes * zero + o ≡ o = omega arith in
    ap (λ i. get_or (x ++ concat records) i 0) e
    ∙ get_or-append_left x (concat records) o 0 (omega (arith, all.0))
get_or-concat (x ∷ records) (suc t) o all lt lo =
    let e : record_bytes * suc t + o ≡ length x + (record_bytes * t + o) = omega (arith, all.0) in
    ap (λ i. get_or (x ++ concat records) i 0) e
    ∙ (get_or-append_right x (concat records) (record_bytes * t + o)
        ∙ get_or-concat records t o all.1 (omega arith) lo)

pub length-concat :
    (records : List Bytes)
    → All IsRecord records
    → length (concat records) ≡ record_bytes * length records
length-concat [] all = refl
length-concat (r ∷ records) all =
    omega (arith, length-append r (concat records), all.0, length-concat records all.1)

-- Cell by cell, what is decrypted is a record.
pub decrypt_cells-eq :
    (ans h secret : List ℕ) (xs : Bytes) (r : ℕ)
    → ((o : ℕ) → o < length xs → decrypt_cell ans h secret (r + o) ≡ get_or xs o 0)
    → decrypt_cells ans h secret (length xs) r ≡ xs
unfolding decrypt_cells
decrypt_cells-eq ans h secret [] r cells = refl
decrypt_cells-eq ans h secret (x ∷ xs) r cells =
    let first : decrypt_cell ans h secret r ≡ x =
      ap (decrypt_cell ans h secret) (omega arith) ∙ cells 0 (omega arith) in
    let rest : decrypt_cells ans h secret (length xs) (r + 1) ≡ xs =
      decrypt_cells-eq ans h secret xs (r + 1) (λ o lo.
        let e : r + 1 + o ≡ r + suc o = omega arith in
        ap (decrypt_cell ans h secret) e ∙ cells (suc o) (omega arith)) in
    cc

pub decrypt_record-eq-some :
    (ans h : List ℕ) (m_rows r0 : ℕ) (secret : List ℕ) (wanted : Bytes)
    → length ans ≡ m_rows
    → length h ≡ m_rows * lwe_n
    → decrypt_cells ans h secret record_bytes r0 ≡ wanted
    → decrypt_record ans h m_rows r0 secret ≡ some wanted
unfolding decrypt_record
decrypt_record-eq-some ans h m_rows r0 secret wanted full size e =
    rw ((==_iff (length ans) m_rows).1 full, (==_iff (length h) (m_rows * lwe_n)).1 size)
      (ap some e)

module _ (sha256 : Bytes → Bytes) (s : Shard) (f : Fits s.geometry) (fill : ℕ) (cells : Bytes)
    (size : length cells ≡ record_bytes * fill) (within : fill ≤ s.geometry.shard_size)
    (database : (p : ℕ) → p < length cells → get_or s.d p 0 ≡ get_or cells p 0) where
  -- What a pinned column adds to a row is its cell times the query's word.
  term-cell :
      (qu : List ℕ) (r c : ℕ)
      → r < s.geometry.m_rows
      → term s fill qu r c ≡ cell s.geometry cells r c * get_or qu c 0
  term-cell qu r c lr = elim (pinned_row s.geometry f fill c r lr) [
    | inl (pinned, inside) ↦
        rw pinned (ap (λ x. x * get_or qu c 0) (database (c * s.geometry.m_rows + r) (omega arith)))
    | inr (free, outside) ↦ rw free (
        sym (zero-mul (get_or qu c 0))
        ∙ ap (λ x. x * get_or qu c 0)
            (sym (get_or-beyond cells (c * s.geometry.m_rows + r) 0 (omega arith))))
  ]

  pub decrypt_cell-eq-cell :
      (qu ans h secret : List ℕ) (error : ℕ → ℕ) (c_star r : ℕ)
      → r < s.geometry.m_rows
      → c_star < pinned_columns s.geometry fill
      → ((c : ℕ)
          → c < pinned_columns s.geometry fill
          → SameWord
              (get_or qu c 0)
              (masked sha256 s.index secret c + error c + at_target c_star c))
      → get_or ans r 0 ≡ sum_range 0 (pinned_columns s.geometry fill) (term s fill qu r) % 2 ^ 32
      → ((j : ℕ)
          → j < lwe_n
          → SameWord (get_or h (r * lwe_n + j) 0) (product sha256 s.geometry s.index cells r j))
      → cell s.geometry cells r c_star < 256
      → (noise s.geometry cells r (pinned_columns s.geometry fill) error + delta / 2) % 2 ^ 32
        < delta
      → decrypt_cell ans h secret r ≡ cell s.geometry cells r c_star
  unfolding decrypt_cell
  decrypt_cell-eq-cell qu ans h secret error c_star r lr lc words sums hint small quiet =
      let g = s.geometry in
      let cols = pinned_columns g fill in
      let picked = query_row sha256 g s.index cells r secret qu cols c_star error lc words in
      let same =
        sum_range_cong 0 cols (term s fill qu r) (λ c. cell g cells r c * get_or qu c 0)
          (λ c lo hi. term-cell qu r c lr) in
      let dot = hint_row sha256 g s.index cells r secret h hint in
      decode (get_or ans r 0) (hint_dot h (r * lwe_n) secret lwe_n 0 0)
        (masked_row sha256 g s.index cells r secret cols) (noise g cells r cols error)
        (cell g cells r c_star) small quiet (omega arith)
        (dot
          ∙ ap (λ x. x % 2 ^ 32)
              (masked_row-pinned sha256 g s.index cells r secret fill f within size))

-- A statement about one geometry and shard number holds of equal ones.
pub moved_hint :
    (sha256 : Bytes → Bytes) (h : List ℕ) (cells : Bytes) (g g' : Geometry) (i i' : ℕ)
    → g ≡ g'
    → i ≡ i'
    → ((r j : ℕ)
        → r < g.m_rows
        → j < lwe_n
        → SameWord (get_or h (r * lwe_n + j) 0) (product sha256 g i cells r j))
    → (r j : ℕ) → r < g'.m_rows
    → j < lwe_n
    → SameWord (get_or h (r * lwe_n + j) 0) (product sha256 g' i' cells r j)
moved_hint sha256 h cells g g' i i' eg ei hint =
    subst₂
      (λ (x : Geometry) (y : ℕ).
        (r j : ℕ)
        → r < x.m_rows
        → j < lwe_n
        → SameWord (get_or h (r * lwe_n + j) 0) (product sha256 x y cells r j))
      eg ei hint

-- The records at the pin, and those that a shard has got since.
pub record Pinned (sha256 : Bytes → Bytes) (index : ℕ) (g : Geometry) (before after : List Bytes)
    (pinned grown : Shard) : Type 0 where
  pub pinned_done : append_all sha256 (shard_new index g) before ≡ some pinned
  pub grown_done : append_all sha256 pinned after ≡ some grown
  pub pinned_holds : Holds sha256 (concat before) pinned
  pub grown_holds : Holds sha256 (concat before ++ concat after) grown
  pub pinned_geometry : pinned.geometry ≡ g
  pub pinned_index : pinned.index ≡ index
  pub grown_geometry : grown.geometry ≡ g
  pub grown_index : grown.index ≡ index
  pub grown_fill : grown.fill ≡ length before + length after

pub Pinned-shards :
    (sha256 : Bytes → Bytes) (index : ℕ) (g : Geometry) (before after : List Bytes)
    → Fits g
    → All IsRecord before
    → All IsRecord after
    → length before + length after ≤ g.shard_size
    → (pinned : Shard) × (grown : Shard) × Pinned sha256 index g before after pinned grown
unfolding shard_new
Pinned-shards sha256 index g before after f b a room =
    let (pinned, done, p) =
      append_all-Grown sha256 before [] (shard_new index g) (shard_new-Holds sha256 index g f) b
        (omega arith) in
    let space : pinned.fill + length after ≤ pinned.geometry.shard_size =
      subst (λ (x : Geometry). pinned.fill + length after ≤ x.shard_size) (sym p.geometry)
        (omega (arith, p.fill)) in
    let (grown, later, q) = append_all-Grown sha256 after (concat before) pinned p.holds a space in
    (
      pinned,
      grown,
      record {
        pinned_done = done;
        grown_done = later;
        pinned_holds = p.holds;
        grown_holds = q.holds;
        pinned_geometry = p.geometry;
        pinned_index = p.index;
        grown_geometry = q.geometry ∙ p.geometry;
        grown_index = q.index ∙ p.index;
        grown_fill = omega (arith, q.fill, p.fill);
      },
    )
