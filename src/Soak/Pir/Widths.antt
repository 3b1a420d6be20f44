-- ===== src/Soak/Pir/Widths.antt =====
-- The width of the stripes in soak/src/pir2.rs.
use shielded_ledger_hivemind.Common.{
  ℕ, suc, ◌≤◌, ◌<◌, ◌≡◌, refl, sym, ap, ap₂, ◌∙◌, arith, List, [], ◌∷◌, length, get_or, some, All,
}
use shielded_ledger_hivemind.Adapter.Legacy.Messages.{Bytes}
use shielded_ledger_hivemind.Soak.Pir.{Geometry, pinned_columns, for_shard_size}
use shielded_ledger_hivemind.Soak.Pir.Server.{Shard, shard_new, answer}
use shielded_ledger_hivemind.Soak.Pir.Answers.{answer-sums, Inside}
use shielded_ledger_hivemind.Soak.Pir.Inside.{Holds-Inside}
use shielded_ledger_hivemind.Soak.Pir.Shards.{IsRecord, concat, shard_new-Holds}
use shielded_ledger_hivemind.Soak.Pir.Appended.{append_all, append_all-Grown}
use shielded_ledger_hivemind.Soak.Pir.Sized.{for_shard_size-Fits}

list_ext :
    (xs ys : List ℕ)
    → length xs ≡ length ys
    → ((i : ℕ) → i < length xs → get_or xs i 0 ≡ get_or ys i 0)
    → xs ≡ ys
list_ext [] [] e h = refl
list_ext [] (y ∷ ys) e h = absurd (omega arith)
list_ext (x ∷ xs) [] e h = absurd (omega arith)
list_ext (x ∷ xs) (y ∷ ys) e h =
    ap₂ (λ z zs. z ∷ zs) (h 0 (omega arith))
      (list_ext xs ys (omega arith) (λ i lt. h (suc i) (omega arith)))

same_answer :
    (s : Shard) (fill : ℕ) (qu : List ℕ) (k_cols k_cols' : ℕ)
    → Inside s fill
    → fill ≤ s.fill
    → length qu ≡ pinned_columns s.geometry fill
    → 0 < k_cols
    → 0 < k_cols'
    → (ans : List ℕ) × (answer s fill k_cols qu ≡ some ans)
      × (answer s fill k_cols' qu ≡ some ans)
      × (length ans ≡ s.geometry.m_rows)
same_answer s fill qu k_cols k_cols' inside pin whole wide wide' =
    let (ans, done, full, sums) = answer-sums s fill qu pin whole inside k_cols wide in
    let (ans', done', full', sums') = answer-sums s fill qu pin whole inside k_cols' wide' in
    let same : ans' ≡ ans =
      list_ext ans' ans (full' ∙ sym full)
        (λ i lt. sums' i (omega arith) ∙ sym (sums i (omega arith))) in
    (ans, done, done' ∙ ap some same, full)

-- With the geometry of its size a shard takes as many records as its size. For a pin among them and a
-- query of the pin's columns, stripes of any two positive widths give the same answer, without an index
-- out of bounds, and it has a word for every row.
pub answer_widths :
    (sha256 : Bytes → Bytes) (shard_size index : ℕ) (g : Geometry) (records : List Bytes) (fill : ℕ)
    (qu : List ℕ) (k_cols k_cols' : ℕ)
    → for_shard_size shard_size ≡ some g
    → All IsRecord records
    → length records ≤ shard_size
    → fill ≤ length records
    → length qu ≡ pinned_columns g fill
    → 0 < k_cols
    → 0 < k_cols'
    → (s : Shard) × (append_all sha256 (shard_new index g) records ≡ some s)
      × ((ans : List ℕ) × (answer s fill k_cols qu ≡ some ans)
          × (answer s fill k_cols' qu ≡ some ans)
          × (length ans ≡ g.m_rows))
unfolding shard_new
answer_widths sha256 shard_size index g records fill qu k_cols k_cols' made sized room pin whole
      wide wide' =
    let (f, size) = for_shard_size-Fits shard_size g made in
    let (s, done, grown) =
      append_all-Grown sha256 records [] (shard_new index g) (shard_new-Holds sha256 index g f)
        sized (omega arith) in
    let inside =
      Holds-Inside sha256 (concat records) s fill grown.holds (omega (arith, grown.fill)) in
    let (ans, first, second, full) =
      same_answer s fill qu k_cols k_cols' inside (omega (arith, grown.fill))
        (whole ∙ ap (λ (x : Geometry). pinned_columns x fill) (sym grown.geometry)) wide wide' in
    (s, done, (ans, first, second, full ∙ ap Geometry.m_rows grown.geometry))
