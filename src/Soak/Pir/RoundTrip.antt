-- ===== src/Soak/Pir/RoundTrip.antt =====
-- A private read of a record in soak/src/pir2.rs.
use shielded_ledger_hivemind.Common.{
  ℕ, ◌+◌, ◌*◌, ◌/◌, ◌%◌, ◌^◌, ◌≤◌, ◌<◌, ◌≡◌, sym, ap, subst, subst₂, ◌∙◌, arith, List, [], ◌∷◌,
  ◌++◌, zero, suc, length, get_or, get_or-append_left, length-append, some, All,
}
use shielded_ledger_hivemind.Adapter.Legacy.Messages.{Bytes}
use shielded_ledger_hivemind.Soak.Scan.RoundTrip.{IsByte}
use shielded_ledger_hivemind.Soak.Pir.{
  lwe_n, delta, record_bytes, Geometry, place, pinned_columns, for_shard_size,
}
use shielded_ledger_hivemind.Soak.Pir.Server.{Shard, shard_new, answer}
use shielded_ledger_hivemind.Soak.Pir.Client.{decrypt_cells, decrypt_record, build_query}
use shielded_ledger_hivemind.Soak.Pir.Sums.{SameWord}
use shielded_ledger_hivemind.Soak.Pir.Places.{place_offset, place_row}
use shielded_ledger_hivemind.Soak.Pir.Shards.{IsRecord, concat, Holds, product}
use shielded_ledger_hivemind.Soak.Pir.Appended.{append_all}
use shielded_ledger_hivemind.Soak.Pir.Answers.{answer-sums}
use shielded_ledger_hivemind.Soak.Pir.Inside.{Holds-Inside}
use shielded_ledger_hivemind.Soak.Pir.Rows.{place_pinned}
use shielded_ledger_hivemind.Soak.Pir.Dots.{build_query-words}
use shielded_ledger_hivemind.Soak.Pir.Sized.{for_shard_size-Fits}
use shielded_ledger_hivemind.Soak.Pir.Decrypt.{noise}
use shielded_ledger_hivemind.Soak.Pir.Retrieve.{
  get_or-concat, length-concat, decrypt_cells-eq, decrypt_cell-eq-cell, decrypt_record-eq-some,
  moved_hint, Pinned-shards,
}

-- Noise of less than half a step in every row.
abbrev pub IsQuiet : Geometry → List Bytes → (ℕ → ℕ) → Type 0
IsQuiet g before error =
    (r : ℕ)
    → r < g.m_rows
    → (noise g (concat before) r (pinned_columns g (length before)) error + delta / 2) % 2 ^ 32
      < delta

get_or-All :
    (records : List Bytes) (t : ℕ) (Q : Bytes → Type 0)
    → All Q records
    → t < length records
    → Q (get_or records t [])
get_or-All [] t Q all lt = absurd (omega arith)
get_or-All (r ∷ records) zero Q all lt = all.0
get_or-All (r ∷ records) (suc t) Q all lt = get_or-All records t Q all.1 (omega arith)

pub get_or-IsByte : (xs : Bytes) (o : ℕ) → All IsByte xs → get_or xs o 0 < 256
get_or-IsByte [] o all = omega arith
get_or-IsByte (x ∷ xs) zero all = all.0
get_or-IsByte (x ∷ xs) (suc o) all = get_or-IsByte xs o all.1

-- A query for a record, the answer of a shard that has grown since, and the record.
abbrev Read :
    (Bytes → Bytes) → List Bytes → ℕ → ℕ → List ℕ → (ℕ → ℕ) → List ℕ → Shard → ℕ → Geometry → Type 0
Read sha256 before target k_cols secret error h grown index g =
    (qu : List ℕ) × (ans : List ℕ) × (build_query sha256 index g (length before) (place g target).0
        secret error
      ≡ some qu)
    × (answer grown (length before) k_cols qu ≡ some ans)
    × (decrypt_record ans h g.m_rows (place g target).1 secret ≡ some (get_or before target []))

module _ (sha256 : Bytes → Bytes) (before after : List Bytes) (target k_cols : ℕ) (secret : List ℕ)
    (error : ℕ → ℕ) (b : All IsRecord before) (bytes : All (All IsByte) before)
    (lt : target < length before) (wide : 0 < k_cols) (len : length secret ≡ lwe_n) where
  Read-grown :
      (h : List ℕ) (s : Shard)
      → Holds sha256 (concat before ++ concat after) s
      → length before ≤ s.fill
      → length h ≡ s.geometry.m_rows * lwe_n
      → ((r j : ℕ)
          → r < s.geometry.m_rows
          → j < lwe_n
          → SameWord
              (get_or h (r * lwe_n + j) 0)
              (product sha256 s.geometry s.index (concat before) r j))
      → IsQuiet s.geometry before error
      → Read sha256 before target k_cols secret error h s s.index s.geometry
  unfolding decrypt_record
  Read-grown h s holds pin size hint quiet =
      let g = s.geometry in
      let f = holds.fits in
      let cells = concat before in
      let pinned = length-concat before b in
      let c_star = (place g target).0 in
      let r0 = (place g target).1 in
      let below = place_pinned g f (length before) target lt in
      let wanted = get_or before target [] in
      let record_size = get_or-All before target IsRecord b lt in
      let (qu, asked, whole, words) =
        build_query-words sha256 s.index c_star error secret g (length before) len below in
      let (ans, answered, full, sums) =
        answer-sums s (length before) qu pin whole
          (Holds-Inside sha256 (cells ++ concat after) s (length before) holds pin) k_cols wide in
      let database = λ (p : ℕ) (lp : p < length cells).
        ap (λ d. get_or d p 0) holds.database
        ∙ (get_or-append_left (cells ++ concat after) _ p 0
              (omega (arith, length-append cells (concat after)))
            ∙ get_or-append_left cells (concat after) p 0 lp) in
      let cell_at = λ (o : ℕ) (lo : o < record_bytes).
        let at : c_star * g.m_rows + (r0 + o) ≡ record_bytes * target + o =
          omega (arith, place_offset g f target) in
        ap (λ i. get_or cells i 0) at ∙ get_or-concat before target o b lt lo in
      let row = place_row g f target in
      let decrypted = decrypt_cells-eq ans h secret wanted r0 (λ o lo.
        let at = cell_at o (omega arith) in
        decrypt_cell-eq-cell sha256 s f (length before) cells pinned (omega (arith, holds.within))
          database qu ans h secret error c_star (r0 + o) (omega arith) below words
          (sums (r0 + o) (omega arith)) (λ j lj. hint (r0 + o) j (omega arith) lj)
          (subst (λ x. x < 256) (sym at)
            (get_or-IsByte wanted o (get_or-All before target (All IsByte) bytes lt)))
          (quiet (r0 + o) (omega arith))
        ∙ at) in
      (
        qu,
        ans,
        asked,
        answered,
        decrypt_record-eq-some ans h g.m_rows r0 secret wanted full size
            (ap (λ n. decrypt_cells ans h secret n r0) (sym record_size) ∙ decrypted),
      )

-- With a shard of the geometry of its size, a query made at a pin for one of the records there, and the
-- answer of the shard for that pin after any number of further records, decryption with the hint of the
-- pin gives the record, whatever the secret, the width of the stripes and the noise, if in every row the
-- noise weighted by the cells stays below half a step.
pub decrypt_record-answer :
    (sha256 : Bytes → Bytes) (shard_size index : ℕ) (g : Geometry) (before after : List Bytes)
    (target k_cols : ℕ) (secret : List ℕ) (error : ℕ → ℕ)
    → for_shard_size shard_size ≡ some g
    → All IsRecord before
    → All (All IsByte) before
    → All IsRecord after
    → length before + length after ≤ shard_size
    → target < length before
    → 0 < k_cols
    → length secret ≡ lwe_n
    → IsQuiet g before error
    → (pinned : Shard) × (grown : Shard) × (append_all sha256 (shard_new index g) before
        ≡ some pinned)
      × (append_all sha256 pinned after ≡ some grown)
      × Read sha256 before target k_cols secret error pinned.h grown index g
decrypt_record-answer sha256 shard_size index g before after target k_cols secret error made b bytes
      a room lt wide len quiet =
    let (f, sized) = for_shard_size-Fits shard_size g made in
    let (pinned, grown, p) = Pinned-shards sha256 index g before after f b a (omega arith) in
    let same = p.grown_geometry in
    let read =
      Read-grown sha256 before after target k_cols secret error b bytes lt wide len pinned.h grown
        p.grown_holds (omega (arith, p.grown_fill))
        (p.pinned_holds.hint_size
          ∙ ap (λ (x : Geometry). x.m_rows * lwe_n) (p.pinned_geometry ∙ sym same))
        (moved_hint sha256 pinned.h (concat before) pinned.geometry grown.geometry pinned.index
          grown.index (p.pinned_geometry ∙ sym same) (p.pinned_index ∙ sym p.grown_index)
          p.pinned_holds.hint)
        (subst (λ (x : Geometry). IsQuiet x before error) (sym same) quiet) in
    (
      pinned,
      grown,
      p.pinned_done,
      p.grown_done,
      subst₂ (Read sha256 before target k_cols secret error pinned.h grown) p.grown_index same read,
    )
