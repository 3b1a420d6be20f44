-- ===== src/Soak/Pir/Decrypt.antt =====
-- What decryption in soak/src/pir2.rs makes of one row of an answer.
use native.Mathlib.Nat.{
  mul_comm, mul_assoc, mul-add, add-mul, mod-add-div, add-mul-mod_self_left, zero-mul, mul-zero,
}
use shielded_ledger_hivemind.Common.{
  ne→==, ℕ, ◌+◌, ◌-◌, ◌*◌, ◌/◌, ◌%◌, ◌^◌, ◌≤◌, ◌<◌, ◌≡◌, refl, sym, ap, ◌∙◌, arith, List, length,
  get_or, get_or-beyond, ==_iff,
}
use shielded_ledger_hivemind.Adapter.Legacy.Messages.{Bytes}
use shielded_ledger_hivemind.Soak.Pir.{
  lwe_n, delta, record_bytes, Geometry, pinned_columns, wrapping_sub, wrapping_add,
}
use shielded_ledger_hivemind.Soak.Pir.Client.{hint_dot}
use shielded_ledger_hivemind.Soak.Pir.Sums.{
  sum_range, SameWord, sum_range_cong, sum_range_SameWord, sum_range_parts, sum_range_bounds,
  sum_range_add, sum_range_mul, sum_range_zero, sum_range_swap, sum_range_at,
}
use shielded_ledger_hivemind.Soak.Pir.Places.{Fits}
use shielded_ledger_hivemind.Soak.Pir.Shards.{entry, product}
use shielded_ledger_hivemind.Soak.Pir.Dots.{masked, at_target, hint_dot_lem}
use shielded_ledger_hivemind.Soak.Pir.Rows.{pinned_columns-le, pinned_columns_behind}

-- The arithmetic of decryption: a cell survives noise below half a step.
pub decode :
    (ans dot x noise cell : ℕ)
    → cell < 256
    → (noise + delta / 2) % 2 ^ 32 < delta
    → SameWord ans (x + noise + cell * delta)
    → dot ≡ x % 2 ^ 32
    → wrapping_add (wrapping_sub ans dot) (delta / 2) / 2 ^ 24 % 256 ≡ cell
decode ans dot x noise cell small quiet a d = omega arith

turn : (s x a : ℕ) → s * (x * a) ≡ x * (a * s)
turn s x a = grind arith

mul_word : (a s : ℕ) → a * s % 2 ^ 32 ≡ a % 2 ^ 32 * s % 2 ^ 32
mul_word a s =
    let parts : a * s ≡ a % 2 ^ 32 * s + 2 ^ 32 * (a / 2 ^ 32 * s) =
      ap (λ i. i * s) (sym (mod-add-div a (2 ^ 32)))
      ∙ (add-mul (a % 2 ^ 32) (2 ^ 32 * (a / 2 ^ 32)) s
          ∙ ap (λ i. a % 2 ^ 32 * s + i) (mul_assoc (2 ^ 32) (a / 2 ^ 32) s)) in
    ap (λ i. i % 2 ^ 32) parts ∙ add-mul-mod_self_left (a % 2 ^ 32 * s) (2 ^ 32) (a / 2 ^ 32 * s)

mul_words : (a b s : ℕ) → SameWord a b → SameWord (a * s) (b * s)
mul_words a b s h = mul_word a s ∙ (ap (λ i. i * s % 2 ^ 32) h ∙ sym (mul_word b s))

mul_words_left : (s a b : ℕ) → SameWord a b → SameWord (s * a) (s * b)
mul_words_left s a b h =
    ap (λ i. i % 2 ^ 32) (mul_comm s a) ∙ (mul_words a b s h ∙ ap (λ i. i % 2 ^ 32) (mul_comm b s))

spread_out : (s a b c : ℕ) → s * (a + b + c) ≡ s * a + s * b + s * c
spread_out s a b c = mul-add s (a + b) c ∙ ap (λ i. i + s * c) (mul-add s a b)

-- The cell of a row in column `c`.
abbrev pub cell : Geometry → Bytes → ℕ → ℕ → ℕ
cell g cells r c = get_or cells (c * g.m_rows + r) 0

-- The noise that a row's cells gather over the columns.
abbrev pub noise : Geometry → Bytes → ℕ → ℕ → (ℕ → ℕ) → ℕ
noise g cells r cols error = sum_range 0 cols (λ c. cell g cells r c * error c)

module _ (sha256 : Bytes → Bytes) (g : Geometry) (index : ℕ) (cells : Bytes) (r : ℕ) where
  module _ (secret : List ℕ) where
    -- The product of the database's row with A and the secret, over the first columns.
    abbrev pub masked_row : ℕ → ℕ
    masked_row cols = sum_range 0 cols (λ c. cell g cells r c * masked sha256 index secret c)

    -- The hint's row times the secret.
    pub hint_row :
        (h : List ℕ)
        → ((j : ℕ)
            → j < lwe_n
            → SameWord (get_or h (r * lwe_n + j) 0) (product sha256 g index cells r j))
        → hint_dot h (r * lwe_n) secret lwe_n 0 0 ≡ masked_row g.m_cols % 2 ^ 32
    hint_row h hint =
        let words : SameWord
            (sum_range 0 lwe_n (λ j. get_or h (r * lwe_n + j) 0 * get_or secret j 0))
            (sum_range 0 lwe_n (λ j. product sha256 g index cells r j * get_or secret j 0)) =
          sum_range_SameWord 0 lwe_n _ _
            (λ j lo hi. mul_words _ _ (get_or secret j 0) (hint j hi)) in
        let spread : sum_range 0 lwe_n (λ j. product sha256 g index cells r j * get_or secret j 0)
            ≡ masked_row g.m_cols =
          sum_range_cong 0 lwe_n _ _ (λ j lo hi.
            mul_comm (product sha256 g index cells r j) (get_or secret j 0)
            ∙ (sym (
                  sum_range_mul 0 g.m_cols (get_or secret j 0)
                    (λ c. cell g cells r c * entry sha256 index c j))
                ∙ sum_range_cong 0 g.m_cols _ _ (λ c lo hi.
                  turn (get_or secret j 0) (cell g cells r c) (entry sha256 index c j))))
          ∙ (sum_range_swap 0 lwe_n 0 g.m_cols
                (λ j c. cell g cells r c * (entry sha256 index c j * get_or secret j 0))
              ∙ sum_range_cong 0 g.m_cols _ _ (λ c lo hi.
                sum_range_mul 0 lwe_n (cell g cells r c)
                  (λ j. entry sha256 index c j * get_or secret j 0))) in
        omega (arith, hint_dot_lem h (r * lwe_n) secret lwe_n 0 0 0 refl)

    -- Columns behind the pin add nothing to it.
    pub masked_row-pinned :
        (fill : ℕ)
        → Fits g
        → fill ≤ g.shard_size
        → length cells ≡ record_bytes * fill
        → masked_row g.m_cols ≡ masked_row (pinned_columns g fill)
    masked_row-pinned fill f within size =
        let cols = pinned_columns g fill in
        let le = pinned_columns-le g f fill within in
        let t = λ (c : ℕ). cell g cells r c * masked sha256 index secret c in
        let bounds =
          sum_range_bounds 0 0 g.m_cols (cols + (g.m_cols - cols)) t refl (omega arith) in
        let behind : sum_range (0 + cols) (g.m_cols - cols) t ≡ 0 =
          sum_range_zero (0 + cols) (g.m_cols - cols) t (λ c lo hi.
            ap (λ x. x * masked sha256 index secret c)
              (get_or-beyond cells (c * g.m_rows + r) 0
                (omega (arith, pinned_columns_behind g f fill c (omega arith))))
            ∙ zero-mul (masked sha256 index secret c)) in
        bounds ∙ omega (arith, sum_range_parts 0 cols (g.m_cols - cols) t)

    module _ (qu : List ℕ) (cols c_star : ℕ) (error : ℕ → ℕ) (lt : c_star < cols)
        (words : (c : ℕ)
          → c < cols
          → SameWord
              (get_or qu c 0)
              (masked sha256 index secret c + error c + at_target c_star c)) where
      -- The query picks the cell of the target column.
      target_sum :
          sum_range 0 cols (λ c. cell g cells r c * at_target c_star c)
          ≡ cell g cells r c_star * delta
      target_sum =
          sum_range_at 0 cols (λ c. 0) (λ c. cell g cells r c * at_target c_star c) c_star
            (cell g cells r c_star * delta) (omega arith) (omega arith)
            (rw ((==_iff c_star c_star).1 refl) (omega arith))
            (λ c ne. rw (ne→== c c_star ne) (mul-zero (cell g cells r c)))
          ∙ omega (arith, sum_range_zero 0 cols (λ c. 0) (λ c lo hi. refl))

      pub query_row :
          SameWord
            (sum_range 0 cols (λ c. cell g cells r c * get_or qu c 0))
            (masked_row cols + noise g cells r cols error + cell g cells r c_star * delta)
      query_row =
          let m = λ (c : ℕ). masked sha256 index secret c in
          let replaced : SameWord (sum_range 0 cols (λ c. cell g cells r c * get_or qu c 0)) (
              sum_range 0 cols (λ c.
                cell g cells r c * m c
                + cell g cells r c * error c
                + cell g cells r c * at_target c_star c)) =
            sum_range_SameWord 0 cols _ _ (λ c lo hi.
              mul_words_left (cell g cells r c) _ _ (words c (omega arith))
              ∙ ap (λ x. x % 2 ^ 32)
                  (spread_out (cell g cells r c) (m c) (error c) (at_target c_star c))) in
          let outer =
            sum_range_add 0 cols (λ c. cell g cells r c * m c + cell g cells r c * error c)
              (λ c. cell g cells r c * at_target c_star c) in
          let inner =
            sum_range_add 0 cols (λ c. cell g cells r c * m c) (λ c. cell g cells r c * error c) in
          omega (arith, target_sum)
