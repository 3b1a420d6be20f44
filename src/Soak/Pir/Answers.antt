-- ===== src/Soak/Pir/Answers.antt =====
-- The answers of a shard of soak/src/pir2.rs, whatever the width of its stripes.
use shielded_ledger_hivemind.Common.{
  min, le→leb, ℕ, zero, suc, ◌+◌, ◌-◌, ◌*◌, ◌%◌, ◌^◌, ◌≤◌, ◌<◌, ◌≡◌, refl, sym, ap, ◌∙◌, arith,
  List, length, replicate, get_or, get_elem?-eq-get_or, ==_iff, some,
}
use shielded_ledger_hivemind.Soak.Pir.{pinned_columns, pinned_rows, div_ceil, at_least_one}
use shielded_ledger_hivemind.Soak.Pir.Server.{
  Shard, answer_columns, answer_stripe, add_words, answer_stripes, answer,
}
use shielded_ledger_hivemind.Soak.Pir.Sums.{sum_range, sum_range_bounds}
use shielded_ledger_hivemind.Soak.Pir.Places.{length-replicate, get_or-replicate}
use shielded_ledger_hivemind.Soak.Pir.Stripes.{
  sum_up_to, next_start, no_columns, all_columns, sum_words, length-add_words, get_or-add_words,
  length-column_added, get_or-column_added, column_added, add_column-eq-some, pinned_term,
}

-- The pinned cells of every column are in the database, and its pinned rows in the answer.
abbrev pub Inside : Shard → ℕ → Type 0
Inside s fill =
    (c : ℕ)
    → c < pinned_columns s.geometry fill
    → (c * s.geometry.m_rows + pinned_rows s.geometry fill c ≤ length s.d)
      × (pinned_rows s.geometry fill c ≤ s.geometry.m_rows)

module _ (s : Shard) (fill : ℕ) (qu : List ℕ) where
  -- What column `c` adds to row `r`.
  abbrev pub term : ℕ → ℕ → ℕ
  term r c =
      pinned_term s.d (c * s.geometry.m_rows) (get_or qu c 0) (pinned_rows s.geometry fill c) r

  -- What `answer_columns` gives where every index is within bounds.
  unfoldable columns_added : ℕ → ℕ → List ℕ → List ℕ
  unfolding column_added
  columns_added zero c ans = ans
  columns_added (suc k) c ans =
      columns_added k (c + 1) (
        column_added s.d (c * s.geometry.m_rows) (get_or qu c 0) (pinned_rows s.geometry fill c)
          ans)

  length-columns_added : (k c : ℕ) (ans : List ℕ) → length (columns_added k c ans) ≡ length ans
  unfolding columns_added
  length-columns_added zero c ans = refl
  length-columns_added (suc k) c ans =
      length-columns_added k (c + 1) _ ∙ length-column_added s.d _ _ _ ans

  get_or-columns_added :
      (k c : ℕ) (ans : List ℕ) (r x : ℕ)
      → r < length ans
      → get_or ans r 0 ≡ x % 2 ^ 32
      → get_or (columns_added k c ans) r 0 ≡ (x + sum_range c k (term r)) % 2 ^ 32
  unfolding columns_added sum_range
  get_or-columns_added zero c ans r x lt e = omega arith
  get_or-columns_added (suc k) c ans r x lt e =
      let column =
        column_added s.d (c * s.geometry.m_rows) (get_or qu c 0) (pinned_rows s.geometry fill c)
          ans in
      let here =
        get_or-column_added s.d (c * s.geometry.m_rows) (get_or qu c 0)
          (pinned_rows s.geometry fill c) ans r x lt e in
      let later =
        get_or-columns_added k (c + 1) column r (x + term r c)
          (omega (
            arith,
            length-column_added s.d (c * s.geometry.m_rows) (get_or qu c 0)
                (pinned_rows s.geometry fill c) ans,
          ))
          here in
      omega arith

  -- A stripe: the sum of its columns in every row.
  abbrev width : ℕ → ℕ → ℕ
  width stripe k_cols =
      min (stripe * k_cols + k_cols) (pinned_columns s.geometry fill) - stripe * k_cols

  abbrev stripe_words : ℕ → ℕ → List ℕ
  stripe_words stripe k_cols =
      columns_added (width stripe k_cols) (stripe * k_cols) (replicate s.geometry.m_rows 0)

  length-stripe_words :
      (stripe k_cols : ℕ) → length (stripe_words stripe k_cols) ≡ s.geometry.m_rows
  length-stripe_words stripe k_cols =
      length-columns_added (width stripe k_cols) (stripe * k_cols) _
      ∙ length-replicate s.geometry.m_rows 0

  get_or-stripe_words :
      (stripe k_cols r : ℕ)
      → r < s.geometry.m_rows
      → get_or (stripe_words stripe k_cols) r 0
        ≡ sum_range (stripe * k_cols) (width stripe k_cols) (term r) % 2 ^ 32
  get_or-stripe_words stripe k_cols r lt =
      let zeros = get_or-replicate s.geometry.m_rows r in
      let all =
        get_or-columns_added (width stripe k_cols) (stripe * k_cols) (replicate s.geometry.m_rows 0)
          r 0 (omega (arith, length-replicate s.geometry.m_rows 0)) (omega arith) in
      omega arith

  module _ (pinned : fill ≤ s.fill) (whole : length qu ≡ pinned_columns s.geometry fill)
      (inside : Inside s fill) where
    answer_columns-eq-some :
        (k c : ℕ) (ans : List ℕ)
        → k ≤ pinned_columns s.geometry fill - c
        → length ans ≡ s.geometry.m_rows
        → answer_columns s fill qu k c ans ≡ some (columns_added k c ans)
    unfolding answer_columns columns_added
    answer_columns-eq-some zero c ans below full = refl
    answer_columns-eq-some (suc k) c ans below full =
        let q = get_or qu c 0 in
        let (cells, rows) = inside c (omega arith) in
        let base = c * s.geometry.m_rows in
        let next = column_added s.d base q (pinned_rows s.geometry fill c) ans in
        rw
          (
            answer_columns,
            get_elem?-eq-get_or qu c 0 (omega arith),
            add_column-eq-some s.d base q (pinned_rows s.geometry fill c) ans cells (omega arith),
          )
          (answer_columns-eq-some k (c + 1) next (omega arith)
            (length-column_added s.d base q (pinned_rows s.geometry fill c) ans ∙ full))

    answer_stripe-eq-some :
        (stripe k_cols : ℕ)
        → answer_stripe s fill stripe k_cols qu ≡ some (stripe_words stripe k_cols)
    unfolding answer_stripe
    answer_stripe-eq-some stripe k_cols =
        rw
          (le→leb fill s.fill pinned, (==_iff (length qu) (pinned_columns s.geometry fill)).1 whole)
          (answer_columns-eq-some (width stripe k_cols) (stripe * k_cols)
            (replicate s.geometry.m_rows 0) (ground arith) (length-replicate s.geometry.m_rows 0))

    -- The columns of the stripes so far are all those below the next stripe.
    sum_stripes :
        (stripe k_cols r : ℕ)
        → sum_range 0 (min (stripe * k_cols) (pinned_columns s.geometry fill)) (term r)
            + sum_range (stripe * k_cols) (width stripe k_cols) (term r)
          ≡ sum_range 0 (min ((stripe + 1) * k_cols) (pinned_columns s.geometry fill)) (term r)
    sum_stripes stripe k_cols r =
        sum_up_to (stripe * k_cols) k_cols (pinned_columns s.geometry fill) (term r)
        ∙ sum_range_bounds 0 0 _ _ (term r) refl
            (ap (λ n. min n (pinned_columns s.geometry fill)) (next_start stripe k_cols))

    answer_stripes-sums :
        (k_cols n stripe : ℕ) (total : List ℕ)
        → length total ≡ s.geometry.m_rows
        → ((r : ℕ)
            → r < s.geometry.m_rows
            → get_or total r 0
              ≡ sum_range 0 (min (stripe * k_cols) (pinned_columns s.geometry fill)) (term r)
                % 2 ^ 32)
        → (out : List ℕ) × (answer_stripes s fill k_cols qu n stripe total ≡ some out)
          × (length out ≡ s.geometry.m_rows)
          × ((r : ℕ)
              → r < s.geometry.m_rows
              → get_or out r 0
                ≡ sum_range 0
                    (min ((stripe + n) * k_cols) (pinned_columns s.geometry fill))
                    (term r)
                  % 2 ^ 32)
    unfolding answer_stripes
    answer_stripes-sums k_cols zero stripe total size before =
        let e : stripe ≡ stripe + zero = omega arith in
        (
          total,
          refl,
          size,
          λ r lt.
              before r lt
              ∙ ap
                  (λ n.
                    sum_range 0 (min (n * k_cols) (pinned_columns s.geometry fill)) (term r)
                    % 2 ^ 32)
                  e,
        )
    answer_stripes-sums k_cols (suc n) stripe total size before =
        let part = stripe_words stripe k_cols in
        let same = size ∙ sym (length-stripe_words stripe k_cols) in
        let (out, done, full, words) =
          answer_stripes-sums k_cols n (stripe + 1) (add_words total part)
            (length-add_words total part same ∙ size)
            (λ r lt.
              get_or-add_words total part r (omega arith) same
              ∙ (sum_words (get_or total r 0) (get_or part r 0) _ _ (before r lt)
                    (get_or-stripe_words stripe k_cols r lt)
                  ∙ ap (λ n. n % 2 ^ 32) (sum_stripes stripe k_cols r))) in
        let e : stripe + 1 + n ≡ stripe + suc n = omega arith in
        (
          out,
          rw (answer_stripes, answer_stripe-eq-some stripe k_cols) done,
          full,
          λ r lt.
              words r lt
              ∙ ap
                  (λ n.
                    sum_range 0 (min (n * k_cols) (pinned_columns s.geometry fill)) (term r)
                    % 2 ^ 32)
                  e,
        )

    -- Whatever the width of the stripes, the answer is the sum of all pinned columns in every row.
    pub answer-sums :
        (k_cols : ℕ)
        → 0 < k_cols
        → (out : List ℕ) × (answer s fill k_cols qu ≡ some out)
          × (length out ≡ s.geometry.m_rows)
          × ((r : ℕ)
              → r < s.geometry.m_rows
              → get_or out r 0 ≡ sum_range 0 (pinned_columns s.geometry fill) (term r) % 2 ^ 32)
    unfolding answer
    answer-sums k_cols some_columns =
        let cols = pinned_columns s.geometry fill in
        let n = div_ceil cols (at_least_one k_cols) in
        let (out, done, full, words) =
          answer_stripes-sums k_cols n 0 (replicate s.geometry.m_rows 0)
            (length-replicate s.geometry.m_rows 0)
            (λ r lt. no_columns k_cols cols _ (term r) (get_or-replicate s.geometry.m_rows r)) in
        (
          out,
          done,
          full,
          λ r lt.
              words r lt
              ∙ ap (λ m. sum_range 0 m (term r) % 2 ^ 32) (all_columns k_cols cols some_columns),
        )
