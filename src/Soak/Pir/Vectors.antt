-- ===== src/Soak/Pir/Vectors.antt =====
-- What the loops of soak/src/pir2.rs write into the flat vectors.
use shielded_ledger_hivemind.Common.{
  ℕ, zero, suc, ◌+◌, ◌*◌, ◌≤◌, ◌<◌, ◌≡◌, ◌≢◌, refl, ap, ◌∙◌, arith, List, [], ◌∷◌, length, get_or,
  set,
}
use shielded_ledger_hivemind.Adapter.Legacy.Messages.{Bytes}
use shielded_ledger_hivemind.Soak.Pir.{lwe_n, wrapping_add, wrapping_mul, add_multiple, fold_record}

length-set : (l : List ℕ) (i v : ℕ) → length (set l i v) ≡ length l
length-set [] i v = refl
length-set (x ∷ l) zero v = refl
length-set (x ∷ l) (suc i) v = omega (arith, length-set l i v)

get_or-set_self : (l : List ℕ) (i v : ℕ) → i < length l → get_or (set l i v) i 0 ≡ v
get_or-set_self [] i v h = absurd (omega arith)
get_or-set_self (x ∷ l) zero v h = refl
get_or-set_self (x ∷ l) (suc i) v h = get_or-set_self l i v (omega arith)

get_or-set_other : (l : List ℕ) (i j v : ℕ) → j ≢ i → get_or (set l i v) j 0 ≡ get_or l j 0
get_or-set_other [] i j v ne = refl
get_or-set_other (x ∷ l) zero zero v ne = absurd (ne refl)
get_or-set_other (x ∷ l) zero (suc j) v ne = refl
get_or-set_other (x ∷ l) (suc i) zero v ne = refl
get_or-set_other (x ∷ l) (suc i) (suc j) v ne = get_or-set_other l i j v (λ e. ne (ap suc e))

pub length-add_multiple :
    (cell : ℕ) (a : List ℕ) (base : ℕ) (h : List ℕ) → length (add_multiple cell a base h) ≡ length h
unfolding add_multiple
length-add_multiple cell [] base h = refl
length-add_multiple cell (aj ∷ a) base h =
    length-add_multiple cell a (base + 1) _ ∙ length-set h base _

-- Outside the row nothing is written.
add_multiple_outside :
    (cell : ℕ) (a : List ℕ) (base : ℕ) (h : List ℕ) (p : ℕ)
    → ((j : ℕ) → j < length a → p ≢ base + j)
    → get_or (add_multiple cell a base h) p 0 ≡ get_or h p 0
unfolding add_multiple
add_multiple_outside cell [] base h p out = refl
add_multiple_outside cell (aj ∷ a) base h p out =
    add_multiple_outside cell a (base + 1) _ p (λ j lt e. out (suc j) (omega arith) (omega arith))
    ∙ get_or-set_other h base p _ (λ e. out 0 (omega arith) (omega arith))

add_multiple_inside :
    (cell : ℕ) (a : List ℕ) (base : ℕ) (h : List ℕ) (j : ℕ)
    → j < length a
    → base + length a ≤ length h
    → get_or (add_multiple cell a base h) (base + j) 0
      ≡ wrapping_add (get_or h (base + j) 0) (wrapping_mul cell (get_or a j 0))
unfolding add_multiple
add_multiple_inside cell [] base h j lt fits = absurd (omega arith)
add_multiple_inside cell (aj ∷ a) base h zero lt fits =
    let v = wrapping_add (get_or h base 0) (wrapping_mul cell aj) in
    let e : base + 0 ≡ base = omega arith in
    rw e (
      add_multiple_outside cell a (base + 1) (set h base v) base (λ j l e'. omega arith)
      ∙ get_or-set_self h base v (omega arith))
add_multiple_inside cell (aj ∷ a) base h (suc j) lt fits =
    let v = wrapping_add (get_or h base 0) (wrapping_mul cell aj) in
    let e : base + suc j ≡ base + 1 + j = omega arith in
    let other = get_or-set_other h base (base + 1 + j) v (λ e'. omega arith) in
    rw e (
      add_multiple_inside cell a (base + 1) (set h base v) j (omega arith)
        (omega (arith, length-set h base v))
      ∙ ap (λ x. wrapping_add x (wrapping_mul cell (get_or a j 0))) other)

pub length-fold_record :
    (a : List ℕ) (row : ℕ) (cells : Bytes) (h : List ℕ)
    → length (fold_record a row cells h) ≡ length h
unfolding fold_record
length-fold_record a row [] h = refl
length-fold_record a row (cell ∷ cells) h =
    length-fold_record a (row + 1) cells _ ∙ length-add_multiple cell a (row * lwe_n) h

-- The rows that a record does not touch.
pub fold_record_outside :
    (a : List ℕ) (row : ℕ) (cells : Bytes) (h : List ℕ) (r j : ℕ)
    → length a ≡ lwe_n
    → j < lwe_n
    → ((k : ℕ) → k < length cells → r ≢ row + k)
    → get_or (fold_record a row cells h) (r * lwe_n + j) 0 ≡ get_or h (r * lwe_n + j) 0
unfolding fold_record
fold_record_outside a row [] h r j len lt out = refl
fold_record_outside a row (cell ∷ cells) h r j len lt out =
    let ne : r ≢ row = λ e. out 0 (omega arith) (omega arith) in
    fold_record_outside a (row + 1) cells _ r j len lt
      (λ k l e. out (suc k) (omega arith) (omega arith))
    ∙ add_multiple_outside cell a (row * lwe_n) h (r * lwe_n + j) (λ i l e. ne (omega arith))

-- The row of a record's k-th cell.
pub fold_record_inside :
    (a : List ℕ) (row : ℕ) (cells : Bytes) (h : List ℕ) (k j : ℕ)
    → length a ≡ lwe_n
    → j < lwe_n
    → k < length cells
    → (row + length cells) * lwe_n ≤ length h
    → get_or (fold_record a row cells h) ((row + k) * lwe_n + j) 0
      ≡ wrapping_add
          (get_or h ((row + k) * lwe_n + j) 0)
          (wrapping_mul (get_or cells k 0) (get_or a j 0))
unfolding fold_record
fold_record_inside a row [] h k j len lt lk fits = absurd (omega arith)
fold_record_inside a row (cell ∷ cells) h zero j len lt lk fits =
    let e : row + zero ≡ row = omega arith in
    rw e (
      fold_record_outside a (row + 1) cells _ row j len lt (λ k l e'. omega arith)
      ∙ add_multiple_inside cell a (row * lwe_n) h j (omega arith) (omega arith))
fold_record_inside a row (cell ∷ cells) h (suc k) j len lt lk fits =
    let e : row + suc k ≡ row + 1 + k = omega arith in
    let kept =
      add_multiple_outside cell a (row * lwe_n) h ((row + 1 + k) * lwe_n + j)
        (λ i l e'. omega arith) in
    rw e (
      fold_record_inside a (row + 1) cells (add_multiple cell a (row * lwe_n) h) k j len lt
        (omega arith) (omega (arith, length-add_multiple cell a (row * lwe_n) h))
      ∙ ap (λ x. wrapping_add x (wrapping_mul (get_or cells k 0) (get_or a j 0))) kept)
