-- ===== src/Common/Results.antt =====
-- `Result<A, E>` of Rust, with `?` as the bind of a `do` block.
use mathlib.Core.Path.{◌≡◌, refl, ap}
use mathlib.Core.Logic.{◌⊎◌, inl, inr}
use mathlib.Core.Bool.{Bool, true, false}
use mathlib.Core.Option.{Option, none, some}

pub data Result {ℓ κ} (Failure : Type ℓ) (Value : Type κ) : Type (ℓ ⊔ κ) where
  err : Failure → Result Failure Value
  ok : Value → Result Failure Value

infixl 5 ◌>>=◌ ◌>>◌
abbrev pub ◌>>=◌ {ℓ κ μ} :
    {Failure : Type ℓ} {V : Type κ} {W : Type μ}
    → Result Failure V
    → (V → Result Failure W)
    → Result Failure W
err failure >>= next = err failure
ok value >>= next = next value

-- A statement whose value is `()`.
abbrev pub ◌>>◌ {ℓ κ} :
    {Failure : Type ℓ} {W : Type κ}
    → Result Failure (Unit {0})
    → Result Failure W
    → Result Failure W
err failure >> rest = err failure
ok _ >> rest = rest

module _ {ℓ} {E : Type ℓ} where
  -- `if b { return Err(e) }`
  abbrev pub fail_if : Bool → E → Result E (Unit {0})
  fail_if true e = err e
  fail_if false e = ok tt

module _ {ℓ κ} {E : Type ℓ} {A : Type κ} where
  -- `Option::ok_or`
  abbrev pub ok_or : Option A → E → Result E A
  ok_or none e = err e
  ok_or (some a) e = ok a

  pub Result-cases : (r : Result E A) → ((a : A) × (r ≡ ok a)) ⊎ ((e : E) × (r ≡ err e))
  Result-cases (ok a) = inl (a, refl)
  Result-cases (err e) = inr (e, refl)

-- A `?` that did not return early: the value that it passed on, and the run of the rest.
pub >>=-eq-ok {ℓ κ μ} :
    {Failure : Type ℓ} {V : Type κ} {W : Type μ} (first : Result Failure V)
    (next : V → Result Failure W) {w : W} (done : (first >>= next) ≡ ok w)
    → (v : V) × (first ≡ ok v) × (next v ≡ ok w)
>>=-eq-ok (err failure) next done = cc
>>=-eq-ok (ok value) next done = (value, refl, done)

pub >>-eq-ok {ℓ κ} :
    {Failure : Type ℓ} {W : Type κ} (first : Result Failure (Unit {0})) (rest : Result Failure W)
    {w : W} (done : (first >> rest) ≡ ok w)
    → (first ≡ ok tt) × (rest ≡ ok w)
>>-eq-ok (err failure) rest done = cc
>>-eq-ok (ok tt) rest done = (refl, done)

pub ok-injective {ℓ κ} :
    {E : Type ℓ} {A : Type κ} {a b : A} → ◌≡◌ {A = Result E A} (ok a) (ok b) → a ≡ b
ok-injective {E} {A} {a} {b} e = cc

pub some-injective {ℓ} : {A : Type ℓ} {a b : A} → some a ≡ some b → a ≡ b
some-injective {A} {a} {b} e = cc

pub fail_if-eq-ok {ℓ} : {E : Type ℓ} (b : Bool) (e : E) → fail_if b e ≡ ok tt → b ≡ false
fail_if-eq-ok true e h = cc
fail_if-eq-ok false e h = refl

pub ok_or-eq-ok {ℓ κ} :
    {E : Type ℓ} {A : Type κ} (o : Option A) (e : E) {a : A}
    → ◌≡◌ {A = Result E A} (ok_or o e) (ok a)
    → o ≡ some a
ok_or-eq-ok none e h = cc
ok_or-eq-ok (some a) e h = ap some (ok-injective h)
