-- ===== src/Soak/Sets.antt =====
-- Membership in the hash sets of soak/src, as the test `contains` on a list.
use mathlib.Core.Logic.{if_pos, if_neg}
use shielded_ledger_hivemind.Common.{◌≡◌, ◌≢◌, refl, ap, ◌∙◌, true, false, List, [], ◌∷◌, ◌++◌, All}
use shielded_ledger_hivemind.Adapter.Legacy.Messages.{Bytes, Bytes-discrete}
use shielded_ledger_hivemind.Adapter.Calls.Invariant.{ite-both}
use shielded_ledger_hivemind.Soak.Wire.{contains}

pub contains_tail :
    (x y : Bytes) (ys : List Bytes)
    → contains Bytes-discrete x (y ∷ ys) ≡ false
    → (x ≢ y) × (contains Bytes-discrete x ys ≡ false)
unfolding contains
contains_tail x y ys h = elim (Bytes-discrete x y) [
  | yes e ↦ cc (rw (if_pos (Bytes-discrete x y) e) at h)
  | no ne ↦ (ne, rw (if_neg (Bytes-discrete x y) ne) at h)
]

pub contains_cons :
    (x y : Bytes) (ys : List Bytes)
    → x ≢ y
    → contains Bytes-discrete x ys ≡ false
    → contains Bytes-discrete x (y ∷ ys) ≡ false
unfolding contains
contains_cons x y ys ne h = rw (if_neg (Bytes-discrete x y) ne) h

pub contains_parts :
    (x : Bytes) (xs ys : List Bytes)
    → contains Bytes-discrete x (xs ++ ys) ≡ false
    → (contains Bytes-discrete x xs ≡ false) × (contains Bytes-discrete x ys ≡ false)
unfolding contains
contains_parts x [] ys h = (refl, h)
contains_parts x (y ∷ xs) ys h =
    let (ne, later) = contains_tail x y (xs ++ ys) h in
    let (front, back) = contains_parts x xs ys later in (contains_cons x y xs ne front, back)

pub contains_again :
    (nf x : Bytes) (spent : List Bytes)
    → contains Bytes-discrete nf spent ≡ true
    → contains Bytes-discrete nf (x ∷ spent) ≡ true
unfolding contains
contains_again nf x spent h = ite-both (λ v. v ≡ true) (Bytes-discrete nf x) refl h

pub contains_first :
    (nf : Bytes) (spent : List Bytes) → contains Bytes-discrete nf (nf ∷ spent) ≡ true
unfolding contains
contains_first nf spent = rw (if_pos (Bytes-discrete nf nf) refl) refl

-- An element of a list, all of which a set contains, is in the set.
pub contains-All :
    (x : Bytes) (xs set : List Bytes)
    → All (λ y. contains Bytes-discrete y set ≡ true) xs
    → contains Bytes-discrete x xs ≡ true
    → contains Bytes-discrete x set ≡ true
unfolding contains
contains-All x [] set all h = cc
contains-All x (y ∷ xs) set all h = elim (Bytes-discrete x y) [
  | yes e ↦ ap (λ z. contains Bytes-discrete z set) e ∙ all.0
  | no ne ↦ contains-All x xs set all.1 (rw (if_neg (Bytes-discrete x y) ne) at h)
]

-- What is in a joined list is in one of its parts.
pub contains-append :
    (x : Bytes) (xs ys set : List Bytes)
    → (contains Bytes-discrete x xs ≡ true → contains Bytes-discrete x set ≡ true)
    → (contains Bytes-discrete x ys ≡ true → contains Bytes-discrete x set ≡ true)
    → contains Bytes-discrete x (xs ++ ys) ≡ true
    → contains Bytes-discrete x set ≡ true
unfolding contains
contains-append x [] ys set left right h = right h
contains-append x (y ∷ xs) ys set left right h = elim (Bytes-discrete x y) [
  | yes e ↦ left (if_pos (Bytes-discrete x y) e _ _)
  | no ne ↦
      contains-append x xs ys set (λ k. left (if_neg (Bytes-discrete x y) ne _ _ ∙ k)) right
        (rw (if_neg (Bytes-discrete x y) ne) at h)
]
