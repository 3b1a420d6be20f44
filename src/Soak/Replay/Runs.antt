-- ===== src/Soak/Replay/Runs.antt =====
-- The runs of the loop of `replay` in soak/src/replayer.rs as a relation, which is the loop's result.
use Prim.Native.String.{String}
use shielded_ledger_hivemind.Common.{
  ℕ, ◌+◌, ◌≡◌, refl, subst, ◌⊎◌, inl, inr, Option, none, some, List, [], ◌∷◌, ok, >>=-eq-ok,
  >>-eq-ok, ok-injective,
}
use shielded_ledger_hivemind.Circuit.Hash.{Poseidon}
use shielded_ledger_hivemind.Soak.Wire.{Encoding}
use shielded_ledger_hivemind.Soak.Model.{Origin}
use shielded_ledger_hivemind.Soak.Replay.{
  RawBlock, assert, origin_of, Replay, check_header, replay_shield, replay_pair, replay_from,
}

pub assert_yes : {Q : Type 0} (d : Dec Q) (what : String) (i : ℕ) → Q → assert d what i ≡ ok tt
assert_yes (yes q) what i h = refl
assert_yes (no nq) what i h = absurd (nq h)

pub assert-eq-ok : {Q : Type 0} (d : Dec Q) (what : String) (i : ℕ) → assert d what i ≡ ok tt → Q
assert-eq-ok (yes q) what i h = q
assert-eq-ok (no nq) what i h = cc

origin-cases :
    (o : Option Origin)
    → (o ≡ none) ⊎ (o ≡ some Origin.shield) ⊎ (o ≡ some Origin.confidential_transfer)
origin-cases none = inl refl
origin-cases (some Origin.shield) = inr (inl refl)
origin-cases (some Origin.confidential_transfer) = inr (inr refl)

module _ {F S : Type 0} (P : Poseidon F S) (E : Encoding F) where
  -- The loop on the blocks from number `i` on, from its variables to its variables at the end.
  pub data Runs : ℕ → List RawBlock → Replay F → Replay F → Type 0 where
    done : {i : ℕ} {st : Replay F} → Runs i [] st st
    shielded :
        {i : ℕ} {b : RawBlock} {rest : List RawBlock} {st st1 st2 : Replay F}
        → check_header i b st ≡ ok tt
        → origin_of b.origin ≡ some Origin.shield
        → replay_shield P E i b st ≡ ok st1
        → Runs (i + 1) rest st1 st2
        → Runs i (b ∷ rest) st st2
    transferred :
        {i : ℕ} {b b2 : RawBlock} {rest : List RawBlock} {st st1 st2 : Replay F}
        → check_header i b st ≡ ok tt
        → origin_of b.origin ≡ some Origin.confidential_transfer
        → replay_pair P E i b b2 st ≡ ok st1
        → Runs (i + 2) rest st1 st2
        → Runs i (b ∷ b2 ∷ rest) st st2

  -- The number of the first block, said another way.
  Runs-at :
      {i j : ℕ} {ys : List RawBlock} {st st' : Replay F}
      → i ≡ j
      → Runs i ys st st'
      → Runs j ys st st'
  Runs-at {ys} {st} {st'} e r = subst (λ n. Runs n ys st st') e r

  -- Whatever the loop accepts is a run.
  pub replay_from-Runs :
      (i : ℕ) (xs : List RawBlock) (st st' : Replay F)
      → replay_from P E i xs st ≡ ok st'
      → Runs i xs st st'
  unfolding replay_from
  replay_from-Runs i [] st st' h = subst (Runs i [] st) (ok-injective h) done
  replay_from-Runs i (b ∷ []) st st' h =
      let (head, k) = >>-eq-ok (check_header i b st) _ h in
      elim (origin-cases (origin_of b.origin)) [
        | inl unknown ↦ cc (rw unknown at k)
        | inr (inl is_shield) ↦ shielded head is_shield (rw is_shield at k) done
        | inr (inr is_transfer) ↦ cc (rw is_transfer at k)
      ]
  replay_from-Runs i (b ∷ b2 ∷ rest) st st' h =
      let (head, k) = >>-eq-ok (check_header i b st) _ h in
      elim (origin-cases (origin_of b.origin)) [
        | inl unknown ↦ cc (rw unknown at k)
        | inr (inl is_shield) ↦
            let (st1, e, later) = >>=-eq-ok (replay_shield P E i b st) _ (rw is_shield at k) in
            shielded head is_shield e (replay_from-Runs (i + 1) (b2 ∷ rest) st1 st' later)
        | inr (inr is_transfer) ↦
            let (st1, e, later) = >>=-eq-ok (replay_pair P E i b b2 st) _ (rw is_transfer at k) in
            transferred head is_transfer e (replay_from-Runs (i + 2) rest st1 st' later)
      ]
