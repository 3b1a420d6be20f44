-- ===== src/Adapter/Translation/Chain.antt =====
-- The list that `rebuild_translated` of nns_adapter/src/lib.rs builds.
use native.Mathlib.Decide.{ℕ_discrete}
use shielded_ledger_hivemind.Common.{
  ℕ, zero, suc, ◌+◌, ◌≤◌, ◌<◌, ◌≡◌, refl, sym, ap, subst, ◌∙◌, arith, Option, none, some, List, [],
  ◌∷◌, ok, ok_or, >>=-eq-ok, >>-eq-ok, ok_or-eq-ok, ok-injective, Option-cases, inl, inr, get_elem?,
  length,
}
use shielded_ledger_hivemind.Adapter.Legacy.Messages.{Bytes, Crates}
use shielded_ledger_hivemind.Adapter.Values.{Value, hash_value}
use shielded_ledger_hivemind.Adapter.State.{TransactionHint, SourceBlock, State, AdapterError, find}
use shielded_ledger_hivemind.Adapter.Hints.{usize, verify_hint}
use shielded_ledger_hivemind.Adapter.Hints.Stable.{verify_hint-source}
use shielded_ledger_hivemind.Adapter.Translation.{translate_source, translate, rebuild_from}

module _ (C : Crates) where
  -- The value is the translation of the sealed hint of this index, which agrees with the source.
  pub record Translates (s : State) (index : ℕ) (parent : Option Bytes) (v : Value) : Type 0 where
    pub hint : TransactionHint
    pub sealed : find ℕ_discrete index s.hints ≡ some hint
    pub accepted : verify_hint C s hint ≡ ok tt
    pub block : SourceBlock
    pub at : get_elem? s.source (usize hint.block_index) ≡ some block
    pub value : v ≡ translate_source block hint parent

  -- Consecutive translations, each with the hash of the one before it as its parent.
  abbrev pub Chained : State → ℕ → Option Bytes → List Value → Type 0
  Chained s index parent [] = Unit
  Chained s index parent (v ∷ vs) =
      Translates s index parent v × Chained s (index + 1) (some (hash_value C v)) vs

  -- Every sealed hint is accepted.
  abbrev pub Sealed : State → Type 0
  Sealed s =
      (i : ℕ) (hint : TransactionHint)
      → find ℕ_discrete i s.hints ≡ some hint
      → verify_hint C s hint ≡ ok tt

  -- A chain, no longer than the rounds, that stops early only where a hint is missing.
  abbrev pub Rebuilt : State → ℕ → ℕ → Option Bytes → List Value → Type 0
  Rebuilt s rounds index parent vs =
      Chained s index parent vs
      × (length vs ≤ rounds)
      × (length vs < rounds → find ℕ_discrete (index + length vs) s.hints ≡ none)

  translate-at :
      (s : State) (hint : TransactionHint) (parent : Option Bytes) (b : SourceBlock)
      → get_elem? s.source (usize hint.block_index) ≡ some b
      → translate s hint parent ≡ some (translate_source b hint parent)
  unfolding translate
  translate-at s hint parent b at = rw (at, translate) refl

  rebuild_step :
      (s : State) (rounds index : ℕ) (parent : Option Bytes) (hint : TransactionHint) (v : Value)
      (ws : List Value)
      → find ℕ_discrete index s.hints ≡ some hint
      → verify_hint C s hint ≡ ok tt
      → translate s hint parent ≡ some v
      → Rebuilt s rounds (index + 1) (some (hash_value C v)) ws
      → Rebuilt s (suc rounds) index parent (v ∷ ws)
  rebuild_step s rounds index parent hint v ws there a ev (chained, short, stops) =
      let (b, at, _) = verify_hint-source C s hint a in
      let same : some v ≡ some (translate_source b hint parent) =
        sym ev ∙ translate-at s hint parent b at in
      let place : index + suc (length ws) ≡ index + 1 + length ws = omega arith in
      (
        (
          record { hint = hint; sealed = there; accepted = a; block = b; at = at; value = cc },
          chained,
        ),
        omega arith,
        λ l. ap (λ (i : ℕ). find ℕ_discrete i s.hints) place ∙ stops (omega arith),
      )

  -- What is rebuilt is a chain from the given index on, it is no longer than the rounds, and it stops
  -- early only where a hint is missing.
  pub rebuild_from-Rebuilt :
      (s : State) (rounds index : ℕ) (parent : Option Bytes) (vs : List Value)
      → rebuild_from C s rounds index parent ≡ ok vs
      → Rebuilt s rounds index parent vs
  unfolding rebuild_from
  rebuild_from-Rebuilt s zero index parent vs h =
      subst (Rebuilt s 0 index parent) (ok-injective h) (tt, omega arith, λ l. absurd (omega arith))
  rebuild_from-Rebuilt s (suc rounds) index parent vs h =
      elim (Option-cases (find ℕ_discrete index s.hints)) [
        | inl missing ↦
            let here : find ℕ_discrete (index + 0) s.hints ≡ none =
              let e : index + 0 ≡ index = omega arith in
              ap (λ (i : ℕ). find ℕ_discrete i s.hints) e ∙ missing in
            subst (Rebuilt s (suc rounds) index parent)
              (ok-injective (rw (missing, rebuild_from) at h)) (tt, omega arith, λ l. here)
        | inr (hint, there) ↦
            let (a, k1) = >>-eq-ok (verify_hint C s hint) _ (rw (there, rebuild_from) at h) in
            let (v, ev, k2) =
              >>=-eq-ok (ok_or (translate s hint parent) (AdapterError.text "index out of range")) _
                k1 in
            let (ws, ews, k3) =
              >>=-eq-ok (rebuild_from C s rounds (index + 1) (some (hash_value C v))) _ k2 in
            subst (Rebuilt s (suc rounds) index parent) (ok-injective k3) (
              rebuild_step s rounds index parent hint v ws there a
                (ok_or-eq-ok _ (AdapterError.text "index out of range") ev)
                (rebuild_from-Rebuilt s rounds (index + 1) (some (hash_value C v)) ws ews))
      ]

  -- Where every sealed hint is accepted, the rebuild succeeds.
  pub rebuild_from-Sealed :
      (s : State) (rounds index : ℕ) (parent : Option Bytes)
      → Sealed s
      → (vs : List Value) × (rebuild_from C s rounds index parent ≡ ok vs)
  unfolding rebuild_from
  rebuild_from-Sealed s zero index parent h = ([], refl)
  rebuild_from-Sealed s (suc rounds) index parent h =
      elim (Option-cases (find ℕ_discrete index s.hints)) [
        | inl missing ↦ ([], rw (missing, rebuild_from) refl)
        | inr (hint, there) ↦
            let a = h index hint there in
            let (b, at, _) = verify_hint-source C s hint a in
            let v = translate_source b hint parent in
            let (vs, e) = rebuild_from-Sealed s rounds (index + 1) (some (hash_value C v)) h in
            (v ∷ vs, rw (there, rebuild_from, a, translate-at s hint parent b at, e) refl)
      ]
