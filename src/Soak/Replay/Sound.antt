-- ===== src/Soak/Replay/Sound.antt =====
-- What a chain that `replay` of soak/src/replayer.rs accepts is like.
use mathlib.Core.List.{append-nil, append_assoc, map-append}
use shielded_ledger_hivemind.Common.{
  some-injective, length-append, ℕ, ◌+◌, ◌*◌, ◌≡◌, refl, sym, ap, subst, ◌∙◌, arith, true, false,
  Option, none, some, List, [], ◌∷◌, ◌++◌, map, ok, length, All, All-append, All-map,
}
use shielded_ledger_hivemind.Adapter.Legacy.Messages.{Bytes, Bytes-discrete}
use shielded_ledger_hivemind.Circuit.Hash.{Poseidon}
use shielded_ledger_hivemind.Circuit.Tree.{IncrementalTree}
use shielded_ledger_hivemind.Circuit.Tree.Append.{Holds, new-Holds, append-Holds, append-lt}
use shielded_ledger_hivemind.Soak.Wire.{Encoding, contains}
use shielded_ledger_hivemind.Soak.Sets.{contains_again, contains_first}
use shielded_ledger_hivemind.Soak.Replay.{RawBlock, Replay, replay_start, replay_chain}
use shielded_ledger_hivemind.Soak.Replay.Runs.{Runs, done, shielded, transferred, replay_from-Runs}
use shielded_ledger_hivemind.Soak.Replay.Checks.{
  leaf_of, IsCanonical, Appended, ShieldRun, PairRun, replay_shield-ShieldRun, replay_pair-PairRun,
  check_header-eq-ok,
}

-- Each block names the hash of the one before it.
abbrev pub Linked : Option Bytes → List RawBlock → Type 0
Linked prev [] = Unit
Linked prev (b ∷ blocks) = (b.phash ≡ prev) × Linked (some b.hash) blocks

abbrev pub Distinct : List Bytes → Type 0
Distinct [] = Unit
Distinct (x ∷ xs) = (contains Bytes-discrete x xs ≡ false) × Distinct xs

-- Every nullifier of a block has been spent.
abbrev pub SpentIn : List Bytes → RawBlock → Type 0
SpentIn spent b = All (λ nf. contains Bytes-discrete nf spent ≡ true) b.nullifiers

module _ {F S : Type 0} (P : Poseidon F S) (E : Encoding F) where
  -- The blocks continue the chain from one hash to another.
  Linked-from :
      {prev last : Option Bytes} (rest : List RawBlock)
      → last ≡ prev
      → Linked prev rest
      → Linked last rest
  Linked-from rest e l = subst (λ (p : Option Bytes). Linked p rest) (sym e) l

  Runs-Linked :
      {i : ℕ} {xs : List RawBlock} {st st' : Replay F}
      → Runs P E i xs st st'
      → Linked st.prev_hash xs
  Runs-Linked done = tt
  Runs-Linked {i} {st} (shielded {b} {rest} {st1} h o e r) =
      let s = replay_shield-ShieldRun P E i b st st1 e in
      (
        (check_header-eq-ok P E i b st h).1,
        Linked-from rest (ap (λ (x : Replay F). x.prev_hash) s.after) (Runs-Linked r),
      )
  Runs-Linked {i} {st} (transferred {b} {b2} {rest} {st1} h o e r) =
      let s = replay_pair-PairRun P E i b b2 st st1 e in
      (
        (check_header-eq-ok P E i b st h).1,
        (s.linked, Linked-from rest (ap (λ (x : Replay F). x.prev_hash) s.after) (Runs-Linked r)),
      )

  Appended-Holds :
      (b : RawBlock) (t t' : IncrementalTree F) (leaves : List F)
      → Appended P E b t t'
      → Holds P t leaves
      → Holds P t' (leaves ++ (leaf_of P E b ∷ []))
  Appended-Holds b t t' leaves a h =
      let lt = append-lt P t (leaf_of P E b) (t', a.root) a.appended in
      let (u, e, hu) = append-Holds P t leaves (leaf_of P E b) h (omega (arith, h.count)) in
      let same = some-injective (sym e ∙ a.appended) in
      subst (λ x. Holds P x (leaves ++ (leaf_of P E b ∷ []))) (ap (λ p. p.0) same) hu

  -- What replaying the blocks adds to the variables of the loop.
  record Grows (xs : List RawBlock) (st st' : Replay F) : Type 0 where
    tree :
        (leaves : List F)
        → Holds P st.tree leaves
        → Holds P st'.tree (leaves ++ map (leaf_of P E) xs)
    canonical : All (IsCanonical P E) xs
    distinct : Distinct st.spent → Distinct st'.spent
    kept :
        (nf : Bytes)
        → contains Bytes-discrete nf st.spent ≡ true
        → contains Bytes-discrete nf st'.spent ≡ true
    spends : All (SpentIn st'.spent) xs
    spent_count : length st'.spent + 2 * st.transfer_ops ≡ length st.spent + 2 * st'.transfer_ops
    block_count :
        length xs + (st.shield_ops + 2 * st.transfer_ops) ≡ st'.shield_ops + 2 * st'.transfer_ops

  Grows-append :
      (xs ys : List RawBlock) (st st1 st2 : Replay F)
      → Grows xs st st1
      → Grows ys st1 st2
      → Grows (xs ++ ys) st st2
  Grows-append xs ys st st1 st2 g k = record {
    tree = λ leaves h.
        subst (Holds P st2.tree)
          (append_assoc leaves (map (leaf_of P E) xs) (map (leaf_of P E) ys)
            ∙ ap (λ (more : List F). leaves ++ more) (sym (map-append (leaf_of P E) xs ys)))
          (k.tree (leaves ++ map (leaf_of P E) xs) (g.tree leaves h));
    canonical = All-append (IsCanonical P E) xs ys g.canonical k.canonical;
    distinct = λ d. k.distinct (g.distinct d);
    kept = λ nf c. k.kept nf (g.kept nf c);
    spends =
        All-append (SpentIn st2.spent) xs ys
          (All-map (SpentIn st1.spent) (SpentIn st2.spent) xs
            (λ b s. All-map _ _ b.nullifiers (λ nf c. k.kept nf c) s) g.spends)
          k.spends;
    spent_count = omega (arith, g.spent_count, k.spent_count);
    block_count = omega (arith, g.block_count, k.block_count, length-append xs ys);
  }

  shield-Grows :
      (i : ℕ) (b : RawBlock) (st st' : Replay F) → ShieldRun P E i b st st' → Grows (b ∷ []) st st'
  shield-Grows i b st st' s =
      let spent_same = ap (λ (x : Replay F). x.spent) s.after in
      let shields = ap (λ (x : Replay F). x.shield_ops) s.after in
      let transfers = ap (λ (x : Replay F). x.transfer_ops) s.after in
      record {
        tree = λ leaves h. Appended-Holds b st.tree st'.tree leaves s.appended h;
        canonical = (s.appended.canonical, tt);
        distinct = λ d. subst Distinct spent_same d;
        kept = λ nf c. rw spent_same at c;
        spends = (rw s.no_nullifiers tt, tt);
        spent_count = omega (arith, ap length spent_same, transfers);
        block_count = omega (arith, shields, transfers);
      }

  pair-Grows :
      (i : ℕ) (b b2 : RawBlock) (st st' : Replay F)
      → PairRun P E i b b2 st st'
      → Grows (b ∷ b2 ∷ []) st st'
  pair-Grows i b b2 st st' s =
      let spent_same : s.nf2 ∷ s.nf1 ∷ st.spent ≡ st'.spent =
        ap (λ (x : Replay F). x.spent) s.after in
      let shields = ap (λ (x : Replay F). x.shield_ops) s.after in
      let transfers = ap (λ (x : Replay F). x.transfer_ops) s.after in
      let both : All (λ nf. contains Bytes-discrete nf st'.spent ≡ true) (s.nf1 ∷ s.nf2 ∷ []) = (
        rw spent_same at (contains_again s.nf1 s.nf2 _ (contains_first s.nf1 st.spent)),
        (rw spent_same at (contains_first s.nf2 (s.nf1 ∷ st.spent)), tt),
      ) in
      record {
        tree = λ leaves h.
            subst (Holds P st'.tree)
              (append_assoc leaves (leaf_of P E b ∷ []) (leaf_of P E b2 ∷ []))
              (Appended-Holds b2 s.middle st'.tree (leaves ++ (leaf_of P E b ∷ [])) s.appended2
                (Appended-Holds b st.tree s.middle leaves s.appended1 h));
        canonical = (s.appended1.canonical, (s.appended2.canonical, tt));
        distinct = λ d. subst Distinct spent_same (s.unused2, (s.unused1, d));
        kept = λ nf c. rw spent_same at (contains_again nf s.nf2 _ (contains_again nf s.nf1 _ c));
        spends = (rw s.nullifiers both, (rw (s.same_nullifiers, s.nullifiers) both, tt));
        spent_count = omega (arith, ap length spent_same, transfers);
        block_count = omega (arith, shields, transfers);
      }

  Runs-Grows :
      {i : ℕ} {xs : List RawBlock} {st st' : Replay F} → Runs P E i xs st st' → Grows xs st st'
  Runs-Grows done = record {
    tree = λ leaves h. rw (append-nil leaves) h;
    canonical = tt;
    distinct = λ d. d;
    kept = λ nf c. c;
    spends = tt;
    spent_count = refl;
    block_count = omega arith;
  }
  Runs-Grows {i} {st} {st'} (shielded {b} {rest} {st1} h o e r) =
      Grows-append (b ∷ []) rest st st1 st'
        (shield-Grows i b st st1 (replay_shield-ShieldRun P E i b st st1 e)) (Runs-Grows r)
  Runs-Grows {i} {st} {st'} (transferred {b} {b2} {rest} {st1} h o e r) =
      Grows-append (b ∷ b2 ∷ []) rest st st1 st'
        (pair-Grows i b b2 st st1 (replay_pair-PairRun P E i b b2 st st1 e)) (Runs-Grows r)

  -- An accepted chain: linked by hashes, with canonical commitments which are the leaves of the final
  -- tree in order, and with nullifiers that were spent once each, two per transfer.
  pub record SoundChain (blocks : List RawBlock) (st : Replay F) : Type 0 where
    pub linked : Linked none blocks
    pub canonical : All (IsCanonical P E) blocks
    pub tree : Holds P st.tree (map (leaf_of P E) blocks)
    pub distinct : Distinct st.spent
    pub spends : All (SpentIn st.spent) blocks
    pub spent_count : length st.spent ≡ 2 * st.transfer_ops
    pub block_count : length blocks ≡ st.shield_ops + 2 * st.transfer_ops

  -- A chain that the replayer accepts is linked by hashes, has canonical commitments which are the
  -- leaves of the final tree in order, never spends a nullifier twice, and spends two per transfer.
  pub replay_chain-SoundChain :
      (blocks : List RawBlock) (st : Replay F)
      → replay_chain P E blocks ≡ ok st
      → SoundChain blocks st
  unfolding replay_chain replay_start
  replay_chain-SoundChain blocks st h =
      let r = replay_from-Runs P E 0 blocks (replay_start P E) st h in
      let g = Runs-Grows r in
      record {
        linked = Runs-Linked r;
        canonical = g.canonical;
        tree = g.tree [] (new-Holds P);
        distinct = g.distinct tt;
        spends = g.spends;
        spent_count = omega (arith, g.spent_count);
        block_count = omega (arith, g.block_count);
      }
