-- ===== src/Soak/Replay/Checks.antt =====
-- What has been checked where an arm of the loop of `replay` in soak/src/replayer.rs returns.
use mathlib.Core.Logic.{if_pos, if_neg}
use native.Mathlib.Decide.{ℕ_discrete}
use shielded_ledger_hivemind.Common.{
  ℕ, ◌+◌, ◌≡◌, refl, sym, ap, subst, ◌∙◌, Bool, true, false, not, some, List, [], ◌∷◌, ok, fail_if,
  ok_or, >>=-eq-ok, >>-eq-ok, ok-injective, ok_or-eq-ok, fail_if-eq-ok,
}
use shielded_ledger_hivemind.Adapter.Legacy.Messages.{Bytes, Bytes-discrete}
use shielded_ledger_hivemind.Circuit.Hash.{Poseidon}
use shielded_ledger_hivemind.Circuit.Tree.{IncrementalTree, append}
use shielded_ledger_hivemind.Soak.Wire.{Encoding, contains, insert_new}
use shielded_ledger_hivemind.Soak.Model.{Origin}
use shielded_ledger_hivemind.Soak.Replay.{
  RawBlock, Violation, assert, origin_text, zknote1, Replay, check_header, blocks-discrete,
  hash_option-discrete, spend_nullifier, append_commitment, replay_shield, two_nullifiers,
  replay_pair,
}
use shielded_ledger_hivemind.Soak.Replay.Runs.{assert-eq-ok}

module _ {F S : Type 0} (P : Poseidon F S) (E : Encoding F) where
  abbrev pub leaf_of : RawBlock → F
  leaf_of b = E.from_le_bytes_mod_order b.commitment

  abbrev pub IsCanonical : RawBlock → Type 0
  IsCanonical b = E.f_bytes (leaf_of b) ≡ b.commitment

  -- What the checks of one block, or of a pair, establish.
  pub record Appended (b : RawBlock) (tree tree' : IncrementalTree F) : Type 0 where
    pub canonical : IsCanonical b
    pub root : F
    pub appended : append P tree (leaf_of b) ≡ some (tree', root)

  pub append_commitment-Appended :
      (b : RawBlock) (i : ℕ) (tree tree' : IncrementalTree F)
      → append_commitment P E b.commitment i tree ≡ ok tree'
      → Appended b tree tree'
  unfolding append_commitment
  append_commitment-Appended b i tree tree' h =
      let (ec, k1) =
        >>-eq-ok
          (assert (Bytes-discrete (E.f_bytes (leaf_of b)) b.commitment) "non-canonical commitment"
            i)
          _ h in
      let (r, ea, k2) =
        >>=-eq-ok (ok_or (append P tree (leaf_of b)) (Violation.violation "tree full" i)) _ k1 in
      subst (Appended b tree) (ok-injective k2) (record {
        canonical = assert-eq-ok _ "non-canonical commitment" i ec;
        root = r.1;
        appended = ok_or-eq-ok _ (Violation.violation "tree full" i) ea;
      })

  pub record ShieldRun (i : ℕ) (b : RawBlock) (st st' : Replay F) : Type 0 where
    pub no_nullifiers : b.nullifiers ≡ []
    pub appended : Appended b st.tree st'.tree
    pub root_after : b.note_root_after ≡ E.f_bytes st'.tree.root
    pub after :
        record st {
          tree = st'.tree;
          known_roots = insert_new Bytes-discrete b.note_root_after st.known_roots;
          prev_hash = some b.hash;
          shield_ops = st.shield_ops + 1;
        }
        ≡ st'

  pub replay_shield-ShieldRun :
      (i : ℕ) (b : RawBlock) (st st' : Replay F)
      → replay_shield P E i b st ≡ ok st'
      → ShieldRun i b st st'
  unfolding replay_shield
  replay_shield-ShieldRun i b st st' h =
      let (en, k1) =
        >>-eq-ok
          (assert (blocks-discrete b.nullifiers []) "shield block must carry no nullifiers" i) _
          h in
      let (_, k2) =
        >>-eq-ok
          (assert (Bytes-discrete b.anchor_before (E.f_bytes st.tree.root))
            "anchor_before must be the pre-append root" i)
          _ k1 in
      let (tree, et, k3) = >>=-eq-ok (append_commitment P E b.commitment i st.tree) _ k2 in
      let (er, k4) =
        >>-eq-ok
          (assert (Bytes-discrete b.note_root_after (E.f_bytes tree.root)) "root_after mismatch" i)
          _ k3 in
      subst (ShieldRun i b st) (ok-injective k4) (record {
        no_nullifiers = assert-eq-ok _ "shield block must carry no nullifiers" i en;
        appended = append_commitment-Appended b i st.tree tree et;
        root_after = assert-eq-ok _ "root_after mismatch" i er;
        after = refl;
      })

  pub record PairRun (i : ℕ) (b b2 : RawBlock) (st st' : Replay F) : Type 0 where
    pub nf1 : Bytes
    pub nf2 : Bytes
    pub nullifiers : b.nullifiers ≡ nf1 ∷ nf2 ∷ []
    pub same_nullifiers : b2.nullifiers ≡ b.nullifiers
    pub known : contains Bytes-discrete b.anchor_before st.known_roots ≡ true
    pub unused1 : contains Bytes-discrete nf1 st.spent ≡ false
    pub unused2 : contains Bytes-discrete nf2 (nf1 ∷ st.spent) ≡ false
    pub middle : IncrementalTree F
    pub appended1 : Appended b st.tree middle
    pub appended2 : Appended b2 middle st'.tree
    pub linked : b2.phash ≡ some b.hash
    pub after :
        record {
          tree = st'.tree;
          known_roots = insert_new Bytes-discrete (E.f_bytes st'.tree.root) st.known_roots;
          spent = nf2 ∷ nf1 ∷ st.spent;
          prev_hash = some b2.hash;
          shield_ops = st.shield_ops;
          transfer_ops = st.transfer_ops + 1;
        }
        ≡ st'

  spend_nullifier-eq-ok :
      (nf : Bytes) (i : ℕ) (spent spent' : List Bytes)
      → spend_nullifier nf i spent ≡ ok spent'
      → (contains Bytes-discrete nf spent ≡ false) × (nf ∷ spent ≡ spent')
  unfolding spend_nullifier
  spend_nullifier-eq-ok nf i spent spent' h =
      let (e, k) =
        >>-eq-ok
          (fail_if (contains Bytes-discrete nf spent)
            (Violation.violation "nullifier reused across chain" i))
          _ h in
      (fail_if-eq-ok _ (Violation.violation "nullifier reused across chain" i) e, ok-injective k)

  two_nullifiers-eq-ok :
      (i : ℕ) (nfs : List Bytes) (pair : Bytes × Bytes)
      → two_nullifiers i nfs ≡ ok pair
      → nfs ≡ pair.0 ∷ pair.1 ∷ []
  unfolding two_nullifiers
  two_nullifiers-eq-ok i [] pair h = cc
  two_nullifiers-eq-ok i (a ∷ []) pair h = cc
  two_nullifiers-eq-ok i (a ∷ b ∷ []) pair h = elim (Bytes-discrete a b) [
    | yes same ↦ cc (rw (if_pos (Bytes-discrete a b) same) at h)
    | no differ ↦
        ap (λ (p : Bytes × Bytes). p.0 ∷ p.1 ∷ [])
          (ok-injective (rw (if_neg (Bytes-discrete a b) differ) at h))
  ]
  two_nullifiers-eq-ok i (a ∷ b ∷ c ∷ rest) pair h = cc

  unnegate : (b : Bool) → not b ≡ false → b ≡ true
  unnegate true h = refl
  unnegate false h = cc

  pub replay_pair-PairRun :
      (i : ℕ) (b b2 : RawBlock) (st st' : Replay F)
      → replay_pair P E i b b2 st ≡ ok st'
      → PairRun i b b2 st st'
  unfolding replay_pair
  replay_pair-PairRun i b b2 st st' h =
      let (_, k1) =
        >>-eq-ok
          (assert (Bytes-discrete b2.origin (origin_text Origin.confidential_transfer))
            "transfer pair broken" i)
          _ h in
      let (en, k2) =
        >>-eq-ok
          (assert (blocks-discrete b2.nullifiers b.nullifiers) "transfer pair nullifiers differ" i)
          _ k1 in
      let (_, k3) =
        >>-eq-ok
          (assert (Bytes-discrete b2.anchor_before b.anchor_before) "transfer pair anchors differ"
            i)
          _ k2 in
      let (_, k4) =
        >>-eq-ok
          (assert (Bytes-discrete b2.note_root_after b.note_root_after) "transfer pair roots differ"
            i)
          _ k3 in
      let (nfs, e2, k5) = >>=-eq-ok (two_nullifiers i b.nullifiers) _ k4 in
      let anchor_known : Bool = contains Bytes-discrete b.anchor_before st.known_roots in
      let unknown : Violation =
        Violation.violation "references an anchor that never appeared in the chain" i in
      let (ek, k6) = >>-eq-ok (fail_if (not anchor_known) unknown) _ k5 in
      let (spent1, e3, k7) = >>=-eq-ok (spend_nullifier nfs.0 i st.spent) _ k6 in
      let (spent2, e4, k8) = >>=-eq-ok (spend_nullifier nfs.1 i spent1) _ k7 in
      let (tree1, e5, k9) = >>=-eq-ok (append_commitment P E b.commitment i st.tree) _ k8 in
      let (tree2, e6, k10) = >>=-eq-ok (append_commitment P E b2.commitment i tree1) _ k9 in
      let (_, k11) =
        >>-eq-ok
          (assert (Bytes-discrete b.note_root_after (E.f_bytes tree2.root))
            "transfer root_after mismatch" i)
          _ k10 in
      let (el, k12) =
        >>-eq-ok
          (assert (hash_option-discrete b2.phash (some b.hash))
            "phash link broken inside transfer pair" i)
          _ k11 in
      let (new1, same1) = spend_nullifier-eq-ok nfs.0 i st.spent spent1 e3 in
      let (new2, same2) = spend_nullifier-eq-ok nfs.1 i spent1 spent2 e4 in
      subst (PairRun i b b2 st) (ok-injective k12) (record {
        nf1 = nfs.0;
        nf2 = nfs.1;
        nullifiers = two_nullifiers-eq-ok i b.nullifiers nfs e2;
        same_nullifiers = assert-eq-ok _ "transfer pair nullifiers differ" i en;
        known = unnegate anchor_known (fail_if-eq-ok _ unknown ek);
        unused1 = new1;
        unused2 = rw (sym same1) at new2;
        middle = tree1;
        appended1 = append_commitment-Appended b i st.tree tree1 e5;
        appended2 = append_commitment-Appended b2 i tree1 tree2 e6;
        linked = assert-eq-ok _ "phash link broken inside transfer pair" i el;
        after =
            ap
              (λ (spent : List Bytes). record {
                tree = tree2;
                known_roots = insert_new Bytes-discrete (E.f_bytes tree2.root) st.known_roots;
                spent = spent;
                prev_hash = some b2.hash;
                shield_ops = st.shield_ops;
                transfer_ops = st.transfer_ops + 1;
              })
              (ap (λ (old : List Bytes). nfs.1 ∷ old) same1 ∙ same2);
      })

  pub check_header-eq-ok :
      (i : ℕ) (b : RawBlock) (st : Replay F)
      → check_header i b st ≡ ok tt
      → (b.position ≡ i) × (b.phash ≡ st.prev_hash)
  unfolding check_header
  check_header-eq-ok i b st h =
      let (ep, k1) = >>-eq-ok (assert (ℕ_discrete b.position i) "position mismatch" i) _ h in
      let (_, k2) = >>-eq-ok (assert (Bytes-discrete b.btype zknote1) "unexpected btype" i) _ k1 in
      let (_, k3) =
        >>-eq-ok (assert (ℕ_discrete b.encoding_version 1) "unexpected encoding_version" i) _ k2 in
      (
        assert-eq-ok _ "position mismatch" i ep,
        assert-eq-ok (hash_option-discrete b.phash st.prev_hash) "phash link broken" i k3,
      )
