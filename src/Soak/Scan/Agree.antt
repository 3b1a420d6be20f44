-- ===== src/Soak/Scan/Agree.antt =====
-- The wallet's scan of soak/src/scan.rs and the balances of the replayer in soak/src/replayer.rs.
use shielded_ledger_hivemind.Common.{
  ℕ, ◌+◌, ◌≡◌, refl, sym, ap, ap₂, subst, ◌∙◌, arith, Bool, true, false, List, [], ◌∷◌, ◌++◌, ok,
  fail_if, if◌then◌else◌, All, Bool-cases, Option-cases, inl, inr, >>=-eq-ok, >>-eq-ok,
  ok-injective,
}
use shielded_ledger_hivemind.Adapter.Legacy.Messages.{Bytes, Bytes-discrete}
use shielded_ledger_hivemind.Circuit.Hash.{Poseidon}
use shielded_ledger_hivemind.Soak.Wire.{Encoding, contains}
use shielded_ledger_hivemind.Soak.Model.{AccountKeys}
use shielded_ledger_hivemind.Soak.Model.Conserves.{sum}
use shielded_ledger_hivemind.Soak.Replay.{
  RawBlock, Violation, assert, Replay, replay_chain, replay_start,
}
use shielded_ledger_hivemind.Soak.Replay.Runs.{
  Runs, done, shielded, transferred, assert-eq-ok, assert_yes, replay_from-Runs,
}
use shielded_ledger_hivemind.Soak.Replay.Checks.{replay_shield-ShieldRun, replay_pair-PairRun}
use shielded_ledger_hivemind.Soak.Replay.Sound.{SpentIn, replay_chain-SoundChain}
use shielded_ledger_hivemind.Soak.Sets.{
  contains-All, contains-append, contains_parts, contains_tail, contains_cons,
}
use shielded_ledger_hivemind.Soak.Scan.{
  opened, opening_cm, nullifiers_in, scan_account, scan_accounts, wallet_scan_balances, recognize,
  tally, tally_accounts, ReplayResult, replay,
}

-- The values of the notes that are not spent.
abbrev unspent_sum : List Bytes → List (Bytes × ℕ) → ℕ
unspent_sum spent [] = 0
unspent_sum spent ((nf, v) ∷ mine) =
    (if contains Bytes-discrete nf spent then 0 else v) + unspent_sum spent mine

unspent_sum_cong :
    (s s' : List Bytes) (mine : List (Bytes × ℕ))
    → ((nf : Bytes) → contains Bytes-discrete nf s ≡ contains Bytes-discrete nf s')
    → unspent_sum s mine ≡ unspent_sum s' mine
unspent_sum_cong s s' [] same = refl
unspent_sum_cong s s' ((nf, v) ∷ mine) same =
    ap₂ (λ (b : Bool) (n : ℕ). (if b then 0 else v) + n) (same nf) (unspent_sum_cong s s' mine same)

module _ {F S : Type 0} (P : Poseidon F S) (E : Encoding F) (sha256 : Bytes → Bytes) where
  tally-unspent_sum :
      (spent : List Bytes) (mine : List (Bytes × ℕ)) (owned : List Bytes) (r : ℕ × List Bytes)
      → tally spent mine owned ≡ ok r
      → r.0 ≡ unspent_sum spent mine
  unfolding tally
  tally-unspent_sum spent [] owned r h = ap (λ (x : ℕ × List Bytes). x.0) (sym (ok-injective h))
  tally-unspent_sum spent ((nf, v) ∷ mine) owned r h =
      let (_, k1) =
        >>-eq-ok
          (fail_if (contains Bytes-discrete nf owned)
            (Violation.violation "two accounts recognized the same note" 0))
          _ h in
      let (rest, er, k2) = >>=-eq-ok (tally spent mine (nf ∷ owned)) _ k1 in
      ap (λ (x : ℕ × List Bytes). x.0) (sym (ok-injective k2))
      ∙ ap (λ (n : ℕ). (if contains Bytes-discrete nf spent then 0 else v) + n)
          (tally-unspent_sum spent mine (nf ∷ owned) rest er)

  recognize-scan_account :
      (spent : List Bytes) (acct : AccountKeys F) (blocks : List RawBlock) (mine : List (Bytes × ℕ))
      → recognize P E sha256 acct blocks ≡ ok mine
      → scan_account P E sha256 spent acct blocks ≡ ok (unspent_sum spent mine)
  unfolding recognize scan_account
  recognize-scan_account spent acct [] mine h =
      ap (λ (m : List (Bytes × ℕ)). ok (unspent_sum spent m)) (ok-injective h)
  recognize-scan_account spent acct (b ∷ blocks) mine h =
      elim (Option-cases (opened P E sha256 acct b)) [
        | inl hidden ↦
            rw (hidden, scan_account)
              (recognize-scan_account spent acct blocks mine (rw (hidden, recognize) at h))
        | inr (o, found) ↦
            let k0 = rw (found, recognize) at h in
            let (ec, k1) =
              >>-eq-ok
                (assert (Bytes-discrete (opening_cm P E sha256 o) b.commitment)
                  "decrypted opening does not recompute the block commitment" b.position)
                _ k0 in
            let (later, er, k2) = >>=-eq-ok (recognize P E sha256 acct blocks) _ k1 in
            let right =
              assert-eq-ok _ "decrypted opening does not recompute the block commitment" b.position
                ec in
            rw
              (
                found,
                scan_account,
                assert_yes (Bytes-discrete (opening_cm P E sha256 o) b.commitment)
                    "scan: opening does not match the public commitment" b.position right,
                recognize-scan_account spent acct blocks later er,
              )
              (ap (λ (m : List (Bytes × ℕ)). ok (unspent_sum spent m)) (ok-injective k2))
      ]

  SpentIn-chain :
      (x : Bytes) (spent : List Bytes) (blocks : List RawBlock)
      → All (SpentIn spent) blocks
      → contains Bytes-discrete x (nullifiers_in blocks) ≡ true
      → contains Bytes-discrete x spent ≡ true
  unfolding contains
  SpentIn-chain x spent [] all h = cc
  SpentIn-chain x spent (b ∷ blocks) all h =
      contains-append x b.nullifiers (nullifiers_in blocks) spent
        (contains-All x b.nullifiers spent all.0) (SpentIn-chain x spent blocks all.1) h

  -- A nullifier that no block of a run carries is not spent by it.
  Runs-unspent :
      (x : Bytes) {i : ℕ} {xs : List RawBlock} {st st' : Replay F}
      → Runs P E i xs st st'
      → contains Bytes-discrete x st.spent ≡ false
      → contains Bytes-discrete x (nullifiers_in xs) ≡ false
      → contains Bytes-discrete x st'.spent ≡ false
  Runs-unspent x done before carried = before
  Runs-unspent x {i} {st} (shielded {b} {rest} {st1} h o e r) before carried =
      let s = replay_shield-ShieldRun P E i b st st1 e in
      Runs-unspent x r
        (ap (λ (y : Replay F). contains Bytes-discrete x y.spent) (sym s.after) ∙ before)
        (contains_parts x b.nullifiers (nullifiers_in rest) carried).1
  Runs-unspent x {i} {st} (transferred {b} {b2} {rest} {st1} h o e r) before carried =
      let s = replay_pair-PairRun P E i b b2 st st1 e in
      let (own, later) =
        contains_parts x b.nullifiers (b2.nullifiers ++ nullifiers_in rest) carried in
      let (ne1, own2) =
        contains_tail x s.nf1 (s.nf2 ∷ [])
          (ap (contains Bytes-discrete x) (sym s.nullifiers) ∙ own) in
      let (ne2, _) = contains_tail x s.nf2 [] own2 in
      Runs-unspent x r
        (ap (λ (y : Replay F). contains Bytes-discrete x y.spent) (sym s.after)
          ∙ contains_cons x s.nf2 (s.nf1 ∷ st.spent) ne2
              (contains_cons x s.nf1 st.spent ne1 before))
        (contains_parts x b2.nullifiers (nullifiers_in rest) later).1

  -- The replayer's spent set has the nullifiers of the blocks.
  spent-nullifiers_in :
      (blocks : List RawBlock) (st : Replay F)
      → replay_chain P E blocks ≡ ok st
      → (x : Bytes)
      → contains Bytes-discrete x st.spent ≡ contains Bytes-discrete x (nullifiers_in blocks)
  unfolding replay_chain replay_start contains
  spent-nullifiers_in blocks st h x =
      let sound = replay_chain-SoundChain P E blocks st h in
      elim (Bool-cases (contains Bytes-discrete x (nullifiers_in blocks))) [
        | inl carried ↦ SpentIn-chain x st.spent blocks sound.spends carried ∙ sym carried
        | inr absent ↦
            Runs-unspent x (replay_from-Runs P E 0 blocks (replay_start P E) st h) refl absent
            ∙ sym absent
      ]

  tally_accounts-scan_accounts :
      (spent : List Bytes) (accounts : List (AccountKeys F)) (blocks : List RawBlock)
      (owned : List Bytes) (r : List ℕ × (ℕ × ℕ)) (carried : List Bytes)
      → ((x : Bytes) → contains Bytes-discrete x spent ≡ contains Bytes-discrete x carried)
      → tally_accounts P E sha256 spent accounts blocks owned ≡ ok r
      → (scan_accounts P E sha256 carried blocks accounts ≡ ok r.0) × (r.1.0 ≡ sum r.0)
  unfolding tally_accounts scan_accounts
  tally_accounts-scan_accounts spent [] blocks owned r carried same h =
      let e = ok-injective h in
      (
        ap (λ (x : List ℕ × (ℕ × ℕ)). ok x.0) e,
        subst (λ (x : List ℕ × (ℕ × ℕ)). x.1.0 ≡ sum x.0) e refl,
      )
  tally_accounts-scan_accounts spent (acct ∷ accounts) blocks owned r carried same h =
      let (mine, em, k1) = >>=-eq-ok (recognize P E sha256 acct blocks) _ h in
      let (own, eo, k2) = >>=-eq-ok (tally spent mine owned) _ k1 in
      let (rest, er, k3) = >>=-eq-ok (tally_accounts P E sha256 spent accounts blocks own.1) _ k2 in
      let (scanned, total) =
        tally_accounts-scan_accounts spent accounts blocks own.1 rest carried same er in
      let balance : own.0 ≡ unspent_sum carried mine =
        tally-unspent_sum spent mine owned own eo ∙ unspent_sum_cong spent carried mine same in
      let e = ok-injective k3 in
      (
        rw (recognize-scan_account carried acct blocks mine em, scanned)
            (ap (λ (n : ℕ). ok (n ∷ rest.0)) (sym balance)
              ∙ ap (λ (x : List ℕ × (ℕ × ℕ)). ok x.0) e),
        subst (λ (x : List ℕ × (ℕ × ℕ)). x.1.0 ≡ sum x.0) e (omega (arith, total)),
      )

  -- Where the replay of a chain succeeds, the wallet's scan of the same blocks succeeds with the same
  -- balances, and the replayer's total is their sum.
  pub replay-wallet_scan_balances :
      (blocks : List RawBlock) (accounts : List (AccountKeys F)) (r : ReplayResult)
      → replay P E sha256 blocks accounts ≡ ok r
      → (wallet_scan_balances P E sha256 accounts blocks ≡ ok r.balances)
        × (r.total_unspent ≡ sum r.balances)
  unfolding replay wallet_scan_balances
  replay-wallet_scan_balances blocks accounts r h =
      let (st, es, k1) = >>=-eq-ok (replay_chain P E blocks) _ h in
      let (found, ef, k2) =
        >>=-eq-ok (tally_accounts P E sha256 st.spent accounts blocks []) _ k1 in
      let (scanned, total) =
        tally_accounts-scan_accounts st.spent accounts blocks [] found (nullifiers_in blocks)
          (spent-nullifiers_in blocks st es) ef in
      subst
        (λ (x : ReplayResult).
          (wallet_scan_balances P E sha256 accounts blocks ≡ ok x.balances)
          × (x.total_unspent ≡ sum x.balances))
        (ok-injective k2) (scanned, total)
