-- ===== src/Soak/Model/Conserves.antt =====
-- Conservation of value in the reference model of soak/src/model.rs over the operations that the ledger
-- accepts.
use shielded_ledger_hivemind.Common.{
  some-injective, ℕ, zero, suc, ◌+◌, ◌-◌, ◌*◌, ◌≤◌, ◌≡◌, refl, sym, ap, subst, ◌∙◌, arith, Option,
  some, List, [], ◌∷◌, true, false, get_elem?, set, replicate, length, length-append, inl, inr,
}
use native.Mathlib.Nat.{mul-add}
use shielded_ledger_hivemind.Adapter.Legacy.Messages.{Bytes}
use shielded_ledger_hivemind.Circuit.Hash.{Poseidon}
use shielded_ledger_hivemind.Soak.Wire.{Encoding, MerkleMirror}
use shielded_ledger_hivemind.Soak.Model.{
  AccountKeys, NoteRecord, Model, PublicAmountEvent, PrivateTransfer, unspent_value, total_unspent,
  new_model, root_bytes, credited,
}
use shielded_ledger_hivemind.Soak.Model.Reachable.{
  Accepted, Reachable, start, next, shield, transfer,
}
use shielded_ledger_hivemind.Soak.Model.Steps.{
  Books, books, Noted, Spent, PaidOut, Settled, Shielded, Transferred, apply_shield-Shielded,
  apply_transfer-Transferred, unspent_value-snoc, unspent_value-set,
}

abbrev pub sum : List ℕ → ℕ
sum [] = 0
sum (x ∷ xs) = x + sum xs

sum-set : (xs : List ℕ) (i b c : ℕ) → get_elem? xs i ≡ some b → sum (set xs i c) + b ≡ sum xs + c
sum-set [] i b c found = cc
sum-set (x ∷ xs) zero b c found = let e : x ≡ b = cc in rw e (omega arith)
sum-set (x ∷ xs) (suc i) b c found = omega (arith, sum-set xs i b c found)

sum-replicate : (n b : ℕ) → sum (replicate n b) ≡ n * b
sum-replicate zero b = omega arith
sum-replicate (suc n) b = omega (arith, sum-replicate n b, mul-add b n 1)

-- One more fee in the product.
fee_more : (fee a b : ℕ) → fee * (a + 1 + b) ≡ fee * (a + b) + fee
fee_more fee a b = omega (arith, mul-add fee (a + b) 1)

-- Custody is what the pool is worth, what came in is what went out and what is left, and no token is
-- lost: what the accounts, the pool and the collected fees hold is always `total`.
pub record SoundBooks (total : ℕ) (b : Books) : Type 0 where
  pub custody : b.pool_custody ≡ b.pool_value
  pub flows : b.shield_in ≡ b.unshield_out + b.pool_value
  pub tokens :
      sum b.token_balances
        + b.pool_custody
        + b.token_fee * (length b.shield_events + length b.unshield_events)
      ≡ total

module _ {F S M : Type 0} (P : Poseidon F S) (E : Encoding F) (R : MerkleMirror F M) where
  pub record Conserved (total : ℕ) (m : Model F M) : Type 0 where
    pub unspent : total_unspent m ≡ m.pool_value
    pub sound : SoundBooks total (books m)

  credited-SoundBooks :
      (total : ℕ) (acct : AccountKeys F) (v : ℕ) (rho rcm : F) (anchor : Bytes) (idx balance : ℕ)
      (n : Model F M)
      → get_elem? n.token_balances acct.index ≡ some balance
      → v + n.token_fee ≤ balance
      → SoundBooks total (books n)
      → SoundBooks total
          (books (credited P E R acct v rho rcm anchor idx (balance - (v + n.token_fee)) n))
  credited-SoundBooks total acct v rho rcm anchor idx balance n found covers s = record {
    custody = omega (arith, s.custody);
    flows = omega (arith, s.flows);
    tokens =
        let moved =
          sum-set n.token_balances acct.index balance (balance - (v + n.token_fee)) found in
        let event : PublicAmountEvent = record { value = v; block_index = length n.blocks } in
        rw (length-append n.shield_events (event ∷ [])) (
          omega (
            arith,
            s.tokens,
            moved,
            covers,
            fee_more n.token_fee (length n.shield_events) (length n.unshield_events),
          ));
  }

  paid-SoundBooks :
      (total : ℕ) (t : PrivateTransfer F) (m m' : Model F M)
      → PaidOut P E R t m m'
      → SoundBooks total (books m)
      → SoundBooks total (books m')
  paid-SoundBooks total t m m' p s =
      subst (λ x. SoundBooks total (books x)) p.after
        (record {
          custody = omega (arith, s.custody, p.custody, p.value);
          flows = omega (arith, s.flows, p.value);
          tokens =
              let moved =
                sum-set m.token_balances p.recipient p.balance (p.balance + t.v_pub_out) p.found in
              let event : PublicAmountEvent = record {
                value = t.v_pub_out;
                block_index = length m.blocks - 2;
              } in
              rw (length-append m.unshield_events (event ∷ [])) (
                omega (
                  arith,
                  s.tokens,
                  moved,
                  p.custody,
                  fee_more m.token_fee (length m.unshield_events) (length m.shield_events),
                ));
        })

  -- The sum over the notes, after a note is recorded and after one is spent.
  Noted-unspent :
      {owner v : ℕ} {cm nf : F} {m m' : Model F M}
      → Noted P E R owner cm nf v m m'
      → total_unspent m' ≡ total_unspent m + v
  unfolding total_unspent
  Noted-unspent {m} n =
      ap unspent_value n.notes
      ∙ unspent_value-snoc m.notes n.note n.unspent
      ∙ ap (λ (x : ℕ). unspent_value m.notes + x) n.value

  Spent-unspent :
      {i : ℕ} {m m' : Model F M} (s : Spent P E R i m m')
      → total_unspent m' + s.note.v ≡ total_unspent m
  unfolding total_unspent
  Spent-unspent {i} {m} s =
      ap (λ notes. unspent_value notes + s.note.v) s.notes
      ∙ unspent_value-set m.notes i s.note s.found s.fresh

  Shielded-Conserved :
      (total : ℕ) (acct : AccountKeys F) (v : ℕ) (rho rcm : F) (m m' : Model F M)
      → Shielded P E R acct v rho rcm m m'
      → Conserved total m
      → Conserved total m'
  unfolding total_unspent
  Shielded-Conserved total acct v rho rcm m m' s c =
      let books_same : SoundBooks total (books s.noted) =
        subst (SoundBooks total) (sym s.note_step.frame) c.sound in
      subst (Conserved total) s.after (record {
        unspent = omega (
          arith,
          Noted-unspent s.note_step,
          c.unspent,
          ap (λ (b : Books). b.pool_value) s.note_step.frame,
        );
        sound =
            credited-SoundBooks total acct v rho rcm (root_bytes P E R m.mirror) (length m.notes)
              s.balance s.noted s.found s.covers books_same;
      })

  -- The second input is unspent after the first is spent, so it is another note.
  still_unspent :
      (notes : List (NoteRecord F)) (i j : ℕ) (n k : NoteRecord F)
      → get_elem? (set notes i (record n { spent = true })) j ≡ some k
      → k.spent ≡ false
      → get_elem? notes j ≡ some k
  still_unspent [] i j n k found fresh = found
  still_unspent (x ∷ notes) zero zero n k found fresh = let e = some-injective found in cc
  still_unspent (x ∷ notes) zero (suc j) n k found fresh = found
  still_unspent (x ∷ notes) (suc i) zero n k found fresh = found
  still_unspent (x ∷ notes) (suc i) (suc j) n k found fresh =
      still_unspent notes i j n k found fresh

  same_value :
      (o : Option (NoteRecord F)) {a b : NoteRecord F} → o ≡ some a → o ≡ some b → a.v ≡ b.v
  same_value o ea eb = ap (λ (n : NoteRecord F). n.v) (some-injective (sym ea ∙ eb))

  Transferred-unspent :
      {t : PrivateTransfer F} {accounts : List (AccountKeys F)} {m m' : Model F M}
      (a : Accepted P E R t m) (d : Transferred P E R t accounts m m')
      → total_unspent d.two + (t.fee + t.v_pub_out) ≡ total_unspent m
  Transferred-unspent {t} {accounts} {m} a d =
      let e1 = same_value (get_elem? m.notes t.in1) d.spend1.found a.found1 in
      let there =
        still_unspent m.notes t.in1 t.in2 d.spend1.note d.spend2.note
          (ap (λ notes. get_elem? notes t.in2) (sym d.spend1.notes) ∙ d.spend2.found)
          d.spend2.fresh in
      let e2 = same_value (get_elem? m.notes t.in2) there a.found2 in
      omega (
        arith,
        Spent-unspent d.spend1,
        Spent-unspent d.spend2,
        Noted-unspent d.output1,
        Noted-unspent d.output2,
        a.balanced,
        e1,
        e2,
      )

  Settled-Conserved :
      (total : ℕ) (t : PrivateTransfer F) (before m' : Model F M)
      → Settled P E R t before m'
      → total_unspent before + (t.fee + t.v_pub_out) ≡ before.pool_value
      → SoundBooks total (books before)
      → Conserved total m'
  unfolding total_unspent
  Settled-Conserved total t before m' st u s =
      subst (Conserved total) st.after (elim st.paid_or_private [
        | inl (positive, p) ↦
            let after = paid-SoundBooks total t before st.last p s in
            record {
              unspent = omega (
                arith,
                u,
                p.value,
                p.fee,
                ap total_unspent p.after,
                ap (λ (m : Model F M). m.pool_value) p.after,
              );
              sound = record {
                custody = after.custody;
                flows = after.flows;
                tokens = after.tokens;
              };
            }
        | inr (none_out, no_fee, same) ↦
            let after = subst (λ m. SoundBooks total (books m)) same s in
            record {
              unspent = omega (
                arith,
                u,
                none_out,
                no_fee,
                ap total_unspent same,
                ap (λ (m : Model F M). m.pool_value) same,
              );
              sound = record {
                custody = after.custody;
                flows = after.flows;
                tokens = after.tokens;
              };
            }
      ])

  Transferred-Conserved :
      (total : ℕ) (t : PrivateTransfer F) (accounts : List (AccountKeys F)) (m m' : Model F M)
      → Accepted P E R t m
      → Transferred P E R t accounts m m'
      → Conserved total m
      → Conserved total m'
  unfolding total_unspent
  Transferred-Conserved total t accounts m m' a d c =
      let frame : books d.two ≡ books m =
        d.output2.frame ∙ d.output1.frame ∙ d.spend2.frame ∙ d.spend1.frame in
      let s : SoundBooks total (books d.two) = subst (SoundBooks total) (sym frame) c.sound in
      Settled-Conserved total t _ m' d.settled
        (omega (arith, Transferred-unspent a d, c.unspent, ap (λ (b : Books). b.pool_value) frame))
        (record { custody = s.custody; flows = s.flows; tokens = s.tokens })

  -- In every model that accepted operations lead to, the unspent notes sum to the pool's value, which
  -- is the pool's custody and what was shielded less what was paid out; and accounts, pool and fees
  -- together still hold what the accounts began with.
  pub Reachable-Conserved :
      (accounts balance fee : ℕ) (m : Model F M)
      → Reachable P E R accounts balance fee m
      → Conserved (accounts * balance) m
  unfolding new_model total_unspent unspent_value
  Reachable-Conserved accounts balance fee m start = record {
    unspent = refl;
    sound = record {
      custody = refl;
      flows = refl;
      tokens = omega (arith, sum-replicate accounts balance);
    };
  }
  Reachable-Conserved accounts balance fee m' (next {m} r (shield acct v rho rcm done)) =
      Shielded-Conserved (accounts * balance) acct v rho rcm m m'
        (apply_shield-Shielded P E R acct v rho rcm m m' done)
        (Reachable-Conserved accounts balance fee m r)
  Reachable-Conserved accounts balance fee m' (next {m} r (transfer t keys a done)) =
      Transferred-Conserved (accounts * balance) t keys m m' a
        (apply_transfer-Transferred P E R t keys m m' done)
        (Reachable-Conserved accounts balance fee m r)
