-- ===== src/Soak/Model/Steps.antt =====
-- What each part of `apply_shield` and `apply_transfer` of soak/src/model.rs does where it returns.
use shielded_ledger_hivemind.Common.{
  Bool-cases, inl, inr, ltb, ◌<◌, ◌≤◌, ◌==◌, not, ◌⊎◌, ltb→lt, if◌then◌else◌, ◌-◌, ℕ, ◌+◌, ◌≡◌,
  refl, arith, some, List, [], ◌∷◌, true, false, ok, get_elem?, set, length, >>=-eq-ok, >>-eq-ok,
  ok-injective, ok_or, fail_if, fail_if-eq-ok, subst, ok_or-eq-ok, zero, suc,
}
use shielded_ledger_hivemind.Adapter.Legacy.Messages.{Bytes}
use shielded_ledger_hivemind.Circuit.Hash.{Poseidon, derive_nf, note_commitment}
use shielded_ledger_hivemind.Soak.Wire.{Encoding, MerkleMirror, Panic, at, checked_sub}
use shielded_ledger_hivemind.Soak.Model.{
  AccountKeys, NoteRecord, ExpectedBlock, PublicAmountEvent, Model, PrivateTransfer, snoc,
  unspent_value, root_bytes, record_note, spend, credited, paid, written, credit_shield,
  apply_shield, pay_out, stay_private, settle, apply_transfer,
}

-- The part of the model that spending and recording notes leave alone.
pub record Books : Type 0 where
  pub blocks : List ExpectedBlock
  pub historical_roots : List Bytes
  pub token_balances : List ℕ
  pub pool_custody : ℕ
  pub pool_value : ℕ
  pub epoch : ℕ
  pub token_fee : ℕ
  pub shield_in : ℕ
  pub unshield_out : ℕ
  pub shield_events : List PublicAmountEvent
  pub unshield_events : List PublicAmountEvent

abbrev pub books : {F M : Type 0} → Model F M → Books
books m = record {
  blocks = m.blocks;
  historical_roots = m.historical_roots;
  token_balances = m.token_balances;
  pool_custody = m.pool_custody;
  pool_value = m.pool_value;
  epoch = m.epoch;
  token_fee = m.token_fee;
  shield_in = m.cumulative_shield_in;
  unshield_out = m.cumulative_unshield_out;
  shield_events = m.shield_events;
  unshield_events = m.unshield_events;
}

pub at-eq-ok : {A : Type 0} (xs : List A) (i : ℕ) {a : A} → at xs i ≡ ok a → get_elem? xs i ≡ some a
at-eq-ok xs i h = ok_or-eq-ok (get_elem? xs i) Panic.out_of_bounds h

pub not_below : (a b : ℕ) → ltb a b ≡ false → b ≤ a
not_below a b h = ground arith

zero_of : (a : ℕ) → ltb 0 a ≡ false → a ≡ 0
zero_of a h = ground arith

pub same_number : (a b : ℕ) → not (a == b) ≡ false → a ≡ b
same_number a b h = ground arith

pub checked_sub-eq-ok :
    (a b : ℕ) (panic : Panic) {c : ℕ} → checked_sub a b panic ≡ ok c → (b ≤ a) × (a - b ≡ c)
checked_sub-eq-ok a b panic h = elim (Bool-cases (ltb a b)) [
  | inl lt ↦ cc (rw lt at h)
  | inr ge ↦ (not_below a b ge, ok-injective (rw ge at h))
]

pub unspent_value-snoc :
    {F : Type 0} (notes : List (NoteRecord F)) (n : NoteRecord F)
    → n.spent ≡ false
    → unspent_value (snoc notes n) ≡ unspent_value notes + n.v
unfolding unspent_value
unspent_value-snoc [] n h = ground arith
unspent_value-snoc (x ∷ notes) n h = omega (arith, unspent_value-snoc notes n h)

-- Marking an unspent note takes its value out of the sum.
pub unspent_value-set :
    {F : Type 0} (notes : List (NoteRecord F)) (i : ℕ) (n : NoteRecord F)
    → get_elem? notes i ≡ some n
    → n.spent ≡ false
    → unspent_value (set notes i (record n { spent = true })) + n.v ≡ unspent_value notes
unfolding unspent_value
unspent_value-set [] i n found h = cc
unspent_value-set (x ∷ notes) zero n found h = let e : x ≡ n = cc in rw (e, h) (omega arith)
unspent_value-set (x ∷ notes) (suc i) n found h = omega (arith, unspent_value-set notes i n found h)

module _ {F S M : Type 0} (P : Poseidon F S) (E : Encoding F) (R : MerkleMirror F M) where
  pub record Noted (owner : ℕ) (cm nf : F) (v : ℕ) (m m' : Model F M) : Type 0 where
    pub leaf : ℕ
    pub appended : R.append m.mirror cm ≡ some (m'.mirror, leaf)
    pub note : NoteRecord F
    pub notes : m'.notes ≡ snoc m.notes note
    pub unspent : note.spent ≡ false
    pub value : note.v ≡ v
    pub nullifier : note.nf ≡ nf
    pub frame : books m' ≡ books m

  pub record_note-Noted :
      (owner : ℕ) (keys : AccountKeys F) (v : ℕ) (rho rcm : F) (m m' : Model F M)
      → record_note P E R owner keys v rho rcm m ≡ ok m'
      → Noted owner (note_commitment P v keys.pk rho rcm) (derive_nf P keys.nk rho) v m m'
  unfolding record_note
  record_note-Noted owner keys v rho rcm m m' done =
      let (appended, ea, rest) =
        >>=-eq-ok (ok_or (R.append m.mirror (note_commitment P v keys.pk rho rcm)) Panic.tree_full)
          _ done in
      let (owned, _, built) = >>=-eq-ok (at m.unspent_by_account owner) _ rest in
      subst (Noted owner (note_commitment P v keys.pk rho rcm) (derive_nf P keys.nk rho) v m)
        (ok-injective built)
        (record {
          leaf = appended.1;
          appended = ok_or-eq-ok _ Panic.tree_full ea;
          note = _;
          notes = refl;
          unspent = refl;
          value = refl;
          nullifier = refl;
          frame = refl;
        })

  pub record Spent (i : ℕ) (m m' : Model F M) : Type 0 where
    pub note : NoteRecord F
    pub found : get_elem? m.notes i ≡ some note
    pub fresh : note.spent ≡ false
    pub notes : m'.notes ≡ set m.notes i (record note { spent = true })
    pub mirror : m'.mirror ≡ m.mirror
    pub frame : books m' ≡ books m

  pub spend-Spent : (i : ℕ) (m m' : Model F M) → spend P E R i m ≡ ok m' → Spent i m m'
  unfolding spend
  spend-Spent i m m' done =
      let (note, en, rest) = >>=-eq-ok (at m.notes i) _ done in
      let (ef, rest') = >>-eq-ok (fail_if note.spent (Panic.double_spend i)) _ rest in
      let (owned, _, built) = >>=-eq-ok (at m.unspent_by_account note.owner) _ rest' in
      subst (Spent i m) (ok-injective built) (record {
        note = note;
        found = at-eq-ok m.notes i en;
        fresh = fail_if-eq-ok note.spent (Panic.double_spend i) ef;
        notes = refl;
        mirror = refl;
        frame = refl;
      })

  pub record Shielded (acct : AccountKeys F) (v : ℕ) (rho rcm : F) (m m' : Model F M) : Type 0 where
    pub noted : Model F M
    pub note_step :
        Noted acct.index (note_commitment P v acct.pk rho rcm) (derive_nf P acct.nk rho) v m noted
    pub balance : ℕ
    pub found : get_elem? noted.token_balances acct.index ≡ some balance
    pub covers : v + noted.token_fee ≤ balance
    pub after :
        credited P E R acct v rho rcm
          (root_bytes P E R m.mirror)
          (length m.notes)
          (balance - (v + noted.token_fee))
          noted
        ≡ m'

  pub apply_shield-Shielded :
      (acct : AccountKeys F) (v : ℕ) (rho rcm : F) (m m' : Model F M)
      → apply_shield P E R acct v rho rcm m ≡ ok m'
      → Shielded acct v rho rcm m m'
  unfolding apply_shield credit_shield
  apply_shield-Shielded acct v rho rcm m m' done =
      let (noted, en, rest) = >>=-eq-ok (record_note P E R acct.index acct v rho rcm m) _ done in
      let (balance, eb, rest') = >>=-eq-ok (at noted.token_balances acct.index) _ rest in
      let (left, el, built) =
        >>=-eq-ok (checked_sub balance (v + noted.token_fee) Panic.overdraws_account) _ rest' in
      let (fits, minus) = checked_sub-eq-ok balance (v + noted.token_fee) _ el in
      record {
        noted = noted;
        note_step = record_note-Noted acct.index acct v rho rcm m noted en;
        balance = balance;
        found = at-eq-ok noted.token_balances acct.index eb;
        covers = fits;
        after = rw (minus) (ok-injective built);
      }

  -- What a settled transfer paid to the outside.
  pub record PaidOut (t : PrivateTransfer F) (m m' : Model F M) : Type 0 where
    pub recipient : ℕ
    pub named : t.recipient_acct ≡ some recipient
    pub balance : ℕ
    pub found : get_elem? m.token_balances recipient ≡ some balance
    pub custody : t.v_pub_out + m.token_fee ≤ m.pool_custody
    pub value : t.v_pub_out + m.token_fee ≤ m.pool_value
    pub fee : t.fee ≡ m.token_fee
    pub after : paid P E R t recipient balance (t.v_pub_out + m.token_fee) m ≡ m'

  pub pay_out-PaidOut :
      (t : PrivateTransfer F) (m m' : Model F M) → pay_out P E R t m ≡ ok m' → PaidOut t m m'
  unfolding pay_out
  pay_out-PaidOut t m m' done =
      let debit : ℕ = t.v_pub_out + m.token_fee in
      let (recipient, er, k1) = >>=-eq-ok (ok_or t.recipient_acct Panic.needs_recipient) _ done in
      let (ec, k2) = >>-eq-ok (fail_if (ltb m.pool_custody debit) Panic.overdraws_custody) _ k1 in
      let (ev, k3) = >>-eq-ok (fail_if (ltb m.pool_value debit) Panic.overdraws_pool) _ k2 in
      let (balance, eb, k4) = >>=-eq-ok (at m.token_balances recipient) _ k3 in
      let (ef, k5) = >>-eq-ok (fail_if (not (t.fee == m.token_fee)) Panic.unshield_fee) _ k4 in
      record {
        recipient = recipient;
        named = ok_or-eq-ok t.recipient_acct Panic.needs_recipient er;
        balance = balance;
        found = at-eq-ok m.token_balances recipient eb;
        custody = not_below m.pool_custody debit (fail_if-eq-ok _ Panic.overdraws_custody ec);
        value = not_below m.pool_value debit (fail_if-eq-ok _ Panic.overdraws_pool ev);
        fee = same_number t.fee m.token_fee (fail_if-eq-ok _ Panic.unshield_fee ef);
        after = ok-injective k5;
      }

  pub record Settled (t : PrivateTransfer F) (before m' : Model F M) : Type 0 where
    pub last : Model F M
    pub after : record last { epoch = last.epoch + 1 } ≡ m'
    pub paid_or_private :
        ((0 < t.v_pub_out) × PaidOut t before last)
        ⊎ ((t.v_pub_out ≡ 0) × (t.fee ≡ 0) × (before ≡ last))

  pub settle-Settled :
      (t : PrivateTransfer F) (nullifiers : List Bytes) (actor : ℕ) (cm1 cm2 : F) (idx : ℕ)
      (m m' : Model F M)
      → settle P E R t nullifiers actor cm1 cm2 idx m ≡ ok m'
      → Settled t (written P E R t nullifiers actor cm1 cm2 idx m) m'
  unfolding settle stay_private
  settle-Settled t nullifiers actor cm1 cm2 idx m m' done =
      let before = written P E R t nullifiers actor cm1 cm2 idx m in
      let (last, el, built) =
        >>=-eq-ok
          (if ltb 0 t.v_pub_out then pay_out P E R t before else stay_private P E R t before) _
          done in
      record {
        last = last;
        after = ok-injective built;
        paid_or_private = elim (Bool-cases (ltb 0 t.v_pub_out)) [
          | inl lt ↦ inl (ltb→lt 0 t.v_pub_out lt, pay_out-PaidOut t before last (rw lt at el))
          | inr ge ↦
              let (ef, same) =
                >>-eq-ok (fail_if (not (t.fee == 0)) Panic.private_fee) _
                  (rw (ge, stay_private) at el) in
              inr (
                zero_of t.v_pub_out ge,
                same_number t.fee 0 (fail_if-eq-ok _ Panic.private_fee ef),
                ok-injective same,
              )
        ];
      }

  pub record Transferred (t : PrivateTransfer F) (accounts : List (AccountKeys F))
      (m m' : Model F M) : Type 0 where
    pub spent1 : Model F M
    pub spent2 : Model F M
    pub one : Model F M
    pub two : Model F M
    pub keys1 : AccountKeys F
    pub keys2 : AccountKeys F
    pub note1 : NoteRecord F
    pub note2 : NoteRecord F
    pub found1 : get_elem? m.notes t.in1 ≡ some note1
    pub found2 : get_elem? m.notes t.in2 ≡ some note2
    pub spend1 : Spent t.in1 m spent1
    pub spend2 : Spent t.in2 spent1 spent2
    pub output1 :
        Noted t.out1.owner
          (note_commitment P t.out1.v keys1.pk note1.nf t.out1.rcm)
          (derive_nf P keys1.nk note1.nf)
          t.out1.v
          spent2
          one
    pub output2 :
        Noted t.out2.owner
          (note_commitment P t.out2.v keys2.pk note2.nf t.out2.rcm)
          (derive_nf P keys2.nk note2.nf)
          t.out2.v
          one
          two
    pub settled :
        Settled t
          (written P E R t
            (E.f_bytes note1.nf ∷ E.f_bytes note2.nf ∷ [])
            note1.owner
            (note_commitment P t.out1.v keys1.pk note1.nf t.out1.rcm)
            (note_commitment P t.out2.v keys2.pk note2.nf t.out2.rcm)
            (length m.notes)
            two)
          m'

  pub apply_transfer-Transferred :
      (t : PrivateTransfer F) (accounts : List (AccountKeys F)) (m m' : Model F M)
      → apply_transfer P E R t accounts m ≡ ok m'
      → Transferred t accounts m m'
  unfolding apply_transfer
  apply_transfer-Transferred t accounts m m' done =
      let (note1, e1, k1) = >>=-eq-ok (at m.notes t.in1) _ done in
      let (note2, e2, k2) = >>=-eq-ok (at m.notes t.in2) _ k1 in
      let (spent1, e3, k3) = >>=-eq-ok (spend P E R t.in1 m) _ k2 in
      let (spent2, e4, k4) = >>=-eq-ok (spend P E R t.in2 spent1) _ k3 in
      let (keys1, _, k5) = >>=-eq-ok (at accounts t.out1.owner) _ k4 in
      let (one, e5, k6) =
        >>=-eq-ok (record_note P E R t.out1.owner keys1 t.out1.v note1.nf t.out1.rcm spent2) _ k5 in
      let (keys2, _, k7) = >>=-eq-ok (at accounts t.out2.owner) _ k6 in
      let (two, e6, k8) =
        >>=-eq-ok (record_note P E R t.out2.owner keys2 t.out2.v note2.nf t.out2.rcm one) _ k7 in
      record {
        spent1 = spent1;
        spent2 = spent2;
        one = one;
        two = two;
        keys1 = keys1;
        keys2 = keys2;
        note1 = note1;
        note2 = note2;
        found1 = at-eq-ok m.notes t.in1 e1;
        found2 = at-eq-ok m.notes t.in2 e2;
        spend1 = spend-Spent t.in1 m spent1 e3;
        spend2 = spend-Spent t.in2 spent1 spent2 e4;
        output1 = record_note-Noted t.out1.owner keys1 t.out1.v note1.nf t.out1.rcm spent2 one e5;
        output2 = record_note-Noted t.out2.owner keys2 t.out2.v note2.nf t.out2.rcm one two e6;
        settled = settle-Settled t _ _ _ _ _ two m' k8;
      }
