-- ===== src/Soak/Pir/Appended.antt =====
-- Records appended one after another to a shard of soak/src/pir2.rs, and streamed to a client.
use mathlib.Core.List.{append_assoc, append-nil}
use shielded_ledger_hivemind.Common.{
  ℕ, ◌+◌, ◌-◌, ◌*◌, ◌≤◌, ◌<◌, ◌≡◌, refl, sym, ap, subst, ◌∙◌, arith, List, [], ◌∷◌, ◌++◌, length,
  length-append, ltb, lt→ltb, Option, none, some, All, some-injective, Bool-cases, inl, inr,
  replicate,
}
use shielded_ledger_hivemind.Adapter.Legacy.Messages.{Bytes}
use shielded_ledger_hivemind.Soak.Pir.{place, a_row, fold_record}
use shielded_ledger_hivemind.Soak.Pir.Server.{Shard, append, write_at}
use shielded_ledger_hivemind.Soak.Pir.Client.{ClientHint, absorb}
use shielded_ledger_hivemind.Soak.Pir.Vectors.{length-fold_record}
use shielded_ledger_hivemind.Soak.Pir.Places.{write_at_end, place_offset, capacity}
use shielded_ledger_hivemind.Soak.Pir.Shards.{IsRecord, concat, Holds, fold_record-product}

module _ (sha256 : Bytes → Bytes) where
  -- The records one after another; `none` where the shard is full.
  unfoldable pub append_all : Shard → List Bytes → Option Shard
  append_all s [] = some s
  append_all s (r ∷ records) = elim (append sha256 s r) [
    | none ↦ none
    | some t ↦ append_all t records
  ]

  unfoldable pub absorb_all : ClientHint → List Bytes → ClientHint
  absorb_all c [] = c
  absorb_all c (r ∷ records) = absorb_all (absorb sha256 c r) records

  -- The shard that `append` returns.
  abbrev appended : Shard → Bytes → Shard
  appended s new =
      let p = place s.geometry s.fill in
      record s {
        d = write_at (p.0 * s.geometry.m_rows + p.1) new s.d;
        h = fold_record (a_row sha256 s.index p.0) p.1 new s.h;
        fill = s.fill + 1;
      }

  append-eq-some :
      (s : Shard) (new : Bytes)
      → s.fill < s.geometry.shard_size
      → append sha256 s new ≡ some (appended s new)
  unfolding append
  append-eq-some s new room = rw (lt→ltb s.fill s.geometry.shard_size room) refl

  appended-Holds :
      (cells new : Bytes) (s : Shard)
      → Holds sha256 cells s
      → IsRecord new
      → s.fill < s.geometry.shard_size
      → Holds sha256 (cells ++ new) (appended s new)
  appended-Holds cells new s holds len room =
      let g = s.geometry in
      let total = length-append cells new in
      let space = capacity g holds.fits (s.fill + 1) (omega arith) in
      let left : g.m_rows * g.m_cols - length cells - length new
          ≡ g.m_rows * g.m_cols - length (cells ++ new) =
        omega arith in
      record {
        fits = holds.fits;
        size = omega arith;
        within = omega arith;
        database =
            ap (write_at ((place g s.fill).0 * g.m_rows + (place g s.fill).1) new) holds.database
            ∙ (write_at_end cells new (g.m_rows * g.m_cols - length cells) _
                  (place_offset g holds.fits s.fill ∙ sym holds.size) (omega arith)
                ∙ ap (λ n. (cells ++ new) ++ replicate n 0) left);
        hint_size = length-fold_record _ (place g s.fill).1 new s.h ∙ holds.hint_size;
        hint = λ r j lr lj.
            fold_record-product sha256 g holds.fits s.index s.fill cells new holds.size len s.h r j
              room holds.hint_size lr lj (holds.hint r j lr lj);
      }

  -- What is left of a shard by further records.
  pub record Grown (cells : Bytes) (n : ℕ) (s t : Shard) : Type 0 where
    pub holds : Holds sha256 cells t
    pub geometry : t.geometry ≡ s.geometry
    pub index : t.index ≡ s.index
    pub fill : t.fill ≡ s.fill + n

  pub append_all-Grown :
      (records : List Bytes) (cells : Bytes) (s : Shard)
      → Holds sha256 cells s
      → All IsRecord records
      → s.fill + length records ≤ s.geometry.shard_size
      → (t : Shard) × (append_all s records ≡ some t)
        × Grown (cells ++ concat records) (length records) s t
  unfolding append_all
  append_all-Grown [] cells s holds len room = (
    s,
    refl,
    record {
      holds = subst (λ c. Holds sha256 c s) (sym (append-nil cells)) holds;
      geometry = refl;
      index = refl;
      fill = omega arith;
    },
  )
  append_all-Grown (r ∷ records) cells s holds len room =
      let next = appended-Holds cells r s holds len.0 (omega arith) in
      let (t, done, grown) =
        append_all-Grown records (cells ++ r) (appended s r) next len.1 (omega arith) in
      (
        t,
        rw (append_all, append-eq-some s r (omega arith)) done,
        record {
          holds = subst (λ c. Holds sha256 c t) (append_assoc cells r (concat records)) grown.holds;
          geometry = grown.geometry;
          index = grown.index;
          fill = omega (arith, grown.fill);
        },
      )

  -- A client with the hint of a shard keeps it so.
  pub same_hint :
      (records : List Bytes) (c : ClientHint) (s t : Shard)
      → c.geometry ≡ s.geometry
      → c.shard ≡ s.index
      → c.fill ≡ s.fill
      → c.h ≡ s.h
      → append_all s records ≡ some t
      → (absorb_all c records).h ≡ t.h
  unfolding append_all absorb_all append absorb
  same_hint [] c s t g i n h done = h ∙ ap (λ (x : Shard). x.h) (some-injective done)
  same_hint (r ∷ records) c s t g i n h done =
      elim (Bool-cases (ltb s.fill s.geometry.shard_size)) [
        | inl room ↦
            same_hint records (absorb sha256 c r) (appended s r) t g i (omega arith)
              (cc (g, i, n, h)) (rw (append_all, append, room) at done)
        | inr full ↦ cc (rw (append_all, append, full) at done)
      ]
