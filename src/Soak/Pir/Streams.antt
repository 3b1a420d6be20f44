-- ===== src/Soak/Pir/Streams.antt =====
-- The wire form of words and the chain of the record stream, of soak/src/pir2.rs.
use shielded_ledger_hivemind.Common.{
  ℕ, ◌*◌, ◌%◌, ◌^◌, ◌<◌, ◌≡◌, ◌≢◌, ◌⊎◌, refl, ap, ap₂, arith, List, [], ◌∷◌, ◌++◌, length, All,
  some, ==_iff, inl, inr,
}
use shielded_ledger_hivemind.Adapter.Legacy.Messages.{Bytes, Bytes-discrete}
use shielded_ledger_hivemind.Soak.Scan.{le_value, u32_le}
use shielded_ledger_hivemind.Soak.Pir.Wire.{
  to_wire, chunk_words, from_wire, StreamChain, stream_new, stream_absorb,
}

abbrev pub IsWord : ℕ → Type 0
IsWord w = w < 2 ^ 32

chunk_words-to_wire : (words : List ℕ) → All IsWord words → chunk_words (to_wire words) ≡ words
unfolding to_wire chunk_words u32_le le_value
chunk_words-to_wire [] h = refl
chunk_words-to_wire (w ∷ words) h =
    let value : le_value (u32_le w) ≡ w = omega arith in
    ap₂ (λ z zs. z ∷ zs) value (chunk_words-to_wire words h.1)

length-to_wire : (words : List ℕ) → length (to_wire words) ≡ 4 * length words
unfolding to_wire u32_le
length-to_wire [] = refl
length-to_wire (w ∷ words) = omega (arith, length-to_wire words)

-- Words of 32 bits are read back from their wire form, which has four bytes for each.
pub from_wire-to_wire :
    (words : List ℕ)
    → All IsWord words
    → (from_wire (to_wire words) ≡ some words) × (length (to_wire words) ≡ 4 * length words)
unfolding from_wire
from_wire-to_wire words h =
    let size = length-to_wire words in
    (
      rw ((==_iff (length (to_wire words) % 4) 0).1 (omega arith))
          (ap some (chunk_words-to_wire words h)),
      size,
    )

-- Two texts with one digest.
abbrev pub Collides : (Bytes → Bytes) → Type 0
Collides sha256 = (a : Bytes) × (b : Bytes) × (a ≢ b) × (sha256 a ≡ sha256 b)

append_cancel : (a b x y : Bytes) → length a ≡ length b → a ++ x ≡ b ++ y → (a ≡ b) × (x ≡ y)
append_cancel [] [] x y len e = (refl, e)
append_cancel [] (w ∷ b) x y len e = absurd (omega arith)
append_cancel (w ∷ a) [] x y len e = absurd (omega arith)
append_cancel (w ∷ a) (z ∷ b) x y len e =
    let (front, back) = append_cancel a b x y (omega arith) (cc) in (cc, back)

module _ (sha256 : Bytes → Bytes) (digest_length : (x : Bytes) → length (sha256 x) ≡ 32) where
  unfoldable pub stream_all : StreamChain → List Bytes → StreamChain
  stream_all s [] = s
  stream_all s (r ∷ records) = stream_all (stream_absorb sha256 s r) records

  -- Streams that end in one chain started from it with the same records, or there is a collision.
  chain_binds :
      (xs ys : List Bytes) (s t : StreamChain)
      → length xs ≡ length ys
      → length s.chain ≡ 32
      → length t.chain ≡ 32
      → (stream_all s xs).chain ≡ (stream_all t ys).chain
      → ((s.chain ≡ t.chain) × (xs ≡ ys)) ⊎ Collides sha256
  unfolding stream_all stream_absorb
  chain_binds [] [] s t len ls lt e = inl (e, refl)
  chain_binds [] (y ∷ ys) s t len ls lt e = absurd (omega arith)
  chain_binds (x ∷ xs) [] s t len ls lt e = absurd (omega arith)
  chain_binds (x ∷ xs) (y ∷ ys) s t len ls lt e =
      elim (chain_binds xs ys (stream_absorb sha256 s x) (stream_absorb sha256 t y) (omega arith)
        (digest_length (s.chain ++ x)) (digest_length (t.chain ++ y)) e) [
          | inr collision ↦ inr collision
          | inl (digests, rest) ↦ elim (Bytes-discrete (s.chain ++ x) (t.chain ++ y)) [
            | no ne ↦ inr (s.chain ++ x, t.chain ++ y, ne, digests)
            | yes same ↦
                let (chain, first) = append_cancel s.chain t.chain x y (omega arith) same in
                inl (chain, cc)
          ]
        ]

  -- Two streams of as many records with one chain digest are the same records, or two texts with one
  -- digest are at hand, where digests have 32 bytes.
  pub stream_all-binds :
      (xs ys : List Bytes)
      → length xs ≡ length ys
      → (stream_all stream_new xs).chain ≡ (stream_all stream_new ys).chain
      → (xs ≡ ys) ⊎ Collides sha256
  stream_all-binds xs ys len e = elim (chain_binds xs ys stream_new stream_new len refl refl e) [
    | inl (_, same) ↦ inl same
    | inr collision ↦ inr collision
  ]
