-- ===== src/Soak/Scan/Stream.antt =====
-- The keystream of soak/src/prover.rs.
use shielded_ledger_hivemind.Common.{
  ℕ, zero, suc, ◌+◌, ◌≡◌, ◌<◌, ◌≤◌, refl, arith, false, List, [], ◌∷◌, ◌++◌, length, take, ltb,
  Bool-cases, inl, inr, length-append, All, All-append,
}
use shielded_ledger_hivemind.Adapter.Legacy.Messages.{Bytes}
use shielded_ledger_hivemind.Soak.Scan.{keystream, keystream_rounds, u32_le, stream_domain}

pub length-take : {A : Type 0} (n : ℕ) (xs : List A) → n ≤ length xs → length (take n xs) ≡ n
length-take zero xs h = refl
length-take (suc n) [] h = grind arith
length-take (suc n) (x ∷ xs) h = omega (arith, length-take n xs (omega (arith, h)))

pub All-take : {A : Type 0} (Q : A → Type 0) (n : ℕ) (xs : List A) → All Q xs → All Q (take n xs)
All-take Q zero xs h = tt
All-take Q (suc n) [] h = tt
All-take Q (suc n) (x ∷ xs) h = (h.0, All-take Q n xs h.1)

not_lt : (a b : ℕ) → ltb a b ≡ false → b ≤ a
not_lt a b h = ground arith

module _ (sha256 : Bytes → Bytes) where
  -- Where every digest has bytes, as many rounds as bytes are wanted are enough.
  length-keystream_rounds :
      ((x : Bytes) → 0 < length (sha256 x))
      → (rounds : ℕ) (scan_key eph : Bytes) (len counter : ℕ) (out : Bytes)
      → len ≤ rounds + length out
      → length (keystream_rounds sha256 rounds scan_key eph len counter out) ≡ len
  unfolding keystream_rounds
  length-keystream_rounds digests zero scan_key eph len counter out h =
      length-take len out (omega (arith, h))
  length-keystream_rounds digests (suc rounds) scan_key eph len counter out h =
      let d = sha256 (stream_domain ++ (scan_key ++ (eph ++ u32_le counter))) in
      elim (Bool-cases (ltb (length out) len)) [
        | inl more ↦
            rw (keystream_rounds, more)
              (length-keystream_rounds digests rounds scan_key eph len (counter + 1) (out ++ d) (
                omega (
                  arith,
                  h,
                  length-append out d,
                  digests (stream_domain ++ (scan_key ++ (eph ++ u32_le counter))),
                )))
        | inr full ↦
            rw (keystream_rounds, full) (length-take len out (not_lt (length out) len full))
      ]

  pub length-keystream :
      ((x : Bytes) → 0 < length (sha256 x))
      → (scan_key eph : Bytes) (len : ℕ) → length (keystream sha256 scan_key eph len) ≡ len
  unfolding keystream
  length-keystream digests scan_key eph len =
      length-keystream_rounds digests len scan_key eph len 0 [] (omega arith)

  keystream_rounds-All :
      (Q : ℕ → Type 0)
      → ((x : Bytes) → All Q (sha256 x))
      → (rounds : ℕ) (scan_key eph : Bytes) (len counter : ℕ) (out : Bytes) → All Q out
      → All Q (keystream_rounds sha256 rounds scan_key eph len counter out)
  unfolding keystream_rounds
  keystream_rounds-All Q digests zero scan_key eph len counter out h = All-take Q len out h
  keystream_rounds-All Q digests (suc rounds) scan_key eph len counter out h =
      let d = sha256 (stream_domain ++ (scan_key ++ (eph ++ u32_le counter))) in
      elim (Bool-cases (ltb (length out) len)) [
        | inl more ↦
            rw (keystream_rounds, more)
              (keystream_rounds-All Q digests rounds scan_key eph len (counter + 1) (out ++ d) (
                All-append Q out d h
                  (digests (stream_domain ++ (scan_key ++ (eph ++ u32_le counter))))))
        | inr full ↦ rw (keystream_rounds, full) (All-take Q len out h)
      ]

  pub keystream-All :
      (Q : ℕ → Type 0)
      → ((x : Bytes) → All Q (sha256 x))
      → (scan_key eph : Bytes) (len : ℕ) → All Q (keystream sha256 scan_key eph len)
  unfolding keystream
  keystream-All Q digests scan_key eph len =
      keystream_rounds-All Q digests len scan_key eph len 0 [] tt
