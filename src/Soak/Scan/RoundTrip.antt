-- ===== src/Soak/Scan/RoundTrip.antt =====
-- Note ciphertexts of soak/src/prover.rs: what `encrypt_note` writes and `try_decrypt_note` reads.
use Prim.Native.Nat.{bit_xor}
use mathlib.Core.Logic.{if_pos}
use native.Mathlib.Decide.{ℕ_discrete}
use shielded_ledger_hivemind.Common.{
  subst, sym, false, if◌then◌else◌, ℕ, zero, suc, ◌+◌, ◌^◌, ◌≡◌, ◌<◌, ◌≤◌, refl, ap, ◌∙◌, arith,
  Bool, true, some, List, [], ◌∷◌, ◌++◌, length, take, drop, ◌==◌, ==_iff, All, All-append,
  length-append,
}
use shielded_ledger_hivemind.Adapter.Legacy.Messages.{Bytes, Bytes-discrete}
use shielded_ledger_hivemind.Soak.Wire.{Encoding}
use shielded_ledger_hivemind.Soak.Model.{AccountKeys}
use shielded_ledger_hivemind.Soak.Scan.{
  Opening, note_payload_len, tag_domain, u32_le, u64_le, le_value, xor_all, keystream,
  recognition_tag, try_decrypt_note, encrypt_note,
}
use shielded_ledger_hivemind.Soak.Scan.Stream.{length-take, length-keystream, keystream-All}

abbrev pub IsByte : ℕ → Type 0
IsByte x = x < 256

both : {a b : Bool} → (if a then b else false) ≡ true → (a ≡ true) × (b ≡ true)
both {a = true} h = (refl, h)
both {a = false} h = cc

-- Masking every byte up to `x` with the key `k` twice gives it back.
masks : ℕ → ℕ → Bool
masks k zero = bit_xor (bit_xor 0 k) k == 0
masks k (suc x) = if bit_xor (bit_xor (suc x) k) k == suc x then masks k x else false

masks_all : ℕ → Bool
masks_all zero = masks 0 255
masks_all (suc k) = if masks (suc k) 255 then masks_all k else false

masks_below : (k n x : ℕ) → masks k n ≡ true → x ≤ n → (bit_xor (bit_xor x k) k == x) ≡ true
unfolding masks
masks_below k zero zero h le = h
masks_below k zero (suc x) h le = absurd (omega (arith, le))
masks_below k (suc n) x h le = elim (ℕ_discrete x (suc n)) [
  | yes e ↦ subst (λ y. (bit_xor (bit_xor y k) k == y) ≡ true) (sym e) (both h).0
  | no ne ↦ masks_below k n x (both h).1 (omega (arith, le, ne))
]

masks_key : (m k : ℕ) → masks_all m ≡ true → k ≤ m → masks k 255 ≡ true
unfolding masks_all
masks_key zero zero h le = h
masks_key zero (suc k) h le = absurd (omega (arith, le))
masks_key (suc m) k h le = elim (ℕ_discrete k (suc m)) [
  | yes e ↦ subst (λ j. masks j 255 ≡ true) (sym e) (both h).0
  | no ne ↦ masks_key m k (both h).1 (omega (arith, le, ne))
]

every_mask : masks_all 255 ≡ true
unfolding masks masks_all
every_mask = refl

xor_twice : (x k : ℕ) → IsByte x → IsByte k → bit_xor (bit_xor x k) k ≡ x
xor_twice x k hx hk =
    (==_iff (bit_xor (bit_xor x k) k) x).0
      (masks_below k 255 x (masks_key 255 k every_mask (omega (arith, hk))) (omega (arith, hx)))

xor_all_twice :
    (xs ks : Bytes)
    → All IsByte xs
    → All IsByte ks
    → length xs ≤ length ks
    → xor_all (xor_all xs ks) ks ≡ xs
unfolding xor_all
xor_all_twice [] ks hx hk le = refl
xor_all_twice (x ∷ xs) [] hx hk le = absurd (omega (arith, le))
xor_all_twice (x ∷ xs) (k ∷ ks) hx hk le =
    cc (xor_twice x k hx.0 hk.0, xor_all_twice xs ks hx.1 hk.1 (omega (arith, le)))

length-xor_all : (xs ks : Bytes) → length xs ≤ length ks → length (xor_all xs ks) ≡ length xs
unfolding xor_all
length-xor_all [] ks le = refl
length-xor_all (x ∷ xs) [] le = absurd (omega (arith, le))
length-xor_all (x ∷ xs) (k ∷ ks) le = omega (arith, length-xor_all xs ks (omega (arith, le)))

take-append : {A : Type 0} (n : ℕ) (xs ys : List A) → length xs ≡ n → take n (xs ++ ys) ≡ xs
take-append zero [] ys h = refl
take-append zero (x ∷ xs) ys h = absurd (omega (arith, h))
take-append (suc n) [] ys h = absurd (omega (arith, h))
take-append (suc n) (x ∷ xs) ys h = ap (λ l. x ∷ l) (take-append n xs ys (omega (arith, h)))

take_all : {A : Type 0} (xs : List A) (n : ℕ) → length xs ≡ n → take n xs ≡ xs
take_all [] zero h = refl
take_all [] (suc n) h = refl
take_all (x ∷ xs) zero h = absurd (omega (arith, h))
take_all (x ∷ xs) (suc n) h = ap (λ l. x ∷ l) (take_all xs n (omega (arith, h)))

suc_plus : (n m : ℕ) → suc n + m ≡ suc (n + m)
suc_plus n m = omega arith

drop-append :
    {A : Type 0} (n m : ℕ) (xs ys : List A) → length xs ≡ n → drop (n + m) (xs ++ ys) ≡ drop m ys
drop-append zero m [] ys h = ap (λ k. drop k ys) (omega arith)
drop-append zero m (x ∷ xs) ys h = absurd (omega (arith, h))
drop-append (suc n) m [] ys h = absurd (omega (arith, h))
drop-append (suc n) m (x ∷ xs) ys h =
    ap (λ k. drop k (x ∷ (xs ++ ys))) (suc_plus n m) ∙ drop-append n m xs ys (omega (arith, h))

le_value-u64_le : (v : ℕ) → v < 2 ^ 64 → le_value (u64_le v) ≡ v
unfolding le_value u64_le u32_le
le_value-u64_le v h = omega arith

u64_le-All : (v : ℕ) → All IsByte (u64_le v)
unfolding u64_le u32_le
u64_le-All v = (
  omega arith,
  (
    omega arith,
    (omega arith, (omega arith, (omega arith, (omega arith, (omega arith, (omega arith, tt)))))),
  ),
)

-- Digests and encodings of field elements are 32 bytes, as of SHA-256 and of `f_bytes`.
module _ {F : Type 0} (E : Encoding F) (sha256 : Bytes → Bytes)
    (digest_length : (x : Bytes) → length (sha256 x) ≡ 32)
    (digest_bytes : (x : Bytes) → All IsByte (sha256 x))
    (encoded_length : (x : F) → length (E.f_bytes x) ≡ 32)
    (encoded_bytes : (x : F) → All IsByte (E.f_bytes x)) where
  length-recognition_tag : (scan_key eph : Bytes) → length (recognition_tag sha256 scan_key eph) ≡ 8
  unfolding recognition_tag
  length-recognition_tag scan_key eph =
      length-take 8 (sha256 (tag_domain ++ (scan_key ++ eph)))
        (omega (arith, digest_length (tag_domain ++ (scan_key ++ eph))))

  abbrev payload : ℕ → F → F → F → Bytes
  payload v rho rcm pk = u64_le v ++ (E.f_bytes rho ++ (E.f_bytes rcm ++ E.f_bytes pk))

  length-u64_le : (v : ℕ) → length (u64_le v) ≡ 8
  unfolding u64_le u32_le
  length-u64_le v = refl

  length-payload : (v : ℕ) (rho rcm pk : F) → length (payload v rho rcm pk) ≡ 104
  length-payload v rho rcm pk = omega (
    arith,
    length-append (u64_le v) (E.f_bytes rho ++ (E.f_bytes rcm ++ E.f_bytes pk)),
    length-append (E.f_bytes rho) (E.f_bytes rcm ++ E.f_bytes pk),
    length-append (E.f_bytes rcm) (E.f_bytes pk),
    length-u64_le v,
    encoded_length rho,
    encoded_length rcm,
    encoded_length pk,
  )

  payload-All : (v : ℕ) (rho rcm pk : F) → All IsByte (payload v rho rcm pk)
  payload-All v rho rcm pk =
      All-append IsByte (u64_le v) (E.f_bytes rho ++ (E.f_bytes rcm ++ E.f_bytes pk)) (u64_le-All v)
        (All-append IsByte (E.f_bytes rho) (E.f_bytes rcm ++ E.f_bytes pk) (encoded_bytes rho)
          (All-append IsByte (E.f_bytes rcm) (E.f_bytes pk) (encoded_bytes rcm) (encoded_bytes pk)))

  -- The opening that the four fields of a payload make.
  abbrev read_opening : Bytes → Opening
  read_opening plain = record {
    v = le_value (take 8 plain);
    rho = take 32 (drop 8 plain);
    rcm = take 32 (drop 40 plain);
    pk = take 32 (drop 72 plain);
  }

  abbrev opening : ℕ → F → F → F → Opening
  opening v rho rcm pk = record {
    v = v;
    rho = E.f_bytes rho;
    rcm = E.f_bytes rcm;
    pk = E.f_bytes pk;
  }

  read_opening-payload :
      (v : ℕ) (rho rcm pk : F)
      → v < 2 ^ 64
      → read_opening (payload v rho rcm pk) ≡ opening v rho rcm pk
  read_opening-payload v rho rcm pk small =
      let len = length-u64_le v in
      let tail = E.f_bytes rcm ++ E.f_bytes pk in
      let at_rho = drop-append 8 0 (u64_le v) (E.f_bytes rho ++ tail) len in
      let at_rcm =
        drop-append 8 32 (u64_le v) (E.f_bytes rho ++ tail) len
        ∙ drop-append 32 0 (E.f_bytes rho) tail (encoded_length rho) in
      let at_pk =
        drop-append 8 64 (u64_le v) (E.f_bytes rho ++ tail) len
        ∙ (drop-append 32 32 (E.f_bytes rho) tail (encoded_length rho)
            ∙ drop-append 32 0 (E.f_bytes rcm) (E.f_bytes pk) (encoded_length rcm)) in
      λ i. record {
        v =
            (ap le_value (take-append 8 (u64_le v) (E.f_bytes rho ++ tail) len)
                ∙ le_value-u64_le v small)
              i;
        rho = (ap (take 32) at_rho ∙ take-append 32 (E.f_bytes rho) tail (encoded_length rho)) i;
        rcm =
            (ap (take 32) at_rcm
                ∙ take-append 32 (E.f_bytes rcm) (E.f_bytes pk) (encoded_length rcm))
              i;
        pk = (ap (take 32) at_pk ∙ take_all (E.f_bytes pk) 32 (encoded_length pk)) i;
      }

  digest_some : (x : Bytes) → 0 < length (sha256 x)
  digest_some x = omega (arith, digest_length x)

  -- Where digests and the encodings of field elements are 32 bytes, the recipient's scan key reads from
  -- what `encrypt_note` writes, for a value below 2^64, that value and the encodings of rho, rcm and the
  -- recipient's key.
  pub try_decrypt_note-encrypt_note :
      (recipient : AccountKeys F) (v : ℕ) (rho rcm : F) (eph : Bytes)
      → v < 2 ^ 64
      → try_decrypt_note sha256 recipient.scan_key eph
          (encrypt_note sha256 E recipient v rho rcm eph)
        ≡ some (record {
          v = v;
          rho = E.f_bytes rho;
          rcm = E.f_bytes rcm;
          pk = E.f_bytes recipient.pk;
        })
  unfolding try_decrypt_note encrypt_note
  try_decrypt_note-encrypt_note recipient v rho rcm eph small =
      let tag = recognition_tag sha256 recipient.scan_key eph in
      let stream = keystream sha256 recipient.scan_key eph note_payload_len in
      let plain = payload v rho rcm recipient.pk in
      let body = xor_all plain stream in
      let tag_length = length-recognition_tag recipient.scan_key eph in
      let streamed : 104 ≤ length stream =
        omega (arith, length-keystream sha256 digest_some recipient.scan_key eph 104) in
      let fits : length plain ≤ length stream =
        omega (arith, length-payload v rho rcm recipient.pk, streamed) in
      let whole : length (tag ++ body) ≡ 112 = omega (
        arith,
        length-append tag body,
        length-xor_all plain stream fits,
        length-payload v rho rcm recipient.pk,
        tag_length,
      ) in
      let same_tag = take-append 8 tag body tag_length in
      let opened =
        ap (λ b. read_opening (xor_all b stream)) (drop-append 8 0 tag body tag_length)
        ∙ (ap read_opening (
              xor_all_twice plain stream (payload-All v rho rcm recipient.pk)
                (keystream-All sha256 IsByte digest_bytes recipient.scan_key eph 104) fits)
            ∙ read_opening-payload v rho rcm recipient.pk small) in
      rw
        (
          (==_iff (length (tag ++ body)) 112).1 whole,
          if_pos (Bytes-discrete (take 8 (tag ++ body)) tag) same_tag,
        )
        (ap some opened)
