-- ===== src/Circuit/Hash.antt =====
-- Hashing in circuit/common/src/lib.rs: `hash_n`, the note derivations and `merkle_compress`. The
-- Poseidon sponge and its two generated configurations belong to arkworks and are parameters.
use mathlib.Core.List.{foldl}
use shielded_ledger_hivemind.Common.{ℕ, List, [], ◌∷◌}
use shielded_ledger_hivemind.Circuit.Row.{Row}

-- `PoseidonSponge` over the scalar field `F` with states `S`: `new_note` and `new_tree` are
-- `PoseidonSponge::new` at `poseidon_config()` and at `poseidon_config_tree()`, `set_state0` writes
-- the capacity lane `state[0]`, and `squeeze` is `squeeze_field_elements(1)[0]`.
pub record Poseidon (F S : Type 0) : Type 0 where
  pub of_u64 : ℕ → F
  pub new_note : S
  pub new_tree : S
  pub set_state0 : F → S → S
  pub absorb : F → S → S
  pub squeeze : S → F

abbrev pub tag_pk : ℕ
tag_pk = 1

abbrev pub tag_nf : ℕ
tag_nf = 2

abbrev pub tag_cm : ℕ
tag_cm = 3

abbrev pub tag_merge : ℕ
tag_merge = 4

module _ {F S : Type 0} (P : Poseidon F S) where
  unfoldable pub hash_n : List F → F
  hash_n inputs = P.squeeze (foldl (λ sponge x. P.absorb x sponge) P.new_note inputs)

  unfoldable pub derive_pk : F → F
  derive_pk nk = hash_n (P.of_u64 tag_pk ∷ nk ∷ [])

  unfoldable pub derive_nf : F → F → F
  derive_nf nk rho = hash_n (P.of_u64 tag_nf ∷ nk ∷ rho ∷ [])

  unfoldable pub note_commitment : ℕ → F → F → F → F
  note_commitment v pk rho rcm = hash_n (P.of_u64 tag_cm ∷ P.of_u64 v ∷ pk ∷ rho ∷ rcm ∷ [])

  unfoldable pub merkle_compress : Row F → F
  merkle_compress c =
      let sponge = P.set_state0 (P.of_u64 tag_merge) P.new_tree in
      P.squeeze (P.absorb c.c3 (P.absorb c.c2 (P.absorb c.c1 (P.absorb c.c0 sponge))))

pub record Note (F : Type 0) : Type 0 where
  pub v : ℕ
  pub nk : F
  pub rho : F
  pub rcm : F

module _ {F S : Type 0} (P : Poseidon F S) where
  unfoldable pub pk : Note F → F
  pk n = derive_pk P n.nk

  unfoldable pub cm : Note F → F
  cm n = note_commitment P n.v (pk n) n.rho n.rcm

  unfoldable pub nf : Note F → F
  nf n = derive_nf P n.nk n.rho
