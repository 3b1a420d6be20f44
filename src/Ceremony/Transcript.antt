-- ===== src/Ceremony/Transcript.antt =====
-- The public transcript of ceremony/src/transcript.rs, over any curve.
use Prim.Native.String.{String}
use shielded_ledger_hivemind.Common.{ℕ, Bool, List, Result}
use shielded_ledger_hivemind.Adapter.Legacy.Messages.{Bytes}

pub record DeltaParams (G1 G2 : Type 0) : Type 0 where
  pub delta_g1 : G1
  pub delta_g2 : G2
  pub h_query : List G1
  pub l_query : List G1

pub record FixedParams (G1 G2 : Type 0) : Type 0 where
  pub alpha_g1 : G1
  pub beta_g1 : G1
  pub beta_g2 : G2
  pub gamma_g2 : G2
  pub gamma_abc_g1 : List G1
  pub a_query : List G1
  pub b_g1_query : List G1
  pub b_g2_query : List G2
  pub num_instance : ℕ

pub record Pok (G1 G2 : Type 0) : Type 0 where
  pub s_g1 : G1
  pub s_delta_g1 : G1
  pub r_delta_g2 : G2

pub record CircuitContribution (G1 G2 : Type 0) : Type 0 where
  pub delta : DeltaParams G1 G2
  pub pok : Pok G1 G2

pub record Contribution (G1 G2 : Type 0) : Type 0 where
  pub contributor : Bytes
  pub timestamp : ℕ
  pub transfer : CircuitContribution G1 G2
  pub deposit : CircuitContribution G1 G2
  pub is_beacon : Bool
  pub beacon : Bytes

pub record Transcript (G1 G2 : Type 0) : Type 0 where
  pub power : ℕ
  pub srs_sha256 : Bytes
  pub transfer_fixed : FixedParams G1 G2
  pub deposit_fixed : FixedParams G1 G2
  pub transfer_initial : DeltaParams G1 G2
  pub deposit_initial : DeltaParams G1 G2
  pub contributions : List (Contribution G1 G2)
  pub finalized : Bool

-- The error texts, where `at` puts the number of a contribution in front, and the panic of an
-- `expect` or an exhausted source of randomness.
pub data Failure : Type 0 where
  refused : String → Failure
  in_contribution : ℕ → String → Failure → Failure
  panic : String → Failure

abbrev pub Outcome : Type 0 → Type 0
Outcome = Result Failure
