-- ===== src/Ceremony/Params.antt =====
-- `split_pk` and `join_pk` of ceremony/src/params.rs.
use shielded_ledger_hivemind.Common.{List, length}
use shielded_ledger_hivemind.Ceremony.Transcript.{DeltaParams, FixedParams}

-- `ProvingKey` of arkworks, with the fields of its verifying key.
pub record ProvingKey (G1 G2 : Type 0) : Type 0 where
  pub alpha_g1 : G1
  pub vk_beta_g2 : G2
  pub gamma_g2 : G2
  pub vk_delta_g2 : G2
  pub gamma_abc_g1 : List G1
  pub beta_g1 : G1
  pub delta_g1 : G1
  pub a_query : List G1
  pub b_g1_query : List G1
  pub b_g2_query : List G2
  pub h_query : List G1
  pub l_query : List G1

module _ {G1 G2 : Type 0} where
  unfoldable pub split_pk : ProvingKey G1 G2 → FixedParams G1 G2 × DeltaParams G1 G2
  split_pk pk = (
    record {
      alpha_g1 = pk.alpha_g1;
      beta_g1 = pk.beta_g1;
      beta_g2 = pk.vk_beta_g2;
      gamma_g2 = pk.gamma_g2;
      gamma_abc_g1 = pk.gamma_abc_g1;
      a_query = pk.a_query;
      b_g1_query = pk.b_g1_query;
      b_g2_query = pk.b_g2_query;
      num_instance = length pk.gamma_abc_g1;
    },
    record {
      delta_g1 = pk.delta_g1;
      delta_g2 = pk.vk_delta_g2;
      h_query = pk.h_query;
      l_query = pk.l_query;
    },
  )

  unfoldable pub join_pk : FixedParams G1 G2 → DeltaParams G1 G2 → ProvingKey G1 G2
  join_pk fixed delta = record {
    alpha_g1 = fixed.alpha_g1;
    vk_beta_g2 = fixed.beta_g2;
    gamma_g2 = fixed.gamma_g2;
    vk_delta_g2 = delta.delta_g2;
    gamma_abc_g1 = fixed.gamma_abc_g1;
    beta_g1 = fixed.beta_g1;
    delta_g1 = delta.delta_g1;
    a_query = fixed.a_query;
    b_g1_query = fixed.b_g1_query;
    b_g2_query = fixed.b_g2_query;
    h_query = delta.h_query;
    l_query = delta.l_query;
  }
