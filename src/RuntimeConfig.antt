-- ===== src/RuntimeConfig.antt =====
-- app/rag_services/rag_runtime_config.py: the snapshot of the settings that an administrator can
-- change at run time, its validation, and the store that replaces it as a whole.
pub mod Validity
use enterprise_rag.Prelude.{ℕ, String, Bool, true, false, not, ◌&&◌, ◌||◌, str_eq, if◌then◌else◌}
use enterprise_rag.Prelude.Int.{ℤ, pos, leb_ℤ}
use enterprise_rag.Prelude.Float.{Float, le, zero_float, one_float, fraction}
use enterprise_rag.Errors.{Result, ok, raised, value_error}

pub data RerankerBackendName : Type 0 where
  local voyage : RerankerBackendName

pub record RagRuntimeConfig : Type 0 where
  pub reranking_enabled : Bool
  pub reranker_backend : RerankerBackendName
  pub reranker_rollout_percentage : ℤ
  pub emergency_disabled : Bool
  pub semantic_cache_enabled : Bool
  pub semantic_cache_threshold : Float
  pub corpus_version : ℤ
  pub hyde_enabled : Bool
  pub hyde_rollout_percentage : ℤ
  pub crag_enabled : Bool
  pub crag_rollout_percentage : ℤ
  pub crag_web_enabled : Bool
  pub crag_shadow_enabled : Bool
  pub self_reflective_enabled : Bool
  pub self_reflective_rollout_percentage : ℤ
  pub self_reflective_shadow_enabled : Bool
  pub self_reflective_retrieval_enabled : Bool
  pub sql_enabled : Bool
  pub sql_rollout_percentage : ℤ
  pub sql_proposal_only : Bool
  pub guardrail_mode : String
  pub guardrail_policy_version : String
  pub safety_lockdown_enabled : Bool

-- `0 <= percentage <= 100`
abbrev pub in_percent : ℤ → Bool
in_percent p = leb_ℤ (pos 0) p && leb_ℤ p (pos 100)

-- `if test: raise ValueError(...)`, and what follows it.
unfoldable pub refuse_if {ℓ} : {A : Type ℓ} → Bool → Result A → Result A
refuse_if test rest = if test then raised value_error else rest

-- `__post_init__`: the object itself, or the `ValueError` of the first test that fails. A value
-- of the record above is a candidate; this is the constructor call of the source.
unfoldable pub post_init : RagRuntimeConfig → Result RagRuntimeConfig
post_init c =
    (refuse_if (not (in_percent c.reranker_rollout_percentage)) (
      refuse_if (not (in_percent c.hyde_rollout_percentage)) (
        refuse_if
          (not
            (le zero_float c.semantic_cache_threshold && le c.semantic_cache_threshold one_float))
          (refuse_if (not (leb_ℤ (pos 1) c.corpus_version)) (
            refuse_if (not (in_percent c.crag_rollout_percentage)) (
              refuse_if (c.crag_web_enabled && not c.crag_enabled) (
                refuse_if (c.crag_shadow_enabled && not c.crag_enabled) (
                  refuse_if (not (in_percent c.self_reflective_rollout_percentage)) (
                    refuse_if (c.self_reflective_shadow_enabled && not c.self_reflective_enabled) (
                      refuse_if
                        (c.self_reflective_retrieval_enabled && not c.self_reflective_enabled)
                        (refuse_if (not (in_percent c.sql_rollout_percentage)) (
                          refuse_if (not c.sql_proposal_only) (
                            refuse_if
                              (not (
                                str_eq c.guardrail_mode "enforce"
                                || str_eq c.guardrail_mode "monitor"))
                              (ok c))))))))))))))

-- `_DEFAULT_CONFIG`, the defaulted fields of the class included.
abbrev pub default_config : RagRuntimeConfig
default_config = record {
  reranking_enabled = false;
  reranker_backend = local;
  reranker_rollout_percentage = pos 100;
  emergency_disabled = false;
  semantic_cache_enabled = false;
  semantic_cache_threshold = fraction 8556839292003942;
  corpus_version = pos 1;
  hyde_enabled = false;
  hyde_rollout_percentage = pos 0;
  crag_enabled = false;
  crag_rollout_percentage = pos 0;
  crag_web_enabled = false;
  crag_shadow_enabled = false;
  self_reflective_enabled = false;
  self_reflective_rollout_percentage = pos 0;
  self_reflective_shadow_enabled = false;
  self_reflective_retrieval_enabled = false;
  sql_enabled = false;
  sql_rollout_percentage = pos 0;
  sql_proposal_only = true;
  guardrail_mode = "enforce";
  guardrail_policy_version = "guardrails-policy-v1";
  safety_lockdown_enabled = false;
}

-- The store holds one snapshot. The lock makes `replace` one step.
pub record RagRuntimeConfigStore : Type 0 where
  pub current : RagRuntimeConfig

unfoldable pub replace : RagRuntimeConfigStore → RagRuntimeConfig → RagRuntimeConfigStore
replace store config = record store { current = config }
