-- ===== src/Rag/Metrics.antt =====
-- `RagMetricsService` of app/services/rag_metrics_service.py: the rolling windows of samples and
-- the counters. The lock makes each recording one step.
pub mod Stats
pub mod Windows
use enterprise_rag.Prelude.{
  ℕ, zero, suc, ◌+◌, ◌-◌, String, Bool, Option, none, some, List, [], ◌∷◌, ◌++◌, length, leb,
  str_eq, if◌then◌else◌,
}
use enterprise_rag.Prelude.Int.{ℤ, pos, negsuc, pos_part, neg_part}
use enterprise_rag.Prelude.Float.{Float}

abbrev pub drop {ℓ} : {A : Type ℓ} → ℕ → List A → List A
drop zero xs = xs
drop (suc n) [] = []
drop (suc n) (x ∷ xs) = drop n xs

-- `append` of a `deque(maxlen=window_size)`: what is over the bound goes from the old end.
pub append : {A : Type 0} → ℕ → List A → A → List A
append window_size samples x = drop (length (samples ++ x ∷ []) - window_size) (samples ++ x ∷ [])

-- `duration_ms` and `fallback`
pub record TimedSample : Type 0 where
  pub duration_ms : Float
  pub fallback : Bool

pub record CragSample : Type 0 where
  pub duration_ms : Float
  pub decision : Option String
  pub fallback : Bool
  pub abstain : Bool
  pub web_used : Bool

pub record ReflectionSample : Type 0 where
  pub duration_ms : Float
  pub final_action : String
  pub fallback : Bool
  pub iterations : ℕ
  pub additional_retrievals : ℕ

-- A dictionary of counts, read with `get(reason, 0)`.
abbrev pub BypassCounts : Type 0
BypassCounts = String → ℕ

pub record MetricsState : Type 0 where
  pub rerank_samples : List TimedSample
  pub voyage_tokens_total : ℤ
  pub semantic_lookups : ℕ
  pub semantic_hits : ℕ
  pub hyde_samples : List TimedSample
  pub hyde_usage_tokens_total : ℕ
  pub hyde_bypass_counts : BypassCounts
  pub crag_samples : List CragSample
  pub crag_usage_tokens_total : ℕ
  pub crag_bypass_counts : BypassCounts
  pub crag_shadow_samples : List CragSample
  pub crag_shadow_usage_tokens_total : ℕ
  pub reflection_samples : List ReflectionSample
  pub reflection_usage_tokens_total : ℕ
  pub reflection_bypass_counts : BypassCounts
  pub reflection_shadow_samples : List ReflectionSample
  pub reflection_shadow_usage_tokens_total : ℕ

-- `{"rollout": 0, "emergency_disabled": 0}`: every other reason also reads as none yet.
abbrev pub no_bypasses : BypassCounts
no_bypasses reason = 0

abbrev pub fresh_metrics : MetricsState
fresh_metrics = record {
  rerank_samples = [];
  voyage_tokens_total = pos 0;
  semantic_lookups = 0;
  semantic_hits = 0;
  hyde_samples = [];
  hyde_usage_tokens_total = 0;
  hyde_bypass_counts = no_bypasses;
  crag_samples = [];
  crag_usage_tokens_total = 0;
  crag_bypass_counts = no_bypasses;
  crag_shadow_samples = [];
  crag_shadow_usage_tokens_total = 0;
  reflection_samples = [];
  reflection_usage_tokens_total = 0;
  reflection_bypass_counts = no_bypasses;
  reflection_shadow_samples = [];
  reflection_shadow_usage_tokens_total = 0;
}

-- The integer that is `a - b`.
abbrev pub difference : ℕ → ℕ → ℤ
difference a b = if leb b a then pos (a - b) else negsuc (b - a - 1)

infix 60 ◌+ℤ◌
abbrev pub ◌+ℤ◌ : ℤ → ℤ → ℤ
a +ℤ b = difference (pos_part a + pos_part b) (neg_part a + neg_part b)

-- `if usage_tokens: self._voyage_tokens_total += usage_tokens`. Adding zero changes nothing.
pub add_usage : Option ℤ → ℤ → ℤ
add_usage none total = total
add_usage (some (pos zero)) total = total
add_usage (some (pos (suc n))) total = total +ℤ pos (suc n)
add_usage (some (negsuc n)) total = total +ℤ negsuc n

-- `counts[reason] = counts.get(reason, 0) + 1`
pub count_bypass : String → BypassCounts → BypassCounts
count_bypass reason counts other_reason =
    if str_eq other_reason reason then counts reason + 1 else counts other_reason

-- `max(usage_tokens, 0)` is the positive part.
module _ (window_size : ℕ) where
  pub record_rerank : TimedSample → Option ℤ → MetricsState → MetricsState
  record_rerank sample usage_tokens m = record m {
    rerank_samples = append window_size m.rerank_samples sample;
    voyage_tokens_total = add_usage usage_tokens m.voyage_tokens_total;
  }

  pub record_semantic_cache_lookup : Bool → MetricsState → MetricsState
  record_semantic_cache_lookup hit m = record m {
    semantic_lookups = m.semantic_lookups + 1;
    semantic_hits = m.semantic_hits + (if hit then 1 else 0);
  }

  pub record_hyde_attempt : TimedSample → ℤ → MetricsState → MetricsState
  record_hyde_attempt sample usage_tokens m = record m {
    hyde_samples = append window_size m.hyde_samples sample;
    hyde_usage_tokens_total = m.hyde_usage_tokens_total + pos_part usage_tokens;
  }

  pub record_hyde_bypass : String → MetricsState → MetricsState
  record_hyde_bypass reason m = record m {
    hyde_bypass_counts = count_bypass reason m.hyde_bypass_counts;
  }

  pub record_crag_outcome : CragSample → ℤ → MetricsState → MetricsState
  record_crag_outcome sample usage_tokens m = record m {
    crag_samples = append window_size m.crag_samples sample;
    crag_usage_tokens_total = m.crag_usage_tokens_total + pos_part usage_tokens;
  }

  pub record_crag_bypass : String → MetricsState → MetricsState
  record_crag_bypass reason m = record m {
    crag_bypass_counts = count_bypass reason m.crag_bypass_counts;
  }

  -- `evidence_count` is not used.
  pub record_crag_shadow_decision : CragSample → ℕ → ℤ → MetricsState → MetricsState
  record_crag_shadow_decision sample evidence_count usage_tokens m = record m {
    crag_shadow_samples = append window_size m.crag_shadow_samples sample;
    crag_shadow_usage_tokens_total = m.crag_shadow_usage_tokens_total + pos_part usage_tokens;
  }

  pub record_self_reflection_outcome : ReflectionSample → ℤ → MetricsState → MetricsState
  record_self_reflection_outcome sample usage_tokens m = record m {
    reflection_samples = append window_size m.reflection_samples sample;
    reflection_usage_tokens_total = m.reflection_usage_tokens_total + pos_part usage_tokens;
  }

  pub record_self_reflection_bypass : String → MetricsState → MetricsState
  record_self_reflection_bypass reason m = record m {
    reflection_bypass_counts = count_bypass reason m.reflection_bypass_counts;
  }

  pub record_self_reflection_shadow_outcome : ReflectionSample → ℤ → MetricsState → MetricsState
  record_self_reflection_shadow_outcome sample usage_tokens m = record m {
    reflection_shadow_samples = append window_size m.reflection_shadow_samples sample;
    reflection_shadow_usage_tokens_total =
        m.reflection_shadow_usage_tokens_total + pos_part usage_tokens;
  }
