-- ===== src/Rag/Metrics/Stats.antt =====
-- The snapshots of app/services/rag_metrics_service.py: `rerank_stats` and its kin, `_percentile`.
-- The divisions and the product with a fraction round to the nearest double, ties to even.
pub mod Percentiles
use enterprise_rag.Prelude.{
  ℕ, zero, suc, ◌+◌, ◌-◌, ◌*◌, ◌/◌, ◌%◌, ◌^◌, min, String, Bool, true, false, ◌&&◌, Option, none,
  some, List, [], ◌∷◌, length, map, filter, get_elem?, leb, ltb, ◌==◌, str_eq, if◌then◌else◌,
}
use enterprise_rag.Prelude.Int.{ℤ, pos}
use enterprise_rag.Prelude.Float.{Float, le, zero_float}
use enterprise_rag.Rag.Metrics.{TimedSample, CragSample, ReflectionSample, MetricsState}

-- `p / d` rounded to the nearest whole number.
abbrev pub round_half_even : ℕ → ℕ → ℕ
round_half_even p d = elim (ltb (2 * (p % d)) d) [
  | true ↦ p / d
  | false ↦ elim (ltb d (2 * (p % d))) [ true ↦ p / d + 1 | false ↦ p / d + (p / d) % 2 ]
]

-- The distance of the doubles around `p / q`, a power of two: 53 bits are kept.
abbrev pub spacing : ℕ → ℕ → ℕ → ℕ → ℕ
spacing zero p q d = d
spacing (suc fuel) p q d = elim (ltb p (2 ^ 53 * (d * q))) [
  | true ↦ d
  | false ↦ spacing fuel p q (2 * d)
]

-- The double nearest to `p / q`, all in multiples of 2^-1074. No finite double has a spacing above
-- 2^2045 of these.
abbrev pub nearest_double : ℕ → ℕ → ℕ
nearest_double p q = let d = spacing 2045 p q 1 in round_half_even p (d * q) * d

-- `a / b`
pub quotient : ℕ → ℕ → Float
quotient a b = pos (nearest_double (a * 2 ^ 1074) b)

-- `int(n * m * 2^-52)`
pub truncated_product : ℕ → ℕ → ℕ
truncated_product n m = nearest_double (n * m * 2 ^ 1022) 1 / 2 ^ 1074

-- 0.50 and 0.95, as multiples of 2^-52.
abbrev pub one_half : ℕ
one_half = 2 ^ 51

abbrev pub ninety_five_percent : ℕ
ninety_five_percent = 4278419646001971

-- `(count / attempts) if attempts else 0.0`
abbrev pub rate : ℕ → ℕ → Float
rate count attempts = if attempts == 0 then zero_float else quotient count attempts

-- `sorted(...)`
pub insert_duration : Float → List Float → List Float
insert_duration a [] = a ∷ []
insert_duration a (x ∷ xs) = if le a x then a ∷ x ∷ xs else x ∷ insert_duration a xs

pub sorted_durations : List Float → List Float
unfolding insert_duration
sorted_durations [] = []
sorted_durations (x ∷ xs) = insert_duration x (sorted_durations xs)

-- `_percentile`. The index is below the length, so an answer is given of every window with samples.
pub percentile : List Float → ℕ → Option Float
unfolding truncated_product
percentile [] fraction = none
percentile (x ∷ xs) fraction =
    get_elem? (x ∷ xs) (min (length (x ∷ xs) - 1) (truncated_product (length (x ∷ xs)) fraction))

abbrev pub count_if : {A : Type 0} → (A → Bool) → List A → ℕ
count_if p samples = length (filter p samples)

pub record RerankMetricsSnapshot : Type 0 where
  pub sample_count : ℕ
  pub p50_latency_ms : Option Float
  pub p95_latency_ms : Option Float
  pub fallback_rate : Float
  pub voyage_tokens_total : ℤ

pub rerank_stats : MetricsState → RerankMetricsSnapshot
unfolding sorted_durations percentile quotient
rerank_stats m =
    let durations = sorted_durations (map (λ s. s.duration_ms) m.rerank_samples) in
    let attempts = length m.rerank_samples in
    record {
      sample_count = attempts;
      p50_latency_ms = percentile durations one_half;
      p95_latency_ms = percentile durations ninety_five_percent;
      fallback_rate = rate (count_if (λ s. s.fallback) m.rerank_samples) attempts;
      voyage_tokens_total = m.voyage_tokens_total;
    }

pub record SemanticCacheMetricsSnapshot : Type 0 where
  pub lookups : ℕ
  pub hits : ℕ
  pub hit_rate : Float

pub semantic_cache_stats : MetricsState → SemanticCacheMetricsSnapshot
unfolding quotient
semantic_cache_stats m = record {
  lookups = m.semantic_lookups;
  hits = m.semantic_hits;
  hit_rate = rate m.semantic_hits m.semantic_lookups;
}

pub record HydeMetricsSnapshot : Type 0 where
  pub sample_count : ℕ
  pub p50_latency_ms : Option Float
  pub p95_latency_ms : Option Float
  pub fallback_rate : Float
  pub usage_tokens_total : ℕ
  pub rollout_bypasses : ℕ
  pub emergency_bypasses : ℕ

pub hyde_stats : MetricsState → HydeMetricsSnapshot
unfolding sorted_durations percentile quotient
hyde_stats m =
    let durations = sorted_durations (map (λ s. s.duration_ms) m.hyde_samples) in
    let attempts = length m.hyde_samples in
    record {
      sample_count = attempts;
      p50_latency_ms = percentile durations one_half;
      p95_latency_ms = percentile durations ninety_five_percent;
      fallback_rate = rate (count_if (λ s. s.fallback) m.hyde_samples) attempts;
      usage_tokens_total = m.hyde_usage_tokens_total;
      rollout_bypasses = m.hyde_bypass_counts "rollout";
      emergency_bypasses = m.hyde_bypass_counts "emergency_disabled";
    }

abbrev pub decided : String → CragSample → Bool
decided name s = elim s.decision [ none ↦ false | some decision ↦ str_eq decision name ]

pub record CragShadowMetricsSnapshot : Type 0 where
  pub sample_count : ℕ
  pub p50_latency_ms : Option Float
  pub p95_latency_ms : Option Float
  pub correct_count : ℕ
  pub ambiguous_count : ℕ
  pub incorrect_count : ℕ
  pub fallback_rate : Float
  pub abstention_rate : Float
  pub web_use_rate : Float
  pub usage_tokens_total : ℕ

-- The body that `crag_stats` and `crag_shadow_stats` share.
pub crag_figures : List CragSample → ℕ → CragShadowMetricsSnapshot
unfolding sorted_durations percentile quotient
crag_figures samples tokens =
    let durations = sorted_durations (map (λ s. s.duration_ms) samples) in
    let attempts = length samples in
    record {
      sample_count = attempts;
      p50_latency_ms = percentile durations one_half;
      p95_latency_ms = percentile durations ninety_five_percent;
      correct_count = count_if (decided "correct") samples;
      ambiguous_count = count_if (decided "ambiguous") samples;
      incorrect_count = count_if (decided "incorrect") samples;
      fallback_rate = rate (count_if (λ s. s.fallback) samples) attempts;
      abstention_rate = rate (count_if (λ s. s.abstain) samples) attempts;
      web_use_rate = rate (count_if (λ s. s.web_used) samples) attempts;
      usage_tokens_total = tokens;
    }

pub record CragMetricsSnapshot : Type 0 where
  pub figures : CragShadowMetricsSnapshot
  pub rollout_bypasses : ℕ
  pub emergency_bypasses : ℕ

pub crag_stats : MetricsState → CragMetricsSnapshot
unfolding crag_figures
crag_stats m = record {
  figures = crag_figures m.crag_samples m.crag_usage_tokens_total;
  rollout_bypasses = m.crag_bypass_counts "rollout";
  emergency_bypasses = m.crag_bypass_counts "emergency_disabled";
}

pub crag_shadow_stats : MetricsState → CragShadowMetricsSnapshot
unfolding crag_figures
crag_shadow_stats m = crag_figures m.crag_shadow_samples m.crag_shadow_usage_tokens_total

pub record SelfReflectionShadowMetricsSnapshot : Type 0 where
  pub sample_count : ℕ
  pub p50_latency_ms : Option Float
  pub p95_latency_ms : Option Float
  pub first_pass_acceptance_rate : Float
  pub revision_rate : Float
  pub additional_retrieval_rate : Float
  pub abstention_rate : Float
  pub fallback_rate : Float
  pub average_iterations : Float
  pub usage_tokens_total : ℕ

abbrev pub total_iterations : List ReflectionSample → ℕ
total_iterations [] = 0
total_iterations (s ∷ samples) = s.iterations + total_iterations samples

abbrev pub accepted_at_once : ReflectionSample → Bool
accepted_at_once s = str_eq s.final_action "accept" && leb s.iterations 1

-- The body that `self_reflection_stats` and `self_reflection_shadow_stats` share.
pub reflection_figures : List ReflectionSample → ℕ → SelfReflectionShadowMetricsSnapshot
unfolding sorted_durations percentile quotient
reflection_figures samples tokens =
    let durations = sorted_durations (map (λ s. s.duration_ms) samples) in
    let attempts = length samples in
    record {
      sample_count = attempts;
      p50_latency_ms = percentile durations one_half;
      p95_latency_ms = percentile durations ninety_five_percent;
      first_pass_acceptance_rate = rate (count_if accepted_at_once samples) attempts;
      revision_rate = rate (count_if (λ s. ltb 1 s.iterations) samples) attempts;
      additional_retrieval_rate =
          rate (count_if (λ s. ltb 0 s.additional_retrievals) samples) attempts;
      abstention_rate = rate (count_if (λ s. str_eq s.final_action "abstain") samples) attempts;
      fallback_rate = rate (count_if (λ s. s.fallback) samples) attempts;
      average_iterations = rate (total_iterations samples) attempts;
      usage_tokens_total = tokens;
    }

pub record SelfReflectionMetricsSnapshot : Type 0 where
  pub figures : SelfReflectionShadowMetricsSnapshot
  pub rollout_bypasses : ℕ
  pub emergency_bypasses : ℕ

pub self_reflection_stats : MetricsState → SelfReflectionMetricsSnapshot
unfolding reflection_figures
self_reflection_stats m = record {
  figures = reflection_figures m.reflection_samples m.reflection_usage_tokens_total;
  rollout_bypasses = m.reflection_bypass_counts "rollout";
  emergency_bypasses = m.reflection_bypass_counts "emergency_disabled";
}

pub self_reflection_shadow_stats : MetricsState → SelfReflectionShadowMetricsSnapshot
unfolding reflection_figures
self_reflection_shadow_stats m =
    reflection_figures m.reflection_shadow_samples m.reflection_shadow_usage_tokens_total
