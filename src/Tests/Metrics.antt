-- ===== src/Tests/Metrics.antt =====
-- The metrics service at concrete inputs.
use enterprise_rag.Prelude.{◌≡◌, ◌⊎◌, ap, true, false, some, none, List, [], ◌∷◌}
use enterprise_rag.Prelude.Int.{pos, negsuc}
use enterprise_rag.Prelude.Float.{Float}
use enterprise_rag.Rag.Metrics.{TimedSample}
use enterprise_rag.Rag.Metrics.Stats.{one_half, ninety_five_percent, sorted_durations, percentile}
use enterprise_rag.Rag.Metrics.Stats.Percentiles.{HasLatencies, percentile_lem}
use enterprise_rag.Rag.Metrics.Windows.{
  Recording, reranked, looked_up, expanded, expansion_bypassed, run, described, run-described,
}

abbrev timed : Float → TimedSample
timed duration = record { duration_ms = duration; fallback = false }

-- Newest first; more reranks than the window holds.
abbrev history : List Recording
history =
    reranked (timed (pos 5)) (some (pos 30))
    ∷ expansion_bypassed "rollout"
    ∷ reranked (timed (pos 9)) none
    ∷ expanded (timed (pos 7)) (negsuc 3)
    ∷ looked_up true
    ∷ reranked (timed (pos 2)) (some (pos 12))
    ∷ []

run-described_example : run 2 history ≡ described 2 history
run-described_example = run-described 2 history

abbrev durations : List Float
durations = pos 5 ∷ pos 9 ∷ pos 2 ∷ []

percentile_lem_example :
    ((durations ≡ [])
      × (percentile (sorted_durations durations) one_half ≡ none)
      × (percentile (sorted_durations durations) ninety_five_percent ≡ none))
    ⊎ HasLatencies durations (sorted_durations durations)
percentile_lem_example = percentile_lem durations

newest_two : (run 2 history).rerank_samples ≡ timed (pos 9) ∷ timed (pos 5) ∷ []
newest_two = ap (λ m. m.rerank_samples) (run-described 2 history)
