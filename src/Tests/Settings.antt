-- ===== src/Tests/Settings.antt =====
-- The theorems on the rollout and on the settings.
use enterprise_rag.Prelude.{◌≡◌, ◌⊎◌, refl, Bool, true, arith}
use enterprise_rag.Prelude.Int.{pos}
use enterprise_rag.Errors.{ok, raised, value_error}
use enterprise_rag.Rollout.{sampled_in, bucket, from_bytes}
use enterprise_rag.Rollout.Cohorts.{sampled_in_mono, sampled_in_total}
use enterprise_rag.RuntimeConfig.{default_config, post_init}
use enterprise_rag.RuntimeConfig.Validity.{IsValid, post_init_total}
use enterprise_rag.Tests.World.{py}

-- The subject's bucket is 2000.
sampled_in_mono_example : sampled_in py "q" (pos 50) "crag:v1" ≡ ok true
unfolding sampled_in bucket from_bytes
sampled_in_mono_example =
    sampled_in_mono py "q" "crag:v1" (pos 21) (pos 50) (omega arith) (omega arith) refl

sampled_in_total_example : (b : Bool) × (sampled_in py "q" (pos 20) "crag:v1" ≡ ok b)
sampled_in_total_example = sampled_in_total py "q" "crag:v1" (pos 20) (omega arith, omega arith)

post_init_total_example :
    (IsValid default_config × (post_init default_config ≡ ok default_config))
    ⊎ ((¬ IsValid default_config) × (post_init default_config ≡ raised value_error))
post_init_total_example = post_init_total default_config
