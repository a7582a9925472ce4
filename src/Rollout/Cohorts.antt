-- ===== src/Rollout/Cohorts.antt =====
use enterprise_rag.Prelude.{
  String, ◌≡◌, refl, Bool, true, false, ◌↔◌, ◌≢◌, ◌*◌, arith, ltb, ◌==◌, Bool-cases, inl, inr,
}
use enterprise_rag.Prelude.Int.{ℤ, pos, negsuc, ◌≤ℤ◌}
use enterprise_rag.Errors.{ok, raised, value_error}
use enterprise_rag.PyText.{PyText}
use enterprise_rag.Rollout.{sampled_in, bucket}

module _ (py : PyText) (subject salt : String) where
  -- Raising the percentage never takes a subject out of the rollout: whoever is sampled in at
  -- `p` percent is sampled in at every larger legal percentage.
  pub sampled_in_mono :
      (p q : ℤ)
      → p ≤ℤ q
      → q ≤ℤ pos 100
      → sampled_in py subject p salt ≡ ok true
      → sampled_in py subject q salt ≡ ok true
  unfolding sampled_in
  sampled_in_mono (negsuc p) q le top h = cc
  sampled_in_mono (pos p) (negsuc q) le top h = absurd (omega arith)
  sampled_in_mono (pos p) (pos q) le top h = ground arith

  -- `sampled_in` raises exactly on the percentages outside 0 to 100, it answers no to everyone
  -- at 0 and yes to everyone at 100.
  pub sampled_in_range :
      (p : ℤ)
      → (sampled_in py subject p salt ≢ raised value_error ↔ (pos 0 ≤ℤ p × p ≤ℤ pos 100))
        × (sampled_in py subject (pos 0) salt ≡ ok false)
        × (sampled_in py subject (pos 100) salt ≡ ok true)
  unfolding sampled_in
  sampled_in_range (negsuc p) = (((λ h. absurd (h refl)), (λ h. absurd (omega arith))), refl, refl)
  sampled_in_range (pos p) = (((λ h. ground arith), (λ h. ground arith)), refl, refl)

  -- A legal percentage has an answer.
  pub sampled_in_total :
      (p : ℤ) → (pos 0 ≤ℤ p) × (p ≤ℤ pos 100) → (b : Bool) × (sampled_in py subject p salt ≡ ok b)
  unfolding sampled_in
  sampled_in_total (negsuc p) h = absurd (omega arith)
  sampled_in_total (pos p) h = elim (Bool-cases (p == 0)) [
    | inl e ↦ (false, ground arith)
    | inr e ↦ elim (Bool-cases (p == 100)) [
      | inl f ↦ (true, ground arith)
      | inr f ↦ (ltb (bucket py subject salt) (p * 100), ground arith)
    ]
  ]
