-- ===== src/RateLimiter.antt =====
-- `InMemorySlidingWindowRateLimiter` of app/core/security/rate_limiter.py. A reading of the
-- monotonic clock is a number of ticks. A call reads the clock, and then takes the lock: what it does
-- under the lock is one step, with the reading as an argument, and the steps may come in another order
-- than the readings.
pub mod Window
use enterprise_rag.Prelude.{
  ℕ, ◌+◌, ◌-◌, String, Bool, true, false, ◌&&◌, List, [], ◌∷◌, ◌++◌ as append, length, leb, ltb,
  str_eq, if◌then◌else◌,
}
use enterprise_rag.Errors.{Result, ok, raised, index_error}

-- `while hits and hits[0] < cutoff: hits.popleft()`, with `cutoff = now - window_seconds`. A hit is
-- before the cutoff when it is a whole window before now.
pub popleft_stale : ℕ → ℕ → List ℕ → List ℕ
popleft_stale now window [] = []
popleft_stale now window (hit ∷ hits) =
    let rest = popleft_stale now window hits in if ltb (hit + window) now then rest else hit ∷ hits

-- `hits[0] + window_seconds`
pub reset_at : ℕ → List ℕ → Result ℕ
reset_at window [] = raised index_error
reset_at window (hit ∷ hits) = ok (hit + window)

pub record Verdict : Type 0 where
  pub allowed : Bool
  pub remaining : ℕ
  pub resets : ℕ

abbrev pub with_reset : Bool → ℕ → Result ℕ → Result Verdict
with_reset allowed remaining (ok t) =
    ok (record { allowed = allowed; remaining = remaining; resets = t })
with_reset allowed remaining (raised e) = raised e

-- What `is_allowed` does under the lock with the hits of one bucket, in the order in which they were
-- taken, once it has read the clock: its result, and the hits after.
pub is_allowed : ℕ → ℕ → ℕ → List ℕ → Result Verdict × List ℕ
is_allowed limit window now hits =
    let live = popleft_stale now window hits in
    if leb limit (length live) then (with_reset false 0 (reset_at window live), live) else (
      with_reset true (limit - length (append live (now ∷ [])))
          (reset_at window (append live (now ∷ []))),
      append live (now ∷ []),
    )
