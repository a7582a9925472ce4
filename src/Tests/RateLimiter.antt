-- ===== src/Tests/RateLimiter.antt =====
-- The rate limiter with two requests in ten ticks.
use enterprise_rag.Prelude.{◌≤◌, [], ◌∷◌, arith}
use enterprise_rag.RateLimiter.Window.{count, within, admitted, admitted-within}

-- The call with the reading 8 was handled after the one with the reading 9.
admitted-within_example : count (within 3 9) (admitted 2 10 (14 ∷ 8 ∷ 9 ∷ 3 ∷ [])) ≤ 2
admitted-within_example = admitted-within 2 10 1 9 3 (14 ∷ 8 ∷ 9 ∷ 3 ∷ []) (omega arith) (
  (omega arith, (omega arith, (omega arith, tt))),
  ((omega arith, (omega arith, tt)), ((omega arith, tt), (tt, tt))),
)
