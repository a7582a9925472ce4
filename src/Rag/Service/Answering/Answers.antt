-- ===== src/Rag/Service/Answering/Answers.antt =====
-- Pieces of `RAGService.answer` (app/rag_services/rag_service.py) that never raise.
use enterprise_rag.Prelude.{◌≡◌, refl, Bool, true, false, if◌then◌else◌}
use enterprise_rag.Errors.{
  Exception, Result, ok, raised, Returns, Action, pure, lift, and_then, ◌>>=◌, caught, try_except,
  Ensures,
}
use enterprise_rag.Crag.Types.{Calls as CragCalls}
use enterprise_rag.Guardrails.Audit.{Trail}
use enterprise_rag.Rag.World.{Calls, Call, Metric, ask, record_metric, on_calls, on_crag, on_trail}

-- A piece of the program that never raises.
unfoldable pub Answers : {H A : Type 0} → Action H A → Type 0
Answers {H = H} m = (h : H) → Returns (m h).0

pub pure-Answers : {A : Type 0} (H : Type 0) (a : A) → Answers {H = H} (pure a)
unfolding Answers
pure-Answers H a h = (a, refl)

pub lift-Answers : {A : Type 0} (H : Type 0) (r : Result A) → Returns r → Answers {H = H} (lift r)
unfolding Answers
lift-Answers H r k h = k

module _ {H A : Type 0} where
  pub if-Answers :
      (b : Bool) (m n : Action H A) → Answers m → Answers n → Answers (if b then m else n)
  if-Answers true m n km kn = km
  if-Answers false m n km kn = kn

  pub caught-Returns :
      (r : Result A) (handler : Exception → Action H A) (h : H)
      → ((e : Exception) → Answers (handler e))
      → Returns (caught r handler h).0
  unfolding Answers
  caught-Returns (ok a) handler h k = (a, refl)
  caught-Returns (raised e) handler h k = k e h

  pub try-Answers :
      (m : Action H A) (handler : Exception → Action H A)
      → ((e : Exception) → Answers (handler e))
      → Answers (try_except m handler)
  unfolding Answers
  try-Answers m handler k h = caught-Returns (m h).0 handler (m h).1 k

module _ {H A B : Type 0} where
  pub and_then-Returns :
      (r : Result A) (f : A → Action H B) (h : H)
      → Returns r
      → ((a : A) → Answers (f a))
      → Returns (and_then r f h).0
  unfolding Answers
  and_then-Returns (ok a) f h _ k = k a h
  and_then-Returns (raised e) f h (a, p) k = cc

  pub bind-Answers :
      (m : Action H A) (f : A → Action H B)
      → Answers m
      → ((a : A) → Answers (f a))
      → Answers (m >>= f)
  unfolding Answers
  bind-Answers m f km kf h = and_then-Returns (m h).0 f (m h).1 (km h) kf

module _ {A : Type 0} where
  pub on_calls-Answers : (m : Action Calls A) → Answers m → Answers (on_calls m)
  unfolding Answers
  on_calls-Answers m k w = k w.calls

  pub on_crag-Answers : (m : Action CragCalls A) → Answers m → Answers (on_crag m)
  unfolding Answers
  on_crag-Answers m k w = k w.crag

  pub on_trail-Answers : (m : Action Trail A) → Answers m → Answers (on_trail m)
  unfolding Answers
  on_trail-Answers m k w = k w.trail

  pub ask-Answers :
      (call : Call) (f : Calls → Result A)
      → ((calls : Calls) → Returns (f calls))
      → Answers (ask call f)
  unfolding Answers
  ask-Answers call f k calls = k calls

pub if-Ensures :
    {H A : Type 0} (P : A → Type 0) (b : Bool) (m n : Action H A) (h : H)
    → (b ≡ true → Ensures P (m h).0)
    → (b ≡ false → Ensures P (n h).0)
    → Ensures P ((if b then m else n) h).0
if-Ensures P true m n h km kn = km refl
if-Ensures P false m n h km kn = kn refl

module _ {H A B : Type 0} (Q : A → Type 0) where
  pub after-Returns :
      (r : Result A) (f : A → Action H B) (h : H)
      → Returns r
      → Ensures Q r
      → ((a : A) → Q a → Answers (f a))
      → Returns (and_then r f h).0
  unfolding Answers
  after-Returns (ok a) f h _ q k = k a q h
  after-Returns (raised e) f h (a, p) q k = cc

  -- What the first action returns may be relied on in the second.
  pub bind-Answers-Ensures :
      (m : Action H A) (f : A → Action H B)
      → Answers m
      → ((h : H) → Ensures Q (m h).0)
      → ((a : A) → Q a → Answers (f a))
      → Answers (m >>= f)
  unfolding Answers
  bind-Answers-Ensures m f km q kf h = after-Returns (m h).0 f (m h).1 (km h) (q h) kf

pub record_metric-Answers : (metric : Metric) → Answers (record_metric metric)
unfolding Answers
record_metric-Answers metric calls = (tt, refl)

pub ruleset answering = (
  pure-Answers, lift-Answers, if-Answers, try-Answers, bind-Answers, on_calls-Answers,
  on_crag-Answers, on_trail-Answers, ask-Answers, record_metric-Answers,
)
