-- ===== src/Rag/Metrics/Windows.antt =====
-- What the windows and the counters of app/services/rag_metrics_service.py hold after any sequence
-- of recordings.
use enterprise_rag.Prelude.{
  ℕ, zero, suc, ◌+◌, ◌-◌, ◌≤◌, String, ◌≡◌, refl, ap, ◌∙◌, sym, Bool, Option, none, some, List, [],
  ◌∷◌, ◌++◌, length, take, arith, str_eq, eq_iff, if◌then◌else◌, Bool-cases, inl, inr,
  length-append,
}
use std.Path.{fun_ext}
use enterprise_rag.Prelude.Int.{ℤ, pos, negsuc, pos_part}
use enterprise_rag.Rag.Metrics.{
  drop, append, TimedSample, CragSample, ReflectionSample, BypassCounts, MetricsState,
  fresh_metrics, ◌+ℤ◌, add_usage, count_bypass, record_rerank, record_semantic_cache_lookup,
  record_hyde_attempt, record_hyde_bypass, record_crag_outcome, record_crag_bypass,
  record_crag_shadow_decision, record_self_reflection_outcome, record_self_reflection_bypass,
  record_self_reflection_shadow_outcome,
}

-- One call of the service.
pub data Recording : Type 0 where
  reranked : (sample : TimedSample) (usage_tokens : Option ℤ) → Recording
  looked_up : (hit : Bool) → Recording
  expanded : (sample : TimedSample) (usage_tokens : ℤ) → Recording
  expansion_bypassed : (reason : String) → Recording
  corrected : (sample : CragSample) (usage_tokens : ℤ) → Recording
  correction_bypassed : (reason : String) → Recording
  shadow_corrected : (sample : CragSample) (evidence_count : ℕ) (usage_tokens : ℤ) → Recording
  reflected : (sample : ReflectionSample) (usage_tokens : ℤ) → Recording
  reflection_bypassed : (reason : String) → Recording
  shadow_reflected : (sample : ReflectionSample) (usage_tokens : ℤ) → Recording

abbrev pub reverse : {A : Type 0} → List A → List A
reverse [] = []
reverse (x ∷ xs) = reverse xs ++ x ∷ []

-- What the recordings of one kind carry, newest first.
abbrev pub collect : {A : Type 0} → (Recording → Option A) → List Recording → List A
collect of [] = []
collect of (e ∷ older) = elim (of e) [ none ↦ collect of older | some a ↦ a ∷ collect of older ]

abbrev pub total : List ℕ → ℕ
total [] = 0
total (n ∷ ns) = total ns + n

abbrev pub total_ℤ : List ℤ → ℤ
total_ℤ [] = pos 0
total_ℤ (n ∷ ns) = total_ℤ ns +ℤ n

abbrev pub occurrences : List String → BypassCounts
occurrences [] reason = 0
occurrences (x ∷ xs) reason =
    if str_eq reason x then occurrences xs reason + 1 else occurrences xs reason

abbrev pub hits : List Bool → ℕ
hits [] = 0
hits (hit ∷ older) = hits older + (if hit then 1 else 0)

module _ (window_size : ℕ) where
  pub perform : Recording → MetricsState → MetricsState
  perform (reranked sample tokens) = record_rerank window_size sample tokens
  perform (looked_up hit) = record_semantic_cache_lookup window_size hit
  perform (expanded sample tokens) = record_hyde_attempt window_size sample tokens
  perform (expansion_bypassed reason) = record_hyde_bypass window_size reason
  perform (corrected sample tokens) = record_crag_outcome window_size sample tokens
  perform (correction_bypassed reason) = record_crag_bypass window_size reason
  perform (shadow_corrected sample evidence_count tokens) =
      record_crag_shadow_decision window_size sample evidence_count tokens
  perform (reflected sample tokens) = record_self_reflection_outcome window_size sample tokens
  perform (reflection_bypassed reason) = record_self_reflection_bypass window_size reason
  perform (shadow_reflected sample tokens) =
      record_self_reflection_shadow_outcome window_size sample tokens

  -- The recordings are listed newest first.
  pub run : List Recording → MetricsState
  run [] = fresh_metrics
  run (e ∷ older) = perform e (run older)

  -- The newest samples, oldest first.
  abbrev pub newest : {A : Type 0} → List A → List A
  newest samples = reverse (take window_size samples)

abbrev reranks : Recording → Option TimedSample
reranks (reranked sample tokens) = some sample
reranks _ = none

abbrev rerank_usages : Recording → Option ℤ
rerank_usages (reranked sample tokens) = tokens
rerank_usages _ = none

abbrev lookups : Recording → Option Bool
lookups (looked_up hit) = some hit
lookups _ = none

abbrev expansions : Recording → Option TimedSample
expansions (expanded sample tokens) = some sample
expansions _ = none

abbrev expansion_usages : Recording → Option ℕ
expansion_usages (expanded sample tokens) = some (pos_part tokens)
expansion_usages _ = none

abbrev expansion_bypasses : Recording → Option String
expansion_bypasses (expansion_bypassed reason) = some reason
expansion_bypasses _ = none

abbrev corrections : Recording → Option CragSample
corrections (corrected sample tokens) = some sample
corrections _ = none

abbrev correction_usages : Recording → Option ℕ
correction_usages (corrected sample tokens) = some (pos_part tokens)
correction_usages _ = none

abbrev correction_bypasses : Recording → Option String
correction_bypasses (correction_bypassed reason) = some reason
correction_bypasses _ = none

abbrev shadow_corrections : Recording → Option CragSample
shadow_corrections (shadow_corrected sample evidence_count tokens) = some sample
shadow_corrections _ = none

abbrev shadow_correction_usages : Recording → Option ℕ
shadow_correction_usages (shadow_corrected sample evidence_count tokens) = some (pos_part tokens)
shadow_correction_usages _ = none

abbrev reflections : Recording → Option ReflectionSample
reflections (reflected sample tokens) = some sample
reflections _ = none

abbrev reflection_usages : Recording → Option ℕ
reflection_usages (reflected sample tokens) = some (pos_part tokens)
reflection_usages _ = none

abbrev reflection_bypasses : Recording → Option String
reflection_bypasses (reflection_bypassed reason) = some reason
reflection_bypasses _ = none

abbrev shadow_reflections : Recording → Option ReflectionSample
shadow_reflections (shadow_reflected sample tokens) = some sample
shadow_reflections _ = none

abbrev shadow_reflection_usages : Recording → Option ℕ
shadow_reflection_usages (shadow_reflected sample tokens) = some (pos_part tokens)
shadow_reflection_usages _ = none

-- The state that the history describes: every window holds the newest samples of its own kind,
-- every counter counts all of its own kind.
abbrev pub described : ℕ → List Recording → MetricsState
described w es = record {
  rerank_samples = newest w (collect reranks es);
  voyage_tokens_total = total_ℤ (collect rerank_usages es);
  semantic_lookups = length (collect lookups es);
  semantic_hits = hits (collect lookups es);
  hyde_samples = newest w (collect expansions es);
  hyde_usage_tokens_total = total (collect expansion_usages es);
  hyde_bypass_counts = occurrences (collect expansion_bypasses es);
  crag_samples = newest w (collect corrections es);
  crag_usage_tokens_total = total (collect correction_usages es);
  crag_bypass_counts = occurrences (collect correction_bypasses es);
  crag_shadow_samples = newest w (collect shadow_corrections es);
  crag_shadow_usage_tokens_total = total (collect shadow_correction_usages es);
  reflection_samples = newest w (collect reflections es);
  reflection_usage_tokens_total = total (collect reflection_usages es);
  reflection_bypass_counts = occurrences (collect reflection_bypasses es);
  reflection_shadow_samples = newest w (collect shadow_reflections es);
  reflection_shadow_usage_tokens_total = total (collect shadow_reflection_usages es);
}

length-reverse : {A : Type 0} (xs : List A) → length (reverse xs) ≡ length xs
length-reverse [] = refl
length-reverse (x ∷ xs) = omega (arith, length-append (reverse xs) (x ∷ []), length-reverse xs)

drop_all : {A : Type 0} (n : ℕ) (xs : List A) → length xs ≤ n → ◌≡◌ {A = List A} (drop n xs) []
drop_all zero [] h = refl
drop_all (suc n) [] h = refl
drop_all zero (x ∷ xs) h = elim h [ ]
drop_all (suc n) (x ∷ xs) h = drop_all n xs (omega arith)

drop-append :
    {A : Type 0} (n : ℕ) (xs ys : List A)
    → n ≤ length xs
    → ◌≡◌ {A = List A} (drop n (xs ++ ys)) (drop n xs ++ ys)
drop-append zero xs ys h = refl
drop-append (suc n) [] ys h = elim h [ ]
drop-append (suc n) (x ∷ xs) ys h = drop-append n xs ys (omega arith)

-- Dropping what is over the bound from the old end keeps the newest.
drop-reverse :
    {A : Type 0} (k m : ℕ) (xs : List A)
    → k ≡ length xs - m
    → ◌≡◌ {A = List A} (drop k (reverse xs)) (reverse (take m xs))
drop-reverse k zero xs h = drop_all k (reverse xs) (omega (arith, length-reverse xs))
drop-reverse zero (suc m) [] h = refl
drop-reverse (suc k) (suc m) [] h = refl
drop-reverse k (suc m) (x ∷ xs) h =
    drop-append k (reverse xs) (x ∷ []) (omega (arith, length-reverse xs))
    ∙ ap (λ ys. ys ++ x ∷ []) (drop-reverse k m xs (omega arith))

take-take_suc :
    {A : Type 0} (n m : ℕ) (xs : List A) → n ≤ m → ◌≡◌ {A = List A} (take n (take m xs)) (take n xs)
take-take_suc zero m xs h = refl
take-take_suc (suc n) zero xs h = elim h [ ]
take-take_suc (suc n) (suc m) [] h = refl
take-take_suc (suc n) (suc m) (x ∷ xs) h = ap (λ ys. x ∷ ys) (take-take_suc n m xs (omega arith))

take-cons-take :
    {A : Type 0} (n : ℕ) (x : A) (xs : List A)
    → ◌≡◌ {A = List A} (take n (x ∷ take n xs)) (take n (x ∷ xs))
take-cons-take zero x xs = refl
take-cons-take (suc n) x xs = ap (λ ys. x ∷ ys) (take-take_suc n (suc n) xs (omega arith))

append-newest :
    {A : Type 0} (w : ℕ) (x : A) (xs : List A) → append w (newest w xs) x ≡ newest w (x ∷ xs)
unfolding append
append-newest {A = A} w x xs =
    drop-reverse (length (reverse kept) - w) w kept (omega (arith, length-reverse kept))
    ∙ ap reverse (take-cons-take w x xs)
  where
    kept : List A
    kept = x ∷ take w xs

add_usage_lem :
    (usage : Option ℤ) (total_before : ℤ)
    → add_usage usage total_before ≡ elim usage [ none ↦ total_before | some n ↦ total_before +ℤ n ]
unfolding add_usage
add_usage_lem none t = refl
add_usage_lem (some (pos zero)) (pos n) = ground arith
add_usage_lem (some (pos zero)) (negsuc n) = ground arith
add_usage_lem (some (pos (suc n))) t = refl
add_usage_lem (some (negsuc n)) t = refl

count_bypass_lem :
    (reason : String) (reasons : List String)
    → count_bypass reason (occurrences reasons) ≡ occurrences (reason ∷ reasons)
unfolding count_bypass
count_bypass_lem reason reasons = fun_ext (λ r. elim (Bool-cases (str_eq r reason)) [
  | inl e ↦ rw e (ap (λ x. occurrences reasons x + 1) (sym ((eq_iff r reason).0 e)))
  | inr e ↦ rw e refl
])

perform-described :
    (w : ℕ) (e : Recording) (es : List Recording)
    → perform w e (described w es) ≡ described w (e ∷ es)
unfolding perform record_rerank record_semantic_cache_lookup record_hyde_attempt record_hyde_bypass
    record_crag_outcome record_crag_bypass record_crag_shadow_decision
    record_self_reflection_outcome record_self_reflection_bypass
    record_self_reflection_shadow_outcome add_usage
perform-described w (reranked sample none) es =
    rw (append-newest w sample (collect reranks es)) refl
perform-described w (reranked sample (some n)) es =
    rw
      (
        append-newest w sample (collect reranks es),
        add_usage_lem (some n) (total_ℤ (collect rerank_usages es)),
      )
      refl
perform-described w (looked_up hit) es =
    ap (λ n. record (described w (looked_up hit ∷ es)) { semantic_lookups = n }) (omega arith)
perform-described w (expanded sample tokens) es =
    rw (append-newest w sample (collect expansions es)) refl
perform-described w (expansion_bypassed reason) es =
    rw (count_bypass_lem reason (collect expansion_bypasses es)) refl
perform-described w (corrected sample tokens) es =
    rw (append-newest w sample (collect corrections es)) refl
perform-described w (correction_bypassed reason) es =
    rw (count_bypass_lem reason (collect correction_bypasses es)) refl
perform-described w (shadow_corrected sample evidence_count tokens) es =
    rw (append-newest w sample (collect shadow_corrections es)) refl
perform-described w (reflected sample tokens) es =
    rw (append-newest w sample (collect reflections es)) refl
perform-described w (reflection_bypassed reason) es =
    rw (count_bypass_lem reason (collect reflection_bypasses es)) refl
perform-described w (shadow_reflected sample tokens) es =
    rw (append-newest w sample (collect shadow_reflections es)) refl

-- After any sequence of recordings, every window holds exactly the newest samples of its own kind,
-- oldest first and at most `window_size` of them; every total is the sum over all recordings of its
-- kind, whatever fell out of the window; the lookups and hits are those recorded; and the count of
-- a bypass reason is the number of its own recordings. Served and shadow recordings never mix.
pub run-described :
    (window_size : ℕ) (es : List Recording) → run window_size es ≡ described window_size es
unfolding run
run-described zero [] = refl
run-described (suc n) [] = refl
run-described w (e ∷ es) = ap (perform w e) (run-described w es) ∙ perform-described w e es
