-- ===== src/Tests/Cache.antt =====
-- The cache service at concrete inputs.
use enterprise_rag.Prelude.{
  ◌+◌, any, String, ◌≡◌, refl, Option, none, some, [], ◌∷◌, str_eq, eq_iff, if◌then◌else◌,
}
use enterprise_rag.Errors.{ok}
use enterprise_rag.QueryCache.{
  CacheBackend, get_command, set_command, Store, CacheTier, embedding, rag_answer, intent, start,
  fresh_counters, QueryCacheService, same_tier, at_tier, add_hit, add_set, get, set, clear_tiers,
}
use enterprise_rag.QueryCache.RoundTrip.{Remembers, get-set}
use enterprise_rag.QueryCache.Counting.{
  lookup, write, run, answered, confirmed, run-counters, IsPurged, entries, names, clear_tiers_lem,
  cache_run,
}

-- A store in memory: the last value set under the key.
abbrev pub value_at : String → Store → Option String
value_at key [] = none
value_at key (command ∷ store) =
    let rest = value_at key store in
    elim command [ set_command k value ttl ↦ if str_eq k key then some value else rest | _ ↦ rest ]

abbrev pub memory_backend : CacheBackend
memory_backend = record {
  get = λ key store. (ok (value_at key store), get_command key ∷ store);
  set = λ key value ttl store. (ok tt, set_command key value ttl ∷ store);
  delete_prefix = λ prefix store. (ok 0, store);
}

pub memory_backend-Remembers : Remembers memory_backend
memory_backend-Remembers key value ttl store e = rw ((eq_iff key key).1 refl) refl

abbrev pub memory_cache : QueryCacheService
memory_cache = record { backend = memory_backend; ttl_for = λ tier. 3600 }

get-set_example :
    ((get memory_cache embedding "q" (set memory_cache embedding "q" "v" start).1).0
      ≡ ok (some "v"))
    × ((get memory_cache embedding "q" (set memory_cache embedding "q" "v" start).1).1.counters
        ≡ at_tier embedding add_hit (at_tier embedding add_set start.counters))
unfolding set
get-set_example = get-set memory_cache embedding "q" "v" start memory_backend-Remembers refl

run-counters_example :
    (((run memory_cache (write intent "q" "v" ∷ lookup intent "q" ∷ []) start).counters intent).hits
        + ((run memory_cache (write intent "q" "v" ∷ lookup intent "q" ∷ []) start).counters
            intent).misses
      ≡ 0 + 0 + answered memory_cache intent (write intent "q" "v" ∷ lookup intent "q" ∷ []) start)
    × (((run memory_cache (write intent "q" "v" ∷ lookup intent "q" ∷ []) start).counters
          intent).sets
        ≡ 0 + confirmed memory_cache intent (write intent "q" "v" ∷ lookup intent "q" ∷ []) start)
run-counters_example =
    run-counters memory_cache intent (write intent "q" "v" ∷ lookup intent "q" ∷ []) start

-- The tier is named twice.
clear_tiers_lem_example :
    IsPurged memory_cache
      (rag_answer ∷ rag_answer ∷ [])
      start.store
      (clear_tiers memory_cache (rag_answer ∷ rag_answer ∷ []) start).1.store
    × ((name : String)
        → entries name (("rag_answer", 0) ∷ [])
          ≡ (if names memory_cache (rag_answer ∷ rag_answer ∷ []) name then 1 else 0))
    × ((t : CacheTier)
        → (clear_tiers memory_cache (rag_answer ∷ rag_answer ∷ []) start).1.counters t ≡ (
            if any (λ tier. same_tier tier t) (rag_answer ∷ rag_answer ∷ [])
            then fresh_counters
            else start.counters t))
unfolding cache_run
clear_tiers_lem_example =
    clear_tiers_lem memory_cache (rag_answer ∷ rag_answer ∷ []) start (("rag_answer", 0) ∷ []) refl
