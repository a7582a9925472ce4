-- ===== src/QueryCache/RoundTrip.antt =====
-- Reading back what was written, in app/services/query_cache_service.py.
use enterprise_rag.Prelude.{ℕ, String, ◌≡◌, refl, inl, inr, some}
use enterprise_rag.Errors.{ok, Result-cases}
use enterprise_rag.QueryCache.{
  CacheTier, Store, CacheBackend, CacheState, QueryCacheService, namespaced_key, at_tier, add_set,
  add_hit, get, set,
}

-- A value that the store took under a key is what it next has under that key.
abbrev pub Remembers : CacheBackend → Type 0
Remembers backend =
    (key value : String) (ttl : ℕ) (store : Store)
    → (backend.set key value ttl store).0 ≡ ok tt
    → (backend.get key (backend.set key value ttl store).1).0 ≡ ok (some value)

pub set-eq-ok :
    (s : QueryCacheService) (tier : CacheTier) (key value : String) (c : CacheState)
    → (set s tier key value c).0 ≡ ok tt
    → ((s.backend.set (namespaced_key tier key) value (s.ttl_for tier) c.store).0 ≡ ok tt)
      × ((set s tier key value c).1 ≡ record {
        store = (s.backend.set (namespaced_key tier key) value (s.ttl_for tier) c.store).1;
        counters = at_tier tier add_set c.counters;
      })
unfolding set
set-eq-ok s tier key value c e =
    elim (Result-cases (s.backend.set (namespaced_key tier key) value (s.ttl_for tier) c.store).0) [
      | inl (_, taken) ↦ (taken, rw taken refl)
      | inr (x, refused) ↦ absurd (let q = rw refused at e in cc)
    ]

-- A lookup that the store answers is a hit of its tier.
pub get-hit :
    (s : QueryCacheService) (tier : CacheTier) (key value : String) (c : CacheState)
    → (s.backend.get (namespaced_key tier key) c.store).0 ≡ ok (some value)
    → get s tier key c ≡ (
      ok (some value),
      record {
        store = (s.backend.get (namespaced_key tier key) c.store).1;
        counters = at_tier tier add_hit c.counters;
      },
    )
unfolding get
get-hit s tier key value c e = rw e refl

-- Over a store that remembers, a value whose write was confirmed is read back by the next lookup
-- of the same key in the same tier, and the write and the lookup are each counted once.
pub get-set :
    (s : QueryCacheService) (tier : CacheTier) (key value : String) (c : CacheState)
    → Remembers s.backend
    → (set s tier key value c).0 ≡ ok tt
    → ((get s tier key (set s tier key value c).1).0 ≡ ok (some value))
      × ((get s tier key (set s tier key value c).1).1.counters
          ≡ at_tier tier add_hit (at_tier tier add_set c.counters))
get-set s tier key value c remembers e =
    let (taken, after) = set-eq-ok s tier key value c e in
    let hit =
      get-hit s tier key value
        (record {
          store = (s.backend.set (namespaced_key tier key) value (s.ttl_for tier) c.store).1;
          counters = at_tier tier add_set c.counters;
        })
        (remembers (namespaced_key tier key) value (s.ttl_for tier) c.store taken) in
    rw after (rw hit (refl, refl))
