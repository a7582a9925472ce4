-- ===== src/QueryCache.antt =====
-- app/services/query_cache_service.py: the cache in tiers, its counters, and the two backends. The
-- Redis client is a parameter; the lock makes the change of the counters one step.
pub mod Counting
pub mod RoundTrip
use Prim.Native.String.{◌++◌}
use enterprise_rag.Prelude.{
  str_eq, ℕ, suc, ◌+◌, String, Bool, true, false, Option, none, some, List, [], ◌∷◌, length,
  is_empty, ◌==◌, if◌then◌else◌,
}
use enterprise_rag.Prelude.Float.{Float, zero_float}
use enterprise_rag.Errors.{Action, pure, ◌>>=◌, ◌>>◌}

pub data CacheTier : Type 0 where
  embedding rag_answer sql_gen sql_result intent : CacheTier

-- `tier.value`
abbrev pub value_of : CacheTier → String
value_of embedding = "embedding"
value_of rag_answer = "rag_answer"
value_of sql_gen = "sql_gen"
value_of sql_result = "sql_result"
value_of intent = "intent"

abbrev pub same_tier : CacheTier → CacheTier → Bool
same_tier embedding embedding = true
same_tier rag_answer rag_answer = true
same_tier sql_gen sql_gen = true
same_tier sql_result sql_result = true
same_tier intent intent = true
same_tier _ _ = false

-- `list(CacheTier)`
abbrev pub all_tiers : List CacheTier
all_tiers = embedding ∷ rag_answer ∷ sql_gen ∷ sql_result ∷ intent ∷ []

-- What was asked of the store, newest first.
pub data Command : Type 0 where
  get_command : (key : String) → Command
  set_command : (key value : String) (ttl : ℕ) → Command
  keys_command : (pattern : String) → Command
  delete_command : (keys : List String) → Command

abbrev pub Store : Type 0
Store = List Command

pub record CacheBackend : Type 0 where
  pub get : String → Action Store (Option String)
  pub set : String → String → ℕ → Action Store (Unit {0})
  pub delete_prefix : String → Action Store ℕ

-- The client of `upstash_redis`: its answers may depend on every command given before.
pub record Redis : Type 0 where
  pub get : String → Action Store (Option String)
  pub set : String → String → ℕ → Action Store (Unit {0})
  pub keys : String → Action Store (List String)
  pub delete : List String → Action Store (Unit {0})

-- `if not keys: return 0`, and the deletion.
abbrev pub delete_keys : Redis → List String → Action Store ℕ
delete_keys redis keys = if is_empty keys then pure 0 else (redis.delete keys >> pure (length keys))

abbrev pub upstash_delete_prefix : Redis → String → Action Store ℕ
upstash_delete_prefix redis prefix = redis.keys (prefix ++ "*") >>= delete_keys redis

abbrev pub upstash_backend : Redis → CacheBackend
upstash_backend redis = record {
  get = λ key. redis.get key;
  set = λ key value ttl. redis.set key value ttl;
  delete_prefix = upstash_delete_prefix redis;
}

abbrev pub noop_backend : CacheBackend
noop_backend = record {
  get = λ key. pure none;
  set = λ key value ttl. pure tt;
  delete_prefix = λ prefix. pure 0;
}

pub record TierCounters : Type 0 where
  pub hits : ℕ
  pub misses : ℕ
  pub sets : ℕ

abbrev pub fresh_counters : TierCounters
fresh_counters = record { hits = 0; misses = 0; sets = 0 }

abbrev pub Counters : Type 0
Counters = CacheTier → TierCounters

abbrev pub add_hit : TierCounters → TierCounters
add_hit c = record c { hits = suc c.hits }

abbrev pub add_miss : TierCounters → TierCounters
add_miss c = record c { misses = suc c.misses }

abbrev pub add_set : TierCounters → TierCounters
add_set c = record c { sets = suc c.sets }

-- `self._counters[tier] = …`
abbrev pub at_tier : CacheTier → (TierCounters → TierCounters) → Counters → Counters
at_tier tier change counters t = if same_tier tier t then change (counters t) else counters t

-- The service's state: what its backend was asked, and its counters.
pub record CacheState : Type 0 where
  pub store : Store
  pub counters : Counters

abbrev pub start : CacheState
start = record { store = []; counters = λ tier. fresh_counters }

abbrev pub on_store : {A : Type 0} → Action Store A → Action CacheState A
on_store action state =
    let (r, store) = action state.store in (r, record { store = store; counters = state.counters })

abbrev pub count : CacheTier → (TierCounters → TierCounters) → Action CacheState (Unit {0})
count tier change state =
    pure tt (record { store = state.store; counters = at_tier tier change state.counters })

-- Whether the value is there decides which counter goes up.
abbrev pub count_lookup : CacheTier → Option String → Action CacheState (Option String)
count_lookup tier none = count tier add_miss >> pure none
count_lookup tier (some value) = count tier add_hit >> pure (some value)

abbrev pub namespaced_key : CacheTier → String → String
namespaced_key tier key = value_of tier ++ ":" ++ key

pub record QueryCacheService : Type 0 where
  pub backend : CacheBackend
  -- `_ttl_for`, from the settings
  pub ttl_for : CacheTier → ℕ

-- `cleared[key] = value`
pub put : String → ℕ → List (String × ℕ) → List (String × ℕ)
put key value [] = (key, value) ∷ []
put key value (entry ∷ entries) =
    let rest = put key value entries in
    if str_eq entry.0 key then (key, value) ∷ entries else entry ∷ rest

module _ (s : QueryCacheService) where
  unfoldable pub get : CacheTier → String → Action CacheState (Option String)
  get tier key = do
    value ← on_store (s.backend.get (namespaced_key tier key))
    count_lookup tier value

  unfoldable pub set : CacheTier → String → String → Action CacheState (Unit {0})
  set tier key value = do
    on_store (s.backend.set (namespaced_key tier key) value (s.ttl_for tier))
    count tier add_set

  abbrev pub clear_tier : CacheTier → Action CacheState (String × ℕ)
  clear_tier tier = do
    removed ← on_store (s.backend.delete_prefix (value_of tier ++ ":"))
    count tier (λ _. fresh_counters)
    pure (value_of tier, removed)

  -- The loop of `clear_tiers`, with the dictionary so far; a backend that raises ends it.
  pub clear_into : List CacheTier → List (String × ℕ) → Action CacheState (List (String × ℕ))
  unfolding put
  clear_into [] cleared = pure cleared
  clear_into (tier ∷ tiers) cleared = do
    (name, removed) ← clear_tier tier
    clear_into tiers (put name removed cleared)

  unfoldable pub clear_tiers : List CacheTier → Action CacheState (List (String × ℕ))
  unfolding clear_into
  clear_tiers tiers = clear_into tiers []

  unfoldable pub clear : Action CacheState (List (String × ℕ))
  clear = clear_tiers all_tiers

pub record TierStats : Type 0 where
  pub hits : ℕ
  pub misses : ℕ
  pub sets : ℕ
  pub hit_rate : Float

-- `(self.hits / total) if total else 0.0`; the quotient of two whole numbers is a parameter.
abbrev pub hit_rate : (ℕ → ℕ → Float) → TierCounters → Float
hit_rate divide c =
    let total = c.hits + c.misses in if total == 0 then zero_float else divide c.hits total

abbrev pub as_dict : (ℕ → ℕ → Float) → TierCounters → TierStats
as_dict divide c = record {
  hits = c.hits;
  misses = c.misses;
  sets = c.sets;
  hit_rate = hit_rate divide c;
}

abbrev pub stats_of : (ℕ → ℕ → Float) → Counters → List CacheTier → List (String × TierStats)
stats_of divide counters [] = []
stats_of divide counters (tier ∷ tiers) =
    (value_of tier, as_dict divide (counters tier)) ∷ stats_of divide counters tiers

pub stats : (ℕ → ℕ → Float) → CacheState → List (String × TierStats)
stats divide state = stats_of divide state.counters all_tiers
