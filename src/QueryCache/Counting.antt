-- ===== src/QueryCache/Counting.antt =====
-- What the counters of a tier say of app/services/query_cache_service.py.
use enterprise_rag.Prelude.{
  ℕ, ◌+◌, String, ◌≡◌, refl, ap, ◌∙◌, sym, inl, inr, Bool, true, false, ◌||◌, none, some, List, [],
  ◌∷◌, any, arith, if◌then◌else◌, max, str_eq, eq_iff, subst, Bool-cases,
}
use Prim.Native.String.{◌++◌}
use enterprise_rag.Errors.{Result, ok, raised, Result-cases}
use enterprise_rag.QueryCache.{
  CacheTier, TierCounters, fresh_counters, CacheState, QueryCacheService, value_of, same_tier,
  at_tier, namespaced_key, get, set, put, clear_into, clear_tiers, Store,
}

-- One call of the service.
pub data Operation : Type 0 where
  lookup : (tier : CacheTier) (key : String) → Operation
  write : (tier : CacheTier) (key value : String) → Operation

-- How many entries of a dictionary have the key.
abbrev pub entries : String → List (String × ℕ) → ℕ
entries name [] = 0
entries name (entry ∷ rest) = (if str_eq entry.0 name then 1 else 0) + entries name rest

entries-put :
    (name key : String) (value : ℕ) (before : List (String × ℕ))
    → entries name (put key value before)
      ≡ (if str_eq key name then max 1 (entries name before) else entries name before)
unfolding put
entries-put name key value [] = ground arith
entries-put name key value (entry ∷ rest) = elim (Bool-cases (str_eq entry.0 key)) [
  | inl here ↦
      let same : entry.0 ≡ key = (eq_iff entry.0 key).0 here in rw (here, same) (ground arith)
  | inr missed ↦ elim (Bool-cases (str_eq key name)) [
    | inl named ↦
        let same : key ≡ name = (eq_iff key name).0 named in
        let not_it : str_eq entry.0 name ≡ false =
          subst (λ x. str_eq entry.0 x ≡ false) same missed in
        let more = entries-put name key value rest in rw (missed, not_it) (ground arith)
    | inr unnamed ↦ let more = entries-put name key value rest in rw missed (ground arith)
  ]
]

module _ (s : QueryCacheService) where
  -- The service after a call; what the call raised is its caller's concern.
  pub perform : Operation → CacheState → CacheState
  perform (lookup tier key) c = (get s tier key c).1
  perform (write tier key value) c = (set s tier key value c).1

  pub run : List Operation → CacheState → CacheState
  run [] c = c
  run (o ∷ os) c = run os (perform o c)

  abbrev one_if_ok : {A : Type 0} → Result A → ℕ
  one_if_ok (ok a) = 1
  one_if_ok (raised e) = 0

  -- Whether a call was a lookup in the tier that the backend answered, and whether it was a write to
  -- it that the backend confirmed.
  pub answered_now : CacheTier → Operation → CacheState → ℕ
  answered_now t (lookup tier key) c =
      if same_tier tier t then one_if_ok (s.backend.get (namespaced_key tier key) c.store).0 else 0
  answered_now t (write tier key value) c = 0

  pub confirmed_now : CacheTier → Operation → CacheState → ℕ
  confirmed_now t (lookup tier key) c = 0
  confirmed_now t (write tier key value) c =
      if same_tier tier t
      then one_if_ok (s.backend.set (namespaced_key tier key) value (s.ttl_for tier) c.store).0
      else 0

  -- The same over a run.
  pub answered : CacheTier → List Operation → CacheState → ℕ
  answered t [] c = 0
  answered t (o ∷ os) c = answered_now t o c + answered t os (perform o c)

  pub confirmed : CacheTier → List Operation → CacheState → ℕ
  confirmed t [] c = 0
  confirmed t (o ∷ os) c = confirmed_now t o c + confirmed t os (perform o c)

  -- What one call adds to the counters of a tier.
  abbrev Counted : CacheTier → Operation → CacheState → Type 0
  Counted t o c =
      (((perform o c).counters t).hits + ((perform o c).counters t).misses
        ≡ (c.counters t).hits + (c.counters t).misses + answered_now t o c)
      × (((perform o c).counters t).sets ≡ (c.counters t).sets + confirmed_now t o c)

  lookup-Counted :
      (t tier : CacheTier) (key : String) (c : CacheState) → Counted t (lookup tier key) c
  unfolding get perform answered_now confirmed_now
  lookup-Counted t tier key c =
      elim (Result-cases (s.backend.get (namespaced_key tier key) c.store).0) [
        | inl (none, e) ↦ rw e (ground arith)
        | inl (some value, e) ↦ rw e (ground arith)
        | inr (x, e) ↦ rw e (ground arith)
      ]

  write-Counted :
      (t tier : CacheTier) (key value : String) (c : CacheState)
      → Counted t (write tier key value) c
  unfolding set perform answered_now confirmed_now
  write-Counted t tier key value c =
      elim (Result-cases
        (s.backend.set (namespaced_key tier key) value (s.ttl_for tier) c.store).0) [
          | inl (_, e) ↦ rw e (ground arith)
          | inr (x, e) ↦ rw e (ground arith)
        ]

  operation-Counted : (t : CacheTier) (o : Operation) (c : CacheState) → Counted t o c
  operation-Counted t (lookup tier key) c = lookup-Counted t tier key c
  operation-Counted t (write tier key value) c = write-Counted t tier key value c

  -- Over any run of lookups and writes in any tiers, a tier's hits and misses grow by exactly the
  -- lookups in that tier that the backend answered, and its sets by exactly the writes to it that
  -- the backend confirmed: a call that raises, and a call on another tier, counts for nothing.
  pub run-counters :
      (t : CacheTier) (os : List Operation) (c : CacheState)
      → (((run os c).counters t).hits + ((run os c).counters t).misses
          ≡ (c.counters t).hits + (c.counters t).misses + answered t os c)
        × (((run os c).counters t).sets ≡ (c.counters t).sets + confirmed t os c)
  unfolding run answered confirmed
  run-counters t [] c = (omega arith, omega arith)
  run-counters t (o ∷ os) c =
      let (looked, wrote) = operation-Counted t o c in
      let (looked_rest, wrote_rest) = run-counters t os (perform o c) in (omega arith, omega arith)

  reset_first :
      (here later : Bool) (before : TierCounters)
      → (if later then fresh_counters else if here then fresh_counters else before)
        ≡ (if here || later then fresh_counters else before)
  reset_first true true before = refl
  reset_first true false before = refl
  reset_first false true before = refl
  reset_first false false before = refl

  -- The backend deleted the entries under each tier's own prefix, one tier after the other, and
  -- nothing else happened to the store.
  pub IsPurged : List CacheTier → Store → Store → Type 0
  IsPurged [] before after = after ≡ before
  IsPurged (tier ∷ tiers) before after =
      (n : ℕ) × ((s.backend.delete_prefix (value_of tier ++ ":") before).0 ≡ ok n)
      × IsPurged tiers (s.backend.delete_prefix (value_of tier ++ ":") before).1 after

  -- A tier of that name is among the tiers.
  abbrev pub names : List CacheTier → String → Bool
  names tiers name = any (λ tier. str_eq (value_of tier) name) tiers

  -- What the loop does from a dictionary on.
  abbrev IsCleared :
      List CacheTier → CacheState → List (String × ℕ) → CacheState → List (String × ℕ) → Type 0
  IsCleared tiers c before after cleared =
      IsPurged tiers c.store after.store
      × ((name : String)
          → entries name cleared
            ≡ (if names tiers name then max 1 (entries name before) else entries name before))
      × ((t : CacheTier)
          → after.counters t
            ≡ (if any (λ tier. same_tier tier t) tiers then fresh_counters else c.counters t))

  clear_into-IsCleared :
      (tiers : List CacheTier) (c : CacheState) (before cleared : List (String × ℕ))
      → (clear_into s tiers before c).0 ≡ ok cleared
      → IsCleared tiers c before (clear_into s tiers before c).1 cleared
  unfolding clear_into IsPurged
  clear_into-IsCleared [] c before cleared e =
      (let same : before ≡ cleared = cc in (refl, λ name. ap (entries name) (sym same), λ t. refl))
  clear_into-IsCleared (tier ∷ tiers) c before cleared e =
      elim (Result-cases (s.backend.delete_prefix (value_of tier ++ ":") c.store).0) [
        | inr (x, refused) ↦ absurd (let q = rw refused at e in cc)
        | inl (n, gone) ↦
            let next : CacheState = record {
              store = (s.backend.delete_prefix (value_of tier ++ ":") c.store).1;
              counters = at_tier tier (λ _. fresh_counters) c.counters;
            } in
            let (purged, counted, kept) =
              clear_into-IsCleared tiers next (put (value_of tier) n before) cleared
                (rw gone at e) in
            rw gone (
              (n, refl, purged),
              λ name.
                  (let put_one = entries-put name (value_of tier) n before in
                    let later = counted name in ground arith),
              λ t.
                  kept t
                  ∙ reset_first (same_tier tier t) (any (λ x. same_tier x t) tiers) (c.counters t),
            )
      ]

  -- Clearing some tiers, when it returns, has made the backend delete the entries under the prefix of
  -- each of them, one after the other, and nothing else. The dictionary that it returns has exactly
  -- one entry for each tier named, however often it was named, and no other entry. The counters of
  -- exactly these tiers are reset: every other tier keeps its own.
  pub clear_tiers_lem :
      (tiers : List CacheTier) (c : CacheState) (cleared : List (String × ℕ))
      → (clear_tiers s tiers c).0 ≡ ok cleared
      → IsPurged tiers c.store (clear_tiers s tiers c).1.store
        × ((name : String) → entries name cleared ≡ (if names tiers name then 1 else 0))
        × ((t : CacheTier)
            → (clear_tiers s tiers c).1.counters t
              ≡ (if any (λ tier. same_tier tier t) tiers then fresh_counters else c.counters t))
  unfolding clear_tiers
  clear_tiers_lem tiers c cleared e = clear_into-IsCleared tiers c [] cleared e

-- Opened by the tests.
unfoldable pub cache_run : Unit {0}
unfolding clear_tiers clear_into put
cache_run = tt
