-- ===== src/RateLimiter/Window.antt =====
-- No window holds more admitted requests than the limit.
use enterprise_rag.Prelude.{
  ℕ, ◌+◌, ◌-◌, ◌≤◌, ◌<◌, ◌≡◌, ◌≢◌, ◌↔◌, refl, Bool, true, false, ◌&&◌, Bool-cases, inl, inr, List,
  [], ◌∷◌, ◌++◌ as append, length, All, leb, arith, if◌then◌else◌,
}
use enterprise_rag.Errors.{Result, ok, raised, index_error}
use enterprise_rag.RateLimiter.{popleft_stale, reset_at, Verdict, with_reset, is_allowed}

abbrev bit : Bool → ℕ
bit true = 1
bit false = 0

abbrev pub count : (ℕ → Bool) → List ℕ → ℕ
count p [] = 0
count p (x ∷ xs) = bit (p x) + count p xs

-- From `start` on, and in the window of the given length that starts there.
abbrev since : ℕ → ℕ → Bool
since start t = leb start t

abbrev pub within : ℕ → ℕ → ℕ → Bool
within start window t = leb start t && leb t (start + window)

abbrev admits : Result Verdict → Bool
admits (ok v) = v.allowed
admits (raised e) = false

module _ (limit window : ℕ) where
  -- The hits of a bucket after requests at the given times, newest first, and the times of the
  -- requests that were admitted.
  pub hits_after : List ℕ → List ℕ
  hits_after [] = []
  hits_after (now ∷ earlier) = (is_allowed limit window now (hits_after earlier)).1

  pub admitted : List ℕ → List ℕ
  admitted [] = []
  admitted (now ∷ earlier) =
      let rest = admitted earlier in
      if admits (is_allowed limit window now (hits_after earlier)).0 then now ∷ rest else rest

  -- Calls read the clock before they take the lock, so that they may be handled in another order
  -- than that of their readings: no call is handled with a reading that lies more than `skew` before
  -- the reading of a call that was handled earlier.
  abbrev pub IsWithinSkew : ℕ → List ℕ → Type 0
  IsWithinSkew skew [] = Unit
  IsWithinSkew skew (now ∷ earlier) =
      All (λ before. before ≤ now + skew) earlier × IsWithinSkew skew earlier

  All-le_trans : (a b : ℕ) (xs : List ℕ) → a ≤ b → All (λ x. x ≤ a) xs → All (λ x. x ≤ b) xs
  All-le_trans a b [] le h = tt
  All-le_trans a b (x ∷ xs) le h = (omega (arith, le, h.0), All-le_trans a b xs le h.1)

  count-le-length : (p : ℕ → Bool) (xs : List ℕ) → count p xs ≤ length xs
  count-le-length p [] = omega arith
  count-le-length p (x ∷ xs) = ground (arith, count-le-length p xs)

  count-append : (p : ℕ → Bool) (xs ys : List ℕ) → count p (append xs ys) ≡ count p xs + count p ys
  count-append p [] ys = omega arith
  count-append p (x ∷ xs) ys = omega (arith, count-append p xs ys)

  count-popleft_stale :
      (start now : ℕ) (hits : List ℕ)
      → now ≤ start + window
      → count (since start) (popleft_stale now window hits) ≡ count (since start) hits
  unfolding popleft_stale
  count-popleft_stale start now [] le = refl
  count-popleft_stale start now (hit ∷ hits) le =
      ground (arith, count-popleft_stale start now hits le)

  within-le-since :
      (start span : ℕ) (xs : List ℕ) → count (within start span) xs ≤ count (since start) xs
  within-le-since start span [] = omega arith
  within-le-since start span (x ∷ xs) = ground (arith, within-le-since start span xs)

  refused-admits : (r : Result ℕ) → admits (with_reset false 0 r) ≡ false
  refused-admits (ok t) = refl
  refused-admits (raised e) = refl

  allowed-admits :
      (n now : ℕ) (live : List ℕ)
      → admits (with_reset true n (reset_at window (append live (now ∷ [])))) ≡ true
  unfolding reset_at
  allowed-admits n now [] = refl
  allowed-admits n now (hit ∷ hits) = refl

  -- The two ways in which a request ends.
  record Handled (now : ℕ) (hits : List ℕ) (out : Result Verdict × List ℕ) : Type 0 where
    refused : admits out.0 ≡ false → out.1 ≡ popleft_stale now window hits
    taken :
        admits out.0 ≡ true
        → (out.1 ≡ append (popleft_stale now window hits) (now ∷ []))
          × (length (popleft_stale now window hits) < limit)

  is_allowed-Handled :
      (now : ℕ) (hits : List ℕ) → Handled now hits (is_allowed limit window now hits)
  unfolding is_allowed
  is_allowed-Handled now hits =
      let live = popleft_stale now window hits in
      elim (Bool-cases (leb limit (length (popleft_stale now window hits)))) [
        | inl full ↦
            let lost = refused-admits (reset_at window (popleft_stale now window hits)) in
            rw full (record { refused = λ e. refl; taken = λ e. cc })
        | inr room ↦
            let won =
              allowed-admits (limit - length (append (popleft_stale now window hits) (now ∷ [])))
                now (popleft_stale now window hits) in
            rw room (record { refused = λ e. cc; taken = λ e. (refl, ground arith) })
      ]

  -- The bucket still counts every admitted request from `start` on, as long as every reading lies
  -- within a window from there.
  hits_count :
      (start : ℕ) (times : List ℕ)
      → All (λ t. t ≤ start + window) times
      → count (since start) (admitted times) ≤ count (since start) (hits_after times)
  unfolding admitted hits_after
  hits_count start [] le = omega arith
  hits_count start (now ∷ earlier) le =
      let rest = hits_count start earlier le.1 in
      let kept = count-popleft_stale start now (hits_after earlier) le.0 in
      let handled = is_allowed-Handled now (hits_after earlier) in
      elim (Bool-cases (admits (is_allowed limit window now (hits_after earlier)).0)) [
        | inl won ↦
            let after = (handled.taken won).0 in
            let sum =
              count-append (since start) (popleft_stale now window (hits_after earlier))
                (now ∷ []) in
            rw (won, after) (omega arith)
        | inr lost ↦ let after = handled.refused lost in rw (lost, after) (omega arith)
      ]

  -- However the requests are spaced, and with calls handled out of the order of their readings by
  -- up to `skew`, no interval that is shorter than the limiter's window by the skew holds more
  -- admitted requests of one bucket than the limit. Without skew, no window does.
  pub admitted-within :
      (skew span start : ℕ) (times : List ℕ)
      → span + skew ≤ window
      → IsWithinSkew skew times
      → count (within start span) (admitted times) ≤ limit
  unfolding admitted
  admitted-within skew span start [] fits m = omega arith
  admitted-within skew span start (now ∷ earlier) fits m =
      let rest = admitted-within skew span start earlier fits m.1 in
      let handled = is_allowed-Handled now (hits_after earlier) in
      elim (Bool-cases (admits (is_allowed limit window now (hits_after earlier)).0)) [
        | inr lost ↦ rw lost rest
        | inl won ↦ elim (Bool-cases (within start span now)) [
          | inr outside ↦ rw (won, outside) (omega arith)
          | inl inside ↦
              let le : now ≤ start + span = ground arith in
              let reach : now + skew ≤ start + window = omega (arith, le, fits) in
              let held =
                hits_count start earlier
                  (All-le_trans (now + skew) (start + window) earlier reach m.0) in
              let kept =
                count-popleft_stale start now (hits_after earlier) (omega (arith, reach)) in
              let few =
                count-le-length (since start) (popleft_stale now window (hits_after earlier)) in
              let fewer = within-le-since start span (admitted earlier) in
              let room = (handled.taken won).1 in rw (won, inside) (omega arith)
        ]
      ]

  refused_raises :
      (live : List ℕ)
      → (with_reset false 0 (reset_at window live) ≡ raised index_error) ↔ (live ≡ [])
  unfolding reset_at
  refused_raises [] = (λ e. refl, λ e. refl)
  refused_raises (hit ∷ hits) = (λ e. ground arith, λ e. ground arith)

  allowed_returns :
      (n now : ℕ) (live : List ℕ)
      → with_reset true n (reset_at window (append live (now ∷ []))) ≢ raised index_error
  unfolding reset_at
  allowed_returns n now [] = λ e. ground arith
  allowed_returns n now (hit ∷ hits) = λ e. ground arith

  -- A call raises exactly when the limit is zero and the bucket holds no live hit: the refusal then
  -- reads the oldest hit of an empty queue.
  pub is_allowed_raises_iff :
      (now : ℕ) (hits : List ℕ)
      → ((is_allowed limit window now hits).0 ≡ raised index_error)
        ↔ ((limit ≡ 0) × (popleft_stale now window hits ≡ []))
  unfolding is_allowed
  is_allowed_raises_iff now hits =
      elim (Bool-cases (leb limit (length (popleft_stale now window hits)))) [
        | inl full ↦
            let r = refused_raises (popleft_stale now window hits) in
            rw full (
              λ e. (let empty = r.0 e in let q = rw empty at full in ground arith, r.0 e),
              λ h. r.1 h.1,
            )
        | inr room ↦ rw room (
          λ e. absurd (
              allowed_returns (limit - length (append (popleft_stale now window hits) (now ∷ [])))
                now (popleft_stale now window hits) e),
          λ h. absurd (let z = h.0 in ground arith),
        )
      ]

-- With skew, a whole window may hold more than the limit: two requests in ten ticks are allowed, the
-- call with the reading 17 is handled before the one with the reading 15, and the window from 5 to
-- 15 holds three.
overfull : count (within 5 10) (admitted 2 10 (15 ∷ 17 ∷ 6 ∷ 5 ∷ [])) ≡ 3
unfolding admitted hits_after is_allowed popleft_stale reset_at
overfull = refl
