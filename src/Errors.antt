-- ===== src/Errors.antt =====
-- Exceptions as values (app/core/exceptions.py and the exceptions of the libraries that the
-- program catches), and code that calls collaborators. An action takes the history of the calls
-- made so far and returns its result with the longer history: what happened before a raise stays
-- in the history.
use enterprise_rag.Prelude.{
  Bool, true, false, if◌then◌else◌, String, subst, ◌≡◌, ◌∙◌, refl, ◌⊎◌, inl, inr,
}

-- The classes that some `except` or test of the program tells apart. `other` is any further
-- subclass of `Exception`.
pub data Exception : Type 0 where
  value_error : Exception
  index_error : Exception
  runtime_error : Exception
  grader_parse_error : Exception
  guardrail_blocked : Exception
  hybrid_retrieval_disabled : Exception
  sql_generation_failed : (code : String) → Exception
  sql_proposal_not_found : Exception
  sql_proposal_state : (code : String) → Exception
  sql_policy_violation : (code : String) → Exception
  sql_execution_rejected : (code : String) → Exception
  query_canceled : Exception
  lock_not_available : Exception
  operational_error : Exception
  other : (name : String) → Exception

pub data Result {ℓ} (A : Type ℓ) : Type ℓ where
  ok : A → Result A
  raised : Exception → Result A

abbrev pub Action {ℓ} : Type ℓ → Type ℓ → Type ℓ
Action H A = H → Result A × H

module _ {ℓ} {H A : Type ℓ} where
  abbrev pub pure : A → Action H A
  pure a h = (ok a, h)

  abbrev pub raise : Exception → Action H A
  raise e h = (raised e, h)

  abbrev pub lift : Result A → Action H A
  lift r h = (r, h)

module _ {ℓ} {H A B : Type ℓ} where
  abbrev pub and_then : Result A → (A → Action H B) → Action H B
  and_then (ok a) f h = f a h
  and_then (raised e) f h = (raised e, h)

  infixl 10 ◌>>=◌ ◌>>◌
  abbrev pub ◌>>=◌ : Action H A → (A → Action H B) → Action H B
  ◌>>=◌ m f h = let (r, h') = m h in and_then r f h'

  abbrev pub ◌>>◌ : Action H A → Action H B → Action H B
  m >> n = m >>= λ _. n

-- `try: body` / `except …: handler`, the handler with the exception.
abbrev pub caught {ℓ} : {H A : Type ℓ} → Result A → (Exception → Action H A) → Action H A
caught (ok a) handler h = (ok a, h)
caught (raised e) handler h = handler e h

abbrev pub try_except {ℓ} : {H A : Type ℓ} → Action H A → (Exception → Action H A) → Action H A
try_except body handler h = let (r, h') = body h in caught r handler h'

module _ {ℓ} {H A B : Type ℓ} where
  -- A block that returned has returned from each of its statements.
  pub >>=-eq-ok :
      (m : Action H A) (f : A → Action H B) (h : H) {b : B}
      → ((m >>= f) h).0 ≡ ok b
      → (a : A) × ((m h).0 ≡ ok a) × ((f a (m h).1).0 ≡ ok b)
  >>=-eq-ok m f h e = go (m h).0 refl e
    where
      go :
          {b : B} (r : Result A)
          → (m h).0 ≡ r
          → (and_then r f (m h).1).0 ≡ ok b
          → (a : A) × ((m h).0 ≡ ok a) × ((f a (m h).1).0 ≡ ok b)
      go (ok a) p e = (a, p, e)
      go (raised x) p e = cc

  -- A block that raised did so in its first statement, or in the rest.
  pub >>=-eq-raised :
      (m : Action H A) (f : A → Action H B) (h : H) {x : Exception}
      → ((m >>= f) h).0 ≡ raised x
      → ((m h).0 ≡ raised x) ⊎ ((a : A) × ((m h).0 ≡ ok a) × ((f a (m h).1).0 ≡ raised x))
  >>=-eq-raised m f h e = go (m h).0 refl e
    where
      go :
          {x : Exception} (r : Result A)
          → (m h).0 ≡ r
          → (and_then r f (m h).1).0 ≡ raised x
          → ((m h).0 ≡ raised x) ⊎ ((a : A) × ((m h).0 ≡ ok a) × ((f a (m h).1).0 ≡ raised x))
      go (ok a) p e = inr (a, p, e)
      go (raised y) p e = inl (p ∙ cc)

  -- Statements that only compute leave the history alone.
  pub and_then-lift :
      (r : Result A) (f : A → Result B) (h : H) → (and_then r (λ a. lift (f a)) h).1 ≡ h
  and_then-lift (ok a) f h = refl
  and_then-lift (raised x) f h = refl

-- `P` holds of the result, if there is one.
abbrev pub Ensures {ℓ κ} : {A : Type ℓ} → (A → Type κ) → Result A → Type κ
Ensures P (ok a) = P a
Ensures P (raised e) = Unit

module _ {ℓ} {H A B : Type ℓ} where
  pub Ensures-and_then {κ} :
      (P : B → Type κ) (r : Result A) (f : A → Action H B)
      → ((a : A) (h : H) → r ≡ ok a → Ensures P (f a h).0)
      → (h : H) → Ensures P (and_then r f h).0
  Ensures-and_then P (ok a) f k h = k a h refl
  Ensures-and_then P (raised e) f k h = tt

  pub Ensures-bind {κ} :
      (P : B → Type κ) (m : Action H A) (f : A → Action H B)
      → ((a : A) (h : H) → Ensures P (f a h).0)
      → (h : H) → Ensures P ((m >>= f) h).0
  Ensures-bind P m f k h = Ensures-and_then P (m h).0 f (λ a h' _. k a h') (m h).1

-- To split on a computed result and keep the equation.
pub Result-cases {ℓ} :
    {A : Type ℓ} (r : Result A) → ((a : A) × (r ≡ ok a)) ⊎ ((e : Exception) × (r ≡ raised e))
Result-cases (ok a) = inl (a, refl)
Result-cases (raised e) = inr (e, refl)

pub of_Ensures {ℓ κ} :
    {A : Type ℓ} (P : A → Type κ) (r : Result A) (a : A) → Ensures P r → r ≡ ok a → P a
of_Ensures P (ok b) a h e = subst P (cc) h
of_Ensures P (raised x) a h e = cc

-- The code returns, and what.
abbrev pub Returns {ℓ} : {A : Type ℓ} → Result A → Type ℓ
Returns {A = A} r = (a : A) × (r ≡ ok a)

pub Returns-if {ℓ} :
    {A : Type ℓ} (b : Bool) (r s : Result A) → Returns r → Returns s → Returns (if b then r else s)
Returns-if true r s hr hs = hr
Returns-if false r s hr hs = hs
