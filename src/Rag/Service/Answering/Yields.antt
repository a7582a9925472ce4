-- ===== src/Rag/Service/Answering/Yields.antt =====
-- Pieces of `RAGService.answer` (app/rag_services/rag_service.py), by what they return.
use enterprise_rag.Prelude.{◌≡◌, refl, Bool, true, false, List, [], ◌∷◌, is_empty, if◌then◌else◌}
use enterprise_rag.Errors.{Result, ok, raised, Ensures, Action, pure, and_then, ◌>>=◌}
use enterprise_rag.Rag.World.{World}

-- `P` holds of whatever the code returns, wherever it starts.
unfoldable pub Yields : {A : Type 0} → (A → Type 0) → Action World A → Type 0
Yields P m = (w : World) → Ensures P (m w).0

module _ {A : Type 0} (P : A → Type 0) where
  pub pure-Yields : (a : A) → P a → Yields P (pure a)
  unfolding Yields
  pure-Yields a k w = k

  pub if-Yields :
      (b : Bool) (m n : Action World A)
      → (b ≡ true → Yields P m)
      → (b ≡ false → Yields P n)
      → Yields P (if b then m else n)
  if-Yields true m n km kn = km refl
  if-Yields false m n km kn = kn refl

  pub always-Ensures : ((a : A) → P a) → (out : Result A) → Ensures P out
  always-Ensures k (ok a) = k a
  always-Ensures k (raised e) = tt

  pub always-Yields : (m : Action World A) → ((a : A) → P a) → Yields P m
  unfolding Yields
  always-Yields m k w = always-Ensures k (m w).0

module _ {A B : Type 0} where
  pub and_then-Yields :
      (Q : A → Type 0) (P : B → Type 0) (r : Result A) (f : A → Action World B) (w : World)
      → Ensures Q r
      → ((a : A) → Q a → Yields P (f a))
      → Ensures P (and_then r f w).0
  unfolding Yields
  and_then-Yields Q P (ok a) f w k kf = kf a k w
  and_then-Yields Q P (raised e) f w k kf = tt

  pub bind-Yields :
      (Q : A → Type 0) (P : B → Type 0) (m : Action World A) (f : A → Action World B)
      → Yields Q m
      → ((a : A) → Q a → Yields P (f a))
      → Yields P (m >>= f)
  unfolding Yields
  bind-Yields Q P m f km kf w = and_then-Yields Q P (m w).0 f (m w).1 (km w) kf

pub self-Ensures :
    {A : Type 0} (P : A → Type 0) (out : Result A) → ((a : A) → out ≡ ok a → P a) → Ensures P out
self-Ensures P (ok a) k = k a refl
self-Ensures P (raised e) k = tt

pub is_empty-eq-nil : {A : Type 0} (xs : List A) → is_empty xs ≡ true → xs ≡ []
is_empty-eq-nil [] e = refl
is_empty-eq-nil (x ∷ xs) e = cc

-- Nothing is known.
abbrev pub Anything : {A : Type 0} → A → Type 0
Anything a = Unit

pub free-Yields : {A : Type 0} (m : Action World A) → Yields Anything m
free-Yields m = always-Yields Anything m (λ a. tt)
