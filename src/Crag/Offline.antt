-- ===== src/Crag/Offline.antt =====
-- Actions that never search the web, one rule for each way to build an action.
use enterprise_rag.Prelude.{◌≡◌, ◌∙◌, refl, Bool, true, false, if◌then◌else◌}
use enterprise_rag.Errors.{Result, ok, raised, Action, pure, lift, ◌>>=◌, and_then}
use enterprise_rag.Crag.Types.{Calls, searches}

pub record IsOffline {A : Type 0} (m : Action Calls A) : Type 0 where
  pub at : (h : Calls) → searches (m h).1 ≡ searches h

module _ {A : Type 0} where
  pub IsOffline-pure : (a : A) → IsOffline (pure a)
  IsOffline-pure a = record { at = λ h. refl }

  pub IsOffline-lift : (r : Result A) → IsOffline (lift r)
  IsOffline-lift r = record { at = λ h. refl }

  pub IsOffline-if :
      (b : Bool) (m n : Action Calls A) → IsOffline m → IsOffline n → IsOffline (if b then m else n)
  IsOffline-if true m n km kn = km
  IsOffline-if false m n km kn = kn

module _ {A B : Type 0} where
  pub IsOffline-and_then :
      (r : Result A) (f : A → Action Calls B)
      → ((a : A) → IsOffline (f a))
      → IsOffline (and_then r f)
  IsOffline-and_then (ok a) f k = record { at = (k a).at }
  IsOffline-and_then (raised e) f k = record { at = λ h. refl }

  pub IsOffline-bind :
      (m : Action Calls A) (f : A → Action Calls B)
      → IsOffline m
      → ((a : A) → IsOffline (f a))
      → IsOffline (m >>= f)
  IsOffline-bind m f km kf = record {
    at = λ h. (IsOffline-and_then (m h).0 f kf).at (m h).1 ∙ km.at h;
  }
