-- ===== src/PyText.antt =====
-- What the program uses of Python's text and hashing built-ins, as parameters, and the code's own
-- combinations of them.
use Prim.Native.String.{◌++◌}
use enterprise_rag.Prelude.{ℕ, String, Bool, List, [], ◌∷◌}
use enterprise_rag.Prelude.Float.{Float}

pub record PyText : Type 0 where
  -- `str.split()` with no argument
  pub split : String → List String
  pub casefold : String → String
  -- `unicodedata.category(ch) == "Cc"` for some character of the text
  pub has_control : String → Bool
  -- `needle in text`
  pub contains : String → String → Bool
  -- `len(text)`, in code points
  pub len : String → ℕ
  -- `text.strip()`
  pub strip : String → String
  -- `_SENTENCE_BOUNDARY.split(text)` of app/rag_services/crag/crag_refiner.py
  pub split_at_boundaries : String → List String
  -- `f"{n}"` and `f"{x:.3f}"`
  pub str_of_int : ℕ → String
  pub fixed3 : Float → String
  -- `hashlib.sha256(text.encode()).digest()`, as a list of bytes
  pub sha256 : String → List ℕ

-- `sep.join(parts)`
abbrev pub join : String → List String → String
join sep [] = ""
join sep (x ∷ []) = x
join sep (x ∷ y ∷ rest) = x ++ sep ++ join sep (y ∷ rest)
