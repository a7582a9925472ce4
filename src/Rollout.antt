-- ===== src/Rollout.antt =====
-- app/rag_services/rollout.py: which requests a percentage rollout takes in.
pub mod Cohorts
use Prim.Native.String.{◌++◌}
use enterprise_rag.Prelude.{
  ℕ, ◌+◌, ◌*◌, ◌%◌, String, Bool, true, false, List, [], ◌∷◌, take, ltb, ◌==◌, ◌&&◌, not,
  if◌then◌else◌,
}
use enterprise_rag.Prelude.Int.{ℤ, pos, negsuc, leb_ℤ}
use enterprise_rag.Errors.{Result, ok, raised, value_error}
use enterprise_rag.PyText.{PyText, join}

-- `int.from_bytes(bytes, byteorder="big", signed=False)`, on top of the number read so far.
unfoldable pub from_bytes : ℕ → List ℕ → ℕ
from_bytes acc [] = acc
from_bytes acc (b ∷ bs) = from_bytes (acc * 256 + b) bs

module _ (py : PyText) where
  unfoldable pub bucket : String → String → ℕ
  unfolding from_bytes
  bucket subject salt =
      let normalized = py.casefold (join " " (py.split subject)) in
      let digest = py.sha256 (salt ++ "\0" ++ normalized) in from_bytes 0 (take 8 digest) % 10000

  unfoldable pub sampled_in : String → ℤ → String → Result Bool
  sampled_in subject (negsuc n) salt = raised value_error
  sampled_in subject (pos percentage) salt =
      if ltb 100 percentage
      then raised value_error
      else if percentage == 0
      then ok false
      else if percentage == 100
      then ok true
      else ok (ltb (bucket subject salt) (percentage * 100))
