-- ===== src/Reflection/Evidence.antt =====
-- `_dedupe_evidence` of app/rag_services/reflection/reflection_engine.py.
use enterprise_rag.Prelude.{
  ℕ, ◌+◌, ◌≤◌, ◌<◌, String, ◌≡◌, Bool, true, false, ◌&&◌, Option, none, some, List, [], ◌∷◌, ◌++◌,
  any, All, length, arith, leb, str_eq, if◌then◌else◌, Bool-cases, inl, inr,
}
use enterprise_rag.Prelude.Int.{ℤ, pos_part, neg_part}
use enterprise_rag.PyText.{PyText, join}
use enterprise_rag.Crag.Types.{EvidenceChunk}

abbrev Key : Type 0
Key = String × Option ℤ × String

same_page : Option ℤ → Option ℤ → Bool
same_page none none = true
same_page (some a) (some b) =
    leb (pos_part a + neg_part b) (pos_part b + neg_part a)
    && leb (pos_part b + neg_part a) (pos_part a + neg_part b)
same_page _ _ = false

-- Equality of keys, as the set `seen` tests it.
same_key : Key → Key → Bool
same_key (s, p, t) (s', p', t') = str_eq s s' && same_page p p' && str_eq t t'

module _ (py : PyText) where
  pub key_of : EvidenceChunk → Key
  key_of item = (item.source, item.page_number, join " " (py.split (py.casefold item.text)))

  -- Whether the item's key is in `seen`, the keys of the items kept.
  pub seen : List EvidenceChunk → EvidenceChunk → Bool
  seen kept item = any (λ k. same_key (key_of k) (key_of item)) kept

  -- The loop: `kept` counts `result`, newest first, and the kept items come out in order. It stops
  -- once `max_chunks` are kept, which is tested after an item was added.
  dedupe_from : ℕ → List EvidenceChunk → List EvidenceChunk → List EvidenceChunk
  dedupe_from max_chunks kept [] = []
  dedupe_from max_chunks kept (item ∷ items) =
      let skipped = dedupe_from max_chunks kept items in
      let added = item ∷ dedupe_from max_chunks (item ∷ kept) items in
      if seen kept item
      then skipped
      else if leb max_chunks (length kept + 1)
      then item ∷ []
      else added

  pub dedupe_evidence : List EvidenceChunk → List EvidenceChunk → ℕ → List EvidenceChunk
  dedupe_evidence current additional max_chunks = dedupe_from max_chunks [] (current ++ additional)

  -- No two chunks of the list have the same key, and none has the key of a kept one.
  abbrev pub HasNewKeys : List EvidenceChunk → List EvidenceChunk → Type 0
  HasNewKeys kept [] = Unit
  HasNewKeys kept (item ∷ items) = (seen kept item ≡ false) × HasNewKeys (item ∷ kept) items

  dedupe_from-keys :
      (max_chunks : ℕ) (kept items : List EvidenceChunk)
      → HasNewKeys kept (dedupe_from max_chunks kept items)
  unfolding dedupe_from
  dedupe_from-keys max_chunks kept [] = tt
  dedupe_from-keys max_chunks kept (item ∷ items) = elim (Bool-cases (seen kept item)) [
    | inl old ↦ rw old (dedupe_from-keys max_chunks kept items)
    | inr new ↦ elim (Bool-cases (leb max_chunks (length kept + 1))) [
      | inl last ↦ rw (new, last) (new, tt)
      | inr more ↦ rw (new, more) (new, dedupe_from-keys max_chunks (item ∷ kept) items)
    ]
  ]

  dedupe_from-length :
      (max_chunks : ℕ) (kept items : List EvidenceChunk)
      → length kept < max_chunks
      → length kept + length (dedupe_from max_chunks kept items) ≤ max_chunks
  unfolding dedupe_from
  dedupe_from-length max_chunks kept [] room = omega arith
  dedupe_from-length max_chunks kept (item ∷ items) room = ground (
    arith,
    dedupe_from-length max_chunks kept items,
    dedupe_from-length max_chunks (item ∷ kept) items,
  )

  dedupe_from-head :
      (max_chunks : ℕ) (item : EvidenceChunk) (items : List EvidenceChunk)
      → (rest : List EvidenceChunk) × (dedupe_from max_chunks [] (item ∷ items) ≡ item ∷ rest)
  unfolding dedupe_from seen
  dedupe_from-head max_chunks item items = elim (Bool-cases (leb max_chunks 1)) [
    | inl last ↦ ([], ground arith)
    | inr more ↦ (dedupe_from max_chunks (item ∷ []) items, ground arith)
  ]

  dedupe_from-All :
      (P : EvidenceChunk → Type 0) (max_chunks : ℕ) (kept items : List EvidenceChunk)
      → All P items
      → All P (dedupe_from max_chunks kept items)
  unfolding dedupe_from
  dedupe_from-All P max_chunks kept [] h = tt
  dedupe_from-All P max_chunks kept (item ∷ items) h = elim (Bool-cases (seen kept item)) [
    | inl old ↦ rw old (dedupe_from-All P max_chunks kept items h.1)
    | inr new ↦ elim (Bool-cases (leb max_chunks (length kept + 1))) [
      | inl last ↦ rw (new, last) (h.0, tt)
      | inr more ↦ rw (new, more) (h.0, dedupe_from-All P max_chunks (item ∷ kept) items h.1)
    ]
  ]

  -- Augmented evidence has no two chunks with the same source, page and normalised text, stays
  -- within the chunk budget (which the settings keep positive), consists of the given chunks only,
  -- and keeps the first of them.
  pub dedupe_evidence_lem :
      (current additional : List EvidenceChunk) (max_chunks : ℕ)
      → 0 < max_chunks
      → HasNewKeys [] (dedupe_evidence current additional max_chunks)
        × (length (dedupe_evidence current additional max_chunks) ≤ max_chunks)
        × ((P : EvidenceChunk → Type 0)
            → All P (current ++ additional)
            → All P (dedupe_evidence current additional max_chunks))
        × ((item : EvidenceChunk) (items : List EvidenceChunk)
            → current ≡ item ∷ items
            → (rest : List EvidenceChunk) × (dedupe_evidence current additional max_chunks
                ≡ item ∷ rest))
  unfolding dedupe_evidence
  dedupe_evidence_lem current additional max_chunks positive = (
    dedupe_from-keys max_chunks [] (current ++ additional),
    omega (arith, dedupe_from-length max_chunks [] (current ++ additional) positive),
    λ P h. dedupe_from-All P max_chunks [] (current ++ additional) h,
    λ item items e. rw e (dedupe_from-head max_chunks item (items ++ additional)),
  )

-- Opened by the tests.
unfoldable pub dedupe_runs : Unit {0}
unfolding dedupe_evidence dedupe_from seen key_of same_key same_page
dedupe_runs = tt
