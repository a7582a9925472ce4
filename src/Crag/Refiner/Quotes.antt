-- ===== src/Crag/Refiner/Quotes.antt =====
-- Sentences are picked in their order, from chunks that a grade supports.
use enterprise_rag.Prelude.{
  subst, ℕ, zero, suc, ◌<◌, ◌≤◌, String, ◌≡◌, refl, true, false, Option, none, some, List, [], ◌∷◌,
  map, length, take, get_elem?, any, All, get_elem?_total, leb, arith, Bool-cases, inl, inr,
}
use enterprise_rag.Prelude.Float.{Float}
use enterprise_rag.PyText.{join}
use enterprise_rag.Errors.{ok}
use enterprise_rag.Crag.Types.{RetrievedChunk, ChunkGrade, EvidenceChunk, EvidenceOrigin}
use enterprise_rag.Crag.Grader.{supports}
use enterprise_rag.Crag.Refiner.{
  Selection, insert, sorted, valid_indices, pick, materialize, keep, relevant, selected_text,
  local_chunk, gather_one, add, gather, document,
}

-- The indices stand in ascending order.
abbrev IsAscending : List ℕ → Type 0
IsAscending [] = Unit
IsAscending (x ∷ xs) = All (λ y. x ≤ y) xs × IsAscending xs

All-le_trans : (a b : ℕ) (xs : List ℕ) → a ≤ b → All (λ y. b ≤ y) xs → All (λ y. a ≤ y) xs
All-le_trans a b [] h k = tt
All-le_trans a b (x ∷ xs) h k = (omega arith, All-le_trans a b xs h k.1)

All-insert : (a n : ℕ) (xs : List ℕ) → a ≤ n → All (λ y. a ≤ y) xs → All (λ y. a ≤ y) (insert n xs)
unfolding insert
All-insert a n [] h k = (h, tt)
All-insert a n (x ∷ xs) h k = elim (Bool-cases (leb n x)) [
  | inl e ↦ rw e (h, k)
  | inr e ↦ rw e (k.0, All-insert a n xs h k.1)
]

insert-IsAscending : (n : ℕ) (xs : List ℕ) → IsAscending xs → IsAscending (insert n xs)
unfolding insert
insert-IsAscending n [] h = (tt, tt)
insert-IsAscending n (x ∷ xs) h = elim (Bool-cases (leb n x)) [
  | inl e ↦ rw e ((ground arith, All-le_trans n x xs (ground arith) h.0), h)
  | inr e ↦ rw e (All-insert x n xs (ground arith) h.0, insert-IsAscending n xs h.1)
]

sorted-IsAscending : (xs : List ℕ) → IsAscending (sorted xs)
unfolding sorted
sorted-IsAscending [] = tt
sorted-IsAscending (x ∷ xs) = insert-IsAscending x (sorted xs) (sorted-IsAscending xs)

-- An evidence chunk quotes a source: it carries the source's name, page and score, and its text is
-- a selection of the sentences of the source, word for word and in their order.
pub record Quotes (sentences : List String) (chunk : RetrievedChunk) (e : EvidenceChunk)
    : Type 0 where
  pub source : e.source ≡ chunk.source
  pub page_number : e.page_number ≡ chunk.page_number
  pub score : e.retrieval_score ≡ chunk.score
  pub origin : e.origin ≡ EvidenceOrigin.policy
  pub places : List ℕ
  pub ascending : IsAscending places
  pub text : e.text ≡ join " " (pick sentences places)

-- `e` quotes one of the chunks.
abbrev pub QuotesOneOf : (String → List String) → List RetrievedChunk → EvidenceChunk → Type 0
QuotesOneOf document chunks e =
    (i : ℕ) × (chunk : RetrievedChunk) × (get_elem? chunks i ≡ some chunk)
    × Quotes (document chunk.text) chunk e

get_elem?-map {ℓ κ} :
    {A : Type ℓ} {B : Type κ} (f : A → B) (xs : List A) (i : ℕ) (a : A)
    → get_elem? xs i ≡ some a
    → get_elem? (map f xs) i ≡ some (f a)
get_elem?-map f [] i a e = cc
get_elem?-map f (x ∷ xs) zero a e = ground arith
get_elem?-map f (x ∷ xs) (suc i) a e = get_elem?-map f xs i a e

get_elem?-take {ℓ} :
    {A : Type ℓ} (n : ℕ) (xs : List A) (i : ℕ) (a : A)
    → get_elem? (take n xs) i ≡ some a
    → get_elem? xs i ≡ some a
get_elem?-take zero xs i a e = cc
get_elem?-take (suc n) [] i a e = cc
get_elem?-take (suc n) (x ∷ xs) zero a e = e
get_elem?-take (suc n) (x ∷ xs) (suc i) a e = get_elem?-take n xs i a e

Quotes-local_chunk :
    (sentences : List String) (chunk : RetrievedChunk) (selection : Selection)
    → Quotes sentences chunk (local_chunk chunk (materialize sentences selection.sentence_indices))
unfolding local_chunk materialize
Quotes-local_chunk sentences chunk selection = record {
  source = refl;
  page_number = refl;
  score = refl;
  origin = refl;
  places = sorted (valid_indices (length sentences) selection.sentence_indices);
  ascending = sorted-IsAscending (valid_indices (length sentences) selection.sentence_indices);
  text = refl;
}

selected_text-eq-some :
    (documents : List (List String)) (selection : Selection) (sentences : List String)
    (text : String)
    → get_elem? documents selection.document_index ≡ some sentences
    → selected_text documents selection ≡ some text
    → text ≡ materialize sentences selection.sentence_indices
unfolding selected_text
selected_text-eq-some documents selection sentences text found e = ground arith

module _ (document : String → List String) (kept : List RetrievedChunk) where
  abbrev pub documents : List (List String)
  documents = map (λ chunk. document chunk.text) kept

  gather_one-quotes :
      (selection : Selection) (e : EvidenceChunk)
      → gather_one local_chunk kept documents selection ≡ some e
      → QuotesOneOf document kept e
  unfolding gather_one
  gather_one-quotes selection e h =
      go (get_elem? kept selection.document_index) (selected_text documents selection) refl refl h
    where
      go :
          (o : Option RetrievedChunk) (t : Option String)
          → get_elem? kept selection.document_index ≡ o
          → selected_text documents selection ≡ t
          → elim o as (λ _. Option EvidenceChunk) [
            | none ↦ none
            | some source ↦ elim t [ none ↦ none | some text ↦ some (local_chunk source text) ]
          ]
            ≡ some e
          → QuotesOneOf document kept e
      go none t found chosen k = cc
      go (some chunk) none found chosen k = cc
      go (some chunk) (some text) found chosen k =
          let written =
            selected_text-eq-some documents selection (document chunk.text) text
              (get_elem?-map (λ chunk. document chunk.text) kept selection.document_index chunk
                found)
              chosen in
          let same : e
              ≡ local_chunk chunk (materialize (document chunk.text) selection.sentence_indices) =
            cc in
          (
            selection.document_index,
            chunk,
            found,
            rw same (Quotes-local_chunk (document chunk.text) chunk selection),
          )

  add-quotes :
      (o : Option EvidenceChunk) (rest : List EvidenceChunk)
      → ((e : EvidenceChunk) → o ≡ some e → QuotesOneOf document kept e)
      → All (QuotesOneOf document kept) rest
      → All (QuotesOneOf document kept) (add local_chunk kept documents o rest)
  unfolding add
  add-quotes none rest k h = h
  add-quotes (some e) rest k h = (k e refl, h)

  pub gather-quotes :
      (selections : List Selection)
      → All (QuotesOneOf document kept) (gather local_chunk kept documents selections)
  unfolding gather
  gather-quotes [] = tt
  gather-quotes (selection ∷ selections) =
      add-quotes (gather_one local_chunk kept documents selection) _ (gather_one-quotes selection)
        (gather-quotes selections)

-- What `relevant` keeps: chunks that some grade supports.
abbrev pub SupportedAt : Float → List RetrievedChunk → List ChunkGrade → RetrievedChunk → Type 0
SupportedAt min_relevance chunks items chunk =
    (k : ℕ) × (item : ChunkGrade) × (get_elem? items k ≡ some item)
    × (supports min_relevance item ≡ true)
    × (get_elem? chunks item.index ≡ some chunk)

module _ (min_relevance : Float) (chunks : List RetrievedChunk) where
  keep-eq-ok :
      (item : ChunkGrade) (chunk : RetrievedChunk) (rest : List RetrievedChunk)
      → get_elem? chunks item.index ≡ some chunk
      → keep chunks item (ok rest) ≡ ok (chunk ∷ rest)
  unfolding keep
  keep-eq-ok item chunk rest found = rw (found, keep)

  weaken :
      (x : ChunkGrade) (xs : List ChunkGrade) (c : RetrievedChunk)
      → SupportedAt min_relevance chunks xs c
      → SupportedAt min_relevance chunks (x ∷ xs) c
  weaken x xs c (k, item, at, fit, found) = (suc k, item, at, fit, found)

  All-weaken :
      (x : ChunkGrade) (xs : List ChunkGrade) (cs : List RetrievedChunk)
      → All (SupportedAt min_relevance chunks xs) cs
      → All (SupportedAt min_relevance chunks (x ∷ xs)) cs
  All-weaken x xs [] h = tt
  All-weaken x xs (c ∷ cs) h = (weaken x xs c h.0, All-weaken x xs cs h.1)

  -- With indices in range no index is past the end.
  pub relevant_total :
      (items : List ChunkGrade)
      → All (λ item. item.index < length chunks) items
      → (found : List RetrievedChunk) × (relevant min_relevance chunks items ≡ ok found)
        × All (SupportedAt min_relevance chunks items) found
  unfolding relevant
  relevant_total [] h = ([], refl, tt)
  relevant_total (item ∷ items) h =
      let (found, e, fits) = relevant_total items h.1 in
      let (chunk, at) = get_elem?_total chunks item.index h.0 in
      elim (Bool-cases (supports min_relevance item)) [
        | inl fit ↦ (
          chunk ∷ found,
          rw (fit, e) (keep-eq-ok item chunk found at),
          ((0, item, refl, fit, at), All-weaken item items found fits),
        )
        | inr unfit ↦ (found, rw unfit e, All-weaken item items found fits)
      ]

  pub relevant-nil :
      (items : List ChunkGrade)
      → any (supports min_relevance) items ≡ false
      → relevant min_relevance chunks items ≡ ok []
  unfolding relevant
  relevant-nil [] h = refl
  relevant-nil (item ∷ items) h = ground (arith, relevant-nil items)

pub All-get_elem? {ℓ κ} :
    {A : Type ℓ} (P : A → Type κ) (xs : List A) (i : ℕ) (a : A)
    → All P xs
    → get_elem? xs i ≡ some a
    → P a
All-get_elem? P [] i a h e = cc
All-get_elem? P (x ∷ xs) zero a h e = subst P (cc) h.0
All-get_elem? P (x ∷ xs) (suc i) a h e = All-get_elem? P xs i a h.1 e

pub All-map {ℓ κ μ} :
    {A : Type ℓ} (P : A → Type κ) (Q : A → Type μ) (xs : List A)
    → ((a : A) → P a → Q a)
    → All P xs
    → All Q xs
All-map P Q [] f h = tt
All-map P Q (x ∷ xs) f h = (f x h.0, All-map P Q xs f h.1)
