-- ===== src/Crag/Refiner.antt =====
-- app/rag_services/crag/crag_refiner.py: a model selects sentences by their indices, and the
-- evidence is put together from the sentences of the sources themselves.
pub mod Quotes
pub mod Extraction
use Prim.Native.String.{◌++◌}
use enterprise_rag.Prelude.{
  ℕ, zero, suc, String, Bool, true, false, not, ◌&&◌, ◌||◌, Option, none, some, List, [], ◌∷◌, map,
  length, take, get_elem?, filter, is_empty, ltb, leb, str_eq, if◌then◌else◌,
}
use enterprise_rag.Prelude.Float.{Float, le}
use enterprise_rag.Prelude.Int.{ℤ, pos, negsuc}
use enterprise_rag.PyText.{PyText, join}
use enterprise_rag.Errors.{
  Exception, index_error, value_error, Result, ok, raised, Action, pure, lift, ◌>>=◌,
}
use enterprise_rag.Crag.Types.{
  RetrievedChunk, ChunkGrade, RetrievalGrade, EvidenceChunk, EvidenceOrigin, WebEvidence, Calls,
  select_call, KnowledgeRefiner,
}
use enterprise_rag.Crag.Grader.{supports}

-- `_Selection`. A negative document index is refused by the reader of the JSON text.
pub record Selection : Type 0 where
  pub document_index : ℕ
  pub sentence_indices : List ℤ

-- The structured model call: the question and the documents that it is shown.
pub record SelectionModel : Type 0 where
  pub generate_structured : String → List (List String) → Calls → Result (List Selection × ℕ)

pub record RefinerSettings : Type 0 where
  pub model : String
  pub prompt_version : String
  pub min_relevance : Float
  pub max_documents : ℕ
  pub max_sentences : ℕ

eq_ℤ : ℤ → ℤ → Bool
eq_ℤ (pos a) (pos b) = leb a b && leb b a
eq_ℤ (negsuc a) (negsuc b) = leb a b && leb b a
eq_ℤ _ _ = false

mem_ℤ : ℤ → List ℤ → Bool
unfolding eq_ℤ
mem_ℤ n [] = false
mem_ℤ n (x ∷ xs) = eq_ℤ x n || mem_ℤ n xs

-- `unique_sentences`
unique_sentences : List ℤ → Bool
unfolding mem_ℤ
unique_sentences [] = true
unique_sentences (x ∷ xs) = not (mem_ℤ x xs) && unique_sentences xs

all_unique : List Selection → Bool
unfolding unique_sentences
all_unique [] = true
all_unique (s ∷ rest) = unique_sentences s.sentence_indices && all_unique rest

validate_selections : List Selection → Result (List Selection)
unfolding all_unique
validate_selections selections = if all_unique selections then ok selections else raised value_error

-- `[index for index in indices if 0 <= index < n]`
valid_indices : ℕ → List ℤ → List ℕ
valid_indices n [] = []
valid_indices n (negsuc _ ∷ is) = valid_indices n is
valid_indices n (pos i ∷ is) = let rest = valid_indices n is in if ltb i n then i ∷ rest else rest

-- `sorted(...)`
pub insert : ℕ → List ℕ → List ℕ
insert n [] = n ∷ []
insert n (x ∷ xs) = if leb n x then n ∷ x ∷ xs else x ∷ insert n xs

pub sorted : List ℕ → List ℕ
unfolding insert
sorted [] = []
sorted (x ∷ xs) = insert x (sorted xs)

-- `sentences[index] for index in ...`. The indices were filtered, so the empty case is not met.
pub pick : List String → List ℕ → List String
pick sentences [] = []
pick sentences (i ∷ is) = elim (get_elem? sentences i) [
  | none ↦ pick sentences is
  | some s ↦ s ∷ pick sentences is
]

pub materialize : List String → List ℤ → String
unfolding pick sorted valid_indices
materialize sentences indices =
    join " " (pick sentences (sorted (valid_indices (length sentences) indices)))

nonempty : String → Bool
nonempty s = not (str_eq s "")

module _ (py : PyText) where
  unfoldable pub split_sentences : String → List String
  unfolding nonempty
  split_sentences text =
      let normalized = join " " (py.split text) in
      if str_eq normalized ""
      then []
      else map py.strip
          (filter (λ part. nonempty (py.strip part)) (py.split_at_boundaries normalized))

-- `chunks[item.index]` for each graded chunk that is kept; an index past the end raises.
pub keep :
    List RetrievedChunk → ChunkGrade → Result (List RetrievedChunk) → Result (List RetrievedChunk)
keep chunks item (raised e) = raised e
keep chunks item (ok rest) = elim (get_elem? chunks item.index) [
  | none ↦ raised index_error
  | some chunk ↦ ok (chunk ∷ rest)
]

pub relevant : Float → List RetrievedChunk → List ChunkGrade → Result (List RetrievedChunk)
unfolding keep
relevant min_relevance chunks [] = ok []
relevant min_relevance chunks (item ∷ items) =
    let rest = relevant min_relevance chunks items in
    if supports min_relevance item then keep chunks item rest else rest

-- One selection of a document: its text, if there is a document and some text is left.
pub selected_text : List (List String) → Selection → Option String
unfolding nonempty materialize
selected_text documents selection = elim (get_elem? documents selection.document_index) [
  | none ↦ none
  | some sentences ↦
      let text = materialize sentences selection.sentence_indices in
      if nonempty text then some text else none
]

pub local_chunk : RetrievedChunk → String → EvidenceChunk
local_chunk chunk text = record {
  text = text;
  source = chunk.source;
  page_number = chunk.page_number;
  retrieval_score = chunk.score;
  origin = EvidenceOrigin.policy;
  canonical_url = none;
  retrieved_at_iso = none;
}

web_chunk : WebEvidence → String → EvidenceChunk
web_chunk source text = record {
  text = text;
  source = source.title;
  page_number = none;
  retrieval_score = source.score;
  origin = EvidenceOrigin.regulatory_web;
  canonical_url = some source.canonical_url;
  retrieved_at_iso = some source.retrieved_at_iso;
}

-- The loop over the selections, for local chunks and for web results.
module _ {S : Type 0} (make : S → String → EvidenceChunk) (sources : List S)
    (documents : List (List String)) where
  pub gather_one : Selection → Option EvidenceChunk
  gather_one selection = elim (get_elem? sources selection.document_index) [
    | none ↦ none
    | some source ↦ elim (selected_text documents selection) [
      | none ↦ none
      | some text ↦ some (make source text)
    ]
  ]

  pub add : Option EvidenceChunk → List EvidenceChunk → List EvidenceChunk
  add none rest = rest
  add (some e) rest = e ∷ rest

  pub gather : List Selection → List EvidenceChunk
  gather [] = []
  gather (selection ∷ selections) = add (gather_one selection) (gather selections)

module _ (py : PyText) (model : SelectionModel) (s : RefinerSettings) where
  pub refiner_namespace : String
  refiner_namespace =
      "refiner="
      ++ s.model
      ++ ":prompt="
      ++ s.prompt_version
      ++ ":min="
      ++ py.fixed3 s.min_relevance
      ++ ":docs="
      ++ py.str_of_int s.max_documents
      ++ ":sentences="
      ++ py.str_of_int s.max_sentences

  read_selections : List Selection × ℕ → Result (List Selection × ℕ)
  unfolding validate_selections
  read_selections (selections, tokens) = elim (validate_selections selections) [
    | ok valid ↦ ok (valid, tokens)
    | raised e ↦ raised e
  ]

  pub select : String → List (List String) → Action Calls (List Selection × ℕ)
  unfolding read_selections
  select question documents =
      if is_empty documents
      then pure ([], 0)
      else (λ h. (model.generate_structured question documents h, select_call ∷ h)) >>= λ response.
          lift (read_selections response)

  pub document : String → List String
  unfolding split_sentences
  document text = take s.max_sentences (split_sentences py text)

  unfoldable pub refine_local :
      String → List RetrievedChunk → RetrievalGrade → Action Calls (List EvidenceChunk × ℕ)
  unfolding relevant document select gather gather_one add selected_text local_chunk
  refine_local question chunks grade = do
    found ← lift (relevant s.min_relevance chunks grade.chunks)
    let kept = take s.max_documents found
    let documents = map (λ chunk. document chunk.text) kept
    selected ← select question documents
    pure (gather local_chunk kept documents selected.0, selected.1)

  unfoldable pub refine_web : String → List WebEvidence → Action Calls (List EvidenceChunk × ℕ)
  unfolding document select gather gather_one add selected_text web_chunk
  refine_web question results = do
    let kept = take s.max_documents results
    let documents = map (λ item. document item.text) kept
    selected ← select question documents
    pure (gather web_chunk kept documents selected.0, selected.1)

  abbrev pub extractive_refiner : KnowledgeRefiner
  extractive_refiner = record {
    cache_namespace = refiner_namespace;
    refine_local = refine_local;
    refine_web = refine_web;
  }
