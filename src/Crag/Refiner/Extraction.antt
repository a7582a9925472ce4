-- ===== src/Crag/Refiner/Extraction.antt =====
-- Where the local evidence comes from.
use enterprise_rag.Prelude.{
  All-take, take-nil, ◌⊎◌, ◌∙◌, ℕ, ◌<◌, String, ◌≡◌, refl, false, List, [], ◌∷◌, map, length, take,
  any, All, is_empty, arith, Bool-cases, inl, inr,
}
use enterprise_rag.PyText.{PyText}
use enterprise_rag.Errors.{
  lift, >>=-eq-raised, Exception, value_error, ok, raised, pure, ◌>>=◌, >>=-eq-ok,
}
use enterprise_rag.Crag.Types.{
  WebEvidence, select_call, RetrievedChunk, ChunkGrade, RetrievalGrade, EvidenceChunk, Calls,
}
use enterprise_rag.Crag.Offline.{
  IsOffline, IsOffline-if, IsOffline-pure, IsOffline-lift, IsOffline-bind,
}
use enterprise_rag.Crag.Grader.{supports}
use enterprise_rag.Crag.Refiner.{
  refine_web, validate_selections, Selection, SelectionModel, RefinerSettings, relevant,
  local_chunk, gather, read_selections, select, document, refine_local,
}
use enterprise_rag.Crag.Refiner.Quotes.{
  Quotes, QuotesOneOf, documents, gather-quotes, SupportedAt, relevant_total, relevant-nil,
  All-get_elem?, All-map,
}

module _ (py : PyText) (model : SelectionModel) (s : RefinerSettings) where
  -- `e` quotes a chunk that some grade supports at the refiner's threshold.
  abbrev pub QuotesSupported : List RetrievedChunk → List ChunkGrade → EvidenceChunk → Type 0
  QuotesSupported chunks items e =
      (chunk : RetrievedChunk) × SupportedAt s.min_relevance chunks items chunk
      × Quotes (document py model s chunk.text) chunk e

  abbrev texts : List RetrievedChunk → List (List String)
  texts kept = map (λ chunk. document py model s chunk.text) kept

  refine_local_lem :
      (question : String) (chunks found : List RetrievedChunk) (grade : RetrievalGrade) (h : Calls)
      → relevant s.min_relevance chunks grade.chunks ≡ ok found
      → refine_local py model s question chunks grade h
        ≡ (select py model s question (texts (take s.max_documents found)) >>= λ selected. pure (
          gather local_chunk
              (take s.max_documents found)
              (texts (take s.max_documents found))
              selected.0,
          selected.1,
        ))
            h
  refine_local_lem question chunks found grade h e = unfold refine_local in rw e refl

  -- Local evidence only quotes: every evidence chunk carries the source, page and score of a chunk
  -- that a grade supports at the refiner's threshold, and its text is a selection of that chunk's
  -- sentences, word for word and in their order.
  pub refine_local-quotes :
      (question : String) (chunks : List RetrievedChunk) (grade : RetrievalGrade) (h : Calls)
      (evidence : List EvidenceChunk) (tokens : ℕ)
      → All (λ item. item.index < length chunks) grade.chunks
      → (refine_local py model s question chunks grade h).0 ≡ ok (evidence, tokens)
      → All (QuotesSupported chunks grade.chunks) evidence
  refine_local-quotes question chunks grade h evidence tokens in_range e =
      let (found, kept_eq, fits) = relevant_total s.min_relevance chunks grade.chunks in_range in
      let kept = take s.max_documents found in
      let kept_fits =
        All-take (SupportedAt s.min_relevance chunks grade.chunks) s.max_documents found fits in
      let (selected, _, last) =
        >>=-eq-ok (select py model s question (texts kept))
          (λ selected. pure (gather local_chunk kept (texts kept) selected.0, selected.1)) h
          (rw (refine_local_lem question chunks found grade h kept_eq) at e) in
      let same : evidence ≡ gather local_chunk kept (texts kept) selected.0 = cc in
      rw same (
        All-map (QuotesOneOf (document py model s) kept) (QuotesSupported chunks grade.chunks) _
          (λ e (i, chunk, at, quotes). (chunk, All-get_elem? _ kept i chunk kept_fits at, quotes))
          (gather-quotes (document py model s) kept selected.0))

  read_selections-raises :
      (r : List Selection × ℕ) (x : Exception)
      → read_selections py model s r ≡ raised x
      → x ≡ value_error
  unfolding read_selections validate_selections
  read_selections-raises (selections, tokens) x e = ground arith

  select-raises :
      (question : String) (documents : List (List String)) (h : Calls) (x : Exception)
      → (select py model s question documents h).0 ≡ raised x
      → (model.generate_structured question documents h ≡ raised x) ⊎ (x ≡ value_error)
  unfolding select
  select-raises question documents h x e = elim (Bool-cases (is_empty documents)) [
    | inl none_given ↦ cc (rw none_given at e)
    | inr given ↦
        elim (>>=-eq-raised (λ h. (model.generate_structured question documents h, select_call ∷ h))
          (λ response. lift (read_selections py model s response)) h (rw given at e)) [
            | inl called ↦ inl called
            | inr (r, _, read) ↦ inr (read_selections-raises r x read)
          ]
  ]

  select-nil : (question : String) (h : Calls) → select py model s question [] h ≡ (ok ([], 0), h)
  unfolding select
  select-nil question h = refl

  -- Refining never searches the web, and never indexes past the chunks: it raises only what the
  -- selection model's call raises, or the `ValueError` of its answer's validation.
  pub refine_local-raises :
      (question : String) (chunks : List RetrievedChunk) (grade : RetrievalGrade) (h : Calls)
      (x : Exception)
      → All (λ item. item.index < length chunks) grade.chunks
      → (refine_local py model s question chunks grade h).0 ≡ raised x
      → ((documents : List (List String)) × (model.generate_structured question documents h
            ≡ raised x))
        ⊎ (x ≡ value_error)
  refine_local-raises question chunks grade h x in_range e =
      let (found, kept_eq, _) = relevant_total s.min_relevance chunks grade.chunks in_range in
      let kept = take s.max_documents found in
      elim (>>=-eq-raised (select py model s question (texts kept))
        (λ selected. pure (gather local_chunk kept (texts kept) selected.0, selected.1)) h
        (rw (refine_local_lem question chunks found grade h kept_eq) at e)) [
          | inl raises ↦ elim (select-raises question (texts kept) h x raises) [
            | inl called ↦ inl (texts kept, called)
            | inr invalid ↦ inr invalid
          ]
          | inr (_, _, last) ↦ cc
        ]

  -- With no chunk that supports the question at the refiner's threshold there is no local evidence,
  -- and the selection model is not called.
  pub refine_local-nil :
      (question : String) (chunks : List RetrievedChunk) (grade : RetrievalGrade) (h : Calls)
      → any (supports s.min_relevance) grade.chunks ≡ false
      → refine_local py model s question chunks grade h ≡ (ok ([], 0), h)
  unfolding gather
  refine_local-nil question chunks grade h none_fit =
      refine_local_lem question chunks [] grade h
        (relevant-nil s.min_relevance chunks grade.chunks none_fit)
      ∙ rw (take-nil s.max_documents, select-nil question h) refl

  select-IsOffline :
      (question : String) (documents : List (List String))
      → IsOffline (select py model s question documents)
  unfolding select
  select-IsOffline question documents =
      IsOffline-if (is_empty documents) _ _ (IsOffline-pure ([], 0)) (
        IsOffline-bind (λ h. (model.generate_structured question documents h, select_call ∷ h)) _
          (record { at = λ h. refl })
          (λ response. IsOffline-lift (read_selections py model s response)))

  pub refine_local-IsOffline :
      (question : String) (chunks : List RetrievedChunk) (grade : RetrievalGrade)
      → IsOffline (refine_local py model s question chunks grade)
  refine_local-IsOffline question chunks grade =
      unfold refine_local in
      IsOffline-bind (lift (relevant s.min_relevance chunks grade.chunks)) _
        (IsOffline-lift (relevant s.min_relevance chunks grade.chunks))
        λ found.
          IsOffline-bind (select py model s question (texts (take s.max_documents found))) _
            (select-IsOffline question (texts (take s.max_documents found))) (λ _. IsOffline-pure _)

  pub refine_web-IsOffline :
      (question : String) (results : List WebEvidence)
      → IsOffline (refine_web py model s question results)
  refine_web-IsOffline question results =
      unfold refine_web in
      let documents = map (λ item. document py model s item.text) (take s.max_documents results) in
      IsOffline-bind (select py model s question documents) _ (select-IsOffline question documents)
        (λ _. IsOffline-pure _)
