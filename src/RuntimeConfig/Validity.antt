-- ===== src/RuntimeConfig/Validity.antt =====
use enterprise_rag.Prelude.{
  ◌≡◌, refl, Bool, true, false, not, ◌&&◌, ◌||◌, ◌⊎◌, inl, inr, arith, eq_iff, str_eq, String,
}
use enterprise_rag.Prelude.Int.{ℤ, pos, ◌≤ℤ◌, leb_ℤ}
use enterprise_rag.Prelude.Float.{zero_float, one_float}
use enterprise_rag.Errors.{Result, ok, raised, value_error}
use enterprise_rag.RuntimeConfig.{RagRuntimeConfig, refuse_if, post_init}

-- What a snapshot promises to the requests that read it.
pub record IsValid (c : RagRuntimeConfig) : Type 0 where
  pub reranker_percent :
      (pos 0 ≤ℤ c.reranker_rollout_percentage) × (c.reranker_rollout_percentage ≤ℤ pos 100)
  pub hyde_percent : (pos 0 ≤ℤ c.hyde_rollout_percentage) × (c.hyde_rollout_percentage ≤ℤ pos 100)
  pub threshold :
      (zero_float ≤ℤ c.semantic_cache_threshold) × (c.semantic_cache_threshold ≤ℤ one_float)
  pub corpus : pos 1 ≤ℤ c.corpus_version
  pub crag_percent : (pos 0 ≤ℤ c.crag_rollout_percentage) × (c.crag_rollout_percentage ≤ℤ pos 100)
  pub web_needs_crag : c.crag_web_enabled ≡ true → c.crag_enabled ≡ true
  pub shadow_needs_crag : c.crag_shadow_enabled ≡ true → c.crag_enabled ≡ true
  pub reflective_percent :
      (pos 0 ≤ℤ c.self_reflective_rollout_percentage)
      × (c.self_reflective_rollout_percentage ≤ℤ pos 100)
  pub shadow_needs_reflection :
      c.self_reflective_shadow_enabled ≡ true → c.self_reflective_enabled ≡ true
  pub retrieval_needs_reflection :
      c.self_reflective_retrieval_enabled ≡ true → c.self_reflective_enabled ≡ true
  pub sql_percent : (pos 0 ≤ℤ c.sql_rollout_percentage) × (c.sql_rollout_percentage ≤ℤ pos 100)
  pub proposal_only : c.sql_proposal_only ≡ true
  pub mode : (c.guardrail_mode ≡ "enforce") ⊎ (c.guardrail_mode ≡ "monitor")

refuse_if-ok {ℓ} :
    {A : Type ℓ} {a : A} (test : Bool) (rest : Result A)
    → refuse_if test rest ≡ ok a
    → (test ≡ false) × (rest ≡ ok a)
unfolding refuse_if
refuse_if-ok true rest h = cc
refuse_if-ok false rest h = (refl, h)

ok-refuse_if {ℓ} :
    {A : Type ℓ} {a : A} (test : Bool) (rest : Result A)
    → test ≡ false
    → rest ≡ ok a
    → refuse_if test rest ≡ ok a
unfolding refuse_if
ok-refuse_if test rest e h = rw e h

range_of : (low x high : ℤ) → not (leb_ℤ low x && leb_ℤ x high) ≡ false → (low ≤ℤ x) × (x ≤ℤ high)
range_of low x high h = ground arith

of_range : (low x high : ℤ) → (low ≤ℤ x) × (x ≤ℤ high) → not (leb_ℤ low x && leb_ℤ x high) ≡ false
of_range low x high h = ground arith

needs_of : (a b : Bool) → (a && not b) ≡ false → a ≡ true → b ≡ true
needs_of a b h = ground arith

of_needs : (a b : Bool) → (a ≡ true → b ≡ true) → (a && not b) ≡ false
of_needs a b h = ground arith

mode_of :
    (m : String)
    → not (str_eq m "enforce" || str_eq m "monitor") ≡ false
    → (m ≡ "enforce") ⊎ (m ≡ "monitor")
mode_of m h = ground (arith, eq_iff m "enforce", eq_iff m "monitor")

of_mode :
    (m : String)
    → (m ≡ "enforce") ⊎ (m ≡ "monitor")
    → not (str_eq m "enforce" || str_eq m "monitor") ≡ false
of_mode m h = ground (arith, eq_iff m "enforce", eq_iff m "monitor")

post_init-IsValid : (c : RagRuntimeConfig) {d : RagRuntimeConfig} → post_init c ≡ ok d → IsValid c
unfolding post_init
post_init-IsValid c h =
    let (a, a') = refuse_if-ok _ _ h in
    let (b, b') = refuse_if-ok _ _ a' in
    let (t, t') = refuse_if-ok _ _ b' in
    let (v, v') = refuse_if-ok _ _ t' in
    let (e, e') = refuse_if-ok _ _ v' in
    let (w, w') = refuse_if-ok _ _ e' in
    let (s, s') = refuse_if-ok _ _ w' in
    let (r, r') = refuse_if-ok _ _ s' in
    let (x, x') = refuse_if-ok _ _ r' in
    let (y, y') = refuse_if-ok _ _ x' in
    let (q, q') = refuse_if-ok _ _ y' in
    let (o, o') = refuse_if-ok _ _ q' in
    let (m, m') = refuse_if-ok _ _ o' in
    record {
      reranker_percent = range_of (pos 0) c.reranker_rollout_percentage (pos 100) a;
      hyde_percent = range_of (pos 0) c.hyde_rollout_percentage (pos 100) b;
      threshold = range_of zero_float c.semantic_cache_threshold one_float t;
      corpus = ground arith;
      crag_percent = range_of (pos 0) c.crag_rollout_percentage (pos 100) e;
      web_needs_crag = needs_of _ _ w;
      shadow_needs_crag = needs_of _ _ s;
      reflective_percent = range_of (pos 0) c.self_reflective_rollout_percentage (pos 100) r;
      shadow_needs_reflection = needs_of _ _ x;
      retrieval_needs_reflection = needs_of _ _ y;
      sql_percent = range_of (pos 0) c.sql_rollout_percentage (pos 100) q;
      proposal_only = ground arith;
      mode = mode_of c.guardrail_mode m;
    }

IsValid-post_init : (c : RagRuntimeConfig) → IsValid c → post_init c ≡ ok c
unfolding post_init
IsValid-post_init c v =
    (ok-refuse_if _ _ (of_range (pos 0) c.reranker_rollout_percentage (pos 100) v.reranker_percent)
      (ok-refuse_if _ _ (of_range (pos 0) c.hyde_rollout_percentage (pos 100) v.hyde_percent) (
        ok-refuse_if _ _ (of_range zero_float c.semantic_cache_threshold one_float v.threshold) (
          ok-refuse_if _ _ (corpus) (
            ok-refuse_if _ _ (of_range (pos 0) c.crag_rollout_percentage (pos 100) v.crag_percent) (
              ok-refuse_if _ _ (of_needs _ _ v.web_needs_crag) (
                ok-refuse_if _ _ (of_needs _ _ v.shadow_needs_crag) (
                  ok-refuse_if _ _
                    (of_range (pos 0) c.self_reflective_rollout_percentage (pos 100)
                      v.reflective_percent)
                    (ok-refuse_if _ _ (of_needs _ _ v.shadow_needs_reflection) (
                      ok-refuse_if _ _ (of_needs _ _ v.retrieval_needs_reflection) (
                        ok-refuse_if _ _
                          (of_range (pos 0) c.sql_rollout_percentage (pos 100) v.sql_percent)
                          (ok-refuse_if _ _ (proposal)
                            (ok-refuse_if _ _ (of_mode c.guardrail_mode v.mode) refl)))))))))))))
  where
    corpus : not (leb_ℤ (pos 1) c.corpus_version) ≡ false
    corpus = let h : pos 1 ≤ℤ c.corpus_version = v.corpus in ground arith

    proposal : not c.sql_proposal_only ≡ false
    proposal = rw v.proposal_only

-- Either the settings themselves or the one error.
abbrev IsSettled : RagRuntimeConfig → Result RagRuntimeConfig → Type 0
IsSettled c out = (out ≡ raised value_error) ⊎ (out ≡ ok c)

refuse_if-IsSettled :
    (c : RagRuntimeConfig) (test : Bool) (rest : Result RagRuntimeConfig)
    → IsSettled c rest
    → IsSettled c (refuse_if test rest)
unfolding refuse_if
refuse_if-IsSettled c true rest h = inl refl
refuse_if-IsSettled c false rest h = h

post_init-IsSettled : (c : RagRuntimeConfig) → IsSettled c (post_init c)
unfolding post_init
post_init-IsSettled c = refuse_if-IsSettled c _ _ (
    refuse_if-IsSettled c _ _ (
      refuse_if-IsSettled c _ _ (
        refuse_if-IsSettled c _ _ (
          refuse_if-IsSettled c _ _ (
            refuse_if-IsSettled c _ _ (
              refuse_if-IsSettled c _ _ (
                refuse_if-IsSettled c _ _ (
                  refuse_if-IsSettled c _ _ (
                    refuse_if-IsSettled c _ _ (
                      refuse_if-IsSettled c _ _
                        (refuse_if-IsSettled c _ _ (refuse_if-IsSettled c _ _ (inr refl)))))))))))))

-- Building a snapshot either succeeds, on settings that are valid and with those very settings, or
-- raises `ValueError`, on settings that are not valid.
pub post_init_total :
    (c : RagRuntimeConfig)
    → (IsValid c × (post_init c ≡ ok c)) ⊎ ((¬ IsValid c) × (post_init c ≡ raised value_error))
post_init_total c = elim (post_init-IsSettled c) [
  | inl refused ↦ inr (λ v. (let e = IsValid-post_init c v in cc), refused)
  | inr made ↦ inl (post_init-IsValid c made, made)
]
