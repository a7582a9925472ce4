-- ===== src/Rag/Service/Answering/Production.antt =====
-- The service as `get_rag_service` of app/api/deps.py assembles it: behind the planned, fail-safe
-- versions of reranking, query expansion, corrective retrieval and self-reflection.
use enterprise_rag.Prelude.{◌≡◌, Bool}
use enterprise_rag.Errors.{ok}
use enterprise_rag.RuntimeConfig.Validity.{IsValid}
use enterprise_rag.Crag.Types.{CorrectiveRetriever}
use enterprise_rag.Crag.Plan.{dynamic_plan, dynamic_execute}
use enterprise_rag.Reflection.Types.{SelfReflectionEngine}
use enterprise_rag.Reflection.Serving.{dynamic_reflection_plan, dynamic_reflection_execute}
use enterprise_rag.Rag.World.{World}
use enterprise_rag.Rag.Rerank.{DynamicReranker, dynamic_reranker}
use enterprise_rag.Rag.Hyde.{QueryTransformer, dynamic_transformer}
use enterprise_rag.Rag.Service.{RagService, Request, RetrievalStrategy}
use enterprise_rag.Rag.Service.Planning.{config, effective, resolve}
use enterprise_rag.Rag.Service.Answering.Answers.{Answers}

pub record ProductionParts : Type 0 where
  pub reranker : DynamicReranker
  pub transformer : QueryTransformer
  pub corrector : CorrectiveRetriever
  pub engine : SelfReflectionEngine

-- The other arguments of the constructor call are those of `base`.
abbrev pub get_rag_service : ProductionParts → RagService → RagService
get_rag_service parts base = record base {
  reranker = dynamic_reranker parts.reranker base.functions.py;
  query_transformer = dynamic_transformer parts.transformer base.functions.py;
  corrective_retriever = record {
    plan = dynamic_plan parts.corrector base.functions.py;
    execute = dynamic_execute parts.corrector;
  };
  self_reflection = record {
    plan = dynamic_reflection_plan parts.engine base.functions.py;
    execute = dynamic_reflection_execute parts.engine;
  };
}

module _ (parts : ProductionParts) (base : RagService) (r : Request) (strategy : RetrievalStrategy)
    (valid : IsValid (config base))
    (resolved : resolve (get_rag_service parts base) r.retrieval_mode ≡ ok strategy) where
  abbrev service : RagService
  service = get_rag_service parts base

  abbrev reranking : Bool
  reranking = effective r.reranking_enabled (config base).reranking_enabled
