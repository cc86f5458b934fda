-- ===== src/Core/Recommendations.antt =====
-- core/recommended_actions_engine.py: `RecommendedActionsEngine.recommend`.
pub mod Founded
pub mod Sources
use support_agent_platform.Shared.{
  ℕ, suc, ◌-◌, String, ◌<>◌, Bool, true, false, ◌||◌, Option, none, some, List, [], ◌∷◌, ◌++◌, map,
  ◌==◌, ltb, if◌then◌else◌, length, take, select, some_of,
}
use support_agent_platform.Shared.Sort.{sort_by, sort_in}
use support_agent_platform.Shared.Ratio.{at_most, Ratio, one, nought, hundredths, larger, smaller}
use support_agent_platform.Storage.Models.{
  Ticket, Priority, p1, p2, p3, p4, priority_text, KbDocument,
}
use support_agent_platform.Core.IntentRouter.{IntentDecision}
use support_agent_platform.Core.Retrieval.Attribution.{
  Candidate, SourceAttribution, build_source_attributions,
}
use support_agent_platform.Core.Retrieval.SearchKb.{attribution_of}

pub record ActionEvidence : Type 0 where
  pub doc_id : String
  pub source_type : String

pub record RecommendedAction : Type 0 where
  pub action : String
  pub reason : String
  pub source : String
  pub risk : String
  pub confidence : Ratio
  pub evidence : List ActionEvidence

abbrev pub evidence_of : String → String → ActionEvidence
evidence_of doc_id source_type = record { doc_id = doc_id; source_type = source_type }

-- `_bounded_confidence`, of a number that is not negative.
unfoldable pub bounded_confidence : Ratio → Ratio
unfolding smaller larger
bounded_confidence raw = larger nought (smaller one raw)

abbrev pub first_of : List KbDocument → Option KbDocument
first_of [] = none
first_of (d ∷ docs) = some d

abbrev pub by_score : List KbDocument → List KbDocument
by_score = sort_by λ (d : KbDocument). d.score

abbrev is_history : KbDocument → Bool
is_history d = d.source_type == "history_case"

-- `_pick_primary_doc`: the best of the historical cases, or of all where there is none.
unfoldable pub pick_primary_doc : List KbDocument → Option KbDocument
unfolding sort_in at_most
pick_primary_doc docs = elim (first_of (by_score (select is_history docs))) [
  | some d ↦ some d
  | none ↦ first_of (by_score docs)
]

-- The question for a decision of low confidence.
unfoldable pub questions : IntentDecision → List RecommendedAction
unfolding bounded_confidence larger
questions intent =
    if intent.is_low_confidence
    then record {
      action = "向用户追问关键信息";
      reason = "意图置信度较低，需要补充上下文";
      source = "intent_router";
      risk = "误分流风险";
      confidence =
          bounded_confidence (larger (hundredths 30) (hundredths (100 - intent.confidence)));
      evidence = evidence_of ("intent:" <> intent.intent) "intent_router" ∷ [];
    }
      ∷ []
    else []

abbrev pub is_p1 : Priority → Bool
is_p1 p1 = true
is_p1 _ = false

abbrev pub is_overdue : String → Bool
is_overdue breach = breach == "first_response_overdue" || breach == "resolution_overdue"

abbrev pub sla_evidence : String → ActionEvidence
sla_evidence breach = evidence_of ("sla:" <> breach) "sla_policy"

-- What speaks for an escalation.
unfoldable pub urgency_evidence : Priority → List String → List ActionEvidence
unfolding priority_text
urgency_evidence p breaches =
    map sla_evidence breaches
    ++ (if is_p1 p then evidence_of ("priority:" <> priority_text p) "ticket_field" ∷ [] else [])

unfoldable pub escalations : Priority → List String → List RecommendedAction
unfolding urgency_evidence
escalations p breaches =
    if is_p1 p || some_of is_overdue breaches
    then record {
      action = "立即升级到值班负责人";
      reason = "高优先级或SLA违约";
      source = "sla_engine";
      risk = "响应延迟风险";
      confidence = if is_p1 p then hundredths 92 else hundredths 84;
      evidence = urgency_evidence p breaches;
    }
      ∷ []
    else []

abbrev pub doc_evidence : Option KbDocument → List ActionEvidence
doc_evidence none = []
doc_evidence (some d) = evidence_of d.doc_id d.source_type ∷ []

unfoldable pub takeovers : Ticket → Option KbDocument → List RecommendedAction
takeovers t primary =
    if t.intent == "complaint"
    then record {
      action = "触发人工接管";
      reason = "投诉类工单需要人工兜底";
      source = "handoff_policy";
      risk = "客户满意度风险";
      confidence = hundredths 88;
      evidence = evidence_of ("intent:" <> t.intent) "ticket_field" ∷ doc_evidence primary;
    }
      ∷ []
    else []

-- The reason, with the snippet of the document where there is one.
abbrev pub reference_reason : Option SourceAttribution → String
reference_reason none = "检索命中可复用历史处理经验"
reference_reason (some a) =
    if a.snippet == "" then "检索命中可复用历史处理经验" else "检索命中可复用历史处理经验：" <> a.snippet

unfoldable pub references : List SourceAttribution → Option KbDocument → List RecommendedAction
unfolding bounded_confidence attribution_of
references attributions none = []
references attributions (some d) =
    record {
      action = "参考案例/知识: " <> d.title;
      reason = reference_reason (attribution_of d.doc_id attributions);
      source = d.source_type <> ":" <> d.doc_id;
      risk = "知识过期风险";
      confidence = bounded_confidence d.score;
      evidence = evidence_of d.doc_id d.source_type ∷ [];
    }
    ∷ []

-- The retrieved documents as candidates, from a rank on.
unfoldable pub candidates_from : ℕ → List KbDocument → List Candidate
candidates_from index [] = []
candidates_from index (d ∷ docs) =
    record {
      doc = d;
      score = some d.score;
      rank = some index;
      rerank_reason = none;
      lexical_score = none;
      vector_score = none;
      retrieval_mode = some "hybrid";
    }
    ∷ candidates_from (suc index) docs

abbrev has_evidence : RecommendedAction → Bool
has_evidence a = ltb 0 (length a.evidence)

unfoldable pub recommend :
    Ticket → IntentDecision → List KbDocument → List String → List RecommendedAction
unfolding pick_primary_doc build_source_attributions candidates_from questions escalations takeovers
    references
recommend t intent docs breaches =
    let primary = pick_primary_doc docs in
    let attributions =
      build_source_attributions t.latest_message (candidates_from 1 docs) (some 5) in
    take 4 (
      select has_evidence (
        questions intent
        ++ (escalations t.priority breaches
            ++ (takeovers t primary ++ references attributions primary))))
