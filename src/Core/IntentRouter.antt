-- ===== src/Core/IntentRouter.antt =====
-- core/intent_router.py: the intent of a message by its keywords. Scores are in hundredths.
pub mod Best
use support_agent_platform.Shared.{
  ℕ, zero, suc, ◌+◌, ◌*◌, String, ◌<>◌, Bool, true, false, List, [], ◌∷◌, ◌==◌, ltb, if◌then◌else◌,
  pos,
}
use support_agent_platform.Shared.Sort.{sort_desc, sort_in}
use support_agent_platform.Shared.Text.{strip, lower, occurs_in}
use support_agent_platform.Shared.Number.{str_float}

pub record IntentDecision : Type 0 where
  pub intent : String
  pub confidence : ℕ
  pub is_low_confidence : Bool
  pub reason : String

pub record IntentRouter : Type 0 where
  pub threshold : ℕ
  pub fallback : String

abbrev pub default_router : IntentRouter
default_router = record { threshold = 58; fallback = "other" }

-- `_intent_keywords`, without "other", which `route` leaves out.
abbrev pub intent_keywords : List (String × List String)
intent_keywords =
    ("greeting", "你好" ∷ "您好" ∷ "hello" ∷ "hey" ∷ "hi" ∷ "在吗" ∷ "早上好" ∷ "下午好" ∷ "晚上好" ∷ [])
    ∷ (
      "faq",
      "怎么" ∷ "如何" ∷ "查询" ∷ "帮助" ∷ "help" ∷ "faq" ∷ "咨询" ∷ "流程" ∷ "步骤" ∷ "指引" ∷ "指南" ∷ "说明" ∷ "怎么办"
          ∷ "能做什么" ∷ [],
    )
    ∷ ("progress_query", "进度" ∷ "到哪" ∷ "什么时候" ∷ "谁在跟进" ∷ "谁跟进" ∷ "状态" ∷ [])
    ∷ ("repair", "报修" ∷ "故障" ∷ "坏了" ∷ "维修" ∷ "中断" ∷ [])
    ∷ ("complaint", "投诉" ∷ "差评" ∷ "生气" ∷ "不满意" ∷ "赔偿" ∷ [])
    ∷ ("billing", "费用" ∷ "扣费" ∷ "账单" ∷ "发票" ∷ "退款" ∷ "支付" ∷ [])
    ∷ []

-- The keywords that occur in the message.
unfoldable pub hits : String → List String → ℕ
unfolding occurs_in
hits message [] = 0
hits message (word ∷ keywords) =
    let rest = hits message keywords in if occurs_in word message then suc rest else rest

-- `min(1.0, 0.65 + 0.2 * (hits - 1))` for at least one keyword.
unfoldable pub score_of : ℕ → ℕ
score_of zero = 0
score_of (suc n) = if ltb (65 + 20 * n) 100 then 65 + 20 * n else 100

unfoldable pub score_intent : String → List String → ℕ
unfolding hits score_of
score_intent message keywords = score_of (hits message keywords)

unfoldable pub scored : String → List (String × List String) → List (String × ℕ)
unfolding score_intent
scored message [] = []
scored message (row ∷ table) = (row.0, score_intent message row.1) ∷ scored message table

abbrev pub score : String × ℕ → ℕ
score row = row.1

-- The first of the sorted scores.
abbrev pub best : String → List (String × ℕ) → String × ℕ
best fallback [] = (fallback, 0)
best fallback (row ∷ rows) = row

-- The decision on a best score, which is never above a hundred.
unfoldable pub decide : IntentRouter → String × ℕ → IntentDecision
unfolding str_float
decide router row =
    if ltb row.1 router.threshold
    then record {
      intent = router.fallback;
      confidence = row.1;
      is_low_confidence = true;
      reason = "below-threshold:" <> str_float (pos router.threshold) 2;
    }
    else record {
      intent = row.0;
      confidence = row.1;
      is_low_confidence = false;
      reason = "keyword-match";
    }

unfoldable pub route : IntentRouter → String → IntentDecision
unfolding strip lower scored sort_in
route router message =
    let normalized = strip (lower message) in
    if normalized == ""
    then record {
      intent = router.fallback;
      confidence = 0;
      is_low_confidence = true;
      reason = "empty-message";
    }
    else decide router (best router.fallback (sort_desc score (scored normalized intent_keywords)))
