-- ===== src/Recommendation/Templates.antt =====
-- The texts of recommendations (internal/recommendation/generator.go).
use baxi.Base.{
  Bool, false, Option, none, some, List, [], ◌∷◌, String, str_append, ◌==◌, if◌then◌else◌, ℤ, pos,
  ltb_ℤ, ℕ, ◌*◌,
}

-- `AlertData`.
pub record AlertData (F : Type 0) : Type 0 where
  pub alert_id : String
  pub rule_id : String
  pub event_date : String
  pub severity : String
  pub metric_name : String
  pub object_type : String
  pub object_id : String
  pub current_value : Option F
  pub baseline_value : Option F
  pub change_rate : Option F
  pub sample_size : Option ℤ
  pub affected_orders : Option ℤ
  pub affected_gmv : Option F
  pub description : String
  pub owner_role : String

-- What a template renders.
pub record Texts : Type 0 where
  pub title : String
  pub detail : String
  pub impact : String
  pub success_metric : String
  pub confidence : String
  pub requires_approval : Bool

pub record Formats (F : Type 0) : Type 0 where
  pub print4 : F → String
  pub print2 : F → String
  pub print_percent : F → String
  pub print_int : ℤ → String

abbrev pub join : List String → String
join [] = ""
join (s ∷ ss) = str_append s (join ss)

-- `orElseFmt`.
abbrev pub or_else_fmt {ℓ} : {A : Type ℓ} → Option A → String → (A → String) → String
or_else_fmt none fallback print = fallback
or_else_fmt (some a) fallback print = print a

-- `confidenceFromSample`.
unfoldable pub confidence_from_sample : Option ℤ → ℕ → String
confidence_from_sample none min = "low"
confidence_from_sample (some s) min =
    if ltb_ℤ (pos (min * 2)) s then "high" else if ltb_ℤ (pos min) s then "medium" else "low"

abbrev title_of : String → String → String → String
title_of kind id metric = join (kind ∷ " " ∷ id ∷ ": " ∷ metric ∷ " anomaly" ∷ [])

module _ {F : Type 0} where
  -- `ptrFmt6d`, `ptrFmt2d` and `ptrFmtInt`.
  abbrev pub text4 : Formats F → Option F → String
  text4 env p = or_else_fmt p "0.0000" env.print4

  abbrev pub text2 : Formats F → Option F → String
  text2 env p = or_else_fmt p "0.00" env.print2

  abbrev pub text_int : Formats F → Option ℤ → String
  text_int env p = or_else_fmt p "0" env.print_int

  -- `templateSellerDelivery`.
  unfoldable pub template_seller_delivery : Formats F → AlertData F → Texts
  template_seller_delivery env a = record {
    title = title_of "seller" a.object_id "late_delivery_rate";
    detail = join (
        "【问题】卖家 "
        ∷ a.object_id
        ∷ " 延迟配送率达到 "
        ∷ text4 env a.current_value
        ∷ "，高于阈值 0.25。\n【证据】样本订单数 "
        ∷ text_int env a.sample_size
        ∷ "，影响 GMV "
        ∷ text2 env a.affected_gmv
        ∷ "，规则 "
        ∷ a.rule_id
        ∷ "。\n【判断】该卖家可能存在发货、库存或物流交接问题。\n【建议动作】请卖家运营检查该卖家近期订单履约链路，确认是否需要限制流量或人工沟通。\n【预期收益】降低延迟配送率，减少差评与取消风险。\n【验收指标】未来 7 日该卖家 late_delivery_rate 低于 20。"
        ∷ []);
    impact = "Stabilize late_delivery_rate";
    success_metric = "late_delivery_rate";
    confidence = confidence_from_sample a.sample_size 20;
    requires_approval = false;
  }

  -- `templateSellerReview`.
  unfoldable pub template_seller_review : Formats F → AlertData F → Texts
  template_seller_review env a = record {
    title = title_of "seller" a.object_id "avg_review_score";
    detail = join (
        "【问题】卖家 "
        ∷ a.object_id
        ∷ " 平均评分 "
        ∷ text4 env a.current_value
        ∷ "，低于阈值 3.5。\n【证据】样本订单数 "
        ∷ text_int env a.sample_size
        ∷ "，影响 GMV "
        ∷ text2 env a.affected_gmv
        ∷ "，规则 "
        ∷ a.rule_id
        ∷ "。\n【判断】该卖家可能存在商品质量、描述不符或服务问题。\n【建议动作】请卖家运营审查该卖家商品评价，确认是否存在质量问题。\n【预期收益】提升卖家评分，改善买家体验。\n【验收指标】未来 7 日该卖家 avg_review_score 高于 3.5。"
        ∷ []);
    impact = "Stabilize avg_review_score";
    success_metric = "avg_review_score";
    confidence = confidence_from_sample a.sample_size 20;
    requires_approval = false;
  }

  -- `templateCategoryGMV`.
  unfoldable pub template_category_gmv : Formats F → AlertData F → Texts
  template_category_gmv env a = record {
    title = title_of "category" a.object_id "gmv";
    detail = join (
        "【问题】品类 "
        ∷ a.object_id
        ∷ " GMV 环比下降 "
        ∷ text4 env a.current_value
        ∷ "，跌幅超过 20。\n【证据】样本订单数 "
        ∷ text_int env a.sample_size
        ∷ "，规则 "
        ∷ a.rule_id
        ∷ "。\n【判断】该品类可能存在需求下降、库存不足或竞品冲击。\n【建议动作】请品类运营分析该品类近期销售趋势，确认是否需要调整营销策略。\n【预期收益】恢复品类 GMV 至正常水平。\n【验收指标】未来 14 日该品类 GMV 环比跌幅收窄至 10% 以内。"
        ∷ []);
    impact = "Stabilize gmv";
    success_metric = "gmv";
    confidence = confidence_from_sample a.sample_size 30;
    requires_approval = false;
  }

  -- `templateCategoryReview`.
  unfoldable pub template_category_review : Formats F → AlertData F → Texts
  template_category_review env a = record {
    title = title_of "category" a.object_id "low_review_rate";
    detail = join (
        "【问题】品类 "
        ∷ a.object_id
        ∷ " 差评率达到 "
        ∷ text4 env a.current_value
        ∷ "，超过阈值 15。\n【证据】样本评价数 "
        ∷ text_int env a.sample_size
        ∷ "，影响 GMV "
        ∷ text2 env a.affected_gmv
        ∷ "，规则 "
        ∷ a.rule_id
        ∷ "。\n【判断】该品类可能存在普遍质量问题或描述不符。\n【建议动作】请品类运营抽查该品类近期差评，确认是否存在系统性问题。\n【预期收益】降低品类差评率，改善买家满意度。\n【验收指标】未来 7 日该品类 low_review_rate 低于 12。"
        ∷ []);
    impact = "Stabilize low_review_rate";
    success_metric = "low_review_rate";
    confidence = confidence_from_sample a.sample_size 30;
    requires_approval = false;
  }

  -- `templateRegionCancel`.
  unfoldable pub template_region_cancel : Formats F → AlertData F → Texts
  template_region_cancel env a = record {
    title = title_of "region" a.object_id "cancel_rate";
    detail = join (
        "【问题】区域 "
        ∷ a.object_id
        ∷ " 取消率达到 "
        ∷ text4 env a.current_value
        ∷ "，超过阈值 5。\n【证据】样本订单数 "
        ∷ text_int env a.sample_size
        ∷ "，影响 GMV "
        ∷ text2 env a.affected_gmv
        ∷ "，规则 "
        ∷ a.rule_id
        ∷ "。\n【判断】该区域可能存在物流覆盖不足或卖家集中取消问题。\n【建议动作】请物流运营分析该区域取消原因，确认是否需要调整物流策略。\n【预期收益】降低区域取消率，提升订单完成率。\n【验收指标】未来 7 日该区域 cancel_rate 低于 4。"
        ∷ []);
    impact = "Stabilize cancel_rate";
    success_metric = "cancel_rate";
    confidence = confidence_from_sample a.sample_size 30;
    requires_approval = false;
  }

  -- `templateRegionDelivery`.
  unfoldable pub template_region_delivery : Formats F → AlertData F → Texts
  template_region_delivery env a = record {
    title = title_of "region" a.object_id "late_delivery_rate";
    detail = join (
        "【问题】区域 "
        ∷ a.object_id
        ∷ " 延迟配送率达到 "
        ∷ text4 env a.current_value
        ∷ "，超过阈值 20。\n【证据】样本订单数 "
        ∷ text_int env a.sample_size
        ∷ "，影响 GMV "
        ∷ text2 env a.affected_gmv
        ∷ "，规则 "
        ∷ a.rule_id
        ∷ "。\n【判断】该区域可能存在物流配送瓶颈或基础设施问题。\n【建议动作】请物流运营排查该区域物流链路，确认是否需要增加配送资源。\n【预期收益】降低区域延迟配送率，改善履约体验。\n【验收指标】未来 7 日该区域 late_delivery_rate 低于 18。"
        ∷ []);
    impact = "Stabilize late_delivery_rate";
    success_metric = "late_delivery_rate";
    confidence = confidence_from_sample a.sample_size 30;
    requires_approval = false;
  }

  -- `templateGlobalRule`, with the cut description.
  unfoldable pub template_global_rule : Formats F → AlertData F → String → Texts
  template_global_rule env a cut = record {
    title = str_append "Investigate: " cut;
    detail = join (
        "Rule '"
        ∷ a.rule_id
        ∷ "' triggered for "
        ∷ a.metric_name
        ∷ " on "
        ∷ a.event_date
        ∷ ". Current: "
        ∷ or_else_fmt a.current_value "N/A" env.print4
        ∷ ", Baseline: "
        ∷ or_else_fmt a.baseline_value "N/A" env.print4
        ∷ ", Change: "
        ∷ or_else_fmt a.change_rate "N/A" env.print_percent
        ∷ "."
        ∷ []);
    impact = str_append "Stabilize " a.metric_name;
    success_metric = a.metric_name;
    confidence = "medium";
    requires_approval = false;
  }

  -- `ruleTemplateMap`, at the rule of the alert.
  unfoldable pub dimensional_texts : Formats F → AlertData F → Option Texts
  unfolding template_seller_delivery template_seller_review template_category_gmv
      template_category_review template_region_cancel template_region_delivery
  dimensional_texts env a =
      if a.rule_id == "seller_late_delivery_spike"
      then some (template_seller_delivery env a)
      else if a.rule_id == "seller_review_score_drop"
      then some (template_seller_review env a)
      else if a.rule_id == "category_gmv_drop"
      then some (template_category_gmv env a)
      else if a.rule_id == "category_low_review_cluster"
      then some (template_category_review env a)
      else if a.rule_id == "region_cancel_rate_spike"
      then some (template_region_cancel env a)
      else if a.rule_id == "region_late_delivery_spike"
      then some (template_region_delivery env a)
      else none
