-- ===== src/Recommendation/Tests.antt =====
-- A run of the generator and its tasks, on concrete alerts.
use baxi.Base.{◌≡◌, refl, false, none, some, List, [], ◌∷◌, String, ℕ, length, map, pos, ok}
use baxi.Recommendation.{
  Recommendation, Env, generate, recommend, texts_of, trunc_str, task_of, derive_priority,
}
use baxi.Recommendation.Templates.{
  AlertData, template_global_rule, dimensional_texts, confidence_from_sample,
}
use baxi.Recommendation.Laws.{
  find, or_found, rows_of, IsTaskOf, generate-idempotent, task_of-recommend,
}

abbrev env : Env ℕ
env = record {
  driver = λ s. none;
  formats = record {
    print4 = λ n. "0.4000";
    print2 = λ n. "12.00";
    print_percent = λ n. "40.00%";
    print_int = λ n. "60";
  };
  trim_space = λ s. s;
  comes_before = λ s t. false;
}

abbrev drop_alert : AlertData ℕ
drop_alert = record {
  alert_id = "gmv_drop_2018-08-01";
  rule_id = "gmv_drop";
  event_date = "2018-08-01";
  severity = "critical";
  metric_name = "gmv";
  object_type = "global";
  object_id = "global";
  current_value = some 40;
  baseline_value = none;
  change_rate = none;
  sample_size = some (pos 21);
  affected_orders = none;
  affected_gmv = none;
  description = "GMV drop";
  owner_role = "";
}

abbrev seller_alert : AlertData ℕ
seller_alert = record drop_alert {
  alert_id = "dim-1f";
  rule_id = "seller_review_score_drop";
  severity = "high";
  object_type = "seller";
  object_id = "s_1";
  sample_size = some (pos 60);
}

abbrev alerts : List (AlertData ℕ)
alerts = drop_alert ∷ seller_alert ∷ drop_alert ∷ []

after : List Recommendation
after = (generate env alerts []).1

ran : generate env alerts [] ≡ (ok 3, after)
unfolding after generate recommend texts_of trunc_str template_global_rule dimensional_texts
    confidence_from_sample
ran = refl

ran_once :
    map {B = String × String} (λ r. (r.recommendation_id, r.confidence)) after
    ≡ ("rec-gmv_drop_2018-08-01", "medium") ∷ ("rec-dim-1f", "high") ∷ []
unfolding after generate recommend texts_of trunc_str template_global_rule dimensional_texts
    confidence_from_sample
ran_once = refl

-- A text is cut at a byte, and what is then no text is refused.
cuts : (trunc_str (λ s. s) "ab" 1 ≡ some "a") × (trunc_str (λ s. s) "aλ" 2 ≡ none)
unfolding trunc_str
cuts = (refl, refl)

generate-idempotent_example :
    (3 ≡ length alerts)
    × ((k : String) → find k after ≡ or_found none (find k (rows_of env alerts)))
    × (generate env alerts after ≡ (ok 3, after))
generate-idempotent_example = generate-idempotent env alerts [] after 3 ran

seller_row : (r : Recommendation) × (recommend env seller_alert ≡ some r)
unfolding recommend texts_of trunc_str template_global_rule dimensional_texts confidence_from_sample
seller_row = (_, refl)

task_of-recommend_example : IsTaskOf seller_alert (task_of seller_row.0)
task_of-recommend_example = task_of-recommend env seller_alert seller_row.0 seller_row.1

critical_is_medium : derive_priority "critical" ≡ "medium"
unfolding derive_priority
critical_is_medium = refl
