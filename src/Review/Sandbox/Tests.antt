-- ===== src/Review/Sandbox/Tests.antt =====
-- Sandboxes at concrete maps.
use baxi.Base.{◌≡◌, refl, none, some, [], ◌∷◌, String, pos, ok, err, map}
use baxi.Json.{Fields, Value, null, str, end, field}
use baxi.Review.Sandbox.{
  Env, Sandbox, add_proposal_to_sandbox, get_sandbox, compare_data, compare_sandbox,
}
use baxi.Review.Sandbox.Laws.{differs, reports, compare_data-differs}

abbrev texts : Value → String
texts (str s) = s
texts _ = "null"

abbrev one : Fields
one = field "budget" (str "10") (field "owner" (str "ops") end)

abbrev two : Fields
two = field "owner" (str "ops") (field "budget" (str "20") (field "note" null end))

abbrev env : Env
env = record {
  driver = λ s. none;
  now = pos 3;
  sandbox_id = "sbx_1";
  marshal = λ m. ok "one";
  unmarshal = λ s. some one;
  marshal_value = texts;
}

compares :
    (map (λ d. d.field_name) (compare_data texts one two) ≡ "budget" ∷ "note" ∷ [])
    × (compare_data texts one one ≡ [])
    × (compare_sandbox env "sbx_1" "sbx_2" [] ≡ err "get sandbox: sandbox not found")
    × (add_proposal_to_sandbox env "sbx_2" "prop_1" []
        ≡ err "add proposal to sandbox: sandbox not found")
unfolding compare_data compare_sandbox get_sandbox add_proposal_to_sandbox
compares = (refl, refl, refl, refl)

compare_data-differs_example :
    reports "budget" (compare_data texts one two) ≡ differs texts "budget" one two
compare_data-differs_example = compare_data-differs texts one two "budget"

abbrev read_back : Sandbox
read_back = record {
  sandbox_id = "sbx_1";
  case_id = "case_1";
  proposal_id = none;
  sandbox_data = one;
  status = "draft";
  created_at = pos 3;
  updated_at = none;
}
