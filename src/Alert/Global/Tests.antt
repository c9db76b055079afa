-- ===== src/Alert/Global/Tests.antt =====
-- The global rules over series of one value, with numbers for the floats.
use baxi.Base.{
  ◌≡◌, refl, true, some, List, [], ◌∷◌, String, ◌==◌, if◌then◌else◌, ℕ, suc, zero, ◌+◌, ◌-◌, ◌*◌,
  ◌/◌, ◌^◌, ltb, nat_eq, pos, All, ok,
}
use baxi.Alert.Global.{Env, AlertResult, evaluate_global_rules, avg}
use baxi.Alert.Global.Fires.{gmv_fires, late_fires, cancel_fires}
use baxi.Alert.Global.Laws.{evaluate_global_rules-Fires, names, name_if, series_of, IsOfDay}

abbrev repeat : ℕ → String → List String → List String
repeat zero s rest = rest
repeat (suc n) s rest = s ∷ repeat n s rest

-- Natural numbers in hundredths.
abbrev env : Env ℕ
env = record {
  floats = record {
    zero_float = 0;
    of_int = λ z. elim z [ pos n ↦ n * 100 | _ ↦ 0 ];
    of_nat = λ n. n * 100;
    add = λ a b. a + b;
    sub = λ a b. a - b;
    mul = λ a b. a * b / 100;
    div = λ a b. a * 100 / b;
    less = ltb;
    equal = nat_eq;
  };
  literal = λ m places. m * 100 / 10 ^ places;
  round = λ v. v;
  to_int = λ v. pos (v / 100);
  scan = λ s. some (if s == "low" then 800 else 1000);
  print = λ v. "";
  print_int = λ v. "";
  print2 = λ v. "";
  print4 = λ v. "";
  encode = λ fields. some "{}";
  max_date = ok "2018-08-01";
  rows = λ column date.
      ok (if column == "gmv" then repeat 7 "low" (repeat 14 "high" []) else "high" ∷ []);
}

abbrev gmv_rows : List String
gmv_rows = repeat 7 "low" (repeat 14 "high" [])

abbrev short : List String
short = "high" ∷ []

fires : gmv_fires env (series_of env 21 gmv_rows) ≡ true
unfolding avg
fires = refl

evaluate_global_rules-Fires_example :
    (rs : List (AlertResult ℕ)) × (evaluate_global_rules env ≡ ok rs)
    × (names env rs
        ≡ name_if env (gmv_fires env (series_of env 21 gmv_rows)) "gmv_drop" (
            name_if env
              (late_fires env (series_of env 21 short) (series_of env 1 short))
              "late_delivery_spike"
              (name_if env (cancel_fires env (series_of env 21 short)) "cancel_rate_spike" [])))
    × All (IsOfDay env "2018-08-01") rs
evaluate_global_rules-Fires_example =
    evaluate_global_rules-Fires env "2018-08-01" gmv_rows short short short refl refl refl refl refl
