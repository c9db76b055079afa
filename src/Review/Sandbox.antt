-- ===== src/Review/Sandbox.antt =====
-- The sandboxes of proposals (internal/review/sandbox.go), on the table ai.proposal_sandbox. A data map is
-- stored as its JSON text and read back by `unmarshal`. Go ranges over the keys of two maps in no fixed
-- order; this is one order. `marshal_value` is empty for a value that is no JSON.
pub mod Laws
mod Tests
use baxi.Base.{
  not, Bool, true, false, Option, none, some, List, [], ◌∷◌, ◌++◌, String, str_append, ◌==◌,
  if◌then◌else◌, elem, is_some, ℤ, Driver, Result, ok, err,
}
use baxi.Json.{Fields, Value, null, end, field, get_field}

pub data Stmt : Type 0 where
  insert_sandbox update_sandbox select_sandbox : Stmt

-- A row of the table.
pub record SandboxRow : Type 0 where
  pub sandbox_id : String
  pub case_id : String
  pub proposal_id : Option String
  pub sandbox_data : String
  pub status : String
  pub created_at : ℤ
  pub updated_at : Option ℤ

-- `Sandbox`; its list `ComparedWith` is never written.
pub record Sandbox : Type 0 where
  pub sandbox_id : String
  pub case_id : String
  pub proposal_id : Option String
  pub sandbox_data : Fields
  pub status : String
  pub created_at : ℤ
  pub updated_at : Option ℤ

pub record Env : Type 0 where
  pub driver : Driver Stmt
  pub now : ℤ
  pub sandbox_id : String
  pub marshal : Fields → Result String
  pub unmarshal : String → Option Fields
  pub marshal_value : Value → String

-- `Difference`.
pub record Difference : Type 0 where
  pub field_name : String
  pub value1 : Value
  pub value2 : Value

abbrev pub find_sandbox : String → List SandboxRow → Option SandboxRow
find_sandbox id [] = none
find_sandbox id (r ∷ rs) =
    let rest = find_sandbox id rs in if r.sandbox_id == id then some r else rest

abbrev pub link_proposal : ℤ → String → String → List SandboxRow → List SandboxRow
link_proposal now id proposal_id [] = []
link_proposal now id proposal_id (r ∷ rs) =
    (if r.sandbox_id == id
      then record r { proposal_id = some proposal_id; updated_at = some now }
      else r)
    ∷ link_proposal now id proposal_id rs

-- `CreateSandbox`.
unfoldable pub create_sandbox :
    Env → String → Fields → List SandboxRow → Result (String × List SandboxRow)
create_sandbox env case_id data_map rows = elim (env.marshal data_map) [
  | err m ↦ err (str_append "marshal sandbox data: " m)
  | ok text ↦ elim (env.driver insert_sandbox) [
    | some m ↦ err (str_append "insert proposal_sandbox: " m)
    | none ↦ ok (
      env.sandbox_id,
      rows
          ++ record {
            sandbox_id = env.sandbox_id;
            case_id = case_id;
            proposal_id = none;
            sandbox_data = text;
            status = "draft";
            created_at = env.now;
            updated_at = none;
          }
            ∷ [],
    )
  ]
]

-- `AddProposalToSandbox`.
unfoldable pub add_proposal_to_sandbox :
    Env → String → String → List SandboxRow → Result (List SandboxRow)
add_proposal_to_sandbox env id proposal_id rows = elim (env.driver update_sandbox) [
  | some m ↦ err (str_append "update proposal_sandbox: " m)
  | none ↦
      if is_some (find_sandbox id rows)
      then ok (link_proposal env.now id proposal_id rows)
      else err "add proposal to sandbox: sandbox not found"
]

abbrev pub row_to_sandbox : Env → SandboxRow → Sandbox
row_to_sandbox env r = record {
  sandbox_id = r.sandbox_id;
  case_id = r.case_id;
  proposal_id = r.proposal_id;
  sandbox_data = elim (env.unmarshal r.sandbox_data) [ none ↦ end | some d ↦ d ];
  status = r.status;
  created_at = r.created_at;
  updated_at = r.updated_at;
}

-- `GetSandbox`: a sandbox that is not there is no error.
unfoldable pub get_sandbox : Env → String → List SandboxRow → Result (Option Sandbox)
get_sandbox env id rows = elim (env.driver select_sandbox) [
  | some m ↦ err (str_append "query proposal_sandbox: " m)
  | none ↦ elim (find_sandbox id rows) [
    | none ↦ ok none
    | some r ↦ ok (some (row_to_sandbox env r))
  ]
]

-- The keys of a map, added to a set of keys.
abbrev pub add_keys : Fields → List String → List String
add_keys end keys = keys
add_keys (field k v d) keys = let rest = add_keys d keys in if elem k rest then rest else k ∷ rest

-- The body of the loop of `compareData`.
abbrev pub compare_key : (Value → String) → Fields → Fields → String → List Difference
compare_key marshal d1 d2 k = elim (get_field k d1) [
  | none ↦ elim (get_field k d2) [
    | none ↦ []
    | some v2 ↦ record { field_name = k; value1 = null; value2 = v2 } ∷ []
  ]
  | some v1 ↦ elim (get_field k d2) [
    | none ↦ record { field_name = k; value1 = v1; value2 = null } ∷ []
    | some v2 ↦
        if marshal v1 == marshal v2
        then []
        else record { field_name = k; value1 = v1; value2 = v2 } ∷ []
  ]
]

abbrev pub compare_keys : (Value → String) → Fields → Fields → List String → List Difference
compare_keys marshal d1 d2 [] = []
compare_keys marshal d1 d2 (k ∷ ks) = compare_key marshal d1 d2 k ++ compare_keys marshal d1 d2 ks

-- `compareData`.
unfoldable pub compare_data : (Value → String) → Fields → Fields → List Difference
compare_data marshal d1 d2 = compare_keys marshal d1 d2 (add_keys d1 (add_keys d2 []))

-- `CompareSandbox`: the differences.
unfoldable pub compare_sandbox : Env → String → String → List SandboxRow → Result (List Difference)
unfolding get_sandbox compare_data
compare_sandbox env id1 id2 rows = elim (get_sandbox env id1 rows) [
  | err m ↦ err (str_append "get sandbox 1: " m)
  | ok none ↦ err "get sandbox: sandbox not found"
  | ok (some s1) ↦ elim (get_sandbox env id2 rows) [
    | err m ↦ err (str_append "get sandbox 2: " m)
    | ok none ↦ err "get sandbox: sandbox not found"
    | ok (some s2) ↦ ok (compare_data env.marshal_value s1.sandbox_data s2.sandbox_data)
  ]
]
