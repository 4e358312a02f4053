-- ===== src/Plugin/Validator.antt =====
-- aqap/plugins/validator.py. `shown` is `f"{v}"`; the list `required_fields` holds texts.
pub mod Reports
use aqap.Prelude.{
  ℕ, suc, String, Bool, true, false, not, ◌&&◌, List, [], ◌∷◌, ◌++◌, if◌then◌else◌, Result, ok, err,
  bind, type_error, attribute_error, key_error, Option, none, some, ◌==◌,
}
use aqap.Value.{
  Value, null, bool, int, float, pos, str, arr, obj, Items, nil, cons, Fields, end, field,
  get_field, get_field_or, has_field, truthy, is_bool,
}
use aqap.Text.{◌+s◌}

-- the default of `initialize`
abbrev pub default_required : List String
default_required = "task_id" ∷ "passed" ∷ []

unfoldable pub missing_fields : List String → Fields → List String
missing_fields [] context = []
missing_fields (name ∷ names) context =
    let rest = missing_fields names context in
    if has_field name context then rest else ("缺少必填字段: " +s name) ∷ rest

unfoldable pub passed_issues : Fields → List String
passed_issues context =
    if has_field "passed" context && not (is_bool (get_field_or "passed" null context))
    then "'passed' 字段必须为布尔值" ∷ []
    else []

-- what a `for` loop over a value goes through, where its body calls `get` of each item
unfoldable pub items_of : Value → Result Items
items_of (arr vs) = ok vs
items_of (obj end) = ok nil
items_of (obj (field k v fs)) = err attribute_error
items_of (str s) = if s == "" then ok nil else err attribute_error
items_of _ = err type_error

unfoldable pub error_issues : (Value → String) → Items → Result (List String)
unfolding truthy
error_issues shown nil = ok []
error_issues shown (cons (obj fs) rest) =
    let later = error_issues shown rest in
    if truthy (get_field_or "error" null fs)
    then elim (get_field "plugin" fs) [
      | none ↦ err key_error
      | some plugin ↦ bind later (λ issues.
          ok (
            ("插件执行错误: " +s shown plugin +s " — " +s shown (get_field_or "error" null fs)) ∷ issues))
    ]
    else later
error_issues shown (cons _ rest) = err attribute_error

abbrev texts : List String → Items
texts [] = nil
texts (s ∷ ss) = cons (str s) (texts ss)

abbrev is_clean : List String → Bool
is_clean [] = true
is_clean (s ∷ ss) = false

abbrev size : Fields → ℕ
size end = 0
size (field k v fs) = suc (size fs)

unfoldable pub report : String → Fields → List String → Fields
report now context issues = field "passed" (bool (is_clean issues)) (
    field "issues" (arr (texts issues))
      (field "field_count" (int (pos (size context))) (field "validated_at" (str now) end)))

-- ValidatorPlugin.execute, at the time `now`
unfoldable pub execute : (Value → String) → List String → String → Fields → Result Fields
unfolding missing_fields passed_issues items_of error_issues report
execute shown required now context =
    bind (items_of (get_field_or "plugin_results" (arr nil) context)) (λ results.
      bind (error_issues shown results) (λ errors. ok (
        report now context (missing_fields required context ++ (passed_issues context ++ errors)))))
