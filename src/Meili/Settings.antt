-- ===== src/Meili/Settings.antt =====
-- `settings_for` of src/meili.rs: the settings that the service manages for each index, the
-- attributes it adds to all of them, and the comparison with what Meilisearch reports.
pub mod Unordered
pub mod Managed
use nowledge.Prelude.{
  String, str_eq, Bool, true, false, ◌&&◌, ◌||◌, not, Option, none, some, List, [], ◌∷◌,
  if◌then◌else◌, contains, same_set, ◌==◌, ℕ, suc,
}
use nowledge.Prelude.Texts.{contains_text}
use nowledge.Json.{
  Value, string, array, object, Items, nil, cons, Fields, end, field, get_field, insert_in,
}
use nowledge.Json.Equal.{same_value}
use nowledge.Meili.Indexes.{
  default_settings, audit_records_settings, operations_settings, context_settings,
  source_documents_settings, parse_artifacts_settings, events_settings, links_settings,
  harness_components_settings, harness_changes_settings, harness_verdicts_settings,
  ingest_tasks_settings, ingest_results_settings, eval_cases_settings, eval_runs_settings,
  eval_case_results_settings, traces_settings, eval_overviews_settings,
}

-- A chain of `if` and `else if`: the value of the first test that holds.
unfoldable pub choose : List (Bool × Value) → Value → Value
choose [] default = default
choose ((test, settings) ∷ rest) default = if test then settings else choose rest default

abbrev pub choices : String → List (Bool × Value)
choices uid =
    (str_eq uid "rag_audit_records", audit_records_settings)
    ∷ (str_eq uid "rag_operations", operations_settings)
    ∷ (contains_text uid "context", context_settings)
    ∷ (str_eq uid "rag_source_documents", source_documents_settings)
    ∷ (str_eq uid "rag_parse_artifacts", parse_artifacts_settings)
    ∷ (contains_text uid "events", events_settings)
    ∷ (contains_text uid "links", links_settings)
    ∷ (str_eq uid "rag_harness_components", harness_components_settings)
    ∷ (str_eq uid "rag_harness_changes", harness_changes_settings)
    ∷ (str_eq uid "rag_harness_verdicts", harness_verdicts_settings)
    ∷ (str_eq uid "rag_ingest_tasks", ingest_tasks_settings)
    ∷ (str_eq uid "rag_ingest_results", ingest_results_settings)
    ∷ (str_eq uid "rag_eval_cases", eval_cases_settings)
    ∷ (str_eq uid "rag_eval_runs", eval_runs_settings)
    ∷ (str_eq uid "rag_eval_case_results", eval_case_results_settings)
    ∷ (str_eq uid "rag_traces", traces_settings)
    ∷ (str_eq uid "rag_eval_overviews", eval_overviews_settings)
    ∷ []

unfoldable pub chosen_settings : String → Value
unfolding choose contains_text
chosen_settings uid = choose (choices uid) default_settings

unfoldable pub as_array : Value → Option Items
as_array (array items) = some items
as_array _ = none

unfoldable pub push : Items → Value → Items
push nil v = cons v nil
push (cons x xs) v = cons x (push xs v)

unfoldable pub any_item : Value → Items → Bool
unfolding same_value
any_item v nil = false
any_item v (cons x xs) = same_value x v || any_item v xs

-- `ensure_filterable_attribute` and its two siblings, which differ in the key: they change nothing
-- unless the key holds an array.
unfoldable pub ensure_in : String → String → Value → Option Items → Value
unfolding insert_in push any_item
ensure_in key attribute settings none = settings
ensure_in key attribute (object fields) (some items) =
    if any_item (string attribute) items
    then object fields
    else object (insert_in key (array (push items (string attribute))) fields)
ensure_in key attribute settings (some items) = settings

-- `value.and_then(Value::as_array)`.
unfoldable pub given_array : Option Value → Option Items
unfolding as_array
given_array none = none
given_array (some v) = as_array v

unfoldable pub ensure_attribute : String → Value → String → Value
unfolding ensure_in get_field given_array
ensure_attribute key settings attribute =
    ensure_in key attribute settings (given_array (get_field key settings))

unfoldable pub ensure_filterable_attribute : Value → String → Value
unfolding ensure_attribute
ensure_filterable_attribute = ensure_attribute "filterableAttributes"

unfoldable pub ensure_searchable_attribute : Value → String → Value
unfolding ensure_attribute
ensure_searchable_attribute = ensure_attribute "searchableAttributes"

unfoldable pub ensure_sortable_attribute : Value → String → Value
unfolding ensure_attribute
ensure_sortable_attribute = ensure_attribute "sortableAttributes"

-- What the end of `settings_for` adds to the settings that were chosen.
unfoldable pub with_required : Value → Value
unfolding ensure_filterable_attribute ensure_searchable_attribute ensure_sortable_attribute
with_required settings =
    let identified = ensure_filterable_attribute settings "id" in
    let logical = ensure_filterable_attribute identified "logical_id" in
    let scoped = ensure_filterable_attribute logical "tenant_id" in
    let searchable = ensure_searchable_attribute scoped "logical_id" in
    ensure_sortable_attribute searchable "id"

unfoldable pub settings_for : String → Value
unfolding chosen_settings with_required
settings_for uid = with_required (chosen_settings uid)

unfoldable pub item_count : Items → ℕ
item_count nil = 0
item_count (cons x xs) = suc (item_count xs)

-- `collect::<Option<BTreeSet<&str>>>()`, as the list of the texts: `none` if an item is no text.
unfoldable pub item_texts : Items → Option (List String)
item_texts nil = some []
item_texts (cons (string s) xs) = elim (item_texts xs) [ none ↦ none | some ss ↦ some (s ∷ ss) ]
item_texts (cons _ xs) = none

-- The set of a list has as many elements as the list: nothing stands in it twice.
unfoldable pub distinct : List String → Bool
unfolding contains
distinct [] = true
distinct (s ∷ ss) = not (contains ss s) && distinct ss

unfoldable pub same_texts : Option (List String) → Option (List String) → Bool
unfolding distinct same_set
same_texts (some left) (some right) = distinct left && (distinct right && same_set left right)
same_texts _ _ = false

unfoldable pub same_arrays : Option Items → Option Items → Bool
unfolding item_count item_texts same_texts
same_arrays (some left) (some right) =
    if item_count left == item_count right
    then same_texts (item_texts left) (item_texts right)
    else false
same_arrays _ _ = false

-- `unordered_string_arrays_equal`, of the same key of two settings.
unfoldable pub unordered_string_arrays_equal : Option Value → Option Value → Bool
unfolding same_arrays given_array
unordered_string_arrays_equal left right = same_arrays (given_array left) (given_array right)

unfoldable pub same_option : Option Value → Option Value → Bool
unfolding same_value
same_option none none = true
same_option (some a) (some b) = same_value a b
same_option _ _ = false

-- Stop words are compared only where the wanted settings have them.
unfoldable pub same_stop_words : Option Value → Option Value → Bool
unfolding unordered_string_arrays_equal
same_stop_words current none = true
same_stop_words current (some words) = unordered_string_arrays_equal current (some words)

unfoldable pub managed_settings_equal : Value → Value → Bool
unfolding same_option unordered_string_arrays_equal same_stop_words get_field
managed_settings_equal current desired =
    same_option (get_field "searchableAttributes" current)
      (get_field "searchableAttributes" desired)
    && (unordered_string_arrays_equal (get_field "filterableAttributes" current)
          (get_field "filterableAttributes" desired)
        && (unordered_string_arrays_equal (get_field "sortableAttributes" current)
              (get_field "sortableAttributes" desired)
            && same_stop_words (get_field "stopWords" current) (get_field "stopWords" desired)))
