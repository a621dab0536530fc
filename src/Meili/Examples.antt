-- ===== src/Meili/Examples.antt =====
-- The managed settings of two indexes, and what Meilisearch reports of them.
use nowledge.Prelude.{String, ◌≡◌, refl, true, false, List, [], ◌∷◌}
use mathlib.Core.Logic.{◌↔◌}
use mathlib.Core.List.{Perm}
use mathlib.Core.List.Perm
use nowledge.Json.{Value, array, object, end, field, get_field}
use nowledge.Meili.Indexes.{texts}
use nowledge.Meili.Settings.{settings_for, managed_settings_equal}
use nowledge.Meili.Settings.Managed.{
  IsInPlace, listed, managed_settings_equal_iff, settings_for_recognised,
}

-- The first two change places.
abbrev swapped : List String → List String
swapped (a ∷ b ∷ ls) = b ∷ a ∷ ls
swapped ls = ls

swapped-Perm : (ls : List String) → Perm (swapped ls) ls
swapped-Perm [] = Perm.rfl
swapped-Perm (a ∷ []) = Perm.rfl
swapped-Perm (a ∷ b ∷ ls) = Perm.swap a b ls

abbrev wanted : String → Value
wanted uid = settings_for uid

abbrev filterable : List String
filterable = swapped (listed "filterableAttributes" (wanted "rag_context_nodes"))

abbrev sortable : List String
sortable = swapped (listed "sortableAttributes" (wanted "rag_context_nodes"))

abbrev stop_words : List String
stop_words = swapped (listed "stopWords" (wanted "rag_context_nodes"))

abbrev searchable : List String
searchable = listed "searchableAttributes" (wanted "rag_context_nodes")

-- As Meilisearch may report the settings of the context index.
abbrev reported : Value
reported = object (
    field "filterableAttributes" (array (texts filterable)) (
      field "searchableAttributes" (array (texts searchable)) (
        field "sortableAttributes" (array (texts sortable))
          (field "stopWords" (array (texts stop_words)) end))))

settings_for_recognised_example :
    managed_settings_equal reported (settings_for "rag_context_nodes") ≡ true
unfolding get_field listed settings_for
settings_for_recognised_example =
    settings_for_recognised "rag_context_nodes" reported filterable sortable stop_words refl refl
      (swapped-Perm (listed "filterableAttributes" (wanted "rag_context_nodes"))) refl
      (swapped-Perm (listed "sortableAttributes" (wanted "rag_context_nodes"))) refl
      (swapped-Perm (listed "stopWords" (wanted "rag_context_nodes")))

managed_settings_equal_iff_example :
    (managed_settings_equal reported (settings_for "rag_context_nodes") ≡ true)
    ↔ IsInPlace reported (settings_for "rag_context_nodes")
managed_settings_equal_iff_example =
    managed_settings_equal_iff reported (settings_for "rag_context_nodes")

-- The order of the searchable attributes does count.
searchable_in_order :
    managed_settings_equal
      (object (field "searchableAttributes" (array (texts ("body" ∷ "title" ∷ []))) end))
      (object (field "searchableAttributes" (array (texts ("title" ∷ "body" ∷ []))) end))
    ≡ false
unfolding managed_settings_equal
searchable_in_order = refl
