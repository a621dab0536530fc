-- ===== src/Meili/Settings/Managed.antt =====
-- `managed_settings_equal` and `settings_for` of src/meili.rs: which settings that Meilisearch reports
-- are taken for the wanted ones.
use nowledge.Prelude.{
  String, ◌≡◌, refl, ap, ◌∙◌, Bool, true, false, ◌&&◌, and_true, Option, none, some, List, [], ◌∷◌,
  All, inl, inr, Option-cases,
}
use mathlib.Core.Logic.{◌↔◌}
use mathlib.Core.List.{Perm}
use mathlib.Core.List.Perm
use nowledge.Json.{Value, array, get_field}
use nowledge.Json.Equal.{same_value_refl, same_value_sound}
use nowledge.Meili.Indexes.{texts, default_settings}
use nowledge.Meili.Settings.{
  given_array, item_texts, distinct, same_option, unordered_string_arrays_equal, same_stop_words,
  choices, choose, with_required, chosen_settings, settings_for, managed_settings_equal,
}
use nowledge.Meili.Settings.Unordered.{
  IsReordered, Nodup-distinct, texts-item_texts, given_array-some,
  unordered_string_arrays_equal_iff,
}

-- Stop words matter only where the wanted settings have them.
abbrev pub AgreeOnStopWords : Option Value → Option Value → Type 0
AgreeOnStopWords current none = Unit
AgreeOnStopWords current (some words) = IsReordered current (some words)

-- What the service asks of settings in place: the searchable attributes in their order, which ranks
-- them, and the others in any order.
abbrev pub IsInPlace : Value → Value → Type 0
IsInPlace current desired =
    (get_field "searchableAttributes" current ≡ get_field "searchableAttributes" desired)
    × IsReordered (get_field "filterableAttributes" current)
        (get_field "filterableAttributes" desired)
    × IsReordered (get_field "sortableAttributes" current) (get_field "sortableAttributes" desired)
    × AgreeOnStopWords (get_field "stopWords" current) (get_field "stopWords" desired)

same_option_iff : (a b : Option Value) → (same_option a b ≡ true) ↔ (a ≡ b)
unfolding same_option
same_option_iff none none = ((λ h. refl), λ h. refl)
same_option_iff none (some b) = ((λ h. absurd (cc)), λ h. absurd (cc))
same_option_iff (some a) none = ((λ h. absurd (cc)), λ h. absurd (cc))
same_option_iff (some a) (some b) =
    ((λ h. ap some (same_value_sound a b h)), λ h. let e : a ≡ b = cc in rw e (same_value_refl b))

same_stop_words_iff :
    (current desired : Option Value)
    → (same_stop_words current desired ≡ true) ↔ AgreeOnStopWords current desired
unfolding same_stop_words
same_stop_words_iff current none = ((λ h. tt), λ h. refl)
same_stop_words_iff current (some words) = unordered_string_arrays_equal_iff current (some words)

-- Settings are taken for the wanted ones exactly when they are in place: the same searchable
-- attributes in the same order, and the same filterable and sortable attributes and, where they are
-- wanted, stop words, each an array of texts without a repetition, in any order.
pub managed_settings_equal_iff :
    (current desired : Value)
    → (managed_settings_equal current desired ≡ true) ↔ IsInPlace current desired
unfolding managed_settings_equal
managed_settings_equal_iff current desired = (sound, complete)
  where
    searchable :
        (same_option
            (get_field "searchableAttributes" current)
            (get_field "searchableAttributes" desired)
          ≡ true)
        ↔ (get_field "searchableAttributes" current ≡ get_field "searchableAttributes" desired)
    searchable =
        same_option_iff (get_field "searchableAttributes" current)
          (get_field "searchableAttributes" desired)

    filterable :
        (unordered_string_arrays_equal
            (get_field "filterableAttributes" current)
            (get_field "filterableAttributes" desired)
          ≡ true)
        ↔ IsReordered
            (get_field "filterableAttributes" current)
            (get_field "filterableAttributes" desired)
    filterable =
        unordered_string_arrays_equal_iff (get_field "filterableAttributes" current)
          (get_field "filterableAttributes" desired)

    sortable :
        (unordered_string_arrays_equal
            (get_field "sortableAttributes" current)
            (get_field "sortableAttributes" desired)
          ≡ true)
        ↔ IsReordered
            (get_field "sortableAttributes" current)
            (get_field "sortableAttributes" desired)
    sortable =
        unordered_string_arrays_equal_iff (get_field "sortableAttributes" current)
          (get_field "sortableAttributes" desired)

    stop_words :
        (same_stop_words (get_field "stopWords" current) (get_field "stopWords" desired) ≡ true)
        ↔ AgreeOnStopWords (get_field "stopWords" current) (get_field "stopWords" desired)
    stop_words = same_stop_words_iff (get_field "stopWords" current) (get_field "stopWords" desired)

    sound : managed_settings_equal current desired ≡ true → IsInPlace current desired
    sound h =
        let one = and_true _ _ h in
        let two = and_true _ _ one.1 in
        let three = and_true _ _ two.1 in
        (searchable.0 one.0, filterable.0 two.0, sortable.0 three.0, stop_words.0 three.1)

    complete : IsInPlace current desired → managed_settings_equal current desired ≡ true
    complete (a, b, c, d) = rw (searchable.1 a, filterable.1 b, sortable.1 c, stop_words.1 d) refl

abbrev listed_in : Option Value → List String
listed_in value = elim (given_array value) [
  | none ↦ []
  | some items ↦ elim (item_texts items) [ none ↦ [] | some ls ↦ ls ]
]

-- The texts that are listed under a key.
unfoldable pub listed : String → Value → List String
unfolding given_array item_texts get_field
listed key settings = listed_in (get_field key settings)

-- The key holds an array of texts without a repetition.
lists_texts : Option Value → Bool
unfolding distinct item_texts given_array
lists_texts value = elim (given_array value) [
  | none ↦ false
  | some items ↦ elim (item_texts items) [ none ↦ false | some ls ↦ distinct ls ]
]

lists_optional : Option Value → Bool
unfolding lists_texts
lists_optional none = true
lists_optional (some words) = lists_texts (some words)

lists_texts-listed :
    (value : Option Value)
    → lists_texts value ≡ true
    → (value ≡ some (array (texts (listed_in value)))) × (distinct (listed_in value) ≡ true)
unfolding lists_texts
lists_texts-listed value h = elim (Option-cases (given_array value)) [
  | inl nothing ↦ absurd (let clash = rw (nothing, lists_texts) at h in cc)
  | inr (items, there) ↦ elim (Option-cases (item_texts items)) [
    | inl nothing ↦ absurd (let clash = rw (there, nothing, lists_texts) at h in cc)
    | inr (ls, them) ↦
        rw (there, them, listed_in)
          (
            given_array-some value items there
                ∙ ap (λ zs. some (array zs)) (texts-item_texts items ls them),
            rw (there, them, lists_texts) at h,
          )
  ]
]

-- Any order of what is listed under a key is a reordering of it.
IsReordered-listed :
    (current value : Option Value) (ls : List String)
    → lists_texts value ≡ true
    → current ≡ some (array (texts ls))
    → Perm ls (listed_in value)
    → IsReordered current value
IsReordered-listed current value ls h reported perm =
    let (whole, unique) = lists_texts-listed value h in
    (
      ls,
      (
        listed_in value,
        reported,
        whole,
        Perm.nodup (Perm.symm perm) (Nodup-distinct (listed_in value) unique),
        perm,
      ),
    )

stop_words_listed :
    (current value : Option Value) (ls : List String)
    → lists_optional value ≡ true
    → current ≡ some (array (texts ls))
    → Perm ls (listed_in value)
    → AgreeOnStopWords current value
unfolding lists_optional
stop_words_listed current none ls h reported perm = tt
stop_words_listed current (some words) ls h reported perm =
    IsReordered-listed current (some words) ls h reported perm

well_listed : Value → Bool
unfolding lists_texts lists_optional with_required
well_listed chosen =
    let settings = with_required chosen in
    lists_texts (get_field "filterableAttributes" settings)
    && (lists_texts (get_field "sortableAttributes" settings)
        && lists_optional (get_field "stopWords" settings))

choose-well_listed :
    (choices : List (Bool × Value)) (default : Value)
    → All (λ c. well_listed c.1 ≡ true) choices
    → well_listed default ≡ true
    → well_listed (choose choices default) ≡ true
unfolding choose
choose-well_listed [] default h d = d
choose-well_listed ((true, settings) ∷ rest) default h d = h.0
choose-well_listed ((false, settings) ∷ rest) default h d = choose-well_listed rest default h.1 d

chosen_settings-well_listed : (uid : String) → well_listed (chosen_settings uid) ≡ true
chosen_settings-well_listed uid =
    unfold chosen_settings in
    choose-well_listed (choices uid) default_settings
      (unfold well_listed get_field in
        (
          refl,
          (
            refl,
            (
              refl,
              (
                refl,
                (
                  refl,
                  (
                    refl,
                    (
                      refl,
                      (
                        refl,
                        (refl, (refl, (refl, (refl, (refl, (refl, (refl, (refl, (refl, tt))))))))),
                      ),
                    ),
                  ),
                ),
              ),
            ),
          ),
        ))
      (unfold well_listed get_field in refl)

-- For every index, the settings that Meilisearch reports after it took the wanted ones are recognised,
-- in whatever order it reports the filterable and sortable attributes and the stop words (an empty
-- array of them where none are wanted), so that they are not written again.
pub settings_for_recognised :
    (uid : String) (current : Value) (filterable sortable stop_words : List String)
    → get_field "searchableAttributes" current ≡ get_field "searchableAttributes" (settings_for uid)
    → get_field "filterableAttributes" current ≡ some (array (texts filterable))
    → Perm filterable (listed "filterableAttributes" (settings_for uid))
    → get_field "sortableAttributes" current ≡ some (array (texts sortable))
    → Perm sortable (listed "sortableAttributes" (settings_for uid))
    → get_field "stopWords" current ≡ some (array (texts stop_words))
    → Perm stop_words (listed "stopWords" (settings_for uid))
    → managed_settings_equal current (settings_for uid) ≡ true
unfolding listed
settings_for_recognised uid current filterable sortable stop_words same f f' s s' w w' =
    let desired = settings_for uid in
    let checked : (lists_texts (get_field "filterableAttributes" desired)
          && (lists_texts (get_field "sortableAttributes" desired)
              && lists_optional (get_field "stopWords" desired)))
        ≡ true =
      unfold settings_for well_listed in chosen_settings-well_listed uid in
    let one = and_true _ _ checked in
    let two = and_true _ _ one.1 in
    (managed_settings_equal_iff current desired).1 (
      same,
      IsReordered-listed (get_field "filterableAttributes" current)
          (get_field "filterableAttributes" desired) filterable one.0 f f',
      IsReordered-listed (get_field "sortableAttributes" current)
          (get_field "sortableAttributes" desired) sortable two.0 s s',
      stop_words_listed (get_field "stopWords" current) (get_field "stopWords" desired) stop_words
          two.1 w w',
    )
