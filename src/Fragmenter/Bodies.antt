-- ===== src/Fragmenter/Bodies.antt =====
-- `block_body` of src/fragmenter.rs: the text of a parsed block.
use nowledge.Prelude.{
  String, str_eq, Bool, false, ◌||◌, Option, none, some, List, [], ◌∷◌, ◌++◌, if◌then◌else◌,
  contains, is_blank, format,
}
use nowledge.Models.Documents.{ParsedBlock}

-- `value.filter(|value| !value.trim().is_empty())`, pushed to the parts when there is one.
unfoldable pub non_blank : Option String → List String
non_blank none = []
non_blank (some value) = if is_blank value then [] else value ∷ []

-- The parts of the first field that is not blank: the `if let … else if let` of `block_body`.
first_part : List String → List String → List String
first_part [] others = others
first_part (part ∷ parts) others = part ∷ parts

abbrev is_one_of : List String → String → Bool
is_one_of [] text = false
is_one_of (x ∷ xs) text = str_eq text x || is_one_of xs text

-- The parts that depend on the type of the block.
unfoldable pub type_parts : ParsedBlock → List String
unfolding first_part non_blank
type_parts block =
    if is_one_of ("table" ∷ []) block.block_type
    then first_part (non_blank block.html) (non_blank block.text)
    else if is_one_of ("equation" ∷ []) block.block_type
    then first_part (non_blank block.latex) (non_blank block.text)
    else if is_one_of ("image" ∷ "chart" ∷ []) block.block_type
    then non_blank block.caption ++ (non_blank block.text ++ non_blank block.image_ref)
    else first_part (non_blank block.text)
        (first_part (non_blank block.html) (non_blank block.latex))

-- The caption is added unless a part is equal to it.
unfoldable pub with_caption : List String → List String → List String
unfolding contains
with_caption parts [] = parts
with_caption parts (caption ∷ _) = if contains parts caption then parts else parts ++ (caption ∷ [])

-- `parts.join("\n\n")`.
unfoldable pub join : List String → String
unfolding format
join [] = ""
join (part ∷ parts) =
    let rest = join parts in elim parts [ [] ↦ part | x ∷ xs ↦ format (part ∷ "\n\n" ∷ rest ∷ []) ]

unfoldable pub block_body : ParsedBlock → Option String
unfolding type_parts with_caption join
block_body block =
    let parts =
      with_caption (type_parts block) (non_blank block.caption) ++ non_blank block.footnote in
    elim parts [ [] ↦ none | x ∷ xs ↦ some (join (x ∷ xs)) ]
