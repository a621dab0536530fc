-- ===== src/Redaction/Texts.antt =====
-- Characters and slices of them, as the redaction of src/util.rs uses them: a `Vec<char>` is the list
-- of its code points.
use Prim.Native.Char.{code}
use nowledge.Prelude.{
  ℕ, zero, suc, String, Bool, true, false, ◌&&◌, ◌||◌, List, [], ◌∷◌, leb, ◌==◌, if◌then◌else◌,
  length,
}

abbrev pub Text : Type 0
Text = List ℕ

-- `text.chars().collect::<Vec<char>>()`.
unfoldable pub codes : String → Text
codes String.[] = []
codes (String.◌∷◌ c s) = code c ∷ codes s

module _ {ℓ} {A : Type ℓ} where
  unfoldable pub take : ℕ → List A → List A
  take zero xs = []
  take (suc n) [] = []
  take (suc n) (x ∷ xs) = x ∷ take n xs

  unfoldable pub drop : ℕ → List A → List A
  drop zero xs = xs
  drop (suc n) [] = []
  drop (suc n) (x ∷ xs) = drop n xs

  unfoldable pub reverse_onto : List A → List A → List A
  reverse_onto [] acc = acc
  reverse_onto (x ∷ xs) acc = reverse_onto xs (x ∷ acc)

  unfoldable pub all : (A → Bool) → List A → Bool
  all test [] = true
  all test (x ∷ xs) = test x && all test xs

abbrev pub reversed {ℓ} : {A : Type ℓ} → List A → List A
reversed xs = reverse_onto xs []

unfoldable pub same_chars : Text → Text → Bool
same_chars [] [] = true
same_chars (a ∷ as') (b ∷ bs) = a == b && same_chars as' bs
same_chars _ _ = false

-- `text.starts_with(prefix)`.
unfoldable pub starts_with : Text → Text → Bool
starts_with text [] = true
starts_with [] (p ∷ prefix) = false
starts_with (c ∷ text) (p ∷ prefix) = c == p && starts_with text prefix

-- `HashSet<Vec<char>>::contains`, on the list of the set's elements.
unfoldable pub member : List Text → Text → Bool
unfolding same_chars
member [] text = false
member (t ∷ ts) text = same_chars t text || member ts text

-- `chars.windows(size)`, for a size that is not 0.
unfoldable pub windows : ℕ → Text → List Text
unfolding take
windows size [] = []
windows size (c ∷ cs) =
    if leb size (length (c ∷ cs)) then take size (c ∷ cs) ∷ windows size cs else []

unfoldable pub is_ascii_alphanumeric : ℕ → Bool
is_ascii_alphanumeric c =
    leb b'a' c && leb c b'z' || (leb b'A' c && leb c b'Z' || leb b'0' c && leb c b'9')

unfoldable pub is_credential_left_context_character : ℕ → Bool
unfolding is_ascii_alphanumeric
is_credential_left_context_character c = is_ascii_alphanumeric c || (c == b'-' || c == b'_')

unfoldable pub is_credential_character : ℕ → Bool
unfolding is_ascii_alphanumeric
is_credential_character c =
    is_ascii_alphanumeric c
    || (c == b'-'
        || (c == b'_' || (c == b'.' || (c == b'~' || (c == b'+' || (c == b'/' || c == b'='))))))

-- A prefix and the least number of characters of a value that has it.
abbrev pub credential_shapes : List (Text × ℕ)
credential_shapes =
    (codes "sk-", 12)
    ∷ (codes "sess-", 16)
    ∷ (codes "codex-", 20)
    ∷ (codes "oaic-", 16)
    ∷ (codes "Bearer ", 10)
    ∷ []

abbrev pub min_redactable_secret_chars : ℕ
min_redactable_secret_chars = 4

abbrev pub secret_substring_window_chars : ℕ
secret_substring_window_chars = 8
