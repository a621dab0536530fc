-- ===== src/Fragmenter/Limits.antt =====
-- The fragments of src/fragmenter.rs as pieces of the document, their numbers and their lengths.
use nowledge.Prelude.{
  ℕ, zero, suc, subst, ◌+◌, ◌-◌, ◌*◌, ◌%◌, ◌^◌, ◌≤◌, ◌<◌, String, ◌≡◌, false, List, [], ◌∷◌, ◌++◌,
  length, All, arith, inl, inr, String,
}
use Prim.Native.Char.{Char}
use nowledge.Fragmenter.Chars.{from_chars, slice, whitespace_at}
use nowledge.Fragmenter.Documents.{HashInput, DocumentFragment, Cutter, cut_fragment, next_start}
use nowledge.Fragmenter.Ends.{IsSound, EndsAt, next_start_lem}
use nowledge.Fragmenter.Cuts.{cut_fragment-cases, Cuts, done, last, more}

-- A piece of the text that starts and ends with something else than white space.
pub record IsPiece (text : List Char) (longest : ℕ) (f : DocumentFragment) : Type 0 where
  pub non_empty : f.char_start < f.char_end
  pub inside : f.char_end ≤ length text
  pub short : f.char_end ≤ f.char_start + longest
  pub content : f.content ≡ from_chars (slice text f.char_start f.char_end)
  pub first : whitespace_at text f.char_start ≡ false
  pub last : whitespace_at text (f.char_end - 1) ≡ false

-- The fragments are numbered from `n` on, modulo 2^32.
abbrev pub Numbered : ℕ → List DocumentFragment → Type 0
Numbered n [] = Unit
Numbered n (f ∷ fs) = (f.fragment_index ≡ n % 2 ^ 32) × Numbered (n + 1) fs

-- The total length of the fragments.
abbrev pub width : List DocumentFragment → ℕ
width [] = 0
width (f ∷ fs) = (f.char_end - f.char_start) + width fs

length-append : (xs ys : List DocumentFragment) → length (xs ++ ys) ≡ length xs + length ys
length-append [] ys = omega arith
length-append (x ∷ xs) ys = omega (arith, length-append xs ys)

width-append : (xs ys : List DocumentFragment) → width (xs ++ ys) ≡ width xs + width ys
width-append [] ys = omega arith
width-append (x ∷ xs) ys = omega (arith, width-append xs ys)

All-append :
    (P : DocumentFragment → Type 0) (xs ys : List DocumentFragment)
    → All P xs
    → All P ys
    → All P (xs ++ ys)
All-append P [] ys p q = q
All-append P (x ∷ xs) ys p q = (p.0, All-append P xs ys p.1 q)

Numbered-append :
    (n : ℕ) (xs ys : List DocumentFragment)
    → Numbered n xs
    → Numbered (n + length xs) ys
    → Numbered n (xs ++ ys)
Numbered-append n [] ys p q = subst (λ m. Numbered m ys) (omega arith) q
Numbered-append n (x ∷ xs) ys p q =
    (p.0, Numbered-append (n + 1) xs ys p.1 (subst (λ m. Numbered m ys) (omega arith) q))

one_more : (a b m : ℕ) → a ≤ 1 → (a + b) * m ≤ m + b * m
one_more zero b m h = omega arith
one_more (suc a) b m h = grind arith

module _ (sha256_hex : List HashInput → String) where
  -- What one piece adds.
  record Piece (cut : Cutter) (emitted start end : ℕ) (fs : List DocumentFragment) : Type 0 where
    single : length fs ≤ 1
    narrow : width fs ≤ end - start
    numbered : Numbered emitted fs
    pieces : All (IsPiece cut.text cut.chunk_size_chars) fs

  cut_fragment-Piece :
      (cut : Cutter) (emitted start end : ℕ)
      → EndsAt cut start end
      → Piece cut emitted start end (cut_fragment sha256_hex cut emitted start end)
  cut_fragment-Piece cut emitted start end at =
      elim (cut_fragment-cases sha256_hex cut emitted start end (omega (arith, at.forward))
        at.inside) [
          | inl (eq, _) ↦
              rw eq
                record { single = omega arith; narrow = omega arith; numbered = tt; pieces = tt }
          | inr (f, eq, of) ↦ rw eq record {
            single = omega arith;
            narrow = omega (arith, of.trimmed.from_start, of.trimmed.to_end, of.non_empty);
            numbered = (of.index, tt);
            pieces = (
              record {
                non_empty = of.non_empty;
                inside = omega (arith, of.trimmed.to_end, at.inside);
                short = omega (arith, of.trimmed.from_start, of.trimmed.to_end, at.short);
                content = of.text;
                first = of.trimmed.first of.non_empty;
                last = of.trimmed.last of.non_empty;
              },
              tt,
            );
          }
        ]

  -- What the loop adds from `start` on.
  pub record Limits (cut : Cutter) (emitted start : ℕ) (fs : List DocumentFragment) : Type 0 where
    pub few :
        start ≤ length cut.text → length fs * cut.min_step + start < length cut.text + cut.min_step
    pub total : width fs ≤ 7 * (length cut.text - start)
    pub numbered : Numbered emitted fs
    pub pieces : All (IsPiece cut.text cut.chunk_size_chars) fs

  pub Cuts-Limits :
      (cut : Cutter)
      → IsSound cut
      → (emitted start : ℕ) (fs : List DocumentFragment) → Cuts sha256_hex cut emitted start fs
      → Limits cut emitted start fs
  Cuts-Limits cut sound _ _ _ (done emitted start stop) = record {
    few = λ h. omega (arith, h, sound);
    total = omega arith;
    numbered = tt;
    pieces = tt;
  }
  Cuts-Limits cut sound _ _ _ (last emitted start end at stop) =
      let p = cut_fragment-Piece cut emitted start end at in
      let piece = cut_fragment sha256_hex cut emitted start end in
      record {
        few = λ h.
            omega (arith, one_more (length piece) 0 cut.min_step p.single, at.forward, at.inside);
        total = omega (arith, p.narrow, at.inside);
        numbered = p.numbered;
        pieces = p.pieces;
      }
  Cuts-Limits cut sound _ _ _ (more emitted start end {rest} at inside cuts) =
      let p = cut_fragment-Piece cut emitted start end at in
      let piece = cut_fragment sha256_hex cut emitted start end in
      let next = next_start cut start end in
      let (onward, behind, quarter) = next_start_lem cut start end sound at inside in
      let later = Cuts-Limits cut sound (emitted + length piece) next rest cuts in
      let later_few = later.few (omega (arith, behind, inside)) in
      record {
        few = λ h. rw (length-append piece rest) (
            omega (
              arith,
              one_more (length piece) (length rest) cut.min_step p.single,
              later_few,
              onward,
            ));
        total =
            rw (width-append piece rest)
              (omega (arith, p.narrow, later.total, quarter, behind, inside));
        numbered = Numbered-append emitted piece rest p.numbered later.numbered;
        pieces =
            All-append (IsPiece cut.text cut.chunk_size_chars) piece rest p.pieces later.pieces;
      }
