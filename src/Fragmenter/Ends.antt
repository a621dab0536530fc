-- ===== src/Fragmenter/Ends.antt =====
-- Where a fragment of src/fragmenter.rs ends and where the next one starts: `best_between` and the
-- steps of the loop.
use nowledge.Prelude.{
  ℕ, ◌+◌, ◌-◌, ◌*◌, ◌≤◌, ◌<◌, min, ◌≡◌, refl, some, List, [], ◌∷◌, length, arith, ok, inl, inr,
  Bool-cases, Option-cases, ◌==◌,
}
use nowledge.Fragmenter.Breakpoints.{Breakpoints, last_between, best, best_between}
use nowledge.Fragmenter.Documents.{Cutter, chunk_end, next_start}

pub last_between-in_range :
    (set : List ℕ) (lo hi x : ℕ) → last_between set lo hi ≡ some x → (lo ≤ x) × (x ≤ hi)
unfolding last_between
last_between-in_range [] lo hi x h = cc
last_between-in_range (y ∷ set) lo hi x h = ground (arith, last_between-in_range set lo hi x)

pub record IsSound (cut : Cutter) : Type 0 where
  pub positive : 1 ≤ cut.min_step
  pub low : cut.min_step ≤ cut.min_chunk_chars
  pub high : cut.min_chunk_chars ≤ cut.chunk_size_chars

best-in_range :
    (breaks : Breakpoints) (lo hi x : ℕ) → best breaks lo hi ≡ some x → (lo ≤ x) × (x ≤ hi)
unfolding best
best-in_range breaks lo hi x h = ground (
  arith,
  last_between-in_range breaks.headings lo hi x,
  last_between-in_range breaks.paragraphs lo hi x,
  last_between-in_range breaks.sentences lo hi x,
)

best_between-returns :
    (breaks : Breakpoints) (lo hi : ℕ)
    → lo ≤ hi
    → best_between breaks lo hi ≡ ok (best breaks lo hi)
unfolding best_between
best_between-returns breaks lo hi h = ground arith

pub record EndsAt (cut : Cutter) (start end : ℕ) : Type 0 where
  pub returns : chunk_end cut start ≡ ok end
  pub forward : start < end
  pub inside : end ≤ length cut.text
  pub short : end ≤ start + cut.chunk_size_chars
  pub far : end < length cut.text → start + cut.min_step ≤ end

pub chunk_end-returns :
    (cut : Cutter) (start : ℕ)
    → IsSound cut
    → start < length cut.text
    → (end : ℕ) × EndsAt cut start end
unfolding chunk_end
chunk_end-returns cut start sound h =
    let len = length cut.text in
    let max_end = min (start + cut.chunk_size_chars) len in
    let lo = start + cut.min_chunk_chars in
    elim (Bool-cases (max_end == len)) [
      | inl e ↦ (
        len,
        record {
          returns = rw e refl;
          forward = h;
          inside = omega arith;
          short = ground arith;
          far = λ g. omega (arith, g);
        },
      )
      | inr e ↦ elim (Option-cases (best cut.breaks lo max_end)) [
        | inl n ↦ (
          max_end,
          record {
            returns = rw (e, best_between-returns cut.breaks lo max_end (ground arith), n) refl;
            forward = ground arith;
            inside = omega arith;
            short = omega arith;
            far = λ g. ground arith;
          },
        )
        | inr (x, n) ↦
            let (low, high) = best-in_range cut.breaks lo max_end x n in
            (
              x,
              record {
                returns = rw (e, best_between-returns cut.breaks lo max_end (ground arith), n) refl;
                forward = ground arith;
                inside = omega (arith, high);
                short = omega (arith, high);
                far = λ g. omega (arith, low, sound);
              },
            )
      ]
    ]

pub next_start_lem :
    (cut : Cutter) (start end : ℕ)
    → IsSound cut
    → EndsAt cut start end
    → end < length cut.text
    → let next = next_start cut start end in
      (start + cut.min_step ≤ next) × (next ≤ end) × (end - start ≤ 7 * (next - start))
unfolding next_start
next_start_lem cut start end sound at h = omega (arith, sound, at.far h, at.forward, at.short)
