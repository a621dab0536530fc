-- ===== src/TenantScope/Digits.antt =====
-- Reading back the decimal number before a colon, as src/tenant_scope.rs writes lengths.
use Prim.Native.Char.{Char, code}
use Prim.Native.String.{◌++◌}
use text.Mathlib.TextLemmas.{append_assoc, cons-append, nil-append}
use nowledge.Prelude.{
  ℕ, zero, suc, ◌+◌, ◌-◌, ◌*◌, ◌/◌, ◌%◌, ◌<◌, String, ◌≡◌, ap, ◌∙◌, inl, inr, arith, ltb, ◌==◌,
  if◌then◌else◌, Bool-cases, decimal,
}
use nowledge.Prelude.Texts.{digit, decimal_from}

-- The number before the first colon, and what follows it.
unfoldable pub read : ℕ → String → ℕ × String
read n String.[] = (n, String.[])
read n (String.◌∷◌ c s) =
    let rest = read (n * 10 + (code c - 48)) s in if code c == 58 then (n, s) else rest

-- A text of one character before another.
pub one-append : (c : Char) (s : String) → String.◌∷◌ c String.[] ++ s ≡ String.◌∷◌ c s
one-append c s = cons-append c String.[] s ∙ ap (String.◌∷◌ c) (nil-append s)

read-digit : (n d : ℕ) (s : String) → d < 10 → read n (digit d ++ s) ≡ read (n * 10 + d) s
unfolding digit read
read-digit n zero s h = ap (read n) (one-append "0" s)
read-digit n (suc zero) s h = ap (read n) (one-append "1" s)
read-digit n (suc (suc zero)) s h = ap (read n) (one-append "2" s)
read-digit n (suc (suc (suc zero))) s h = ap (read n) (one-append "3" s)
read-digit n (suc (suc (suc (suc zero)))) s h = ap (read n) (one-append "4" s)
read-digit n (suc (suc (suc (suc (suc zero))))) s h = ap (read n) (one-append "5" s)
read-digit n (suc (suc (suc (suc (suc (suc zero)))))) s h = ap (read n) (one-append "6" s)
read-digit n (suc (suc (suc (suc (suc (suc (suc zero))))))) s h = ap (read n) (one-append "7" s)
read-digit n (suc (suc (suc (suc (suc (suc (suc (suc zero)))))))) s h =
    ap (read n) (one-append "8" s)
read-digit n (suc (suc (suc (suc (suc (suc (suc (suc (suc zero))))))))) s h =
    ap (read n) (one-append "9" s)
read-digit n (suc (suc (suc (suc (suc (suc (suc (suc (suc (suc d)))))))))) s h =
    absurd (omega arith)

read-decimal_from :
    (fuel n : ℕ) (s : String) → n < fuel → read 0 (decimal_from fuel n ++ s) ≡ read n s
unfolding decimal_from
read-decimal_from zero n s h = absurd (omega arith)
read-decimal_from (suc fuel) n s h = elim (Bool-cases (ltb n 10)) [
  | inl small ↦ rw small (read-digit 0 n s (ground arith) ∙ ap (λ m. read m s) (omega arith))
  | inr large ↦
      rw (large, append_assoc (decimal_from fuel (n / 10)) (digit (n % 10)) s)
        (read-decimal_from fuel (n / 10) (digit (n % 10) ++ s) (ground arith)
          ∙ read-digit (n / 10) (n % 10) s (omega arith)
          ∙ ap (λ m. read m s) (omega arith))
]

pub read-decimal : (n : ℕ) (s : String) → read 0 (decimal n ++ (":" ++ s)) ≡ (n, s)
unfolding decimal read
read-decimal n s =
    read-decimal_from (suc n) n (":" ++ s) (omega arith) ∙ ap (read n) (one-append ":" s)
