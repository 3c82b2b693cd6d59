-- ===== src/Prelude/Texts.antt =====
-- Python strings as lists of code points, and the decimal numerals that f-strings print.
use Prim.Native.Nat.{ℕ, zero, suc, ◌+◌, ◌/◌, ◌%◌, ◌*◌, ◌-◌, ◌<◌}
use Prim.Native.Char.{code}
use Prim.Native.String.{String}
use mathlib.Core.Path.{◌≡◌, refl, ap, sym, ◌∙◌}
use mathlib.Core.Bool.{Bool, true, false, ◌&&◌}
use mathlib.Core.List.{List, [], ◌∷◌}
use mathlib.Core.Logic.{◌↔◌, inl, inr}
use native.Mathlib.Omega.{arith}
use a_pag_ai_knowledge_base.Prelude.Tests.{ltb, tests, Bool-cases, ◌==◌, if◌then◌else◌}

abbrev pub Text : Type 0
Text = List ℕ

-- The text of a literal.
abbrev pub codes : String → Text
codes String.[] = []
codes (String.◌∷◌ c s) = code c ∷ codes s

-- `a == b`
abbrev pub text_eq : Text → Text → Bool
text_eq [] [] = true
text_eq [] (b ∷ bs) = false
text_eq (a ∷ as') [] = false
text_eq (a ∷ as') (b ∷ bs) = a == b && text_eq as' bs

pub text_eq_iff : (a b : Text) → (text_eq a b ≡ true) ↔ (a ≡ b)
text_eq_iff [] [] = ground arith
text_eq_iff [] (b ∷ bs) = ground arith
text_eq_iff (a ∷ as') [] = ground arith
text_eq_iff (a ∷ as') (b ∷ bs) = ground (arith, text_eq_iff as' bs)

-- The digits of `n` in front of `acc`. There are at most as many as `n + 1`, the fuel.
decimal_from : ℕ → ℕ → Text → Text
decimal_from zero n acc = acc
decimal_from (suc fuel) n acc =
    let rest = decimal_from fuel (n / 10) ((48 + n % 10) ∷ acc) in
    if ltb n 10 then (48 + n) ∷ acc else rest

unfoldable pub decimal : ℕ → Text
unfolding decimal_from
decimal n = decimal_from (suc n) n []

decimal_runs : decimal 205 ≡ codes "205"
unfolding decimal
decimal_runs = refl

-- The number that a run of digits continues.
read_on : ℕ → Text → ℕ
read_on v [] = v
read_on v (c ∷ cs) = read_on (v * 10 + (c - 48)) cs

read_on-decimal_from :
    (fuel n : ℕ) (acc : Text) → n < fuel → read_on 0 (decimal_from fuel n acc) ≡ read_on n acc
unfolding read_on decimal_from
read_on-decimal_from zero n acc h = absurd (omega arith)
read_on-decimal_from (suc fuel) n acc h = elim (Bool-cases (ltb n 10)) [
  | inl low ↦ rw low (ap (λ (v : ℕ). read_on v acc) (omega arith))
  | inr high ↦ rw high (
      read_on-decimal_from fuel (n / 10) ((48 + n % 10) ∷ acc) (omega tests)
      ∙ ap (λ (v : ℕ). read_on v acc) (omega arith))
]

-- Two numbers with the same numeral are the same.
pub decimal-injective : (m n : ℕ) → decimal m ≡ decimal n → m ≡ n
unfolding decimal read_on
decimal-injective m n h =
    sym (read_on-decimal_from (suc m) m [] (omega arith))
    ∙ (ap (read_on 0) h ∙ read_on-decimal_from (suc n) n [] (omega arith))
