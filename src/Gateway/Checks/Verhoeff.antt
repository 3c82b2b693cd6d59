-- ===== src/Gateway/Checks/Verhoeff.antt =====
-- The Verhoeff check of src/modules/gateway/recognizers.py on lists of digits with an error in them.
use a_pag_ai_knowledge_base.Prelude.{
  ℕ, zero, suc, ◌+◌, ◌%◌, ◌≤◌, ◌<◌, ◌≡◌, ◌≢◌, refl, sym, ◌∙◌, Bool, true, not, ◌&&◌, ◌||◌, List, [],
  ◌∷◌, ◌++◌, arith, All, ltb, ◌==◌, tests,
}
use a_pag_ai_knowledge_base.Gateway.Checks.{verhoeff_mul, verhoeff_perm, verhoeff_loop}

-- A test of `count` numbers from `low` on, and what it shows.
passes_from : ℕ → ℕ → (ℕ → Bool) → Bool
passes_from low zero test = true
passes_from low (suc count) test = test low && passes_from (suc low) count test

passed :
    (low count : ℕ) (test : ℕ → Bool) (n : ℕ)
    → passes_from low count test ≡ true
    → low ≤ n
    → n < low + count
    → test n ≡ true
unfolding passes_from
passed low zero test n h above below = absurd (omega arith)
passed low (suc count) test n h above below = ground (arith, h, passed (suc low) count test n)

abbrev for_digits : (ℕ → Bool) → Bool
for_digits = passes_from 0 10

passed_digit : (test : ℕ → Bool) (n : ℕ) → for_digits test ≡ true → n < 10 → test n ≡ true
passed_digit test n h lt = passed 0 10 test n h (omega arith) (omega arith)

passed_row : (test : ℕ → Bool) (i : ℕ) → passes_from 0 8 test ≡ true → test (i % 8) ≡ true
passed_row test i h = passed 0 8 test (i % 8) h (omega arith) (omega arith)

-- The digit after one step of the loop.
abbrev step : ℕ → ℕ → ℕ → ℕ
step c i d = verhoeff_mul c (verhoeff_perm i d)

abbrev agree_only_if : ℕ → ℕ → ℕ → ℕ → Bool
agree_only_if m n a b = not (m == n) || a == b

step_table : passes_from 0 8 (λ i. for_digits (λ c. for_digits (λ d. ltb (step c i d) 10))) ≡ true
unfolding passes_from verhoeff_mul verhoeff_perm
step_table = refl

state_table :
    passes_from 0 8 (λ i.
      for_digits
        (λ d. for_digits (λ b. for_digits (λ c. agree_only_if (step b i d) (step c i d) b c))))
    ≡ true
unfolding passes_from verhoeff_mul verhoeff_perm
state_table = refl

digit_table :
    passes_from 0 8 (λ i.
      for_digits
        (λ c. for_digits (λ d. for_digits (λ f. agree_only_if (step c i d) (step c i f) d f))))
    ≡ true
unfolding passes_from verhoeff_mul verhoeff_perm
digit_table = refl

swap_table :
    passes_from 0 8 (λ i. for_digits (λ c. for_digits (λ a.
      for_digits
        (λ b. agree_only_if (step (step c i a) (suc i) b) (step (step c i b) (suc i) a) a b))))
    ≡ true
unfolding passes_from verhoeff_mul verhoeff_perm
swap_table = refl

-- The rows of the permutation repeat after eight.
verhoeff_perm-periodic : (i d : ℕ) → verhoeff_perm i d ≡ verhoeff_perm (i % 8) d
unfolding verhoeff_perm
verhoeff_perm-periodic i d = let same : i % 8 % 8 ≡ i % 8 = omega arith in rw same

step_lt : (c i d : ℕ) → c < 10 → d < 10 → step c i d < 10
step_lt c i d hc hd =
    let row =
      passed_row (λ i. for_digits (λ c. for_digits (λ d. ltb (step c i d) 10))) i step_table in
    let at_c = passed_digit (λ c. for_digits (λ d. ltb (step c (i % 8) d) 10)) c row hc in
    let at_d = passed_digit (λ d. ltb (step c (i % 8) d) 10) d at_c hd in
    rw (verhoeff_perm-periodic i d) (omega (tests, at_d))

agree : (m n a b : ℕ) → agree_only_if m n a b ≡ true → m ≡ n → a ≡ b
agree m n a b h e = ground (arith, h, e)

step_state : (b c i d : ℕ) → b < 10 → c < 10 → d < 10 → step b i d ≡ step c i d → b ≡ c
step_state b c i d hb hc hd e =
    let row =
      passed_row
        (λ i.
          for_digits
            (λ d. for_digits (λ b. for_digits (λ c. agree_only_if (step b i d) (step c i d) b c))))
        i state_table in
    let at_d =
      passed_digit
        (λ d.
          for_digits
            (λ b. for_digits (λ c. agree_only_if (step b (i % 8) d) (step c (i % 8) d) b c)))
        d row hd in
    let at_b =
      passed_digit (λ b. for_digits (λ c. agree_only_if (step b (i % 8) d) (step c (i % 8) d) b c))
        b at_d hb in
    let at_c =
      passed_digit (λ c. agree_only_if (step b (i % 8) d) (step c (i % 8) d) b c) c at_b hc in
    agree _ _ b c at_c (rw (verhoeff_perm-periodic i d) at e)

step_digit : (c i d f : ℕ) → c < 10 → d < 10 → f < 10 → step c i d ≡ step c i f → d ≡ f
step_digit c i d f hc hd hf e =
    let row =
      passed_row
        (λ i.
          for_digits
            (λ c. for_digits (λ d. for_digits (λ f. agree_only_if (step c i d) (step c i f) d f))))
        i digit_table in
    let at_c =
      passed_digit
        (λ c.
          for_digits
            (λ d. for_digits (λ f. agree_only_if (step c (i % 8) d) (step c (i % 8) f) d f)))
        c row hc in
    let at_d =
      passed_digit (λ d. for_digits (λ f. agree_only_if (step c (i % 8) d) (step c (i % 8) f) d f))
        d at_c hd in
    let at_f =
      passed_digit (λ f. agree_only_if (step c (i % 8) d) (step c (i % 8) f) d f) f at_d hf in
    agree _ _ d f at_f (sym (rw (verhoeff_perm-periodic i d)) ∙ e ∙ rw (verhoeff_perm-periodic i f))

-- The row behind the row of `i`, for `i` and for what is left of it after the rows repeat.
verhoeff_perm-next : (i d : ℕ) → verhoeff_perm (suc i) d ≡ verhoeff_perm (suc (i % 8)) d
unfolding verhoeff_perm
verhoeff_perm-next i d = let same : suc i % 8 ≡ suc (i % 8) % 8 = omega arith in rw same

step_swap :
    (c i a b : ℕ)
    → c < 10
    → a < 10
    → b < 10
    → step (step c i a) (suc i) b ≡ step (step c i b) (suc i) a
    → a ≡ b
step_swap c i a b hc ha hb e =
    let row =
      passed_row
        (λ i. for_digits (λ c. for_digits (λ a.
          for_digits
            (λ b. agree_only_if (step (step c i a) (suc i) b) (step (step c i b) (suc i) a) a b))))
        i swap_table in
    let j = i % 8 in
    let at_c =
      passed_digit
        (λ c. for_digits (λ a.
          for_digits
            (λ b. agree_only_if (step (step c j a) (suc j) b) (step (step c j b) (suc j) a) a b)))
        c row hc in
    let at_a =
      passed_digit
        (λ a.
          for_digits
            (λ b. agree_only_if (step (step c j a) (suc j) b) (step (step c j b) (suc j) a) a b))
        a at_c ha in
    let at_b =
      passed_digit
        (λ b. agree_only_if (step (step c j a) (suc j) b) (step (step c j b) (suc j) a) a b) b at_a
        hb in
    agree _ _ a b at_b (sym (moved a b) ∙ e ∙ moved b a)
  where
    moved : (a b : ℕ) → step (step c i a) (suc i) b ≡ step (step c (i % 8) a) (suc (i % 8)) b
    moved a b = rw (verhoeff_perm-periodic i a, verhoeff_perm-next i b)

abbrev pub AreDigits : List ℕ → Type 0
AreDigits = All (λ d. d < 10)

-- The loop reaches one result from one state only.
loop_state :
    (b c i : ℕ) (ds : List ℕ)
    → b < 10
    → c < 10
    → AreDigits ds
    → verhoeff_loop b i ds ≡ verhoeff_loop c i ds
    → b ≡ c
unfolding verhoeff_loop
loop_state b c i [] hb hc h e = e
loop_state b c i (d ∷ ds) hb hc h e = step_state b c i d hb hc h.0 (
    loop_state (step b i d) (step c i d) (suc i) ds (step_lt b i d hb h.0) (step_lt c i d hc h.0)
      h.1 e)

loop_digit :
    (c i : ℕ) (xs ys : List ℕ) (d f : ℕ)
    → c < 10
    → AreDigits xs
    → AreDigits ys
    → d < 10
    → f < 10
    → verhoeff_loop c i (xs ++ d ∷ ys) ≡ verhoeff_loop c i (xs ++ f ∷ ys)
    → d ≡ f
unfolding verhoeff_loop
loop_digit c i [] ys d f hc hx hy hd hf e = step_digit c i d f hc hd hf (
    loop_state (step c i d) (step c i f) (suc i) ys (step_lt c i d hc hd) (step_lt c i f hc hf) hy
      e)
loop_digit c i (x ∷ xs) ys d f hc hx hy hd hf e =
    loop_digit (step c i x) (suc i) xs ys d f (step_lt c i x hc hx.0) hx.1 hy hd hf e

loop_swap :
    (c i : ℕ) (xs ys : List ℕ) (a b : ℕ)
    → c < 10
    → AreDigits xs
    → AreDigits ys
    → a < 10
    → b < 10
    → verhoeff_loop c i (xs ++ a ∷ b ∷ ys) ≡ verhoeff_loop c i (xs ++ b ∷ a ∷ ys)
    → a ≡ b
unfolding verhoeff_loop
loop_swap c i [] ys a b hc hx hy ha hb e = step_swap c i a b hc ha hb (
    loop_state (step (step c i a) (suc i) b) (step (step c i b) (suc i) a) (suc (suc i)) ys
      (step_lt _ (suc i) b (step_lt c i a hc ha) hb) (step_lt _ (suc i) a (step_lt c i b hc hb) ha)
      hy e)
loop_swap c i (x ∷ xs) ys a b hc hx hy ha hb e =
    loop_swap (step c i x) (suc i) xs ys a b (step_lt c i x hc hx.0) hx.1 hy ha hb e

-- A list of digits that passes the Verhoeff test fails it when any one digit is replaced by
-- another, and when any two neighbouring digits that differ are swapped.
pub verhoeff_loop-catches :
    (xs ys : List ℕ) (a b : ℕ)
    → AreDigits xs
    → AreDigits ys
    → a < 10
    → b < 10
    → a ≢ b
    → (verhoeff_loop 0 0 (xs ++ a ∷ ys) ≡ 0 → verhoeff_loop 0 0 (xs ++ b ∷ ys) ≢ 0)
      × (verhoeff_loop 0 0 (xs ++ a ∷ b ∷ ys) ≡ 0 → verhoeff_loop 0 0 (xs ++ b ∷ a ∷ ys) ≢ 0)
verhoeff_loop-catches xs ys a b hx hy ha hb differ = (
  λ p q. differ (loop_digit 0 0 xs ys a b (omega arith) hx hy ha hb (p ∙ sym q)),
  λ p q. differ (loop_swap 0 0 xs ys a b (omega arith) hx hy ha hb (p ∙ sym q)),
)
