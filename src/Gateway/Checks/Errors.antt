-- ===== src/Gateway/Checks/Errors.antt =====
-- The Luhn check of src/modules/gateway/recognizers.py on lists of digits with an error in them.
use a_pag_ai_knowledge_base.Prelude.{
  ℕ, suc, ◌%◌, ◌<◌, ◌≡◌, ◌≢◌, sym, ◌∙◌, Bool-cases, inl, inr, true, false, List, [], ◌∷◌, ◌++◌,
  arith, length, length-append, ltb, ◌==◌, if◌then◌else◌,
}
use a_pag_ai_knowledge_base.Gateway.Checks.{doubled, luhn_total, luhn_digits}

-- The contribution of the digit at index `i`.
abbrev luhn_part : ℕ → ℕ → ℕ → ℕ
luhn_part parity i d = if i % 2 == parity then doubled d else d

luhn_part-injective :
    (parity i d e : ℕ)
    → d < 10
    → e < 10
    → luhn_part parity i d % 10 ≡ luhn_part parity i e % 10
    → d ≡ e
luhn_part-injective parity i d e hd he h = ground arith

-- Two numbers that differ in one digit at most, and whose Luhn sums agree modulo ten, are equal.
pub luhn_total-catches :
    (parity i : ℕ) (xs ys : List ℕ) (d e : ℕ)
    → d < 10
    → e < 10
    → luhn_total parity i (xs ++ d ∷ ys) % 10 ≡ luhn_total parity i (xs ++ e ∷ ys) % 10
    → d ≡ e
unfolding luhn_total
luhn_total-catches parity i [] ys d e hd he h =
    luhn_part-injective parity i d e hd he (omega (arith, h))
luhn_total-catches parity i (x ∷ xs) ys d e hd he h =
    luhn_total-catches parity (suc i) xs ys d e hd he (omega (arith, h))

luhn_zero :
    (parity : ℕ) (ds : List ℕ)
    → (if ltb (length ds) 12 then false else luhn_total parity 0 ds % 10 == 0) ≡ true
    → luhn_total parity 0 ds % 10 ≡ 0
luhn_zero parity ds h = ground arith

luhn_digits-same :
    (xs ys : List ℕ) (d e : ℕ)
    → d < 10
    → e < 10
    → luhn_digits (xs ++ d ∷ ys) ≡ true
    → luhn_digits (xs ++ e ∷ ys) ≡ true
    → d ≡ e
unfolding luhn_digits
luhn_digits-same xs ys d e hd he p q =
    let same_length : length (xs ++ d ∷ ys) ≡ length (xs ++ e ∷ ys) =
      length-append xs (d ∷ ys) ∙ sym (length-append xs (e ∷ ys)) in
    luhn_total-catches (length (xs ++ d ∷ ys) % 2) 0 xs ys d e hd he
      (luhn_zero _ (xs ++ d ∷ ys) p ∙ sym (rw same_length (luhn_zero _ (xs ++ e ∷ ys) q)))

-- A list of digits that passes the Luhn test fails it when any one of its digits is replaced by
-- another.
pub luhn_digits-catches :
    (xs ys : List ℕ) (d e : ℕ)
    → d < 10
    → e < 10
    → d ≢ e
    → luhn_digits (xs ++ d ∷ ys) ≡ true
    → luhn_digits (xs ++ e ∷ ys) ≡ false
luhn_digits-catches xs ys d e hd he differ p = elim (Bool-cases (luhn_digits (xs ++ e ∷ ys))) [
  | inl q ↦ absurd (differ (luhn_digits-same xs ys d e hd he p q))
  | inr q ↦ q
]
