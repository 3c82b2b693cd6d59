-- ===== src/Gateway/Checks.antt =====
-- The second-stage tests of src/modules/gateway/recognizers.py on the matched text.
pub mod Errors
pub mod Verhoeff
use a_pag_ai_knowledge_base.Prelude.{
  ℕ, zero, suc, ◌+◌, ◌-◌, ◌*◌, ◌%◌, Bool, false, not, ◌&&◌, ◌||◌, List, [], ◌∷◌, Text, length, map,
  keep_if, drop, ltb, ◌==◌, if◌then◌else◌,
}
use mathlib.Core.List.{reverse}
use a_pag_ai_knowledge_base.Gateway.Regex.{Unicode}

-- `_digits`: `re.sub(r"\D", "", text)`
unfoldable pub digits_of : Unicode → Text → Text
digits_of u text = keep_if u.is_digit text

-- `d *= 2; if d > 9: d -= 9`
abbrev pub doubled : ℕ → ℕ
doubled d = if ltb 9 (d * 2) then d * 2 - 9 else d * 2

-- The loop of `_luhn` from index `i` on: every digit whose index has the parity counts doubled.
unfoldable pub luhn_total : ℕ → ℕ → List ℕ → ℕ
luhn_total parity i [] = 0
luhn_total parity i (d ∷ ds) =
    (if i % 2 == parity then doubled d else d) + luhn_total parity (suc i) ds

unfoldable pub luhn_digits : List ℕ → Bool
unfolding luhn_total
luhn_digits ds = if ltb (length ds) 12 then false else luhn_total (length ds % 2) 0 ds % 10 == 0

unfoldable pub luhn : Unicode → Text → Bool
unfolding luhn_digits digits_of
luhn u text = luhn_digits (map u.digit_value (digits_of u text))

-- `row[i]`, for an index that is in range.
abbrev pub entry {ℓ} : {A : Type ℓ} → A → List A → ℕ → A
entry default [] i = default
entry default (x ∷ xs) zero = x
entry default (x ∷ xs) (suc i) = entry default xs i

abbrev row : ℕ → ℕ → ℕ → ℕ → ℕ → ℕ → ℕ → ℕ → ℕ → ℕ → List ℕ
row a b c d e f g h i j = a ∷ b ∷ c ∷ d ∷ e ∷ f ∷ g ∷ h ∷ i ∷ j ∷ []

abbrev pub verhoeff_d : List (List ℕ)
verhoeff_d =
    row 0 1 2 3 4 5 6 7 8 9
    ∷ row 1 2 3 4 0 6 7 8 9 5
    ∷ row 2 3 4 0 1 7 8 9 5 6
    ∷ row 3 4 0 1 2 8 9 5 6 7
    ∷ row 4 0 1 2 3 9 5 6 7 8
    ∷ row 5 9 8 7 6 0 4 3 2 1
    ∷ row 6 5 9 8 7 1 0 4 3 2
    ∷ row 7 6 5 9 8 2 1 0 4 3
    ∷ row 8 7 6 5 9 3 2 1 0 4
    ∷ row 9 8 7 6 5 4 3 2 1 0
    ∷ []

abbrev pub verhoeff_p : List (List ℕ)
verhoeff_p =
    row 0 1 2 3 4 5 6 7 8 9
    ∷ row 1 5 7 6 2 8 3 0 9 4
    ∷ row 5 8 0 3 7 9 6 1 4 2
    ∷ row 8 9 1 6 0 4 3 5 2 7
    ∷ row 9 4 5 3 1 2 6 8 7 0
    ∷ row 4 2 8 6 5 7 3 9 0 1
    ∷ row 2 7 9 3 8 0 6 4 1 5
    ∷ row 7 0 4 6 9 1 3 2 5 8
    ∷ []

-- `_VERHOEFF_D[c][x]` and `_VERHOEFF_P[i % 8][d]`
unfoldable pub verhoeff_mul : ℕ → ℕ → ℕ
verhoeff_mul c x = entry 0 (entry [] verhoeff_d c) x

unfoldable pub verhoeff_perm : ℕ → ℕ → ℕ
verhoeff_perm i d = entry 0 (entry [] verhoeff_p (i % 8)) d

-- The loop of `_verhoeff` over the digits from the right, from index `i` on.
unfoldable pub verhoeff_loop : ℕ → ℕ → List ℕ → ℕ
unfolding verhoeff_mul verhoeff_perm
verhoeff_loop c i [] = c
verhoeff_loop c i (d ∷ ds) = verhoeff_loop (verhoeff_mul c (verhoeff_perm i d)) (suc i) ds

-- `text.startswith` of one or two given code points, by clauses on the text.
abbrev pub starts_with_any : List ℕ → Text → Bool
starts_with_any cs [] = false
starts_with_any [] (x ∷ xs) = false
starts_with_any (c ∷ cs) (x ∷ xs) = x == c || starts_with_any cs (x ∷ xs)

unfoldable pub verhoeff : Unicode → Text → Bool
unfolding verhoeff_loop digits_of
verhoeff u text =
    let digits = digits_of u text in
    if not (length digits == 12)
    then false
    else if starts_with_any (b'0' ∷ b'1' ∷ []) digits
    then false
    else verhoeff_loop 0 0 (reverse (map u.digit_value digits)) == 0

-- `digits.startswith("91")`
abbrev pub starts_with_91 : Text → Bool
starts_with_91 (x ∷ y ∷ rest) = x == b'9' && y == b'1'
starts_with_91 _ = false

unfoldable pub plausible_landline : Unicode → Text → Bool
unfolding digits_of
plausible_landline u text =
    let found = digits_of u text in
    let digits =
      if starts_with_91 found && length found == 12 then b'0' ∷ drop 2 found else found in
    length digits == 11
    && (starts_with_any (b'0' ∷ []) digits && not (starts_with_any (b'0' ∷ []) (drop 1 digits)))

unfoldable pub plausible_phone : Unicode → Text → Bool
unfolding digits_of
plausible_phone u text =
    let found = digits_of u text in
    let digits =
      if starts_with_91 found && length found == 12
      then drop 2 found
      else if starts_with_any (b'0' ∷ []) found && length found == 11
      then drop 1 found
      else found in
    length digits == 10 && starts_with_any (b'6' ∷ b'7' ∷ b'8' ∷ b'9' ∷ []) digits
