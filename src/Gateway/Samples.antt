-- ===== src/Gateway/Samples.antt =====
-- Runs of the recognisers over ASCII.
use a_pag_ai_knowledge_base.Prelude.{
  ℕ, ◌-◌, ◌≡◌, refl, Bool, ◌&&◌, ◌||◌, leb, ◌==◌, List, [], ◌∷◌, Text, codes, map,
}
use a_pag_ai_knowledge_base.Gateway.Regex.{Unicode}
use a_pag_ai_knowledge_base.Gateway.Recognizers.{find_all}

abbrev in_range : ℕ → ℕ → ℕ → Bool
in_range lo hi x = leb lo x && leb x hi

-- The Unicode database below 128.
abbrev pub ascii : Unicode
ascii = record {
  is_digit = in_range b'0' b'9';
  is_word =
      λ x. in_range b'0' b'9' x || (in_range b'A' b'Z' x || (in_range b'a' b'z' x || x == b'_'));
  is_space = λ x. x == b' ' || in_range 9 13 x;
  digit_value = λ x. x - 48;
}

labels_of : Text → List Text
labels_of text = map (λ f. f.label) (find_all ascii text)

values_of : Text → List Text
values_of text = map (λ f. f.text) (find_all ascii text)

landline : values_of (codes "Tel:011-23063746 now") ≡ codes "011-23063746" ∷ []
unfolding values_of find_all
landline = refl

gstin_wins : labels_of (codes "id 27AAPFU0939F1ZV") ≡ codes "GSTIN" ∷ []
unfolding labels_of find_all
gstin_wins = refl

email_and_phone :
    values_of (codes "rajesh@cpcb.nic.in or 9876543210")
    ≡ codes "rajesh@cpcb.nic.in" ∷ codes "9876543210" ∷ []
unfolding values_of find_all
email_and_phone = refl
