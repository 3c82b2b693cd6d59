-- ===== src/Gateway/Examples.antt =====
-- The gateway's theorems at requests over ASCII.
use a_pag_ai_knowledge_base.Prelude.{
  ℕ, ◌<◌, ◌≡◌, ◌≢◌, refl, ap, decimal, true, false, Option, none, some, String, List, [], ◌∷◌, ◌++◌,
  Text, codes, map, All, arith,
}
use a_pag_ai_knowledge_base.Access.{public, restricted}
use a_pag_ai_knowledge_base.Gateway.Checks.{luhn_digits, verhoeff_loop}
use a_pag_ai_knowledge_base.Gateway.Checks.Verhoeff.{AreDigits, verhoeff_loop-catches}
use a_pag_ai_knowledge_base.Gateway.Recognizers.{recognizers, find_all}
use a_pag_ai_knowledge_base.Gateway.Findings.{IsLaidOut, find_all-IsLaidOut}
use a_pag_ai_knowledge_base.Gateway.Coverage.{Covers, find_all-Covers}
use a_pag_ai_knowledge_base.Gateway.Samples.{ascii}
use a_pag_ai_knowledge_base.Gateway.Redaction.{redact_texts, sort_last_first}
use a_pag_ai_knowledge_base.Gateway.Redaction.Table.{placeholder_of, Extends-refl}
use a_pag_ai_knowledge_base.Gateway.Redaction.Rebuild.{rebuilt, redact_texts-rebuilt}
use a_pag_ai_knowledge_base.Gateway.Redaction.Numbering.{placeholder_of-distinct}
use a_pag_ai_knowledge_base.Gateway.Boundary.{Settings, Provider, BoundaryRecord, send, answered}
use a_pag_ai_knowledge_base.Gateway.Boundary.Sending.{
  IsCrossing, send-IsCrossing, send_fails_closed,
}

abbrev passage : Text
passage = codes "PAN AAPFU0939F."

find_all-IsLaidOut_example : IsLaidOut passage (find_all ascii passage)
find_all-IsLaidOut_example = find_all-IsLaidOut ascii passage

find_all-Covers_example : Covers ascii passage (recognizers ascii) (find_all ascii passage)
find_all-Covers_example = find_all-Covers ascii passage

abbrev texts : List Text
texts = passage ∷ codes "PAN AAPFU0939F and BBPFU0939G" ∷ []

redact_texts-rebuilt_example :
    (redact_texts ascii [] texts).0
    ≡ map
        (λ text.
          rebuilt (redact_texts ascii [] texts).1 text (sort_last_first (find_all ascii text)))
        texts
redact_texts-rebuilt_example =
    redact_texts-rebuilt ascii [] texts (redact_texts ascii [] texts).1
      (Extends-refl (redact_texts ascii [] texts).1)

-- The later of the two in the second text is met first there.
first_number :
    placeholder_of (redact_texts ascii [] texts).1 (codes "PAN") (codes "AAPFU0939F")
    ≡ some (codes "<PAN_1>")
unfolding placeholder_of redact_texts decimal
first_number = refl

second_number :
    placeholder_of (redact_texts ascii [] texts).1 (codes "PAN") (codes "BBPFU0939G")
    ≡ some (codes "<PAN_2>")
unfolding placeholder_of redact_texts decimal
second_number = refl

abbrev first_code : Text → ℕ
first_code t = elim t [ [] ↦ 0 | x ∷ xs ↦ x ]

different : codes "AAPFU0939F" ≢ codes "BBPFU0939G"
different h = omega (arith, ap first_code h)

placeholder_of-distinct_example : codes "<PAN_1>" ≢ codes "<PAN_2>"
placeholder_of-distinct_example =
    placeholder_of-distinct ascii texts (codes "PAN") (codes "AAPFU0939F") (codes "BBPFU0939G")
      (codes "<PAN_1>") (codes "<PAN_2>") first_number second_number different

-- A card number's digits but the last one.
abbrev card : List ℕ
card = 4 ∷ 1 ∷ 1 ∷ 1 ∷ 1 ∷ 1 ∷ 1 ∷ 1 ∷ 1 ∷ 1 ∷ 1 ∷ 1 ∷ 1 ∷ 1 ∷ 1 ∷ []

card_passes : luhn_digits (card ++ 1 ∷ []) ≡ true
unfolding luhn_digits
card_passes = refl

other_digit : 1 < 10 × 7 < 10 × ((n : ℕ) → n ≡ 1 → n ≢ 7)
other_digit = (omega arith, omega arith, λ n h k. omega (arith, h, k))

-- A model that repeats the user's message.
abbrev echo : Provider Text
echo = record { model_name = codes "local"; endpoint = none; complete = λ system user. user }

abbrev closed : Settings
closed = record { generation_include_restricted = false; gateway_redact = true }

abbrev join : List (ℕ × Text) → Text
join [] = []
join ((n, t) ∷ ps) = t ++ join ps

abbrev offered : List Text
offered = passage ∷ codes "secret" ∷ codes "unmarked" ∷ []

abbrev tiers : List (Option String)
tiers = some public ∷ some restricted ∷ none ∷ []

abbrev boundary_record : BoundaryRecord
boundary_record = record {
  tier = public;
  destination = codes "local";
  model = codes "local";
  passages_considered = 3;
  passages_sent = 1;
  passages_withheld_restricted = 2;
  masked =
      record {
        label = codes "PAN";
        count = 1;
        placeholders = codes "<PAN_1>" ∷ [];
        previews = codes "AAPxxxx39F" ∷ [];
      }
      ∷ [];
}

one_crosses :
    send closed ascii echo join (codes "rules") offered tiers
    ≡ answered (codes "PAN <PAN_1>.") boundary_record
unfolding send decimal
one_crosses = refl

send-IsCrossing_example :
    IsCrossing closed ascii echo join
      (codes "rules")
      offered
      tiers
      (codes "PAN <PAN_1>.")
      boundary_record
send-IsCrossing_example =
    send-IsCrossing closed ascii echo join (codes "rules") offered tiers (codes "PAN <PAN_1>.")
      boundary_record one_crosses

send_fails_closed_example :
    (c : IsCrossing closed ascii echo join
      (codes "rules")
      offered
      tiers
      (codes "PAN <PAN_1>.")
      boundary_record)
    × All (λ k. k.tier ≡ some public) c.kept
    × (boundary_record.tier ≡ public)
send_fails_closed_example =
    send_fails_closed closed ascii echo join (codes "rules") offered tiers (codes "PAN <PAN_1>.")
      boundary_record refl one_crosses

-- From the right, 2363: the number 236 with its check digit.
abbrev behind : List ℕ
behind = 3 ∷ 2 ∷ []

check_passes : verhoeff_loop 0 0 ((3 ∷ []) ++ 6 ∷ behind) ≡ 0
unfolding verhoeff_loop
check_passes = refl

digits_behind : AreDigits behind
digits_behind = (omega arith, (omega arith, tt))

six_one : 6 < 10 × 1 < 10 × ((n : ℕ) → n ≡ 6 → n ≢ 1)
six_one = (omega arith, omega arith, λ n h k. omega (arith, h, k))

verhoeff_loop-catches_example :
    (verhoeff_loop 0 0 ((3 ∷ []) ++ 6 ∷ behind) ≡ 0
      → verhoeff_loop 0 0 ((3 ∷ []) ++ 1 ∷ behind) ≢ 0)
    × (verhoeff_loop 0 0 ((3 ∷ []) ++ 6 ∷ 1 ∷ behind) ≡ 0
        → verhoeff_loop 0 0 ((3 ∷ []) ++ 1 ∷ 6 ∷ behind) ≢ 0)
verhoeff_loop-catches_example =
    verhoeff_loop-catches (3 ∷ []) behind 6 1 (omega arith, tt) digits_behind six_one.0 six_one.1
      (six_one.2 6 refl)
