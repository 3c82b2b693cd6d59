-- ===== src/Gateway/Boundary.antt =====
-- `DataBoundaryGateway` of src/modules/gateway/service.py, and its record in models.py.
pub mod Sending
use a_pag_ai_knowledge_base.Prelude.{
  ℕ, zero, suc, ◌+◌, Bool, true, false, not, ◌&&◌, ◌||◌, Option, none, some, String, List, [], ◌∷◌,
  Text, length, map, str_eq, ltb, ◌==◌, if◌then◌else◌,
}
use a_pag_ai_knowledge_base.Access.{public, restricted, names}
use a_pag_ai_knowledge_base.Gateway.Regex.{Unicode}
use a_pag_ai_knowledge_base.Gateway.Redaction.{MaskedValue, redact}

-- `_TIER_ORDER`
abbrev pub tier_order : String → Option ℕ
tier_order tier =
    if str_eq tier public then some 0 else if str_eq tier restricted then some 1 else none

abbrev order_or_0 : String → ℕ
order_or_0 tier = elim (tier_order tier) [ none ↦ 0 | some n ↦ n ]

-- The loop of `classify`, with the highest tier so far.
classify_from : String → List (Option String) → String
classify_from highest [] = highest
classify_from highest (none ∷ tiers) = restricted
classify_from highest (some tier ∷ tiers) =
    let higher = classify_from tier tiers in
    let same = classify_from highest tiers in
    elim (tier_order tier) [
      | none ↦ restricted
      | some n ↦ if ltb (order_or_0 highest) n then higher else same
    ]

unfoldable pub classify : List (Option String) → String
unfolding classify_from
classify tiers = classify_from public tiers

pub record BoundaryRecord : Type 0 where
  pub tier : String
  pub destination : Text
  pub model : Text
  pub passages_considered : ℕ
  pub passages_sent : ℕ
  pub passages_withheld_restricted : ℕ
  pub masked : List MaskedValue

pub record Settings : Type 0 where
  pub generation_include_restricted : Bool
  pub gateway_redact : Bool

-- The external model. `complete` is its reply to a system prompt and a user message.
pub record Provider (R : Type 0) : Type 0 where
  pub model_name : Text
  pub endpoint : Option Text
  pub complete : Text → Text → R

-- A passage that is not dropped, with its place among those offered and its tier.
pub record Kept : Type 0 where
  pub index : ℕ
  pub text : Text
  pub tier : Option String

abbrev is_withheld : Settings → Option String → Bool
is_withheld settings tier = not settings.generation_include_restricted && not (names tier public)

abbrev next_kept : Bool → Kept → List Kept × ℕ → List Kept × ℕ
next_kept true k (kept, withheld) = (kept, suc withheld)
next_kept false k (kept, withheld) = (k ∷ kept, withheld)

-- The loop of step 1 from index `i` on: the passages that are kept, and how many are not.
unfoldable pub keep_passages : Settings → ℕ → List Text → List (Option String) → List Kept × ℕ
keep_passages settings i [] tiers = ([], 0)
keep_passages settings i (text ∷ passages) [] = ([], 0)
keep_passages settings i (text ∷ passages) (tier ∷ tiers) =
    next_kept (is_withheld settings tier) (record { index = i; text = text; tier = tier })
      (keep_passages settings (suc i) passages tiers)

-- `zip`
abbrev pub zip_texts : List Kept → List Text → List (ℕ × Text)
zip_texts [] texts = []
zip_texts (k ∷ ks) [] = []
zip_texts (k ∷ ks) (t ∷ ts) = (k.index, t) ∷ zip_texts ks ts

pub data Refusal : Type 0 where
  length_mismatch all_restricted : Refusal

-- What `send` does: it raises `BoundaryRefusal`, or returns the reply and the record.
pub data Crossing (R : Type 0) : Type 0 where
  refused : Refusal → Crossing R
  answered : R → BoundaryRecord → Crossing R

abbrev pub masked_texts : Settings → Unicode → List Text → List Text × List MaskedValue
masked_texts settings u texts = if settings.gateway_redact then redact u texts else (texts, [])

module _ {R : Type 0} (settings : Settings) (u : Unicode) (provider : Provider R)
    (build_user : List (ℕ × Text) → Text) where
  -- Steps 2 and 3, for passages of which some are kept.
  abbrev cross : Text → ℕ → List Kept → ℕ → Crossing R
  cross system considered kept withheld =
      let (texts, masked) = masked_texts settings u (map (λ k. k.text) kept) in
      answered (provider.complete system (build_user (zip_texts kept texts))) (record {
        tier = classify (map (λ k. k.tier) kept);
        destination = elim provider.endpoint [ none ↦ provider.model_name | some e ↦ e ];
        model = provider.model_name;
        passages_considered = considered;
        passages_sent = length texts;
        passages_withheld_restricted = withheld;
        masked = masked;
      })

  abbrev refuse_or_cross : Text → ℕ → List Kept × ℕ → Crossing R
  refuse_or_cross system considered ([], withheld) = refused all_restricted
  refuse_or_cross system considered (k ∷ kept, withheld) =
      cross system considered (k ∷ kept) withheld

  unfoldable pub send : Text → List Text → List (Option String) → Crossing R
  unfolding keep_passages classify redact
  send system passages tiers =
      if not (length passages == length tiers)
      then refused length_mismatch
      else refuse_or_cross system (length passages) (keep_passages settings 0 passages tiers)
