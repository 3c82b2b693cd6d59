-- ===== src/Gateway/Boundary/Sending.antt =====
-- What crosses the boundary, and what the record says of it.
use a_pag_ai_knowledge_base.Prelude.{
  get_elem?, ℕ, suc, ◌+◌, ◌≡◌, refl, ◌≢◌, ap, ◌∙◌, Bool-cases, inl, inr, false, Option, none, some,
  String, List, [], ◌∷◌, Text, length, map, ◌==◌, arith, some_eq, All, All-map, eq_iff, ==_iff,
}
use a_pag_ai_knowledge_base.Access.{public, names}
use a_pag_ai_knowledge_base.Gateway.Regex.{Unicode}
use a_pag_ai_knowledge_base.Gateway.Redaction.{Assigned, redact, redact_text, redact_texts}
use a_pag_ai_knowledge_base.Gateway.Boundary.{
  Settings, Provider, Kept, BoundaryRecord, refused, answered, length_mismatch, all_restricted,
  keep_passages, refuse_or_cross, classify, classify_from, send, zip_texts, masked_texts,
  is_withheld,
}

-- A kept passage is the offered one at its index, and its tier may cross.
abbrev pub IsOffered : Settings → ℕ → List Text → List (Option String) → Kept → Type 0
IsOffered settings i passages tiers k =
    (n : ℕ) × (k.index ≡ i + n)
    × (get_elem? passages n ≡ some k.text)
    × (get_elem? tiers n ≡ some k.tier)
    × (is_withheld settings k.tier ≡ false)

later :
    (settings : Settings) (i : ℕ) (t : Text) (tier : Option String) (passages : List Text)
    (tiers : List (Option String)) (k : Kept)
    → IsOffered settings (suc i) passages tiers k
    → IsOffered settings i (t ∷ passages) (tier ∷ tiers) k
later settings i t tier passages tiers k (n, at_index, text, its_tier, open_) =
    (suc n, omega (arith, at_index), text, its_tier, open_)

pub keep_passages-IsOffered :
    (settings : Settings) (i : ℕ) (passages : List Text) (tiers : List (Option String))
    → All (IsOffered settings i passages tiers) (keep_passages settings i passages tiers).0
unfolding keep_passages
keep_passages-IsOffered settings i [] tiers = tt
keep_passages-IsOffered settings i (t ∷ passages) [] = tt
keep_passages-IsOffered settings i (t ∷ passages) (tier ∷ tiers) =
    let rest =
      All-map (later settings i t tier passages tiers) _
        (keep_passages-IsOffered settings (suc i) passages tiers) in
    elim (Bool-cases (is_withheld settings tier)) [
      | inl e ↦ rw e rest
      | inr e ↦ rw e ((0, omega arith, refl, refl, e), rest)
    ]

keep_passages-count :
    (settings : Settings) (i : ℕ) (passages : List Text) (tiers : List (Option String))
    → length passages ≡ length tiers
    → length (keep_passages settings i passages tiers).0
        + (keep_passages settings i passages tiers).1
      ≡ length passages
unfolding keep_passages
keep_passages-count settings i [] tiers h = omega arith
keep_passages-count settings i (t ∷ passages) [] h = absurd (omega arith)
keep_passages-count settings i (t ∷ passages) (tier ∷ tiers) h =
    ground (arith, keep_passages-count settings (suc i) passages tiers)

length-redact_texts :
    (u : Unicode) (a : Assigned) (texts : List Text)
    → length (redact_texts u a texts).0 ≡ length texts
unfolding redact_texts
length-redact_texts u a [] = refl
length-redact_texts u a (text ∷ texts) =
    ap suc (length-redact_texts u (redact_text u a text).1 texts)

length-masked_texts :
    (settings : Settings) (u : Unicode) (kept : List Kept)
    → length (masked_texts settings u (map (λ k. k.text) kept)).0 ≡ length kept
unfolding redact
length-masked_texts settings u kept = elim (Bool-cases settings.gateway_redact) [
  | inl e ↦ rw e (length-redact_texts u [] _ ∙ length-texts kept)
  | inr e ↦ rw e (length-texts kept)
]
  where
    length-texts : (kept : List Kept) → length (map (λ k. k.text) kept) ≡ length kept
    length-texts [] = refl
    length-texts (k ∷ ks) = ap suc (length-texts ks)

-- The tier is one that the setting lets through.
pub open_tier :
    (settings : Settings) (tier : Option String)
    → settings.generation_include_restricted ≡ false
    → is_withheld settings tier ≡ false
    → tier ≡ some public
open_tier settings none off h = ground (arith, off, h)
open_tier settings (some t) off h = ap some ((eq_iff t public).0 (ground (arith, off, h)))

classify_from-public :
    (tiers : List (Option String))
    → All (λ t. t ≡ some public) tiers
    → classify_from public tiers ≡ public
unfolding classify_from
classify_from-public [] h = refl
classify_from-public (none ∷ tiers) h = absurd (cc (h.0))
classify_from-public (some t ∷ tiers) h = rw (some_eq h.0) (classify_from-public tiers h.1)

none_kept :
    (settings : Settings) (i : ℕ) (passages : List Text) (tiers : List (Option String))
    → settings.generation_include_restricted ≡ false
    → All (λ t. names t public ≡ false) tiers
    → (keep_passages settings i passages tiers).0 ≡ []
unfolding keep_passages
none_kept settings i [] tiers off h = refl
none_kept settings i (t ∷ passages) [] off h = refl
none_kept settings i (t ∷ passages) (tier ∷ tiers) off h =
    ground (arith, off, h.0, none_kept settings (suc i) passages tiers off h.1)

answered_parts :
    {R : Type 0} {r s : R} {a b : BoundaryRecord} → answered r a ≡ answered s b → (s ≡ r) × (b ≡ a)
answered_parts h = (cc, cc)

module _ {R : Type 0} (settings : Settings) (u : Unicode) (provider : Provider R)
    (build_user : List (ℕ × Text) → Text) (system : Text) (passages : List Text)
    (tiers : List (Option String)) where
  -- What the record and the reply of a crossing are, for the passages `kept`.
  pub record IsCrossing (r : R) (rec : BoundaryRecord) : Type 0 where
    pub kept : List Kept
    pub offered : All (IsOffered settings 0 passages tiers) kept
    pub reply :
        r
        ≡ provider.complete system
            (build_user (zip_texts kept (masked_texts settings u (map (λ k. k.text) kept)).0))
    pub considered : rec.passages_considered ≡ length passages
    pub accounted : rec.passages_sent + rec.passages_withheld_restricted ≡ rec.passages_considered
    pub tier : rec.tier ≡ classify (map (λ k. k.tier) kept)

  IsCrossing-of :
      (kept : List Kept) (withheld : ℕ) (r : R) (rec : BoundaryRecord)
      → All (IsOffered settings 0 passages tiers) kept
      → length kept + withheld ≡ length passages
      → refuse_or_cross settings u provider build_user system (length passages) (kept, withheld)
        ≡ answered r rec
      → IsCrossing r rec
  IsCrossing-of [] withheld r rec offered count h = absurd (cc)
  IsCrossing-of (k ∷ ks) withheld r rec offered count h =
      let (same_reply, same_record) = answered_parts h in
      record {
        kept = k ∷ ks;
        offered = offered;
        reply = same_reply;
        considered = ap (λ (b : BoundaryRecord). b.passages_considered) same_record;
        accounted = rw same_record (omega (arith, length-masked_texts settings u (k ∷ ks), count));
        tier = ap (λ (b : BoundaryRecord). b.tier) same_record;
      }

  -- When send answers, the model was given a message built from passages that were offered, each
  -- under its own index, masked if masking is on, none of whose tiers is withheld; the sent and the
  -- withheld passages of the record add up to those considered; and its tier is the one that
  -- classify gives for the kept passages.
  pub send-IsCrossing :
      (r : R) (rec : BoundaryRecord)
      → send settings u provider build_user system passages tiers ≡ answered r rec
      → IsCrossing r rec
  unfolding send
  send-IsCrossing r rec h = elim (Bool-cases (length passages == length tiers)) [
    | inr e ↦ absurd (ground (arith, h, e))
    | inl e ↦
        IsCrossing-of (keep_passages settings 0 passages tiers).0
          (keep_passages settings 0 passages tiers).1 r rec
          (keep_passages-IsOffered settings 0 passages tiers)
          (keep_passages-count settings 0 passages tiers (omega (arith, (==_iff _ _).0 e)))
          (rw e at h)
  ]

  -- When the setting excludes restricted content and send answers, every passage that crossed is
  -- one of those offered and is marked PUBLIC, and the tier of the record is PUBLIC.
  pub send_fails_closed :
      (r : R) (rec : BoundaryRecord)
      → settings.generation_include_restricted ≡ false
      → send settings u provider build_user system passages tiers ≡ answered r rec
      → (c : IsCrossing r rec) × All (λ k. k.tier ≡ some public) c.kept × (rec.tier ≡ public)
  unfolding classify
  send_fails_closed r rec off h =
      let c = send-IsCrossing r rec h in
      let open_ =
        All-map (λ k (o : IsOffered settings 0 passages tiers k). open_tier settings k.tier off o.4)
          c.kept c.offered in
      (c, open_, c.tier ∙ classify_from-public (map (λ k. k.tier) c.kept) (tiers_of c.kept open_))
    where
      tiers_of :
          (ks : List Kept)
          → All (λ k. k.tier ≡ some public) ks
          → All (λ t. t ≡ some public) (map (λ k. k.tier) ks)
      tiers_of [] h = tt
      tiers_of (k ∷ ks) h = (h.0, tiers_of ks h.1)

  refused_if_none :
      (kept : List Kept × ℕ)
      → kept.0 ≡ []
      → refuse_or_cross settings u provider build_user system (length passages) kept
        ≡ refused all_restricted
  refused_if_none ([], withheld) h = refl
  refused_if_none (k ∷ ks, withheld) h = absurd (cc)

  -- Passages and tiers whose numbers differ are refused; and if they agree, restricted content is
  -- excluded and no tier is PUBLIC, nothing is sent.
  pub send_refuses :
      (length passages ≢ length tiers
        → send settings u provider build_user system passages tiers ≡ refused length_mismatch)
      × (length passages ≡ length tiers
          → settings.generation_include_restricted ≡ false
          → All (λ t. names t public ≡ false) tiers
          → send settings u provider build_user system passages tiers ≡ refused all_restricted)
  unfolding send
  send_refuses = (
    λ differ. ground (arith, differ),
    λ same off none_public. ground (
      arith,
      same,
      refused_if_none (keep_passages settings 0 passages tiers)
          (none_kept settings 0 passages tiers off none_public),
    ),
  )
