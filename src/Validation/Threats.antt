-- ===== src/Validation/Threats.antt =====
-- The scanner's search for signatures, and the validator on files that hold one.
use a_pag_ai_knowledge_base.Prelude.{
  ℕ, ◌≤◌, ◌<◌, ◌≡◌, ◌↔◌, ◌⊎◌, refl, sym, ap, subst, String, Bool, true, false, Bool-cases, inl, inr,
  Option, none, some, List, [], ◌∷◌, ◌++◌, Text, length, arith, All, keep_if, ltb, ◌==◌, tests,
}
use a_pag_ai_knowledge_base.Validation.{
  malicious_signatures, starts_with, occurs_in, scan, Check, ok, failed, Spec, Verdict, valid,
  is_valid, max_file_size_bytes, check_container, check_format, validate,
}

starts_with-rest :
    (sig bytes : Text) → starts_with sig bytes ≡ true → (q : Text) × (bytes ≡ sig ++ q)
unfolding starts_with
starts_with-rest [] bytes h = (bytes, refl)
starts_with-rest (x ∷ sig) [] h = absurd (cc)
starts_with-rest (x ∷ sig) (y ∷ bytes) h =
    let (q, e) = starts_with-rest sig bytes (ground (arith, h)) in (q, ground (arith, h, e))

starts_with-append : (sig q : Text) → starts_with sig (sig ++ q) ≡ true
unfolding starts_with
starts_with-append [] q = refl
starts_with-append (x ∷ sig) q = ground (arith, starts_with-append sig q)

occurs_in-parts :
    (sig bytes : Text)
    → occurs_in sig bytes ≡ true
    → (p : Text) × (q : Text) × (bytes ≡ p ++ (sig ++ q))
unfolding occurs_in
occurs_in-parts sig [] h = let (q, e) = starts_with-rest sig [] h in ([], q, e)
occurs_in-parts sig (y ∷ bytes) h = elim (Bool-cases (starts_with sig (y ∷ bytes))) [
  | inl s ↦ let (q, e) = starts_with-rest sig (y ∷ bytes) s in ([], q, e)
  | inr s ↦
      let (p, q, e) = occurs_in-parts sig bytes (rw s at h) in
      (y ∷ p, q, ap (λ (t : Text). y ∷ t) e)
]

occurs_in_first : (sig bytes : Text) → starts_with sig bytes ≡ true → occurs_in sig bytes ≡ true
unfolding occurs_in
occurs_in_first sig [] h = h
occurs_in_first sig (y ∷ bytes) h = rw h

occurs_in-append : (sig p q : Text) → occurs_in sig (p ++ (sig ++ q)) ≡ true
unfolding occurs_in
occurs_in-append sig [] q = occurs_in_first sig (sig ++ q) (starts_with-append sig q)
occurs_in-append sig (y ∷ p) q = ground (arith, occurs_in-append sig p q)

-- The search for a signature succeeds exactly when the file is some bytes, then the signature, then
-- some bytes.
pub occurs_in_iff :
    (sig bytes : Text)
    → (occurs_in sig bytes ≡ true) ↔ ((p : Text) × (q : Text) × (bytes ≡ p ++ (sig ++ q)))
occurs_in_iff sig bytes = (
  occurs_in-parts sig bytes,
  λ (p, q, e). subst (λ (t : Text). occurs_in sig t ≡ true) (sym e) (occurs_in-append sig p q),
)

keep_if-none {ℓ} :
    {A : Type ℓ} (test : A → Bool) (xs : List A)
    → keep_if test xs ≡ []
    → All (λ x. test x ≡ false) xs
keep_if-none test [] h = tt
keep_if-none test (x ∷ xs) h = elim (Bool-cases (test x)) [
  | inl e ↦ absurd (cc (rw e at h))
  | inr e ↦ (e, keep_if-none test xs (rw e at h))
]

all_absent :
    (bytes : Text) → scan bytes ≡ [] → All (λ sig. occurs_in sig bytes ≡ false) malicious_signatures
unfolding scan
all_absent bytes = keep_if-none (λ sig. occurs_in sig bytes) malicious_signatures

Check-cases : (c : Check) → ((r : String) × (c ≡ failed r)) ⊎ ((u : Option ℕ) × (c ≡ ok u))
Check-cases (failed r) = inl (r, refl)
Check-cases (ok u) = inr (u, refl)

List-cases {ℓ} : {A : Type ℓ} (xs : List A) → (xs ≡ []) ⊎ ((x : A) × (ys : List A) × (xs ≡ x ∷ ys))
List-cases [] = inl refl
List-cases (x ∷ xs) = inr (x, xs, refl)

module _ (spec_for : String → Option Spec) (sha256 : Text → String) (bytes : Text) where
  -- What a file that is valid has passed, for the format that was found for its declared type.
  pub record IsAccepted (spec : Spec) (v : Verdict) : Type 0 where
    pub not_empty : 0 < length bytes
    pub not_too_large : length bytes ≤ max_file_size_bytes
    pub container : (u : Option ℕ) × (spec.container_check bytes ≡ ok u)
    pub clean : scan bytes ≡ []
    pub structure :
        (u : Option ℕ) × (spec.structural_check bytes ≡ ok u)
        × (v ≡ valid (sha256 bytes) u (length bytes) spec.mime_type)

  accepted :
      (spec : Spec)
      → 0 < length bytes
      → length bytes ≤ max_file_size_bytes
      → is_valid (check_container spec_for sha256 bytes spec (spec.container_check bytes)) ≡ true
      → IsAccepted spec (check_container spec_for sha256 bytes spec (spec.container_check bytes))
  accepted spec some_bytes few h = elim (Check-cases (spec.container_check bytes)) [
    | inl (r, e) ↦ absurd (cc (rw e at h))
    | inr (u, e) ↦ elim (List-cases (scan bytes)) [
      | inr (x, xs, s) ↦ absurd (cc (rw (e, s) at h))
      | inl s ↦ elim (Check-cases (spec.structural_check bytes)) [
        | inl (r, t) ↦ absurd (cc (rw (e, s, t) at h))
        | inr (n, t) ↦ record {
          not_empty = some_bytes;
          not_too_large = few;
          container = (u, e);
          clean = s;
          structure = (n, t, rw (e, s, t));
        }
      ]
    ]
  ]

  IsAccepted-format :
      (declared : String) (found : Option Spec)
      → spec_for declared ≡ found
      → 0 < length bytes
      → length bytes ≤ max_file_size_bytes
      → is_valid (check_format spec_for sha256 bytes declared found) ≡ true
      → (spec : Spec) × (spec_for declared ≡ some spec)
        × IsAccepted spec (check_format spec_for sha256 bytes declared found)
  IsAccepted-format declared none e some_bytes few h = absurd (cc (h))
  IsAccepted-format declared (some spec) e some_bytes few h =
      (spec, e, accepted spec some_bytes few h)

  -- A file that is valid is not empty and not too large, its declared type is supported, both
  -- checks of the format passed, no signature was detected, and the verdict carries the hash, the
  -- unit count of the structural check, the size, and the type of the format.
  pub validate-IsAccepted :
      (declared : String)
      → is_valid (validate spec_for sha256 bytes declared) ≡ true
      → (spec : Spec) × (spec_for declared ≡ some spec)
        × IsAccepted spec (validate spec_for sha256 bytes declared)
  unfolding validate
  validate-IsAccepted declared h = elim (Bool-cases (length bytes == 0)) [
    | inl z ↦ absurd (cc (rw z at h))
    | inr z ↦ elim (Bool-cases (ltb max_file_size_bytes (length bytes))) [
      | inl l ↦ absurd (cc (rw (z, l) at h))
      | inr l ↦
          rw (z, l)
            (IsAccepted-format declared (spec_for declared) refl (positive z) (omega (tests, l))
              (rw (z, l) at h))
    ]
  ]
    where
      positive : (length bytes == 0) ≡ false → 0 < length bytes
      positive z = ground (arith, z)

  refused :
      (declared : String) (sig : Text)
      → (scan bytes ≡ [] → occurs_in sig bytes ≡ false)
      → (p q : Text) → bytes ≡ p ++ (sig ++ q)
      → is_valid (validate spec_for sha256 bytes declared) ≡ false
  refused declared sig absent p q e =
      elim (Bool-cases (is_valid (validate spec_for sha256 bytes declared))) [
        | inr h ↦ h
        | inl h ↦
            let (spec, found, a) = validate-IsAccepted declared h in
            absurd (cc (absent a.clean, (occurs_in_iff sig bytes).1 (p, q, e)))
      ]

  -- A file that contains any of the malicious signatures, at any place, is not valid, whatever its
  -- declared type and the supported formats are.
  pub validate_refuses_threats :
      (declared : String)
      → All
          (λ sig.
            (p q : Text)
            → bytes ≡ p ++ (sig ++ q)
            → is_valid (validate spec_for sha256 bytes declared) ≡ false)
          malicious_signatures
  validate_refuses_threats declared = every malicious_signatures (all_absent bytes)
    where
      every :
          (sigs : List Text)
          → (scan bytes ≡ [] → All (λ sig. occurs_in sig bytes ≡ false) sigs)
          → All
              (λ sig.
                (p q : Text)
                → bytes ≡ p ++ (sig ++ q)
                → is_valid (validate spec_for sha256 bytes declared) ≡ false)
              sigs
      every [] h = tt
      every (sig ∷ sigs) h = (refused declared sig (λ s. (h s).0), every sigs (λ s. (h s).1))
