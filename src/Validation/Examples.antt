-- ===== src/Validation/Examples.antt =====
-- Validations of two small files.
use a_pag_ai_knowledge_base.Prelude.{
  ◌≡◌, refl, String, true, false, Option, none, some, ◌++◌, Text, codes, All,
}
use a_pag_ai_knowledge_base.Validation.{malicious_signatures, Spec, ok, is_valid, validate}
use a_pag_ai_knowledge_base.Validation.Threats.{
  IsAccepted, validate-IsAccepted, validate_refuses_threats,
}

abbrev pdf : Spec
pdf = record {
  mime_type = "application/pdf";
  container_check = λ bytes. ok none;
  structural_check = λ bytes. ok (some 1);
}

abbrev spec_for : String → Option Spec
spec_for mime = some pdf

abbrev sha256 : Text → String
sha256 bytes = "c0ffee"

abbrev harmless : Text
harmless = codes "%PDF /OpenAction"

abbrev malicious : Text
malicious = codes "%PDF /Launch 1"

accepts : is_valid (validate spec_for sha256 harmless "application/pdf") ≡ true
unfolding validate
accepts = refl

refuses : is_valid (validate spec_for sha256 malicious "application/pdf") ≡ false
unfolding validate
refuses = refl

validate-IsAccepted_example :
    (spec : Spec) × (spec_for "application/pdf" ≡ some spec)
    × IsAccepted spec_for sha256 harmless spec (validate spec_for sha256 harmless "application/pdf")
validate-IsAccepted_example = validate-IsAccepted spec_for sha256 harmless "application/pdf" accepts

validate_refuses_threats_example :
    All
      (λ sig.
        (p q : Text)
        → malicious ≡ p ++ (sig ++ q)
        → is_valid (validate spec_for sha256 malicious "application/pdf") ≡ false)
      malicious_signatures
validate_refuses_threats_example =
    validate_refuses_threats spec_for sha256 malicious "application/pdf"
