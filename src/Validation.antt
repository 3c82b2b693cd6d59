-- ===== src/Validation.antt =====
-- `FileValidator` and `ClamAVScanner` of src/modules/document_pipeline/validation.py. The texts of the
-- reasons are constructors, and a file is the list of its bytes.
pub mod Threats
pub mod Examples
use a_pag_ai_knowledge_base.Prelude.{
  ℕ, ◌*◌, String, Bool, true, false, not, ◌&&◌, ◌||◌, Option, none, some, List, [], ◌∷◌, Text,
  codes, length, keep_if, ltb, ◌==◌, if◌then◌else◌,
}

abbrev pub malicious_signatures : List Text
malicious_signatures =
    codes "/Launch"
    ∷ codes "/JavaScript"
    ∷ codes "powershell.exe"
    ∷ codes "cmd.exe"
    ∷ codes "EICAR-STANDARD-ANTIVIRUS-TEST-FILE!"
    ∷ []

-- `sig in data`
unfoldable pub starts_with : Text → Text → Bool
starts_with [] bytes = true
starts_with (x ∷ sig) [] = false
starts_with (x ∷ sig) (y ∷ bytes) = x == y && starts_with sig bytes

unfoldable pub occurs_in : Text → Text → Bool
unfolding starts_with
occurs_in sig [] = starts_with sig []
occurs_in sig (y ∷ bytes) = starts_with sig (y ∷ bytes) || occurs_in sig bytes

-- `ClamAVScanner.scan`: the signatures detected; the scan is passed when there is none.
unfoldable pub scan : Text → List Text
unfolding occurs_in
scan bytes = keep_if (λ sig. occurs_in sig bytes) malicious_signatures

-- The outcome of one of the checks of a format (src/modules/document_pipeline/formats.py).
pub data Check : Type 0 where
  ok : Option ℕ → Check
  failed : String → Check

pub record Spec : Type 0 where
  pub mime_type : String
  pub container_check : Text → Check
  pub structural_check : Text → Check

pub data Reason : Type 0 where
  empty_file : Reason
  file_too_large : ℕ → Reason
  invalid_mime_type : String → Reason
  bad_container bad_structure : String → Reason
  malicious_threat_detected : List Text → Reason

pub data Verdict : Type 0 where
  rejected : Reason → Verdict
  valid : (sha256 : String) (page_count : Option ℕ) (size : ℕ) (mime_type : String) → Verdict

abbrev pub is_valid : Verdict → Bool
is_valid (rejected r) = false
is_valid (valid h n size mime) = true

abbrev pub max_file_size_bytes : ℕ
max_file_size_bytes = 100 * 1024 * 1024

-- The formats that are supported, and the hash.
module _ (spec_for : String → Option Spec) (sha256 : Text → String) where
  abbrev pub inspect : Text → Spec → Check → Verdict
  inspect bytes spec (failed reason) = rejected (bad_structure reason)
  inspect bytes spec (ok unit_count) = valid (sha256 bytes) unit_count (length bytes) spec.mime_type

  abbrev pub scan_and_inspect : Text → Spec → List Text → Verdict
  scan_and_inspect bytes spec (threat ∷ threats) =
      rejected (malicious_threat_detected (threat ∷ threats))
  scan_and_inspect bytes spec [] = inspect bytes spec (spec.structural_check bytes)

  abbrev pub check_container : Text → Spec → Check → Verdict
  check_container bytes spec (failed reason) = rejected (bad_container reason)
  check_container bytes spec (ok unit_count) = scan_and_inspect bytes spec (scan bytes)

  abbrev pub check_format : Text → String → Option Spec → Verdict
  check_format bytes declared_mime_type none = rejected (invalid_mime_type declared_mime_type)
  check_format bytes declared_mime_type (some spec) =
      check_container bytes spec (spec.container_check bytes)

  unfoldable pub validate : Text → String → Verdict
  unfolding scan
  validate bytes declared_mime_type =
      if length bytes == 0
      then rejected empty_file
      else if ltb max_file_size_bytes (length bytes)
      then rejected (file_too_large (length bytes))
      else check_format bytes declared_mime_type (spec_for declared_mime_type)
