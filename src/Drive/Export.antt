-- ===== src/Drive/Export.antt =====
-- src/modules/connectors/drive/export_map.py, and `fetch_bytes`.
use text.Mathlib.Text.{starts_with}
use a_pag_ai_knowledge_base.Prelude.{
  String, Bool, true, false, ◌&&◌, Option, none, some, List, [], ◌∷◌, Text, str_eq, if◌then◌else◌,
}
use a_pag_ai_knowledge_base.Stages.{Fallible, raised, returned}
use a_pag_ai_knowledge_base.Upload.{concatenated}
use a_pag_ai_knowledge_base.Drive.{DriveFile, Connector}

abbrev pub folder_mime : String
folder_mime = "application/vnd.google-apps.folder"

-- `mapping.get(key)`
abbrev get {ℓ} : {A : Type ℓ} → String → List (String × A) → Option A
get key [] = none
get key (entry ∷ l) = let rest = get key l in if str_eq entry.0 key then some entry.1 else rest

-- Google-native type to the type and extension of its export.
abbrev google_exports : List (String × (String × String))
google_exports =
    (
      "application/vnd.google-apps.document",
      ("application/vnd.openxmlformats-officedocument.wordprocessingml.document", ".docx"),
    )
    ∷ (
      "application/vnd.google-apps.spreadsheet",
      ("application/vnd.openxmlformats-officedocument.spreadsheetml.sheet", ".xlsx"),
    )
    ∷ (
      "application/vnd.google-apps.presentation",
      ("application/vnd.openxmlformats-officedocument.presentationml.presentation", ".pptx"),
    )
    ∷ []

abbrev unexportable : List (String × String)
unexportable =
    ("application/vnd.google-apps.form", "a Google Form")
    ∷ ("application/vnd.google-apps.drawing", "a Google Drawing")
    ∷ ("application/vnd.google-apps.map", "a Google My Map")
    ∷ ("application/vnd.google-apps.site", "a Google Site")
    ∷ ("application/vnd.google-apps.script", "an Apps Script project")
    ∷ ("application/vnd.google-apps.jam", "a Jamboard")
    ∷ ("application/vnd.google-apps.shortcut", "a shortcut to another file")
    ∷ []

unfoldable pub export_target : String → Option (String × String)
export_target drive_mime = get drive_mime google_exports

abbrev is_none {ℓ} : {A : Type ℓ} → Option A → Bool
is_none none = true
is_none (some a) = false

abbrev unrecognised : String → Option String
unrecognised drive_mime =
    if starts_with drive_mime "application/vnd.google-apps."
      && is_none (get drive_mime google_exports)
    then some (concatenated "an unrecognised Google-native type (" (concatenated drive_mime ")"))
    else none

unfoldable pub unexportable_reason : String → Option String
unexportable_reason drive_mime = elim (get drive_mime unexportable) [
  | none ↦ unrecognised drive_mime
  | some what ↦ some (concatenated what " — it has no document form this pipeline can read")
]

module _ {O : Type 0} (c : Connector O) where
  abbrev named : DriveFile → String → String
  named item extension =
      if c.lower_ends_with item.name extension then item.name else concatenated item.name extension

  abbrev with_name : String → Fallible Text → Fallible (Text × String)
  with_name name (raised e) = raised e
  with_name name (returned content) = returned (content, name)

  unfoldable pub fetch_bytes : DriveFile → Fallible (Text × String)
  unfolding export_target
  fetch_bytes item = elim (export_target item.mime_type) [
    | none ↦ with_name item.name (c.download item.file_id)
    | some (export_mime, extension) ↦
        with_name (named item extension) (c.export item.file_id export_mime)
  ]
