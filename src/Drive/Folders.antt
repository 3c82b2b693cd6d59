-- ===== src/Drive/Folders.antt =====
-- The tiers of folders and the listing of files: `resolve_folder_tiers`, `list_watched_files` and
-- `resolve_owner`.
pub mod Strictness
use a_pag_ai_knowledge_base.Prelude.{
  ℕ, zero, suc, ◌-◌, any, map, ◌++◌, String, Bool, true, false, not, ◌&&◌, Option, none, some, List,
  [], ◌∷◌, str_eq, if◌then◌else◌,
}
use a_pag_ai_knowledge_base.Access.{public, restricted, is_stricter}
use a_pag_ai_knowledge_base.Drive.{DriveFile, Connector}
use a_pag_ai_knowledge_base.Drive.Export.{folder_mime}

-- A folder or file id with its tier; a dictionary in insertion order.
abbrev pub Tiers : Type 0
Tiers = List (String × String)

-- `if current is None or is_stricter(tier, current): tiers[folder_id] = tier`
unfoldable pub raise_tier : String → String → Tiers → Tiers
unfolding is_stricter
raise_tier folder_id tier [] = (folder_id, tier) ∷ []
raise_tier folder_id tier (entry ∷ l) =
    let rest = raise_tier folder_id tier l in
    if str_eq entry.0 folder_id
    then (if is_stricter (some tier) (some entry.1) then (folder_id, tier) ∷ l else entry ∷ l)
    else entry ∷ rest

unfoldable pub raise_tiers : List String → String → Tiers → Tiers
unfolding raise_tier
raise_tiers [] tier l = l
raise_tiers (folder_id ∷ folder_ids) tier l =
    raise_tiers folder_ids tier (raise_tier folder_id tier l)

-- What is found of a file: what Drive says, the tier, and the folder.
pub record Found : Type 0 where
  pub item : DriveFile
  pub tier : String
  pub folder_id : String

-- `found[item.file_id] = (item, tier, folder_id)`, unless the file is there under as strict a tier.
unfoldable pub find_in_folder : DriveFile → String → String → List Found → List Found
unfolding is_stricter
find_in_folder item tier folder_id [] =
    record { item = item; tier = tier; folder_id = folder_id } ∷ []
find_in_folder item tier folder_id (f ∷ l) =
    let rest = find_in_folder item tier folder_id l in
    let found : Found = record { item = item; tier = tier; folder_id = folder_id } in
    if str_eq f.item.file_id item.file_id
    then (if is_stricter (some tier) (some f.tier) then found ∷ l else f ∷ l)
    else f ∷ rest

unfoldable pub find_all_in_folder : List DriveFile → String → String → List Found → List Found
unfolding find_in_folder
find_all_in_folder [] tier folder_id l = l
find_all_in_folder (item ∷ items) tier folder_id l =
    find_all_in_folder items tier folder_id
      (if str_eq item.mime_type folder_mime then l else find_in_folder item tier folder_id l)

-- An owner and whether it is the fallback, or the error in the configuration.
pub data Owner : Type 0 where
  owner : ℕ → Bool → Owner
  no_fallback_email : Owner
  fallback_not_registered : String → Owner

-- `resolve_folder_tiers`, or none where no folder is configured.
abbrev is_unset : String → Bool
is_unset s = str_eq s ""

-- A folder id with its depth below the root; a dictionary in insertion order.
abbrev pub Depths : Type 0
Depths = List (String × ℕ)

abbrev pub is_walked : String → Depths → Bool
is_walked folder_id depths = any (λ (e : String × ℕ). str_eq e.0 folder_id) depths

abbrev pub max_depth : ℕ
max_depth = 10

-- The children of a folder that are not in the dictionary yet, each once.
unfoldable pub new_children : List DriveFile → Depths → ℕ → Depths
new_children [] depths depth = []
new_children (child ∷ children) depths depth =
    let seen = new_children children depths depth in
    let added = new_children children (depths ++ (child.file_id, depth) ∷ []) depth in
    if is_walked child.file_id depths then seen else (child.file_id, depth) ∷ added

-- The last one that was appended to the frontier is popped first, and its own children before the
-- rest: the loop over the frontier as nested calls.
abbrev visit_all : (String → Depths → Depths) → Depths → Depths → Depths
visit_all visit [] depths = depths
visit_all visit (entry ∷ entries) depths = visit entry.0 (visit_all visit entries depths)

module _ {O : Type 0} (c : Connector O) where
  -- A folder from the frontier, `levels` above the depth at which the walk stops.
  unfoldable pub visit_folder : ℕ → String → Depths → Depths
  unfolding new_children
  visit_folder zero folder_id depths = depths
  visit_folder (suc levels) folder_id depths =
      let added = new_children (c.list_subfolders folder_id) depths (max_depth - levels) in
      visit_all (visit_folder levels) added (depths ++ added)

  unfoldable pub walk_folder_tree : String → List String
  unfolding visit_folder
  walk_folder_tree root =
      map (λ (e : String × ℕ). e.0) (visit_folder max_depth root ((root, 0) ∷ []))

  abbrev pub walk : String → String → Tiers → Tiers
  walk root tier l = if is_unset root then l else raise_tiers (walk_folder_tree root) tier l

  unfoldable pub resolve_folder_tiers : Option Tiers
  unfolding raise_tiers walk_folder_tree
  resolve_folder_tiers =
      if is_unset c.public_root && is_unset c.restricted_root
      then none
      else some (walk c.restricted_root restricted (walk c.public_root public []))

  unfoldable pub list_folders : Tiers → List Found → List Found
  unfolding find_all_in_folder
  list_folders [] l = l
  list_folders (entry ∷ tiers) l =
      list_folders tiers (find_all_in_folder (c.list_children entry.0) entry.1 entry.0 l)

  unfoldable pub list_watched_files : Tiers → List Found
  unfolding list_folders
  list_watched_files tiers = list_folders tiers []

  abbrev fallback_owner : Owner
  fallback_owner =
      if is_unset c.fallback_owner_email
      then no_fallback_email
      else elim (c.find_user c.fallback_owner_email) [
        | none ↦ fallback_not_registered c.fallback_owner_email
        | some user_id ↦ owner user_id true
      ]

  abbrev matched : String → Option ℕ
  matched email = if is_unset email then none else c.find_user email

  abbrev email_key : Option String → String
  email_key none = c.strip_lower ""
  email_key (some email) = c.strip_lower email

  unfoldable pub resolve_owner : Option String → Owner
  resolve_owner email = elim (matched (email_key email)) [
    | none ↦ fallback_owner
    | some user_id ↦ owner user_id false
  ]
