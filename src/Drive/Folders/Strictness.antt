-- ===== src/Drive/Folders/Strictness.antt =====
-- A file is synced at a tier as strict as that of any watched folder it lies in.
use a_pag_ai_knowledge_base.Prelude.{
  ℕ, ◌≡◌, refl, ap, sym, ◌∙◌, inl, inr, String, Bool, true, false, ◌&&◌, ◌||◌, Bool-cases, some,
  List, [], ◌∷◌, ◌++◌, any, str_eq, eq_iff, ltb, leb, if◌then◌else◌, arith, subst, if_either,
  some_eq,
}
use a_pag_ai_knowledge_base.Access.{public, restricted, is_stricter, tier_rank}
use a_pag_ai_knowledge_base.Drive.{DriveFile, Connector}
use a_pag_ai_knowledge_base.Drive.Export.{folder_mime}
use a_pag_ai_knowledge_base.Drive.Folders.{
  walk_folder_tree, Tiers, raise_tier, raise_tiers, Found, find_in_folder, find_all_in_folder,
  resolve_folder_tiers, list_folders, list_watched_files, walk,
}

-- The rank of the folder in the dictionary is at least `rank`.
abbrev pub IsAtLeast : String → ℕ → Tiers → Type 0
IsAtLeast folder_id rank l =
    any (λ (e : String × String). str_eq e.0 folder_id && leb rank (tier_rank (some e.1))) l ≡ true

-- The file is found, at a tier of at least this rank.
abbrev pub IsFoundAt : String → ℕ → List Found → Type 0
IsFoundAt file_id rank l =
    any (λ (f : Found). str_eq f.item.file_id file_id && leb rank (tier_rank (some f.tier))) l
    ≡ true

str_eq_refl : (a : String) → str_eq a a ≡ true
str_eq_refl a = (eq_iff a a).1 refl

or_map :
    (a : Bool) {b c d : Bool}
    → (a ≡ true → c ≡ true)
    → (b ≡ true → d ≡ true)
    → a || b ≡ true
    → c || d ≡ true
or_map true {c = true} here there h = refl
or_map true {c = false} here there h = absurd (cc (here refl))
or_map false {c = true} here there h = refl
or_map false {c = false} here there h = there h

or_keeps : (a : Bool) {b c : Bool} → (b ≡ true → c ≡ true) → a || b ≡ true → a || c ≡ true
or_keeps a keeps h = or_map a (λ a_true. a_true) keeps h

or_either {ℓ} :
    {P : Type ℓ} (a : Bool) {b : Bool} → (a ≡ true → P) → (b ≡ true → P) → a || b ≡ true → P
or_either true here there h = here refl
or_either false here there h = there h

-- Of two entries of one file, the stricter is as strict as either.
stricter_of_two :
    (rank new old : ℕ) → leb rank old ≡ true → leb rank (if ltb old new then new else old) ≡ true
stricter_of_two rank new old h = ground (arith, h)

find_in_folder_finds :
    (item : DriveFile) (tier folder_id : String) (l : List Found)
    → IsFoundAt item.file_id (tier_rank (some tier)) (find_in_folder item tier folder_id l)
unfolding find_in_folder is_stricter
find_in_folder_finds item tier folder_id [] = ground (arith, str_eq_refl item.file_id)
find_in_folder_finds item tier folder_id (f ∷ l) =
    ground (arith, str_eq_refl item.file_id, find_in_folder_finds item tier folder_id l)

find_in_folder_keeps :
    (item : DriveFile) (tier folder_id file_id : String) (rank : ℕ) (l : List Found)
    → IsFoundAt file_id rank l
    → IsFoundAt file_id rank (find_in_folder item tier folder_id l)
unfolding find_in_folder is_stricter
find_in_folder_keeps item tier folder_id file_id rank [] h = absurd (cc h)
find_in_folder_keeps item tier folder_id file_id rank (f ∷ l) h =
    elim (Bool-cases (str_eq f.item.file_id item.file_id)) [
      | inl same ↦ ground (arith, h, same, ap (λ a. str_eq a file_id) ((eq_iff _ _).0 same))
      | inr other ↦
          rw other (or_keeps _ (find_in_folder_keeps item tier folder_id file_id rank l) h)
    ]

find_all_in_folder_keeps :
    (items : List DriveFile) (tier folder_id file_id : String) (rank : ℕ) (l : List Found)
    → IsFoundAt file_id rank l
    → IsFoundAt file_id rank (find_all_in_folder items tier folder_id l)
unfolding find_all_in_folder
find_all_in_folder_keeps [] tier folder_id file_id rank l h = h
find_all_in_folder_keeps (item ∷ items) tier folder_id file_id rank l h =
    find_all_in_folder_keeps items tier folder_id file_id rank _ (
      if_either (IsFoundAt file_id rank) (str_eq item.mime_type folder_mime) h
        (find_in_folder_keeps item tier folder_id file_id rank l h))

IsFoundAt-lower :
    (file_id : String) (low high : ℕ) (l : List Found)
    → leb low high ≡ true
    → IsFoundAt file_id high l
    → IsFoundAt file_id low l
IsFoundAt-lower file_id low high [] le h = h
IsFoundAt-lower file_id low high (f ∷ l) le h =
    or_map _ (λ same_and_high. ground (arith, le, same_and_high))
      (IsFoundAt-lower file_id low high l le) h

-- A file of a folder is found at the folder's tier or a stricter one.
find_all_in_folder_finds :
    (item : DriveFile) (before after : List DriveFile) (tier folder_id : String) (rank : ℕ)
    (l : List Found)
    → str_eq item.mime_type folder_mime ≡ false
    → leb rank (tier_rank (some tier)) ≡ true
    → IsFoundAt item.file_id rank (find_all_in_folder (before ++ item ∷ after) tier folder_id l)
unfolding find_all_in_folder
find_all_in_folder_finds item [] after tier folder_id rank l is_file enough =
    find_all_in_folder_keeps after tier folder_id item.file_id rank _ (
      rw is_file (
        IsFoundAt-lower item.file_id rank (tier_rank (some tier)) _ enough
          (find_in_folder_finds item tier folder_id l)))
find_all_in_folder_finds item (other ∷ before) after tier folder_id rank l is_file enough =
    find_all_in_folder_finds item before after tier folder_id rank _ is_file enough

raise_tier_raises :
    (folder_id tier : String) (l : Tiers)
    → IsAtLeast folder_id (tier_rank (some tier)) (raise_tier folder_id tier l)
unfolding raise_tier is_stricter
raise_tier_raises folder_id tier [] = ground (arith, str_eq_refl folder_id)
raise_tier_raises folder_id tier (entry ∷ l) =
    ground (arith, str_eq_refl folder_id, raise_tier_raises folder_id tier l)

raise_tier_keeps :
    (raised_id tier folder_id : String) (rank : ℕ) (l : Tiers)
    → IsAtLeast folder_id rank l
    → IsAtLeast folder_id rank (raise_tier raised_id tier l)
unfolding raise_tier is_stricter
raise_tier_keeps raised_id tier folder_id rank [] h = absurd (cc h)
raise_tier_keeps raised_id tier folder_id rank (entry ∷ l) h =
    elim (Bool-cases (str_eq entry.0 raised_id)) [
      | inl same ↦ ground (arith, h, same, ap (λ a. str_eq a folder_id) ((eq_iff _ _).0 same))
      | inr other ↦ rw other (or_keeps _ (raise_tier_keeps raised_id tier folder_id rank l) h)
    ]

raise_tiers_keeps :
    (ids : List String) (tier folder_id : String) (rank : ℕ) (l : Tiers)
    → IsAtLeast folder_id rank l
    → IsAtLeast folder_id rank (raise_tiers ids tier l)
unfolding raise_tiers
raise_tiers_keeps [] tier folder_id rank l h = h
raise_tiers_keeps (i ∷ ids) tier folder_id rank l h =
    raise_tiers_keeps ids tier folder_id rank _ (raise_tier_keeps i tier folder_id rank l h)

-- Every folder of a tree that is walked gets the tree's tier, or keeps a stricter one.
raise_tiers_raises :
    (folder_id : String) (before after : List String) (tier : String) (l : Tiers)
    → IsAtLeast folder_id (tier_rank (some tier)) (raise_tiers (before ++ folder_id ∷ after) tier l)
unfolding raise_tiers
raise_tiers_raises folder_id [] after tier l =
    raise_tiers_keeps after tier folder_id _ _ (raise_tier_raises folder_id tier l)
raise_tiers_raises folder_id (i ∷ before) after tier l =
    raise_tiers_raises folder_id before after tier _

module _ {O : Type 0} (c : Connector O) where
  list_folders_keeps :
      (tiers : Tiers) (file_id : String) (rank : ℕ) (l : List Found)
      → IsFoundAt file_id rank l
      → IsFoundAt file_id rank (list_folders c tiers l)
  unfolding list_folders
  list_folders_keeps [] file_id rank l h = h
  list_folders_keeps (entry ∷ tiers) file_id rank l h =
      list_folders_keeps tiers file_id rank _
        (find_all_in_folder_keeps (c.list_children entry.0) entry.1 entry.0 file_id rank l h)

  -- A file of a folder that has the tier, or a stricter one, is found there.
  listed_is_found :
      (item : DriveFile) (folder_id : String) (before after : List DriveFile) (rank : ℕ)
      (entry : String × String) (l : List Found)
      → c.list_children folder_id ≡ before ++ item ∷ after
      → str_eq item.mime_type folder_mime ≡ false
      → str_eq entry.0 folder_id && leb rank (tier_rank (some entry.1)) ≡ true
      → IsFoundAt item.file_id rank (find_all_in_folder (c.list_children entry.0) entry.1 entry.0 l)
  listed_is_found item folder_id before after rank entry l listed is_file h =
      rw (ap c.list_children ((eq_iff entry.0 folder_id).0 (ground (arith, h))) ∙ listed) (
        find_all_in_folder_finds item before after entry.1 entry.0 rank l is_file
          (ground (arith, h)))

  list_folders_finds :
      (item : DriveFile) (folder_id : String) (before after : List DriveFile) (rank : ℕ)
      (tiers : Tiers) (l : List Found)
      → c.list_children folder_id ≡ before ++ item ∷ after
      → str_eq item.mime_type folder_mime ≡ false
      → IsAtLeast folder_id rank tiers
      → IsFoundAt item.file_id rank (list_folders c tiers l)
  unfolding list_folders
  list_folders_finds item folder_id before after rank [] l listed is_file h = absurd (cc h)
  list_folders_finds item folder_id before after rank (entry ∷ tiers) l listed is_file h =
      or_either _
        (λ both.
          list_folders_keeps tiers item.file_id rank _
            (listed_is_found item folder_id before after rank entry l listed is_file both))
        (list_folders_finds item folder_id before after rank tiers _ listed is_file) h

  resolve_folder_tiers_both :
      str_eq c.restricted_root "" ≡ false
      → resolve_folder_tiers c
        ≡ some (
            raise_tiers
              (walk_folder_tree c c.restricted_root)
              restricted
              (walk c c.public_root public []))
  unfolding resolve_folder_tiers
  resolve_folder_tiers_both root = elim (Bool-cases (str_eq c.public_root "")) [
    | inl no_public ↦ rw (root, no_public) refl
    | inr public_root ↦ rw (root, public_root) refl
  ]

  -- Where a restricted folder is configured, a file that is no folder and that Drive lists in any
  -- folder that the walk of its tree reaches is listed for the pass at the rank of RESTRICTED or
  -- above, in whatever public folders it or its folder also lies; the walk lists no subfolders
  -- below ten levels under the root.
  pub restricted_tree_stays_restricted :
      (item : DriveFile) (folder_id : String) (folders others : List String)
      (before after : List DriveFile) (tiers : Tiers)
      → str_eq c.restricted_root "" ≡ false
      → walk_folder_tree c c.restricted_root ≡ folders ++ folder_id ∷ others
      → c.list_children folder_id ≡ before ++ item ∷ after
      → str_eq item.mime_type folder_mime ≡ false
      → resolve_folder_tiers c ≡ some tiers
      → IsFoundAt item.file_id (tier_rank (some restricted)) (list_watched_files c tiers)
  unfolding resolve_folder_tiers list_watched_files
  restricted_tree_stays_restricted item folder_id folders others before after tiers root walked
        listed is_file resolved =
      list_folders_finds item folder_id before after _ tiers [] listed is_file (
        subst (IsAtLeast folder_id (tier_rank (some restricted)))
          (some_eq (sym (resolve_folder_tiers_both root) ∙ resolved))
          (rw walked (raise_tiers_raises folder_id folders others restricted _)))
