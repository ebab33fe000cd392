-- ===== src/DriveClient/Files.antt =====
-- internal/driveclient/driveclient.go: what the engine sees of Drive's files and of its changes.
use synckeeper.Base.{
  Bool, not, ◌&&◌, Option, none, some, List, [], ◌∷◌, Bytes, codes, bytes_eq, ◌==◌, ℤ, has_prefix,
  if◌then◌else◌,
}

abbrev pub folder_mime_type : Bytes
folder_mime_type = codes "application/vnd.google-apps.folder"

abbrev pub google_apps_prefix : Bytes
google_apps_prefix = codes "application/vnd.google-apps"

-- `modified_time` is in Unix nanoseconds, none for the zero time.
pub record File : Type 0 where
  pub id : Bytes
  pub name : Bytes
  pub mime_type : Bytes
  pub md5 : Bytes
  pub size : ℤ
  pub version : ℤ
  pub parents : List Bytes
  pub trashed : Bool
  pub modified_time : Option ℤ

unfoldable pub is_dir : File → Bool
is_dir f = f.mime_type == folder_mime_type

unfoldable pub is_google_native : File → Bool
unfolding is_dir
is_google_native f = not (is_dir f) && has_prefix f.mime_type google_apps_prefix

-- `file` is none for a nil pointer.
pub record Change : Type 0 where
  pub file_id : Bytes
  pub removed : Bool
  pub file : Option File

pub record ChangePage : Type 0 where
  pub changes : List Change
  pub next_page_token : Bytes
  pub new_start_token : Bytes

-- The first folder of the name, in the loop of FindOrCreateFolder.
unfoldable pub find_folder : Bytes → List File → Option File
unfolding is_dir
find_folder name [] = none
find_folder name (f ∷ files) = if is_dir f && f.name == name then some f else find_folder name files
