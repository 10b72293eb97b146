-- ===== src/Assets.antt =====
-- launcher/mac/main.go: `extractTarXZ` and `refreshInitAssets`. The directory of the launcher is a map
-- from paths to files, whose JSON is decoded. Whether system calls succeed is an argument, and so is
-- what `xz` and `tar` read from an archive.
use exasol_local_vm.Prelude.{
  Text, codes, Bool, true, false, ◌||◌, List, [], ◌∷◌, Option, none, some, if◌then◌else◌, is_nil,
  err,
}
use exasol_local_vm.Prelude.Map.{Map, lookup, insert, delete}
use exasol_local_vm.Prelude.Effects.{Run, ◌>>=◌, ◌>>◌, return, ensure, modify, gets, some_or}
use exasol_local_vm.Std.Path.{join_path, dir}
use exasol_local_vm.Shell.{RuntimeConfig}

pub data Node : Type 0 where
  directory : Node
  file : Text → Bool → Node
  config : RuntimeConfig → Node

abbrev pub Tree : Type 0
Tree = Map Node

pub data EntryKind : Type 0 where
  dir_entry regular_entry other_entry : EntryKind

pub record Entry : Type 0 where
  pub name : Text
  pub kind : EntryKind
  pub executable : Bool
  pub content : Text

-- What reading a tar archive gives: its entries, up to its end or to an error.
pub data Archive : Type 0 where
  end broken : Archive
  entry : Entry → Archive → Archive

-- What the system answers: which calls on a path succeed, what a path outside the model holds, the home
-- and the working directory.
pub record InitCalls : Type 0 where
  pub make_dir : Text → Bool
  pub create : Text → Bool
  pub copy : Text → Bool
  pub chmod : Text → Bool
  pub write : Text → Bool
  pub remove : Text → Bool
  pub is_dir : Text → Option Bool
  pub read : Text → Option Text
  pub home : Option Text
  pub work_dir : Option Text

pub data InitError : Type 0 where
  empty_path no_home no_stat is_directory no_abs no_read bad_key bad_archive broken_archive no_key :
      InitError
  not_made not_created not_copied not_written not_removed : Text → InitError

abbrev pub Init : Type 0 → Type 0
Init = Run Tree InitError

unfoldable pub put_file : Text → Text → Bool → Init (Unit {0})
put_file path content executable = modify (insert path (file content executable))

abbrev pub is_absent : Option Node → Bool
is_absent none = true
is_absent (some _) = false

-- One entry of an archive: directories, regular files, and nothing else. Making a file executable may
-- fail unnoticed.
unfoldable pub place : InitCalls → EntryKind → Entry → Text → Init (Unit {0})
unfolding put_file
place os dir_entry e path = do
  ensure (os.make_dir path) (not_made path)
  modify (insert path directory)
place os regular_entry e path = do
  ensure (os.make_dir (dir path)) (not_made (dir path))
  ensure (os.create path) (not_created path)
  put_file path [] false
  ensure (os.copy path) (not_copied path)
  put_file path e.content (if e.executable then os.chmod path else false)
place os other_entry e path = return tt

-- The path of an entry, `none` if it is skipped.
unfoldable pub entry_path : Option (Text → Text) → Text → Option Text
entry_path none name = some name
entry_path (some transform) name = if is_nil (transform name) then none else some (transform name)

unfoldable pub place_at : InitCalls → Text → Entry → Option Text → Init (Unit {0})
unfolding place
place_at os output_dir e none = return tt
place_at os output_dir e (some name) = place os e.kind e (join_path output_dir name)

unfoldable pub extract : InitCalls → Option (Text → Text) → Text → Archive → Init (Unit {0})
extract os transform output_dir end = return tt
extract os transform output_dir broken = λ tree. (err broken_archive, tree)
extract os transform output_dir (entry e archive) = do
  place_at os output_dir e (entry_path transform e.name)
  extract os transform output_dir archive

-- `extractTarXZ`, given what `xz` reads.
unfoldable pub extract_tar_xz :
    InitCalls → Option Archive → Option (Text → Text) → Text → Init (Unit {0})
extract_tar_xz os archive transform output_dir = do
  entries ← some_or archive bad_archive
  extract os transform output_dir entries

-- Removing a file that is not there is no error.
unfoldable pub remove_all : InitCalls → List Text → Init (Unit {0})
remove_all os [] = return tt
remove_all os (path ∷ paths) = do
  present ← gets (lookup path)
  ensure (is_absent present || os.remove path) (not_removed path)
  modify (delete path)
  remove_all os paths

-- Assets of earlier versions, in the shared directory.
unfoldable pub legacy_paths : Text → List Text
legacy_paths shared_dir =
    join_path (join_path shared_dir (codes "init")) (codes "init-db.sh")
    ∷ join_path (join_path shared_dir (codes "init")) (codes "config.json")
    ∷ join_path (join_path shared_dir (codes "init")) (codes "exasol-nano-db.tar.gz")
    ∷ join_path (join_path shared_dir (codes "init")) (codes "exasol-nano-db.tar.gz.metadata")
    ∷ join_path shared_dir (codes "version-check.json")
    ∷ join_path shared_dir (codes "slc.json")
    ∷ []

-- `refreshInitAssets`
unfoldable pub refresh_init_assets : InitCalls → Option Archive → Text → Init (Unit {0})
refresh_init_assets os assets shared_dir = do
  extract_tar_xz os assets none shared_dir
  remove_all os (legacy_paths shared_dir)
