-- ===== src/Storage/Disk.antt =====
-- The files of a disk, and `LocalDiskStorage.save`, `load` and `delete` on them.
use saas_genai_starter.Common.{
  Bool, false, ◌||◌, Option, none, some, List, [], ◌∷◌, ◌++◌, if◌then◌else◌, any,
}
use saas_genai_starter.Core.Action.{Action, Result, ok, crash}
use saas_genai_starter.Chunking.Words.{Text}
use saas_genai_starter.Storage.Paths.{ResolvedPath, same_path, resolve}

-- The files with their data, and the directories.
pub record Disk (Data : Type 0) : Type 0 where
  pub files : List (ResolvedPath × Data)
  pub directories : List ResolvedPath

-- the parents of a path, up to the file system's root
abbrev pub parents : ResolvedPath → List ResolvedPath
parents [] = []
parents (n ∷ p) = p ∷ parents p

module _ {Data : Type 0} where
  unfoldable pub file_at : ResolvedPath → List (ResolvedPath × Data) → Option Data
  file_at p [] = none
  file_at p ((q, d) ∷ files) = if same_path p q then some d else file_at p files

  unfoldable pub has_file : List (ResolvedPath × Data) → ResolvedPath → Bool
  has_file [] p = false
  has_file ((q, d) ∷ files) p = let rest = has_file files p in same_path p q || rest

  abbrev pub without_file : ResolvedPath → List (ResolvedPath × Data) → List (ResolvedPath × Data)
  without_file p [] = []
  without_file p ((q, d) ∷ files) =
      let rest = without_file p files in if same_path p q then rest else (q, d) ∷ rest

  -- `target.parent.mkdir(parents=True, exist_ok=True)` and `target.write_bytes`. A parent that is a file
  -- and a target that is a directory are an OSError.
  unfoldable pub write : ResolvedPath → Data → Action (Disk Data) (Unit {0})
  unfolding has_file
  write p bytes disk =
      if any (has_file disk.files) (parents p)
      then (crash "OSError", disk)
      else if any (same_path p) disk.directories
      then (crash "OSError", record disk { directories = parents p ++ disk.directories })
      else (
        ok tt,
        record {
          files = (p, bytes) ∷ without_file p disk.files;
          directories = parents p ++ disk.directories;
        },
      )

  unfoldable pub read : ResolvedPath → Disk Data → Result Data
  unfolding file_at
  read p disk = elim (file_at p disk.files) [ none ↦ crash "OSError" | some d ↦ ok d ]

  -- `target.unlink(True)`
  unfoldable pub unlink : ResolvedPath → Action (Disk Data) (Unit {0})
  unfolding has_file
  unlink p disk =
      if any (has_file disk.files) (parents p) || any (same_path p) disk.directories
      then (crash "OSError", disk)
      else (ok tt, record disk { files = without_file p disk.files })

  module _ (root : ResolvedPath) where
    unfoldable pub save_at : Option ResolvedPath → Data → Action (Disk Data) (Unit {0})
    unfolding write
    save_at none bytes disk = (crash "ValueError", disk)
    save_at (some p) bytes disk = write p bytes disk

    unfoldable pub save : Text → Data → Action (Disk Data) (Unit {0})
    unfolding save_at resolve
    save path = save_at (resolve root path)

    unfoldable pub load_at : Option ResolvedPath → Disk Data → Result Data
    unfolding read
    load_at none disk = crash "ValueError"
    load_at (some p) disk = read p disk

    unfoldable pub load : Text → Disk Data → Result Data
    unfolding load_at resolve
    load path = load_at (resolve root path)

    unfoldable pub delete_at : Option ResolvedPath → Action (Disk Data) (Unit {0})
    unfolding unlink
    delete_at none disk = (crash "ValueError", disk)
    delete_at (some p) disk = unlink p disk

    unfoldable pub delete : Text → Action (Disk Data) (Unit {0})
    unfolding delete_at resolve
    delete path = delete_at (resolve root path)
