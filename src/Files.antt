-- ===== src/Files.antt =====
-- The file system as the chronicle uses it, with cornelich/util/files.cpp and make_file of
-- cornelich/vanilla_utils.cpp: below the base path stand the folders of the cycles, and in them the
-- files. Names are lists of bytes, in the order in which a directory iterator meets them.
pub mod Laws
use cornelich.Common.{
  ℕ, zero, suc, Bool, true, false, not, ◌&&◌, ltb, if◌then◌else◌, List, [], ◌∷◌, ◌++◌, Option, none,
  some,
}
use cornelich.Common.{Outcome, ok, throws, runtime_error, ◌>>=◌}
use cornelich.Common.Assoc.{lookup, insert}
use cornelich.Memory.{Bytes}
use native.Mathlib.Decide.{ℕ_discrete}

abbrev pub Name : Type 0
Name = List ℕ

unfoldable pub Name-discrete : Discrete Name
unfolding ℕ_discrete
Name-discrete = hlevel ℕ_discrete

-- The bytes from `size` on are 0.
pub record File : Type 0 where
  pub size : ℕ
  pub bytes : Bytes

pub data Entry : Type 0 where
  folder : List (Name × File) → Entry
  plain : Entry  -- a file directly below the base path

-- What stands below the base path; nothing if it does not exist.
abbrev pub Files : Type 0
Files = List (Name × Entry)

-- `base / cycle_string / file_name`
pub record FilePath : Type 0 where
  pub cycle_string : Name
  pub file_name : Name

-- The files of a folder, none if there is no such folder.
unfoldable pub folder_files : Name → Files → List (Name × File)
folder_files dir fs = elim (lookup Name-discrete dir fs) [
  | some (folder l) ↦ l
  | some plain ↦ []
  | none ↦ []
]

unfoldable pub find_file : FilePath → Files → Option File
unfolding folder_files
find_file p fs = lookup Name-discrete p.file_name (folder_files p.cycle_string fs)

unfoldable pub is_some {ℓ} : {A : Type ℓ} → Option A → Bool
is_some none = false
is_some (some a) = true

-- Writes a file of an existing folder.
unfoldable pub put_file : FilePath → File → Files → Files
unfolding folder_files
put_file p f fs =
    insert Name-discrete p.cycle_string
      (folder (insert Name-discrete p.file_name f (folder_files p.cycle_string fs))) fs

-- `if(!fs::is_directory(dir)) fs::create_directories(dir)`, which throws if a file has that name.
unfoldable pub ensure_directory : Name → Files → Outcome Files
ensure_directory dir fs = elim (lookup Name-discrete dir fs) [
  | some (folder l) ↦ ok fs
  | some plain ↦ throws runtime_error
  | none ↦ ok (insert Name-discrete dir (folder []) fs)
]

-- `make_file(base_path, cycle_string, file_name, append)`; none is the empty string.
unfoldable pub make_file : Name → Name → Bool → Files → Outcome (Files × Option FilePath)
unfolding find_file is_some ensure_directory
make_file cycle_string file_name append fs =
    let file : FilePath = record { cycle_string = cycle_string; file_name = file_name } in
    if not append && not (is_some (find_file file fs))
    then ok (fs, none)
    else ensure_directory cycle_string fs >>= λ fs'.
        if is_some (find_file file fs')
        then ok (fs', some file)
        else if append
        then ok (fs', some file)
        else ok (fs', none)

-- `touch` of a file that does not exist, then `resize_file` up to the size: what `create_mapping`
-- leaves in the file system. A new part of a file reads 0.
unfoldable pub create_mapping : FilePath → ℕ → Files → Files
unfolding find_file put_file
create_mapping p size fs = elim (find_file p fs) [
  | none ↦ put_file p (record { size = size; bytes = λ _. 0 }) fs
  | some f ↦ if ltb f.size size then put_file p (record f { size = size }) fs else fs
]
