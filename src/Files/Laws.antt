-- ===== src/Files/Laws.antt =====
-- What `make_file` and `create_mapping` change in the file system.
use cornelich.Common.{
  Bool, true, false, if◌then◌else◌, Bool-cases, ok_pair, sym, Option, List, [], none, some,
}
use cornelich.Common.{ok, ◌≡◌, ◌≢◌, refl, arith, Option-cases, ◌⊎◌, inl, inr, ◌∙◌}
use cornelich.Common.Assoc.{lookup, insert, lookup-insert}
use cornelich.Files.{
  Name, Name-discrete, File, folder, plain, Files, FilePath, folder_files, find_file, is_some,
  put_file, ensure_directory, make_file,
}
use mathlib.Core.Logic.{ite}

-- A file that is found stands in a folder.
found_in_folder :
    (p : FilePath) (fs : Files) (f : File)
    → find_file p fs ≡ some f
    → (l : List (Name × File)) × (lookup Name-discrete p.cycle_string fs ≡ some (folder l))
unfolding find_file
found_in_folder p fs f e = elim (Option-cases (lookup Name-discrete p.cycle_string fs)) [
  | inl absent ↦ absurd (no_files (rw (absent, folder_files) at e))
  | inr (folder l, present) ↦ (l, present)
  | inr (plain, present) ↦ absurd (no_files (rw (present, folder_files) at e))
]
  where
    no_files : lookup Name-discrete p.file_name [] ≡ some f → ⊥
    no_files q = unfold lookup in cc

-- Without `append` the result is the path if the file exists and empty otherwise, and nothing
-- changes.
pub make_file_read :
    (cycle_string file_name : Name) (fs : Files)
    → make_file cycle_string file_name false fs
      ≡ ok (
        fs,
        (if is_some (find_file (record { cycle_string = cycle_string; file_name = file_name }) fs)
            then some (record { cycle_string = cycle_string; file_name = file_name })
            else none),
      )
unfolding make_file
make_file_read c n fs =
    elim (Option-cases (find_file (record { cycle_string = c; file_name = n }) fs)) [
      | inl absent ↦ ground arith
      | inr (f, present) ↦
          let (l, there) =
            found_in_folder (record { cycle_string = c; file_name = n }) fs f present in
          ground arith
    ]

ensure_directory-find_file :
    (dir : Name) (fs fs' : Files) (q : FilePath)
    → ensure_directory dir fs ≡ ok fs'
    → find_file q fs' ≡ find_file q fs
unfolding ensure_directory find_file
ensure_directory-find_file dir fs fs' q e =
    ground (arith, lookup-insert Name-discrete dir q.cycle_string (folder []) fs)

-- With `append`, if no plain file has the name of the folder, the result is the path; the folder
-- may be new, but no file is created, removed or changed.
pub make_file_append :
    (cycle_string file_name : Name) (fs : Files)
    → lookup Name-discrete cycle_string fs ≢ some plain
    → (fs' : Files) × (make_file cycle_string file_name true fs
        ≡ ok (fs', some (record { cycle_string = cycle_string; file_name = file_name })))
      × ((q : FilePath) → find_file q fs' ≡ find_file q fs)
unfolding make_file
make_file_append c n fs h = elim (Option-cases (lookup Name-discrete c fs)) [
  | inl absent ↦ (
    insert Name-discrete c (folder []) fs,
    ground arith,
    λ q. ensure_directory-find_file c fs _ q (ground arith),
  )
  | inr (folder l, present) ↦ (fs, ground arith, λ q. refl)
  | inr (plain, present) ↦ absurd (h present)
]

find_file-put_file :
    (p q : FilePath) (f : File) (fs : Files)
    → find_file q (put_file p f fs)
      ≡ ite
          (Name-discrete p.cycle_string q.cycle_string)
          (ite (Name-discrete p.file_name q.file_name) (some f) (find_file q fs))
          (find_file q fs)
unfolding find_file put_file
find_file-put_file p q f fs = ground (
  arith,
  lookup-insert Name-discrete p.cycle_string q.cycle_string
      (folder (insert Name-discrete p.file_name f (folder_files p.cycle_string fs))) fs,
  lookup-insert Name-discrete p.file_name q.file_name f (folder_files p.cycle_string fs),
)

-- The file that was put is found under its path, and the others as before.
pub put_file-cases :
    (p q : FilePath) (f : File) (fs : Files)
    → ((q ≡ p) × (find_file q (put_file p f fs) ≡ some f))
      ⊎ (find_file q (put_file p f fs) ≡ find_file q fs)
put_file-cases p q f fs = elim (Name-discrete p.cycle_string q.cycle_string) [
  | no other ↦ inr (find_file-put_file p q f fs ∙ ground arith)
  | yes same ↦ elim (Name-discrete p.file_name q.file_name) [
    | no other ↦ inr (find_file-put_file p q f fs ∙ ground arith)
    | yes twice ↦ inl (rw (← same, ← twice) refl, find_file-put_file p q f fs ∙ ground arith)
  ]
]

pub find_file-put_file_self :
    (p : FilePath) (f : File) (fs : Files) → find_file p (put_file p f fs) ≡ some f
find_file-put_file_self p f fs = ground (arith, find_file-put_file p p f fs)

make_file_stray :
    (c n : Name) (fs : Files) {x : Files × Option FilePath}
    → lookup Name-discrete c fs ≡ some plain
    → ok x ≢ make_file c n true fs
unfolding make_file
make_file_stray c n fs there e = ground (arith, there)

-- A call that returns leaves every file as it was, and gives the path asked for or none.
pub make_file_keeps :
    (cycle_string file_name : Name) (append : Bool) (fs fs' : Files) (path : Option FilePath)
    → make_file cycle_string file_name append fs ≡ ok (fs', path)
    → ((q : FilePath) → find_file q fs' ≡ find_file q fs)
      × ((path ≡ none)
          ⊎ (path ≡ some (record { cycle_string = cycle_string; file_name = file_name })))
make_file_keeps c n false fs fs' path h =
    let file : FilePath = record { cycle_string = c; file_name = n } in
    let (same, result) = ok_pair (sym (make_file_read c n fs) ∙ h) in
    elim (Bool-cases (is_some (find_file file fs))) [
      | inl there ↦ (λ q. rw same refl, inr (sym result ∙ rw there refl))
      | inr absent ↦ (λ q. rw same refl, inl (sym result ∙ rw absent refl))
    ]
make_file_keeps c n true fs fs' path h = elim (Option-cases (lookup Name-discrete c fs)) [
  | inl absent ↦ appended (λ e. cc)
  | inr (folder l, there) ↦ appended (λ e. cc)
  | inr (plain, there) ↦ absurd (make_file_stray c n fs there (sym h))
]
  where
    appended :
        lookup Name-discrete c fs ≢ some plain
        → ((q : FilePath) → find_file q fs' ≡ find_file q fs)
          × ((path ≡ none) ⊎ (path ≡ some (record { cycle_string = c; file_name = n })))
    appended other =
        let (fs₁, e, keeps) = make_file_append c n fs other in
        let (same, result) = ok_pair (sym e ∙ h) in (λ q. rw (← same) (keeps q), inr (sym result))
