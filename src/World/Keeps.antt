-- ===== src/World/Keeps.antt =====
-- Regions that map a file of the chronicle, and changes of the store that keep them: what the
-- clients of one process rely on while others make regions, extend files and move positions.
use cornelich.Common.{ℕ, ◌≡◌, refl, ◌∙◌, sym, none, some, ok, ◌⊎◌, inl, inr}
use cornelich.Files.{File, Files, FilePath, find_file}
use cornelich.Region.{Region, region}
use cornelich.World.{RegionPtr, Store}
use cornelich.World.Access.{region_at, bytes_of}

-- The pointer stands for a region over a file that exists.
pub record Maps (st : Store) (p : RegionPtr) (path : FilePath) (size number : ℕ) : Type 0 where
  pub mapping : Region
  pub at : region_at p st ≡ ok mapping
  pub of_path : mapping.path ≡ path
  pub of_size : mapping.size ≡ size
  pub of_index : mapping.index ≡ number
  pub file : File
  pub file_there : find_file path st.files ≡ some file

-- The bytes of a mapping are those of its file.
pub bytes_of-Maps :
    (st : Store) (p : RegionPtr) (path : FilePath) (size number : ℕ) (f : File)
    → (m : Maps st p path size number) → find_file path st.files ≡ some f
    → bytes_of m.mapping st ≡ ok f.bytes
unfolding bytes_of
bytes_of-Maps st p path size number f m there = rw (m.of_path, there, bytes_of) refl

-- Every mapping of the first store is one of the second.
pub record Grows (st st' : Store) : Type 0 where
  pub still :
      (p : RegionPtr) (path : FilePath) (size number : ℕ)
      → Maps st p path size number
      → Maps st' p path size number

-- Every file of the first file system is in the second, with the same bytes.
pub record Unwritten (fs fs' : Files) : Type 0 where
  pub still :
      (q : FilePath) (f : File)
      → find_file q fs ≡ some f
      → (f' : File) × (find_file q fs' ≡ some f') × (f'.bytes ≡ f.bytes)

pub Grows-refl : (st : Store) → Grows st st
Grows-refl st = record { still = λ p path size number h. h }

pub Grows-trans : {a b c : Store} → Grows a b → Grows b c → Grows a c
Grows-trans h g = record {
  still = λ p path size number m. g.still p path size number (h.still p path size number m);
}

pub Unwritten-refl : (fs : Files) → Unwritten fs fs
Unwritten-refl fs = record { still = λ q f h. (f, h, refl) }

pub Unwritten-trans : {a b c : Files} → Unwritten a b → Unwritten b c → Unwritten a c
Unwritten-trans h g = record {
  still = λ q f e.
      let (f', e', same) = h.still q f e in
      let (f'', e'', same') = g.still q f' e' in (f'', e'', same' ∙ same);
}

-- The same files under the same names.
pub same_files-Unwritten :
    {fs fs' : Files} → ((q : FilePath) → find_file q fs' ≡ find_file q fs) → Unwritten fs fs'
same_files-Unwritten h = record { still = λ q f e. (f, h q ∙ e, refl) }

-- The same mapping, wherever its position stands.
pub record SameMapping (r r' : Region) : Type 0 where
  pub same_path : r'.path ≡ r.path
  pub same_size : r'.size ≡ r.size
  pub same_index : r'.index ≡ r.index

pub SameMapping-refl : (r : Region) → SameMapping r r
SameMapping-refl r = record { same_path = refl; same_size = refl; same_index = refl }

-- A store grows if its regions stay the same mappings and its files stay.
pub grows :
    {st st' : Store}
    → ((p : RegionPtr) (r : Region)
        → region_at p st ≡ ok r
        → (r' : Region) × (region_at p st' ≡ ok r') × SameMapping r r')
    → ((q : FilePath) (f : File)
        → find_file q st.files ≡ some f
        → (f' : File) × (find_file q st'.files ≡ some f'))
    → Grows st st'
grows keep stay = record {
  still = λ p path size number m.
      let (r', at, same) = keep p m.mapping m.at in
      let (f', there) = stay path m.file m.file_there in
      record {
        mapping = r';
        at = at;
        of_path = same.same_path ∙ m.of_path;
        of_size = same.same_size ∙ m.of_size;
        of_index = same.same_index ∙ m.of_index;
        file = f';
        file_there = there;
      };
}

pub Unwritten-stay :
    {fs fs' : Files}
    → Unwritten fs fs'
    → (q : FilePath) (f : File) → find_file q fs ≡ some f
    → (f' : File) × (find_file q fs' ≡ some f')
Unwritten-stay h q f e = let (f', there, same) = h.still q f e in (f', there)

-- A region as its constructor left it.
pub record IsFresh (r : Region) (size : ℕ) : Type 0 where
  pub is_new : r ≡ region r.path size r.index

-- Every region is one that was there, or newly made in the size.
pub record OnlyNew (st st' : Store) (size : ℕ) : Type 0 where
  pub origin :
      (p : RegionPtr) (r : Region)
      → region_at p st' ≡ ok r
      → (region_at p st ≡ ok r) ⊎ IsFresh r size

pub OnlyNew-refl : (st : Store) (size : ℕ) → OnlyNew st st size
OnlyNew-refl st size = record { origin = λ p r e. inl e }

-- Other files, none of them written.
pub files-Grows :
    (st : Store) (fs : Files) → Unwritten st.files fs → Grows st (record st { files = fs })
unfolding region_at
files-Grows st fs h = grows same (Unwritten-stay h)
  where
    same :
        (p : RegionPtr) (r : Region)
        → region_at p st ≡ ok r
        → (r' : Region) × (region_at p (record st { files = fs }) ≡ ok r') × SameMapping r r'
    same none r e = (r, e, SameMapping-refl r)
    same (some i) r e = (r, e, SameMapping-refl r)

-- The same regions, over other files.
pub region_at-files :
    (p : RegionPtr) (st : Store) (fs : Files)
    → region_at p (record st { files = fs }) ≡ region_at p st
unfolding region_at
region_at-files none st fs = refl
region_at-files (some i) st fs = refl

pub files-OnlyNew :
    (st st' : Store) (fs : Files) (size : ℕ)
    → OnlyNew (record st { files = fs }) st' size
    → OnlyNew st st' size
files-OnlyNew st st' fs size h = record {
  origin = λ p r e. elim (h.origin p r e) [
    | inl old ↦ inl (sym (region_at-files p st fs) ∙ old)
    | inr new ↦ inr new
  ];
}
