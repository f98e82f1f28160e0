-- ===== src/World/Mapping.antt =====
-- A new mapping, as `std::make_shared<region>(…)` of cornelich/region.cpp leaves the shared state.
use cornelich.Common.{
  ℕ, zero, suc, ◌^◌, ◌%◌, ◌≡◌, ◌⊎◌, refl, ◌∙◌, sym, ap, arith, List, [], ◌∷◌, ◌++◌, none, some,
  length, get_elem?, ok, ok_same, Option-cases, inl, inr, ltb, Bool-cases,
}
use cornelich.Common.Words.{shl64}
use mathlib.Core.Path.{subst}
use cornelich.Files.{File, Files, FilePath, find_file, put_file, create_mapping}
use cornelich.Files.Laws.{put_file-cases, find_file-put_file_self}
use cornelich.Region.{Region, region}
use cornelich.World.{RegionPtr, Store}
use cornelich.World.Access.{region_at, make_region}
use cornelich.World.Keeps.{
  Maps, Grows, Unwritten, OnlyNew, IsFresh, SameMapping, SameMapping-refl, Unwritten-refl,
  Unwritten-stay, grows,
}

put_file-Unwritten :
    (p : FilePath) (f f' : File) (fs : Files)
    → find_file p fs ≡ some f
    → f'.bytes ≡ f.bytes
    → Unwritten fs (put_file p f' fs)
put_file-Unwritten p f f' fs there same = record {
  still = λ q g e. elim (put_file-cases p q f' fs) [
    | inl (eq, now) ↦ (f', now, ground arith)
    | inr now ↦ (g, now ∙ e, refl)
  ];
}

pub create_mapping-Unwritten :
    (p : FilePath) (size : ℕ) (fs : Files) → Unwritten fs (create_mapping p size fs)
unfolding create_mapping
create_mapping-Unwritten p size fs = elim (Option-cases (find_file p fs)) [
  | inl absent ↦
      rw (absent, create_mapping)
        record {
          still = λ q g e. elim (put_file-cases p q (record { size = size; bytes = λ _. 0 }) fs) [
            | inl (eq, now) ↦ cc
            | inr now ↦ (g, now ∙ e, refl)
          ];
        }
  | inr (f, there) ↦ elim (Bool-cases (ltb f.size size)) [
    | inl short ↦
        rw (there, short, create_mapping)
          (put_file-Unwritten p f (record f { size = size }) fs there refl)
    | inr long ↦ rw (there, long, create_mapping) (Unwritten-refl fs)
  ]
]

pub create_mapping-there :
    (p : FilePath) (size : ℕ) (fs : Files)
    → (f : File) × (find_file p (create_mapping p size fs) ≡ some f)
unfolding create_mapping
create_mapping-there p size fs = elim (Option-cases (find_file p fs)) [
  | inl absent ↦ (
    record { size = size; bytes = λ _. 0 },
    rw (absent, create_mapping) (find_file-put_file_self p _ fs),
  )
  | inr (f, there) ↦ elim (Bool-cases (ltb f.size size)) [
    | inl short ↦ (
      record f { size = size },
      rw (there, short, create_mapping) (find_file-put_file_self p _ fs),
    )
    | inr long ↦ (f, rw (there, long, create_mapping) there)
  ]
]

get_elem?-append :
    {A : Type 0} (xs ys : List A) (i : ℕ) (x : A)
    → get_elem? xs i ≡ some x
    → get_elem? (xs ++ ys) i ≡ some x
get_elem?-append [] ys i x h = cc
get_elem?-append (y ∷ xs) ys zero x h = h
get_elem?-append (y ∷ xs) ys (suc i) x h = get_elem?-append xs ys i x h

get_elem?-length :
    {A : Type 0} (xs : List A) (x : A) → get_elem? (xs ++ (x ∷ [])) (length xs) ≡ some x
get_elem?-length [] x = refl
get_elem?-length (y ∷ xs) x = get_elem?-length xs x

pub region_at-get_elem? :
    (i : ℕ) (st : Store) (r : Region)
    → region_at (some i) st ≡ ok r
    → get_elem? st.regions i ≡ some r
unfolding region_at
region_at-get_elem? i st r h = elim (Option-cases (get_elem? st.regions i)) [
  | inl absent ↦ cc (rw (absent, region_at) at h)
  | inr (x, there) ↦ there ∙ ap some (ok_same (rw (there, region_at) at h))
]

get_elem?-snoc :
    {A : Type 0} (xs : List A) (y x : A) (i : ℕ)
    → get_elem? (xs ++ (y ∷ [])) i ≡ some x
    → (get_elem? xs i ≡ some x) ⊎ (x ≡ y)
get_elem?-snoc [] y x zero h = inr (ground (arith, h))
get_elem?-snoc [] y x (suc i) h = cc
get_elem?-snoc (z ∷ xs) y x zero h = inl h
get_elem?-snoc (z ∷ xs) y x (suc i) h = get_elem?-snoc xs y x i h

one_more-OnlyNew :
    (st : Store) (fs : Files) (path : FilePath) (size number : ℕ)
    → OnlyNew st
        (record { files = fs; regions = st.regions ++ (region path size number ∷ []) })
        size
unfolding region_at region
one_more-OnlyNew st fs path size number = record { origin = from }
  where
    from :
        (p : RegionPtr) (r : Region)
        → region_at p
            (record { files = fs; regions = st.regions ++ (region path size number ∷ []) })
          ≡ ok r
        → (region_at p st ≡ ok r) ⊎ IsFresh r size
    from none r e = cc
    from (some i) r e =
        elim (get_elem?-snoc st.regions (region path size number) r i (
          region_at-get_elem? i
            (record { files = fs; regions = st.regions ++ (region path size number ∷ []) }) r e)) [
              | inl old ↦ inl (rw (old, region_at) refl)
              | inr new ↦ inr (subst (λ x. IsFresh x size) (sym new) (record { is_new = refl }))
            ]

-- More regions behind those that are there.
more_regions-Grows :
    (st : Store) (fs : Files) (rs : List Region)
    → Unwritten st.files fs
    → Grows st (record { files = fs; regions = st.regions ++ rs })
unfolding region_at
more_regions-Grows st fs rs h = grows found (Unwritten-stay h)
  where
    found :
        (p : RegionPtr) (r : Region)
        → region_at p st ≡ ok r
        → (r' : Region) × (region_at p (record { files = fs; regions = st.regions ++ rs }) ≡ ok r')
          × SameMapping r r'
    found none r e = (r, e, SameMapping-refl r)
    found (some i) r e = (
      r,
      rw (get_elem?-append st.regions rs i r (region_at-get_elem? i st r e), region_at) refl,
      SameMapping-refl r,
    )

-- What a new mapping changes, and what it is.
pub make_region-Maps :
    (path : FilePath) (bits number : ℕ) (st : Store)
    → let (st', p) = make_region (some path) bits number st in
      let size : ℕ = shl64 1 bits % 2 ^ 32 in
      Grows st st'
      × (Unwritten st.files st'.files × (OnlyNew st st' size × Maps st' p path size number))
unfolding make_region region_at region
make_region-Maps path bits number st =
    let size : ℕ = shl64 1 bits % 2 ^ 32 in
    let keeps = create_mapping-Unwritten path size st.files in
    let (f, there) = create_mapping-there path size st.files in
    (
      more_regions-Grows st _ (region path size number ∷ []) keeps,
      (
        keeps,
        (
          one_more-OnlyNew st _ path size number,
          record {
            mapping = region path size number;
            at = rw (get_elem?-length st.regions (region path size number), region_at) refl;
            of_path = refl;
            of_size = refl;
            of_index = refl;
            file = f;
            file_there = there;
          },
        ),
      ),
    )
