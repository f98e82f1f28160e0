-- ===== src/World/Lookup.antt =====
-- The calls of `get` that `index_for` (cornelich/vanilla_index.cpp) and `data_for`
-- (cornelich/vanilla_data.cpp) make, for any keys: the provider makes a mapping of the key's file.
use cornelich.Common.{
  ℕ, ◌%◌, ◌^◌, Bool, true, false, Option, none, some, length, Outcome, ok, ◌>>=◌,
}
use cornelich.Common.{◌≡◌, ◌⊎◌, refl, sym, ◌∙◌, inl, inr, >>=-eq-ok, ok_same, ok_pair}
use mathlib.Core.Path.{subst}
use cornelich.Common.Words.{shl64}
use cornelich.Files.{Name, FilePath, find_file, make_file, is_some, File}
use cornelich.Files.Laws.{make_file_keeps, make_file_read}
use cornelich.Util.Cache.{Cache, get}
use cornelich.Util.Cache.Bounds.{IsValid}
use cornelich.Util.Cache.Entries.{Entries, Served-Entries, get_returns}
use cornelich.Util.Cache.Invariant.{Served-IsValid}
use cornelich.Util.Cache.Served.{Served, hit, stored, passed, get-Served}
use cornelich.World.{RegionPtr, Store}
use cornelich.World.Access.{make_region}
use cornelich.World.Keeps.{
  Maps, Grows, Unwritten, OnlyNew, OnlyNew-refl, files-OnlyNew, files-Grows, Grows-refl,
  Grows-trans, Unwritten-refl, Unwritten-trans, same_files-Unwritten,
}
use cornelich.World.Mapping.{make_region-Maps}

-- The files of the keys, and the size of their mappings.
module _ {K : Type 0} (dec : Discrete K) (dir name : K → Name) (number : K → ℕ) (bits : ℕ) where
  abbrev pub path_of : K → FilePath
  path_of k = record { cycle_string = dir k; file_name = name k }

  unfoldable pub provide : Bool → K → Store → Outcome (Store × RegionPtr)
  provide append k st = make_file (dir k) (name k) append st.files >>= λ (fs, path).
      ok (make_region path bits (number k) (record st { files = fs }))

  -- What a key's pointer stands for.
  abbrev pub MapsKey : Store → K → RegionPtr → Type 0
  MapsKey st k p = Maps st p (path_of k) (shl64 1 bits % 2 ^ 32) (number k)

  -- A valid cache whose entries are mappings of their keys' files.
  pub record IsFilled (st : Store) (c : Cache K RegionPtr) : Type 0 where
    pub valid : IsValid dec is_some c
    pub entries : Entries dec (MapsKey st) c

  -- A store that grows keeps what the cache holds.
  pub Grows-IsFilled :
      (st st' : Store) (c : Cache K RegionPtr) → Grows st st' → IsFilled st c → IsFilled st' c
  Grows-IsFilled st st' c g h = record {
    valid = h.valid;
    entries = λ q w there. g.still w _ _ _ (h.entries q w there);
  }

  -- What a look-up that returned leaves.
  pub record LookedUp (k : K) (st st' : Store) (c' : Cache K RegionPtr) (p : RegionPtr)
      : Type 0 where
    pub grows : Grows st st'
    pub unwritten : Unwritten st.files st'.files
    pub only_new : OnlyNew st st' (shl64 1 bits % 2 ^ 32)
    pub filled : IsFilled st' c'
    pub maps : is_some p ≡ true → MapsKey st' k p

  -- What a provider does for a key, with its result.
  abbrev Makes : K → Store → Store × RegionPtr → Type 0
  Makes k st (st', p) =
      Grows st st'
      × (Unwritten st.files st'.files
          × (OnlyNew st st' (shl64 1 bits % 2 ^ 32) × (is_some p ≡ true → MapsKey st' k p)))

  provide_made :
      (k : K) (path : Option FilePath) (st : Store)
      → (path ≡ none) ⊎ (path ≡ some (path_of k))
      → Makes k st (make_region path bits (number k) st)
  unfolding make_region is_some
  provide_made k path st (inl h) =
      subst (λ path. Makes k st (make_region path bits (number k) st)) (sym h)
        (Grows-refl st, (Unwritten-refl st.files, (OnlyNew-refl st _, λ e. cc)))
  provide_made k path st (inr h) =
      let (grown, (kept, (new, m))) = make_region-Maps (path_of k) bits (number k) st in
      subst (λ path. Makes k st (make_region path bits (number k) st)) (sym h)
        (grown, (kept, (new, λ e. m)))

  provide_lem :
      (append : Bool) (k : K) (st st' : Store) (p : RegionPtr)
      → provide append k st ≡ ok (st', p)
      → Makes k st (st', p)
  unfolding provide
  provide_lem append k st st' p h =
      let ((fs, path), made, h1) = >>=-eq-ok (make_file (dir k) (name k) append st.files) _ h in
      let (same, which) = make_file_keeps (dir k) (name k) append st.files fs path made in
      let kept = same_files-Unwritten same in
      let (grown, (kept', (new, m))) = provide_made k path (record st { files = fs }) which in
      subst (Makes k st) (ok_same h1) (
        Grows-trans (files-Grows st fs kept) grown,
        (Unwritten-trans kept kept', (files-OnlyNew st _ fs _ new, m)),
      )

  -- The provider finds a file that exists.
  provide_existing :
      (k : K) (st : Store) (f : File)
      → find_file (path_of k) st.files ≡ some f
      → (st' : Store) × (i : ℕ) × (provide false k st ≡ ok (st', some i))
  unfolding provide make_region is_some
  provide_existing k st f there = (
    (make_region (some (path_of k)) bits (number k) st).0,
    length st.regions,
    rw (make_file_read (dir k) (name k) st.files, there, is_some) refl,
  )

  module _ (append : Bool) (c : Cache K RegionPtr) (k : K) (st st' : Store) (c' : Cache K RegionPtr)
      (p : RegionPtr) (h : IsFilled st c) where
    effect : Served dec is_some c k (provide append) st st' c' p → Makes k st (st', p)
    effect (hit found same moved) =
        subst (λ x. Makes k st (x, p)) (sym same)
          (Grows-refl st, (Unwritten-refl st.files, (OnlyNew-refl st _, λ e. h.entries k p found)))
    effect (stored absent made good more) = provide_lem append k st st' p made
    effect (passed absent made bad same) = provide_lem append k st st' p made

    pub get-LookedUp :
        get dec is_some c k (provide append) st ≡ ok (st', c', p) → LookedUp k st st' c' p
    get-LookedUp e =
        let served = get-Served dec is_some c k (provide append) st st' c' p h.valid e in
        let (grown, (kept, (new, m))) = effect served in
        record {
          grows = grown;
          unwritten = kept;
          only_new = new;
          filled = record {
            valid = Served-IsValid dec is_some h.valid served;
            entries =
                Served-Entries dec is_some (MapsKey st') h.valid
                  (λ q w there. grown.still w _ _ _ (h.entries q w there)) served m;
          };
          maps = m;
        }

  -- Without `append` a look-up of a file that exists returns a pointer.
  pub get_existing :
      (c : Cache K RegionPtr) (k : K) (st : Store) (f : File)
      → IsFilled st c
      → find_file (path_of k) st.files ≡ some f
      → (st' : Store) × (c' : Cache K RegionPtr) × (p : RegionPtr) × (get dec is_some c k
            (provide false)
            st
          ≡ ok (st', c', p))
        × (is_some p ≡ true)
  unfolding is_some
  get_existing c k st f h there =
      let (st₁, i, made) = provide_existing k st f there in
      let (st', c', p, e) =
        get_returns dec is_some c k (provide false) st st₁ (some i) h.valid made in
      (st', c', p, e, gives (get-Served dec is_some c k (provide false) st st' c' p h.valid e) made)
    where
      wrong : {p : RegionPtr} {i : ℕ} → is_some p ≡ false → p ≡ some i → ⊥
      wrong bad e = cc (subst (λ x. is_some x ≡ false) e bad)

      gives :
          {st' : Store} {c' : Cache K RegionPtr} {p : RegionPtr} {st₁ : Store} {i : ℕ}
          → Served dec is_some c k (provide false) st st' c' p
          → provide false k st ≡ ok (st₁, some i)
          → is_some p ≡ true
      gives (hit found same moved) made = h.valid.validated k _ found
      gives (stored absent made' good more) made = good
      gives (passed absent made' bad same) made = absurd (wrong bad (ok_pair (sym made' ∙ made)).1)
