-- ===== src/World/Consistent.antt =====
-- What the clients of a chronicle rely on in the state they share: the caches of the index and of the
-- data files hold mappings of the right files.
use cornelich.Common.{
  ℕ, ◌%◌, ◌^◌, ◌≡◌, refl, sym, Bool, true, false, some, ok, ok_same, ◌∙◌, ◌++◌, >>=-eq-ok,
}
use cornelich.Common.Words.{shl64}
use mathlib.Core.Path.{subst}
use cornelich.Environment.{Environment, index_file_name_prefix}
use cornelich.Files.{Name, FilePath, File, find_file, is_some}
use cornelich.Util.Cache.{get}
use cornelich.VanillaData.Mapped.{data_for, key_discrete as data_key_discrete}
use cornelich.VanillaData.Numbers.{data_prefix}
use cornelich.VanillaIndex.Mapped.{index_for, key_discrete}
use cornelich.World.{World, RegionPtr}
use cornelich.World.Keeps.{
  Maps, Grows, Unwritten, Grows-refl, Grows-trans, Unwritten-refl, Unwritten-trans,
}
use cornelich.World.Sane.{HasBlocks, Sane, OnlyNew-Sane}
use cornelich.World.Lookup.{IsFilled, provide, get-LookedUp, get_existing, Grows-IsFilled}

module _ (env : Environment) where
  abbrev pub index_path : ℕ → ℕ → FilePath
  index_path cycle file_number = record {
    cycle_string = env.date_from_cycle cycle;
    file_name = index_file_name_prefix ++ env.print_int file_number;
  }

  abbrev pub data_path : ℕ → ℕ → ℕ → FilePath
  data_path cycle thread_id file_number = record {
    cycle_string = env.date_from_cycle cycle;
    file_name = data_prefix env thread_id ++ env.print_int file_number;
  }

  -- What `index_for` looks up, for its keys.
  abbrev index_dir : ℕ × ℕ → Name
  index_dir (cycle, file_number) = env.date_from_cycle cycle

  abbrev index_name : ℕ × ℕ → Name
  index_name (cycle, file_number) = index_file_name_prefix ++ env.print_int file_number

  abbrev index_number : ℕ × ℕ → ℕ
  index_number (cycle, file_number) = file_number

  -- What `data_for` looks up.
  abbrev data_dir : ℕ × (ℕ × ℕ) → Name
  data_dir (cycle, (thread_id, file_number)) = env.date_from_cycle cycle

  abbrev data_name : ℕ × (ℕ × ℕ) → Name
  data_name (cycle, (thread_id, file_number)) =
      data_prefix env thread_id ++ env.print_int file_number

  abbrev data_number : ℕ × (ℕ × ℕ) → ℕ
  data_number (cycle, (thread_id, file_number)) = file_number

  -- The shared state: both caches are valid, and their entries are mappings of their keys' files.
  pub record IsConsistent (w : World) : Type 0 where
    pub index_filled :
        IsFilled key_discrete index_dir index_name index_number w.chronicle.index_block_size_bits
          w.store w.index_cache
    pub data_filled :
        IsFilled data_key_discrete data_dir data_name data_number w.chronicle.data_block_size_bits
          w.store w.data_cache

  -- What a call that made no entry and wrote no excerpt leaves.
  pub record Kept (w w' : World) : Type 0 where
    pub same_chronicle : w'.chronicle ≡ w.chronicle
    pub grown : Grows w.store w'.store
    pub unwritten : Unwritten w.store.files w'.store.files
    pub consistent : IsConsistent w'
    pub sane : HasBlocks w.chronicle → Sane w.store → Sane w'.store

  pub Kept-refl : (w : World) → IsConsistent w → Kept w w
  Kept-refl w h = record {
    same_chronicle = refl;
    grown = Grows-refl w.store;
    unwritten = Unwritten-refl w.store.files;
    consistent = h;
    sane = λ blocks positions. positions;
  }

  pub Kept-trans : {a b c : World} → Kept a b → Kept b c → Kept a c
  Kept-trans h g = record {
    same_chronicle = g.same_chronicle ∙ h.same_chronicle;
    grown = Grows-trans h.grown g.grown;
    unwritten = Unwritten-trans h.unwritten g.unwritten;
    consistent = g.consistent;
    sane = λ blocks positions.
        g.sane (subst HasBlocks (sym h.same_chronicle) blocks) (h.sane blocks positions);
  }

  -- A call of `index_for` that returns keeps the shared state consistent: every mapping and the bytes
  -- of every file stay, and a pointer that it gives, from the cache or made, is a mapping of the
  -- file asked for.
  pub index_for-IsConsistent :
      (cycle file_number : ℕ) (append : Bool) (w w' : World) (p : RegionPtr)
      → IsConsistent w
      → index_for env cycle file_number append w ≡ ok (w', p)
      → Kept w w'
        × (is_some p ≡ true
            → Maps w'.store p
                (index_path cycle file_number)
                (shl64 1 w.chronicle.index_block_size_bits % 2 ^ 32)
                file_number)
  unfolding index_for provide
  index_for-IsConsistent cycle file_number append w w' p h e =
      let ((st', c', p'), got, h1) =
        >>=-eq-ok
          (get key_discrete is_some w.index_cache (cycle, file_number)
            (provide key_discrete index_dir index_name index_number
              w.chronicle.index_block_size_bits append)
            w.store)
          _ e in
      let found =
        get-LookedUp key_discrete index_dir index_name index_number
          w.chronicle.index_block_size_bits append w.index_cache (cycle, file_number) w.store st' c'
          p' h.index_filled got in
      subst
        (λ (x : World × RegionPtr).
          Kept w (x.0)
          × (is_some (x.1) ≡ true
              → Maps (x.0).store (x.1) (index_path cycle file_number)
                  (shl64 1 w.chronicle.index_block_size_bits % 2 ^ 32) file_number))
        (ok_same h1)
        (
          record {
            same_chronicle = refl;
            grown = found.grows;
            unwritten = found.unwritten;
            consistent = record {
              index_filled = found.filled;
              data_filled =
                  Grows-IsFilled data_key_discrete data_dir data_name data_number
                    w.chronicle.data_block_size_bits w.store st' w.data_cache found.grows
                    h.data_filled;
            };
            sane = λ blocks positions.
                OnlyNew-Sane w.store st' w.chronicle.index_block_size_bits blocks.index_low
                  blocks.index_high found.only_new positions;
          },
          found.maps,
        )

  -- Over a consistent state a call of `index_for` for a file that exists returns a pointer.
  pub index_for_existing :
      (cycle file_number : ℕ) (w : World) (f : File)
      → IsConsistent w
      → find_file (index_path cycle file_number) w.store.files ≡ some f
      → (w' : World) × (p : RegionPtr) × (index_for env cycle file_number false w ≡ ok (w', p))
        × (is_some p ≡ true)
  unfolding index_for provide
  index_for_existing cycle file_number w f h there =
      let (st', c', p, got, good) =
        get_existing key_discrete index_dir index_name index_number
          w.chronicle.index_block_size_bits w.index_cache (cycle, file_number) w.store f
          h.index_filled there in
      (record w { store = st'; index_cache = c' }, p, rw got refl, good)

  -- A call of `data_for` that returns keeps the shared state consistent: every mapping and the bytes
  -- of every file stay, and a pointer that it gives, from the cache or made, is a mapping of the
  -- file asked for.
  pub data_for-IsConsistent :
      (cycle thread_id file_number : ℕ) (for_write : Bool) (w w' : World) (p : RegionPtr)
      → IsConsistent w
      → data_for env cycle thread_id file_number for_write w ≡ ok (w', p)
      → Kept w w'
        × (is_some p ≡ true
            → Maps w'.store p
                (data_path cycle thread_id file_number)
                (shl64 1 w.chronicle.data_block_size_bits % 2 ^ 32)
                file_number)
  unfolding data_for provide
  data_for-IsConsistent cycle thread_id file_number for_write w w' p h e =
      let ((st', c', p'), got, h1) =
        >>=-eq-ok
          (get data_key_discrete is_some w.data_cache (cycle, (thread_id, file_number))
            (provide data_key_discrete data_dir data_name data_number
              w.chronicle.data_block_size_bits for_write)
            w.store)
          _ e in
      let found =
        get-LookedUp data_key_discrete data_dir data_name data_number
          w.chronicle.data_block_size_bits for_write w.data_cache (cycle, (thread_id, file_number))
          w.store st' c' p' h.data_filled got in
      subst
        (λ (x : World × RegionPtr).
          Kept w (x.0)
          × (is_some (x.1) ≡ true
              → Maps (x.0).store (x.1) (data_path cycle thread_id file_number)
                  (shl64 1 w.chronicle.data_block_size_bits % 2 ^ 32) file_number))
        (ok_same h1)
        (
          record {
            same_chronicle = refl;
            grown = found.grows;
            unwritten = found.unwritten;
            consistent = record {
              data_filled = found.filled;
              index_filled =
                  Grows-IsFilled key_discrete index_dir index_name index_number
                    w.chronicle.index_block_size_bits w.store st' w.index_cache found.grows
                    h.index_filled;
            };
            sane = λ blocks positions.
                OnlyNew-Sane w.store st' w.chronicle.data_block_size_bits blocks.data_low
                  blocks.data_high found.only_new positions;
          },
          found.maps,
        )

  -- Over a consistent state a call of `data_for` for a file that exists returns a pointer.
  pub data_for_existing :
      (cycle thread_id file_number : ℕ) (w : World) (f : File)
      → IsConsistent w
      → find_file (data_path cycle thread_id file_number) w.store.files ≡ some f
      → (w' : World) × (p : RegionPtr) × (data_for env cycle thread_id file_number false w
          ≡ ok (w', p))
        × (is_some p ≡ true)
  unfolding data_for provide
  data_for_existing cycle thread_id file_number w f h there =
      let (st', c', p, got, good) =
        get_existing data_key_discrete data_dir data_name data_number
          w.chronicle.data_block_size_bits w.data_cache (cycle, (thread_id, file_number)) w.store f
          h.data_filled there in
      (record w { store = st'; data_cache = c' }, p, rw got refl, good)
