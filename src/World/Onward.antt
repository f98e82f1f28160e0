-- ===== src/World/Onward.antt =====
-- The shared state from one step of an appender to the next.
use cornelich.Common.{ℕ, arith, [], ◌∷◌, some, ◌≡◌, ◌≢◌, refl, sym, ◌∙◌, ap, true, false}
use mathlib.Core.Path.{subst}
use cornelich.Environment.{Environment, starts_with, starts_with-append, index_file_name_prefix}
use cornelich.Files.{Name, File, FilePath, find_file}
use cornelich.World.{World, Store}
use cornelich.World.Consistent.{index_path, data_path, IsConsistent, Kept}
use cornelich.World.Keeps.{Grows, Grows-refl, Grows-trans}
use cornelich.World.Lookup.{Grows-IsFilled}
use cornelich.World.Sane.{HasBlocks, Sane}
use cornelich.World.Writes.{WrittenAt}

abbrev first_letter : Name → ℕ
first_letter [] = 0
first_letter (c ∷ name) = c

module _ (env : Environment) where
  -- Consistent caches, and positions in their bounds.
  pub record IsSound (w : World) : Type 0 where
    pub consistent : IsConsistent env w
    pub sane : Sane w.store
    pub blocks : HasBlocks w.chronicle

  -- The data files stay as they are.
  pub record DataKept (st st' : Store) : Type 0 where
    pub still :
        (cycle thread_id number : ℕ) (f : File)
        → find_file (data_path env cycle thread_id number) st.files ≡ some f
        → (f' : File) × (find_file (data_path env cycle thread_id number) st'.files ≡ some f')
          × (f'.bytes ≡ f.bytes)

  pub record Onward (w w' : World) : Type 0 where
    pub same_chronicle : w'.chronicle ≡ w.chronicle
    pub grown : Grows w.store w'.store
    pub data_kept : DataKept w.store w'.store
    pub sound : IsSound w'

  pub DataKept-trans : {a b c : Store} → DataKept a b → DataKept b c → DataKept a c
  DataKept-trans h g = record {
    still = λ cycle thread_id number f e.
        let (f', e', same) = h.still cycle thread_id number f e in
        let (f'', e'', same') = g.still cycle thread_id number f' e' in (f'', e'', same' ∙ same);
  }

  pub DataKept-refl : (st : Store) → DataKept st st
  DataKept-refl st = record { still = λ cycle thread_id number f e. (f, e, refl) }

  pub Onward-refl : (w : World) → IsSound w → Onward w w
  Onward-refl w h = record {
    same_chronicle = refl;
    grown = Grows-refl w.store;
    data_kept = DataKept-refl w.store;
    sound = h;
  }

  pub Onward-trans : {a b c : World} → Onward a b → Onward b c → Onward a c
  Onward-trans h g = record {
    same_chronicle = g.same_chronicle ∙ h.same_chronicle;
    grown = Grows-trans h.grown g.grown;
    data_kept = DataKept-trans h.data_kept g.data_kept;
    sound = g.sound;
  }

  -- A look-up is a step.
  pub Kept-Onward : {w w' : World} → IsSound w → Kept env w w' → Onward w w'
  Kept-Onward h k = record {
    same_chronicle = k.same_chronicle;
    grown = k.grown;
    data_kept = record { still = λ cycle thread_id number f e. k.unwritten.still _ f e };
    sound = record {
      consistent = k.consistent;
      sane = k.sane h.blocks h.sane;
      blocks = subst HasBlocks (sym k.same_chronicle) h.blocks;
    };
  }

  -- The store grows; the caches stay.
  pub Grows-IsSound :
      (w : World) (st : Store)
      → IsSound w
      → Grows w.store st
      → Sane st
      → IsSound (record w { store = st })
  Grows-IsSound w st h g s = record {
    consistent = record {
      index_filled = Grows-IsFilled _ _ _ _ _ w.store st w.index_cache g h.consistent.index_filled;
      data_filled = Grows-IsFilled _ _ _ _ _ w.store st w.data_cache g h.consistent.data_filled;
    };
    sane = s;
    blocks = h.blocks;
  }

  -- The last written index changes nothing of that.
  pub published-IsSound :
      (w : World) (n : ℕ)
      → IsSound w
      → IsSound (record w { chronicle = record (w.chronicle) { last_written_index = n } })
  published-IsSound w n h = record {
    consistent = record {
      index_filled = h.consistent.index_filled;
      data_filled = h.consistent.data_filled;
    };
    sane = h.sane;
    blocks = record {
      index_low = h.blocks.index_low;
      index_high = h.blocks.index_high;
      data_low = h.blocks.data_low;
      data_high = h.blocks.data_high;
    };
  }

  pub index_path-starts_with :
      (cycle number : ℕ)
      → starts_with (index_path env cycle number).file_name index_file_name_prefix ≡ true
  index_path-starts_with cycle number =
      starts_with-append index_file_name_prefix (env.print_int number)

  pub data_path-starts_with :
      (cycle thread_id number : ℕ)
      → starts_with (data_path env cycle thread_id number).file_name index_file_name_prefix ≡ false
  unfolding starts_with
  data_path-starts_with cycle thread_id number = refl

  -- An index file is no data file.
  pub data_path-ne-index_path :
      (cycle thread_id number cycle' number' : ℕ)
      → data_path env cycle thread_id number ≢ index_path env cycle' number'
  data_path-ne-index_path cycle thread_id number cycle' number' e =
      let letters : b'd' ≡ b'i' = ap (λ (p : FilePath). first_letter p.file_name) e in
      omega (arith, letters)

  -- A write to an index file keeps the data files.
  pub WrittenAt-DataKept :
      (cycle number : ℕ) (st st' : Store)
      → WrittenAt (index_path env cycle number) st st'
      → DataKept st st'
  WrittenAt-DataKept cycle number st st' h = record {
    still = λ cycle' thread_id number' f e.
        (f, h.others _ f (data_path-ne-index_path cycle' thread_id number' cycle number) e, refl);
  }
