-- ===== src/ExcerptAppender/Finished.antt =====
-- The steps of `finish` of cornelich/excerpt_appender.cpp: the length, and what follows the entry.
use cornelich.Common.{
  ℕ, ◌-◌, ◌^◌, ◌≤◌, ◌<◌, ◌≡◌, refl, sym, ◌∙◌, ap, arith, true, false, some, ok, ok_same, Bool-cases,
  inl, inr, if◌then◌else◌,
}
use cornelich.Common.Leaves.{Leaves, Leaves-ok, Leaves-bind}
use cornelich.Common.Words.{slt64, add64, widen, sub32, not32}
use mathlib.Core.Path.{subst}
use native.Mathlib.Nat.{mod-eq_of_lt}
use cornelich.Chronicle.Packing.{index_from}
use cornelich.Environment.{Environment, starts_with, index_file_name_prefix}
use cornelich.ExcerptAppender.{
  ExcerptAppender, write_length, publish, move_on, set_last_written_index,
}
use cornelich.ExcerptAppender.Positions.{behind, behind-IsSane}
use cornelich.ExcerptTailer.Follows.{MapsIndex, MapsData}
use cornelich.Files.{File, FilePath, find_file}
use cornelich.Memory.{Bytes, load, store, load-store_self, store_outside}
use cornelich.Region.{Region, write_ordered32, in_range}
use cornelich.World.{World, Store, RegionPtr}
use cornelich.World.Access.{bytes_of, put_region}
use cornelich.World.Keeps.{Maps, bytes_of-Maps, Grows, SameMapping}
use cornelich.World.Onward.{IsSound, Grows-IsSound, published-IsSound, data_path-starts_with}
use cornelich.World.Sane.{IsSane, Sane}
use cornelich.World.Writes.{
  put_region-Grows, put_region-Sane, put_region-files, put_bytes-Grows, put_bytes-Sane,
  put_bytes-find_file,
}

module _ (env : Environment) where
  -- The length stands in front of the excerpt, whose bytes are those of before.
  pub record LengthThere (path : FilePath) (start len : ℕ) (before : Bytes) (st : Store)
      : Type 0 where
    pub file : File
    pub file_there : find_file path st.files ≡ some file
    pub length_there : load 4 file.bytes (start - 4) ≡ not32 len
    pub same_bytes : (j : ℕ) → start ≤ j → file.bytes j ≡ before j

  in_bounds :
      (r : Region) (m m' : Bytes) (at v : ℕ)
      → write_ordered32 r m at v ≡ ok m'
      → (in_range r at 4 ≡ true) × (store 4 m at v ≡ m')
  unfolding write_ordered32
  in_bounds r m m' at v e = elim (Bool-cases (in_range r at 4)) [
    | inl inside ↦ (inside, ok_same (rw (inside, write_ordered32) at e))
    | inr outside ↦ cc (rw (outside, write_ordered32) at e)
  ]

  word_written :
      (r : Region) (m m' : Bytes) (start v : ℕ)
      → 4 ≤ start
      → start < 2 ^ 31
      → v < 2 ^ 32
      → write_ordered32 r m (sub32 start 4) v ≡ ok m'
      → (load 4 m' (start - 4) ≡ v) × ((j : ℕ) → start ≤ j → m' j ≡ m j)
  word_written r m m' start v low high small e =
      let place : sub32 start 4 ≡ start - 4 = omega arith in
      let (inside, stored) =
        in_bounds r m m' (start - 4) v (ap (λ k. write_ordered32 r m k v) (sym place) ∙ e) in
      (
        ap (λ (x : Bytes). load 4 x (start - 4)) (sym stored)
            ∙ (load-store_self 4 m (start - 4) v ∙ mod-eq_of_lt small),
        λ j from.
            ap (λ (x : Bytes). x j) (sym stored)
            ∙ store_outside 4 m (start - 4) v j (inr (omega arith)),
      )

  module _ (a : ExcerptAppender) (w : World) (h : IsSound env w) (r : Region) (start : ℕ)
      (path : FilePath) (size number : ℕ) (m : Maps w.store a.data_region path size number)
      (same : r ≡ m.mapping) where
    abbrev pub Lengthened : Store → Type 0
    Lengthened st =
        Grows w.store st × (Sane st × LengthThere path start a.buffer.position m.file.bytes st)

    bytes_here : bytes_of r w.store ≡ ok m.file.bytes
    bytes_here =
        ap (λ x. bytes_of x w.store) same
        ∙ bytes_of-Maps w.store a.data_region path size number m.file m m.file_there

    pub write_length-Lengthened :
        4 ≤ start → start < 2 ^ 31 → Leaves Lengthened (write_length a r start w.store)
    unfolding write_length
    write_length-Lengthened low high =
        Leaves-bind {P = λ (mm : Bytes). mm ≡ m.file.bytes} _ _
          (record { leaves = λ mm e. ok_same (sym e ∙ bytes_here) })
          (λ mm seen.
            Leaves-bind
              {P = λ (m' : Bytes).
                (load 4 m' (start - 4) ≡ not32 a.buffer.position)
                × ((j : ℕ) → start ≤ j → m' j ≡ mm j)}
              _ _
              (record {
                leaves = λ m' e.
                    word_written r mm m' start (not32 a.buffer.position) low high (omega arith) e;
              })
              (λ m' (stored, kept). Leaves-ok _ (
                put_bytes-Grows r m' w.store,
                (
                  put_bytes-Sane r m' w.store h.sane,
                  record {
                    file = record (m.file) { bytes = m' };
                    file_there =
                        put_bytes-find_file r m' w.store path m.file
                          (ap (λ (x : Region). x.path) same ∙ m.of_path) m.file_there;
                    length_there = stored;
                    same_bytes = λ j from. kept j from ∙ ap (λ (x : Bytes). x j) seen;
                  },
                ),
              )))

  -- What `publish` leaves.
  pub record Published (a : ExcerptAppender) (w : World) (number at : ℕ) (a' : ExcerptAppender)
      (w' : World) : Type 0 where
    pub written_index :
        a'.last_written_index ≡ index_from w.chronicle (widen a.last_cycle) (widen number) at
    pub grown : Grows w.store w'.store
    pub sound : IsSound env w'
    pub same_files : (q : FilePath) → find_file q w'.store.files ≡ find_file q w.store.files
    pub same_chronicle :
        w'.chronicle ≡ record (w.chronicle) { last_written_index = w'.chronicle.last_written_index }
    pub rest :
        a'
        ≡ record a { index = a'.index; finished = true; last_written_index = a'.last_written_index }

  abbrev pub PublishedAs : ExcerptAppender → World → ℕ → ℕ → ExcerptAppender × World → Type 0
  PublishedAs a w number at (a', w') = Published a w number at a' w'

  data_region_file :
      (w : World) (p : RegionPtr) (cycle thread_id number : ℕ)
      (m : MapsData env w p cycle thread_id number)
      → starts_with m.mapping.path.file_name index_file_name_prefix ≡ false
  data_region_file w p cycle thread_id number m =
      rw m.of_path (data_path-starts_with env cycle thread_id number)

  pub publish-Published :
      (a : ExcerptAppender) (w : World) (at number cycle thread_id data_number : ℕ)
      → IsSound env w
      → MapsIndex env w a.index_region cycle number
      → MapsData env w a.data_region cycle thread_id data_number
      → Leaves (PublishedAs a w number at) (publish (a, w, at))
  unfolding publish move_on set_last_written_index
  publish-Published a w at number cycle thread_id data_number h mi md =
      Leaves-bind {P = λ r. r ≡ mi.mapping} _ _ (record { leaves = λ r e. ok_same (sym e ∙ mi.at) })
        (λ r same.
          Leaves-bind {P = λ r. r ≡ md.mapping} _ _
            (record { leaves = λ x e. ok_same (sym e ∙ md.at) })
            (λ x here.
              let written : ℕ = index_from w.chronicle (widen a.last_cycle) (widen r.index) at in
              let last : ℕ = w.chronicle.last_written_index in
              let published : World = record w {
                chronicle = record (w.chronicle) {
                  last_written_index = if slt64 last written then written else last;
                };
              } in
              Leaves-bind {P = λ r'. SameMapping md.mapping r' × IsSane r'} _ _
                (subst
                  (λ y.
                    Leaves (λ r'. SameMapping md.mapping r' × IsSane r')
                      (behind y a.buffer.position))
                  (sym here)
                  (behind-IsSane (h.sane.all a.data_region md.mapping md.at)
                    (data_region_file w a.data_region cycle thread_id data_number md)
                    a.buffer.position))
                (λ r' (moved, good).
                  let g = put_region-Grows a.data_region md.mapping r' w.store md.at moved in
                  Leaves-ok
                    (
                      record a {
                        index = add64 written 1;
                        finished = true;
                        last_written_index = written;
                      },
                      record published { store = put_region a.data_region r' w.store },
                    )
                    (record {
                      written_index =
                          ap (λ n. index_from w.chronicle (widen a.last_cycle) (widen n) at)
                            (ap (λ (y : Region). y.index) same ∙ mi.of_index);
                      grown = g;
                      sound =
                          Grows-IsSound env published (put_region a.data_region r' w.store)
                            (published-IsSound env w _ h) g
                            (put_region-Sane a.data_region r' w.store good h.sane);
                      same_files = put_region-files a.data_region r' w.store;
                      same_chronicle = refl;
                      rest = refl;
                    }))))
