-- ===== src/ExcerptAppender/Closed.antt =====
-- `finish` of cornelich/excerpt_appender.cpp as a whole.
use cornelich.Common.{
  ℕ, ◌-◌, ◌%◌, ◌^◌, ◌≤◌, ◌<◌, ◌≡◌, refl, sym, ◌∙◌, ap, arith, true, false, some, none, ok, ok_same,
  Outcome, ◌>>=◌, throws, undefined, logic_error, Bool, Option, if◌then◌else◌,
}
use cornelich.Common.Leaves.{Leaves, Leaves-if, Leaves-bind, Leaves-throws}
use cornelich.Common.Words.{widen, shl64}
use mathlib.Core.Path.{subst}
use cornelich.Chronicle.{Chronicle}
use cornelich.Memory.{Bytes, load}
use cornelich.Chronicle.Packing.{index_from, index_value}
use cornelich.Environment.{Environment}
use cornelich.ExcerptAppender.{ExcerptAppender, append_index, finish, write_length, publish}
use cornelich.ExcerptAppender.Finished.{
  LengthThere, write_length-Lengthened, Published, publish-Published,
}
use cornelich.ExcerptAppender.Indexed.{IsWriting, Indexed, append_index-Indexed}
use cornelich.ExcerptTailer.Follows.{MapsData}
use cornelich.Files.{is_some}
use cornelich.Region.{Region}
use cornelich.VanillaIndex.Entered.{Entered, index_size}
use cornelich.World.{World}
use cornelich.World.Access.{region_at}
use cornelich.World.Consistent.{data_path}
use cornelich.World.Keeps.{Grows, Grows-trans}
use cornelich.World.Onward.{IsSound, Grows-IsSound}

pair : {A B : Type 0} {x y : A} {u v : B} → x ≡ y → u ≡ v → ◌≡◌ {A = A × B} (x, u) (y, v)
pair e d = rw (e, d)

some_same : {x y : ℕ} → some x ≡ some y → x ≡ y
some_same e = ground (arith, e)

module _ (env : Environment) where
  -- An excerpt is closed: its length is in front of it, its entry is in the index file of the
  -- appender's index region, and the appender knows its index.
  pub record Closed (a : ExcerptAppender) (w : World) (start value : ℕ) (before : Bytes)
      (a' : ExcerptAppender) (w' : World) : Type 0 where
    pub slot_at : ℕ
    pub sound : IsSound env w'
    pub writing : IsWriting env a' w'
    pub grown : Grows w.store w'.store
    pub same_chronicle :
        w'.chronicle ≡ record (w.chronicle) { last_written_index = w'.chronicle.last_written_index }
    pub same_cycle : a'.last_cycle ≡ a.last_cycle
    pub done : a'.finished ≡ true
    pub written_index :
        a'.last_written_index
        ≡ index_from w.chronicle (widen a.last_cycle) (widen a'.last_index_file_number) slot_at
    pub entered : Entered env w' a.last_cycle a'.last_index_file_number slot_at value
    pub length_there :
        LengthThere env
          (data_path env a.last_cycle a.last_thread_id a.last_data_file_number)
          start
          a.buffer.position
          before
          w'.store

  -- What `write_length` has done.
  module _ (a : ExcerptAppender) (w : World) (start value : ℕ) (before : Bytes)
      (fits : value < 2 ^ 64) (h : IsSound env w) (writing : IsWriting env a w)
      (there : is_some a.data_region ≡ true) (w₁ : World)
      (same_chronicle : w₁.chronicle ≡ w.chronicle) (g : Grows w.store w₁.store)
      (h₁ : IsSound env w₁)
      (length_there : LengthThere env
        (data_path env a.last_cycle a.last_thread_id a.last_data_file_number)
        start
        a.buffer.position
        before
        w₁.store) where
    abbrev ClosedAs : ExcerptAppender × World → Type 0
    ClosedAs (a', w') = Closed a w start value before a' w'

    still_writing : IsWriting env a w₁
    still_writing = record {
      index_file = λ e. rw same_chronicle (g.still _ _ _ _ (writing.index_file e));
      data_file = λ e. rw same_chronicle (g.still _ _ _ _ (writing.data_file e));
    }

    size_kept :
        (w₂ w' : World) (n : ℕ)
        → w'.chronicle ≡ record (w₂.chronicle) { last_written_index = n }
        → index_size env w' ≡ index_size env w₂
    size_kept w₂ w' n e = ap (λ (c : Chronicle). shl64 1 c.index_block_size_bits % 2 ^ 32) e

    data_here :
        (a₂ : ExcerptAppender) (w₂ : World) (at : ℕ)
        → Indexed env a w₁ value a₂ w₂ at
        → MapsData env w₂ a₂.data_region a.last_cycle a.last_thread_id a.last_data_file_number
    data_here a₂ w₂ at ix =
        let region : a₂.data_region ≡ a.data_region =
          ap (λ (z : ExcerptAppender). z.data_region) ix.rest in
        rw (region, ix.onward.same_chronicle)
          (ix.onward.grown.still _ _ _ _ (still_writing.data_file there))

    published_writing :
        (a₂ : ExcerptAppender) (w₂ : World) (at : ℕ)
        → Indexed env a w₁ value a₂ w₂ at
        → (a' : ExcerptAppender) (w' : World)
        → Published env a₂ w₂ a₂.last_index_file_number at a' w'
        → a₂.last_cycle ≡ a.last_cycle
        → IsWriting env
            (record a₂ {
              index = a'.index;
              finished = true;
              last_written_index = a'.last_written_index;
            })
            w'
    published_writing a₂ w₂ at ix a' w' p cycle₂ =
        let thread₂ : a₂.last_thread_id ≡ a.last_thread_id =
          ap (λ (z : ExcerptAppender). z.last_thread_id) ix.rest in
        let number₂ : a₂.last_data_file_number ≡ a.last_data_file_number =
          ap (λ (z : ExcerptAppender). z.last_data_file_number) ix.rest in
        record {
          index_file =
              λ e. rw (cycle₂, size_kept w₂ w' _ p.same_chronicle) (p.grown.still _ _ _ _ ix.maps);
          data_file = λ e.
              rw
                (
                  cycle₂,
                  thread₂,
                  number₂,
                  ap (λ (c : Chronicle). shl64 1 c.data_block_size_bits % 2 ^ 32) p.same_chronicle,
                )
                (p.grown.still _ _ _ _ (data_here a₂ w₂ at ix));
        }

    closed :
        (a₂ : ExcerptAppender) (w₂ : World) (at : ℕ)
        → Indexed env a w₁ value a₂ w₂ at
        → (a' : ExcerptAppender) (w' : World)
        → Published env a₂ w₂ a₂.last_index_file_number at a' w'
        → Closed a w start value before a' w'
    closed a₂ w₂ at ix a' w' p =
        let cycle₂ : a₂.last_cycle ≡ a.last_cycle =
          ap (λ (z : ExcerptAppender). z.last_cycle) ix.rest in
        let cycle' : a'.last_cycle ≡ a₂.last_cycle =
          ap (λ (z : ExcerptAppender). z.last_cycle) p.rest in
        let number' : a'.last_index_file_number ≡ a₂.last_index_file_number =
          ap (λ (z : ExcerptAppender). z.last_index_file_number) p.rest in
        let same₂ : w₂.chronicle ≡ w.chronicle = ix.onward.same_chronicle ∙ same_chronicle in
        let (f, found, same_bytes) =
          ix.onward.data_kept.still a.last_cycle a.last_thread_id a.last_data_file_number
            length_there.file length_there.file_there in
        let e = ix.entered in
        record {
          slot_at = at;
          sound = p.sound;
          writing =
              subst (λ z. IsWriting env z w') (sym p.rest)
                (published_writing a₂ w₂ at ix a' w' p cycle₂);
          grown = Grows-trans g (Grows-trans ix.onward.grown p.grown);
          same_chronicle =
              p.same_chronicle
              ∙ ap
                  (λ (c : Chronicle). record c {
                    last_written_index = w'.chronicle.last_written_index;
                  })
                  same₂;
          same_cycle = cycle' ∙ cycle₂;
          done = ap (λ (z : ExcerptAppender). z.finished) p.rest;
          written_index = p.written_index ∙ rw (same₂, cycle₂, number') refl;
          entered = rw number' (record {
            slot = e.slot;
            inside = rw (size_kept w₂ w' _ p.same_chronicle) e.inside;
            file = e.file;
            file_there = p.same_files _ ∙ e.file_there;
            entry = e.entry;
          });
          length_there = record {
            file = f;
            file_there = p.same_files _ ∙ found;
            length_there =
                ap (λ (m : Bytes). load 4 m (start - 4)) same_bytes ∙ length_there.length_there;
            same_bytes =
                λ j from. ap (λ (m : Bytes). m j) same_bytes ∙ length_there.same_bytes j from;
          };
        }

    published :
        (a₂ : ExcerptAppender) (w₂ : World) (at : ℕ)
        → Indexed env a w₁ value a₂ w₂ at
        → Leaves ClosedAs (publish (a₂, w₂, at))
    published a₂ w₂ at ix =
        let md : MapsData env w₂ a₂.data_region a.last_cycle a.last_thread_id
            a.last_data_file_number =
          data_here a₂ w₂ at ix in
        record {
          leaves = λ (a', w') e. closed a₂ w₂ at ix a' w' (
              Leaves.leaves
                (publish-Published env a₂ w₂ at a₂.last_index_file_number a.last_cycle
                  a.last_thread_id a.last_data_file_number ix.onward.sound ix.maps md)
                (a', w') e);
        }

  abbrev pub entry_of : ExcerptAppender → World → ℕ → ℕ
  entry_of a w start = index_value w.chronicle a.last_thread_id a.last_data_file_number start

  entry_small : (a : ExcerptAppender) (w : World) (start : ℕ) → entry_of a w start < 2 ^ 64
  unfolding index_value
  entry_small a w start = omega arith

  module _ (a : ExcerptAppender) (w : World) (start : ℕ) (h : IsSound env w)
      (writing : IsWriting env a w) (there : is_some a.data_region ≡ true) (low : 4 ≤ start)
      (high : start < 2 ^ 31) where
    abbrev pub mapped :
        MapsData env w a.data_region a.last_cycle a.last_thread_id a.last_data_file_number
    mapped = writing.data_file there

    abbrev Closing : ExcerptAppender × World → Type 0
    Closing (a', w') = Closed a w start (entry_of a w start) mapped.file.bytes a' w'

    -- The steps of `finish`, from the data region on.
    abbrev steps : Region → ℕ → Outcome (ExcerptAppender × World)
    steps r s = write_length a r s w.store >>= λ st.
        append_index env (index_value w.chronicle a.last_thread_id r.index s)
          (a, record w { store = st })
        >>= publish

    steps-Closing : Leaves Closing (steps mapped.mapping start)
    steps-Closing = rw mapped.of_index (
        Leaves-bind _ _
          (write_length-Lengthened env a w h mapped.mapping start _ _ _ mapped refl low high)
          (λ st (g, (sane, length)).
            let value = entry_of a w start in
            let fits = entry_small a w start in
            let w₁ : World = record w { store = st } in
            let h₁ = Grows-IsSound env w st h g sane in
            let writing₁ =
              still_writing a w start value mapped.file.bytes fits h writing there w₁ refl g h₁
                length in
            Leaves-bind _ _ (append_index-Indexed env value fits a w₁ h₁ writing₁)
              (λ (a₂, w₂, at) ix.
                published a w start value mapped.file.bytes fits h writing there w₁ refl g h₁ length
                  a₂ w₂ at ix)))

    finishing :
        (c : Bool)
        → c ≡ true
        → (o : Option ℕ) → o ≡ some start
        → Leaves Closing (
            if a.finished
            then throws logic_error
            else if c
            then (region_at a.data_region w.store >>= λ r. elim o [
              | none ↦ undefined
              | some s ↦ steps r s
            ])
            else ok (a, w))
    finishing true t none e = cc
    finishing false t o e = cc
    finishing true t (some s) e =
        Leaves-if a.finished _ _ (λ f. Leaves-throws logic_error)
          (λ f.
            Leaves-bind {P = λ r. r ≡ mapped.mapping} _ _
              (record { leaves = λ r d. ok_same (sym d ∙ mapped.at) })
              (λ r found.
                subst (λ (x : Region × ℕ). Leaves Closing (steps (x.0) (x.1)))
                  (pair (sym found) (some_same (sym e))) steps-Closing))

    -- Over a sound shared state, let an appender whose regions are those of the numbers that
    -- it keeps have an excerpt begun at `start`, from 4 to below 2 ^ 31. Every call of
    -- `finish` that returns leaves the complemented length in front of the excerpt, its bytes
    -- as they were, the packed entry in a slot of the index file of the appender's cycle and
    -- index region, and the index of that slot as the appender's last written one. The shared
    -- state stays sound, and the appender's regions are those of its numbers.
    pub finish-Closed :
        {a' : ExcerptAppender} {w' : World}
        → a.buffer.start ≡ some start
        → finish env (a, w) ≡ ok (a', w')
        → Closed a w start (entry_of a w start) mapped.file.bytes a' w'
    unfolding finish
    finish-Closed begun e =
        Leaves.leaves (finishing (is_some a.data_region) there a.buffer.start begun) _ e
