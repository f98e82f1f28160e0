-- ===== src/VanillaIndex/Entered.antt =====
-- `append(cycle, index_value, file_number)` of cornelich/vanilla_index.cpp and the calls below it: where
-- the entry is when a call has returned.
use cornelich.Common.{
  ℕ, zero, suc, ◌+◌, ◌%◌, ◌^◌, ◌≤◌, ◌<◌, ◌≡◌, refl, sym, ◌∙◌, ap, ◌⊎◌, inl, inr, true, ok, ok_same,
  >>=-eq-ok, if◌then◌else◌, some, Outcome, throws, logic_error, ◌>>=◌,
}
use cornelich.Common.Leaves.{
  Leaves, Leaves-ok, Leaves-throws, Leaves-out_of_fuel, Leaves-if, Leaves-bind,
}
use cornelich.Common.Words.{is_neg64, shl64, slt32, add32}
use mathlib.Core.Path.{subst}
use cornelich.Environment.{Environment, starts_with, index_file_name_prefix}
use cornelich.Files.{File, find_file, is_some}
use native.Mathlib.Nat.{mod-eq_of_lt}
use cornelich.Memory.{Bytes, load, load-store_self}
use cornelich.Region.{Region}
use cornelich.VanillaIndex.Appends.{Appended, append-Appended}
use cornelich.VanillaIndex.Mapped.{append_at, append_files, append_cycle, index_for}
use cornelich.VanillaIndex.Slots.{append}
use cornelich.World.{World, Store, RegionPtr}
use cornelich.World.Access.{region_at, bytes_of, put_bytes, put_region}
use cornelich.World.Consistent.{index_path, index_for-IsConsistent}
use cornelich.World.Keeps.{Maps, Grows-trans}
use cornelich.World.Onward.{
  IsSound, Onward, Onward-trans, Kept-Onward, Grows-IsSound, WrittenAt-DataKept,
  index_path-starts_with,
}
use cornelich.World.Writes.{
  put_region-Grows, put_region-Sane, put_bytes-Grows, put_bytes-Sane, put_bytes-find_file,
  WrittenAt, put_region-files, moved_and_written,
}

module _ (env : Environment) where
  abbrev pub index_size : World → ℕ
  index_size w = shl64 1 w.chronicle.index_block_size_bits % 2 ^ 32

  -- The value stands in a slot of the index file.
  pub record Entered (w : World) (cycle number at value : ℕ) : Type 0 where
    pub slot : at % 8 ≡ 0
    pub inside : at + 8 ≤ index_size w
    pub file : File
    pub file_there : find_file (index_path env cycle number) w.store.files ≡ some file
    pub entry : load 8 file.bytes at ≡ value

  module _ (w : World) (h : IsSound env w) (p : RegionPtr) (cycle number value : ℕ)
      (m : Maps w.store p (index_path env cycle number) (index_size w) number)
      (fits : value < 2 ^ 64) where
    -- What a call leaves: the value in a slot, or a negative position.
    abbrev Tried : Store → ℕ → Type 0
    Tried st at =
        Onward env w (record w { store = st })
        × ((is_neg64 at ≡ true) ⊎ Entered (record w { store = st }) cycle number at value)

    tried :
        (r' : Region) (mm m' : Bytes) (at : ℕ)
        → bytes_of m.mapping w.store ≡ ok mm
        → Appended m.mapping mm value r' m' at
        → Tried (put_bytes r' m' (put_region p r' w.store)) at
    tried r' mm m' at bytes a =
        let st : Store = put_bytes r' m' (put_region p r' w.store) in
        let path : r'.path ≡ index_path env cycle number = a.same.same_path ∙ m.of_path in
        let g =
          Grows-trans (put_region-Grows p m.mapping r' w.store m.at a.same)
            (put_bytes-Grows r' m' (put_region p r' w.store)) in
        let s =
          put_bytes-Sane r' m' (put_region p r' w.store)
            (put_region-Sane p r' w.store a.sane h.sane) in
        let written =
          subst (λ q. WrittenAt q w.store st) path (moved_and_written p r' m' w.store) in
        (
          record {
            same_chronicle = refl;
            grown = g;
            data_kept = WrittenAt-DataKept env cycle number w.store st written;
            sound = Grows-IsSound env w st h g s;
          },
          elim a.placed [
            | inl (refused, kept) ↦ inl (rw refused refl)
            | inr (slot, (inside, stored)) ↦ inr (record {
              slot = slot;
              inside = subst (λ n. at + 8 ≤ n) m.of_size inside;
              file = record (m.file) { bytes = m' };
              file_there =
                  put_bytes-find_file r' m' (put_region p r' w.store) (index_path env cycle number)
                    m.file path
                    (put_region-files p r' w.store (index_path env cycle number) ∙ m.file_there);
              entry =
                  ap (λ x. load 8 x at) stored
                  ∙ (load-store_self 8 mm at value ∙ mod-eq_of_lt fits);
            })
          ],
        )

    pub append_at-Entered :
        {st : Store} {at : ℕ} → append_at p value w.store ≡ ok (st, at) → Tried st at
    unfolding append_at
    append_at-Entered e =
        let (r, found, e1) = >>=-eq-ok (region_at p w.store) _ e in
        let (mm, bytes, e2) = >>=-eq-ok (bytes_of r w.store) _ e1 in
        let ((r', m', at), added, e3) = >>=-eq-ok (append r mm value) _ e2 in
        let same : r ≡ m.mapping = ok_same (sym found ∙ m.at) in
        let indexed : starts_with m.mapping.path.file_name index_file_name_prefix ≡ true =
          rw m.of_path (index_path-starts_with env cycle number) in
        let a =
          append-Appended (h.sane.all p m.mapping m.at) indexed mm value
            (subst (λ x. append x mm value ≡ ok (r', m', at)) same added) in
        subst (λ (x : Store × ℕ). Tried (x.0) (x.1)) (ok_same e3)
          (tried r' mm m' at (subst (λ x. bytes_of x w.store ≡ ok mm) same bytes) a)

  -- A call that returned: the pointer is a mapping of an index file of the cycle, and the value
  -- stands at the position.
  pub record Filed (w w' : World) (p : RegionPtr) (cycle at value : ℕ) : Type 0 where
    pub number : ℕ
    pub onward : Onward env w w'
    pub maps : Maps w'.store p (index_path env cycle number) (index_size w') number
    pub entered : Entered w' cycle number at value

  abbrev pub FiledAs : World → ℕ → ℕ → World × RegionPtr × ℕ → Type 0
  FiledAs w cycle value (w', p, at) = Filed w w' p cycle at value

  Filed-later :
      {w w₁ w' : World} {p : RegionPtr} {cycle at value : ℕ}
      → Onward env w w₁
      → Filed w₁ w' p cycle at value
      → Filed w w' p cycle at value
  Filed-later o f = record {
    number = f.number;
    onward = Onward-trans env o f.onward;
    maps = f.maps;
    entered = f.entered;
  }

  -- What a look-up of an index file leaves.
  abbrev LookedFor : World → ℕ → ℕ → World × RegionPtr → Type 0
  LookedFor w cycle count (w', p) =
      Onward env w w'
      × (is_some p ≡ true → Maps w'.store p (index_path env cycle count) (index_size w') count)

  index_for-LookedFor :
      (w : World) (cycle count : ℕ)
      → IsSound env w
      → Leaves (LookedFor w cycle count) (index_for env cycle count true w)
  index_for-LookedFor w cycle count h = record {
    leaves = λ (w', p) e.
        let (kept, maps) = index_for-IsConsistent env cycle count true w w' p h.consistent e in
        (Kept-Onward env h kept, λ there. rw kept.same_chronicle (maps there));
  }

  module _ (cycle value : ℕ) (fits : value < 2 ^ 64) where
    later :
        (w : World) (m : Outcome (World × RegionPtr × ℕ)) (w₁ : World)
        → Onward env w w₁
        → Leaves (FiledAs w₁ cycle value) m
        → Leaves (FiledAs w cycle value) m
    later w m w₁ o h = record { leaves = λ x e. Filed-later o (h.leaves x e) }

    grown-Maps :
        {w w' : World} {p : RegionPtr} {count : ℕ}
        → Onward env w w'
        → Maps w.store p (index_path env cycle count) (index_size w) count
        → Maps w'.store p (index_path env cycle count) (index_size w') count
    grown-Maps o m = rw o.same_chronicle (o.grown.still _ _ _ _ m)

    -- What follows an attempt on one file.
    entered :
        (w : World) (next : World → Outcome (World × RegionPtr × ℕ)) (w₁ : World) (p : RegionPtr)
        (count : ℕ) (st : Store) (position : ℕ)
        → ((w' : World) → IsSound env w' → Leaves (FiledAs w' cycle value) (next w'))
        → Onward env w (record w₁ { store = st })
        → Maps st p (index_path env cycle count) (index_size w₁) count
        → (is_neg64 position ≡ true) ⊎ Entered (record w₁ { store = st }) cycle count position value
        → Leaves (FiledAs w cycle value) (
            if is_neg64 position
            then next (record w₁ { store = st })
            else ok (record w₁ { store = st }, p, position))
    entered w next w₁ p count st position ih o m (inl full) =
        rw full (later w _ (record w₁ { store = st }) o (ih (record w₁ { store = st }) o.sound))
    entered w next w₁ p count st position ih o m (inr entry) =
        Leaves-if _ _ _
          (λ full. later w _ (record w₁ { store = st }) o (ih (record w₁ { store = st }) o.sound))
          (λ done. Leaves-ok _ (record { number = count; onward = o; maps = m; entered = entry }))

    -- A round: the file that was looked up takes the value, or the next one is tried.
    round :
        (w : World) (next : World → Outcome (World × RegionPtr × ℕ)) (count : ℕ) (w₁ : World)
        (p : RegionPtr)
        → ((w' : World) → IsSound env w' → Leaves (FiledAs w' cycle value) (next w'))
        → Onward env w w₁
        → (is_some p ≡ true → Maps w₁.store p (index_path env cycle count) (index_size w₁) count)
        → Leaves (FiledAs w cycle value) (
            if is_some p
            then (append_at p value w₁.store >>= λ (st, position).
                if is_neg64 position
                then next (record w₁ { store = st })
                else ok (record w₁ { store = st }, p, position))
            else next w₁)
    round w next count w₁ p ih o m =
        Leaves-if _ _ _
          (λ there.
            Leaves-bind
              {P = λ (x : Store × ℕ).
                Tried w₁ o.sound p cycle count value (m there) fits (x.0) (x.1)}
              _ _
              (record {
                leaves = λ x e. append_at-Entered w₁ o.sound p cycle count value (m there) fits e;
              })
              (λ (st, position) (step, which).
                entered w next w₁ p count st position ih (Onward-trans env o step)
                  (grown-Maps step (m there)) which))
          (λ absent. later w (next w₁) w₁ o (ih w₁ o.sound))

    append_files-Filed :
        (fuel count : ℕ) (w : World)
        → IsSound env w
        → Leaves (FiledAs w cycle value) (append_files env fuel cycle value count w)
    unfolding append_files
    append_files-Filed zero count w h = Leaves-out_of_fuel
    append_files-Filed (suc fuel) count w h =
        Leaves-if (slt32 count 10000) _ (throws logic_error)
          (λ low.
            Leaves-bind {P = LookedFor w cycle count} _ _ (index_for-LookedFor w cycle count h)
              (λ (w₁, p) (o, m).
                round w (append_files env fuel cycle value (add32 count 1)) count w₁ p
                  (append_files-Filed fuel (add32 count 1)) o m))
          (λ high. Leaves-throws logic_error)

  pub append_cycle-FiledAs :
      (cycle value number : ℕ) (w : World)
      → value < 2 ^ 64
      → IsSound env w
      → Leaves (FiledAs w cycle value) (append_cycle env cycle value number w)
  unfolding append_cycle
  append_cycle-FiledAs cycle value number w fits h =
      append_files-Filed cycle value fits 10002 number w h

  -- Over a sound shared state, when `append(cycle, index_value, file_number)` returns for a
  -- 64-bit value, the region that it gives is a mapping of an index file of the cycle, and the
  -- value stands there at the position that it gives, a multiple of 8 inside the mapping. The
  -- shared state stays sound, and the data files keep their bytes.
  pub append_cycle-Filed :
      (cycle value number : ℕ) (w w' : World) (p : RegionPtr) (at : ℕ)
      → value < 2 ^ 64
      → IsSound env w
      → append_cycle env cycle value number w ≡ ok (w', p, at)
      → Filed w w' p cycle at value
  append_cycle-Filed cycle value number w w' p at fits h e =
      Leaves.leaves (append_cycle-FiledAs cycle value number w fits h) _ e
