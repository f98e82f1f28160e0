-- ===== src/ExcerptAppender/Ends.antt =====
-- That `finish` of cornelich/excerpt_appender.cpp comes to an end.
use cornelich.Common.{
  ℕ, ◌^◌, ◌<◌, ◌≡◌, ◌≢◌, ◌-◌, some, none, sym, ◌∙◌, ap, arith, ◌⊎◌, inl, inr, true, ok, ok_same,
  if◌then◌else◌, ◌>>=◌, logic_error, out_of_fuel, undefined,
}
use cornelich.Common.Ends.{Ends, Ends-ok, Ends-throws, Ends-undefined, Ends-if, Ends-bind}
use cornelich.Common.Leaves.{Leaves, Leaves-ok, Leaves-if, Leaves-bind, Ends-after}
use cornelich.Common.Words.{minus_one32, is_neg64, add32}
use cornelich.Environment.{Environment}
use cornelich.Chronicle.{Chronicle}
use cornelich.Chronicle.Packing.{index_value}
use cornelich.ExcerptAppender.{
  ExcerptAppender, append_index, finish, write_length, publish, move_on,
}
use cornelich.ExcerptAppender.Finished.{write_length-Lengthened, Lengthened}
use cornelich.ExcerptAppender.Indexed.{IsWriting, IsOpen, AtHand, at_hand}
use cornelich.Files.{is_some}
use cornelich.Memory.{Bytes}
use cornelich.Region.{Region, align_position, position, set_position, write_ordered32}
use cornelich.VanillaIndex.Ends.{append_at-Ends, append_cycle-ends}
use cornelich.World.{World, Store}
use cornelich.World.Access.{region_at, put_region}
use cornelich.World.Ends.{region_at-Ends, bytes_of-Ends}
use cornelich.World.Onward.{IsSound, Onward, Grows-IsSound}

align_position-Ends : (r : Region) (value : ℕ) → Ends (align_position r value)
unfolding align_position
align_position-Ends r value =
    Ends-if _ _ _ Ends-undefined (Ends-if _ _ _ (Ends-ok _) Ends-undefined)

write_ordered32-Ends : (r : Region) (m : Bytes) (at v : ℕ) → Ends (write_ordered32 r m at v)
unfolding write_ordered32
write_ordered32-Ends r m at v = Ends-if _ _ _ (Ends-ok _) Ends-undefined

write_length-Ends :
    (a : ExcerptAppender) (r : Region) (start : ℕ) (st : Store) → Ends (write_length a r start st)
unfolding write_length
write_length-Ends a r start st =
    Ends-bind _ _ (bytes_of-Ends r st)
      (λ m. Ends-bind _ _ (write_ordered32-Ends r m _ _) (λ m'. Ends-ok _))

move_on-Ends : (aw : ExcerptAppender × World) → Ends (move_on aw)
unfolding move_on
move_on-Ends (a, w) = Ends-bind _ _ (region_at-Ends a.data_region w.store) (λ r.
    Ends-bind _ _
      (align_position-Ends (set_position r (add32 (add32 (position r) a.buffer.position) 4)).0 4)
      (λ r'.
        Ends-ok
          (record a { finished = true }, record w { store = put_region a.data_region r' w.store })))

publish-Ends : (awp : ExcerptAppender × World × ℕ) → Ends (publish awp)
unfolding publish
publish-Ends (a, w, at) =
    Ends-bind _ _ (region_at-Ends a.index_region w.store) (λ r. move_on-Ends _)

-- The numbers from which the search for a free index file has at most 10001 files before it.
abbrev IsNext : ℕ → Type 0
IsNext n = (n ≡ minus_one32) ⊎ (n < 2 ^ 31)

module _ (env : Environment) (a : ExcerptAppender) (value : ℕ) (fits : value < 2 ^ 64)
    (number : (a.last_index_file_number ≡ minus_one32)
      ⊎ (a.last_index_file_number < 2 ^ 31 - 1)) where
  number-IsNext : (n : ℕ) → n ≡ a.last_index_file_number → IsNext (add32 n 1)
  number-IsNext n e = inr (elim number [ inl first ↦ omega arith | inr low ↦ omega arith ])

  same_number-IsNext : IsNext a.last_index_file_number
  same_number-IsNext = elim number [ inl first ↦ inl first | inr low ↦ inr (omega arith) ]

  -- The file number that the search starts from.
  file-IsNext :
      (w : World)
      → IsWriting env a w
      → (st : Store) → Onward env w (record w { store = st })
      → Leaves IsNext (
          if is_some a.index_region
          then (region_at a.index_region st >>= λ r. ok (add32 r.index 1))
          else ok a.last_index_file_number)
  file-IsNext w writing st o =
      Leaves-if _ _ _
        (λ there.
          let m = o.grown.still _ _ _ _ (writing.index_file there) in
          Leaves-bind {P = λ r. r ≡ m.mapping} _ _
            (record { leaves = λ r e. ok_same (sym e ∙ m.at) })
            (λ r same.
              Leaves-ok _ (number-IsNext r.index (ap (λ (x : Region). x.index) same ∙ m.of_index))))
        (λ absent. Leaves-ok _ same_number-IsNext)

  append_index-Ends :
      (w : World) → IsSound env w → IsWriting env a w → Ends (append_index env value (a, w))
  unfolding append_index
  append_index-Ends w h writing =
      Ends-after {P = AtHand env value fits a w} _ _
        (Ends-if _ _ _ (append_at-Ends a.index_region value w.store) (Ends-ok _))
        (at_hand env value fits a w h writing)
        (λ (st, at) (o, which).
          Ends-if (is_neg64 at) _ _
            (Ends-after {P = IsNext} _ _
              (Ends-if _ _ _ (Ends-bind _ _ (region_at-Ends a.index_region st) (λ r. Ends-ok _))
                (Ends-ok _))
              (file-IsNext w writing st o)
              (λ n next.
                Ends-bind _ _ (record { ends = append_cycle-ends env a.last_cycle value n _ next })
                  (λ (w', p, at'). Ends-bind _ _ (region_at-Ends p w'.store) (λ r. Ends-ok _))))
            (Ends-ok _))

  -- The steps of `finish`, from the data region on.
  steps-Ends :
      (w : World) (start : ℕ) (opened : IsOpen env a w start) (r : Region)
      → r ≡ (opened.writing.data_file opened.has_region).mapping
      → Ends (
          write_length a r start w.store >>= λ st.
          append_index env value (a, record w { store = st }) >>= publish)
  steps-Ends w start opened r same =
      let m = opened.writing.data_file opened.has_region in
      Ends-after {P = Lengthened env a w opened.sound r start _ _ _ m same} _ _
        (write_length-Ends a r start w.store)
        (write_length-Lengthened env a w opened.sound r start _ _ _ m same opened.behind_length
          opened.small)
        (λ st (g, (sane, length)).
          let w₁ : World = record w { store = st } in
          let h₁ = Grows-IsSound env w st opened.sound g sane in
          let writing₁ : IsWriting env a w₁ = record {
            index_file = λ e. g.still _ _ _ _ (opened.writing.index_file e);
            data_file = λ e. g.still _ _ _ _ (opened.writing.data_file e);
          } in
          Ends-bind _ _ (append_index-Ends w₁ h₁ writing₁) publish-Ends)

value_small : (c : Chronicle) (thread_id n start : ℕ) → index_value c thread_id n start < 2 ^ 64
unfolding index_value
value_small c thread_id n start = omega arith

-- `finish` of an open excerpt returns, throws or comes to an operation without meaning, whatever
-- the index files and their contents, if the shared state is sound, the appender's regions are
-- those of the numbers that it keeps, and its last index file number is -1 or below 2 ^ 31 - 1.
pub finish-ends :
    (env : Environment) (a : ExcerptAppender) (w : World) (start : ℕ)
    → IsOpen env a w start
    → (a.last_index_file_number ≡ minus_one32) ⊎ (a.last_index_file_number < 2 ^ 31 - 1)
    → finish env (a, w) ≢ out_of_fuel
unfolding finish
finish-ends env a w start opened number =
    let m = opened.writing.data_file opened.has_region in
    Ends.ends (
      Ends-if a.finished _ _ (Ends-throws logic_error) (
        Ends-if (is_some a.data_region) _ _
          (Ends-after {P = λ r. r ≡ m.mapping} _ _ (region_at-Ends a.data_region w.store)
            (record { leaves = λ r e. ok_same (sym e ∙ m.at) }) (λ r same. from_start r same))
          (Ends-ok _)))
  where
    from_start :
        (r : Region)
        → r ≡ (opened.writing.data_file opened.has_region).mapping
        → Ends (elim a.buffer.start [
          | none ↦ undefined
          | some s ↦ write_length a r s w.store >>= λ st.
              append_index env
                (index_value w.chronicle a.last_thread_id r.index s)
                (a, record w { store = st })
              >>= publish
        ])
    from_start r same = rw opened.started (
        steps-Ends env a (index_value w.chronicle a.last_thread_id r.index start)
          (value_small w.chronicle a.last_thread_id r.index start) number w start opened r same)
