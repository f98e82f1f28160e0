-- ===== src/ExcerptAppender/Indexed.antt =====
-- The entry of an excerpt in the index files, as `finish` of cornelich/excerpt_appender.cpp makes it.
use cornelich.Common.{
  ℕ, ◌^◌, ◌%◌, ◌≤◌, ◌<◌, ◌≡◌, some, refl, sym, ◌∙◌, ap, ◌⊎◌, inl, inr, true, ok, ok_same,
  if◌then◌else◌, Outcome, ◌>>=◌,
}
use cornelich.Common.Leaves.{Leaves, Leaves-ok, Leaves-if, Leaves-bind}
use cornelich.Common.Words.{minus_one64, is_neg64}
use mathlib.Core.Path.{subst}
use cornelich.Environment.{Environment}
use cornelich.ExcerptAppender.{ExcerptAppender, append_index}
use cornelich.ExcerptTailer.Follows.{MapsIndex, MapsData}
use cornelich.Files.{is_some}
use cornelich.Region.{Region}
use cornelich.VanillaIndex.Entered.{Entered, FiledAs, append_at-Entered, append_cycle-FiledAs}
use cornelich.VanillaIndex.Mapped.{append_at, append_cycle}
use cornelich.World.{World, Store}
use cornelich.World.Access.{region_at}
use cornelich.World.Onward.{IsSound, Onward, Onward-refl, Onward-trans}

module _ (env : Environment) where
  -- The regions of an appender are those of the cycle, the thread and the numbers that it keeps.
  pub record IsWriting (a : ExcerptAppender) (w : World) : Type 0 where
    pub index_file :
        is_some a.index_region ≡ true
        → MapsIndex env w a.index_region a.last_cycle a.last_index_file_number
    pub data_file :
        is_some a.data_region ≡ true
        → MapsData env w a.data_region a.last_cycle a.last_thread_id a.last_data_file_number

  -- An excerpt is open at `start`: what `finish` needs of the appender and the shared state.
  pub record IsOpen (a : ExcerptAppender) (w : World) (start : ℕ) : Type 0 where
    pub sound : IsSound env w
    pub writing : IsWriting a w
    pub has_region : is_some a.data_region ≡ true
    pub started : a.buffer.start ≡ some start
    pub behind_length : 4 ≤ start
    pub aligned : start % 4 ≡ 0
    pub small : start < 2 ^ 31

  -- The entry is made: it stands in the index file of the region at hand.
  pub record Indexed (a : ExcerptAppender) (w : World) (value : ℕ) (a' : ExcerptAppender)
      (w' : World) (at : ℕ) : Type 0 where
    pub onward : Onward env w w'
    pub maps : MapsIndex env w' a'.index_region a.last_cycle a'.last_index_file_number
    pub entered : Entered env w' a.last_cycle a'.last_index_file_number at value
    pub rest : a' ≡ record a {
      index_region = a'.index_region;
      last_index_file_number = a'.last_index_file_number;
    }

  abbrev pub IndexedAs : ExcerptAppender → World → ℕ → ExcerptAppender × World × ℕ → Type 0
  IndexedAs a w value (a', w', at) = Indexed a w value a' w' at

  module _ (value : ℕ) (fits : value < 2 ^ 64) (a : ExcerptAppender) (w : World) where
    -- Through the index files from a number on.
    elsewhere :
        (w₁ : World) (m : Outcome ℕ)
        → Onward env w w₁
        → Leaves (IndexedAs a w value) (
            m >>= λ file_number.
            append_cycle env a.last_cycle value file_number w₁ >>= λ (w', p, at).
            region_at p w'.store >>= λ r.
            ok (record a { index_region = p; last_index_file_number = r.index }, w', at))
    elsewhere w₁ m o =
        Leaves-bind {P = λ n. Unit {0}} m _ (record { leaves = λ n e. tt })
          (λ n u.
            Leaves-bind {P = FiledAs env w₁ a.last_cycle value} _ _
              (append_cycle-FiledAs env a.last_cycle value n w₁ fits o.sound)
              (λ (w', p, at) f.
                Leaves-bind {P = λ r. r ≡ f.maps.mapping} _ _
                  (record { leaves = λ r e. ok_same (sym e ∙ f.maps.at) })
                  (λ r same. Leaves-ok _ (
                    subst
                      (λ x.
                        Indexed a w value
                          (record a { index_region = p; last_index_file_number = x }) w' at)
                      (sym (ap (λ (x : Region). x.index) same ∙ f.maps.of_index))
                      (record {
                        onward = Onward-trans env o f.onward;
                        maps = f.maps;
                        entered = f.entered;
                        rest = refl;
                      })))))

    -- The way of `append_index` behind the region at hand.
    decided :
        (st : Store) (at : ℕ) (m : Outcome ℕ)
        → Onward env w (record w { store = st })
        → (is_neg64 at ≡ true) ⊎ Indexed a w value a (record w { store = st }) at
        → Leaves (IndexedAs a w value) (
            if is_neg64 at
            then (m >>= λ file_number.
                append_cycle env a.last_cycle value file_number (record w { store = st })
                >>= λ (w', p, at'). region_at p w'.store >>= λ r.
                    ok (record a { index_region = p; last_index_file_number = r.index }, w', at'))
            else ok (a, record w { store = st }, at))
    decided st at m o (inl full) = rw full (elsewhere (record w { store = st }) m o)
    decided st at m o (inr done) =
        Leaves-if _ _ _ (λ full. elsewhere (record w { store = st }) m o)
          (λ there. Leaves-ok _ done)

    -- What trying the region at hand leaves.
    abbrev pub AtHand : Store × ℕ → Type 0
    AtHand (st, at) =
        Onward env w (record w { store = st })
        × ((is_neg64 at ≡ true) ⊎ Indexed a w value a (record w { store = st }) at)

    pub at_hand :
        IsSound env w
        → IsWriting a w
        → Leaves AtHand (
            if is_some a.index_region
            then append_at a.index_region value w.store
            else ok (w.store, minus_one64))
    at_hand h writing =
        Leaves-if _ _ _
          (λ there. record {
            leaves = λ (st, at) e.
                let m = writing.index_file there in
                let (o, which) =
                  append_at-Entered env w h a.index_region a.last_cycle a.last_index_file_number
                    value m fits e in
                (
                  o,
                  elim which [
                    | inl full ↦ inl full
                    | inr entered ↦ inr (record {
                      onward = o;
                      maps = o.grown.still _ _ _ _ m;
                      entered = entered;
                      rest = refl;
                    })
                  ],
                );
          })
          (λ absent. Leaves-ok _ (Onward-refl env w h, inl refl))

    pub append_index-Indexed :
        IsSound env w → IsWriting a w → Leaves (IndexedAs a w value) (append_index env value (a, w))
    unfolding append_index
    append_index-Indexed h writing =
        Leaves-bind {P = AtHand} _ _ (at_hand h writing)
          (λ (st, at) (o, which). decided st at _ o which)
