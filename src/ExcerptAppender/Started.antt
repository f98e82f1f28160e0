-- ===== src/ExcerptAppender/Started.antt =====
-- `start_excerpt` of cornelich/excerpt_appender.cpp: the regions that an excerpt is begun in.
use cornelich.Common.{
  ℕ, ◌+◌, ◌≡◌, refl, sym, ◌∙◌, ap, arith, true, false, ◌==◌, some, none, ok, ok_same, ◌>>=◌,
  Bool-cases, inl, inr,
}
use cornelich.Common.Leaves.{Leaves, Leaves-ok, Leaves-if, Leaves-bind, Leaves-undefined}
use cornelich.Common.Words.{add32, slt32}
use cornelich.Environment.{Environment}
use cornelich.ExcerptAppender.{
  ExcerptAppender, excerpt_appender, switch_regions, ensure_data_region, ensure_room, open_buffer,
  start_excerpt_in,
}
use cornelich.ExcerptAppender.Indexed.{IsWriting, IsOpen}
use cornelich.ExcerptTailer.Follows.{MapsData}
use cornelich.Files.{is_some}
use cornelich.Region.{Region, position, remaining}
use cornelich.Region.Positions.{accessors}
use cornelich.Util.BufferView.{reset}
use cornelich.VanillaData.Mapped.{data_for}
use cornelich.World.{World, RegionPtr}
use cornelich.World.Access.{region_at}
use cornelich.World.Consistent.{data_for-IsConsistent}
use cornelich.World.Sane.{block_below}
use cornelich.World.Onward.{IsSound, Onward, Onward-refl, Onward-trans, Kept-Onward}

module _ (env : Environment) where
  -- An appender as its constructor makes it has no regions.
  pub excerpt_appender-IsWriting : (w : World) → IsWriting env excerpt_appender w
  unfolding is_some
  excerpt_appender-IsWriting w = record { index_file = λ e. cc; data_file = λ e. cc }

  -- The appender's regions are what it keeps, for this cycle and thread.
  pub record IsReady (thread_id cycle : ℕ) (w : World) (a' : ExcerptAppender) (w' : World)
      : Type 0 where
    pub onward : Onward env w w'
    pub writing : IsWriting env a' w'
    pub for_cycle : a'.last_cycle ≡ cycle
    pub for_thread : a'.last_thread_id ≡ thread_id

  abbrev pub ReadyAs : ℕ → ℕ → World → ExcerptAppender × World → Type 0
  ReadyAs thread_id cycle w (a', w') = IsReady thread_id cycle w a' w'

  module _ (thread_id cycle : ℕ) where
    switched :
        (a : ExcerptAppender) (w : World)
        → IsSound env w
        → IsWriting env a w
        → IsReady thread_id cycle w (switch_regions env thread_id cycle (a, w)) w
    unfolding switch_regions is_some
    switched a w h writing = elim (Bool-cases (cycle == a.last_cycle)) [
      | inr other ↦
          rw (other, switch_regions)
            record {
              onward = Onward-refl env w h;
              writing = record { index_file = λ e. cc; data_file = λ e. cc };
              for_cycle = refl;
              for_thread = refl;
            }
      | inl same ↦ elim (Bool-cases (thread_id == a.last_thread_id)) [
        | inr other ↦
            rw (same, other, switch_regions)
              record {
                onward = Onward-refl env w h;
                writing = record { index_file = writing.index_file; data_file = λ e. cc };
                for_cycle = ground (arith, same);
                for_thread = refl;
              }
        | inl twice ↦
            rw (same, twice, switch_regions)
              record {
                onward = Onward-refl env w h;
                writing = writing;
                for_cycle = ground (arith, same);
                for_thread = ground (arith, twice);
              }
      ]
    ]

    -- A data region looked up for the cycle and the thread.
    renewed :
        (a : ExcerptAppender) (w₀ w : World) (number : ℕ)
        → IsReady thread_id cycle w₀ a w
        → Leaves (ReadyAs thread_id cycle w₀) (
            data_for env cycle thread_id number true w >>= λ (w', p).
            ok (record a { data_region = p; last_data_file_number = number }, w'))
    renewed a w₀ w number h =
        Leaves-bind
          {P = λ (x : World × RegionPtr).
            Onward env w (x.0)
            × (is_some (x.1) ≡ true → MapsData env (x.0) (x.1) cycle thread_id number)}
          _ _
          (record {
            leaves = λ (w', p) e.
                let (kept, maps) =
                  data_for-IsConsistent env cycle thread_id number true w w' p
                    h.onward.sound.consistent e in
                (Kept-Onward env h.onward.sound kept, λ there. rw kept.same_chronicle (maps there));
          })
          (λ (w', p) (o, m). Leaves-ok _ (record {
            onward = Onward-trans env h.onward o;
            writing = record {
              index_file =
                  λ e. rw o.same_chronicle (o.grown.still _ _ _ _ (h.writing.index_file e));
              data_file = λ e. rw (h.for_cycle, h.for_thread) (m e);
            };
            for_cycle = h.for_cycle;
            for_thread = h.for_thread;
          }))

    with_region :
        (a : ExcerptAppender) (w₀ w : World)
        → IsReady thread_id cycle w₀ a w
        → Leaves (ReadyAs thread_id cycle w₀) (ensure_data_region env thread_id cycle (a, w))
    unfolding ensure_data_region
    with_region a w₀ w h =
        Leaves-if (is_some a.data_region) _ _ (λ there. Leaves-ok _ h)
          (λ absent.
            Leaves-bind {P = λ (n : ℕ). Unit {0}} _ _ (record { leaves = λ n e. tt })
              (λ number u. renewed a w₀ w number h))

    with_room :
        (capacity : ℕ) (a : ExcerptAppender) (w₀ w : World)
        → IsReady thread_id cycle w₀ a w
        → Leaves (ReadyAs thread_id cycle w₀) (ensure_room env thread_id cycle capacity (a, w))
    unfolding ensure_room
    with_room capacity a w₀ w h =
        Leaves-bind {P = λ (r : Region). Unit {0}} _ _ (record { leaves = λ r e. tt })
          (λ r u.
            Leaves-if (slt32 (remaining r) (add32 capacity 4)) _ _
              (λ short. renewed a w₀ w (add32 a.last_data_file_number 1) h)
              (λ enough. Leaves-ok _ h))

    -- An excerpt is begun: nothing is written yet.
    pub record Begun (w : World) (capacity : ℕ) (a' : ExcerptAppender) (w' : World) : Type 0 where
      pub start : ℕ
      pub is_open : IsOpen env a' w' start
      pub onward : Onward env w w'
      pub at_front : a'.buffer.position ≡ 0
      pub room : a'.buffer.limit ≡ capacity
      pub unfinished : a'.finished ≡ false
      pub for_cycle : a'.last_cycle ≡ cycle
      pub for_thread : a'.last_thread_id ≡ thread_id

    abbrev pub BegunAs : World → ℕ → ExcerptAppender × World → Type 0
    BegunAs w capacity (a', w') = Begun w capacity a' w'

    region_there :
        (p : RegionPtr) (w : World) (r : Region) → region_at p w.store ≡ ok r → is_some p ≡ true
    unfolding region_at is_some
    region_there none w r e = cc
    region_there (some i) w r e = refl

    opened :
        (capacity : ℕ) (a : ExcerptAppender) (w₀ w : World)
        → IsReady thread_id cycle w₀ a w
        → Leaves (BegunAs w₀ capacity) (open_buffer capacity (a, w))
    unfolding open_buffer reset
    opened capacity a w₀ w h =
        Leaves-bind {P = λ r. region_at a.data_region w.store ≡ ok r} _ _
          (record { leaves = λ r e. e })
          (λ r here.
            let there = region_there a.data_region w r here in
            let m = h.writing.data_file there in
            let sane = h.onward.sound.sane.all a.data_region r here in
            let place : position r ≡ r.position_offset = (accessors sane.valid).0 in
            let size = ap (λ (x : Region). x.size) (ok_same (sym here ∙ m.at)) ∙ m.of_size in
            let low =
              block_below w.chronicle.data_block_size_bits h.onward.sound.blocks.data_high in
            Leaves-ok _ (record {
              start = position r + 4;
              is_open = record {
                sound = h.onward.sound;
                writing = record {
                  index_file = h.writing.index_file;
                  data_file = h.writing.data_file;
                };
                has_region = there;
                started = refl;
                behind_length = omega arith;
                aligned = omega (arith, sane.at_word, place);
                small = omega (arith, place, size, low, sane.valid.within);
              };
              onward = h.onward;
              at_front = refl;
              room = refl;
              unfinished = refl;
              for_cycle = h.for_cycle;
              for_thread = h.for_thread;
            }))

    start_excerpt-BegunAs :
        (capacity : ℕ) (a : ExcerptAppender) (w : World)
        → IsSound env w
        → IsWriting env a w
        → Leaves (BegunAs w capacity) (start_excerpt_in env thread_id capacity cycle (a, w))
    unfolding start_excerpt_in
    start_excerpt-BegunAs capacity a w h writing =
        Leaves-if _ _ _
          (λ fits.
            Leaves-bind _ _
              (Leaves-bind _ _
                (with_region (switch_regions env thread_id cycle (a, w)) w w
                  (switched a w h writing))
                (λ (a₁, w₁) ready. with_room capacity a₁ w w₁ ready))
              (λ (a₂, w₂) ready. opened capacity a₂ w w₂ ready))
          (λ wide. Leaves-undefined)

    -- Over a sound shared state, for an appender whose regions are those of the numbers that
    -- it keeps, every call of `start_excerpt` that returns has begun an empty excerpt of the
    -- capacity: it starts at a multiple of 4, with room for its length in front, in a mapping
    -- of a data file of the cycle and the thread of the call. The shared state stays sound,
    -- every mapping stays, and the appender's regions are those of its numbers.
    pub start_excerpt-Begun :
        (capacity : ℕ) (a : ExcerptAppender) (w : World) {a' : ExcerptAppender} {w' : World}
        → IsSound env w
        → IsWriting env a w
        → start_excerpt_in env thread_id capacity cycle (a, w) ≡ ok (a', w')
        → Begun w capacity a' w'
    start_excerpt-Begun capacity a w h writing e =
        Leaves.leaves (start_excerpt-BegunAs capacity a w h writing) _ e
