-- ===== src/ExcerptAppender/Write/Stays.antt =====
-- The writers of cornelich/excerpt_appender.h on the shared state, and on the rest of the appender.
use cornelich.Common.{
  ℕ, ◌+◌, ◌%◌, ◌^◌, ltb, ◌≡◌, refl, sym, ◌∙◌, ap, List, [], ◌∷◌, true, length, leb, ok, undefined,
}
use cornelich.Common.Leaves.{
  Leaves, Leaves-ok, Leaves-if, Leaves-bind, Leaves-option, Leaves-undefined,
}
use mathlib.Core.Path.{subst}
use cornelich.Environment.{Environment}
use cornelich.ExcerptAppender.{ExcerptAppender}
use cornelich.ExcerptAppender.Indexed.{IsWriting, IsOpen}
use cornelich.ExcerptAppender.Write.{put_at, put, write, writes}
use cornelich.Files.{is_some}
use cornelich.Formatters.{Field, write_field}
use cornelich.Memory.{Bytes, store_bytes}
use cornelich.Region.{Region}
use cornelich.Util.BufferView.{BufferView, place, skip}
use cornelich.World.{World}
use cornelich.World.Access.{region_at, bytes_of, put_bytes}
use cornelich.World.Keeps.{Grows, Grows-refl, Grows-trans}
use cornelich.World.Onward.{IsSound, Grows-IsSound}
use cornelich.World.Writes.{put_bytes-Grows, put_bytes-Sane}

module _ (env : Environment) where
  -- Only the bytes of files and the position of the view have changed.
  pub record Stays (a : ExcerptAppender) (w : World) (a' : ExcerptAppender) (w' : World)
      : Type 0 where
    pub rest : a' ≡ record a { buffer = a'.buffer }
    pub same_start : a'.buffer.start ≡ a.buffer.start
    pub same_chronicle : w'.chronicle ≡ w.chronicle
    pub grown : Grows w.store w'.store
    pub sound : IsSound env w'

  abbrev StaysAs : ExcerptAppender → World → ExcerptAppender × World → Type 0
  StaysAs a w (a', w') = Stays a w a' w'

  skipped : (n : ℕ) (b : BufferView) → Leaves (λ (b' : BufferView). b'.start ≡ b.start) (skip n b)
  unfolding skip
  skipped n b =
      Leaves-if (ltb ((b.position + 2 ^ 31) % 2 ^ 32 + n) (2 ^ 32)) _ undefined
        (λ fits. Leaves-ok _ refl) (λ far. Leaves-undefined)

  put_at-Stays :
      (at : ℕ) (bytes : List ℕ) (r : Region) (m : Bytes) (a : ExcerptAppender) (w : World)
      → IsSound env w
      → Leaves (StaysAs a w) (put_at at bytes r m (a, w))
  unfolding put_at
  put_at-Stays at bytes r m a w h =
      let g = put_bytes-Grows r (store_bytes m at bytes) w.store in
      let st = put_bytes r (store_bytes m at bytes) w.store in
      Leaves-if (leb (at + length bytes) r.size) _ undefined
        (λ inside.
          Leaves-bind (skip (length bytes) a.buffer)
            (λ b. ok (record a { buffer = b }, record w { store = st }))
            (skipped (length bytes) a.buffer)
            (λ b same. Leaves-ok _ (record {
              rest = refl;
              same_start = same;
              same_chronicle = refl;
              grown = g;
              sound =
                  Grows-IsSound env w st h g
                    (put_bytes-Sane r (store_bytes m at bytes) w.store h.sane);
            })))
        (λ outside. Leaves-undefined)

  put-Stays :
      (bytes : List ℕ) (a : ExcerptAppender) (w : World)
      → IsSound env w
      → Leaves (StaysAs a w) (put bytes (a, w))
  unfolding put
  put-Stays bytes a w h =
      Leaves-bind {P = λ (r : Region). Unit {0}} (region_at a.data_region w.store) _
        (record { leaves = λ r e. tt })
        (λ r u.
          Leaves-bind {P = λ (m : Bytes). Unit {0}} (bytes_of r w.store) _
            (record { leaves = λ m e. tt })
            (λ m v.
              Leaves-option (place a.buffer) undefined (λ at. put_at at bytes r m (a, w))
                Leaves-undefined (λ at e. put_at-Stays at bytes r m a w h)))

  then-Stays :
      {a a₁ a₂ : ExcerptAppender} {w w₁ w₂ : World}
      → Stays a w a₁ w₁
      → Stays a₁ w₁ a₂ w₂
      → Stays a w a₂ w₂
  then-Stays {a₂ = a₂} first second = record {
    rest = second.rest ∙ ap (λ (x : ExcerptAppender). record x { buffer = a₂.buffer }) first.rest;
    same_start = second.same_start ∙ first.same_start;
    same_chronicle = second.same_chronicle ∙ first.same_chronicle;
    grown = Grows-trans first.grown second.grown;
    sound = second.sound;
  }

  pub writes-Stays :
      (fs : List Field) (a : ExcerptAppender) (w : World)
      → IsSound env w
      → Leaves (StaysAs a w) (writes fs (a, w))
  unfolding writes write
  writes-Stays [] a w h = Leaves-ok _ (record {
    rest = refl;
    same_start = refl;
    same_chronicle = refl;
    grown = Grows-refl w.store;
    sound = h;
  })
  writes-Stays (f ∷ fs) a w h =
      Leaves-bind {P = StaysAs a w} (put (write_field f) (a, w)) (writes fs)
        (put-Stays (write_field f) a w h)
        (λ (a₁, w₁) first. record {
          leaves = λ (a₂, w₂) e.
              then-Stays first (Leaves.leaves (writes-Stays fs a₁ w₁ first.sound) (a₂, w₂) e);
        })

  -- An open excerpt stays open under writes.
  pub Stays-IsOpen :
      {a a' : ExcerptAppender} {w w' : World} {start : ℕ}
      → IsOpen env a w start
      → Stays a w a' w'
      → IsOpen env a' w' start
  Stays-IsOpen {a} {a'} {w} {w'} {start} h s = record {
    sound = s.sound;
    writing =
        subst (λ x. IsWriting env x w') (sym s.rest)
          (record {
            index_file = λ e. rw s.same_chronicle (s.grown.still _ _ _ _ (h.writing.index_file e));
            data_file = λ e. rw s.same_chronicle (s.grown.still _ _ _ _ (h.writing.data_file e));
          });
    has_region =
        subst (λ x. is_some (ExcerptAppender.data_region x) ≡ true) (sym s.rest) h.has_region;
    started = s.same_start ∙ h.started;
    behind_length = h.behind_length;
    aligned = h.aligned;
    small = h.small;
  }
