-- ===== src/ExcerptAppender/Published.antt =====
-- What `finish` publishes, and that it ends an excerpt once.
use cornelich.Common.{ℕ, ◌+◌, ◌%◌, ◌^◌, ◌≡◌, sym, ap}
use cornelich.Common.{
  Bool, true, false, if◌then◌else◌, Option, none, some, Outcome, ok, throws, undefined, logic_error,
  ◌>>=◌, >>=-eq-ok, ok_pair,
}
use cornelich.Common.Words.{add32}
use cornelich.Chronicle.Packing.{index_value}
use cornelich.ExcerptAppender.{
  ExcerptAppender, set_last_written_index, move_on, write_length, append_index, publish, finish,
}
use cornelich.Environment.{Environment}
use cornelich.Files.{is_some}
use cornelich.World.{World, Store}
use cornelich.World.Access.{region_at, put_region}
use cornelich.Region.{align_position, set_position, position}

-- The order of signed 64-bit words.
abbrev pub key64 : ℕ → ℕ
key64 x = (x + 2 ^ 63) % 2 ^ 64

abbrev pub published : World → ℕ
published w = w.chronicle.last_written_index

move_on-finished :
    (a : ExcerptAppender) (w : World) {a' : ExcerptAppender} {w' : World}
    → move_on (a, w) ≡ ok (a', w')
    → a'.finished ≡ true
unfolding move_on
move_on-finished a w {a' = a'} {w' = w'} h =
    let (r, at, h1) = >>=-eq-ok (region_at a.data_region w.store) _ h in
    let (r', aligned, h2) =
      >>=-eq-ok
        (align_position (set_position r (add32 (add32 (position r) a.buffer.position) 4)).0 4)
        (λ x.
          ok
            (record a { finished = true }, record w { store = put_region a.data_region x w.store }))
        h1 in
    let same : record a { finished = true } ≡ a' = (ok_pair h2).0 in sym (ap (λ x. x.finished) same)

publish-finished :
    (a : ExcerptAppender) (w : World) (p : ℕ) {a' : ExcerptAppender} {w' : World}
    → publish (a, w, p) ≡ ok (a', w')
    → a'.finished ≡ true
unfolding publish set_last_written_index
publish-finished a w p h =
    let (r, at, h1) = >>=-eq-ok (region_at a.index_region w.store) _ h in move_on-finished _ _ h1

-- A chain that ends in `publish`.
closing :
    (o : Option ℕ) (g : ℕ → Outcome Store) (f : ℕ → Store → Outcome (ExcerptAppender × World × ℕ))
    {a' : ExcerptAppender} {w' : World}
    → ◌≡◌ {A = Outcome (ExcerptAppender × World)}
        (elim o [ none ↦ undefined | some start ↦ g start >>= λ st. f start st >>= publish ])
        (ok (a', w'))
    → a'.finished ≡ true
closing none g f h = cc
closing (some start) g f h =
    let (st, e, h1) = >>=-eq-ok (g start) (λ st. f start st >>= publish) h in
    let ((a, w, p), e', h2) = >>=-eq-ok (f start st) publish h1 in publish-finished a w p h2

module _ (env : Environment) where
  -- The calls of `finish` on an excerpt that was started.
  finish-finished :
      (a : ExcerptAppender) (w : World) {a' : ExcerptAppender} {w' : World}
      → is_some a.data_region ≡ true
      → finish env (a, w) ≡ ok (a', w')
      → a'.finished ≡ true
  unfolding finish
  finish-finished a w {a' = a'} {w' = w'} h e = by_test a.finished (is_some a.data_region) h e
    where
      by_test :
          (b c : Bool)
          → c ≡ true
          → ◌≡◌ {A = Outcome (ExcerptAppender × World)}
              (if b
                then throws logic_error
                else if c
                then (region_at a.data_region w.store >>= λ r. elim a.buffer.start [
                  | none ↦ undefined
                  | some start ↦ write_length a r start w.store >>= λ st.
                      append_index env
                        (index_value w.chronicle a.last_thread_id r.index start)
                        (a, record w { store = st })
                      >>= publish
                ])
                else ok (a, w))
              (ok (a', w'))
          → a'.finished ≡ true
      by_test true c h e = cc
      by_test false false h e = cc
      by_test false true h e =
          let (r, at, e1) = >>=-eq-ok (region_at a.data_region w.store) _ e in
          closing a.buffer.start (λ start. write_length a r start w.store)
            (λ start st.
              append_index env (index_value w.chronicle a.last_thread_id r.index start)
                (a, record w { store = st }))
            e1

  -- When `finish` of an appender with a data region has returned, a second call of `finish`
  -- throws.
  pub finish-finish :
      (a : ExcerptAppender) (w : World) {a' : ExcerptAppender} {w' : World}
      → is_some a.data_region ≡ true
      → finish env (a, w) ≡ ok (a', w')
      → finish env (a', w') ≡ throws logic_error
  unfolding finish
  finish-finish a w {a' = a'} {w' = w'} h e = rw (finish-finished a w h e)
