-- ===== src/ExcerptAppender/Write/Laws.antt =====
-- What a row of writes leaves.
use cornelich.Common.{
  ℕ, ◌+◌, ◌%◌, ◌^◌, ◌≤◌, ◌<◌, ◌≡◌, refl, sym, ap, ◌∙◌, arith, true, false, ltb, leb, List, [], ◌∷◌,
  ◌++◌, some, length, length-append, ok, >>=-eq-ok, ok_pair, Bool, if◌then◌else◌, Outcome,
  undefined,
}
use mathlib.Core.Path.{subst}
use cornelich.ExcerptAppender.{ExcerptAppender}
use cornelich.ExcerptAppender.Write.{put_at, put, write, writes}
use cornelich.ExcerptTailer.Reading.{bytes_of-put_bytes}
use cornelich.World.Writes.{region_at-put_bytes}
use cornelich.Formatters.{Field, write_field, write_fields}
use cornelich.Memory.{Bytes, update, store_bytes}
use cornelich.Region.{Region}
use cornelich.Util.BufferView.{BufferView, place, skip}
use cornelich.World.{World, RegionPtr}
use cornelich.World.Access.{region_at, bytes_of, put_bytes}

store_bytes-append :
    (m : Bytes) (at : ℕ) (bs cs : List ℕ)
    → store_bytes (store_bytes m at bs) (at + length bs) cs ≡ store_bytes m at (bs ++ cs)
unfolding store_bytes
store_bytes-append m at [] cs = ap (λ k. store_bytes m k cs) (omega arith)
store_bytes-append m at (b ∷ bs) cs =
    ap (λ k. store_bytes (store_bytes (update m at b) (at + 1) bs) k cs) (omega arith)
    ∙ store_bytes-append (update m at b) (at + 1) bs cs

-- The appender and the shared state behind the writing of some bytes, which began at `at` in the file
-- of `r` with the bytes `m`.
pub record Wrote (a : ExcerptAppender) (w : World) (r : Region) (m : Bytes) (start : ℕ)
    (bytes : List ℕ) (a' : ExcerptAppender) (w' : World) : Type 0 where
  pub memory :
      (r' : Region)
      → r'.path ≡ r.path
      → bytes_of r' w'.store ≡ ok (store_bytes m (start + a.buffer.position) bytes)
  pub regions : (p : RegionPtr) → region_at p w'.store ≡ region_at p w.store
  pub same_region : a'.data_region ≡ a.data_region
  pub same_start : a'.buffer.start ≡ a.buffer.start
  pub moved : a'.buffer.position ≡ a.buffer.position + length bytes
  pub positive : a'.buffer.position < 2 ^ 31
  pub mapped : start + a'.buffer.position ≤ r.size

pub place_lem :
    (b : BufferView) (start : ℕ)
    → b.start ≡ some start
    → b.position < 2 ^ 31
    → place b ≡ some (start + b.position)
unfolding place
place_lem b start h small = ground arith

put-place :
    (bytes : List ℕ) (a : ExcerptAppender) (w : World) (r : Region) (m : Bytes) (at : ℕ)
    → region_at a.data_region w.store ≡ ok r
    → bytes_of r w.store ≡ ok m
    → place a.buffer ≡ some at
    → put bytes (a, w) ≡ put_at at bytes r m (a, w)
unfolding put
put-place bytes a w r m at h1 h2 h3 = rw (h1, h2, h3) refl

-- The case in which the bytes are stored.
stored :
    (bytes : List ℕ) (a : ExcerptAppender) (w : World) (r : Region) (m : Bytes) (start p : ℕ)
    → bytes_of r w.store ≡ ok m
    → p ≡ a.buffer.position + length bytes
    → p < 2 ^ 31
    → start + p ≤ r.size
    → Wrote a w r m start bytes
        (record a { buffer = record (a.buffer) { position = p } })
        (record w { store = put_bytes r (store_bytes m (start + a.buffer.position) bytes) w.store })
stored bytes a w r m start p there moved small fits = record {
  memory = λ r' path. bytes_of-put_bytes r r' m _ w.store path there;
  regions = λ q. region_at-put_bytes q r _ w.store;
  same_region = refl;
  same_start = refl;
  moved = moved;
  positive = small;
  mapped = fits;
}

-- A guarded call that returns.
guarded {ℓ} :
    {A : Type ℓ} (c : Bool) (x : Outcome A) {v : A}
    → (if c then x else undefined) ≡ ok v
    → (c ≡ true) × (x ≡ ok v)
guarded true x h = (refl, h)
guarded false x h = cc

ok_injective {ℓ} : {A : Type ℓ} {x y : A} → ok x ≡ ok y → x ≡ y
ok_injective h = cc

skip_lem :
    (n : ℕ) (b b' : BufferView)
    → b.position < 2 ^ 31
    → skip n b ≡ ok b'
    → (b.position + n < 2 ^ 31) × (record b { position = b.position + n } ≡ b')
unfolding skip
skip_lem n b b' small h =
    let (fits, e) = guarded (ltb ((b.position + 2 ^ 31) % 2 ^ 32 + n) (2 ^ 32)) _ h in
    let short : b.position + n < 2 ^ 31 = ground arith in
    let p : (b.position + n) % 2 ^ 32 ≡ b.position + n = omega arith in
    (short, ap (λ (k : ℕ). record b { position = k }) (sym p) ∙ ok_injective e)

put_lem :
    (bytes : List ℕ) (a a' : ExcerptAppender) (w w' : World) (r : Region) (m : Bytes) (start : ℕ)
    → region_at a.data_region w.store ≡ ok r
    → bytes_of r w.store ≡ ok m
    → a.buffer.start ≡ some start
    → a.buffer.position < 2 ^ 31
    → put bytes (a, w) ≡ ok (a', w')
    → Wrote a w r m start bytes a' w'
unfolding put_at
put_lem bytes a a' w w' r m start at there started small h =
    let at' : ℕ = start + a.buffer.position in
    let h1 : put_at at' bytes r m (a, w) ≡ ok (a', w') =
      sym (put-place bytes a w r m at' at there (place_lem a.buffer start started small)) ∙ h in
    let (fits, h2) = guarded (leb (at' + length bytes) r.size) _ h1 in
    let (b, skipped, h3) = >>=-eq-ok (skip (length bytes) a.buffer) _ h2 in
    let (short, moved) = skip_lem (length bytes) a.buffer b small skipped in
    let (ea, ew) = ok_pair h3 in
    let inside : start + (a.buffer.position + length bytes) ≤ r.size = ground arith in
    subst (λ x. Wrote a w r m start bytes x w')
      (ap (λ (b : BufferView). record a { buffer = b }) moved ∙ ea)
      (subst (Wrote a w r m start bytes _) ew
        (stored bytes a w r m start (a.buffer.position + length bytes) there refl short inside))

-- One row of bytes after another.
then-Wrote :
    {a a1 a2 : ExcerptAppender} {w w1 w2 : World} {r : Region} {m : Bytes} {start : ℕ}
    {bytes more : List ℕ}
    → (first : Wrote a w r m start bytes a1 w1)
    → Wrote a1 w1 r (store_bytes m (start + a.buffer.position) bytes) start more a2 w2
    → Wrote a w r m start (bytes ++ more) a2 w2
then-Wrote {a} {r = r} {m} {start} {bytes} {more} first second = record {
  memory = λ r' path.
      second.memory r' path
      ∙ ap ok (
          ap (λ k. store_bytes (store_bytes m (start + a.buffer.position) bytes) k more)
            (omega (arith, first.moved))
          ∙ store_bytes-append m (start + a.buffer.position) bytes more);
  regions = λ p. second.regions p ∙ first.regions p;
  same_region = second.same_region ∙ first.same_region;
  same_start = second.same_start ∙ first.same_start;
  moved = omega (arith, first.moved, second.moved, length-append bytes more);
  positive = second.positive;
  mapped = second.mapped;
}

bytes_of_same :
    (r r' : Region) (w : World) → r.path ≡ r'.path → bytes_of r w.store ≡ bytes_of r' w.store
unfolding bytes_of
bytes_of_same r r' w path = rw path refl

Wrote-nothing :
    (a : ExcerptAppender) (w : World) (r : Region) (m : Bytes) (start : ℕ)
    → bytes_of r w.store ≡ ok m
    → a.buffer.position < 2 ^ 31
    → start + a.buffer.position ≤ r.size
    → Wrote a w r m start [] a w
unfolding store_bytes
Wrote-nothing a w r m start there small inside = record {
  memory = λ r' path. bytes_of_same r' r w path ∙ there;
  regions = λ p. refl;
  same_region = refl;
  same_start = refl;
  moved = omega arith;
  positive = small;
  mapped = inside;
}

-- If the writes of some fields return, the bytes of all fields stand in the memory one behind the
-- other, and the appender's position is the place behind them.
pub writes_lem :
    (fs : List Field) (a a' : ExcerptAppender) (w w' : World) (r : Region) (m : Bytes) (start : ℕ)
    → region_at a.data_region w.store ≡ ok r
    → bytes_of r w.store ≡ ok m
    → a.buffer.start ≡ some start
    → a.buffer.position < 2 ^ 31
    → start + a.buffer.position ≤ r.size
    → writes fs (a, w) ≡ ok (a', w')
    → Wrote a w r m start (write_fields fs) a' w'
unfolding writes write write_fields
writes_lem [] a a' w w' r m start at there started small inside h =
    let (ea, ew) = ok_pair h in
    subst (λ x. Wrote a w r m start [] x w') ea
      (subst (Wrote a w r m start [] a) ew (Wrote-nothing a w r m start there small inside))
writes_lem (f ∷ fs) a a' w w' r m start at there started small inside h =
    let ((a1, w1), h1, h2) = >>=-eq-ok (put (write_field f) (a, w)) (writes fs) h in
    let first = put_lem (write_field f) a a1 w w1 r m start at there started small h1 in
    then-Wrote first (
      writes_lem fs a1 a' w1 w' r _ start
        (ap (λ p. region_at p w1.store) first.same_region ∙ first.regions a.data_region ∙ at)
        (first.memory r refl) (first.same_start ∙ started) first.positive first.mapped h2)
