-- ===== src/Delivery/Fields.antt =====
-- From `start_excerpt` of an appender (cornelich/excerpt_appender.cpp) to the readers of a tailer
-- (cornelich/excerpt_tailer.h).
use cornelich.Common.{
  ℕ, ◌+◌, ◌%◌, ◌^◌, ◌≤◌, ◌<◌, ◌≡◌, sym, ◌∙◌, ap, arith, true, some, ok, ok_same, List, map, All,
  length,
}
use cornelich.Common.Leaves.{Leaves}
use cornelich.Common.Words.{shl64}
use mathlib.Core.Path.{subst}
use cornelich.Chronicle.{Chronicle}
use cornelich.Chronicle.PackingLaws.{IsSized, Constants}
use cornelich.Delivery.Reads.{finish-index}
use cornelich.Delivery.Stored.{Fits, start_in_block}
use cornelich.Environment.{Environment}
use cornelich.ExcerptAppender.{ExcerptAppender, start_excerpt_in, finish}
use cornelich.ExcerptAppender.Indexed.{IsWriting, IsOpen}
use cornelich.ExcerptAppender.Started.{start_excerpt-Begun}
use cornelich.ExcerptAppender.Write.{writes}
use cornelich.ExcerptAppender.Write.Laws.{Wrote, writes_lem}
use cornelich.ExcerptAppender.Write.Stays.{writes-Stays, Stays-IsOpen}
use cornelich.ExcerptTailer.{ExcerptTailer, index}
use cornelich.ExcerptTailer.Follows.{Follows, MapsData}
use cornelich.ExcerptTailer.Read.{reads}
use cornelich.ExcerptTailer.Read.Laws.{reads_lem}
use cornelich.Formatters.{Field, format_of, write_fields}
use cornelich.Formatters.RoundTrip as RoundTrip
use cornelich.Files.{File}
use cornelich.Region.{Region}
use cornelich.Memory.{Bytes, load_bytes, store_bytes, load_bytes_agree, load_bytes-store_bytes_self}
use cornelich.Settings.{Settings}
use cornelich.Util.BufferView.{BufferView}
use cornelich.World.{World}
use cornelich.World.Access.{region_at, bytes_of}
use cornelich.World.Keeps.{bytes_of-Maps}
use cornelich.World.Onward.{IsSound}

in_mapping :
    (start len size size' block block' : ℕ)
    → start + len ≤ size
    → size ≡ block
    → size' ≡ block'
    → block' ≡ block
    → start + len ≤ size'
in_mapping start len size size' block block' h e e' same = omega arith

-- A tailer with a view of the bytes of some fields.
read_back :
    (fs : List Field) (t : ExcerptTailer) (w : World) (r : Region) (memory : Bytes) (start len : ℕ)
    → All RoundTrip.Fits fs
    → region_at t.data_region w.store ≡ ok r
    → bytes_of r w.store ≡ ok memory
    → t.buffer ≡ record { start = some start; position = 0; limit = len }
    → len ≡ length (write_fields fs)
    → len < 2 ^ 31
    → start + len ≤ r.size
    → load_bytes (length (write_fields fs)) memory start ≡ write_fields fs
    → (t' : ExcerptTailer) × (reads (map format_of fs) (t, w) ≡ ok (fs, t', w))
      × (t'.buffer.position ≡ t'.buffer.limit)
read_back fs t w r memory start len fits at bytes view whole short inside loaded =
    let started : t.buffer.start ≡ some start = ap (λ (b : BufferView). b.start) view in
    let front : t.buffer.position ≡ 0 = ap (λ (b : BufferView). b.position) view in
    let limit : t.buffer.limit ≡ len = ap (λ (b : BufferView). b.limit) view in
    let here : start + t.buffer.position ≡ start = omega (arith, front) in
    (
      record t {
        buffer = record (t.buffer) { position = t.buffer.position + length (write_fields fs) };
      },
      reads_lem fs t w r memory start fits at bytes started (omega (arith, front, whole))
          (omega (arith, front, whole, inside))
          (ap (load_bytes (length (write_fields fs)) memory) here ∙ loaded),
      omega (arith, front, whole, limit),
    )

module _ (env : Environment) where
  -- What the writers have left in the file of the data region.
  module _ (fs : List Field) (a₁ a₂ : ExcerptAppender) (w₁ w₂ : World) (start : ℕ)
      (begun : IsOpen env a₁ w₁ start) (front : a₁.buffer.position ≡ 0)
      (inside : start ≤ shl64 1 w₁.chronicle.data_block_size_bits % 2 ^ 32)
      (written : writes fs (a₁, w₁) ≡ ok (a₂, w₂)) where
    abbrev first :
        MapsData env w₁ a₁.data_region a₁.last_cycle a₁.last_thread_id a₁.last_data_file_number
    first = begun.writing.data_file begun.has_region

    wrote : Wrote a₁ w₁ first.mapping first.file.bytes start (write_fields fs) a₂ w₂
    wrote =
        writes_lem fs a₁ a₂ w₁ w₂ first.mapping first.file.bytes start first.at
          (bytes_of-Maps w₁.store a₁.data_region _ _ _ first.file first first.file_there)
          begun.started (omega (arith, front)) (omega (arith, front, inside, first.of_size)) written

    -- A mapping of the region afterwards.
    memory_written :
        (r : Region) (f : File)
        → region_at a₂.data_region w₂.store ≡ ok r
        → bytes_of r w₂.store ≡ ok f.bytes
        → f.bytes ≡ store_bytes first.file.bytes start (write_fields fs)
    memory_written r f at bytes =
        let same : first.mapping ≡ r = ok_same (
          sym first.at
          ∙ (sym (wrote.regions a₁.data_region)
              ∙ (ap (λ p. region_at p w₂.store) (sym wrote.same_region) ∙ at))) in
        let seen = wrote.memory r (ap (λ (x : Region). x.path) (sym same)) in
        ok_same (sym bytes ∙ seen)
        ∙ ap (λ k. store_bytes first.file.bytes k (write_fields fs)) (omega (arith, front))

    loaded :
        (memory : Bytes) (f : File)
        → f.bytes ≡ store_bytes first.file.bytes start (write_fields fs)
        → ((j : ℕ) → start ≤ j → memory j ≡ f.bytes j)
        → load_bytes (length (write_fields fs)) memory start ≡ write_fields fs
    loaded memory f bytes same =
        load_bytes_agree (length (write_fields fs)) memory
          (store_bytes first.file.bytes start (write_fields fs)) start
          (λ j low high. same j low ∙ ap (λ (m : Bytes). m j) bytes)
        ∙ load_bytes-store_bytes_self (write_fields fs) first.file.bytes start

  module _ {s : Settings} {longs files block : ℕ} (z : IsSized s longs files block) where
    -- In a chronicle whose block sizes and entries per cycle are powers of 2, let the shared
    -- state be sound, the appender's regions be those of the numbers that it keeps, and the
    -- tailer's, after `finish`, those of its last look-ups. If `start_excerpt`, the writes of
    -- some fields, each of which fits its width, and `finish` return, and the numbers of the
    -- excerpt fit the bits that they are packed in, then `index` of the tailer with the index
    -- that `finish` has written returns true, and the matching readers return the fields that
    -- were written, in order, and come to the limit of the view.
    pub reads-finish :
        (thread_id capacity cycle : ℕ) (fs : List Field) (a a₁ a₂ a₃ : ExcerptAppender)
        (w w₁ w₂ w₃ : World) (t : ExcerptTailer)
        → Constants s longs files block w.chronicle
        → IsSound env w
        → IsWriting env a w
        → All RoundTrip.Fits fs
        → start_excerpt_in env thread_id capacity cycle (a, w) ≡ ok (a₁, w₁)
        → writes fs (a₁, w₁) ≡ ok (a₂, w₂)
        → finish env (a₂, w₂) ≡ ok (a₃, w₃)
        → ((start : ℕ) → a₁.buffer.start ≡ some start → Fits env z a₂ a₃ start)
        → Follows env t w₃
        → (t' : ExcerptTailer) × (t'' : ExcerptTailer) × (w₄ : World) × (index env
              a₃.last_written_index
              (t, w₃)
            ≡ ok ((t', w₄), true))
          × (reads (map format_of fs) (t', w₄) ≡ ok (fs, t'', w₄))
          × (t''.buffer.position ≡ t''.buffer.limit)
    reads-finish thread_id capacity cycle fs a a₁ a₂ a₃ w w₁ w₂ w₃ t k h writing fits e₁ e₂ e₃
          packed follows =
        let b = start_excerpt-Begun env thread_id cycle capacity a w h writing e₁ in
        let start = b.start in
        let stays = Leaves.leaves (writes-Stays env fs a₁ w₁ b.is_open.sound) _ e₂ in
        let is_open = Stays-IsOpen env b.is_open stays in
        let k₁ = subst (Constants s longs files block) (sym b.onward.same_chronicle) k in
        let k₂ = subst (Constants s longs files block) (sym stays.same_chronicle) k₁ in
        let fit = packed start b.is_open.started in
        let low =
          start_in_block env z w₁.chronicle start k₁ b.is_open.sound.blocks fit.start_fits in
        let (t', w₄, found, d) = finish-index env z a₂ w₂ start a₃ w₃ k₂ is_open e₃ fit t follows in
        let left = wrote fs a₁ a₂ w₁ w₂ start b.is_open b.at_front low e₂ in
        let m = is_open.writing.data_file is_open.has_region in
        let bytes =
          memory_written fs a₁ a₂ w₁ w₂ start b.is_open b.at_front low e₂ m.mapping m.file m.at
            (bytes_of-Maps w₂.store a₂.data_region _ _ _ m.file m m.file_there) in
        let seen =
          loaded fs a₁ a₂ w₁ w₂ start b.is_open b.at_front low e₂ d.memory m.file bytes
            d.same_bytes in
        let m₁ = b.is_open.writing.data_file b.is_open.has_region in
        let (t'', read, all) =
          read_back fs t' w₄ d.mapping d.memory start a₂.buffer.position fits d.at d.bytes d.view
            (omega (arith, left.moved, b.at_front)) left.positive
            (in_mapping start a₂.buffer.position _ _ _ _ left.mapped m₁.of_size d.of_size (
              ap (λ (c : Chronicle). shl64 1 c.data_block_size_bits % 2 ^ 32) stays.same_chronicle))
            seen in
        (t', t'', w₄, found, read, all)
