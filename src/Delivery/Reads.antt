-- ===== src/Delivery/Reads.antt =====
-- `index` of a tailer (cornelich/excerpt_tailer.cpp) after `finish` of an appender
-- (cornelich/excerpt_appender.cpp).
use cornelich.Common.{ℕ, ◌%◌, ◌^◌, ◌≤◌, ◌≡◌, ap, ◌∙◌, true, some, ok}
use cornelich.Common.Words.{shl64}
use mathlib.Core.Path.{ap₂}
use cornelich.Chronicle.{Chronicle}
use cornelich.Chronicle.Packing.{IndexPlace, DataPlace, data_place}
use cornelich.Region.{Region}
use cornelich.World.Consistent.{data_path}
use cornelich.Chronicle.PackingLaws.{IsSized, Constants}
use cornelich.Delivery.Stored.{Fits, Closed-HasExcerpt, place, data_there}
use cornelich.Environment.{Environment}
use cornelich.ExcerptAppender.{ExcerptAppender, finish}
use cornelich.ExcerptAppender.Closed.{Closed, entry_of, finish-Closed, mapped}
use cornelich.ExcerptAppender.Indexed.{IsOpen}
use cornelich.ExcerptTailer.{ExcerptTailer, excerpt_tailer, index}
use cornelich.ExcerptTailer.Finds.{index-HasExcerpt}
use cornelich.ExcerptTailer.Follows.{Follows, MapsData}
use cornelich.Files.{File, is_some}
use cornelich.Memory.{Bytes}
use cornelich.Settings.{Settings}
use cornelich.World.{World}
use cornelich.World.Access.{region_at, bytes_of}

module _ (env : Environment) where
  -- A tailer as its constructor makes it has no regions.
  pub excerpt_tailer-Follows : (w : World) → Follows env excerpt_tailer w
  unfolding is_some
  excerpt_tailer-Follows w = record { index_follows = λ e. cc; data_follows = λ e. cc }

  module _ {s : Settings} {longs files block : ℕ} (z : IsSized s longs files block)
      (a : ExcerptAppender) (w : World) (start : ℕ) (a' : ExcerptAppender) (w' : World)
      (k : Constants s longs files block w.chronicle) (begun : IsOpen env a w start)
      (e : finish env (a, w) ≡ ok (a', w')) (fit : Fits env z a a' start) where
    -- The data region of the appender as `finish` finds it.
    abbrev pub written_to :
        MapsData env w a.data_region a.last_cycle a.last_thread_id a.last_data_file_number
    written_to =
        mapped env a w start begun.sound begun.writing begun.has_region begun.behind_length
          begun.small

    closed : Closed env a w start (entry_of env a w start) written_to.file.bytes a' w'
    closed =
        finish-Closed env a w start begun.sound begun.writing begun.has_region begun.behind_length
          begun.small begun.started e

    -- What the tailer has found.
    pub record Delivered (t' : ExcerptTailer) (w'' : World) : Type 0 where
      pub view : t'.buffer ≡ record { start = some start; position = 0; limit = a.buffer.position }
      pub at_index : t'.index ≡ a'.last_written_index
      pub mapping : Region
      pub at : region_at t'.data_region w''.store ≡ ok mapping
      pub of_path :
          mapping.path ≡ data_path env a.last_cycle a.last_thread_id a.last_data_file_number
      pub of_size : mapping.size ≡ shl64 1 w.chronicle.data_block_size_bits % 2 ^ 32
      pub memory : Bytes
      pub bytes : bytes_of mapping w''.store ≡ ok memory
      pub same_bytes : (j : ℕ) → start ≤ j → memory j ≡ written_to.file.bytes j

    -- In a chronicle whose block sizes and entries per cycle are powers of 2, let an excerpt
    -- be open at `start` over a sound shared state, and its numbers fit the bits that they
    -- are packed in. If `finish` returns, `index` of a tailer whose regions are those of its
    -- last look-ups, with the index that `finish` has written, returns true: its view starts
    -- at `start` with the length of the excerpt as its limit, in a mapping of the appender's
    -- data file, and from `start` on the bytes of that file are those from before `finish`.
    pub finish-index :
        (t : ExcerptTailer)
        → Follows env t w'
        → (t' : ExcerptTailer) × (w'' : World) × (index env a'.last_written_index (t, w')
            ≡ ok ((t', w''), true))
          × Delivered t' w''
    finish-index t follows =
        let (x, value, file) =
          Closed-HasExcerpt env z a a' w w' start written_to.file.bytes k fit closed
            begun.behind_length begun.aligned in
        let (t', w'', found, opened) =
          index-HasExcerpt env t w' a'.last_written_index start a.buffer.position
            closed.sound.consistent follows x in
        let here =
          place env z a a' w w' start written_to.file.bytes k fit closed begun.behind_length in
        let there =
          ap (data_place w'.chronicle) value
          ∙ data_there env z a a' w w' start written_to.file.bytes k fit closed
              begun.behind_length in
        (
          t',
          w'',
          found,
          record {
            view = opened.view;
            at_index = opened.at_index;
            mapping = opened.in_file.mapping;
            at = opened.in_file.at;
            of_path =
                opened.in_file.of_path
                ∙ ap₂
                    (λ (p : IndexPlace) (q : DataPlace).
                      data_path env p.cycle_for_index q.thread_id q.data_file_number)
                    here there;
            of_size =
                opened.in_file.of_size
                ∙ ap (λ (c : Chronicle). shl64 1 c.data_block_size_bits % 2 ^ 32)
                    (opened.kept.same_chronicle ∙ closed.same_chronicle);
            memory = x.data_file.bytes;
            bytes = opened.bytes;
            same_bytes =
                λ j from. ap (λ (f : File). f.bytes j) file ∙ closed.length_there.same_bytes j from;
          },
        )
