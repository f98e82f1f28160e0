-- ===== src/VanillaIndex/SlotsRefine.antt =====
-- An index region is an append-only list of the values that were written to it.
use cornelich.Common.{
  ℕ, zero, suc, ◌+◌, ◌-◌, ◌*◌, ◌/◌, ◌%◌, ◌^◌, ◌≤◌, ◌<◌, leb, ◌==◌, if◌then◌else◌, List, [], ◌∷◌,
  ◌++◌, length, length-append,
}
use cornelich.Common.{Outcome, ok, ◌≡◌, ◌≢◌, refl, sym, ◌∙◌, arith}
use cornelich.Common.Words.{minus_one64}
use cornelich.Memory.{Bytes, load, store, load-store_self, load-store_disjoint}
use cornelich.Region.{Region, position}
use cornelich.Region.Positions.{IsValid, accessors}
use cornelich.VanillaIndex.Slots.{append_loop, append, count_loop, count_index_entries}
use native.Mathlib.Nat.{mod-eq_of_lt}
use native.Mathlib.Decide.{dec_lt, ℕ_discrete}

abbrev pub slot : List ℕ → ℕ → ℕ
slot [] i = 0
slot (x ∷ xs) zero = x
slot (x ∷ xs) (suc i) = slot xs i

pub slot_end : (xs : List ℕ) → slot xs (length xs) ≡ 0
slot_end [] = refl
slot_end (x ∷ xs) = slot_end xs

pub slot-snoc :
    (xs : List ℕ) (x i : ℕ) → slot (xs ++ (x ∷ [])) i ≡ (if i == length xs then x else slot xs i)
slot-snoc [] x zero = refl
slot-snoc [] x (suc i) = ground arith
slot-snoc (y ∷ xs) x zero = ground arith
slot-snoc (y ∷ xs) x (suc i) = ground (arith, slot-snoc xs x i)

-- The bytes hold the entries from the first slot on, and zeros behind them.
pub record Holds (r : Region) (m : Bytes) (entries : List ℕ) : Type 0 where
  pub valid : IsValid r
  pub aligned : r.size % 8 ≡ 0
  pub behind : r.position_offset ≤ 8 * length entries
  pub at_slot : r.position_offset % 8 ≡ 0
  pub room : 8 * length entries ≤ r.size
  pub written : (i : ℕ) → i < length entries → slot entries i ≢ 0
  pub slots : (i : ℕ) → 8 * i + 8 ≤ r.size → load 8 m (8 * i) ≡ slot entries i

module _ {r : Region} (v : IsValid r) (m : Bytes) (value : ℕ) (fuel p : ℕ) where
  pub step_taken :
      p + 8 ≤ r.size
      → load 8 m p ≢ 0
      → append_loop (suc fuel) r m value p ≡ append_loop fuel r m value (p + 8)
  unfolding append_loop
  step_taken h taken = ground arith

  pub step_free :
      p + 8 ≤ r.size
      → load 8 m p ≡ 0
      → append_loop (suc fuel) r m value p
        ≡ ok (record r { position_offset = p + 8 }, store 8 m p value, p)
  unfolding append_loop
  step_free h free = ground arith

  pub step_full :
      p ≤ r.size → r.size < p + 8 → append_loop (suc fuel) r m value p ≡ ok (r, m, minus_one64)
  unfolding append_loop
  step_full lo hi = ground arith

-- What `append` does to a region that holds `entries`.
abbrev pub appended : Region → Bytes → List ℕ → ℕ → Outcome (Region × Bytes × ℕ)
appended r m entries value =
    if leb (8 * length entries + 8) r.size
    then ok (
      record r { position_offset = 8 * length entries + 8 },
      store 8 m (8 * length entries) value,
      8 * length entries,
    )
    else ok (r, m, minus_one64)

module _ {r : Region} {m : Bytes} {entries : List ℕ} (h : Holds r m entries) (value : ℕ) where
  -- From slot `i` on, `d` slots before the first that is free.
  append_loop-appended :
      (d i fuel : ℕ)
      → i + d ≡ length entries
      → d < fuel
      → append_loop fuel r m value (8 * i) ≡ appended r m entries value
  append_loop-appended d i zero e lt = absurd (omega arith)
  append_loop-appended zero i (suc fuel) e lt =
      let here : i ≡ length entries = omega arith in
      elim (dec_lt r.size (8 * length entries + 8)) [
        | yes full ↦
            rw here (step_full h.valid m value fuel (8 * length entries) h.room full ∙ ground arith)
        | no space ↦
            let free : load 8 m (8 * length entries) ≡ 0 =
              h.slots (length entries) (omega arith) ∙ slot_end entries in
            rw here (
              step_free h.valid m value fuel (8 * length entries) (omega arith) free ∙ ground arith)
      ]
  append_loop-appended (suc d) i (suc fuel) e lt =
      let inside : 8 * i + 8 ≤ r.size = omega (arith, h.room) in
      let taken : load 8 m (8 * i) ≢ 0 =
        λ z. h.written i (omega arith) (sym (h.slots i inside) ∙ z) in
      let next : 8 * i + 8 ≡ 8 * (i + 1) = omega arith in
      step_taken h.valid m value fuel (8 * i) inside taken
      ∙ rw next (append_loop-appended d (i + 1) fuel (omega arith) (omega arith))

  -- `append` writes the value into the first free slot and answers its offset, or -1 on a full region.
  append-appended : append r m value ≡ appended r m entries value
  unfolding append
  append-appended =
      let start : position r ≡ 8 * (r.position_offset / 8) =
        (accessors h.valid).0 ∙ omega (arith, h.at_slot) in
      rw start (
        append_loop-appended (length entries - r.position_offset / 8) (r.position_offset / 8)
          (r.size / 8 + 1) (omega (arith, h.behind)) (omega (arith, h.room)))

  -- The region that has room, with the value behind the entries.
  abbrev pub moved_region : Region
  moved_region = record r { position_offset = 8 * length entries + 8 }

  abbrev pub moved_bytes : Bytes
  moved_bytes = store 8 m (8 * length entries) value

  snoc-written :
      value ≢ 0
      → (i : ℕ) → i < length (entries ++ (value ∷ []))
      → slot (entries ++ (value ∷ [])) i ≢ 0
  snoc-written nz i lt z =
      ground (arith, length-append entries (value ∷ []), slot-snoc entries value i, h.written i)

  snoc-slots :
      value < 2 ^ 64
      → (i : ℕ) → 8 * i + 8 ≤ r.size
      → load 8 moved_bytes (8 * i) ≡ slot (entries ++ (value ∷ [])) i
  snoc-slots fits i inside = elim (ℕ_discrete i (length entries)) [
    | yes e ↦ rw e (
        load-store_self 8 m (8 * length entries) value
        ∙ mod-eq_of_lt fits
        ∙ ground (arith, slot-snoc entries value (length entries)))
    | no n ↦
        load-store_disjoint 8 8 m (8 * length entries) (8 * i) value (omega arith)
        ∙ h.slots i inside
        ∙ ground (arith, slot-snoc entries value i)
  ]

  -- The compare-and-swap alone: the entry is there, the position not yet moved.
  pub grown-Holds :
      value ≢ 0
      → value < 2 ^ 64
      → 8 * length entries + 8 ≤ r.size
      → Holds r moved_bytes (entries ++ (value ∷ []))
  grown-Holds nz fits space = record {
    valid = h.valid;
    aligned = h.aligned;
    behind = omega (arith, length-append {0} entries (value ∷ []), h.behind);
    at_slot = h.at_slot;
    room = omega (arith, length-append {0} entries (value ∷ []));
    written = snoc-written nz;
    slots = snoc-slots fits;
  }

  -- The position moved behind some slot that is written.
  pub behind-Holds :
      (p : ℕ)
      → p % 8 ≡ 0
      → p + 8 ≤ 8 * length entries
      → Holds (record r { position_offset = p + 8 }) m entries
  behind-Holds p slot_start inside = record {
    valid = record {
      starts = h.valid.starts;
      ends = h.valid.ends;
      small = h.valid.small;
      within = omega (arith, h.room);
    };
    aligned = h.aligned;
    behind = inside;
    at_slot = omega arith;
    room = h.room;
    written = h.written;
    slots = h.slots;
  }

module _ {r : Region} {m : Bytes} {entries : List ℕ} (h : Holds r m entries) (value : ℕ) where
  -- On a region with a free slot behind its entries, `append` of a 64-bit value that is not 0
  -- returns the offset of the first free slot, and the region then holds the old entries
  -- followed by the value.
  pub append-Holds :
      value ≢ 0
      → value < 2 ^ 64
      → 8 * length entries + 8 ≤ r.size
      → (append r m value ≡ ok (moved_region h value, moved_bytes h value, 8 * length entries))
        × Holds (moved_region h value) (moved_bytes h value) (entries ++ (value ∷ []))
  append-Holds nz fits space = (
    append-appended h value ∙ ground arith,
    behind-Holds (grown-Holds h value nz fits space) value (8 * length entries) (omega arith)
        (omega (arith, length-append {0} entries (value ∷ []))),
  )

  -- On a region whose entries fill it, `append` answers -1, and changes neither the position
  -- nor the bytes.
  pub append_full : r.size < 8 * length entries + 8 → append r m value ≡ ok (r, m, minus_one64)
  append_full full = append-appended h value ∙ ground arith

count_loop-length :
    {r : Region} {m : Bytes} {entries : List ℕ} (h : Holds r m entries) (d i fuel : ℕ)
    → i + d ≡ length entries
    → d < fuel
    → count_loop fuel r m (8 * i) i ≡ ok (length entries)
unfolding count_loop
count_loop-length {r} {m} {entries} h d i zero e lt = absurd (omega arith)
count_loop-length {r} {m} {entries} h zero i (suc fuel) e lt =
    ground (arith, h.slots i, slot_end entries, h.aligned, h.room)
count_loop-length {r} {m} {entries} h (suc d) i (suc fuel) e lt = ground (
  arith,
  h.slots i,
  h.written i,
  h.room,
  (let next : 8 * i + 8 ≡ 8 * (i + 1) = omega arith in next),
  count_loop-length h d (i + 1) fuel,
)

-- On a region that holds a row of entries, `count_index_entries` returns their number.
pub count_index_entries-length :
    {r : Region} {m : Bytes} {entries : List ℕ}
    → Holds r m entries
    → count_index_entries r m ≡ ok (length entries)
unfolding count_index_entries
count_index_entries-length {r} {m} {entries} h =
    count_loop-length h (length entries) 0 (r.size / 8 + 1) (omega arith) (omega (arith, h.room))
