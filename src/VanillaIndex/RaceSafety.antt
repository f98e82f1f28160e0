-- ===== src/VanillaIndex/RaceSafety.antt =====
-- Appenders that race for the slots of an index region lose no entry.
use cornelich.Common.{
  ℕ, ◌+◌, ◌*◌, ◌/◌, ◌%◌, ◌^◌, ◌≤◌, ◌<◌, true, false, List, [], ◌∷◌, ◌++◌, length, length-append,
  some, ap,
}
use cornelich.Common.{ok, ◌≡◌, ◌≢◌, ◌⊎◌, refl, sym, ◌∙◌, arith}
use cornelich.Common.Words.{slt32, add32, sub32}
use cornelich.Memory.{Bytes, load, store}
use cornelich.Region.{Region, cas64, position, set_position, limit}
use cornelich.Region.Positions.{IsValid, accessors, set_position_lem}
use cornelich.VanillaIndex.SlotsRefine.{slot, slot_end, slot-snoc, Holds, grown-Holds, behind-Holds}
use cornelich.VanillaIndex.Race.{
  Pc, idle, scanning, swapped, returned, refused, Move, call, eof, lose, win, move_on, System, at,
  pick, Reach, here, later, placed, asked,
}
use mathlib.Core.List.{append-nil, append_assoc}
use native.Mathlib.Decide.{ℕ_discrete, dec_lt}

not_eof :
    {r : Region} (p : ℕ)
    → IsValid r
    → p ≤ r.size
    → slt32 (sub32 (limit r) p) 8 ≡ false
    → p + 8 ≤ r.size
not_eof {r} p v h e = ground (arith, accessors v)

cas_won :
    (r : Region) (m m' : Bytes) (p v : ℕ)
    → cas64 r m p 0 v ≡ ok (m', true)
    → (load 8 m p ≡ 0) × (m' ≡ store 8 m p v)
unfolding cas64
cas_won r m m' p v e = ground arith

cas_lost :
    (r : Region) (m m' : Bytes) (p v : ℕ)
    → cas64 r m p 0 v ≡ ok (m', false)
    → (load 8 m p ≢ 0) × (m' ≡ m)
unfolding cas64
cas_lost r m m' p v e = ground arith

module _ {r : Region} {m : Bytes} {entries : List ℕ} (h : Holds r m entries) (p : ℕ)
    (slot_start : p % 8 ≡ 0) (inside : p + 8 ≤ r.size) where
  -- Of the slots up to the first that is free, only that one reads 0.
  free_is_end : p ≤ 8 * length entries → load 8 m p ≡ 0 → p ≡ 8 * length entries
  free_is_end le free = elim (dec_lt p (8 * length entries)) [
    | yes before ↦
        let whole : 8 * (p / 8) ≡ p = omega arith in
        absurd
          (h.written (p / 8) (omega arith) (sym (h.slots (p / 8) (omega arith)) ∙ rw whole free))
    | no end ↦ omega arith
  ]

  taken_is_before : p ≤ 8 * length entries → load 8 m p ≢ 0 → p + 8 ≤ 8 * length entries
  taken_is_before le taken = elim (ℕ_discrete p (8 * length entries)) [
    | yes end ↦
        let first : load 8 m (8 * length entries) ≡ 0 =
          h.slots (length entries) (omega arith) ∙ slot_end entries in
        absurd (taken (rw end first))
    | no before ↦ omega arith
  ]

-- What is true of every state of the race.
pub record Inv (r : Region) (m : Bytes) (pc : ℕ → Pc) (entries : List ℕ) : Type 0 where
  pub holds : Holds r m entries
  pub scans :
      (i v p : ℕ)
      → pc i ≡ scanning v p
      → (p % 8 ≡ 0) × (p ≤ 8 * length entries) × (v ≢ 0) × (v < 2 ^ 64)
  pub puts :
      (i v p : ℕ)
      → placed (pc i) ≡ some (v, p)
      → (p % 8 ≡ 0) × (p + 8 ≤ 8 * length entries) × (slot entries (p / 8) ≡ v)
  pub unique : (i j v w p : ℕ) → placed (pc i) ≡ some (v, p) → placed (pc j) ≡ some (w, p) → i ≡ j

-- The entries after a step: as before, or with one more behind them.
abbrev pub Extends : List ℕ → List ℕ → Type 0
Extends old new = (new ≡ old) ⊎ ((v : ℕ) × (new ≡ old ++ (v ∷ [])))

module _ {r : Region} {m : Bytes} {pc : ℕ → Pc} {entries : List ℕ} (h : Inv r m pc entries)
    (i : ℕ) where
  open h use {holds, scans, puts, unique}

  call-Inv :
      {v : ℕ}
      → pc i ≡ idle
      → v ≢ 0
      → v < 2 ^ 64
      → Inv r m (at pc i (scanning v (position r))) entries
  call-Inv {v} e nz fits = record {
    holds = holds;
    scans =
        λ j w q. ground (arith, scans j w q, accessors holds.valid, holds.behind, holds.at_slot);
    puts = λ j w q. ground (arith, puts j w q);
    unique = λ j k w x q. ground (arith, unique j k w x q);
  }

  eof-Inv : {v p : ℕ} → pc i ≡ scanning v p → Inv r m (at pc i (refused v)) entries
  eof-Inv {v} {p} e = record {
    holds = holds;
    scans = λ j w q. ground (arith, scans j w q);
    puts = λ j w q. ground (arith, puts j w q);
    unique = λ j k w x q. ground (arith, unique j k w x q);
  }

  lose-Inv :
      {v p : ℕ}
      → pc i ≡ scanning v p
      → slt32 (sub32 (limit r) p) 8 ≡ false
      → load 8 m p ≢ 0
      → Inv r m (at pc i (scanning v (add32 p 8))) entries
  lose-Inv {v} {p} e more taken =
      let (slot_start, le, nz, fits) = scans i v p e in
      let inside : p + 8 ≤ r.size = not_eof p holds.valid (omega (arith, holds.room)) more in
      let before : p + 8 ≤ 8 * length entries =
        taken_is_before holds p slot_start inside le taken in
      record {
        holds = holds;
        scans = λ j w q. ground (arith, scans j w q, holds.room, holds.valid.small);
        puts = λ j w q. ground (arith, puts j w q);
        unique = λ j k w x q. ground (arith, unique j k w x q);
      }

  win-Inv :
      {v p : ℕ}
      → pc i ≡ scanning v p
      → slt32 (sub32 (limit r) p) 8 ≡ false
      → load 8 m p ≡ 0
      → Inv r (store 8 m p v) (at pc i (swapped v p)) (entries ++ (v ∷ []))
  win-Inv {v} {p} e more free =
      let (slot_start, le, nz, fits) = scans i v p e in
      let inside : p + 8 ≤ r.size = not_eof p holds.valid (omega (arith, holds.room)) more in
      let end : p ≡ 8 * length entries = free_is_end holds p slot_start inside le free in
      let len : length (entries ++ (v ∷ [])) ≡ length entries + 1 =
        length-append entries (v ∷ []) in
      record {
        holds = rw end (grown-Holds holds v nz fits (omega arith));
        scans = λ j w q. ground (arith, scans j w q);
        puts = λ j w q. ground (arith, puts j w q, slot-snoc entries v (q / 8));
        unique = λ j k w x q. ground (arith, unique j k w x q, puts j w q, puts k x q);
      }

  move_on-Inv :
      {v p : ℕ} {r' : Region}
      → pc i ≡ swapped v p
      → set_position r (add32 p 8) ≡ (r', true)
      → Inv r' m (at pc i (returned v p)) entries
  move_on-Inv {v} {p} {r'} e moved =
      let (slot_start, inside, value) = puts i v p (ground arith) in
      let there : r' ≡ record r { position_offset = p + 8 } =
        ground (arith, set_position_lem (add32 p 8) holds.valid, holds.room, holds.valid.small) in
      record {
        holds = rw there (behind-Holds holds v p slot_start inside);
        scans = λ j w q. ground (arith, scans j w q);
        puts = λ j w q. ground (arith, puts j w q);
        unique = λ j k w x q. ground (arith, unique j k w x q);
      }

Move-Inv :
    {r r' : Region} {m m' : Bytes} {p p' : Pc} {pc : ℕ → Pc} {entries : List ℕ} (i : ℕ)
    → Move r m p r' m' p'
    → pc i ≡ p
    → asked p' ≢ some 0
    → Inv r m pc entries
    → (added : List ℕ) × Inv r' m' (at pc i p') (entries ++ added)
Move-Inv i (call {v} fits) e nz h =
    let some_value : v ≢ 0 = λ zero. nz (ap some zero) in
    ([], rw append-nil (call-Inv h i e some_value fits))
Move-Inv i (eof {v} {p} full) e nz h = ([], rw append-nil (eof-Inv h i e))
Move-Inv {r} {m = m} i (lose {v} {p} {m'} more failed) e nz h =
    let (taken, same) = cas_lost r m m' p v failed in
    ([], rw (append-nil, same) (lose-Inv h i e more taken))
Move-Inv {r} {m = m} i (win {v} {p} {m'} more done) e nz h =
    let (free, stored) = cas_won r m m' p v done in (v ∷ [], rw stored (win-Inv h i e more free))
Move-Inv i (move_on moved) e nz h = ([], rw append-nil (move_on-Inv h i e moved))

-- An appender keeps the value that it was called with.
asked_still :
    {r r' : Region} {m m' : Bytes} {p p' : Pc} (v : ℕ)
    → Move r m p r' m' p'
    → asked p ≡ some v
    → asked p' ≡ some v
asked_still v (call fits) e = cc
asked_still v (eof full) e = e
asked_still v (lose more failed) e = e
asked_still v (win more done) e = e
asked_still v (move_on moved) e = e

-- What is asked before a step is asked after it.
asked_before :
    (pc : ℕ → Pc) (i : ℕ) {r r' : Region} {m m' : Bytes} {p : Pc}
    → Move r m (pc i) r' m' p
    → ((j : ℕ) → asked (at pc i p j) ≢ some 0)
    → (j : ℕ) → asked (pc j) ≢ some 0
asked_before pc i {p = p} mv nonzero j e = elim (ℕ_discrete i j) [
  | yes same ↦ nonzero i (ground (arith, asked_still 0 mv (rw same e)))
  | no other ↦ nonzero j (ground (arith, e))
]

Reach-Inv :
    {s t : System} {entries : List ℕ}
    → Inv s.region s.bytes s.pc entries
    → Reach s t
    → ((i : ℕ) → asked (t.pc i) ≢ some 0)
    → (added : List ℕ) × Inv t.region t.bytes t.pc (entries ++ added)
Reach-Inv h here nonzero = ([], rw append-nil h)
Reach-Inv {entries = entries} h (later {t} r (pick i {p = p} mv)) nonzero =
    let (before, g) = Reach-Inv h r (asked_before t.pc i mv nonzero) in
    let (more, k) = Move-Inv i mv refl (λ e. nonzero i (ground (arith, e))) g in
    (before ++ more, rw (← append_assoc) k)

-- What the state of a race keeps, for the entries of the region when the race began.
pub record NoneLost (entries : List ℕ) (t : System) : Type 0 where
  pub added : List ℕ
  -- The region holds the old entries, in order, and behind them those of the race.
  pub held : Holds t.region t.bytes (entries ++ added)
  -- Every value that was put is read at the position that its appender returns.
  pub readable : (i v p : ℕ) → placed (t.pc i) ≡ some (v, p) → load 8 t.bytes p ≡ v
  -- No two appenders put their values at one position.
  pub apart :
      (i j v w p : ℕ) → placed (t.pc i) ≡ some (v, p) → placed (t.pc j) ≡ some (w, p) → i ≡ j

-- Whatever the interleaving of the appenders of a region that holds some entries, which are all
-- idle at first and of which none is called with the value 0: the entries that were there stay,
-- each value that was put stands at the position that its appender returns, and no position is
-- given to two appenders.
pub append-NoneLost :
    {s t : System} {entries : List ℕ}
    → Holds s.region s.bytes entries
    → ((i : ℕ) → s.pc i ≡ idle)
    → Reach s t
    → ((i : ℕ) → asked (t.pc i) ≢ some 0)
    → NoneLost entries t
append-NoneLost {s} {t} {entries} h quiet r nonzero =
    let first : Inv s.region s.bytes s.pc entries = record {
      holds = h;
      scans = λ i v p e. ground (arith, quiet i);
      puts = λ i v p e. ground (arith, quiet i);
      unique = λ i j v w p e. ground (arith, quiet i);
    } in
    let (added, inv) = Reach-Inv first r nonzero in
    record {
      added = added;
      held = inv.holds;
      readable = λ i v p e.
          let (slot_start, inside, value) = inv.puts i v p e in
          let whole : 8 * (p / 8) ≡ p = omega arith in
          rw whole at (inv.holds.slots (p / 8) (omega (arith, inv.holds.room))) ∙ value;
      apart = inv.unique;
    }
