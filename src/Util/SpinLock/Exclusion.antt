-- ===== src/Util/SpinLock/Exclusion.antt =====
-- Mutual exclusion, and the bound on the pauses.
use cornelich.Common.{ℕ, ◌≤◌, Bool, true, false, ◌≡◌, ◌≢◌, ◌⊎◌, inl, inr, refl, arith, Bool-cases}
use cornelich.Util.SpinLock.{
  Pause, wait, yield, backoff, Pc, outside, locking, inside, System, at, Move, begin_lock, acquire,
  spin, unlock, Step, pick, Reach, start, later,
}

-- The flag is set exactly while a thread is inside, and never two are.
pub record IsSafe (flag : Bool) (pc : ℕ → Pc) : Type 0 where
  pub free : flag ≡ false → (i : ℕ) → pc i ≢ inside
  pub held : flag ≡ true → (i : ℕ) × (pc i ≡ inside)
  pub unique : (i j : ℕ) → pc i ≡ inside → pc j ≡ inside → i ≡ j

Move-IsSafe :
    {f f' : Bool} {p p' : Pc} (pc : ℕ → Pc) (i : ℕ)
    → Move f p f' p'
    → pc i ≡ p
    → IsSafe f pc
    → IsSafe f' (at pc i p')
Move-IsSafe pc i begin_lock e h = record {
  free = λ q j. ground (arith, h.free q j);
  held = λ q. let (j, k) = h.held q in (j, ground arith);
  unique = λ a b. ground (arith, h.unique a b);
}
Move-IsSafe pc i acquire e h = record {
  free = λ q j. cc;
  held = λ q. (i, ground arith);
  unique = λ a b. ground (arith, h.free refl a, h.free refl b);
}
Move-IsSafe pc i spin e h = record {
  free = λ q j. cc;
  held = λ q. let (j, k) = h.held q in (j, ground arith);
  unique = λ a b. ground (arith, h.unique a b);
}
Move-IsSafe pc i unlock e h = record {
  free = λ q j. ground (arith, h.unique i j);
  held = λ q. cc;
  unique = λ a b. ground (arith, h.unique a b);
}

Reach-IsSafe : {s : System} → Reach s → IsSafe s.flag s.pc
Reach-IsSafe start = record {
  free = λ q i. ground arith;
  held = λ q. cc;
  unique = λ i j. ground arith;
}
Reach-IsSafe (later {s} r (pick i mv)) = Move-IsSafe s.pc i mv refl (Reach-IsSafe r)

-- Two threads are never between `lock` and `unlock` together in a reachable state, however the
-- steps were interleaved.
pub mutual_exclusion :
    {s : System} → Reach s → (i j : ℕ) → s.pc i ≡ inside → s.pc j ≡ inside → i ≡ j
mutual_exclusion r = (Reach-IsSafe r).unique

-- No deadlock: in a reachable state, while a thread waits in `lock`, either it gets the flag with
-- its next step, or some thread is inside and can clear the flag with its next step.
pub progress :
    {s : System}
    → Reach s
    → (i n : ℕ) → s.pc i ≡ locking n
    → Step s (record { flag = true; pc = at s.pc i inside })
      ⊎ ((j : ℕ) × Step s (record { flag = false; pc = at s.pc j outside }))
progress {s} r i n e = elim (Bool-cases s.flag) [
  | inl set ↦ let (j, e') = (Reach-IsSafe r).held set in inr (j, pick j (rw e' unlock))
  | inr clear ↦ inl (pick i (rw (clear, e) acquire))
]

-- The counts that a back-off of `lock` can have.
abbrev IsCount : ℕ → Type 0
IsCount n = (n ≡ 1) ⊎ (n ≡ 2) ⊎ (n ≡ 4) ⊎ (n ≡ 8) ⊎ (n ≡ 16) ⊎ (n ≡ 32)

-- What a back-off asks for: pauses of at most 16 rounds.
abbrev pub IsShort : Pause → Type 0
IsShort (wait delay) = delay ≤ 16
IsShort yield = Unit

backoff-IsCount : (n : ℕ) → IsCount n → IsCount (backoff 5 n).1 × IsShort (backoff 5 n).0
unfolding backoff
backoff-IsCount n (inl e) = rw e (inr (inl refl), omega arith)
backoff-IsCount n (inr (inl e)) = rw e (inr (inr (inl refl)), omega arith)
backoff-IsCount n (inr (inr (inl e))) = rw e (inr (inr (inr (inl refl))), omega arith)
backoff-IsCount n (inr (inr (inr (inl e)))) = rw e (inr (inr (inr (inr (inl refl)))), omega arith)
backoff-IsCount n (inr (inr (inr (inr (inl e))))) =
    rw e (inr (inr (inr (inr (inr refl)))), omega arith)
backoff-IsCount n (inr (inr (inr (inr (inr e))))) = rw e (inr (inr (inr (inr (inr refl)))), tt)

Counts : (ℕ → Pc) → Type 0
Counts pc = (i n : ℕ) → pc i ≡ locking n → IsCount n

Move-Counts :
    {f f' : Bool} {p p' : Pc} (pc : ℕ → Pc) (i : ℕ)
    → Move f p f' p'
    → pc i ≡ p
    → Counts pc
    → Counts (at pc i p')
unfolding Counts
Move-Counts pc i begin_lock e h j n = ground (arith, h j n)
Move-Counts pc i acquire e h j n = ground (arith, h j n)
Move-Counts pc i (spin {n = k}) e h j n = ground (arith, h j n, backoff-IsCount k (h i k e))
Move-Counts pc i unlock e h j n = ground (arith, h j n)

Reach-Counts : {s : System} → Reach s → Counts s.pc
unfolding Counts
Reach-Counts start = λ i n. ground arith
Reach-Counts (later {s} r (pick i mv)) = Move-Counts s.pc i mv refl (Reach-Counts r)

-- However long a thread waits in `lock`, no pause of it has more than 16 rounds.
pub pause_bounded :
    {s : System} → Reach s → (i n : ℕ) → s.pc i ≡ locking n → IsShort (backoff 5 n).0
unfolding Counts
pause_bounded r i n e = (backoff-IsCount n (Reach-Counts r i n e)).1
