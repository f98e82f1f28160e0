-- ===== src/Tests/Utilities.antt =====
-- Runs of the utilities: stop bits, formatters, the cache and the spin lock.
use cornelich.Common.{ℕ, ◌+◌, ◌≡◌, ◌≢◌, ◌⊎◌, inr, refl, arith}
use cornelich.Common.{
  Bool, true, false, not, ◌==◌, List, [], ◌∷◌, ◌++◌, some, map, Outcome, ok, undefined,
}
use native.Mathlib.Decide.{ℕ_discrete}
use cornelich.Formatters.{Field, format_of, write_fields, read_fields}
use cornelich.Formatters.RoundTrip.{read_fields-write_fields}
use cornelich.Util.Cache.{Cache, find, get, store, pop_front}
use cornelich.Util.Cache.Bounds.{IsValid}
use cornelich.Util.Cache.Calls.{get_again, get-find_ne, get-ne-undefined, victim}
use cornelich.Util.Cache.Invariant.{get-IsValid}
use cornelich.Util.SpinLock.{
  System, outside, locking, inside, at, initial, Step, pick, Reach, start, later, begin_lock,
  acquire,
}
use cornelich.Util.SpinLock.Exclusion.{mutual_exclusion, progress}
use cornelich.Util.StopBit.{write, read}
use cornelich.Util.StopBit.RoundTrip.{read-write}

read-write_example : read (write 300 ++ (7 ∷ [])) ≡ ok (300, 7 ∷ [])
read-write_example = read-write 300 (7 ∷ []) (omega arith)

abbrev fields : List Field
fields = Field.boolean true ∷ Field.raw 4 70000 ∷ Field.chars (104 ∷ 105 ∷ []) ∷ []

read_fields-write_fields_example :
    read_fields (map format_of fields) (write_fields fields ++ (9 ∷ [])) ≡ ok (fields, 9 ∷ [])
read_fields-write_fields_example =
    read_fields-write_fields fields (9 ∷ []) (tt, (omega arith, (omega arith, tt)))

-- A full cache of two entries, and a call with a third key.
abbrev two : Cache ℕ ℕ
two = record { capacity = 2; container = (1, 10) ∷ (2, 20) ∷ [] }

abbrev after : Cache ℕ ℕ
after = record { capacity = 2; container = (2, 20) ∷ (3, 30) ∷ [] }

abbrev not_zero : ℕ → Bool
not_zero v = not (v == 0)

abbrev provider : ℕ → ℕ → Outcome (ℕ × ℕ)
provider k s = ok (s + 1, k + 27)

two-IsValid : IsValid ℕ_discrete not_zero two
unfolding find ℕ_discrete
two-IsValid = record {
  positive = omega arith;
  bounded = omega arith;
  distinct = (refl, (refl, tt));
  validated = λ q w h. ground arith;
}

third : get ℕ_discrete not_zero two 3 provider 0 ≡ ok (1, after, 30)
unfolding get find store pop_front ℕ_discrete
third = refl

get-IsValid_example : IsValid ℕ_discrete not_zero after
get-IsValid_example = get-IsValid ℕ_discrete not_zero two 3 provider 0 1 after 30 two-IsValid third

get_again_example : get ℕ_discrete {S = ℕ} not_zero after 3 (λ k s. undefined) 5 ≡ ok (5, after, 30)
get_again_example =
    get_again ℕ_discrete not_zero two 3 provider 0 1 after 30 (λ k s. undefined) 5 two-IsValid third
      refl

other_kept : victim two ≢ some 2
unfolding victim
other_kept = λ h. ground arith

get-find_ne_example : find ℕ_discrete 2 after.container ≡ find ℕ_discrete 2 two.container
get-find_ne_example =
    get-find_ne ℕ_discrete not_zero two 3 provider 2 0 1 after 30 two-IsValid (omega arith)
      (inr other_kept) third

get-ne-undefined_example : get ℕ_discrete not_zero two 3 provider 0 ≢ undefined
get-ne-undefined_example =
    get-ne-undefined ℕ_discrete not_zero two 3 provider 0 two-IsValid (λ h. cc)

-- Thread 4 takes the lock while thread 7 waits.
abbrev one_waits : System
one_waits = record { flag = false; pc = at (at initial.pc 7 (locking 1)) 4 (locking 1) }

abbrev one_inside : System
one_inside = record { flag = true; pc = at one_waits.pc 4 inside }

one_waits-Reach : Reach one_waits
unfolding ℕ_discrete
one_waits-Reach = later (later start (pick 7 begin_lock)) (pick 4 begin_lock)

one_inside-Reach : Reach one_inside
unfolding ℕ_discrete
one_inside-Reach = later one_waits-Reach (pick 4 acquire)

seven_waits : one_inside.pc 7 ≡ locking 1
unfolding ℕ_discrete
seven_waits = refl

four_inside : one_inside.pc 4 ≡ inside
unfolding ℕ_discrete
four_inside = refl

mutual_exclusion_example : ◌≡◌ {A = ℕ} 4 4
mutual_exclusion_example = mutual_exclusion one_inside-Reach 4 4 four_inside four_inside

progress_example :
    Step one_inside (record { flag = true; pc = at one_inside.pc 7 inside })
    ⊎ ((j : ℕ) × Step one_inside (record { flag = false; pc = at one_inside.pc j outside }))
progress_example = progress one_inside-Reach 7 1 seven_waits
