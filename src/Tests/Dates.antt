-- ===== src/Tests/Dates.antt =====
-- Runs of the formatters of dates and of their cache.
use cornelich.Common.{
  ◌≤◌, ℕ, zero, suc, ◌+◌, ◌-◌, ◌*◌, ◌/◌, ◌%◌, ◌^◌, ◌<◌, ◌≡◌, refl, ap, arith, true, [], ◌∷◌, Option,
  none, some, length, map, ok,
}
use native.Mathlib.Nat.{mod-lt, div-add-mod, one-le-pow, add-sub_cancel_left}
use cornelich.Files.{Name}
use cornelich.Settings.{CycleFormatter, yyyymmddhhmm}
use cornelich.VanillaDate.{DateLibrary, cycle_from_date, date_from_cycle_impl}
use cornelich.VanillaDate.Text.{DateLaws}
use cornelich.VanillaDate.RoundTrip.{IsNamed, cycle_from_date-date_from_cycle_impl}
use cornelich.VanillaDate.Cached.{no_nodes, answers}
use cornelich.VanillaDate.Cached.Laws.{IsSound, answers-map}

-- Decimal numbers of a width.
unfoldable digits : ℕ → ℕ → Name
digits zero n = []
digits (suc w) n = (b'0' + n / 10 ^ w) ∷ digits w (n % 10 ^ w)

unfoldable value : Name → ℕ
value [] = 0
value (d ∷ ds) = (d - b'0') * 10 ^ length ds + value ds

unfoldable read_digits : Name → Option ℕ
read_digits [] = none
read_digits (d ∷ ds) = some (value (d ∷ ds))

length-digits : (w n : ℕ) → length (digits w n) ≡ w
unfolding digits
length-digits zero n = refl
length-digits (suc w) n = ap suc (length-digits w (n % 10 ^ w))

value-digits : (w n : ℕ) → n < 10 ^ w → value (digits w n) ≡ n
unfolding digits value
value-digits zero n h = omega arith
value-digits (suc w) n h =
    let whole : (b'0' + n / 10 ^ w - 48) * 10 ^ w + n % 10 ^ w ≡ n =
      rw (add-sub_cancel_left 48 (n / 10 ^ w)) (omega (arith, div-add-mod n (10 ^ w))) in
    rw
      (
        length-digits w (n % 10 ^ w),
        value-digits w (n % 10 ^ w) (mod-lt n (one-le-pow w 10 (omega arith))),
      )
      whole

-- A calendar of years of 90 months, each of 90 days.
abbrev library : DateLibrary
library = record {
  is_ok = λ y m d. true;
  day_number = λ y m d. (y - 1970) * 8100 + (m - 1) * 90 + (d - 1);
  civil = λ z. (1970 + z / 8100, 1 + z / 90 % 90, 1 + z % 90);
  print_padded = digits;
  qi_int = read_digits;
}

read_digits-digits : (w n : ℕ) → w ≤ 3 → n < 10 ^ suc w → read_digits (digits (suc w) n) ≡ some n
unfolding digits read_digits
read_digits-digits w n _ h = ap some (value-digits (suc w) n h)

library_laws : DateLaws library
library_laws = record {
  epoch = refl;
  civil-is_ok = λ z h. refl;
  civil-day_number = λ z h. omega arith;
  civil_digits = λ z h. (omega arith, omega arith, omega arith);
  length-print_padded = λ w n _ h. length-digits (suc w) n;
  qi_int-print_padded = read_digits-digits;
}

-- Cycles of half an hour.
abbrev half_hours : CycleFormatter
half_hours = yyyymmddhhmm 1800000

half_hours-IsNamed : IsNamed half_hours 12345
half_hours-IsNamed = record {
  cycle_word = omega arith;
  length_word = omega arith;
  some_length = omega arith;
  whole = refl;
  in_range = omega arith;
}

cycle_from_date-date_from_cycle_impl_example :
    cycle_from_date library half_hours (date_from_cycle_impl library half_hours 12345) ≡ ok 12345
cycle_from_date-date_from_cycle_impl_example =
    cycle_from_date-date_from_cycle_impl library library_laws half_hours 12345 half_hours-IsNamed

-- The hash of two of these cycles is the same.
abbrev hash : ℕ → ℕ
hash c = c % 4

no_nodes-IsSound : IsSound library hash half_hours no_nodes
no_nodes-IsSound = record { texts = λ i node e. cc }

answers-map_example :
    answers library hash half_hours (5 ∷ 9 ∷ 5 ∷ 6 ∷ []) no_nodes
    ≡ map (date_from_cycle_impl library half_hours) (5 ∷ 9 ∷ 5 ∷ 6 ∷ [])
answers-map_example = answers-map library hash half_hours (5 ∷ 9 ∷ 5 ∷ 6 ∷ []) no_nodes-IsSound
