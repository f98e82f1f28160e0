-- ===== src/VanillaDate/Text.antt =====
-- The text of a day, and the day that it is read as.
use cornelich.Common.{
  ℕ, suc, ◌+◌, ◌^◌, ◌≤◌, ◌<◌, ◌≡◌, sym, ap, ◌∙◌, arith, true, List, [], ◌++◌, some, length,
  length-append, take, drop, take-append, drop-append,
}
use mathlib.Core.Path.{subst}
use mathlib.Core.List.{append_assoc, append-nil}
use cornelich.Files.{Name}
use cornelich.VanillaDate.{DateLibrary, parse_date, print_day}

-- The days of the years from 1970 to 2262, which nanoseconds in an std::int64_t count.
abbrev pub last_day : ℕ
last_day = 106751

-- What is relied on: a day of that range has a date that is taken for that day again, and numbers of
-- up to four digits are printed in their width and read back.
pub record DateLaws (lib : DateLibrary) : Type 0 where
  pub epoch : lib.day_number 1970 1 1 ≡ 0
  pub civil-is_ok :
      (z : ℕ) → z ≤ last_day → lib.is_ok (lib.civil z).0 (lib.civil z).1 (lib.civil z).2 ≡ true
  pub civil-day_number :
      (z : ℕ) → z ≤ last_day → lib.day_number (lib.civil z).0 (lib.civil z).1 (lib.civil z).2 ≡ z
  pub civil_digits :
      (z : ℕ)
      → z ≤ last_day
      → ((lib.civil z).0 < 10 ^ 4) × ((lib.civil z).1 < 10 ^ 2) × ((lib.civil z).2 < 10 ^ 2)
  pub length-print_padded :
      (w n : ℕ) → w ≤ 3 → n < 10 ^ suc w → length (lib.print_padded (suc w) n) ≡ suc w
  pub qi_int-print_padded :
      (w n : ℕ) → w ≤ 3 → n < 10 ^ suc w → lib.qi_int (lib.print_padded (suc w) n) ≡ some n

pub take_exact {ℓ} : {A : Type ℓ} (n : ℕ) (xs ys : List A) → length xs ≡ n → take n (xs ++ ys) ≡ xs
take_exact n xs ys h = subst (λ k. take k (xs ++ ys) ≡ xs) h (take-append xs ys)

pub drop_exact {ℓ} : {A : Type ℓ} (n : ℕ) (xs ys : List A) → length xs ≡ n → drop n (xs ++ ys) ≡ ys
drop_exact n xs ys h = subst (λ k. drop k (xs ++ ys) ≡ ys) h (drop-append xs ys)

pub take_whole {ℓ} : {A : Type ℓ} (n : ℕ) (xs : List A) → length xs ≡ n → take n xs ≡ xs
take_whole n xs h = ap (take n) (sym (append-nil xs)) ∙ take_exact n xs [] h

-- Two pieces in front.
pub drop_two {ℓ} :
    {A : Type ℓ} (n k : ℕ) (xs ys zs : List A)
    → length xs ≡ n
    → length ys ≡ k
    → drop (n + k) (xs ++ (ys ++ zs)) ≡ zs
drop_two n k xs ys zs h h' =
    subst (λ l. drop (n + k) l ≡ zs) (append_assoc xs ys zs)
      (drop_exact (n + k) (xs ++ ys) zs (omega (arith, length-append xs ys)))

parse_date_parts :
    (lib : DateLibrary) (t : Name) (y m d : ℕ)
    → lib.qi_int (take 4 t) ≡ some y
    → lib.qi_int (take 2 (drop 4 t)) ≡ some m
    → lib.qi_int (take 2 (drop 6 t)) ≡ some d
    → lib.is_ok y m d ≡ true
    → parse_date lib t ≡ some (lib.day_number y m d)
unfolding parse_date
parse_date_parts lib t y m d hy hm hd h = ground arith

-- A text of the pieces of a date.
pieces :
    (a b c rest : Name)
    → length a ≡ 4
    → length b ≡ 2
    → length c ≡ 2
    → (take 4 ((a ++ (b ++ c)) ++ rest) ≡ a)
      × (take 2 (drop 4 ((a ++ (b ++ c)) ++ rest)) ≡ b)
      × (take 2 (drop 6 ((a ++ (b ++ c)) ++ rest)) ≡ c)
pieces a b c rest ha hb hc =
    let shape : (a ++ (b ++ c)) ++ rest ≡ a ++ (b ++ (c ++ rest)) = simp append_assoc in
    (
      ap (take 4) shape ∙ take_exact 4 a (b ++ (c ++ rest)) ha,
      ap (λ l. take 2 (drop 4 l)) shape
          ∙ ap (take 2) (drop_exact 4 a (b ++ (c ++ rest)) ha)
          ∙ take_exact 2 b (c ++ rest) hb,
      ap (λ l. take 2 (drop 6 l)) shape
          ∙ ap (take 2) (drop_two 4 2 a b (c ++ rest) ha hb)
          ∙ take_exact 2 c rest hc,
    )

module _ (lib : DateLibrary) (laws : DateLaws lib) where
  open laws use {
    civil-is_ok, civil-day_number, civil_digits, length-print_padded, qi_int-print_padded,
  }

  pub length-print_day : (z : ℕ) → z ≤ last_day → length (print_day lib z) ≡ 8
  unfolding print_day
  length-print_day z h =
      let (hy, hm, hd) = civil_digits z h in
      let y = lib.print_padded 4 (lib.civil z).0 in
      let m = lib.print_padded 2 (lib.civil z).1 in
      let d = lib.print_padded 2 (lib.civil z).2 in
      omega (
        arith,
        length-append {0} y (m ++ d),
        length-append {0} m d,
        length-print_padded 3 (lib.civil z).0 (omega arith) hy,
        length-print_padded 1 (lib.civil z).1 (omega arith) hm,
        length-print_padded 1 (lib.civil z).2 (omega arith) hd,
      )

  pub parse_date-print_day :
      (z : ℕ) (rest : Name) → z ≤ last_day → parse_date lib (print_day lib z ++ rest) ≡ some z
  unfolding print_day
  parse_date-print_day z rest h =
      let (hy, hm, hd) = civil_digits z h in
      let (ty, tm, td) =
        pieces (lib.print_padded 4 (lib.civil z).0) (lib.print_padded 2 (lib.civil z).1)
          (lib.print_padded 2 (lib.civil z).2) rest
          (length-print_padded 3 (lib.civil z).0 (omega arith) hy)
          (length-print_padded 1 (lib.civil z).1 (omega arith) hm)
          (length-print_padded 1 (lib.civil z).2 (omega arith) hd) in
      parse_date_parts lib _ (lib.civil z).0 (lib.civil z).1 (lib.civil z).2
        (ap lib.qi_int ty ∙ qi_int-print_padded 3 (lib.civil z).0 (omega arith) hy)
        (ap lib.qi_int tm ∙ qi_int-print_padded 1 (lib.civil z).1 (omega arith) hm)
        (ap lib.qi_int td ∙ qi_int-print_padded 1 (lib.civil z).2 (omega arith) hd)
        (civil-is_ok z h)
      ∙ ap some (civil-day_number z h)
