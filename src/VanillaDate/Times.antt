-- ===== src/VanillaDate/Times.antt =====
-- The numbers on the way from a cycle to a time, and from the parts of a date to a cycle.
use cornelich.Common.{
  ℕ, ◌*◌, ◌/◌, ◌%◌, ◌^◌, ◌≤◌, ◌<◌, ◌≡◌, ap, ◌∙◌, arith, false, ◌==◌, if◌then◌else◌, some, length,
  take, drop, ok, undefined,
}
use cornelich.Common.Words.{slt32, widen, narrow, add64, sub64, mul64, sdiv64, floor_div64}
use native.Mathlib.Nat.{mul-div_cancel}
use cornelich.Files.{Name}
use cornelich.VanillaDate.{
  DateLibrary, day_ns, hour_ns, minute_ns, second_ns, parse_date, get_epoch_seconds,
  cycle_of_timestamp, time_of_cycle, cycle_from_yyyymmdd, cycle_from_yyyymmddhh,
  cycle_from_yyyymmddhhmm,
}
use cornelich.VanillaDate.Text.{DateLaws, last_day}

-- The milliseconds since the epoch whose nanoseconds fit an std::int64_t.
abbrev pub last_ms : ℕ
last_ms = 9223372036854

-- A cycle that starts `u` seconds after the epoch.
pub record StartsAt (c L u : ℕ) : Type 0 where
  pub product : c * L ≡ 1000 * u
  pub cycle_word : c < 2 ^ 31
  pub length_word : L < 2 ^ 31
  pub some_length : 0 < L
  pub in_range : c * L ≤ last_ms

widen_small : (a : ℕ) → a < 2 ^ 31 → widen a ≡ a
widen_small a h = ground arith

time_step :
    (x u : ℕ)
    → x ≡ 1000 * u
    → x ≤ last_ms
    → mul64 (sdiv64 (x % 2 ^ 64) 1000) second_ns ≡ u * second_ns
time_step x u e h = ground arith

pub time_of_cycle_lem : {c L u : ℕ} → StartsAt c L u → time_of_cycle c L ≡ u * second_ns
unfolding time_of_cycle
time_of_cycle_lem {c} {L} {u} s =
    ap (λ w. mul64 (sdiv64 (mul64 c w) 1000) second_ns) (widen_small L s.length_word)
    ∙ time_step (c * L) u s.product s.in_range

quotient_step :
    (x L c : ℕ)
    → x ≤ last_ms
    → L < 2 ^ 31
    → x / L ≡ c
    → c < 2 ^ 31
    → narrow (sdiv64 (x % 2 ^ 64) L) ≡ c
quotient_step x L c h l e w = ground arith

pub cycle_of_timestamp_lem : {c L u : ℕ} → StartsAt c L u → cycle_of_timestamp u L ≡ ok c
unfolding cycle_of_timestamp
cycle_of_timestamp_lem {c} {L} {u} s =
    let milliseconds : u * 1000 ≡ c * L = omega (arith, s.product) in
    let exact : c * L / L ≡ c = mul-div_cancel c s.some_length in
    let value : narrow (sdiv64 (mul64 u 1000) (widen L)) ≡ c =
      ap (λ w. narrow (sdiv64 (mul64 u 1000) w)) (widen_small L s.length_word)
      ∙ ap (λ x. narrow (sdiv64 (x % 2 ^ 64) L)) milliseconds
      ∙ quotient_step (c * L) L c s.in_range s.length_word exact s.cycle_word in
    nonzero (narrow (sdiv64 (mul64 u 1000) (widen L))) value
  where
    nonzero : (r : ℕ) → r ≡ c → (if L == 0 then undefined else ok r) ≡ ok c
    nonzero r e = ground (arith, s.some_length)

abbrev seconds_from : ℕ → ℕ → ℕ
seconds_from first ts =
    sdiv64
      (add64 (mul64 (sub64 (sdiv64 ts day_ns) first) day_ns)
        (sub64 ts (mul64 (sdiv64 ts day_ns) day_ns)))
      second_ns

seconds_from_epoch : (t : ℕ) → t * 1000 ≤ last_ms → seconds_from 0 (t * second_ns) ≡ t
seconds_from_epoch t h = ground arith

module _ (lib : DateLibrary) (laws : DateLaws lib) where
  get_epoch_seconds_lem : (t : ℕ) → t * 1000 ≤ last_ms → get_epoch_seconds lib (t * second_ns) ≡ t
  unfolding get_epoch_seconds
  get_epoch_seconds_lem t h =
      ap (λ d. seconds_from d (t * second_ns)) laws.epoch ∙ seconds_from_epoch t h

-- The day of a time, and what is left of it.
pub day_of : (u : ℕ) → u * 1000 ≤ last_ms → floor_div64 (u * second_ns) day_ns ≡ u / 86400
day_of u h = ground arith

pub tod_of :
    (u : ℕ)
    → u * 1000 ≤ last_ms
    → sub64 (u * second_ns) (mul64 (u / 86400) day_ns) ≡ u % 86400 * second_ns
tod_of u h = ground arith

pub short_day : (u : ℕ) → u * 1000 ≤ last_ms → u / 86400 ≤ last_day
short_day u h = omega arith

pub whole_days :
    (u : ℕ) → u * 1000 ≤ last_ms → u % 86400 ≡ 0 → mul64 (u / 86400) day_ns ≡ u * second_ns
whole_days u h e = ground arith

pub whole_hours :
    (u hour : ℕ)
    → u * 1000 ≤ last_ms
    → u % 3600 ≡ 0
    → hour ≡ u % 86400 / 3600
    → mul64 (add64 (mul64 (u / 86400) 24) (widen hour)) hour_ns ≡ u * second_ns
whole_hours u hour h e d = ground arith

pub whole_minutes :
    (u hour minute : ℕ)
    → u * 1000 ≤ last_ms
    → u % 60 ≡ 0
    → hour ≡ u % 86400 / 3600
    → minute ≡ u % 3600 / 60
    → mul64 (add64 (mul64 (add64 (mul64 (u / 86400) 24) (widen hour)) 60) (widen minute)) minute_ns
      ≡ u * second_ns
whole_minutes u hour minute h e d d' = ground arith

module _ (lib : DateLibrary) (laws : DateLaws lib) (L : ℕ) where
  -- The readers on a text whose parts are known.
  pub read_day :
      (t : Name) (dp u : ℕ)
      → length t ≡ 8
      → parse_date lib t ≡ some dp
      → mul64 dp day_ns ≡ u * second_ns
      → u * 1000 ≤ last_ms
      → cycle_from_yyyymmdd lib L t ≡ cycle_of_timestamp u L
  unfolding cycle_from_yyyymmdd
  read_day t dp u hl hp ht hu =
      let at : get_epoch_seconds lib (mul64 dp day_ns) ≡ u =
        ap (get_epoch_seconds lib) ht ∙ get_epoch_seconds_lem lib laws u hu in
      ground arith

  pub read_hour :
      (t : Name) (dp h u : ℕ)
      → length t ≡ 10
      → parse_date lib t ≡ some dp
      → lib.qi_int (take 2 (drop 8 t)) ≡ some h
      → h < 24
      → mul64 (add64 (mul64 dp 24) (widen h)) hour_ns ≡ u * second_ns
      → u * 1000 ≤ last_ms
      → cycle_from_yyyymmddhh lib L t ≡ cycle_of_timestamp u L
  unfolding cycle_from_yyyymmddhh
  read_hour t dp h u hl hp hh small ht hu =
      let at : get_epoch_seconds lib (mul64 (add64 (mul64 dp 24) (widen h)) hour_ns) ≡ u =
        ap (get_epoch_seconds lib) ht ∙ get_epoch_seconds_lem lib laws u hu in
      let fine : slt32 24 h ≡ false = ground arith in rw (hl, hp, hh, fine, at)

  pub read_minute :
      (t : Name) (dp h m u : ℕ)
      → length t ≡ 12
      → parse_date lib t ≡ some dp
      → lib.qi_int (take 2 (drop 8 t)) ≡ some h
      → lib.qi_int (take 2 (drop 10 t)) ≡ some m
      → h < 24
      → m < 60
      → mul64 (add64 (mul64 (add64 (mul64 dp 24) (widen h)) 60) (widen m)) minute_ns ≡ u * second_ns
      → u * 1000 ≤ last_ms
      → cycle_from_yyyymmddhhmm lib L t ≡ cycle_of_timestamp u L
  unfolding cycle_from_yyyymmddhhmm
  read_minute t dp h m u hl hp hh hm small small' ht hu =
      let at : get_epoch_seconds lib
            (mul64 (add64 (mul64 (add64 (mul64 dp 24) (widen h)) 60) (widen m)) minute_ns)
          ≡ u =
        ap (get_epoch_seconds lib) ht ∙ get_epoch_seconds_lem lib laws u hu in
      let fine : slt32 24 h ≡ false = ground arith in
      let fine' : slt32 60 m ≡ false = ground arith in rw (hl, hp, hh, fine, hm, fine', at)
