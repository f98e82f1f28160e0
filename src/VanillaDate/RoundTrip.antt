-- ===== src/VanillaDate/RoundTrip.antt =====
-- The name of a cycle's folder, and the cycle that it is read as.
use cornelich.Common.{
  ℕ, ◌*◌, ◌/◌, ◌%◌, ◌^◌, ◌≤◌, ◌<◌, ◌≡◌, refl, ap, ◌∙◌, arith, [], ◌++◌, length, length-append, take,
  ok,
}
use cornelich.Common.Words.{sub64, mul64, floor_div64}
use mathlib.Core.Path.{ap₂}
use native.Mathlib.Nat.{div-add-mod, mul-mod_right}
use cornelich.Files.{Name}
use cornelich.Settings.{CycleFormatter, yyyymmdd, yyyymmddhh, yyyymmddhhmm}
use cornelich.VanillaDate.{
  DateLibrary, day_ns, hour_ns, minute_ns, second_ns, time_of_cycle, print_day, cycle_from_yyyymmdd,
  cycle_from_yyyymmddhh, cycle_from_yyyymmddhhmm, cycle_from_date, date_from_yyyymmdd,
  date_from_yyyymmddhh, date_from_yyyymmddhhmm, date_from_cycle_impl,
}
use cornelich.VanillaDate.Text.{
  DateLaws, length-print_day, parse_date-print_day, take_exact, take_whole, drop_exact, drop_two,
}
use mathlib.Core.List.{append-nil}
use cornelich.VanillaDate.Times.{
  last_ms, StartsAt, time_of_cycle_lem, cycle_of_timestamp_lem, day_of, tod_of, short_day,
  whole_days, whole_hours, whole_minutes, read_day, read_hour, read_minute,
}

-- The milliseconds that a formatter's names tell apart, and its `m_cycle_length`.
abbrev pub resolution : CycleFormatter → ℕ
resolution (yyyymmdd L) = 86400000
resolution (yyyymmddhh L) = 3600000
resolution (yyyymmddhhmm L) = 60000

abbrev pub length_of : CycleFormatter → ℕ
length_of (yyyymmdd L) = L
length_of (yyyymmddhh L) = L
length_of (yyyymmddhhmm L) = L

-- A cycle that begins where a name can say, with the times that nanoseconds count.
pub record IsNamed (f : CycleFormatter) (c : ℕ) : Type 0 where
  pub cycle_word : c < 2 ^ 31
  pub length_word : length_of f < 2 ^ 31
  pub some_length : 0 < length_of f
  pub whole : length_of f % resolution f ≡ 0
  pub in_range : c * length_of f ≤ last_ms

-- The start of such a cycle, in seconds.
start_of : CycleFormatter → ℕ → ℕ
start_of f c = c * length_of f / 1000

whole_product : (c L k : ℕ) → L % k ≡ 0 → c * L % k ≡ 0
whole_product c L k h =
    let multiple : L ≡ k * (L / k) = omega (arith, div-add-mod L k) in
    let product : c * L ≡ k * (c * (L / k)) = ap (λ l. c * l) multiple ∙ omega arith in
    ap (λ x. x % k) product ∙ mul-mod_right k (c * (L / k))

starts :
    (f : CycleFormatter) (c : ℕ)
    → IsNamed f c
    → c * length_of f % 1000 ≡ 0
    → StartsAt c (length_of f) (start_of f c)
unfolding start_of
starts f c n e = record {
  product = omega arith;
  cycle_word = n.cycle_word;
  length_word = n.length_word;
  some_length = n.some_length;
  in_range = n.in_range;
}

module _ (lib : DateLibrary) where
  -- The names, as texts of a time.
  abbrev hour_text : ℕ → Name
  hour_text ts =
      print_day lib (floor_div64 ts day_ns)
      ++ lib.print_padded 2 (sub64 ts (mul64 (floor_div64 ts day_ns) day_ns) / hour_ns)

  abbrev minute_text : ℕ → Name
  minute_text ts =
      let tod : ℕ = sub64 ts (mul64 (floor_div64 ts day_ns) day_ns) in
      print_day lib (floor_div64 ts day_ns)
      ++ (lib.print_padded 2 (tod / hour_ns) ++ lib.print_padded 2 (tod % hour_ns / minute_ns))

  tod_at :
      (u : ℕ)
      → u * 1000 ≤ last_ms
      → sub64 (u * second_ns) (mul64 (floor_div64 (u * second_ns) day_ns) day_ns)
        ≡ u % 86400 * second_ns
  tod_at u range =
      ap (λ d. sub64 (u * second_ns) (mul64 d day_ns)) (day_of u range) ∙ tod_of u range

  hour_text_lem :
      (u : ℕ)
      → u * 1000 ≤ last_ms
      → hour_text (u * second_ns)
        ≡ print_day lib (u / 86400) ++ lib.print_padded 2 (u % 86400 / 3600)
  hour_text_lem u range =
      let hour : sub64 (u * second_ns) (mul64 (floor_div64 (u * second_ns) day_ns) day_ns) / hour_ns
          ≡ u % 86400 / 3600 =
        ap (λ t. t / hour_ns) (tod_at u range) ∙ omega arith in
      ap₂ (λ d h. print_day lib d ++ lib.print_padded 2 h) (day_of u range) hour

  minute_text_lem :
      (u : ℕ)
      → u * 1000 ≤ last_ms
      → minute_text (u * second_ns)
        ≡ print_day lib (u / 86400)
          ++ (lib.print_padded 2 (u % 86400 / 3600) ++ lib.print_padded 2 (u % 3600 / 60))
  minute_text_lem u range =
      let hour : sub64 (u * second_ns) (mul64 (floor_div64 (u * second_ns) day_ns) day_ns) / hour_ns
          ≡ u % 86400 / 3600 =
        ap (λ t. t / hour_ns) (tod_at u range) ∙ omega arith in
      let minute : sub64 (u * second_ns) (mul64 (floor_div64 (u * second_ns) day_ns) day_ns)
            % hour_ns
            / minute_ns
          ≡ u % 3600 / 60 =
        ap (λ t. t % hour_ns / minute_ns) (tod_at u range) ∙ omega arith in
      ap₂ (λ d (t : Name). print_day lib d ++ t) (day_of u range)
        (ap₂ (λ h m. lib.print_padded 2 h ++ lib.print_padded 2 m) hour minute)

module _ (lib : DateLibrary) (laws : DateLaws lib) {c L u : ℕ} (s : StartsAt c L u) where
  range_of : u * 1000 ≤ last_ms
  range_of = omega (arith, s.product, s.in_range)

  day_round : u % 86400 ≡ 0 → cycle_from_yyyymmdd lib L (date_from_yyyymmdd lib L c) ≡ ok c
  unfolding date_from_yyyymmdd
  day_round whole =
      let short = short_day u range_of in
      let at : floor_div64 (time_of_cycle c L) day_ns ≡ u / 86400 =
        ap (λ t. floor_div64 t day_ns) (time_of_cycle_lem s) ∙ day_of u range_of in
      ap (λ z. cycle_from_yyyymmdd lib L (print_day lib z)) at
      ∙ read_day lib laws L (print_day lib (u / 86400)) (u / 86400) u
          (length-print_day lib laws (u / 86400) short)
          (rw append-nil at (parse_date-print_day lib laws (u / 86400) [] short))
          (whole_days u range_of whole) range_of
      ∙ cycle_of_timestamp_lem s

  hour_round : u % 3600 ≡ 0 → cycle_from_yyyymmddhh lib L (date_from_yyyymmddhh lib L c) ≡ ok c
  unfolding date_from_yyyymmddhh
  hour_round whole =
      let short = short_day u range_of in
      let h : ℕ = u % 86400 / 3600 in
      let D = print_day lib (u / 86400) in
      let H = lib.print_padded 2 h in
      let long_D : length D ≡ 8 = length-print_day lib laws (u / 86400) short in
      let long_H : length H ≡ 2 = laws.length-print_padded 1 h (omega arith) (omega arith) in
      ap (λ t. cycle_from_yyyymmddhh lib L (hour_text lib t)) (time_of_cycle_lem s)
      ∙ ap (cycle_from_yyyymmddhh lib L) (hour_text_lem lib u range_of)
      ∙ read_hour lib laws L (D ++ H) (u / 86400) h u (omega (arith, length-append {0} D H))
          (parse_date-print_day lib laws (u / 86400) H short)
          (ap (λ t. lib.qi_int (take 2 t)) (drop_exact 8 D H long_D)
            ∙ ap lib.qi_int (take_whole 2 H long_H)
            ∙ laws.qi_int-print_padded 1 h (omega arith) (omega arith))
          (omega arith) (whole_hours u h range_of whole refl) range_of
      ∙ cycle_of_timestamp_lem s

  minute_round : u % 60 ≡ 0 → cycle_from_yyyymmddhhmm lib L (date_from_yyyymmddhhmm lib L c) ≡ ok c
  unfolding date_from_yyyymmddhhmm
  minute_round whole =
      let short = short_day u range_of in
      let h : ℕ = u % 86400 / 3600 in
      let m : ℕ = u % 3600 / 60 in
      let D = print_day lib (u / 86400) in
      let H = lib.print_padded 2 h in
      let M = lib.print_padded 2 m in
      let long_D : length D ≡ 8 = length-print_day lib laws (u / 86400) short in
      let long_H : length H ≡ 2 = laws.length-print_padded 1 h (omega arith) (omega arith) in
      let long_M : length M ≡ 2 = laws.length-print_padded 1 m (omega arith) (omega arith) in
      ap (λ t. cycle_from_yyyymmddhhmm lib L (minute_text lib t)) (time_of_cycle_lem s)
      ∙ ap (cycle_from_yyyymmddhhmm lib L) (minute_text_lem lib u range_of)
      ∙ read_minute lib laws L (D ++ (H ++ M)) (u / 86400) h m u
          (omega (arith, length-append {0} D (H ++ M), length-append {0} H M))
          (parse_date-print_day lib laws (u / 86400) (H ++ M) short)
          (ap (λ t. lib.qi_int (take 2 t)) (drop_exact 8 D (H ++ M) long_D)
            ∙ ap lib.qi_int (take_exact 2 H M long_H)
            ∙ laws.qi_int-print_padded 1 h (omega arith) (omega arith))
          (ap (λ t. lib.qi_int (take 2 t)) (drop_two 8 2 D H M long_D long_H)
            ∙ ap lib.qi_int (take_whole 2 M long_M)
            ∙ laws.qi_int-print_padded 1 m (omega arith) (omega arith))
          (omega arith) (omega arith) (whole_minutes u h m range_of whole refl refl) range_of
      ∙ cycle_of_timestamp_lem s

module _ (lib : DateLibrary) (laws : DateLaws lib) where
  -- If dates are printed and parsed as `DateLaws` says, the name of the folder of a cycle whose
  -- length is a whole number of days, hours or minutes, as its formatter tells apart, is read
  -- back as that cycle, for the cycles that begin between the years 1970 and 2262.
  pub cycle_from_date-date_from_cycle_impl :
      (f : CycleFormatter) (c : ℕ)
      → IsNamed f c
      → cycle_from_date lib f (date_from_cycle_impl lib f c) ≡ ok c
  unfolding cycle_from_date date_from_cycle_impl start_of
  cycle_from_date-date_from_cycle_impl (yyyymmdd L) c n =
      let whole = whole_product c L 86400000 n.whole in
      day_round lib laws (starts (yyyymmdd L) c n (omega arith)) (omega arith)
  cycle_from_date-date_from_cycle_impl (yyyymmddhh L) c n =
      let whole = whole_product c L 3600000 n.whole in
      hour_round lib laws (starts (yyyymmddhh L) c n (omega arith)) (omega arith)
  cycle_from_date-date_from_cycle_impl (yyyymmddhhmm L) c n =
      let whole = whole_product c L 60000 n.whole in
      minute_round lib laws (starts (yyyymmddhhmm L) c n (omega arith)) (omega arith)
