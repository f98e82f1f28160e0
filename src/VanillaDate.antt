-- ===== src/VanillaDate.antt =====
-- cornelich/vanilla_date.h, vanilla_date.cpp: the names of the folders of cycles. A time is an
-- std::int64_t of nanoseconds since the epoch, as std::chrono::system_clock counts; a day is an
-- std::int64_t of days since the epoch.
pub mod Text
pub mod Times
pub mod RoundTrip
pub mod Cached
use cornelich.Common.{
  ℕ, ◌+◌, ◌-◌, ◌*◌, ◌/◌, ◌%◌, ◌^◌, Bool, ◌==◌, if◌then◌else◌, ◌++◌, Option, none, some, length,
  take, drop, Outcome, ok, undefined,
}
use cornelich.Common.Words.{
  minus_one32, slt32, widen, narrow, add64, sub64, mul64, sdiv64, floor_div64,
}
use cornelich.Files.{Name}
use cornelich.Settings.{CycleFormatter, yyyymmdd, yyyymmddhh, yyyymmddhhmm}

-- What the conversions use of other libraries.
pub record DateLibrary : Type 0 where
  -- `(year(y)/m/d).ok()` of contrib/date, for std::int32_t
  pub is_ok : ℕ → ℕ → ℕ → Bool
  -- the `day_point` of `year(y)/m/d`
  pub day_number : ℕ → ℕ → ℕ → ℕ
  -- `year_month_day` of a day
  pub civil : ℕ → ℕ × ℕ × ℕ
  -- `karma::right_align(width, '0')` of a number that is not negative
  pub print_padded : ℕ → ℕ → Name
  -- `util::parse_number(begin, end, target)`: the number at the front of a text, if it succeeds
  pub qi_int : Name → Option ℕ

abbrev pub second_ns : ℕ
second_ns = 1000000000

abbrev pub minute_ns : ℕ
minute_ns = 60000000000

abbrev pub hour_ns : ℕ
hour_ns = 3600000000000

abbrev pub day_ns : ℕ
day_ns = 86400000000000

-- `unix_timestamp * 1000 / m_cycle_length` as an std::int32_t
unfoldable pub cycle_of_timestamp : ℕ → ℕ → Outcome ℕ
cycle_of_timestamp unix_timestamp cycle_length =
    if cycle_length == 0
    then undefined
    else ok (narrow (sdiv64 (mul64 unix_timestamp 1000) (widen cycle_length)))

-- `ts` at the start of `date_from_cycle_impl`
unfoldable pub time_of_cycle : ℕ → ℕ → ℕ
time_of_cycle cycle cycle_length = mul64 (sdiv64 (mul64 cycle (widen cycle_length)) 1000) second_ns

module _ (lib : DateLibrary) where
  -- `parse_date(date, dp)`: the day, none for false
  unfoldable pub parse_date : Name → Option ℕ
  parse_date date = elim (lib.qi_int (take 4 date)) [
    | none ↦ none
    | some y ↦ elim (lib.qi_int (take 2 (drop 4 date))) [
      | none ↦ none
      | some m ↦ elim (lib.qi_int (take 2 (drop 6 date))) [
        | none ↦ none
        | some d ↦ if lib.is_ok y m d then some (lib.day_number y m d) else none
      ]
    ]
  ]

  unfoldable pub get_epoch_seconds : ℕ → ℕ
  get_epoch_seconds ts =
      let today : ℕ = sdiv64 ts day_ns in
      let this_morning : ℕ = mul64 today day_ns in
      let days_since_epoch : ℕ = sub64 today (lib.day_number 1970 1 1) in
      let s : ℕ = sub64 ts this_morning in
      sdiv64 (add64 (mul64 days_since_epoch day_ns) s) second_ns

  unfoldable pub cycle_from_yyyymmdd : ℕ → Name → Outcome ℕ
  cycle_from_yyyymmdd cycle_length date =
      if length date == 8
      then elim (parse_date date) [
        | none ↦ ok minus_one32
        | some dp ↦ cycle_of_timestamp (get_epoch_seconds (mul64 dp day_ns)) cycle_length
      ]
      else ok minus_one32

  unfoldable pub cycle_from_yyyymmddhh : ℕ → Name → Outcome ℕ
  cycle_from_yyyymmddhh cycle_length date =
      if length date == 10
      then elim (parse_date date) [
        | none ↦ ok minus_one32
        | some dp ↦ elim (lib.qi_int (take 2 (drop 8 date))) [
          | none ↦ ok minus_one32
          | some h ↦
              if slt32 24 h
              then ok minus_one32
              else cycle_of_timestamp
                  (get_epoch_seconds (mul64 (add64 (mul64 dp 24) (widen h)) hour_ns)) cycle_length
        ]
      ]
      else ok minus_one32

  unfoldable pub cycle_from_yyyymmddhhmm : ℕ → Name → Outcome ℕ
  cycle_from_yyyymmddhhmm cycle_length date =
      if length date == 12
      then elim (parse_date date) [
        | none ↦ ok minus_one32
        | some dp ↦ elim (lib.qi_int (take 2 (drop 8 date))) [
          | none ↦ ok minus_one32
          | some h ↦
              if slt32 24 h then ok minus_one32 else elim (lib.qi_int (take 2 (drop 10 date))) [
                | none ↦ ok minus_one32
                | some min ↦
                    if slt32 60 min
                    then ok minus_one32
                    else cycle_of_timestamp
                        (get_epoch_seconds (
                          mul64 (add64 (mul64 (add64 (mul64 dp 24) (widen h)) 60) (widen min))
                            minute_ns))
                        cycle_length
              ]
        ]
      ]
      else ok minus_one32

  -- `cycle_from_date(date)`, by the class of the formatter
  unfoldable pub cycle_from_date : CycleFormatter → Name → Outcome ℕ
  cycle_from_date (yyyymmdd cycle_length) date = cycle_from_yyyymmdd cycle_length date
  cycle_from_date (yyyymmddhh cycle_length) date = cycle_from_yyyymmddhh cycle_length date
  cycle_from_date (yyyymmddhhmm cycle_length) date = cycle_from_yyyymmddhhmm cycle_length date

  -- The year, the month and the day of a time's day.
  unfoldable pub print_day : ℕ → Name
  print_day daypoint =
      let (y, m, d) = lib.civil daypoint in
      lib.print_padded 4 y ++ (lib.print_padded 2 m ++ lib.print_padded 2 d)

  unfoldable pub date_from_yyyymmdd : ℕ → ℕ → Name
  date_from_yyyymmdd cycle_length cycle =
      let ts : ℕ = time_of_cycle cycle cycle_length in
      let daypoint : ℕ = floor_div64 ts day_ns in print_day daypoint

  unfoldable pub date_from_yyyymmddhh : ℕ → ℕ → Name
  date_from_yyyymmddhh cycle_length cycle =
      let ts : ℕ = time_of_cycle cycle cycle_length in
      let daypoint : ℕ = floor_div64 ts day_ns in
      let tod : ℕ = sub64 ts (mul64 daypoint day_ns) in
      print_day daypoint ++ lib.print_padded 2 (tod / hour_ns)

  unfoldable pub date_from_yyyymmddhhmm : ℕ → ℕ → Name
  date_from_yyyymmddhhmm cycle_length cycle =
      let ts : ℕ = time_of_cycle cycle cycle_length in
      let daypoint : ℕ = floor_div64 ts day_ns in
      let tod : ℕ = sub64 ts (mul64 daypoint day_ns) in
      print_day daypoint
      ++ (lib.print_padded 2 (tod / hour_ns) ++ lib.print_padded 2 (tod % hour_ns / minute_ns))

  -- `date_from_cycle_impl(cycle)`, by the class of the formatter
  unfoldable pub date_from_cycle_impl : CycleFormatter → ℕ → Name
  date_from_cycle_impl (yyyymmdd cycle_length) cycle = date_from_yyyymmdd cycle_length cycle
  date_from_cycle_impl (yyyymmddhh cycle_length) cycle = date_from_yyyymmddhh cycle_length cycle
  date_from_cycle_impl (yyyymmddhhmm cycle_length) cycle = date_from_yyyymmddhhmm cycle_length cycle
