-- ===== src/Environment.antt =====
-- What the index and data files use and do not implement: the conversions between cycles and folder
-- names of the settings' `cycle_formatter`, and those between numbers and text.
use cornelich.Common.{
  ℕ, ◌-◌, ◌%◌, ◌^◌, ◌<◌, ◌≡◌, Bool, true, false, ◌&&◌, ◌==◌, [], ◌∷◌, ◌++◌, refl, arith, Option,
  some,
}
use cornelich.Files.{Name}

pub record Environment : Type 0 where
  -- `cycle_format().date_from_cycle(cycle)`
  pub date_from_cycle : ℕ → Name
  -- `cycle_format().cycle_from_date(date)`, an std::int32_t
  pub cycle_from_date : Name → ℕ
  -- the text of an std::int32_t, as `operator<<` of a stream writes it
  pub print_int : ℕ → Name
  -- `boost::spirit::qi::parse(begin, end, qi::int_, target)`: the std::int32_t at the front of a text,
  -- none if the text begins with no number (`target` is then not written)
  pub qi_int : Name → Option ℕ

-- What is relied on: a printed number that is not negative is read back, and with a minus sign in
-- front it is read as its negation (util/parse.h is tested so).
pub record NumeralLaws (env : Environment) : Type 0 where
  pub qi_int-print_int : (n : ℕ) → n < 2 ^ 31 → env.qi_int (env.print_int n) ≡ some n
  pub qi_int-minus :
      (n : ℕ) → n < 2 ^ 31 → env.qi_int (b'-' ∷ env.print_int n) ≡ some ((2 ^ 32 - n) % 2 ^ 32)

-- `boost::algorithm::starts_with(name, prefix)`
unfoldable pub starts_with : Name → Name → Bool
starts_with name [] = true
starts_with [] (p ∷ prefix) = false
starts_with (c ∷ name) (p ∷ prefix) = c == p && starts_with name prefix

starts_with_nil : (name : Name) → starts_with name [] ≡ true
unfolding starts_with
starts_with_nil [] = refl
starts_with_nil (c ∷ name) = refl

pub starts_with-append : (prefix rest : Name) → starts_with (prefix ++ rest) prefix ≡ true
unfolding starts_with
starts_with-append [] rest = starts_with_nil rest
starts_with-append (p ∷ prefix) rest = ground (arith, starts_with-append prefix rest)

-- INDEX_FILE_NAME_PREFIX and DATA_FILE_NAME_PREFIX
abbrev pub index_file_name_prefix : Name
index_file_name_prefix = b'i' ∷ b'n' ∷ b'd' ∷ b'e' ∷ b'x' ∷ b'-' ∷ []

abbrev pub data_file_name_prefix : Name
data_file_name_prefix = b'd' ∷ b'a' ∷ b't' ∷ b'a' ∷ b'-' ∷ []
