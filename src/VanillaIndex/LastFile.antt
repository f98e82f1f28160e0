-- ===== src/VanillaIndex/LastFile.antt =====
-- What the listing of a cycle's folder finds.
use cornelich.Common.{ℕ, ◌-◌, ◌%◌, ◌^◌, ◌<◌, ◌≡◌, ◌⊎◌, inl, inr, refl, sym, ap, arith}
use mathlib.Core.Path.{subst}
use cornelich.Common.{Bool, false, ◌==◌, if◌then◌else◌, List, [], ◌∷◌, ◌++◌, none, some, All}
use cornelich.Common.Words.{minus_one32, slt32}
use cornelich.Environment.{
  Environment, NumeralLaws, starts_with, starts_with-append, index_file_name_prefix,
}
use cornelich.Files.{Name, File, Files, folder_files}
use cornelich.VanillaIndex.Scan.{
  parse_number, index_number, last_index_loop, last_index_file_number,
}

-- The names that a chronicle gives to its index files, and any others but such as begin with "index-".
abbrev pub WellNamed : Environment → Name → Type 0
WellNamed env name =
    (starts_with name index_file_name_prefix ≡ false)
    ⊎ ((k : ℕ) × (k < 2 ^ 31) × (name ≡ index_file_name_prefix ++ env.print_int k))

module _ (env : Environment) (laws : NumeralLaws env) where
  -- The number that is read in the name of index file `k` is -k.
  index_number-name :
      (k : ℕ)
      → k < 2 ^ 31
      → index_number env (index_file_name_prefix ++ env.print_int k) ≡ (2 ^ 32 - k) % 2 ^ 32
  unfolding index_number parse_number
  index_number-name k h =
      ap (λ o. elim o [ some n ↦ n | none ↦ minus_one32 ]) (laws.qi_int-minus k h)

  -- What the loop holds from its start at -1 on.
  abbrev NoneOrZero : ℕ → Type 0
  NoneOrZero last = (last ≡ minus_one32) ⊎ (last ≡ 0)

  negated_step :
      (k : ℕ)
      → k < 2 ^ 31
      → (last : ℕ) → NoneOrZero last
      → NoneOrZero (if slt32 last ((2 ^ 32 - k) % 2 ^ 32) then (2 ^ 32 - k) % 2 ^ 32 else last)
  negated_step k h last which = ground arith

  abbrev moved : Bool → Name → ℕ → ℕ
  moved b name last =
      if b
      then (if slt32 last (index_number env name) then index_number env name else last)
      else last

  index_step :
      (name : Name) (last : ℕ)
      → WellNamed env name
      → NoneOrZero last
      → NoneOrZero (moved (starts_with name index_file_name_prefix) name last)
  index_step name last (inl other) h = subst (λ b. NoneOrZero (moved b name last)) (sym other) h
  index_step name last (inr (k, small, named)) h =
      subst (λ n. NoneOrZero (moved (starts_with n index_file_name_prefix) n last)) (sym named)
        (subst (λ b. NoneOrZero (moved b (index_file_name_prefix ++ env.print_int k) last))
          (sym (starts_with-append index_file_name_prefix (env.print_int k)))
          (subst (λ i. NoneOrZero (if slt32 last i then i else last))
            (sym (index_number-name k small)) (negated_step k small last h)))

  index_loop :
      (files : List (Name × File)) (last : ℕ)
      → All (λ f. WellNamed env (f.0)) files
      → NoneOrZero last
      → NoneOrZero (last_index_loop env files last)
  unfolding last_index_loop
  index_loop [] last all h = h
  index_loop ((name, file) ∷ files) last (w, all) h =
      index_loop files _ all (index_step name last w h)

  -- If printed numbers are read back, also behind a minus sign, then in a cycle's folder where
  -- the chronicle named each file whose name begins with "index-" the last index file number is
  -- the default or 0, however many index files there are.
  pub last_index_file_number-stuck :
      (fs : Files) (cycle default_cycle : ℕ)
      → All (λ f. WellNamed env (f.0)) (folder_files (env.date_from_cycle cycle) fs)
      → (last_index_file_number env fs cycle default_cycle ≡ default_cycle)
        ⊎ (last_index_file_number env fs cycle default_cycle ≡ 0)
  unfolding last_index_file_number
  last_index_file_number-stuck fs cycle d all =
      finish _ (index_loop (folder_files (env.date_from_cycle cycle) fs) minus_one32 all (inl refl))
    where
      finish :
          (r : ℕ)
          → NoneOrZero r
          → ((if r == minus_one32 then d else r) ≡ d) ⊎ ((if r == minus_one32 then d else r) ≡ 0)
      finish r h = ground arith
