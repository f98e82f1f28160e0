-- ===== src/VanillaIndex/Ends.antt =====
-- The loops of `append` in cornelich/vanilla_index.cpp, on one region and over the files of a cycle.
use cornelich.Common.{
  ℕ, ◌/◌, ◌^◌, arith, Bool, false, Bool-cases, inl, inr, ◌⊎◌, ◌%◌, ◌+◌, ◌*◌, ◌≤◌, ◌<◌, ◌≡◌, ◌≢◌,
  refl, true, zero, suc, undefined, out_of_fuel,
}
use cornelich.Common.Words.{sub32, slt32, add32, is_neg64, minus_one32}
use cornelich.Common.Ends.{
  Ends, Ends-ok, Ends-throws, Ends-undefined, Ends-if, Ends-bind, Ends-test,
}
use cornelich.Environment.{Environment}
use cornelich.Region.{Region, cas64, limit, in_range, position}
use cornelich.Memory.{Bytes}
use cornelich.VanillaIndex.Mapped.{index_for, append_at, append_files, append_cycle}
use cornelich.World.{World, Store, RegionPtr}
use cornelich.World.Ends.{region_at-Ends, bytes_of-Ends, make_file-Ends, get-Ends}
use cornelich.Files.{is_some}
use cornelich.VanillaIndex.Slots.{append, append_loop, advance}

advance-Ends : (r : Region) (m : Bytes) (p : ℕ) → Ends (advance r m p)
unfolding advance
advance-Ends r m p = Ends-if _ _ _ (Ends-ok _) (Ends-throws _)

cas64-Ends : (r : Region) (m : Bytes) (p e v : ℕ) → Ends (cas64 r m p e v)
unfolding cas64
cas64-Ends r m p e v = Ends-if _ _ _ (Ends-if _ _ _ (Ends-ok _) (Ends-ok _)) Ends-undefined

cas64_outside :
    (r : Region) (m : Bytes) (p e v : ℕ) → in_range r p 8 ≡ false → cas64 r m p e v ≡ undefined
unfolding cas64
cas64_outside r m p e v h = rw h refl

in_range_lem : (r : Region) (p : ℕ) → in_range r p 8 ≡ true → (p + 8 ≤ r.size) × (p < 2 ^ 31)
unfolding in_range
in_range_lem r p h = ground arith

append_loop-Ends :
    (fuel : ℕ) (r : Region) (m : Bytes) (value p : ℕ)
    → 1 ≤ fuel
    → r.size < p + 8 * fuel
    → Ends (append_loop fuel r m value p)
unfolding append_loop
append_loop-Ends zero r m value p some_fuel enough = ground arith
append_loop-Ends (suc fuel) r m value p some_fuel enough =
    Ends-if (slt32 (sub32 (limit r) p) 8) _ _ (Ends-ok _) (elim (Bool-cases (in_range r p 8)) [
      | inl inside ↦
          let (fits, low) = in_range_lem r p inside in
          let next : add32 p 8 ≡ p + 8 = omega arith in
          Ends-bind _ _ (cas64-Ends r m p 0 value) (λ (m', swapped).
            Ends-if swapped _ _ (advance-Ends r m' p)
              (append_loop-Ends fuel r m value (add32 p 8) (omega arith) (omega arith)))
      | inr outside ↦ rw (cas64_outside r m p 0 value outside) Ends-undefined
    ])

append-Ends : (r : Region) (m : Bytes) (value : ℕ) → Ends (append r m value)
unfolding append
append-Ends r m value = append_loop-Ends (r.size / 8 + 1) r m value _ (omega arith) (omega arith)

pub append_at-Ends : (p : RegionPtr) (value : ℕ) (st : Store) → Ends (append_at p value st)
unfolding append_at
append_at-Ends p value st = Ends-bind _ _ (region_at-Ends p st) (λ r.
    Ends-bind _ _ (bytes_of-Ends r st)
      (λ m. Ends-bind _ _ (append-Ends r m value) (λ (r', m', position). Ends-ok _)))

module _ (env : Environment) where
  pub index_for-Ends :
      (cycle file_number : ℕ) (append : Bool) (w : World)
      → Ends (index_for env cycle file_number append w)
  unfolding index_for
  index_for-Ends cycle file_number append w =
      Ends-bind _ _
        (get-Ends _ _ _ _ _ _
          (Ends-bind _ _ (make_file-Ends _ _ append w.store.files) (λ (fs, path). Ends-ok _)))
        (λ (st, cache, p). Ends-ok _)

  append_files-Ends :
      (fuel cycle value count : ℕ) (w : World)
      → 1 ≤ fuel
      → 10000 + 2 ^ 31 < (count + 2 ^ 31) % 2 ^ 32 + fuel
      → Ends (append_files env fuel cycle value count w)
  unfolding append_files
  append_files-Ends zero cycle value count w some_fuel enough = ground arith
  append_files-Ends (suc fuel) cycle value count w some_fuel enough =
      Ends-test (slt32 count 10000) _ _
        (λ low.
          let next : (w' : World) → Ends (append_files env fuel cycle value (add32 count 1) w') =
            λ w'.
              append_files-Ends fuel cycle value (add32 count 1) w' (ground arith) (ground arith) in
          Ends-bind _ _ (index_for-Ends cycle count true w) (λ (w', p).
            Ends-if (is_some p) _ _
              (Ends-bind _ _ (append_at-Ends p value w'.store) (λ (st, position).
                Ends-if (is_neg64 position) _ _ (next (record w' { store = st })) (Ends-ok _)))
              (next w')))
        (λ high. Ends-throws _)

  -- `append(cycle, index_value, file_number)` returns, throws or comes to an operation without
  -- meaning, whatever the index files and their contents, if the file number is -1 or not
  -- negative.
  pub append_cycle-ends :
      (cycle value file_number : ℕ) (w : World)
      → (file_number ≡ minus_one32) ⊎ (file_number < 2 ^ 31)
      → append_cycle env cycle value file_number w ≢ out_of_fuel
  unfolding append_cycle
  append_cycle-ends cycle value file_number w number =
      Ends.ends (append_files-Ends 10002 cycle value file_number w (omega arith) (omega arith))
