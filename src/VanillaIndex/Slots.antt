-- ===== src/VanillaIndex/Slots.antt =====
-- cornelich/vanilla_index.cpp, on one index region: `append(region &, index_value)` and
-- `count_index_entries`. The region is a row of 64-bit slots, zero where nothing is written yet.
use cornelich.Common.{ℕ, zero, suc, ◌+◌, ◌/◌, leb, ◌==◌, if◌then◌else◌}
use cornelich.Common.{Outcome, ok, throws, undefined, out_of_fuel, logic_error, ◌>>=◌}
use cornelich.Common.Words.{minus_one64, slt32, add32, sub32, widen}
use cornelich.Memory.{Bytes, load}
use cornelich.Region.{Region, cas64, position, set_position, limit}

-- What follows a successful compare-and-swap at `p`.
unfoldable pub advance : Region → Bytes → ℕ → Outcome (Region × Bytes × ℕ)
unfolding set_position
advance r m p =
    let (r', moved) = set_position r (add32 p 8) in
    if moved then ok (r', m, widen p) else throws logic_error

-- The `while` of `append`, with `p` for its position. The result is the region, the bytes of the
-- file and the position of the value, -1 if the region is full.
unfoldable pub append_loop : ℕ → Region → Bytes → ℕ → ℕ → Outcome (Region × Bytes × ℕ)
unfolding cas64 advance limit
append_loop zero r m index_value p = out_of_fuel
append_loop (suc fuel) r m index_value p =
    let again = append_loop fuel r m index_value (add32 p 8) in
    if slt32 (sub32 (limit r) p) 8
    then ok (r, m, minus_one64)
    else cas64 r m p 0 index_value >>= λ (m', swapped). if swapped then advance r m' p else again

-- A round for each slot, and one that finds the end.
unfoldable pub append : Region → Bytes → ℕ → Outcome (Region × Bytes × ℕ)
unfolding append_loop position
append r m index_value = append_loop (r.size / 8 + 1) r m index_value (position r)

-- The `for` of `count_index_entries`.
unfoldable pub count_loop : ℕ → Region → Bytes → ℕ → ℕ → Outcome ℕ
count_loop zero r m offset indices = out_of_fuel
count_loop (suc fuel) r m offset indices =
    let rest = count_loop fuel r m (offset + 8) (indices + 1) in
    if offset == r.size
    then ok indices
    else if leb (offset + 8) r.size
    then (if load 8 m offset == 0 then ok indices else rest)
    else undefined

unfoldable pub count_index_entries : Region → Bytes → Outcome ℕ
unfolding count_loop
count_index_entries r m = count_loop (r.size / 8 + 1) r m 0 0
