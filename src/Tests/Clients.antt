-- ===== src/Tests/Clients.antt =====
-- Runs of the samples, of the helpers of the tests, and of writes that are read.
use cornelich.Common.{
  ◌⊎◌, ℕ, zero, suc, ◌-◌, ◌^◌, ◌≤◌, ◌<◌, ◌≡◌, ◌≢◌, inl, arith, leb, if◌then◌else◌, Bool-cases, inr,
  [], ◌∷◌, none, some, map, length, ok,
}
use mathlib.Core.Path.{subst}
use cornelich.Samples.Pong.{pong_loop, no_counts}
use cornelich.Samples.Pong.Numbered.{Polls, excerpts, next_poll, numbered, thread_of, pong_loop_lem}
use cornelich.Util.Thread.{thread_id_bits}
use cornelich.Util.Thread.Width.{LeadingZeros, thread_id_bits_lem}

-- Two threads, taken in turn, and a round that finds nothing.
abbrev polls : Polls
polls = some (7, 0) ∷ none ∷ some (8, 0) ∷ some (7, 1) ∷ []

polls_short : length (excerpts polls) < 2 ^ 31
polls_short = omega arith

pong_loop_lem_example :
    (excerpts polls ≡ numbered [] (map thread_of (excerpts polls))
      → pong_loop next_poll (length (excerpts polls)) (suc (length polls)) 0 no_counts polls ≡ ok 0)
    × (excerpts polls ≢ numbered [] (map thread_of (excerpts polls))
        → pong_loop next_poll (length (excerpts polls)) (suc (length polls)) 0 no_counts polls
          ≡ ok 1)
pong_loop_lem_example = pong_loop_lem polls polls_short

-- The zeros in front of a number of `k` bits.
unfoldable zeros_in_front : ℕ → ℕ → ℕ
zeros_in_front zero v = 0
zeros_in_front (suc k) v = if leb (2 ^ k) v then 0 else suc (zeros_in_front k v)

zeros_in_front_lem :
    (k v : ℕ)
    → 0 < v
    → v < 2 ^ k
    → (zeros_in_front k v < k)
      × (2 ^ (k - 1 - zeros_in_front k v) ≤ v)
      × (v < 2 ^ (k - zeros_in_front k v))
unfolding zeros_in_front
zeros_in_front_lem zero v some_bit high = ground arith
zeros_in_front_lem (suc k) v some_bit high = elim (Bool-cases (leb (2 ^ k) v)) [
  | inl top ↦
      let fits : 2 ^ k ≤ v = ground arith in
      let below : k ≡ suc k - 1 - 0 = omega arith in
      let above : suc k ≡ suc k - 0 = omega arith in
      rw top (omega arith, subst (λ e. 2 ^ e ≤ v) below fits, subst (λ e. v < 2 ^ e) above high)
  | inr low ↦
      let (a, b, c) = zeros_in_front_lem k v some_bit (ground arith) in
      let below : k - 1 - zeros_in_front k v ≡ suc k - 1 - suc (zeros_in_front k v) = omega arith in
      let above : k - zeros_in_front k v ≡ suc k - suc (zeros_in_front k v) = omega arith in
      rw low (omega arith, subst (λ e. 2 ^ e ≤ v) below b, subst (λ e. v < 2 ^ e) above c)
]

abbrev clz : ℕ → ℕ
clz = zeros_in_front 32

leading_zeros : LeadingZeros clz
leading_zeros = record {
  bounded = λ v some_bit high. let (a, b, c) = zeros_in_front_lem 32 v some_bit high in omega arith;
  from_below = λ v some_bit high. (zeros_in_front_lem 32 v some_bit high).1;
  from_above = λ v some_bit high. (zeros_in_front_lem 32 v some_bit high).2;
}

thread_id_bits_lem_example :
    (bits : ℕ) × (thread_id_bits clz (some 32768) ≡ ok (suc bits))
    × (bits ≤ 31)
    × (2 ^ bits ≤ 32768 - 1)
    × (32768 - 1 < 2 ^ suc bits)
    × ((32768 ≡ 2 ^ suc bits) ⊎ ((2 ^ bits ≤ 32768) × (32768 < 2 ^ suc bits)))
thread_id_bits_lem_example = thread_id_bits_lem leading_zeros 32768 (omega arith) (omega arith)
