-- ===== src/VanillaIndex/ScanLaws.antt =====
-- What the listings find.
use cornelich.Common.{ℕ, ◌+◌, ◌%◌, ◌^◌, ◌≤◌, ◌<◌, ◌≡◌, ◌⊎◌, inl, inr, refl, sym, arith}
use mathlib.Core.Path.{subst}
use cornelich.Common.{◌==◌, if◌then◌else◌, List, [], ◌∷◌, All, Bool-cases}
use cornelich.Common.Words.{minus_one32, slt32}
use cornelich.Environment.{Environment}
use cornelich.Files.{folder, plain, Files}
use cornelich.VanillaIndex.Scan.{
  first_cycle_loop, find_first_cycle, last_cycle_loop, find_last_cycle, int32_max,
}

-- The order of signed words, as an order of numbers.
abbrev pub key : ℕ → ℕ
key x = (x + 2 ^ 31) % 2 ^ 32

abbrev pub Among : ℕ → List ℕ → Type 0
Among x [] = ⊥
Among x (y ∷ ys) = (x ≡ y) ⊎ Among x ys

-- The loops, on the cycles alone.
min_loop : List ℕ → ℕ → ℕ
min_loop [] acc = acc
min_loop (c ∷ cs) acc = min_loop cs (if slt32 c acc then c else acc)

max_loop : List ℕ → ℕ → ℕ
max_loop [] acc = acc
max_loop (c ∷ cs) acc = max_loop cs (if slt32 acc c then c else acc)

-- `r` is the least of `acc` and `cs`, as signed words.
abbrev Least : ℕ → ℕ → List ℕ → Type 0
Least r acc cs = (key r ≤ key acc) × All (λ c. key r ≤ key c) cs × ((r ≡ acc) ⊎ Among r cs)

abbrev Greatest : ℕ → ℕ → List ℕ → Type 0
Greatest r acc cs = (key acc ≤ key r) × All (λ c. key c ≤ key r) cs × ((r ≡ acc) ⊎ Among r cs)

min_loop-Least : (cs : List ℕ) (acc r : ℕ) → min_loop cs acc ≡ r → Least r acc cs
unfolding min_loop
min_loop-Least [] acc r e = (omega arith, tt, inl (sym e))
min_loop-Least (c ∷ cs) acc r e = elim (Bool-cases (slt32 c acc)) [
  | inl smaller ↦
      let (low, all, which) = min_loop-Least cs c r (rw smaller at e) in
      (ground arith, (low, all), (let found : (r ≡ c) ⊎ Among r cs = which in inr found))
  | inr larger ↦
      let (low, all, which) = min_loop-Least cs acc r (rw larger at e) in
      (
        low,
        (ground arith, all),
        (let found : (r ≡ acc) ⊎ Among r (c ∷ cs) = elim which [
          | inl p ↦ inl p
          | inr m ↦ inr (inr m)
        ] in
            found),
      )
]

max_loop-Greatest : (cs : List ℕ) (acc r : ℕ) → max_loop cs acc ≡ r → Greatest r acc cs
unfolding max_loop
max_loop-Greatest [] acc r e = (omega arith, tt, inl (sym e))
max_loop-Greatest (c ∷ cs) acc r e = elim (Bool-cases (slt32 acc c)) [
  | inl larger ↦
      let (high, all, which) = max_loop-Greatest cs c r (rw larger at e) in
      (ground arith, (high, all), inr which)
  | inr smaller ↦
      let (high, all, which) = max_loop-Greatest cs acc r (rw smaller at e) in
      (
        high,
        (ground arith, all),
        (let found : (r ≡ acc) ⊎ Among r (c ∷ cs) = elim which [
          | inl p ↦ inl p
          | inr m ↦ inr (inr m)
        ] in
            found),
      )
]

All-at {ℓ} : (P : ℕ → Type ℓ) (x : ℕ) (cs : List ℕ) → Among x cs → All P cs → P x
All-at P x [] m a = absurd m
All-at P x (c ∷ cs) (inl e) (p, a) = rw e p
All-at P x (c ∷ cs) (inr m) (p, a) = All-at P x cs m a

-- On words that are not negative the order of the keys is that of the numbers.
All-small :
    (r : ℕ) (cs : List ℕ)
    → r < 2 ^ 31
    → All (λ c. c < int32_max) cs
    → All (λ c. key r ≤ key c) cs
    → All (λ c. r ≤ c) cs
All-small r [] h small a = tt
All-small r (c ∷ cs) h (p, small) (q, a) = (omega arith, All-small r cs h small a)

-- What `find_first_cycle` returns after its loop.
abbrev answer : ℕ → ℕ
answer r = if r == int32_max then minus_one32 else r

answer_min :
    (cs : List ℕ)
    → All (λ c. c < int32_max) cs
    → ((cs ≡ []) × (answer (min_loop cs int32_max) ≡ minus_one32))
      ⊎ (Among (answer (min_loop cs int32_max)) cs
          × All (λ c. answer (min_loop cs int32_max) ≤ c) cs)
answer_min [] a = inl (refl, unfold min_loop in refl)
answer_min (c ∷ cs) (p, a) =
    let r : ℕ = min_loop (c ∷ cs) int32_max in
    let (low, (here, all), which) = min_loop-Least (c ∷ cs) int32_max r refl in
    inr (elim which [
      | inl none_smaller ↦ absurd (omega arith)
      | inr found ↦
          let small : r < int32_max = All-at (λ x. x < int32_max) r (c ∷ cs) found (p, a) in
          let same : answer r ≡ r = ground arith in
          subst (λ (x : ℕ). Among x (c ∷ cs) × All (λ y. x ≤ y) (c ∷ cs)) (sym same)
            (found, All-small r (c ∷ cs) (omega arith) (p, a) (here, all))
    ])

module _ (env : Environment) where
  -- The cycles that the names of the folders stand for.
  abbrev pub cycles : Files → List ℕ
  cycles [] = []
  cycles ((name, plain) ∷ fs) = cycles fs
  cycles ((name, folder _) ∷ fs) = env.cycle_from_date name ∷ cycles fs

  first_cycle_loop-min :
      (fs : Files) (acc : ℕ) → first_cycle_loop env fs acc ≡ min_loop (cycles fs) acc
  unfolding first_cycle_loop min_loop
  first_cycle_loop-min [] acc = refl
  first_cycle_loop-min ((name, plain) ∷ fs) acc = first_cycle_loop-min fs acc
  first_cycle_loop-min ((name, folder l) ∷ fs) acc = first_cycle_loop-min fs _

  last_cycle_loop-max :
      (fs : Files) (acc : ℕ) → last_cycle_loop env fs acc ≡ max_loop (cycles fs) acc
  unfolding last_cycle_loop max_loop
  last_cycle_loop-max [] acc = refl
  last_cycle_loop-max ((name, plain) ∷ fs) acc = last_cycle_loop-max fs acc
  last_cycle_loop-max ((name, folder l) ∷ fs) acc = last_cycle_loop-max fs _

  find_first_cycle-min :
      (fs : Files)
      → find_first_cycle env fs ≡ (
          if min_loop (cycles fs) int32_max == int32_max
          then minus_one32
          else min_loop (cycles fs) int32_max)
  unfolding find_first_cycle
  find_first_cycle-min [] = unfold min_loop in refl
  find_first_cycle-min (e ∷ fs) = rw first_cycle_loop-min

  -- If every folder's name stands for a cycle from 0 to below the largest std::int32_t, the
  -- first cycle is the smallest of them, and -1 if there are none.
  pub find_first_cycle_min :
      (fs : Files)
      → All (λ c. c < int32_max) (cycles fs)
      → ((cycles fs ≡ []) × (find_first_cycle env fs ≡ minus_one32))
        ⊎ (Among (find_first_cycle env fs) (cycles fs)
            × All (λ c. find_first_cycle env fs ≤ c) (cycles fs))
  find_first_cycle_min fs h = rw find_first_cycle-min (answer_min (cycles fs) h)

  -- If one folder's name is no date, so that it stands for -1, and none stands for less, then
  -- no first cycle is found, whatever the other folders are.
  pub find_first_cycle_stray :
      (fs : Files)
      → Among minus_one32 (cycles fs)
      → All (λ c. key minus_one32 ≤ key c) (cycles fs)
      → All (λ c. c < 2 ^ 32) (cycles fs)
      → find_first_cycle env fs ≡ minus_one32
  find_first_cycle_stray fs m h w =
      rw find_first_cycle-min
        (stray (min_loop (cycles fs) int32_max) (min_loop-Least (cycles fs) int32_max _ refl))
    where
      stray :
          (r : ℕ)
          → Least r int32_max (cycles fs)
          → (if r == int32_max then minus_one32 else r) ≡ minus_one32
      stray r (low, all, inl e) = ground arith
      stray r (low, all, inr n) =
          let small : key r ≤ key minus_one32 =
            All-at (λ c. key r ≤ key c) minus_one32 (cycles fs) m all in
          let large : key minus_one32 ≤ key r =
            All-at (λ c. key minus_one32 ≤ key c) r (cycles fs) n h in
          let word : r < 2 ^ 32 = All-at (λ c. c < 2 ^ 32) r (cycles fs) n w in ground arith

  -- If no folder's name stands for a cycle below -1, the last cycle is the largest that one
  -- stands for, or -1.
  pub find_last_cycle_max :
      (fs : Files)
      → All (λ c. key minus_one32 ≤ key c) (cycles fs)
      → All (λ c. c < 2 ^ 32) (cycles fs)
      → All (λ c. key c ≤ key (find_last_cycle env fs)) (cycles fs)
        × ((find_last_cycle env fs ≡ minus_one32) ⊎ Among (find_last_cycle env fs) (cycles fs))
  unfolding find_last_cycle
  find_last_cycle_max fs h w =
      let (high, all, which) =
        max_loop-Greatest (cycles fs) minus_one32 (find_last_cycle env fs)
          (sym (last_cycle_loop-max fs minus_one32)) in
      (all, which)
