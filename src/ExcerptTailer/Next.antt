-- ===== src/ExcerptTailer/Next.antt =====
-- The search of `next_index` in cornelich/excerpt_tailer.cpp, from its first lines on.
use cornelich.Common.{
  ℕ, ◌+◌, ◌*◌, ◌/◌, ◌%◌, ◌^◌, ◌≤◌, ◌<◌, ◌≡◌, ◌≢◌, ◌⊎◌, inl, inr, refl, sym, ap, arith, Bool, true,
  false, Bool-cases, Option, none, some, Outcome, ok, out_of_fuel, if◌then◌else◌,
}
use cornelich.Common.Ends.{Ends, Ends-ok, Ends-if, Ends-test, Ends-bind}
use cornelich.Common.Words.{is_neg32, is_neg64, add64, sub64, widen}
use mathlib.Core.Path.{subst}
use native.Mathlib.Nat.{mul-div_cancel}
use cornelich.Environment.{Environment}
use cornelich.ExcerptAppender.{cycle_for_now}
use cornelich.ExcerptTailer.{
  ExcerptTailer, Tailing, index, to_start, seek_fuel, arrive, seek_within, seek, next_index,
}
use cornelich.ExcerptTailer.Looks.{index-Ends}
use cornelich.ExcerptTailer.Seek.{seek_loop-ends}
use cornelich.VanillaIndex.Scan.{find_first_cycle}
use cornelich.World.{World}

pub div_bound : (x k E : ℕ) → x < k * E → x / E < k
div_bound x k E h = grind arith

-- In each round, the clock gives a cycle up to `cycle`.
abbrev pub Clock : (ℕ → ℕ) → ℕ → ℕ → Type 0
Clock now cycle_length cycle =
    (k : ℕ) → (c : ℕ) × (cycle_for_now (now k) cycle_length ≡ ok c) × (c ≤ cycle)

first_word :
    (c E : ℕ)
    → is_neg32 c ≡ false
    → c * E < 2 ^ 63
    → add64 (sub64 (widen c * E % 2 ^ 64) 1) 1 ≡ c * E
first_word c E h product =
    let word : widen c * E ≡ c * E = ap (λ x. x * E) (ground arith) in
    go (widen c * E) (c * E) word product
  where
    go : (x y : ℕ) → x ≡ y → y < 2 ^ 63 → add64 (sub64 (x % 2 ^ 64) 1) 1 ≡ y
    go x y e small = omega arith

module _ (env : Environment) where
  arrive-Ends : (found : Tailing × Option ℕ) → Ends (arrive found)
  unfolding arrive
  arrive-Ends ((t, w), none) = Ends-ok _
  arrive-Ends ((t, w), some next) = Ends-ok _

  seek_within-Ends :
      (fuel : ℕ) (now : ℕ → ℕ) (cycle : ℕ) (t : ExcerptTailer) (w : World)
      → Clock now w.chronicle.settings.cycle_length cycle
      → 1 ≤ w.chronicle.settings.entries_per_cycle
      → cycle + 1 < 2 ^ 31
      → (cycle + 1) * w.chronicle.settings.entries_per_cycle < 2 ^ 63
      → add64 t.index 1 < 2 ^ 63
      → add64 t.index 1 / w.chronicle.settings.entries_per_cycle < 2 ^ 31
      → cycle + 2 ≤ fuel
      → Ends (seek_within env fuel now (t, w))
  unfolding seek_within
  seek_within-Ends fuel now cycle t w today positive small room start start_cycle enough =
      let E : ℕ = w.chronicle.settings.entries_per_cycle in
      Ends-bind _ arrive
        (record {
          ends =
              seek_loop-ends (index env) E cycle positive small room
                (λ i tw. (index-Ends env i tw).ends)
                (λ k. cycle_for_now (now k) w.chronicle.settings.cycle_length) today fuel
                (add64 t.index 1) (t, w) start start_cycle (omega arith) (omega arith);
        })
        arrive-Ends

  seek-Ends :
      (now : ℕ → ℕ) (cycle : ℕ) (t : ExcerptTailer) (w : World)
      → Clock now w.chronicle.settings.cycle_length cycle
      → 1 ≤ w.chronicle.settings.entries_per_cycle
      → cycle + 1 < 2 ^ 31
      → (cycle + 1) * w.chronicle.settings.entries_per_cycle < 2 ^ 63
      → add64 t.index 1 < 2 ^ 63
      → add64 t.index 1 / w.chronicle.settings.entries_per_cycle < 2 ^ 31
      → Ends (seek env now (t, w))
  unfolding seek
  seek-Ends now cycle t w today positive small room start start_cycle =
      seek_within-Ends seek_fuel now cycle t w today positive small room start start_cycle
        (omega arith)

  to_start_none :
      (t : ExcerptTailer) (w : World)
      → is_neg32 (find_first_cycle env w.store.files) ≡ true
      → to_start env (t, w) ≡ (t, w)
  unfolding to_start
  to_start_none t w e = rw e refl

  to_start_found :
      (t : ExcerptTailer) (w : World)
      → is_neg32 (find_first_cycle env w.store.files) ≡ false
      → to_start env (t, w) ≡ (
        record t {
          index =
              sub64
                (widen (find_first_cycle env w.store.files)
                  * w.chronicle.settings.entries_per_cycle
                  % 2 ^ 64)
                1;
        },
        w,
      )
  unfolding to_start
  to_start_found t w e = rw e refl

  -- What `next_index` does from the start.
  abbrev started : (ℕ → ℕ) → Tailing → Outcome (Tailing × Bool)
  started now tw = if is_neg64 (tw.0).index then ok (tw, false) else seek env now tw

  stays :
      (now : ℕ → ℕ) (t : ExcerptTailer) (w : World)
      → is_neg64 t.index ≡ true
      → Ends (started now (t, w))
  stays now t w neg =
      Ends-test (is_neg64 t.index) _ _ (λ e. Ends-ok _) (λ e. record { ends = λ h. ground arith })

  goes_on :
      (now : ℕ → ℕ) (t : ExcerptTailer) (w : World)
      → Ends (seek env now (t, w))
      → Ends (started now (t, w))
  goes_on now t w sought = Ends-if (is_neg64 t.index) _ _ (Ends-ok _) sought

  -- `next_index` returns, throws or comes to an operation without meaning after its bounded
  -- number of rounds, whatever the files and their contents, if in every round the clock gives
  -- a cycle up to `cycle`, that cycle and the next are std::int32_t, as is the cycle of the
  -- index behind the tailer's own when that is not negative, the entries per cycle are
  -- positive, and the indices that it may look at (up to the cycle after `cycle`, from the
  -- first cycle, and behind the tailer's own) stay below 2 ^ 63.
  pub next_index-ends :
      (now : ℕ → ℕ) (cycle : ℕ) (t : ExcerptTailer) (w : World)
      → Clock now w.chronicle.settings.cycle_length cycle
      → 1 ≤ w.chronicle.settings.entries_per_cycle
      → cycle + 1 < 2 ^ 31
      → (cycle + 1) * w.chronicle.settings.entries_per_cycle < 2 ^ 63
      → (is_neg64 t.index ≡ true)
        ⊎ ((t.index + 1 < 2 ^ 63) × (t.index + 1 < 2 ^ 31 * w.chronicle.settings.entries_per_cycle))
      → (is_neg32 (find_first_cycle env w.store.files) ≡ false
          → find_first_cycle env w.store.files * w.chronicle.settings.entries_per_cycle < 2 ^ 63)
      → next_index env now (t, w) ≢ out_of_fuel
  unfolding next_index
  next_index-ends now cycle t w today positive small room start first =
      let E : ℕ = w.chronicle.settings.entries_per_cycle in
      let c : ℕ = find_first_cycle env w.store.files in
      let sought =
        λ (t' : ExcerptTailer) (below : add64 t'.index 1 < 2 ^ 63)
            (low : add64 t'.index 1 / E < 2 ^ 31).
          seek-Ends now cycle t' w today positive small room below low in
      Ends.ends (
        Ends-test (is_neg64 t.index) _ _
          (λ neg. elim (Bool-cases (is_neg32 c)) [
            | inl no_cycle ↦
                subst (λ tw. Ends (started now tw)) (sym (to_start_none t w no_cycle))
                  (stays now t w neg)
            | inr found ↦
                let product : c * E < 2 ^ 63 = first found in
                let next : add64 (sub64 (widen c * E % 2 ^ 64) 1) 1 ≡ c * E =
                  first_word c E found product in
                let quotient : c * E / E < 2 ^ 31 =
                  subst (λ n. n < 2 ^ 31) (sym (mul-div_cancel c positive)) (ground arith) in
                subst (λ tw. Ends (started now tw)) (sym (to_start_found t w found))
                  (goes_on now (record t { index = sub64 (widen c * E % 2 ^ 64) 1 }) w
                    (sought (record t { index = sub64 (widen c * E % 2 ^ 64) 1 }) (omega arith)
                      (subst (λ n. n / E < 2 ^ 31) (sym next) quotient)))
          ])
          (λ not_neg.
            let (below, low) : (t.index + 1 < 2 ^ 63) × (t.index + 1 < 2 ^ 31 * E) = elim start [
              | inl neg ↦ ground arith
              | inr bounds ↦ bounds
            ] in
            let next : add64 t.index 1 ≡ t.index + 1 = omega arith in
            sought t (omega arith)
              (subst (λ n. n / E < 2 ^ 31) (sym next) (div_bound (t.index + 1) (2 ^ 31) E low))))
