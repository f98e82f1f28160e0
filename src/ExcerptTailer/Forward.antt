-- ===== src/ExcerptTailer/Forward.antt =====
-- The indices at which the search of `next_index` finds an excerpt.
use cornelich.Common.{
  ℕ, zero, suc, ◌+◌, ◌*◌, ◌/◌, ◌%◌, ◌^◌, ◌≤◌, ◌<◌, ◌≡◌, refl, sym, ap, ◌∙◌, arith, Bool, true,
  false, ◌==◌, if◌then◌else◌, Option, none, some, Outcome, ok, ◌>>=◌, throws, undefined,
  out_of_fuel, >>=-eq-ok,
}
use cornelich.Common.Words.{widen, add32, narrow, slt32, sdiv64, add64, is_neg64}
use mathlib.Core.Path.{subst}
use native.Mathlib.Nat.{mul-le-mul_right}
use cornelich.Environment.{Environment}
use cornelich.ExcerptAppender.{cycle_for_now}
use cornelich.World.{World}
use cornelich.ExcerptTailer.{
  ExcerptTailer, Tailing, index, arrive, seek_loop, seek_fuel, seek_within, seek, next_index,
}
use cornelich.ExcerptTailer.Next.{div_bound, Clock}
use cornelich.ExcerptTailer.Seek.{
  cycle_word, next_word, next_cycle, positive_test, bound_E, go_on, Bounded,
}

-- The index at hand, or the first one of a later cycle.
pub data Ahead (E next : ℕ) : ℕ → Type 0 where
  here : Ahead E next next
  later : (c : ℕ) → next / E < c → Ahead E next (c * E)

module _ {S : Type 0} (look : ℕ → S → Outcome (S × Bool)) (E latest : ℕ) (positive : 1 ≤ E)
    (small : latest + 1 < 2 ^ 31) (room : (latest + 1) * E < 2 ^ 63) where
  Ahead-later : (next n : ℕ) → Ahead E ((next / E + 1) * E) n → Ahead E next n
  Ahead-later next n here = later (next / E + 1) (omega arith)
  Ahead-later next n (later c h) = later c (omega (arith, next_cycle (next / E) E positive))

  -- A test that stops the search did not stop one that finds something.
  not_stopped :
      (s1 : S) {s' : S} {n : ℕ} (b : Bool) (x : Outcome (S × Option ℕ))
      → (if b then ok (s1, none) else x) ≡ ok (s', some n)
      → (b ≡ false) × (x ≡ ok (s', some n))
  not_stopped s1 true x h = cc
  not_stopped s1 false x h = (refl, h)

  -- What follows a look at `next`.
  after_look :
      (now_cycles : ℕ → Outcome ℕ)
      → Bounded look E latest positive small room now_cycles
      → (fuel next : ℕ) (s1 s' : S) (n : ℕ) (found : Bool) → next < 2 ^ 63
      → next / E < 2 ^ 31
      → (next / E ≤ latest
          → seek_loop look E (λ k. now_cycles (suc k)) fuel ((next / E + 1) * E) s1
            ≡ ok (s', some n)
          → Ahead E ((next / E + 1) * E) n)
      → (if found
          then ok (s1, some next)
          else if E == 0
          then undefined
          else go_on look E latest positive small room now_cycles fuel (narrow (sdiv64 next E)) s1)
        ≡ ok (s', some n)
      → Ahead E next n
  after_look now_cycles bounded fuel next s1 s' n true hn hc again h =
      let e : next ≡ n = ground arith in subst (Ahead E next) e here
  after_look now_cycles bounded fuel next s1 s' n false hn hc again h =
      let onward = go_on look E latest positive small room now_cycles fuel in
      let h1 : onward (narrow (sdiv64 next E)) s1 ≡ ok (s', some n) =
        subst (λ b. (if b then undefined else onward (narrow (sdiv64 next E)) s1) ≡ ok (s', some n))
          (positive_test E positive) h in
      let h2 : onward (next / E) s1 ≡ ok (s', some n) =
        subst (λ c. onward c s1 ≡ ok (s', some n)) (cycle_word next E hn (bound_E latest E room) hc)
          h1 in
      let (now, at, le) = bounded 0 in
      let h3 : (if slt32 now (next / E)
            then ok (s1, none)
            else seek_loop look E (λ k. now_cycles (suc k)) fuel
                (widen (add32 (next / E) 1) * E % 2 ^ 64) s1)
          ≡ ok (s', some n) =
        subst
          (λ o.
            (o >>= λ c.
            if slt32 c (next / E)
            then ok (s1, none)
            else seek_loop look E (λ k. now_cycles (suc k)) fuel
                (widen (add32 (next / E) 1) * E % 2 ^ 64) s1)
            ≡ ok (s', some n))
          at h2 in
      let (stop, h4) = not_stopped s1 (slt32 now (next / E)) _ h3 in
      let low : next / E ≤ latest = ground arith in
      let most : (next / E + 1) * E ≤ (latest + 1) * E = mul-le-mul_right E (omega arith) in
      let word = next_word (next / E) E (omega arith) (omega arith) in
      Ahead-later next n (
        again low (
          subst (λ i. seek_loop look E (λ k. now_cycles (suc k)) fuel i s1 ≡ ok (s', some n)) word
            h4))

  seek_loop-Ahead :
      (now_cycles : ℕ → Outcome ℕ)
      → Bounded look E latest positive small room now_cycles
      → (fuel next : ℕ) (s s' : S) (n : ℕ) → next < 2 ^ 63
      → next / E < 2 ^ 31
      → seek_loop look E now_cycles fuel next s ≡ ok (s', some n)
      → Ahead E next n
  unfolding seek_loop
  seek_loop-Ahead now_cycles bounded zero next s s' n hn hc h = cc
  seek_loop-Ahead now_cycles bounded (suc fuel) next s s' n hn hc h =
      let ((s1, found), h1, h2) = >>=-eq-ok (look next s) _ h in
      after_look now_cycles bounded fuel next s1 s' n found hn hc
        (λ low.
          let most : (next / E + 1) * E ≤ (latest + 1) * E = mul-le-mul_right E (omega arith) in
          let cycle : (next / E + 1) * E / E ≡ next / E + 1 = next_cycle (next / E) E positive in
          seek_loop-Ahead (λ k. now_cycles (suc k)) (λ k. bounded (suc k)) fuel ((next / E + 1) * E)
            s1 s' n (omega arith) (omega arith))
        h2

untested {ℓ} :
    {A : Type ℓ} (b : Bool) (x : A) {y z : A} → b ≡ false → (if b then x else y) ≡ z → y ≡ z
untested true x e h = cc
untested false x e h = h

abbrev index_of : Outcome (Tailing × Bool) → Option ℕ
index_of (ok ((t, w), found)) = some t.index
index_of (throws e) = none
index_of undefined = none
index_of out_of_fuel = none

not_negative : (x : ℕ) → x + 1 < 2 ^ 63 → is_neg64 x ≡ false
not_negative x h = ground arith

arrive_index :
    (found : Tailing × Option ℕ) (t' : ExcerptTailer) (w' : World)
    → arrive found ≡ ok ((t', w'), true)
    → found.1 ≡ some t'.index
unfolding arrive
arrive_index ((t, w), none) t' w' h = cc
arrive_index ((t, w), some n) t' w' h = ap index_of h

module _ (env : Environment) where
  seek_within-Ahead :
      (fuel : ℕ) (now : ℕ → ℕ) (cycle : ℕ) (t t' : ExcerptTailer) (w w' : World)
      → Clock now w.chronicle.settings.cycle_length cycle
      → 1 ≤ w.chronicle.settings.entries_per_cycle
      → cycle + 1 < 2 ^ 31
      → (cycle + 1) * w.chronicle.settings.entries_per_cycle < 2 ^ 63
      → add64 t.index 1 < 2 ^ 63
      → add64 t.index 1 / w.chronicle.settings.entries_per_cycle < 2 ^ 31
      → seek_within env fuel now (t, w) ≡ ok ((t', w'), true)
      → Ahead w.chronicle.settings.entries_per_cycle (add64 t.index 1) t'.index
  unfolding seek_within
  seek_within-Ahead fuel now cycle t t' w w' today positive small room start start_cycle h =
      let E : ℕ = w.chronicle.settings.entries_per_cycle in
      let (found, sought, arrived) =
        >>=-eq-ok
          (seek_loop (index env) E (λ k. cycle_for_now (now k) w.chronicle.settings.cycle_length)
            fuel (add64 t.index 1) (t, w))
          arrive h in
      seek_loop-Ahead (index env) E cycle positive small room
        (λ k. cycle_for_now (now k) w.chronicle.settings.cycle_length) today fuel (add64 t.index 1)
        (t, w) (found.0) t'.index start start_cycle
        (sought ∙ ap (λ o. ok (found.0, o)) (arrive_index found t' w' arrived))

  -- If a tailer at an index that is not negative finds an excerpt by `next_index`, then its
  -- index is the one behind the index it had, or the first index of a later cycle. In every
  -- round the clock gives a cycle up to `cycle`; that cycle, the next and the cycle of the
  -- index behind the tailer's own are std::int32_t, the entries per cycle positive, and the
  -- indices up to the cycle after `cycle`, and behind the tailer's own, stay below 2 ^ 63.
  pub next_index-Ahead :
      (now : ℕ → ℕ) (cycle : ℕ) (t t' : ExcerptTailer) (w w' : World)
      → Clock now w.chronicle.settings.cycle_length cycle
      → 1 ≤ w.chronicle.settings.entries_per_cycle
      → cycle + 1 < 2 ^ 31
      → (cycle + 1) * w.chronicle.settings.entries_per_cycle < 2 ^ 63
      → t.index + 1 < 2 ^ 63
      → t.index + 1 < 2 ^ 31 * w.chronicle.settings.entries_per_cycle
      → next_index env now (t, w) ≡ ok ((t', w'), true)
      → Ahead w.chronicle.settings.entries_per_cycle (t.index + 1) t'.index
  unfolding next_index seek
  next_index-Ahead now cycle t t' w w' today positive small room below low h =
      let E : ℕ = w.chronicle.settings.entries_per_cycle in
      let next : add64 t.index 1 ≡ t.index + 1 = omega arith in
      let not_neg : is_neg64 t.index ≡ false = not_negative t.index below in
      let h1 : seek_within env seek_fuel now (t, w) ≡ ok ((t', w'), true) =
        untested (is_neg64 t.index) _ not_neg h in
      subst (λ n. Ahead E n t'.index) next
        (seek_within-Ahead seek_fuel now cycle t t' w w' today positive small room (omega arith)
          (subst (λ n. n / E < 2 ^ 31) (sym next) (div_bound (t.index + 1) (2 ^ 31) E low)) h1)
