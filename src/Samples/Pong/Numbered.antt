-- ===== src/Samples/Pong/Numbered.antt =====
-- The check of cornelich_sample/pong.cpp on what the threads of ping.cpp write.
use cornelich.Common.{
  ℕ, zero, suc, ◌+◌, ◌-◌, ◌%◌, ◌^◌, ◌≤◌, ◌<◌, ◌≡◌, ◌≢◌, ◌⊎◌, inl, inr, refl, sym, ap, arith, Bool,
  true, false, not, ◌||◌, ◌==◌, Bool-cases, List, [], ◌∷◌, Option, none, some, map, length, Outcome,
  ok,
}
use mathlib.Core.Logic.{ite}
use mathlib.Core.Path.{ap₂}
use mathlib.Core.List.{tail}
use native.Mathlib.Decide.{ℕ_discrete}
use cornelich.Formatters.{Field}
use cornelich.Common.Words.{widen}
use cornelich.Samples.Ping.{ping_fields}
use cornelich.Samples.Pong.{
  Counts, no_counts, counted, count_up, same_text, check_values, check_fields, pong_loop,
}

-- Polls of a tailer: an excerpt of a thread with its number, or none.
abbrev pub Polls : Type 0
Polls = List (Option (ℕ × ℕ))

abbrev pub excerpts : Polls → List (ℕ × ℕ)
excerpts [] = []
excerpts (none ∷ polls) = excerpts polls
excerpts (some e ∷ polls) = e ∷ excerpts polls

-- The next poll, with the fields that the thread writes.
unfoldable pub next_poll : Polls → Outcome (Option (List Field) × Polls)
next_poll [] = ok (none, [])
next_poll (none ∷ polls) = ok (none, polls)
next_poll (some (tid, i) ∷ polls) = ok (some (ping_fields tid i), polls)

abbrev pub occurrences : ℕ → List ℕ → ℕ
occurrences j [] = 0
occurrences j (i ∷ is) = ite (ℕ_discrete i j) (suc (occurrences j is)) (occurrences j is)

-- Each thread counts its excerpts from 0 on: the numbers, if the threads write in the given order,
-- after those `before`.
abbrev pub numbered : List ℕ → List ℕ → List (ℕ × ℕ)
numbered before [] = []
numbered before (tid ∷ tids) = (tid, occurrences tid before) ∷ numbered (tid ∷ before) tids

abbrev pub thread_of : ℕ × ℕ → ℕ
thread_of (tid, i) = tid

occurrences_bounded : (j : ℕ) (is : List ℕ) → occurrences j is ≤ length is
occurrences_bounded j [] = omega arith
occurrences_bounded j (i ∷ is) = ground (arith, occurrences_bounded j is)

abbrev Matches : Counts → List ℕ → Type 0
Matches counts before = (j : ℕ) → counts j ≡ occurrences j before

counted-Matches :
    (tid : ℕ) (counts : Counts) (before : List ℕ)
    → length before < 2 ^ 31
    → Matches counts before
    → Matches (counted tid counts) (tid ∷ before)
unfolding counted
counted-Matches tid counts before short h j =
    ground (arith, h j, h tid, occurrences_bounded tid before)

or_false : (b : Bool) → (b || (false || (false || false))) ≡ b
or_false true = refl
or_false false = refl

check_ping :
    (tid i : ℕ) (counts : Counts)
    → counts tid < 2 ^ 31 - 1
    → check_fields (ping_fields tid i) counts ≡ ok (counted tid counts, not (counts tid == i))
unfolding check_fields ping_fields check_values count_up same_text
check_ping tid i counts h =
    let not_top : (counts tid == 2 ^ 31 - 1) ≡ false = ground arith in
    let wide : widen (counts tid) ≡ counts tid = ground arith in
    rw (not_top, wide) (ap (λ b. ok (counted tid counts, b)) (or_false (not (counts tid == i))))

-- What the loop returns on the polls to come.
Verdict : List ℕ → List (ℕ × ℕ) → Outcome ℕ → Type 0
Verdict before es result =
    ((es ≡ numbered before (map thread_of es)) × (result ≡ ok 0))
    ⊎ ((es ≢ numbered before (map thread_of es)) × (result ≡ ok 1))

abbrev first_number : List (ℕ × ℕ) → ℕ
first_number [] = 0
first_number ((tid, i) ∷ es) = i

nothing_left :
    (before : List ℕ) (es : List (ℕ × ℕ)) (result : Outcome ℕ)
    → length es ≡ 0
    → result ≡ ok 0
    → Verdict before es result
unfolding Verdict
nothing_left before [] result h e = inl (refl, e)
nothing_left before (x ∷ es) result h e = ground arith

one_more :
    (tid i : ℕ) (before : List ℕ) (es : List (ℕ × ℕ)) (result : Outcome ℕ)
    → occurrences tid before ≡ i
    → Verdict (tid ∷ before) es result
    → Verdict before ((tid, i) ∷ es) result
unfolding Verdict
one_more tid i before es result same (inl (numbers, e)) =
    inl (ap₂ (λ k l. (tid, k) ∷ l) (sym same) numbers, e)
one_more tid i before es result same (inr (others, e)) = inr (λ all. others (ap tail all), e)

mismatch :
    (tid i : ℕ) (before : List ℕ) (es : List (ℕ × ℕ))
    → occurrences tid before ≢ i
    → Verdict before ((tid, i) ∷ es) (ok 1)
unfolding Verdict
mismatch tid i before es other = inr (λ all. other (sym (ap first_number all)), refl)

pong-Verdict :
    (polls : Polls) (before : List ℕ) (counts : Counts) (max_count rounds count : ℕ)
    → Matches counts before
    → length before + length (excerpts polls) < 2 ^ 31
    → count + length (excerpts polls) ≡ max_count
    → max_count < 2 ^ 31
    → length polls < rounds
    → Verdict before (excerpts polls) (pong_loop next_poll max_count rounds count counts polls)
unfolding pong_loop next_poll
pong-Verdict [] before counts max_count (suc rounds) count h short whole bound enough =
    nothing_left before [] _ refl (ground arith)
pong-Verdict (none ∷ polls) before counts max_count (suc rounds) count h short whole bound enough =
    let rest =
      pong-Verdict polls before counts max_count rounds count h short whole bound (omega arith) in
    elim (Bool-cases (count == max_count)) [
      | inl at_end ↦ rw at_end (nothing_left before (excerpts polls) (ok 0) (ground arith) refl)
      | inr further ↦ rw further rest
    ]
pong-Verdict (some (tid, i) ∷ polls) before counts max_count (suc rounds) count h short whole bound
      enough =
    let below : counts tid < 2 ^ 31 - 1 = omega (arith, h tid, occurrences_bounded tid before) in
    let rest =
      pong-Verdict polls (tid ∷ before) (counted tid counts) max_count rounds ((count + 1) % 2 ^ 32)
        (counted-Matches tid counts before (omega arith) h) (omega arith) (omega arith) bound
        (omega arith) in
    let further : (count == max_count) ≡ false = ground arith in
    elim (Bool-cases (counts tid == i)) [
      | inl same ↦
          rw (further, check_ping tid i counts below, same)
            (one_more tid i before (excerpts polls) _ (ground (arith, h tid)) rest)
      | inr other ↦
          rw (further, check_ping tid i counts below, other)
            (mismatch tid i before (excerpts polls) (ground (arith, h tid)))
    ]
pong-Verdict polls before counts max_count zero count h short whole bound enough = ground arith

-- A thread of pong.cpp that polls excerpts of any number of threads of ping.cpp, as many as it
-- expects and fewer than 2 ^ 31, with rounds that find nothing in between, ends: it returns 0 if
-- the excerpts of each thread come in the order 0, 1, …, however the threads are interleaved, and
-- 1 if they do not.
pub pong_loop_lem :
    (polls : Polls)
    → length (excerpts polls) < 2 ^ 31
    → (excerpts polls ≡ numbered [] (map thread_of (excerpts polls))
        → pong_loop next_poll (length (excerpts polls)) (suc (length polls)) 0 no_counts polls
          ≡ ok 0)
      × (excerpts polls ≢ numbered [] (map thread_of (excerpts polls))
          → pong_loop next_poll (length (excerpts polls)) (suc (length polls)) 0 no_counts polls
            ≡ ok 1)
unfolding Verdict
pong_loop_lem polls short =
    elim (pong-Verdict polls [] no_counts (length (excerpts polls)) (suc (length polls)) 0
      (λ j. refl) (omega arith) (omega arith) short (omega arith)) [
        | inl (numbers, e) ↦ (λ _. e, λ different. elim (different numbers) [ ])
        | inr (others, e) ↦ (λ numbers. elim (others numbers) [ ], λ _. e)
      ]
