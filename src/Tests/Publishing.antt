-- ===== src/Tests/Publishing.antt =====
-- Two calls of `set_last_written_index`, one of which has to compare again.
use cornelich.Common.{refl, arith}
use native.Mathlib.Decide.{ℕ_discrete}
use cornelich.ExcerptAppender.Publishing.{
  idle, looping, loaded, returned, call, load, exchange, fail, System, at, pick, Reach, here, later,
}
use cornelich.ExcerptAppender.PublishingSafety.{Raised, set_last_written_index-Raised}

abbrev quiet : System
quiet = record { last = 10; pc = λ i. idle }

-- Both have loaded 10.
abbrev both : System
both = record {
  last = 10;
  pc = at (at (at (at quiet.pc 0 (looping 15)) 1 (looping 20)) 1 (loaded 20 10)) 0 (loaded 15 10);
}

-- The exchange of the first comes first; the second one's fails, and it loads 15.
abbrev again : System
again = record {
  last = 15;
  pc = at (at (at both.pc 0 (returned 15)) 1 (looping 20)) 1 (loaded 20 15);
}

abbrev ended : System
ended = record { last = 20; pc = at again.pc 1 (returned 20) }

both-Reach : Reach quiet both
unfolding ℕ_discrete
both-Reach =
    later
      (later (later (later here (pick 0 (call (omega arith)))) (pick 1 (call (omega arith))))
        (pick 1 load))
      (pick 0 load)

ended-Reach : Reach quiet ended
unfolding ℕ_discrete
ended-Reach =
    later
      (later
        (later (later both-Reach (pick 0 (exchange (ground arith) refl)))
          (pick 1 (fail (ground arith))))
        (pick 1 load))
      (pick 1 (exchange (ground arith) refl))

set_last_written_index-Raised_example : Raised 10 ended
set_last_written_index-Raised_example = set_last_written_index-Raised (λ i. refl) ended-Reach
