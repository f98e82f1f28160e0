-- ===== src/VanillaIndex/Appends.antt =====
-- `append` of cornelich/vanilla_index.cpp on any index region, whichever its bytes: a call that returns.
use cornelich.Common.{
  ℕ, zero, suc, ◌+◌, ◌/◌, ◌%◌, ◌≤◌, ◌≡◌, refl, sym, ◌∙◌, ◌⊎◌, inl, inr, arith, true, ok, ok_same,
}
use cornelich.Common.Words.{minus_one64}
use mathlib.Core.Path.{subst}
use native.Mathlib.Decide.{dec_lt, ℕ_discrete}
use cornelich.Environment.{starts_with, index_file_name_prefix}
use cornelich.Memory.{Bytes, load, store}
use cornelich.Region.{Region, position}
use cornelich.Region.Positions.{accessors}
use cornelich.VanillaIndex.Slots.{append_loop, append}
use cornelich.VanillaIndex.SlotsRefine.{step_taken, step_free, step_full}
use cornelich.World.Keeps.{SameMapping, SameMapping-refl}
use cornelich.World.Sane.{IsSane}

-- What a call leaves: the value in a slot of its own, or nothing and -1.
pub record Appended (r : Region) (m : Bytes) (value : ℕ) (r' : Region) (m' : Bytes) (at : ℕ)
    : Type 0 where
  pub same : SameMapping r r'
  pub sane : IsSane r'
  pub placed :
      ((at ≡ minus_one64) × (m' ≡ m))
      ⊎ ((at % 8 ≡ 0) × ((at + 8 ≤ r.size) × (m' ≡ store 8 m at value)))

module _ {r : Region} (h : IsSane r)
    (is_index : starts_with r.path.file_name index_file_name_prefix ≡ true) (m : Bytes)
    (value : ℕ) where
  placed_at :
      (p : ℕ)
      → p % 8 ≡ 0
      → p + 8 ≤ r.size
      → Appended r m value (record r { position_offset = p + 8 }) (store 8 m p value) p
  placed_at p slot inside = record {
    same = record { same_path = refl; same_size = refl; same_index = refl };
    sane = record {
      valid = record {
        starts = h.valid.starts;
        ends = h.valid.ends;
        small = h.valid.small;
        within = inside;
      };
      whole = h.whole;
      at_word = omega arith;
      at_slot = λ e. omega arith;
    };
    placed = inr (slot, (inside, refl));
  }

  nothing : Appended r m value r m minus_one64
  nothing = record { same = SameMapping-refl r; sane = h; placed = inl (refl, refl) }

  as_result :
      {x y : Region × Bytes × ℕ}
      → x ≡ y
      → Appended r m value (x.0) (x.1) (x.2)
      → Appended r m value (y.0) (y.1) (y.2)
  as_result e a = subst (λ (x : Region × Bytes × ℕ). Appended r m value (x.0) (x.1) (x.2)) e a

  append_loop-Appended :
      (fuel p : ℕ) {r' : Region} {m' : Bytes} {at : ℕ}
      → p % 8 ≡ 0
      → p ≤ r.size
      → append_loop fuel r m value p ≡ ok (r', m', at)
      → Appended r m value r' m' at
  unfolding append_loop
  append_loop-Appended zero p slot low e = cc
  append_loop-Appended (suc fuel) p {r' = r'} {m' = m'} {at = at} slot low e =
      elim (dec_lt r.size (p + 8)) [
        | yes full ↦
            as_result (ok_same (sym (step_full h.valid m value fuel p low full) ∙ e)) nothing
        | no space ↦ elim (ℕ_discrete (load 8 m p) 0) [
          | yes free ↦
              as_result (ok_same (sym (step_free h.valid m value fuel p (omega arith) free) ∙ e))
                (placed_at p slot (omega arith))
          | no taken ↦
              append_loop-Appended fuel (p + 8) (omega arith) (omega arith)
                (sym (step_taken h.valid m value fuel p (omega arith) taken) ∙ e)
        ]
      ]

  pub append-Appended :
      {r' : Region} {m' : Bytes} {at : ℕ}
      → append r m value ≡ ok (r', m', at)
      → Appended r m value r' m' at
  unfolding append
  append-Appended e =
      let here : position r ≡ r.position_offset = (accessors h.valid).0 in
      append_loop-Appended (r.size / 8 + 1) (position r) (rw here (h.at_slot is_index))
        (rw here h.valid.within) e
