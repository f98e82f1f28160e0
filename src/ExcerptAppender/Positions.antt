-- ===== src/ExcerptAppender/Positions.antt =====
-- The end of `finish` (cornelich/excerpt_appender.cpp): the data region moves on behind the excerpt.
use cornelich.Common.{
  ℕ, ◌%◌, ◌≤◌, ◌≡◌, refl, sym, ◌∙◌, ap, arith, true, false, ok, Outcome, ◌||◌, Bool-cases, inl, inr,
}
use cornelich.Common.Leaves.{Leaves, Leaves-ok}
use cornelich.Common.Words.{add32, slt32, is_neg32}
use mathlib.Core.Path.{subst}
use cornelich.Environment.{starts_with, index_file_name_prefix}
use cornelich.Files.{FilePath, Name}
use cornelich.Region.{Region, position, set_position, align_position}
use cornelich.Region.Positions.{IsValid, set_position-IsValid, align_position_lem, round_up}
use cornelich.World.Keeps.{SameMapping, SameMapping-refl}
use cornelich.World.Sane.{IsSane}

-- The region behind an excerpt of `len` bytes.
abbrev pub behind : Region → ℕ → Outcome Region
behind r len = align_position (set_position r (add32 (add32 (position r) len) 4)).0 4

-- A region of a data file, with a position anywhere in its bounds, aligned.
module _ {r : Region} (h : IsSane r)
    (is_data : starts_with r.path.file_name index_file_name_prefix ≡ false) where
  set_position-same : (p : ℕ) → SameMapping r (set_position r p).0
  unfolding set_position
  set_position-same p = elim (Bool-cases (slt32 r.limit_offset p || is_neg32 p)) [
    | inl refused ↦ rw (refused, set_position) (SameMapping-refl r)
    | inr taken ↦
        rw (taken, set_position) (record { same_path = refl; same_size = refl; same_index = refl })
  ]

  aligned :
      (x : Region)
      → IsValid x
      → SameMapping r x
      → Leaves (λ r'. SameMapping r r' × IsSane r') (align_position x 4)
  aligned x v same =
      let fits : round_up x.position_offset 2 ≤ x.size =
        (let whole : x.size % 8 ≡ 0 = ap (λ (n : ℕ). n % 8) same.same_size ∙ h.whole in
          omega (arith, v.within)) in
      let moved : align_position x 4
          ≡ ok (record x { position_offset = round_up x.position_offset 2 }) =
        align_position_lem 2 v (omega arith) ∙ ground (arith, fits) in
      subst (Leaves (λ r'. SameMapping r r' × IsSane r')) (sym moved) (
        Leaves-ok _ (
          record {
            same_path = same.same_path;
            same_size = same.same_size;
            same_index = same.same_index;
          },
          record {
            valid = record { starts = v.starts; ends = v.ends; small = v.small; within = fits };
            whole = ap (λ (n : ℕ). n % 8) same.same_size ∙ h.whole;
            at_word = omega arith;
            at_slot = λ e. absurd (no_index (ap (λ (q : FilePath). q.file_name) same.same_path) e);
          },
        ))
    where
      no_index :
          {name : Name}
          → name ≡ r.path.file_name
          → starts_with name index_file_name_prefix ≡ true
          → ⊥
      no_index e found = cc

  pub behind-IsSane : (len : ℕ) → Leaves (λ r'. SameMapping r r' × IsSane r') (behind r len)
  behind-IsSane len =
      aligned _ (set_position-IsValid (add32 (add32 (position r) len) 4) h.valid (omega arith))
        (set_position-same (add32 (add32 (position r) len) 4))
