-- ===== src/World/Writes.antt =====
-- Writes through a region: the bytes of its file, and its position.
use cornelich.Common.{
  ℕ, zero, suc, ◌≡◌, ◌≢◌, refl, sym, ap, ◌∙◌, ◌⊎◌, inl, inr, arith, List, [], ◌∷◌, none, some, ok,
  get_elem?, Option-cases,
}
use mathlib.Core.Path.{subst}
use cornelich.Files.{File, FilePath, find_file}
use cornelich.Files.Laws.{put_file-cases, find_file-put_file_self}
use cornelich.Memory.{Bytes}
use cornelich.Region.{Region}
use cornelich.World.{RegionPtr, Store}
use cornelich.World.Access.{region_at, put_region, put_bytes, replace}
use cornelich.World.Keeps.{Grows, SameMapping, SameMapping-refl, grows}
use cornelich.World.Mapping.{region_at-get_elem?}
use cornelich.World.Sane.{IsSane, Sane}

-- Files other than that of the path keep their bytes, and no file goes.
pub record WrittenAt (path : FilePath) (st st' : Store) : Type 0 where
  pub stay :
      (q : FilePath) (f : File)
      → find_file q st.files ≡ some f
      → (f' : File) × (find_file q st'.files ≡ some f')
  pub others :
      (q : FilePath) (f : File)
      → q ≢ path
      → find_file q st.files ≡ some f
      → find_file q st'.files ≡ some f

pub put_bytes-WrittenAt :
    (r : Region) (m : Bytes) (st : Store) → WrittenAt r.path st (put_bytes r m st)
unfolding put_bytes
put_bytes-WrittenAt r m st = elim (Option-cases (find_file r.path st.files)) [
  | inl absent ↦ rw (absent, put_bytes) record { stay = λ q f e. (f, e); others = λ q f other e. e }
  | inr (g, there) ↦
      rw (there, put_bytes)
        record {
          stay = λ q f e. elim (put_file-cases r.path q (record g { bytes = m }) st.files) [
            | inl (same, now) ↦ (record g { bytes = m }, now)
            | inr now ↦ (f, now ∙ e)
          ];
          others = λ q f other e. elim (put_file-cases r.path q (record g { bytes = m }) st.files) [
            | inl (same, now) ↦ absurd (other same)
            | inr now ↦ now ∙ e
          ];
        }
]

-- The file that is written.
pub put_bytes-find_file :
    (r : Region) (m : Bytes) (st : Store) (path : FilePath) (f : File)
    → r.path ≡ path
    → find_file path st.files ≡ some f
    → find_file path (put_bytes r m st).files ≡ some (record f { bytes = m })
unfolding put_bytes
put_bytes-find_file r m st path f same there =
    let here : find_file r.path st.files ≡ some f = ap (λ q. find_file q st.files) same ∙ there in
    subst (λ q. find_file q (put_bytes r m st).files ≡ some (record f { bytes = m })) same
      (rw (here, put_bytes) (find_file-put_file_self r.path (record f { bytes = m }) st.files))

pub region_at-put_bytes :
    (p : RegionPtr) (r : Region) (m : Bytes) (st : Store)
    → region_at p (put_bytes r m st) ≡ region_at p st
unfolding region_at put_bytes
region_at-put_bytes none r m st = refl
region_at-put_bytes (some i) r m st = ground arith

get_elem?-replace :
    (xs : List Region) (i j : ℕ) (r x : Region)
    → get_elem? (replace xs i r) j ≡ some x
    → (get_elem? xs j ≡ some x) ⊎ (x ≡ r)
unfolding replace
get_elem?-replace [] i j r x e = inl e
get_elem?-replace (y ∷ xs) zero zero r x e = inr (ground (arith, e))
get_elem?-replace (y ∷ xs) zero (suc j) r x e = inl e
get_elem?-replace (y ∷ xs) (suc i) zero r x e = inl e
get_elem?-replace (y ∷ xs) (suc i) (suc j) r x e = get_elem?-replace xs i j r x e

-- The element that is there is replaced, or it stays.
replace-get_elem? :
    (xs : List Region) (i j : ℕ) (r y x : Region)
    → get_elem? xs i ≡ some y
    → get_elem? xs j ≡ some x
    → (get_elem? (replace xs i r) j ≡ some x) ⊎ ((x ≡ y) × (get_elem? (replace xs i r) j ≡ some r))
unfolding replace
replace-get_elem? [] i j r y x e d = cc
replace-get_elem? (z ∷ xs) zero zero r y x e d = inr (ground (arith, e, d), refl)
replace-get_elem? (z ∷ xs) zero (suc j) r y x e d = inl d
replace-get_elem? (z ∷ xs) (suc i) zero r y x e d = inl d
replace-get_elem? (z ∷ xs) (suc i) (suc j) r y x e d = replace-get_elem? xs i j r y x e d

region_at_found :
    (i : ℕ) (st : Store) (x : Region)
    → get_elem? st.regions i ≡ some x
    → region_at (some i) st ≡ ok x
unfolding region_at
region_at_found i st x e = rw (e, region_at) refl

put_region-old :
    (p q : RegionPtr) (r y x : Region) (st : Store)
    → region_at p st ≡ ok y
    → region_at q st ≡ ok x
    → (region_at q (put_region p r st) ≡ ok x)
      ⊎ ((x ≡ y) × (region_at q (put_region p r st) ≡ ok r))
unfolding put_region region_at
put_region-old none q r y x st e d = cc
put_region-old (some i) none r y x st e d = cc
put_region-old (some i) (some j) r y x st e d =
    elim (replace-get_elem? st.regions i j r y x (region_at-get_elem? i st y e)
      (region_at-get_elem? j st x d)) [
        | inl old ↦ inl (region_at_found j (put_region (some i) r st) x old)
        | inr (same, new) ↦ inr (same, region_at_found j (put_region (some i) r st) r new)
      ]

put_region-new :
    (p q : RegionPtr) (r x : Region) (st : Store)
    → region_at q (put_region p r st) ≡ ok x
    → (region_at q st ≡ ok x) ⊎ (x ≡ r)
unfolding put_region region_at
put_region-new none q r x st e = inl e
put_region-new (some i) none r x st e = cc
put_region-new (some i) (some j) r x st e =
    elim (get_elem?-replace st.regions i j r x
      (region_at-get_elem? j (put_region (some i) r st) x e)) [
        | inl old ↦ inl (region_at_found j st x old)
        | inr new ↦ inr new
      ]

pub put_region-files :
    (p : RegionPtr) (r : Region) (st : Store) (q : FilePath)
    → find_file q (put_region p r st).files ≡ find_file q st.files
unfolding put_region
put_region-files none r st q = refl
put_region-files (some i) r st q = refl

-- A region moved.
pub put_region-Grows :
    (p : RegionPtr) (r r' : Region) (st : Store)
    → region_at p st ≡ ok r
    → SameMapping r r'
    → Grows st (put_region p r' st)
put_region-Grows p r r' st at same =
    grows
      (λ q x e. elim (put_region-old p q r' r x st at e) [
        | inl old ↦ (x, old, SameMapping-refl x)
        | inr (eq, new) ↦ (r', new, subst (λ y. SameMapping y r') (sym eq) same)
      ])
      (λ q f e. (f, put_region-files p r' st q ∙ e))

pub put_region-Sane :
    (p : RegionPtr) (r' : Region) (st : Store) → IsSane r' → Sane st → Sane (put_region p r' st)
put_region-Sane p r' st good h = record {
  all = λ q x e. elim (put_region-new p q r' x st e) [
    | inl old ↦ h.all q x old
    | inr new ↦ subst IsSane (sym new) good
  ];
}

-- The bytes of a region's file written.
pub put_bytes-Grows : (r : Region) (m : Bytes) (st : Store) → Grows st (put_bytes r m st)
put_bytes-Grows r m st =
    grows (λ q x e. (x, region_at-put_bytes q r m st ∙ e, SameMapping-refl x))
      (WrittenAt.stay (put_bytes-WrittenAt r m st))

pub put_bytes-Sane : (r : Region) (m : Bytes) (st : Store) → Sane st → Sane (put_bytes r m st)
put_bytes-Sane r m st h = record {
  all = λ q x e. h.all q x (sym (region_at-put_bytes q r m st) ∙ e);
}

-- Both at once: a region moved, and its file written.
pub moved_and_written :
    (p : RegionPtr) (r : Region) (m : Bytes) (st : Store)
    → WrittenAt r.path st (put_bytes r m (put_region p r st))
moved_and_written p r m st =
    let w = put_bytes-WrittenAt r m (put_region p r st) in
    record {
      stay = λ q f e. w.stay q f (put_region-files p r st q ∙ e);
      others = λ q f other e. w.others q f other (put_region-files p r st q ∙ e);
    }
