-- ===== src/World/Ends.antt =====
-- The calls below the index and the data files: accesses to a region, files and the cache.
use cornelich.Common.{ℕ, arith, Bool, none, some, List, [], ◌∷◌, Outcome, ok, ◌>>=◌, if◌then◌else◌}
use cornelich.Common.Ends.{Ends, Ends-ok, Ends-undefined, Ends-if, Ends-bind, Ends-option}
use cornelich.Files.{Name, Files, make_file, ensure_directory}
use cornelich.Region.{Region, read_ordered64, read_ordered32}
use cornelich.Memory.{Bytes}
use cornelich.Util.Cache.{Cache, get, store, pop_front, find, relocate_to_end}
use cornelich.World.{Store, RegionPtr}
use cornelich.World.Access.{region_at, bytes_of}

pub region_at-Ends : (p : RegionPtr) (st : Store) → Ends (region_at p st)
unfolding region_at
region_at-Ends none st = Ends-undefined
region_at-Ends (some i) st = Ends-option _ _ _ Ends-undefined Ends-ok

pub bytes_of-Ends : (r : Region) (st : Store) → Ends (bytes_of r st)
unfolding bytes_of
bytes_of-Ends r st = Ends-option _ _ _ Ends-undefined (λ f. Ends-ok f.bytes)

pub read_ordered64-Ends : (r : Region) (m : Bytes) (offset : ℕ) → Ends (read_ordered64 r m offset)
unfolding read_ordered64
read_ordered64-Ends r m offset =
    Ends-if _ _ _ (Ends-if _ _ _ (Ends-ok _) Ends-undefined) Ends-undefined

pub read_ordered32-Ends : (r : Region) (m : Bytes) (offset : ℕ) → Ends (read_ordered32 r m offset)
unfolding read_ordered32
read_ordered32-Ends r m offset =
    Ends-if _ _ _ (Ends-if _ _ _ (Ends-ok _) Ends-undefined) Ends-undefined

ensure_directory-Ends : (dir : Name) (fs : Files) → Ends (ensure_directory dir fs)
unfolding ensure_directory
ensure_directory-Ends dir fs = record { ends = λ x. ground arith }

pub make_file-Ends : (c n : Name) (append : Bool) (fs : Files) → Ends (make_file c n append fs)
unfolding make_file
make_file-Ends c n append fs = Ends-if _ _ _ (Ends-ok _) (
    Ends-bind _ _ (ensure_directory-Ends c fs)
      (λ fs'. Ends-if _ _ _ (Ends-ok _) (Ends-if append _ _ (Ends-ok _) (Ends-ok _))))

module _ {ℓ} {K V : Type ℓ} (dec : Discrete K) where
  pop_front-Ends : (l : List (K × V)) → Ends (pop_front l)
  unfolding pop_front
  pop_front-Ends [] = Ends-undefined
  pop_front-Ends (e ∷ l) = Ends-ok l

  store-Ends : (c : Cache K V) (k : K) (v : V) → Ends (store dec c k v)
  unfolding store
  store-Ends c k v =
      Ends-bind _ _ (Ends-if _ _ _ (pop_front-Ends c.container) (Ends-ok _)) (λ kept. Ends-ok _)

  pub get-Ends :
      {S : Type ℓ} (validator : V → Bool) (c : Cache K V) (k : K)
      (provider : K → S → Outcome (S × V)) (s : S)
      → Ends (provider k s)
      → Ends (get dec validator c k provider s)
  unfolding get
  get-Ends {S} validator c k provider s h =
      elim (find dec k c.container)
        as (λ o. Ends {A = S × Cache K V × V} (elim o [
          | some v ↦ ok (s, record c { container = relocate_to_end dec k v c.container }, v)
          | none ↦ provider k s >>= λ (s', v).
              if validator v then (store dec c k v >>= λ (c', w). ok (s', c', w)) else ok (s', c, v)
        ])) [
          | some v ↦ Ends-ok _
          | none ↦ Ends-bind _ _ h (λ (s', v).
              Ends-if _ _ _ (Ends-bind _ _ (store-Ends c k v) (λ (c', w). Ends-ok _)) (Ends-ok _))
        ]
