-- ===== src/Memory.antt =====
-- The bytes of a mapped file, and the little-endian accesses of several bytes on it. A file is
-- extended with zeros, so every byte behind those written is 0.
use cornelich.Common.{ℕ, zero, suc, ◌+◌, ◌*◌, ◌/◌, ◌%◌, ◌^◌, ◌≤◌, ◌<◌, ◌≡◌, refl, ◌∙◌, arith}
use cornelich.Common.{◌⊎◌, List, [], ◌∷◌, length}
use mathlib.Core.Logic.{ite}
use native.Mathlib.Decide.{ℕ_discrete}
use native.Mathlib.Nat.{pow-suc, one-le-pow}

abbrev pub Bytes : Type 0
Bytes = ℕ → ℕ

abbrev pub update : Bytes → ℕ → ℕ → Bytes
update m i b j = ite (ℕ_discrete i j) b (m j)

-- `k` bytes at an offset, the lowest first.
unfoldable pub load : ℕ → Bytes → ℕ → ℕ
load zero m offset = 0
load (suc k) m offset = m offset + 256 * load k m (offset + 1)

unfoldable pub store : ℕ → Bytes → ℕ → ℕ → Bytes
store zero m offset v = m
store (suc k) m offset v = store k (update m offset (v % 256)) (offset + 1) (v / 256)

-- The given bytes from an offset on (`memcpy`).
unfoldable pub store_bytes : Bytes → ℕ → List ℕ → Bytes
store_bytes m offset [] = m
store_bytes m offset (b ∷ bs) = store_bytes (update m offset b) (offset + 1) bs

unfoldable pub load_bytes : ℕ → Bytes → ℕ → List ℕ
load_bytes zero m offset = []
load_bytes (suc n) m offset = m offset ∷ load_bytes n m (offset + 1)

-- A store changes no byte outside its range.
pub store_outside :
    (k : ℕ) (m : Bytes) (offset v j : ℕ)
    → (j < offset) ⊎ (offset + k ≤ j)
    → store k m offset v j ≡ m j
unfolding store
store_outside zero m offset v j h = refl
store_outside (suc k) m offset v j h =
    store_outside k (update m offset (v % 256)) (offset + 1) (v / 256) j (omega arith)
    ∙ ground arith

pub store_bytes_outside :
    (bs : List ℕ) (m : Bytes) (offset j : ℕ)
    → (j < offset) ⊎ (offset + length bs ≤ j)
    → store_bytes m offset bs j ≡ m j
unfolding store_bytes
store_bytes_outside [] m offset j h = refl
store_bytes_outside (b ∷ bs) m offset j h =
    store_bytes_outside bs (update m offset b) (offset + 1) j (omega arith) ∙ ground arith

-- A load depends on the bytes of its range alone.
pub load_agree :
    (k : ℕ) (m m' : Bytes) (offset : ℕ)
    → ((j : ℕ) → offset ≤ j → j < offset + k → m j ≡ m' j)
    → load k m offset ≡ load k m' offset
unfolding load
load_agree zero m m' offset h = refl
load_agree (suc k) m m' offset h = omega (
  arith,
  h offset (omega arith) (omega arith),
  load_agree k m m' (offset + 1) (λ j p q. h j (omega arith) (omega arith)),
)

low_byte : (v q : ℕ) → 1 ≤ q → v % 256 + 256 * (v / 256 % q) ≡ v % (q * 256)
low_byte v q h = grind arith

-- Reading back what was stored.
pub load-store_self :
    (k : ℕ) (m : Bytes) (offset v : ℕ) → load k (store k m offset v) offset ≡ v % 256 ^ k
unfolding load store
load-store_self zero m offset v = omega arith
load-store_self (suc k) m offset v =
    let m' : Bytes = update m offset (v % 256) in
    let low : store k m' (offset + 1) (v / 256) offset ≡ v % 256 =
      store_outside k m' (offset + 1) (v / 256) offset (omega arith) ∙ ground arith in
    rw (low, load-store_self k m' (offset + 1) (v / 256), pow-suc)
      (low_byte v (256 ^ k) (one-le-pow k 256 (omega arith)))

-- Accesses of ranges that do not meet.
pub load-store_disjoint :
    (k n : ℕ) (m : Bytes) (offset at v : ℕ)
    → (at + k ≤ offset) ⊎ (offset + n ≤ at)
    → load k (store n m offset v) at ≡ load k m at
load-store_disjoint k n m offset at v h =
    load_agree k (store n m offset v) m at (λ j p q. store_outside n m offset v j (omega arith))

pub load-store_bytes_disjoint :
    (k : ℕ) (bs : List ℕ) (m : Bytes) (offset at : ℕ)
    → (at + k ≤ offset) ⊎ (offset + length bs ≤ at)
    → load k (store_bytes m offset bs) at ≡ load k m at
load-store_bytes_disjoint k bs m offset at h =
    load_agree k (store_bytes m offset bs) m at
      (λ j p q. store_bytes_outside bs m offset j (omega arith))

pub load_bytes_agree :
    (n : ℕ) (m m' : Bytes) (offset : ℕ)
    → ((j : ℕ) → offset ≤ j → j < offset + n → m j ≡ m' j)
    → load_bytes n m offset ≡ load_bytes n m' offset
unfolding load_bytes
load_bytes_agree zero m m' offset h = refl
load_bytes_agree (suc n) m m' offset h = rw (
  h offset (omega arith) (omega arith),
  load_bytes_agree n m m' (offset + 1) (λ j p q. h j (omega arith) (omega arith)),
)

pub load_bytes-store_bytes_self :
    (bs : List ℕ) (m : Bytes) (offset : ℕ)
    → load_bytes (length bs) (store_bytes m offset bs) offset ≡ bs
unfolding load_bytes store_bytes
load_bytes-store_bytes_self [] m offset = refl
load_bytes-store_bytes_self (b ∷ bs) m offset =
    let m' : Bytes = update m offset b in
    let first : store_bytes m' (offset + 1) bs offset ≡ b =
      store_bytes_outside bs m' (offset + 1) offset (omega arith) ∙ ground arith in
    rw (first, load_bytes-store_bytes_self bs m' (offset + 1))
