-- ===== src/Util/Coding/Groups.antt =====
-- The canonical varint: groups of seven bits, lowest first, the top bit set on all but the last.
use quas_db.Base.{
  ℕ, zero, suc, ◌+◌, ◌/◌, ◌%◌, ◌^◌, ◌≤◌, ◌<◌, ltb, if◌then◌else◌, ◌≡◌, refl, List, [], ◌∷◌, length,
  All, inl, inr, Bool-cases, arith,
}

-- At most `k + 1` groups.
unfoldable pub groups : ℕ → ℕ → List ℕ
groups zero v = v ∷ []
groups (suc k) v =
    let rest = groups k (v / 128) in if ltb v 128 then v ∷ [] else (v % 128 + 128) ∷ rest

pub groups_more : (k v : ℕ) → v < 128 ^ suc k → groups (suc k) v ≡ groups k v
unfolding groups
groups_more zero v h = ground arith
groups_more (suc k) v h = ground (arith, groups_more k (v / 128) (omega arith))

pub length-groups : (k v : ℕ) → (1 ≤ length (groups k v)) × (length (groups k v) ≤ k + 1)
unfolding groups
length-groups zero v = omega arith
length-groups (suc k) v = ground (arith, length-groups k (v / 128))

pub groups-bytes : (k v : ℕ) → v < 128 ^ suc k → All (λ b. b < 256) (groups k v)
unfolding groups
groups-bytes zero v h = omega arith
groups-bytes (suc k) v h = ground (arith, groups-bytes k (v / 128) (omega arith))

pub groups-cons :
    (k v : ℕ) → v < 128 ^ suc k → (b : ℕ) × (p : List ℕ) × (groups k v ≡ b ∷ p) × (b < 256)
unfolding groups
groups-cons zero v h = (v, [], refl, omega arith)
groups-cons (suc k) v h = elim (Bool-cases (ltb v 128)) [
  | inl small ↦ (v, [], rw small, ground arith)
  | inr large ↦ (v % 128 + 128, groups k (v / 128), rw large, omega arith)
]
