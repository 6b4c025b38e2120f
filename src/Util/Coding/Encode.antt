-- ===== src/Util/Coding/Encode.antt =====
-- The two varint encoders write the canonical groups, and VarintLength counts them.
use quas_db.Base.{ℕ, zero, suc, ◌+◌, ◌/◌, ◌^◌, ◌≤◌, ◌<◌, ◌≡◌, sym, ap, ◌∙◌, All, length, arith}
use quas_db.Base.Bits.{continuation_byte}
use quas_db.Base.Order.{lt_wf}
use quas_db.Util.Coding.{
  IsByte, encode_varint32, encode_varint64_loop, encode_varint64, varint_length_loop, varint_length,
}
use quas_db.Util.Coding.Groups.{groups, length-groups, groups-bytes}
use mathlib.Core.WellFounded.{Acc}

pub encode_varint32-groups : (v : ℕ) → v < 2 ^ 32 → encode_varint32 v ≡ groups 4 v
unfolding encode_varint32 groups
encode_varint32-groups v h = ground (
  arith,
  continuation_byte v,
  continuation_byte (v / 2 ^ 7),
  continuation_byte (v / 2 ^ 14),
  continuation_byte (v / 2 ^ 21),
)

loop-groups : (k v : ℕ) (w : Acc ◌<◌ v) → v < 128 ^ suc k → encode_varint64_loop v w ≡ groups k v
unfolding encode_varint64_loop groups
loop-groups zero v (Acc.intro _ smaller) h = ground arith
loop-groups (suc k) v (Acc.intro _ smaller) h =
    grind (
      arith,
      continuation_byte v,
      λ (w : Acc ◌<◌ (v / 128)). loop-groups k (v / 128) w (omega arith),
    )

pub encode_varint64-groups : (v : ℕ) → v < 2 ^ 64 → encode_varint64 v ≡ groups 9 v
unfolding encode_varint64
encode_varint64-groups v h = loop-groups 9 v (lt_wf.apply v) (omega arith)

-- On every uint32 the unrolled EncodeVarint32 writes the bytes of the loop of EncodeVarint64.
pub encode_varint32-encode_varint64 : (v : ℕ) → v < 2 ^ 32 → encode_varint32 v ≡ encode_varint64 v
unfolding encode_varint64
encode_varint32-encode_varint64 v h =
    encode_varint32-groups v h ∙ sym (loop-groups 4 v (lt_wf.apply v) (omega arith))

length_loop :
    (k v : ℕ) (w : Acc ◌<◌ v) (len : ℕ)
    → v < 128 ^ suc k
    → varint_length_loop v w len + 1 ≡ len + length (groups k v)
unfolding varint_length_loop groups
length_loop zero v (Acc.intro _ smaller) len h = ground arith
length_loop (suc k) v (Acc.intro _ smaller) len h =
    grind (arith, λ (w : Acc ◌<◌ (v / 128)). length_loop k (v / 128) w (len + 1) (omega arith))

length_of_groups : (v : ℕ) → v < 2 ^ 64 → varint_length v + 1 ≡ 1 + length (groups 9 v)
unfolding varint_length
length_of_groups v h = length_loop 9 v (lt_wf.apply v) 1 (omega arith)

-- VarintLength is the number of bytes that EncodeVarint64 writes, for every uint64.
pub varint_length-encode_varint64 :
    (v : ℕ) → v < 2 ^ 64 → varint_length v ≡ length (encode_varint64 v)
varint_length-encode_varint64 v h =
    omega (arith, length_of_groups v h, ap length (encode_varint64-groups v h))

pub encode_varint32_shape :
    (v : ℕ)
    → v < 2 ^ 32
    → All IsByte (encode_varint32 v)
      × (1 ≤ length (encode_varint32 v))
      × (length (encode_varint32 v) ≤ 5)
encode_varint32_shape v h =
    let (lo, hi) = length-groups 4 v in
    rw (encode_varint32-groups v h) (groups-bytes 4 v (omega arith), lo, hi)

pub encode_varint64_short : (v : ℕ) → v < 2 ^ 64 → length (encode_varint64 v) ≤ 10
encode_varint64_short v h =
    let (lo, hi) = length-groups 9 v in omega (arith, ap length (encode_varint64-groups v h), hi)
