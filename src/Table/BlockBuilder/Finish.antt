-- ===== src/Table/BlockBuilder/Finish.antt =====
-- The block that Finish leaves, opened again.
use quas_db.Base.{
  ℕ, zero, suc, ◌+◌, ◌-◌, ◌*◌, ◌/◌, ◌%◌, ◌^◌, ◌<◌, ◌≤◌, ◌≡◌, refl, sym, ap, ◌∙◌, false, ltb, ◌==◌,
  List, [], ◌∷◌, ◌++◌, All, length, length-append, append_assoc, append-nil, take, drop,
  take-append, drop_front, drop_over, arith, get_or,
}
use quas_db.Util.Coding.{encode_fixed32, decode_fixed32, put_fixed32}
use quas_db.Util.Coding.Fixed.{decode_fixed32-encode_fixed32, length-encode_fixed32}
use quas_db.Table.BlockBuilder.{BlockBuilder, put_restarts, finish}
use quas_db.Table.Block.{
  num_restarts_of, open_block, new_iter, get_restart_point, iterates, new_iterator,
}

abbrev restart_bytes : List ℕ → List ℕ
restart_bytes [] = []
restart_bytes (r ∷ rs) = encode_fixed32 r ++ restart_bytes rs

length-restart_bytes : (rs : List ℕ) → length (restart_bytes rs) ≡ length rs * 4
length-restart_bytes [] = refl
length-restart_bytes (r ∷ rs) = omega (
  arith,
  length-append (encode_fixed32 r) (restart_bytes rs),
  length-encode_fixed32 r,
  length-restart_bytes rs,
)

put_restarts-bytes : (buffer rs : List ℕ) → put_restarts buffer rs ≡ buffer ++ restart_bytes rs
unfolding put_restarts put_fixed32
put_restarts-bytes buffer [] = sym (append-nil buffer)
put_restarts-bytes buffer (r ∷ rs) =
    put_restarts-bytes (buffer ++ encode_fixed32 r) rs
    ∙ append_assoc buffer (encode_fixed32 r) (restart_bytes rs)

decode_restart :
    (rs : List ℕ) (i : ℕ) (more : List ℕ)
    → All (λ r. r < 2 ^ 32) rs
    → i < length rs
    → decode_fixed32 (drop (i * 4) (restart_bytes rs ++ more)) ≡ get_or rs i 0
decode_restart [] i more h k = absurd (omega arith)
decode_restart (r ∷ rs) zero more (small, h) k =
    rw (append_assoc (encode_fixed32 r) (restart_bytes rs) more)
      (decode_fixed32-encode_fixed32 r (restart_bytes rs ++ more) small)
decode_restart (r ∷ rs) (suc i) more (small, h) k =
    ap (λ (t : List ℕ). decode_fixed32 (drop (suc i * 4) t))
      (append_assoc (encode_fixed32 r) (restart_bytes rs) more)
    ∙ ap decode_fixed32 (
        drop_over (suc i * 4) (encode_fixed32 r) (restart_bytes rs ++ more)
          (omega (arith, length-encode_fixed32 r))
        ∙ ap (λ (n : ℕ). drop n (restart_bytes rs ++ more))
            (omega (arith, length-encode_fixed32 r)))
    ∙ decode_restart rs i more h (omega arith)

opened :
    (d : List ℕ) (n offset : ℕ)
    → num_restarts_of d ≡ n
    → length d ≡ offset + n * 4 + 4
    → 1 ≤ n
    → length d < 2 ^ 32
    → new_iterator (open_block d) ≡ iterates d offset n (new_iter d offset n)
unfolding new_iterator open_block
opened d n offset count long any fits =
    let room : ltb (length d) 4 ≡ false = ground arith in
    let allowed : ltb ((length d - 4) / 4) n ≡ false = ground arith in
    let start : (length d - (1 + n) * 4) % 2 ^ 32 ≡ offset = omega arith in
    let not_empty : (n == 0) ≡ false = ground arith in
    rw (count, room, allowed, room, count, not_empty, start) refl

module _ (b : BlockBuilder) where
  abbrev pub block_bytes : List ℕ
  block_bytes = (finish b).buffer

  pub block_bytes-split :
      block_bytes
      ≡ b.buffer ++ (restart_bytes b.restarts ++ encode_fixed32 (length b.restarts % 2 ^ 32))
  unfolding finish put_fixed32
  block_bytes-split =
      ap (λ (t : List ℕ). t ++ encode_fixed32 (length b.restarts % 2 ^ 32))
        (put_restarts-bytes b.buffer b.restarts)
      ∙ append_assoc b.buffer (restart_bytes b.restarts)
          (encode_fixed32 (length b.restarts % 2 ^ 32))

  pub length-block_bytes : length block_bytes ≡ length b.buffer + length b.restarts * 4 + 4
  length-block_bytes = omega (
    arith,
    ap length block_bytes-split,
    length-append b.buffer
        (restart_bytes b.restarts ++ encode_fixed32 (length b.restarts % 2 ^ 32)),
    length-append (restart_bytes b.restarts) (encode_fixed32 (length b.restarts % 2 ^ 32)),
    length-restart_bytes b.restarts,
    length-encode_fixed32 (length b.restarts % 2 ^ 32),
  )

  pub take-block_bytes : take (length b.buffer) block_bytes ≡ b.buffer
  take-block_bytes =
      ap (take (length b.buffer)) block_bytes-split
      ∙ take-append b.buffer
          (restart_bytes b.restarts ++ encode_fixed32 (length b.restarts % 2 ^ 32))

  pub buffer-block_bytes : length b.buffer < length block_bytes
  buffer-block_bytes = omega (arith, length-block_bytes)

module _ (b : BlockBuilder) (some_restart : 1 ≤ length b.restarts)
    (small : All (λ r. r < 2 ^ 32) b.restarts) (fits : length (finish b).buffer < 2 ^ 32) where
  num_restarts-finish : num_restarts_of (block_bytes b) ≡ length b.restarts
  num_restarts-finish =
      let count = encode_fixed32 (length b.restarts % 2 ^ 32) in
      ap (λ (t : List ℕ). decode_fixed32 (drop (length (block_bytes b) - 4) t))
        ((block_bytes-split b) ∙ sym (append_assoc b.buffer (restart_bytes b.restarts) count))
      ∙ ap decode_fixed32 (
          drop_front (length (block_bytes b) - 4) (b.buffer ++ restart_bytes b.restarts) count (
            omega (
              arith,
              (length-block_bytes b),
              length-append b.buffer (restart_bytes b.restarts),
              length-restart_bytes b.restarts,
            ))
          ∙ sym (append-nil count))
      ∙ decode_fixed32-encode_fixed32 (length b.restarts % 2 ^ 32) [] (omega arith)
      ∙ omega (arith, (length-block_bytes b))

  pub get_restart_point-finish :
      (i n : ℕ)
      → i < length b.restarts
      → get_restart_point (block_bytes b) (length b.buffer) n i ≡ get_or b.restarts i 0
  unfolding get_restart_point
  get_restart_point-finish i n h =
      let count = encode_fixed32 (length b.restarts % 2 ^ 32) in
      ap (λ (t : List ℕ). decode_fixed32 (drop (length b.buffer + i * 4) t)) (block_bytes-split b)
      ∙ ap decode_fixed32 (
          drop_over (length b.buffer + i * 4) b.buffer (restart_bytes b.restarts ++ count)
            (omega arith)
          ∙ ap (λ (k : ℕ). drop k (restart_bytes b.restarts ++ count)) (omega arith))
      ∙ decode_restart b.restarts i count small h

  -- A block opens where its restart array and its size have room in 32 bits.
  pub new_iterator-finish :
      new_iterator (open_block (block_bytes b))
      ≡ iterates
          (block_bytes b)
          (length b.buffer)
          (length b.restarts)
          (new_iter (block_bytes b) (length b.buffer) (length b.restarts))
  new_iterator-finish =
      opened (block_bytes b) (length b.restarts) (length b.buffer) num_restarts-finish
        (length-block_bytes b) some_restart fits
