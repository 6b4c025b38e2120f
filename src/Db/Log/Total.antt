-- ===== src/Db/Log/Total.antt =====
-- The writer's loop ends, also on a file that fails.
use quas_db.Base.{
  ℕ, zero, suc, ◌+◌, ◌≤◌, ◌≡◌, ◌≢◌, refl, ap, ◌∙◌, Bool, true, false, ◌==◌, Bool-cases, inl, inr,
  none, List, length, take, drop, arith,
}
use quas_db.Util.Crc32c.{Crc32c}
use quas_db.Util.Env.{WritableFile}
use quas_db.Db.Log.{block_size, header_size}
use quas_db.Db.Log.Writer.{
  Writer, is_empty, switch_block, emit_physical_record, add_fragment, add_loop, add_record,
}
use quas_db.Db.Log.RoundTrip.Fragment.{settled, fragment_size}
use quas_db.Db.Log.RoundTrip.Record.{
  last_round, not_last_round, no_room, no_room_le, fills_block, rounds_left,
}

module _ {D : Type 0} (crc : Crc32c) (file : WritableFile D) where
  switch_block-settled :
      (w : Writer D) → (switch_block crc file w).block_offset ≡ settled w.block_offset
  unfolding switch_block
  switch_block-settled w = ground arith

  add_fragment_moves :
      (begin : Bool) (w : Writer D) (left : List ℕ)
      → ((add_fragment crc file begin w left).0.0.block_offset
          ≡ settled w.block_offset
            + header_size
            + length (take (fragment_size w.block_offset left) left))
        × ((add_fragment crc file begin w left).1 ≡ drop (fragment_size w.block_offset left) left)
  unfolding add_fragment emit_physical_record
  add_fragment_moves begin w left = rw (switch_block-settled w) (refl, refl)

  add_loop-some_last :
      (n : ℕ) (begin : Bool) (w : Writer D) (left : List ℕ)
      → is_empty (add_fragment crc file begin w left).1 ≡ true
      → add_loop crc file (suc n) begin w left ≢ none
  unfolding add_loop
  add_loop-some_last n begin w left done = ground arith

  add_loop-some_more :
      (n : ℕ) (begin : Bool) (w : Writer D) (left rest : List ℕ)
      → (add_fragment crc file begin w left).1 ≡ rest
      → add_loop crc file n false (add_fragment crc file begin w left).0.0 rest ≢ none
      → add_loop crc file (suc n) begin w left ≢ none
  unfolding add_loop
  add_loop-some_more n begin w left rest e later = ground arith

  add_loop-ne-none :
      (fuel : ℕ) (begin : Bool) (w : Writer D) (left : List ℕ)
      → w.block_offset ≤ block_size
      → length left + 1 + no_room w.block_offset ≤ fuel
      → add_loop crc file fuel begin w left ≢ none
  add_loop-ne-none zero begin w left h enough = absurd (omega arith)
  add_loop-ne-none (suc fuel) begin w left h enough =
      let (moved, remains) = add_fragment_moves begin w left in
      elim (Bool-cases (length left == fragment_size w.block_offset left)) [
        | inl end ↦
            add_loop-some_last fuel begin w left
              (rw (remains, (last_round w.block_offset left end).1) refl)
        | inr more ↦
            let full_block : (add_fragment crc file begin w left).0.0.block_offset ≡ block_size =
              moved
              ∙ (ap (λ (n : ℕ). settled w.block_offset + header_size + n)
                    (not_last_round w.block_offset left more).2
                  ∙ fills_block w.block_offset h) in
            add_loop-some_more fuel begin w left (drop (fragment_size w.block_offset left) left)
              remains
              (add_loop-ne-none fuel false (add_fragment crc file begin w left).0.0
                (drop (fragment_size w.block_offset left) left) (omega (arith, full_block))
                (rw full_block (omega (arith, rounds_left w.block_offset fuel left h more enough))))
      ]

  -- AddRecord ends with a status for every record, whatever its file does, from every offset in a
  -- block: the fuel is enough.
  pub add_record-ne-none :
      (w : Writer D) (slice : List ℕ)
      → w.block_offset ≤ block_size
      → add_record crc file w slice ≢ none
  unfolding add_record
  add_record-ne-none w slice h =
      add_loop-ne-none (length slice + 2) true w slice h (omega (arith, no_room_le w.block_offset))
