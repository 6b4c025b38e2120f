-- ===== src/Table/BlockBuilder.antt =====
-- kv/table/block_builder.cpp: entries whose keys leave out the prefix that they share with the key
-- before, and the array of restart points.
pub mod Build
pub mod Finish
use quas_db.Base.{
  ℕ, zero, suc, ◌+◌, ◌-◌, ◌*◌, ◌%◌, ◌^◌, Bool, true, false, ltb, if◌then◌else◌, List, [], ◌∷◌, ◌++◌,
  length, take, drop,
}
use quas_db.Util.Coding.{put_varint32, put_fixed32}
use quas_db.Util.Comparator.{common_prefix_loop, min_size}

pub record BlockBuilder : Type 0 where
  pub buffer : List ℕ
  pub restarts : List ℕ
  pub counter : ℕ
  pub finished : Bool
  pub last_key : List ℕ

-- The constructor, and what Reset leaves.
unfoldable pub new_block_builder : BlockBuilder
new_block_builder = record {
  buffer = [];
  restarts = 0 ∷ [];
  counter = 0;
  finished = false;
  last_key = [];
}

unfoldable pub reset : BlockBuilder → BlockBuilder
reset b = record b { buffer = []; restarts = 0 ∷ []; counter = 0; finished = false; last_key = [] }

unfoldable pub current_size_estimate : BlockBuilder → ℕ
current_size_estimate b = length b.buffer + length b.restarts * 4 + 4

-- How many bytes of the key are left out.
unfoldable pub shared_bytes : ℕ → BlockBuilder → List ℕ → ℕ
shared_bytes interval b key =
    if ltb b.counter interval
    then common_prefix_loop (min_size b.last_key key) b.last_key key 0
    else 0

-- The bytes of an entry, behind those of a buffer.
unfoldable pub put_entry : List ℕ → ℕ → List ℕ → List ℕ → List ℕ
put_entry buffer shared key value =
    let non_shared = length key - shared in
    put_varint32 (put_varint32 (put_varint32 buffer (shared % 2 ^ 32)) (non_shared % 2 ^ 32))
      (length value % 2 ^ 32)
    ++ (drop shared key ++ value)

-- `interval` is options->block_restart_interval.
unfoldable pub add_entry : ℕ → BlockBuilder → List ℕ → List ℕ → BlockBuilder
add_entry interval b key value =
    let shared = shared_bytes interval b key in
    record b {
      buffer = put_entry b.buffer shared key value;
      restarts =
          if ltb b.counter interval
          then b.restarts
          else b.restarts ++ (length b.buffer % 2 ^ 32 ∷ []);
      counter = (if ltb b.counter interval then b.counter else 0) + 1;
      last_key = take shared b.last_key ++ drop shared key;
    }

-- The loop of Finish.
unfoldable pub put_restarts : List ℕ → List ℕ → List ℕ
put_restarts buffer [] = buffer
put_restarts buffer (r ∷ restarts) = put_restarts (put_fixed32 buffer r) restarts

unfoldable pub finish : BlockBuilder → BlockBuilder
finish b = record b {
  buffer = put_fixed32 (put_restarts b.buffer b.restarts) (length b.restarts % 2 ^ 32);
  finished = true;
}
