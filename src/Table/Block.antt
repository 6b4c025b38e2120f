-- ===== src/Table/Block.antt =====
-- kv/table/block.cpp: the bytes of a block, and the iterator over its entries. A pointer into the
-- block is an offset.
pub mod Entry
pub mod Spells
pub mod Read
pub mod Seek
use quas_db.Base.{
  ℕ, zero, suc, ◌+◌, ◌-◌, ◌*◌, ◌/◌, ◌%◌, ◌^◌, bit_or, Bool, true, false, not, ◌&&◌, ◌||◌, ltb, leb,
  ◌==◌, if◌then◌else◌, Option, none, some, ◌>>=◌, List, [], ◌∷◌, ◌++◌, length, take, drop, get_or,
}
use quas_db.Util.Order.{is_lt}
use quas_db.Util.Coding.{decode_fixed32, get_varint32_ptr}
use quas_db.Util.Comparator.{Comparator}
use quas_db.Util.Status.{Status, ok, failed, corruption, bytes}

-- A size of 0 marks an error; the offset of the restart array is then not set.
pub record Block : Type 0 where
  pub contents : List ℕ
  pub size : ℕ
  pub restart_offset : ℕ

abbrev pub num_restarts_of : List ℕ → ℕ
num_restarts_of contents = decode_fixed32 (drop (length contents - 4) contents)

unfoldable pub open_block : List ℕ → Block
open_block contents =
    let size = length contents in
    let n = num_restarts_of contents in
    let failed_block : Block = record { contents = contents; size = 0; restart_offset = 0 } in
    if ltb size 4
    then failed_block
    else if ltb ((size - 4) / 4) n
    then failed_block
    else record { contents = contents; size = size; restart_offset = (size - (1 + n) * 4) % 2 ^ 32 }

-- The three lengths in front of an entry, and the bytes behind them.
pub record Lengths : Type 0 where
  pub shared : ℕ
  pub non_shared : ℕ
  pub value_length : ℕ
  pub rest : List ℕ

-- The lengths, each with its own decoder.
unfoldable pub decode_lengths : List ℕ → Option Lengths
decode_lengths p = do
  (shared, p1) ← get_varint32_ptr p
  (non_shared, p2) ← get_varint32_ptr p1
  (value_length, rest) ← get_varint32_ptr p2
  some (record {
    shared = shared;
    non_shared = non_shared;
    value_length = value_length;
    rest = rest;
  })

unfoldable pub decode_entry : List ℕ → Option Lengths
decode_entry p =
    let shared = get_or p 0 0 in
    let non_shared = get_or p 1 0 in
    let value_length = get_or p 2 0 in
    let fast : Lengths = record {
      shared = shared;
      non_shared = non_shared;
      value_length = value_length;
      rest = drop 3 p;
    } in
    if ltb (length p) 3 then none else do
      e ←
          if ltb (bit_or (bit_or shared non_shared) value_length) 128
          then some fast
          else decode_lengths p
      if ltb (length e.rest) ((e.non_shared + e.value_length) % 2 ^ 32) then none else some e

-- `value_start` is where value_ starts in the block. The source leaves no place there after an error.
pub record Iter : Type 0 where
  pub current : ℕ
  pub restart_index : ℕ
  pub key : List ℕ
  pub value_start : ℕ
  pub value : List ℕ
  pub status : Status

module _ (contents : List ℕ) (restarts num_restarts : ℕ) where
  unfoldable pub new_iter : Iter
  new_iter = record {
    current = restarts;
    restart_index = num_restarts;
    key = [];
    value_start = 0;
    value = [];
    status = ok;
  }

  abbrev pub valid : Iter → Bool
  valid it = ltb it.current restarts

  abbrev pub next_entry_offset : Iter → ℕ
  next_entry_offset it = (it.value_start + length it.value) % 2 ^ 32

  unfoldable pub get_restart_point : ℕ → ℕ
  get_restart_point index = decode_fixed32 (drop (restarts + index * 4) contents)

  unfoldable pub seek_to_restart_point : Iter → ℕ → Iter
  seek_to_restart_point it index = record it {
    key = [];
    restart_index = index;
    value_start = get_restart_point index;
    value = [];
  }

  unfoldable pub corruption_error : Iter → Iter
  corruption_error it = record it {
    current = restarts;
    restart_index = num_restarts;
    status = failed corruption (bytes "bad entry in block") [];
    key = [];
    value_start = 0;
    value = [];
  }

  -- while (restart_index_ + 1 < num_restarts_ && GetRestartPoint(restart_index_ + 1) < current_)
  unfoldable pub advance_restart : (rounds : ℕ) → (current index : ℕ) → ℕ
  advance_restart zero current index = index
  advance_restart (suc rounds) current index =
      let more = advance_restart rounds current (index + 1) in
      if ltb (index + 1) num_restarts && ltb (get_restart_point (index + 1)) current
      then more
      else index

  -- ParseNextKey from an offset before the restart array.
  unfoldable pub parse_entry : Iter → ℕ → Iter × Bool
  parse_entry it offset = elim (decode_entry (drop offset (take restarts contents))) [
    | none ↦ (corruption_error it, false)
    | some e ↦ if ltb (length it.key) e.shared then (corruption_error it, false) else (
      record it {
        current = offset;
        restart_index = advance_restart num_restarts offset it.restart_index;
        key = take e.shared it.key ++ take e.non_shared e.rest;
        value_start = restarts - length e.rest + e.non_shared;
        value = take e.value_length (drop e.non_shared e.rest);
      },
      true,
    )
  ]

  unfoldable pub parse_next_key : Iter → Iter × Bool
  parse_next_key it =
      let offset = next_entry_offset it in
      if leb restarts offset
      then (record it { current = restarts; restart_index = num_restarts }, false)
      else parse_entry it offset

  abbrev pub next_entry : Iter → Iter
  next_entry it = (parse_next_key it).0

  unfoldable pub seek_to_first : Iter → Iter
  seek_to_first it = (parse_next_key (seek_to_restart_point it 0)).0

  -- The loop of SeekToLast; `none` means that the fuel ran out.
  unfoldable pub seek_to_last_loop : (fuel : ℕ) → Iter → Option Iter
  seek_to_last_loop zero it = none
  seek_to_last_loop (suc fuel) it =
      let (it', parsed) = parse_next_key it in
      let more = seek_to_last_loop fuel it' in
      if parsed && ltb (next_entry_offset it') restarts then more else some it'

  unfoldable pub seek_to_last : Iter → Option Iter
  seek_to_last it =
      seek_to_last_loop (length contents + 1) (seek_to_restart_point it (num_restarts - 1))

  -- Prev: back to a restart point before the entry, and on to the entry before it.
  unfoldable pub prev_restart : (index original : ℕ) → Option ℕ
  prev_restart zero original = if leb original (get_restart_point 0) then none else some 0
  prev_restart (suc index) original =
      let before = prev_restart index original in
      if leb original (get_restart_point (suc index)) then before else some (suc index)

  unfoldable pub prev_loop : (fuel : ℕ) → (original : ℕ) → Iter → Option Iter
  prev_loop zero original it = none
  prev_loop (suc fuel) original it =
      let (it', parsed) = parse_next_key it in
      let more = prev_loop fuel original it' in
      if parsed && ltb (next_entry_offset it') original then more else some it'

  unfoldable pub prev_entry : Iter → Option Iter
  prev_entry it = elim (prev_restart it.restart_index it.current) [
    | none ↦ some (record it { current = restarts; restart_index = num_restarts })
    | some index ↦ prev_loop (length contents + 1) it.current (seek_to_restart_point it index)
  ]

  module _ (comparator : Comparator) (target : List ℕ) where
    -- The binary search: the restart point, or `none` at a damaged entry. The outer option is fuel.
    unfoldable pub restart_search : (fuel : ℕ) → (left right : ℕ) → Option (Option ℕ)
    restart_search zero left right = none
    restart_search (suc fuel) left right =
        let mid = (left + right + 1) % 2 ^ 32 / 2 in
        let upper = restart_search fuel mid right in
        let lower = restart_search fuel left (mid - 1) in
        if ltb left right
        then elim (decode_entry (drop (get_restart_point mid) (take restarts contents))) [
          | none ↦ some none
          | some e ↦
              if not (e.shared == 0)
              then some none
              else if is_lt (comparator.compare (take e.non_shared e.rest) target)
              then upper
              else lower
        ]
        else some (some left)

    unfoldable pub seek_loop : (fuel : ℕ) → Iter → Option Iter
    seek_loop zero it = none
    seek_loop (suc fuel) it =
        let (it', parsed) = parse_next_key it in
        let more = seek_loop fuel it' in
        if parsed && is_lt (comparator.compare it'.key target) then more else some it'

    unfoldable pub seek_entry : Iter → Option Iter
    seek_entry it = elim (restart_search num_restarts 0 (num_restarts - 1)) [
      | none ↦ none
      | some none ↦ some (corruption_error it)
      | some (some index) ↦ seek_loop (length contents + 1) (seek_to_restart_point it index)
    ]

pub data BlockIterator : Type 0 where
  error_iterator : Status → BlockIterator
  empty_iterator : BlockIterator
  iterates : (contents : List ℕ) → (restarts num_restarts : ℕ) → Iter → BlockIterator

unfoldable pub new_iterator : Block → BlockIterator
new_iterator b =
    let n = num_restarts_of b.contents in
    if ltb b.size 4
    then error_iterator (failed corruption (bytes "bad block contents") [])
    else if n == 0
    then empty_iterator
    else iterates b.contents b.restart_offset n (new_iter b.contents b.restart_offset n)
