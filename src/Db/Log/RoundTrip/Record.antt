-- ===== src/Db/Log/RoundTrip/Record.antt =====
-- One record: the writer's loop ends, and the reader's loop gives the record back.
use quas_db.Base.{
  ℕ, zero, suc, ◌+◌, ◌≤◌, ◌<◌, ◌≡◌, refl, ap, ◌∙◌, Bool, true, false, not, ◌==◌, Bool-cases, inl,
  inr, if◌then◌else◌, Option, some, List, [], ◌∷◌, ◌++◌, length, take, drop, length-append,
  length-take, length-drop, take_all, drop_all, take-append-drop, append_assoc, arith,
}
use quas_db.Util.Status.{Status, ok}
use quas_db.Util.Crc32c.{Crc32c}
use quas_db.Util.Env.{WritableFile, SequentialFile, KeepsAll, GivesAll}
use quas_db.Db.Log.{RecordType, record_code, block_size, header_size}
use quas_db.Db.Log.Writer.{Writer, physical_header, is_empty, fragment_type, add_fragment, add_loop}
use quas_db.Db.Log.Reader.{
  Reader, sub64, Pending, returns, goes_on, resync, dispatch, read_loop, read_physical_record,
}
use quas_db.Db.Log.RoundTrip.Frame.{framed, length-physical_header}
use quas_db.Db.Log.RoundTrip.Position.{At}
use quas_db.Db.Log.RoundTrip.Fragment.{
  settled, padding, room, fragment_size, fragment_kind, fragment_fits, fragment_bytes,
  add_fragment-keeps, read_physical_record-fragment,
}

-- The whole of what is left fits the round, or the round fills its block.
pub last_round :
    (off : ℕ) (left : List ℕ)
    → (length left == fragment_size off left) ≡ true
    → (take (fragment_size off left) left ≡ left) × (drop (fragment_size off left) left ≡ [])
last_round off left e = (
  take_all (fragment_size off left) left (ground arith),
  drop_all (fragment_size off left) left (ground arith),
)

is_empty_pos : (xs : List ℕ) → 0 < length xs → is_empty xs ≡ false
is_empty_pos [] h = absurd (omega arith)
is_empty_pos (x ∷ xs) h = refl

pub not_last_round :
    (off : ℕ) (left : List ℕ)
    → (length left == fragment_size off left) ≡ false
    → (fragment_size off left ≡ room off)
      × (is_empty (drop (fragment_size off left) left) ≡ false)
      × (length (take (fragment_size off left) left) ≡ room off)
not_last_round off left e = (
  ground arith,
  is_empty_pos (drop (fragment_size off left) left)
      (ground (arith, length-drop (fragment_size off left) left)),
  ground (arith, length-take (fragment_size off left) left),
)

abbrev payload : ℕ → List ℕ → List ℕ
payload off left = take (fragment_size off left) left

-- One round more where the header fits a block but nothing behind it.
abbrev pub no_room : ℕ → ℕ
no_room off = if off + header_size == block_size then 1 else 0

pub no_room_le : (off : ℕ) → no_room off ≤ 1
no_room_le off = ground arith

pub fills_block : (off : ℕ) → off ≤ block_size → settled off + header_size + room off ≡ block_size
fills_block off h = ground arith

pub rounds_left :
    (off fuel : ℕ) (left : List ℕ)
    → off ≤ block_size
    → (length left == fragment_size off left) ≡ false
    → length left + 1 + no_room off ≤ suc fuel
    → length (drop (fragment_size off left) left) + 1 ≤ fuel
rounds_left off fuel left h more enough = ground (arith, length-drop (fragment_size off left) left)

module _ {D F R : Type 0} (crc : Crc32c) (file : WritableFile D) (contents : D → List ℕ)
    (keeps : KeepsAll file contents) (source : SequentialFile F) (corrupt : R → ℕ → Status → R)
    (checksum : Bool) (unknown_type : ℕ → List ℕ) (rest : F → List ℕ)
    (gives : GivesAll source rest) where
  abbrev pub Stands : ℕ → List ℕ → Reader F R → Type 0
  Stands off stream r = At crc source corrupt checksum unknown_type rest gives off stream r

  -- What the reader has joined where a record is under way, and where none is.
  abbrev pub Joins : Bool → Pending → Type 0
  Joins begin p = (p.in_fragmented_record ≡ not begin) × ((if begin then p.scratch else []) ≡ [])

  Stands-last_record_offset :
      (off : ℕ) (stream : List ℕ) (r : Reader F R) (n : ℕ)
      → Stands off stream r
      → Stands off stream (record r { last_record_offset = n })
  Stands-last_record_offset off stream r n a = record {
    in_block = a.in_block;
    buffered = a.buffered;
    ahead = a.ahead;
    at_eof = a.at_eof;
    synced = a.synced;
  }

  abbrev start_of : Reader F R → List ℕ → ℕ
  start_of r fragment =
      sub64 (sub64 (sub64 r.end_of_buffer_offset (length r.buffer)) header_size) (length fragment)

  resync-last :
      (begin : Bool) (r : Reader F R) (p : Pending) (fragment : List ℕ)
      → r.resyncing ≡ false
      → Joins begin p
      → (n : ℕ) × (resync crc source corrupt checksum 0 unknown_type r
            (record_code (fragment_type begin true))
            fragment
            p
          ≡ returns (record r { last_record_offset = n }) (some (p.scratch ++ fragment)))
  unfolding resync dispatch
  resync-last true r p fragment synced (whole, none_yet) =
      (start_of r fragment, rw (synced, whole, none_yet) refl)
  resync-last false r p fragment synced (under_way, _) =
      (p.prospective_record_offset, rw (synced, under_way) refl)

  resync-more :
      (begin : Bool) (r : Reader F R) (p : Pending) (fragment : List ℕ)
      → r.resyncing ≡ false
      → Joins begin p
      → (p' : Pending) × (resync crc source corrupt checksum 0 unknown_type r
            (record_code (fragment_type begin false))
            fragment
            p
          ≡ goes_on r p')
        × (p'.scratch ≡ p.scratch ++ fragment)
        × Joins false p'
  unfolding resync dispatch
  resync-more true r p fragment synced (whole, none_yet) = (
    record {
      in_fragmented_record = true;
      scratch = fragment;
      prospective_record_offset = start_of r fragment;
    },
    rw (synced, whole) refl,
    rw none_yet refl,
    (refl, refl),
  )
  resync-more false r p fragment synced (under_way, _) = (
    record p { scratch = p.scratch ++ fragment },
    rw (synced, under_way) refl,
    refl,
    (under_way, refl),
  )

  -- The bytes that take the writer from one offset to another are a record to the reader.
  pub record Spans (begin : Bool) (left bytes : List ℕ) (off off' : ℕ) : Type 0 where
    pub in_block : off' ≤ block_size
    pub reads :
        (tail : List ℕ) (r : Reader F R) (p : Pending) (k : ℕ)
        → Stands off (bytes ++ tail) r
        → Joins begin p
        → length bytes ≤ k
        → (r' : Reader F R) × (read_loop crc source corrupt checksum 0 unknown_type k r p
            ≡ some (r', some (p.scratch ++ left)))
          × Stands off' tail r'
          × (r'.reported ≡ r.reported)

  abbrev unit : Bool → ℕ → List ℕ → List ℕ
  unit begin off left =
      physical_header crc (fragment_kind begin off left) (payload off left) ++ payload off left

  length-fragment_bytes :
      (begin : Bool) (off : ℕ) (left : List ℕ)
      → 0 < length (fragment_bytes crc file contents keeps begin off left)
  length-fragment_bytes begin off left = omega (
    arith,
    length-append (padding off) (unit begin off left),
    length-append (physical_header crc (fragment_kind begin off left) (payload off left))
        (payload off left),
    length-physical_header crc (fragment_kind begin off left) (payload off left),
  )

  step :
      (begin : Bool) (off : ℕ) (left tail : List ℕ) (r : Reader F R)
      → Stands off (fragment_bytes crc file contents keeps begin off left ++ tail) r
      → (r' : Reader F R) × (read_physical_record crc source corrupt checksum 0 unknown_type r
          ≡ some (r', record_code (fragment_kind begin off left), payload off left))
        × Stands (settled off + header_size + length (payload off left)) tail r'
        × (r'.reported ≡ r.reported)
  step begin off left tail r a =
      read_physical_record-fragment crc source corrupt checksum unknown_type rest gives begin off
        left tail r (rw regroup at a)
    where
      regroup :
          fragment_bytes crc file contents keeps begin off left ++ tail
          ≡ padding off ++ framed crc (fragment_kind begin off left) (payload off left) tail
      regroup =
          append_assoc (padding off) (unit begin off left) tail
          ∙ ap (λ (s : List ℕ). padding off ++ s)
              (append_assoc (physical_header crc (fragment_kind begin off left) (payload off left))
                (payload off left) tail)

  pub read_loop-returns :
      (k : ℕ) (r r1 r2 : Reader F R) (p : Pending) (type : ℕ) (fragment : List ℕ)
      (result : Option (List ℕ))
      → read_physical_record crc source corrupt checksum 0 unknown_type r
        ≡ some (r1, type, fragment)
      → resync crc source corrupt checksum 0 unknown_type r1 type fragment p ≡ returns r2 result
      → read_loop crc source corrupt checksum 0 unknown_type (suc k) r p ≡ some (r2, result)
  unfolding read_loop
  read_loop-returns k r r1 r2 p type fragment result e back = ground arith

  read_loop-goes_on :
      (k : ℕ) (r r1 r2 : Reader F R) (p p2 : Pending) (type : ℕ) (fragment : List ℕ)
      → read_physical_record crc source corrupt checksum 0 unknown_type r
        ≡ some (r1, type, fragment)
      → resync crc source corrupt checksum 0 unknown_type r1 type fragment p ≡ goes_on r2 p2
      → read_loop crc source corrupt checksum 0 unknown_type (suc k) r p
        ≡ read_loop crc source corrupt checksum 0 unknown_type k r2 p2
  unfolding read_loop
  read_loop-goes_on k r r1 r2 p p2 type fragment e on = ground arith

  last-Spans :
      (begin : Bool) (off : ℕ) (left : List ℕ)
      → (length left == fragment_size off left) ≡ true
      → Spans begin left
          (fragment_bytes crc file contents keeps begin off left)
          off
          (settled off + header_size + length (payload off left))
  last-Spans begin off left end = record { in_block = fragment_fits off left; reads = go }
    where
      go :
          (tail : List ℕ) (r : Reader F R) (p : Pending) (k : ℕ)
          → Stands off (fragment_bytes crc file contents keeps begin off left ++ tail) r
          → Joins begin p
          → length (fragment_bytes crc file contents keeps begin off left) ≤ k
          → (r' : Reader F R) × (read_loop crc source corrupt checksum 0 unknown_type k r p
              ≡ some (r', some (p.scratch ++ left)))
            × Stands (settled off + header_size + length (payload off left)) tail r'
            × (r'.reported ≡ r.reported)
      go tail r p zero a joins h = absurd (omega (arith, length-fragment_bytes begin off left))
      go tail r p (suc k) a joins h =
          let (r1, read, a1, same) = step begin off left tail r a in
          let (n, back) = resync-last begin r1 p (payload off left) a1.synced joins in
          (
            record r1 { last_record_offset = n },
            read_loop-returns k r r1 (record r1 { last_record_offset = n }) p
                  (record_code (fragment_type begin true)) (payload off left)
                  (some (p.scratch ++ payload off left))
                  (read
                    ∙ ap (λ (t : RecordType). some (r1, record_code t, payload off left))
                        (ap (fragment_type begin) end))
                  back
                ∙ ap
                    (λ (s : List ℕ).
                      some (record r1 { last_record_offset = n }, some (p.scratch ++ s)))
                    (last_round off left end).0,
            Stands-last_record_offset _ tail r1 n a1,
            same,
          )

  more-Spans :
      (begin : Bool) (off off' : ℕ) (left bytes : List ℕ)
      → (length left == fragment_size off left) ≡ false
      → Spans false
          (drop (fragment_size off left) left)
          bytes
          (settled off + header_size + length (payload off left))
          off'
      → Spans begin left (fragment_bytes crc file contents keeps begin off left ++ bytes) off off'
  more-Spans begin off off' left bytes more s = record { in_block = s.in_block; reads = go }
    where
      go :
          (tail : List ℕ) (r : Reader F R) (p : Pending) (k : ℕ)
          → Stands off ((fragment_bytes crc file contents keeps begin off left ++ bytes) ++ tail) r
          → Joins begin p
          → length (fragment_bytes crc file contents keeps begin off left ++ bytes) ≤ k
          → (r' : Reader F R) × (read_loop crc source corrupt checksum 0 unknown_type k r p
              ≡ some (r', some (p.scratch ++ left)))
            × Stands off' tail r'
            × (r'.reported ≡ r.reported)
      go tail r p zero a joins h = absurd (
          omega (
            arith,
            length-fragment_bytes begin off left,
            length-append (fragment_bytes crc file contents keeps begin off left) bytes,
          ))
      go tail r p (suc k) a joins h =
          let (r1, read, a1, same1) = step begin off left (bytes ++ tail) r (
            rw (append_assoc (fragment_bytes crc file contents keeps begin off left) bytes tail) at
              a) in
          let (p1, on, joined, joins1) =
            resync-more begin r1 p (payload off left) a1.synced joins in
          let (r2, result, a2, same2) = s.reads tail r1 p1 k a1 joins1 (
            omega (
              arith,
              length-fragment_bytes begin off left,
              length-append (fragment_bytes crc file contents keeps begin off left) bytes,
            )) in
          (
            r2,
            read_loop-goes_on k r r1 r1 p p1 (record_code (fragment_type begin false))
                  (payload off left)
                  (read
                    ∙ ap (λ (t : RecordType). some (r1, record_code t, payload off left))
                        (ap (fragment_type begin) more))
                  on
                ∙ (result
                    ∙ ap (λ (s : List ℕ). some (r2, some s))
                        (ap (λ (s : List ℕ). s ++ drop (fragment_size off left) left) joined
                          ∙ append_assoc p.scratch (payload off left)
                              (drop (fragment_size off left) left)
                          ∙ ap (λ (s : List ℕ). p.scratch ++ s)
                              (take-append-drop (fragment_size off left) left))),
            a2,
            same2 ∙ same1,
          )

  add_loop-stops :
      (n : ℕ) (begin : Bool) (w : Writer D) (left : List ℕ)
      → (add_fragment crc file begin w left).0.1 ≡ ok
      → is_empty (add_fragment crc file begin w left).1 ≡ true
      → add_loop crc file (suc n) begin w left ≡ some ((add_fragment crc file begin w left).0.0, ok)
  unfolding add_loop
  add_loop-stops n begin w left fine done = rw (fine, done) refl

  add_loop-goes_on :
      (n : ℕ) (begin : Bool) (w : Writer D) (left rest' : List ℕ)
      → (add_fragment crc file begin w left).0.1 ≡ ok
      → (add_fragment crc file begin w left).1 ≡ rest'
      → is_empty rest' ≡ false
      → add_loop crc file (suc n) begin w left
        ≡ add_loop crc file n false (add_fragment crc file begin w left).0.0 rest'
  unfolding add_loop
  add_loop-goes_on n begin w left rest' fine e more = rw (fine, e, more) refl

  -- With enough fuel the loop ends, and what it wrote is a record to the reader.
  pub add_loop-Spans :
      (fuel : ℕ) (begin : Bool) (w : Writer D) (left : List ℕ)
      → w.block_offset ≤ block_size
      → length left + 1 + no_room w.block_offset ≤ fuel
      → (w' : Writer D) × (bytes : List ℕ) × (add_loop crc file fuel begin w left ≡ some (w', ok))
        × (contents w'.dest ≡ contents w.dest ++ bytes)
        × Spans begin left bytes w.block_offset w'.block_offset
  add_loop-Spans zero begin w left h enough = absurd (omega arith)
  add_loop-Spans (suc fuel) begin w left h enough =
      let (fine, wrote, moved, remains) = add_fragment-keeps crc file contents keeps begin w left in
      let w1 : Writer D = (add_fragment crc file begin w left).0.0 in
      let head : List ℕ = fragment_bytes crc file contents keeps begin w.block_offset left in
      elim (Bool-cases (length left == fragment_size w.block_offset left)) [
        | inl end ↦ (
          w1,
          head,
          add_loop-stops fuel begin w left fine
              (rw (remains, (last_round w.block_offset left end).1) refl),
          wrote,
          rw moved (last-Spans begin w.block_offset left end),
        )
        | inr more ↦
            let (full, some_left, taken) = not_last_round w.block_offset left more in
            let full_block : w1.block_offset ≡ block_size =
              moved
              ∙ (ap (λ (n : ℕ). settled w.block_offset + header_size + n) taken
                  ∙ fills_block w.block_offset h) in
            let (w2, bytes, loop, wrote2, spans) =
              add_loop-Spans fuel false w1 (drop (fragment_size w.block_offset left) left)
                (omega (arith, full_block))
                (rw full_block
                  (omega (arith, rounds_left w.block_offset fuel left h more enough))) in
            (
              w2,
              head ++ bytes,
              add_loop-goes_on fuel begin w left (drop (fragment_size w.block_offset left) left)
                    fine remains some_left
                  ∙ loop,
              wrote2
                  ∙ ap (λ (s : List ℕ). s ++ bytes) wrote
                  ∙ append_assoc (contents w.dest) head bytes,
              more-Spans begin w.block_offset w2.block_offset left bytes more (rw moved at spans),
            )
      ]
