-- ===== src/Db/Log/RoundTrip/Fragment.antt =====
-- One round of the writer's loop, and the physical record that the reader finds there.
use quas_db.Base.{
  ℕ, zero, suc, ◌+◌, ◌-◌, ◌≤◌, ◌≡◌, refl, sym, ap, ◌∙◌, Bool, true, false, ltb, ◌==◌, Bool-cases,
  inl, inr, lt→ltb, if◌then◌else◌, some, List, [], ◌++◌, length, take, drop, replicate, length-take,
  append_assoc, append-nil, arith,
}
use quas_db.Util.Status.{Status, ok}
use quas_db.Util.Crc32c.{Crc32c}
use quas_db.Util.Env.{WritableFile, SequentialFile, KeepsAll, GivesAll}
use quas_db.Db.Log.{RecordType, record_code, block_size, header_size}
use quas_db.Db.Log.Writer.{
  Writer, fragment_type, physical_header, write_physical, emit_physical_record, switch_block,
  add_fragment,
}
use quas_db.Db.Log.Reader.{Reader, physical_loop, read_physical_record}
use quas_db.Db.Log.RoundTrip.Frame.{framed, length-framed}
use quas_db.Db.Log.RoundTrip.Position.{At, physical_loop-framed, physical_loop-trailer}

-- Where a round starts, the zeros before it, and the room behind its header.
abbrev pub settled : ℕ → ℕ
settled off = if ltb (block_size - off) header_size then 0 else off

abbrev pub padding : ℕ → List ℕ
padding off = if ltb (block_size - off) header_size then replicate (block_size - off) 0 else []

abbrev pub room : ℕ → ℕ
room off = block_size - settled off - header_size

abbrev pub fragment_size : ℕ → List ℕ → ℕ
fragment_size off left = if ltb (length left) (room off) then length left else room off

abbrev pub fragment_kind : Bool → ℕ → List ℕ → RecordType
fragment_kind begin off left = fragment_type begin (length left == fragment_size off left)

pub fragment_fits :
    (off : ℕ) (left : List ℕ)
    → settled off + header_size + length (take (fragment_size off left) left) ≤ block_size
fragment_fits off left = ground (arith, length-take (fragment_size off left) left)

kind_code : (begin end : Bool) → (record_code (fragment_type begin end) == 0) ≡ false
kind_code true true = refl
kind_code true false = refl
kind_code false true = refl
kind_code false false = refl

module _ {D : Type 0} (crc : Crc32c) (file : WritableFile D) (contents : D → List ℕ)
    (keeps : KeepsAll file contents) where
  -- The bytes of one round.
  abbrev pub fragment_bytes : Bool → ℕ → List ℕ → List ℕ
  fragment_bytes begin off left =
      padding off
      ++ (physical_header crc (fragment_kind begin off left) (take (fragment_size off left) left)
          ++ take (fragment_size off left) left)

  write_physical-keeps :
      (d : D) (head payload : List ℕ)
      → ((write_physical crc file d head payload).1 ≡ ok)
        × (contents (write_physical crc file d head payload).0 ≡ contents d ++ (head ++ payload))
  unfolding write_physical
  write_physical-keeps d head payload =
      rw (keeps.append_ok d head, keeps.append_ok (file.append d head).0 payload)
        (
          keeps.flush_ok (file.append (file.append d head).0 payload).0,
          keeps.flush_contents (file.append (file.append d head).0 payload).0
              ∙ keeps.append_contents (file.append d head).0 payload
              ∙ ap (λ (s : List ℕ). s ++ payload) (keeps.append_contents d head)
              ∙ append_assoc (contents d) head payload,
        )

  pad_contents :
      (d : D) (n : ℕ)
      → contents (if ltb 0 n then (file.append d (replicate n 0)).0 else d)
        ≡ contents d ++ replicate n 0
  pad_contents d zero = sym (append-nil (contents d))
  pad_contents d (suc n) =
      rw (lt→ltb 0 (suc n) (omega arith)) (keeps.append_contents d (replicate (suc n) 0))

  switch_block-keeps :
      (w : Writer D)
      → (contents (switch_block crc file w).dest ≡ contents w.dest ++ padding w.block_offset)
        × ((switch_block crc file w).block_offset ≡ settled w.block_offset)
  unfolding switch_block
  switch_block-keeps w = elim (Bool-cases (ltb (block_size - w.block_offset) header_size)) [
    | inr enough ↦ rw enough (sym (append-nil (contents w.dest)), refl)
    | inl short ↦ rw short (pad_contents w.dest (block_size - w.block_offset), refl)
  ]

  pub add_fragment-keeps :
      (begin : Bool) (w : Writer D) (left : List ℕ)
      → ((add_fragment crc file begin w left).0.1 ≡ ok)
        × (contents (add_fragment crc file begin w left).0.0.dest
            ≡ contents w.dest ++ fragment_bytes begin w.block_offset left)
        × ((add_fragment crc file begin w left).0.0.block_offset
            ≡ settled w.block_offset
              + header_size
              + length (take (fragment_size w.block_offset left) left))
        × ((add_fragment crc file begin w left).1 ≡ drop (fragment_size w.block_offset left) left)
  unfolding add_fragment emit_physical_record
  add_fragment-keeps begin w left =
      let (switched, moved) = switch_block-keeps w in
      rw moved (
        let (fine, wrote) =
          write_physical-keeps (switch_block crc file w).dest
            (physical_header crc (fragment_kind begin w.block_offset left)
              (take (fragment_size w.block_offset left) left))
            (take (fragment_size w.block_offset left) left) in
        (
          fine,
          wrote
              ∙ ap (λ (s : List ℕ). s ++ unit) switched
              ∙ append_assoc (contents w.dest) (padding w.block_offset) unit,
          refl,
          refl,
        ))
    where
      unit : List ℕ
      unit =
          physical_header crc (fragment_kind begin w.block_offset left)
            (take (fragment_size w.block_offset left) left)
          ++ take (fragment_size w.block_offset left) left

module _ {F R : Type 0} (crc : Crc32c) (source : SequentialFile F) (corrupt : R → ℕ → Status → R)
    (checksum : Bool) (unknown_type : ℕ → List ℕ) (rest : F → List ℕ)
    (gives : GivesAll source rest) where
  -- The bytes of the round, behind which `tail` lies.
  abbrev round_text : Bool → ℕ → List ℕ → List ℕ → List ℕ
  round_text begin off left tail =
      padding off
      ++ framed crc (fragment_kind begin off left) (take (fragment_size off left) left) tail

  -- Past the zeros, if there are any.
  At-header :
      (off : ℕ) (text : List ℕ) (r : Reader F R)
      → header_size ≤ length text
      → At crc source corrupt checksum unknown_type rest gives off (padding off ++ text) r
      → (n : ℕ) × (r' : Reader F R) × (physical_loop crc source corrupt checksum 0 unknown_type 2 r
          ≡ physical_loop crc source corrupt checksum 0 unknown_type (suc n) r')
        × At crc source corrupt checksum unknown_type rest gives (settled off) text r'
        × (r'.reported ≡ r.reported)
  At-header off text r long a = elim (Bool-cases (ltb (block_size - off) header_size)) [
    | inr enough ↦ (1, r, refl, rw enough (rw enough at a), refl)
    | inl short ↦
        let (r', loop, a', same) =
          physical_loop-trailer crc source corrupt checksum unknown_type rest gives 1 off text r
            (ground arith) long (rw short at a) in
        (0, r', loop, rw short a', same)
  ]

  -- The reader finds the physical record of a round, and stands behind it.
  pub read_physical_record-fragment :
      (begin : Bool) (off : ℕ) (left tail : List ℕ) (r : Reader F R)
      → At crc source corrupt checksum unknown_type rest gives off
          (round_text begin off left tail)
          r
      → (r' : Reader F R) × (read_physical_record crc source corrupt checksum 0 unknown_type r
          ≡ some
              (r', record_code (fragment_kind begin off left), take (fragment_size off left) left))
        × At crc source corrupt checksum unknown_type rest gives
            (settled off + header_size + length (take (fragment_size off left) left))
            tail
            r'
        × (r'.reported ≡ r.reported)
  unfolding read_physical_record
  read_physical_record-fragment begin off left tail r a =
      let (n, r1, skip, a1, same1) =
        At-header off
          (framed crc (fragment_kind begin off left) (take (fragment_size off left) left) tail) r
          (omega (
            arith,
            length-framed crc (fragment_kind begin off left) (take (fragment_size off left) left)
                tail,
          ))
          a in
      let (r2, read, a2, same2) =
        physical_loop-framed crc source corrupt checksum unknown_type rest gives n (settled off)
          (fragment_kind begin off left) (take (fragment_size off left) left) tail r1
          (fragment_fits off left) (kind_code begin (length left == fragment_size off left)) a1 in
      (r2, skip ∙ read, a2, same2 ∙ same1)
