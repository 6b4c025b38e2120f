-- ===== src/Db/Log/RoundTrip/Whole.antt =====
-- A whole log: all records that are written are read again, and nothing is reported.
use quas_db.Base.{
  ℕ, zero, suc, ◌+◌, ◌≤◌, ◌≡◌, refl, sym, ap, ◌∙◌, Bool, true, false, if◌then◌else◌, Option, none,
  some, ◌>>=◌, List, [], ◌∷◌, ◌++◌, length, length-append, append_assoc, append-nil, arith,
}
use quas_db.Util.Status.{Status, ok, is_ok}
use quas_db.Util.Crc32c.{Crc32c}
use quas_db.Util.Env.{WritableFile, SequentialFile, KeepsAll, GivesAll}
use quas_db.Db.Log.{block_size}
use quas_db.Db.Log.Writer.{Writer, switch_block, add_fragment, add_loop, add_record, open_writer}
use quas_db.Db.Log.Reader.{
  Reader, no_pending, resync, dispatch, read_loop, read_record, read_physical_record, open_reader,
  eof_type, returns,
}
use quas_db.Db.Log.RoundTrip.Frame.{not_below_zero}
use quas_db.Db.Log.RoundTrip.Position.{At, physical_loop-end}
use quas_db.Db.Log.RoundTrip.Record.{add_loop-Spans, no_room_le, read_loop-returns}

-- A client's loops over AddRecord and over ReadRecord, each as far as the calls succeed.
unfoldable pub write_all :
    {D : Type 0} → Crc32c → WritableFile D → Writer D → List (List ℕ) → Option (Writer D × Status)
write_all crc file w [] = some (w, ok)
write_all crc file w (record_text ∷ records) = do
  (w', s) ← add_record crc file w record_text
  let later = write_all crc file w' records
  if is_ok s then later else some (w', s)

module _ {F R : Type 0} (crc : Crc32c) (source : SequentialFile F) (corrupt : R → ℕ → Status → R)
    (checksum : Bool) (initial_offset : ℕ) (unknown_type : ℕ → List ℕ) (fuel : ℕ) where
  -- What was reported, and the records, of at most `rounds` calls; `none` where a call has not
  -- enough fuel or the calls do not reach the end.
  unfoldable pub read_all : (rounds : ℕ) → Reader F R → Option (R × List (List ℕ))
  read_all zero r = none
  read_all (suc rounds) r =
      elim (read_record crc source corrupt checksum initial_offset unknown_type fuel r) [
        | none ↦ none
        | some (r', none) ↦ some (r'.reported, [])
        | some (r', some text) ↦
            read_all rounds r' >>= λ (reports, texts). some (reports, text ∷ texts)
      ]

module _ {D F R : Type 0} (crc : Crc32c) (file : WritableFile D) (contents : D → List ℕ)
    (keeps : KeepsAll file contents) (source : SequentialFile F) (corrupt : R → ℕ → Status → R)
    (checksum : Bool) (unknown_type : ℕ → List ℕ) (rest : F → List ℕ)
    (gives : GivesAll source rest) where
  abbrev Stands : ℕ → List ℕ → Reader F R → Type 0
  Stands off stream r = At crc source corrupt checksum unknown_type rest gives off stream r

  read_record_start :
      (fuel : ℕ) (r : Reader F R)
      → read_record crc source corrupt checksum 0 unknown_type fuel r
        ≡ read_loop crc source corrupt checksum 0 unknown_type fuel r no_pending
  unfolding read_record
  read_record_start fuel r = rw (not_below_zero r.last_record_offset) refl

  resync-eof :
      (r : Reader F R)
      → r.resyncing ≡ false
      → resync crc source corrupt checksum 0 unknown_type r eof_type [] no_pending ≡ returns r none
  unfolding resync dispatch
  resync-eof r synced = rw synced refl

  read_all-stop :
      (fuel n : ℕ) (r r1 : Reader F R)
      → read_loop crc source corrupt checksum 0 unknown_type fuel r no_pending ≡ some (r1, none)
      → read_all crc source corrupt checksum 0 unknown_type fuel (suc n) r ≡ some (r1.reported, [])
  unfolding read_all
  read_all-stop fuel n r r1 e = ground (arith, read_record_start fuel r)

  read_all-end :
      (fuel n off : ℕ) (r : Reader F R)
      → 1 ≤ fuel
      → Stands off [] r
      → read_all crc source corrupt checksum 0 unknown_type fuel (suc n) r ≡ some (r.reported, [])
  unfolding read_physical_record
  read_all-end zero n off r h a = absurd (omega arith)
  read_all-end (suc k) n off r h a =
      let (r1, read, same, synced) =
        physical_loop-end crc source corrupt checksum unknown_type rest gives off r a in
      read_all-stop (suc k) n r r1 (
        read_loop-returns crc file contents keeps source corrupt checksum unknown_type rest gives k
          r r1 r1 no_pending eof_type [] none read (resync-eof r1 synced))
      ∙ ap (λ (reports : R). some (reports, [])) same

  read_all-record :
      (fuel n : ℕ) (r r1 : Reader F R) (text : List ℕ) (texts : List (List ℕ)) (reports : R)
      → read_loop crc source corrupt checksum 0 unknown_type fuel r no_pending
        ≡ some (r1, some text)
      → read_all crc source corrupt checksum 0 unknown_type fuel n r1 ≡ some (reports, texts)
      → read_all crc source corrupt checksum 0 unknown_type fuel (suc n) r
        ≡ some (reports, text ∷ texts)
  unfolding read_all
  read_all-record fuel n r r1 text texts reports e later = ground (arith, read_record_start fuel r)

  write_all-record :
      (w w1 w2 : Writer D) (text : List ℕ) (records : List (List ℕ)) (s : Status)
      → add_record crc file w text ≡ some (w1, ok)
      → write_all crc file w1 records ≡ some (w2, s)
      → write_all crc file w (text ∷ records) ≡ some (w2, s)
  unfolding write_all
  write_all-record w w1 w2 text records s e later = ground arith

  -- From any offset of the writer, with the reader at the same place.
  write_all-reads :
      (records : List (List ℕ)) (w : Writer D)
      → w.block_offset ≤ block_size
      → (w' : Writer D) × (bytes : List ℕ) × (write_all crc file w records ≡ some (w', ok))
        × (contents w'.dest ≡ contents w.dest ++ bytes)
        × ((r : Reader F R) (fuel : ℕ)
            → Stands w.block_offset bytes r
            → length bytes + 1 ≤ fuel
            → read_all crc source corrupt checksum 0 unknown_type fuel (suc (length records)) r
              ≡ some (r.reported, records))
  write_all-reads [] w h = (
    w,
    [],
    (unfold write_all in refl),
    sym (append-nil (contents w.dest)),
    λ r fuel a enough. read_all-end fuel 0 w.block_offset r enough a,
  )
  write_all-reads (text ∷ records) w h =
      let (w1, head, wrote, kept, spans) =
        add_loop-Spans crc file contents keeps source corrupt checksum unknown_type rest gives
          (length text + 2) true w text h (omega (arith, no_room_le w.block_offset)) in
      let (w2, bytes, wrote2, kept2, reads) = write_all-reads records w1 spans.in_block in
      (
        w2,
        head ++ bytes,
        write_all-record w w1 w2 text records ok (unfold add_record in wrote) wrote2,
        kept2 ∙ (ap (λ (s : List ℕ). s ++ bytes) kept ∙ append_assoc (contents w.dest) head bytes),
        λ r fuel a enough.
            let (r1, read, a1, same) =
              spans.reads bytes r no_pending fuel a (refl, refl)
                (omega (arith, length-append head bytes)) in
            read_all-record fuel (suc (length records)) r r1 text records r.reported read (
              reads r1 fuel a1 (omega (arith, length-append head bytes))
              ∙ ap (λ (reports : R). some (reports, records)) same),
      )

  -- A fresh file starts a block: that is to the writer as if it stood at the end of one.
  add_loop_start :
      (fuel : ℕ) (d : D) (text : List ℕ)
      → add_loop crc file fuel true (record { dest = d; block_offset = 0 }) text
        ≡ add_loop crc file fuel true (record { dest = d; block_offset = block_size }) text
  unfolding add_loop add_fragment switch_block
  add_loop_start zero d text = refl
  add_loop_start (suc fuel) d text = refl

  write_all_start :
      (d : D) (text : List ℕ) (records : List (List ℕ))
      → write_all crc file (record { dest = d; block_offset = 0 }) (text ∷ records)
        ≡ write_all crc file (record { dest = d; block_offset = block_size }) (text ∷ records)
  unfolding write_all add_record
  write_all_start d text records =
      ap
        (λ (first : Option (Writer D × Status)). first >>= λ (w', s).
          (let later = write_all crc file w' records in if is_ok s then later else some (w', s)))
        (add_loop_start (length text + 2) d text)

  same_contents :
      (v w : Writer D) (t s : Status)
      → ◌≡◌ {A = Option (Writer D × Status)} (some (v, t)) (some (w, s))
      → contents v.dest ≡ contents w.dest
  same_contents v w t s e =
      ap
        (λ (o : Option (Writer D × Status)). elim o [
          | none ↦ contents v.dest
          | some (u, _) ↦ contents u.dest
        ])
        e

  open_reader-Stands :
      (f : F) (reports : R) (stream : List ℕ)
      → rest f ≡ stream
      → Stands block_size stream (open_reader crc source corrupt checksum 0 unknown_type f reports)
  unfolding open_reader
  open_reader-Stands f reports stream e = record {
    in_block = omega arith;
    buffered = refl;
    ahead = e;
    at_eof = ground arith;
    synced = refl;
  }

  -- The records that were written to an empty file come back in their order when that file is read
  -- from its start, then the end of the log, and no corruption is reported. The files do not fail
  -- and the checksum keeps its contract; the records are of any length, and checksums are checked
  -- or not. Each call has one round of fuel more than the log has bytes.
  pub write_all-read_all :
      (records : List (List ℕ)) (d : D) (f : F) (reports : R) (w : Writer D) (s : Status)
      → contents d ≡ []
      → write_all crc file (open_writer crc file d 0) records ≡ some (w, s)
      → rest f ≡ contents w.dest
      → (fuel : ℕ) → length (contents w.dest) + 1 ≤ fuel
      → read_all crc source corrupt checksum 0 unknown_type fuel
          (suc (length records))
          (open_reader crc source corrupt checksum 0 unknown_type f reports)
        ≡ some (reports, records)
  unfolding open_writer open_reader write_all
  write_all-read_all [] d f reports w s e wrote same fuel enough =
      read_all-end fuel 0 block_size
        (open_reader crc source corrupt checksum 0 unknown_type f reports) (omega arith)
        (open_reader-Stands f reports []
          (same ∙ sym (same_contents (record { dest = d; block_offset = 0 }) w ok s wrote) ∙ e))
  write_all-read_all (text ∷ records) d f reports w s e wrote same fuel enough =
      let (w2, bytes, wrote2, kept, reads) =
        write_all-reads (text ∷ records) (record { dest = d; block_offset = block_size })
          (omega arith) in
      let log : contents w.dest ≡ bytes =
        sym (same_contents w2 w ok s (sym wrote2 ∙ (sym (write_all_start d text records) ∙ wrote)))
        ∙ (kept ∙ ap (λ (t : List ℕ). t ++ bytes) e) in
      reads (open_reader crc source corrupt checksum 0 unknown_type f reports) fuel
        (open_reader-Stands f reports bytes (same ∙ log)) (rw log at enough)
