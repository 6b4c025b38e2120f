-- ===== src/Tests/Log.antt =====
-- kv/db/log_writer.cpp and kv/db/log_reader.cpp with files in memory.
use quas_db.Base.{
  ℕ, ◌+◌, ◌%◌, ◌^◌, ◌<◌, ◌≡◌, ◌≢◌, refl, true, Option, none, some, List, [], ◌∷◌, ◌++◌, length,
  take, drop, arith,
}
use quas_db.Util.Status.{Status, ok, bytes}
use quas_db.Util.Crc32c.{Crc32c}
use quas_db.Util.Env.{WritableFile, SequentialFile, KeepsAll, GivesAll}
use quas_db.Db.Log.{block_size}
use quas_db.Db.Log.Writer.{Writer, open_writer, add_record}
use quas_db.Db.Log.Reader.{open_reader}
use quas_db.Db.Log.RoundTrip.Whole.{write_all, read_all, write_all-read_all}
use quas_db.Db.Log.Total.{add_record-ne-none}

-- A checksum that adds up the bytes.
unfoldable pub sum_bytes : ℕ → List ℕ → ℕ
sum_bytes c [] = c % 2 ^ 32
sum_bytes c (b ∷ s) = sum_bytes (c + b) s

pub sum_bytes_fits : (c : ℕ) (s : List ℕ) → sum_bytes c s < 2 ^ 32
unfolding sum_bytes
sum_bytes_fits c [] = omega arith
sum_bytes_fits c (b ∷ s) = sum_bytes_fits (c + b) s

sum_bytes_mod : (c d : ℕ) (s : List ℕ) → c % 2 ^ 32 ≡ d % 2 ^ 32 → sum_bytes c s ≡ sum_bytes d s
unfolding sum_bytes
sum_bytes_mod c d [] e = e
sum_bytes_mod c d (b ∷ s) e = sum_bytes_mod (c + b) (d + b) s (omega arith)

pub sum_bytes-append : (c : ℕ) (s t : List ℕ) → sum_bytes (sum_bytes c s) t ≡ sum_bytes c (s ++ t)
unfolding sum_bytes
sum_bytes-append c [] t = sum_bytes_mod (c % 2 ^ 32) c t (omega arith)
sum_bytes-append c (b ∷ s) t = sum_bytes-append (c + b) s t

abbrev pub summing : Crc32c
summing = record {
  extend = sum_bytes;
  extend_fits = sum_bytes_fits;
  extend_append = sum_bytes-append;
}

abbrev pub memory : WritableFile (List ℕ)
memory = record { append = λ d s. (d ++ s, ok); flush = λ d. (d, ok) }

pub memory_keeps : KeepsAll memory (λ d. d)
memory_keeps = record {
  append_ok = λ d s. refl;
  append_contents = λ d s. refl;
  flush_ok = λ d. refl;
  flush_contents = λ d. refl;
}

abbrev read_memory : SequentialFile (List ℕ)
read_memory = record { read = λ f n. (drop n f, take n f, ok); skip = λ f n. (drop n f, ok) }

memory_gives : GivesAll read_memory (λ f. f)
memory_gives = record { read_ok = λ f n. refl; read_bytes = λ f n. refl; read_rest = λ f n. refl }

-- A reporter that counts the bytes.
abbrev count_dropped : ℕ → ℕ → Status → ℕ
count_dropped r n s = r + n

abbrev no_text : ℕ → List ℕ
no_text n = []

abbrev records : List (List ℕ)
records = bytes "one" ∷ [] ∷ bytes "two" ∷ []

abbrev written_log : Option (Writer (List ℕ) × Status)
written_log = write_all summing memory (open_writer summing memory [] 0) records

abbrev log_bytes : List ℕ
log_bytes = elim written_log [ none ↦ [] | some (w, s) ↦ w.dest ]

log_of_three : length log_bytes ≡ 27
unfolding write_all add_record quas_db.Db.Log.Writer.add_loop quas_db.Db.Log.Writer.add_fragment
    quas_db.Db.Log.Writer.emit_physical_record quas_db.Db.Log.Writer.write_physical
    quas_db.Db.Log.Writer.switch_block open_writer quas_db.Db.Log.Writer.physical_header
    quas_db.Util.Coding.encode_fixed32
log_of_three = refl

wrote_three :
    write_all summing memory (open_writer summing memory [] 0) records
    ≡ some (record { dest = log_bytes; block_offset = 27 }, ok)
unfolding write_all add_record quas_db.Db.Log.Writer.add_loop quas_db.Db.Log.Writer.add_fragment
    quas_db.Db.Log.Writer.emit_physical_record quas_db.Db.Log.Writer.write_physical
    quas_db.Db.Log.Writer.switch_block open_writer
wrote_three = refl

write_all-read_all_example :
    read_all summing read_memory count_dropped true 0 no_text 28 4
      (open_reader summing read_memory count_dropped true 0 no_text log_bytes 0)
    ≡ some (0, records)
write_all-read_all_example =
    write_all-read_all summing memory (λ d. d) memory_keeps read_memory count_dropped true no_text
      (λ f. f) memory_gives records [] log_bytes 0 (record { dest = log_bytes; block_offset = 27 })
      ok refl wrote_three refl 28 (omega (arith, log_of_three))

add_record-ne-none_example :
    add_record summing memory (record { dest = []; block_offset = 32765 }) (bytes "one") ≢ none
add_record-ne-none_example =
    add_record-ne-none summing memory (record { dest = []; block_offset = 32765 }) (bytes "one")
      (omega arith)
