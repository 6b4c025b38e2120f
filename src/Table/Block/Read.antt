-- ===== src/Table/Block/Read.antt =====
-- A block that was built is read from its first entry to its last.
use quas_db.Base.{
  ℕ, zero, suc, ◌^◌, ◌<◌, ◌≤◌, ◌≡◌, refl, ap, ◌∙◌, Bool, true, false, inl, inr, if◌then◌else◌,
  Option, none, some, ◌>>=◌, List, [], ◌∷◌, ◌++◌, All, length, length-append, take, arith, get_or,
}
use quas_db.Util.Status.{Status, ok}
use quas_db.Table.BlockBuilder.{BlockBuilder, new_block_builder, finish}
use quas_db.Table.BlockBuilder.Build.{add_entries, FitsEntry, IsRestart, Built, add_entries-Built}
use quas_db.Table.BlockBuilder.Finish.{
  get_restart_point-finish, new_iterator-finish, take-block_bytes, buffer-block_bytes,
}
use quas_db.Table.Block.{
  Iter, open_block, new_iter, valid, next_entry, seek_to_first, seek_to_restart_point,
  get_restart_point, new_iterator, error_iterator, empty_iterator, iterates,
}
use quas_db.Table.Block.Spells.{Spells, At, whole, parse_next_key-On, parse_next_key-end}

-- A client's loop: the entries up to the end, and the status there. `none` where the rounds do not
-- reach the end.
unfoldable pub read_from :
    List ℕ
    → (restarts num_restarts : ℕ) → (rounds : ℕ) → Iter
    → Option (List (List ℕ × List ℕ) × Status)
read_from contents restarts n zero it = none
read_from contents restarts n (suc rounds) it =
    let rest = read_from contents restarts n rounds (next_entry contents restarts n it) in
    if valid contents restarts n it
    then (rest >>= λ (es, s). some ((it.key, it.value) ∷ es, s))
    else some ([], it.status)

unfoldable pub read_entries : (rounds : ℕ) → List ℕ → Option (List (List ℕ × List ℕ) × Status)
read_entries rounds contents = elim (new_iterator (open_block contents)) [
  | error_iterator s ↦ some ([], s)
  | empty_iterator ↦ some ([], ok)
  | iterates c restarts n it ↦ read_from c restarts n rounds (seek_to_first c restarts n it)
]

module _ (contents : List ℕ) (restarts n : ℕ) (all : restarts ≤ length contents)
    (small : restarts < 2 ^ 32) where
  read_from-invalid :
      (rounds : ℕ) (it : Iter)
      → valid contents restarts n it ≡ false
      → read_from contents restarts n (suc rounds) it ≡ some ([], it.status)
  unfolding read_from
  read_from-invalid rounds it e = rw e refl

  read_from-valid :
      (rounds : ℕ) (it : Iter) (key value : List ℕ) (es : List (List ℕ × List ℕ)) (s : Status)
      → valid contents restarts n it ≡ true
      → it.key ≡ key
      → it.value ≡ value
      → read_from contents restarts n rounds (next_entry contents restarts n it) ≡ some (es, s)
      → read_from contents restarts n (suc rounds) it ≡ some ((key, value) ∷ es, s)
  unfolding read_from
  read_from-valid rounds it key value es s v k w rest = rw (read_from, v, rest, k, w) refl

  -- From a parse on, where the iterator stands before some entries.
  read_from-At :
      (es : List (List ℕ × List ℕ)) (it : Iter)
      → At contents restarts n es it
      → read_from contents restarts n (suc (length es)) (next_entry contents restarts n it)
        ≡ some (es, it.status)
  read_from-At [] it a =
      let e = parse_next_key-end contents restarts n all small it a in
      ap (λ (r : Iter × Bool). read_from contents restarts n 1 r.0) e
      ∙ read_from-invalid 0 (record it { current = restarts; restart_index = n }) (ground arith)
  read_from-At ((key, value) ∷ es) it a =
      let (it', parsed, status, on) =
        parse_next_key-On contents restarts n all small it key value es a in
      ap (λ (r : Iter × Bool). read_from contents restarts n (suc (suc (length es))) r.0) parsed
      ∙ read_from-valid (suc (length es)) it' key value es it.status on.is_valid on.has_key
          on.has_value (read_from-At es it' on.ahead ∙ ap (λ (s : Status). some (es, s)) status)

  -- A restart point, where the iterator stands after SeekToRestartPoint.
  pub seek_to_restart_point-At :
      (es : List (List ℕ × List ℕ)) (it : Iter) (index : ℕ) (behind bytes : List ℕ)
      → take restarts contents ≡ behind ++ bytes
      → get_restart_point contents restarts n index ≡ length behind
      → Spells [] es bytes
      → At contents restarts n es (seek_to_restart_point contents restarts n it index)
  unfolding seek_to_restart_point
  seek_to_restart_point-At es it index behind bytes split place spells = record {
    behind = behind;
    bytes = bytes;
    split = split;
    place = omega (arith, place, whole contents restarts n all small behind bytes split);
    spells = spells;
  }

-- The blocks of a builder that fit.
module _ (interval : ℕ) (es : List (List ℕ × List ℕ)) (fits : All FitsEntry es)
    (small : length (finish (add_entries interval new_block_builder es)).buffer < 2 ^ 32) where
  abbrev pub builder : BlockBuilder
  builder = add_entries interval new_block_builder es

  abbrev pub block : List ℕ
  block = (finish builder).buffer

  pub buffer_small : length builder.buffer < length block
  buffer_small = buffer-block_bytes builder

  pub builder-Built : Built es builder
  builder-Built = add_entries-Built interval es fits (omega (arith, buffer_small, small))

  pub restarts_small : All (λ r. r < 2 ^ 32) builder.restarts
  restarts_small = elim builder-Built.points [
    | inl (nothing, start) ↦ only_zero builder.restarts start
    | inr points ↦ each builder.restarts points
  ]
    where
      only_zero : (rs : List ℕ) → rs ≡ 0 ∷ [] → All (λ r. r < 2 ^ 32) rs
      only_zero rs e = rw e (omega arith, tt)

      each : (rs : List ℕ) → All (IsRestart es builder.buffer) rs → All (λ r. r < 2 ^ 32) rs
      each [] h = tt
      each (r ∷ rs) (p, h) = (
        omega (
          arith,
          p.place,
          ap length p.split,
          length-append p.behind p.bytes,
          buffer_small,
          small,
        ),
        each rs h,
      )

  pub block-iterates :
      new_iterator (open_block block)
      ≡ iterates block
          (length builder.buffer)
          (length builder.restarts)
          (new_iter block (length builder.buffer) (length builder.restarts))
  block-iterates =
      new_iterator-finish builder (omega (arith, ap length builder-Built.first.1)) restarts_small
        small

  pub block-point :
      (i n : ℕ)
      → i < length builder.restarts
      → get_restart_point block (length builder.buffer) n i ≡ get_or builder.restarts i 0
  block-point i n h =
      get_restart_point-finish builder (omega (arith, ap length builder-Built.first.1))
        restarts_small small i n h

  -- The restart point from which all entries are spelled.
  pub first_point :
      (it : Iter)
      → At block
          (length builder.buffer)
          (length builder.restarts)
          es
          (seek_to_restart_point block (length builder.buffer) (length builder.restarts) it 0)
  first_point it =
      seek_to_restart_point-At block (length builder.buffer) (length builder.restarts)
        (omega (arith, buffer_small)) (omega (arith, buffer_small, small)) es it 0 [] builder.buffer
        (take-block_bytes builder)
        (block-point 0 (length builder.restarts) (omega (arith, ap length builder-Built.first.1))
          ∙ ap (λ (rs : List ℕ). get_or rs 0 0) builder-Built.first.1)
        builder-Built.spells

  -- The block of some entries, opened and read from SeekToFirst by Next to the end, gives the entries
  -- in the order they were added, and the status OK. A key and its value have fewer than 2^32 bytes
  -- together, and so has the block. The keys need no order, and any restart interval does.
  pub read_entries-finish : read_entries (suc (length es)) block ≡ some (es, ok)
  unfolding read_entries seek_to_first new_iter seek_to_restart_point
  read_entries-finish =
      rw (read_entries, block-iterates)
        (read_from-At block (length builder.buffer) (length builder.restarts)
          (omega (arith, buffer_small)) (omega (arith, buffer_small, small)) es
          (seek_to_restart_point block (length builder.buffer) (length builder.restarts)
            (new_iter block (length builder.buffer) (length builder.restarts)) 0)
          (first_point (new_iter block (length builder.buffer) (length builder.restarts))))
