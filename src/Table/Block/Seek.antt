-- ===== src/Table/Block/Seek.antt =====
-- Seek in a block that was built: the binary search over the restart points, and the search behind.
use quas_db.Base.{
  ℕ, zero, suc, ◌+◌, ◌-◌, ◌*◌, ◌/◌, ◌%◌, ◌^◌, ◌<◌, ◌≤◌, ◌≡◌, refl, sym, ap, ◌∙◌, Bool, true, false,
  ◌&&◌, ltb, ◌==◌, Bool-cases, ◌⊎◌, inl, inr, if◌then◌else◌, Option, none, some, List, [], ◌∷◌,
  ◌++◌, All, length, length-append, length-drop, drop-append, take, drop, take_front, arith, get_or,
}
use quas_db.Util.Order
use quas_db.Util.Order.{Ordering, IsOrder, is_lt}
use quas_db.Util.Comparator.{Comparator}
use quas_db.Table.BlockBuilder.{new_block_builder, finish}
use quas_db.Table.BlockBuilder.Build.{add_entries, FitsEntry, IsRestart}
use quas_db.Table.BlockBuilder.Finish.{take-block_bytes, length-block_bytes}
use quas_db.Table.Block.{
  Iter, Lengths, valid, decode_entry, parse_next_key, seek_to_restart_point, get_restart_point,
  restart_search, seek_loop, seek_entry,
}
use quas_db.Table.Block.Entry.{entry_code, length-entry_code, decode_entry-entry_code}
use quas_db.Table.Block.Spells.{Spells, At, parse_next_key-On, parse_next_key-end}
use quas_db.Table.Block.Read.{
  builder, block, buffer_small, builder-Built, block-point, seek_to_restart_point-At, first_point,
}

module _ (user : Comparator) where
  -- Each key is before those behind it.
  abbrev pub IsRising : List (List ℕ × List ℕ) → Type 0
  IsRising [] = Unit {0}
  IsRising ((key, value) ∷ es) = All (λ e. user.compare key e.0 ≡ Ordering.lt) es × IsRising es

  -- The first entry whose key is not before the target.
  unfoldable pub first_from : List ℕ → List (List ℕ × List ℕ) → Option (List ℕ × List ℕ)
  first_from target [] = none
  first_from target ((key, value) ∷ es) =
      let later = first_from target es in
      if is_lt (user.compare key target) then later else some (key, value)

  All-middle :
      (P : List ℕ × List ℕ → Type 0) (before : List (List ℕ × List ℕ)) (e : List ℕ × List ℕ)
      (after : List (List ℕ × List ℕ))
      → All P (before ++ (e ∷ after))
      → P e
  All-middle P [] e after (p, h) = p
  All-middle P (x ∷ before) e after (p, h) = All-middle P before e after h

  first_from-append :
      IsOrder user.compare
      → (target : List ℕ) (before : List (List ℕ × List ℕ)) (key value : List ℕ)
        (after : List (List ℕ × List ℕ))
      → IsRising (before ++ ((key, value) ∷ after))
      → user.compare key target ≡ Ordering.lt
      → first_from target (before ++ ((key, value) ∷ after))
        ≡ first_from target ((key, value) ∷ after)
  unfolding first_from
  first_from-append o target [] key value after rising below = refl
  first_from-append o target ((k, v) ∷ before) key value after (above, rising) below =
      let lower : user.compare k target ≡ Ordering.lt =
        Order.lt_le_trans user.compare o k key target
          (All-middle (λ e. user.compare k e.0 ≡ Ordering.lt) before (key, value) after above)
          (ground arith) in
      rw lower (first_from-append o target before key value after rising below)

  -- The iterator is at the entry, or invalid where there is none.
  abbrev pub Lands : (contents : List ℕ) (restarts n : ℕ) → Option (List ℕ × List ℕ) → Iter → Type 0
  Lands contents restarts n none it = valid contents restarts n it ≡ false
  Lands contents restarts n (some (key, value)) it =
      (valid contents restarts n it ≡ true) × (it.key ≡ key) × (it.value ≡ value)

  module _ (contents : List ℕ) (restarts n : ℕ) (all : restarts ≤ length contents)
      (small : restarts < 2 ^ 32) (target : List ℕ) where
    seek_loop-stop :
        (fuel : ℕ) (it it' : Iter) (parsed : Bool)
        → parse_next_key contents restarts n it ≡ (it', parsed)
        → (parsed && is_lt (user.compare it'.key target)) ≡ false
        → seek_loop contents restarts n user target (suc fuel) it ≡ some it'
    unfolding seek_loop
    seek_loop-stop fuel it it' parsed e stop = rw (e, stop) refl

    seek_loop-more :
        (fuel : ℕ) (it it' : Iter) (parsed : Bool)
        → parse_next_key contents restarts n it ≡ (it', parsed)
        → (parsed && is_lt (user.compare it'.key target)) ≡ true
        → seek_loop contents restarts n user target (suc fuel) it
          ≡ seek_loop contents restarts n user target fuel it'
    unfolding seek_loop
    seek_loop-more fuel it it' parsed e more = rw (e, more) refl

    -- The search from a place before some entries.
    seek_loop-Lands :
        (fuel : ℕ) (es : List (List ℕ × List ℕ)) (it : Iter)
        → At contents restarts n es it
        → length es < fuel
        → (it' : Iter) × (seek_loop contents restarts n user target fuel it ≡ some it')
          × (it'.status ≡ it.status)
          × Lands contents restarts n (first_from target es) it'
    unfolding first_from
    seek_loop-Lands zero es it a enough = absurd (omega arith)
    seek_loop-Lands (suc fuel) [] it a enough =
        let past : Iter = record it { current = restarts; restart_index = n } in
        (
          past,
          seek_loop-stop fuel it past false (parse_next_key-end contents restarts n all small it a)
              refl,
          refl,
          ground arith,
        )
    seek_loop-Lands (suc fuel) ((key, value) ∷ es) it a enough =
        let (it', parsed, status, on) =
          parse_next_key-On contents restarts n all small it key value es a in
        elim (Bool-cases (is_lt (user.compare key target))) [
          | inl below ↦
              let (it'', found, same, lands) = seek_loop-Lands fuel es it' on.ahead (omega arith) in
              (
                it'',
                seek_loop-more fuel it it' true parsed (rw on.has_key below) ∙ found,
                same ∙ status,
                rw below lands,
              )
          | inr from ↦ (
            it',
            seek_loop-stop fuel it it' true parsed (rw on.has_key from),
            status,
            rw from (on.is_valid, on.has_key, on.has_value),
          )
        ]

length-Spells :
    (last : List ℕ) (es : List (List ℕ × List ℕ)) (bytes : List ℕ)
    → Spells last es bytes
    → length es ≤ length bytes
length-Spells last [] bytes e = omega arith
length-Spells last ((key, value) ∷ es) bytes (shared, rest, e, a, b, c, fits, more) = omega (
  arith,
  ap length e,
  length-append (entry_code shared key value) rest,
  length-entry_code shared key value (omega arith) (omega arith) (omega arith),
  length-Spells key es rest more,
)

module _ (user : Comparator) (contents : List ℕ) (restarts n : ℕ) (target : List ℕ) where
  restart_search-step :
      (fuel left right : ℕ) (e : Lengths) (key : List ℕ)
      → ltb left right ≡ true
      → decode_entry (
          drop
            (get_restart_point contents restarts n ((left + right + 1) % 2 ^ 32 / 2))
            (take restarts contents))
        ≡ some e
      → e.shared ≡ 0
      → take e.non_shared e.rest ≡ key
      → restart_search contents restarts n user target (suc fuel) left right ≡ (
          if is_lt (user.compare key target)
          then restart_search contents restarts n user target fuel
              ((left + right + 1) % 2 ^ 32 / 2)
              right
          else restart_search contents restarts n user target fuel left
              ((left + right + 1) % 2 ^ 32 / 2 - 1))
  unfolding restart_search
  restart_search-step fuel left right e key open_range decoded whole_key is_key =
      let none_shared : (e.shared == 0) ≡ true = ground arith in
      rw (open_range, decoded, none_shared, is_key) refl

  restart_search-closed :
      (fuel left right : ℕ)
      → ltb left right ≡ false
      → restart_search contents restarts n user target (suc fuel) left right ≡ some (some left)
  unfolding restart_search
  restart_search-closed fuel left right closed = rw closed refl

  seek_entry-found :
      (it it' : Iter) (index : ℕ)
      → restart_search contents restarts n user target n 0 (n - 1) ≡ some (some index)
      → seek_loop contents restarts n user target
          (length contents + 1)
          (seek_to_restart_point contents restarts n it index)
        ≡ some it'
      → seek_entry contents restarts n user target it ≡ some it'
  unfolding seek_entry
  seek_entry-found it it' index found ends = rw (seek_entry, found) ends

point_at : (P : ℕ → Type 0) (rs : List ℕ) (i : ℕ) → All P rs → i < length rs → P (get_or rs i 0)
point_at P [] i h k = absurd (omega arith)
point_at P (r ∷ rs) zero (p, h) k = p
point_at P (r ∷ rs) (suc i) (p, h) k = point_at P rs i h (omega arith)

module _ (user : Comparator) (interval : ℕ) (es : List (List ℕ × List ℕ)) (fits : All FitsEntry es)
    (small : length (finish (add_entries interval new_block_builder es)).buffer < 2 ^ 32)
    (target : List ℕ) where
  abbrev data_bytes : List ℕ
  data_bytes = (builder interval es fits small).buffer

  abbrev contents : List ℕ
  contents = block interval es fits small

  abbrev points : List ℕ
  points = (builder interval es fits small).restarts

  -- A restart point from which the search may start.
  abbrev StartsAt : ℕ → Type 0
  StartsAt index =
      (index ≡ 0)
      ⊎ ((r : IsRestart es data_bytes (get_or points index 0)) × (user.compare r.key target
            ≡ Ordering.lt))

  few_points : length points * 4 < 2 ^ 32
  few_points = omega (arith, length-block_bytes (builder interval es fits small), small)

  restart_at :
      (index : ℕ)
      → 1 ≤ index
      → index < length points
      → IsRestart es data_bytes (get_or points index 0)
  restart_at index h k = elim (builder-Built interval es fits small).points [
    | inl (nothing, start) ↦ absurd (omega (arith, ap length start))
    | inr all ↦ point_at (IsRestart es data_bytes) points index all k
  ]

  -- The key at a restart point is stored whole.
  decode_restart_key :
      (index : ℕ) (r : IsRestart es data_bytes (get_or points index 0))
      → index < length points
      → (e : Lengths) × (decode_entry (
            drop
              (get_restart_point contents (length data_bytes) (length points) index)
              (take (length data_bytes) contents))
          ≡ some e)
        × (e.shared ≡ 0)
        × (take e.non_shared e.rest ≡ r.key)
  decode_restart_key index r h =
      let (shared, rest, split, none_shared, hk, same, fit, more) = r.spells in
      let zero_shared : shared ≡ 0 = omega arith in
      (
        record {
          shared = shared;
          non_shared = length r.key - shared;
          value_length = length r.value;
          rest = drop shared r.key ++ (r.value ++ rest);
        },
        ap (λ (k : ℕ). decode_entry (drop k (take (length data_bytes) contents)))
              (block-point interval es fits small index (length points) h ∙ r.place)
            ∙ ap (λ (t : List ℕ). decode_entry (drop (length r.behind) t))
                (take-block_bytes (builder interval es fits small) ∙ r.split)
            ∙ ap decode_entry (drop-append r.behind r.bytes ∙ split)
            ∙ decode_entry-entry_code shared r.key r.value rest hk fit,
        omega arith,
        take_front (length r.key - shared) (drop shared r.key) (r.value ++ rest)
              (sym (length-drop shared r.key))
            ∙ ap (λ (k : ℕ). drop k r.key) zero_shared,
      )

  restart_search-StartsAt :
      (fuel left right : ℕ)
      → left ≤ right
      → right < length points
      → right - left < fuel
      → StartsAt left
      → (index : ℕ) × (restart_search contents
            (length data_bytes)
            (length points)
            user
            target
            fuel
            left
            right
          ≡ some (some index))
        × (index < length points)
        × StartsAt index
  restart_search-StartsAt zero left right h k enough s = absurd (omega arith)
  restart_search-StartsAt (suc fuel) left right h k enough s = elim (Bool-cases (ltb left right)) [
    | inl open_range ↦
        let mid = (left + right + 1) % 2 ^ 32 / 2 in
        let inside : (left < mid) × (mid ≤ right) = ground (arith, few_points) in
        let r = restart_at mid (omega (arith, inside)) (omega (arith, inside)) in
        let (e, decoded, whole_key, key) = decode_restart_key mid r (omega (arith, inside)) in
        let step =
          restart_search-step user contents (length data_bytes) (length points) target fuel left
            right e r.key open_range decoded whole_key key in
        elim (Bool-cases (is_lt (user.compare r.key target))) [
          | inl below ↦
              let (index, found, b, starts) =
                restart_search-StartsAt fuel mid right inside.1 k (omega (arith, inside, enough))
                  (inr (r, ground arith)) in
              (index, step ∙ (rw below found), b, starts)
          | inr from ↦
              let (index, found, b, starts) =
                restart_search-StartsAt fuel left (mid - 1) (omega (arith, inside))
                  (omega (arith, inside)) (omega (arith, inside, enough)) s in
              (index, step ∙ (rw from found), b, starts)
        ]
    | inr closed ↦ (
      left,
      restart_search-closed user contents (length data_bytes) (length points) target fuel left right
          closed,
      omega arith,
      s,
    )
  ]

  some_point : 1 ≤ length points
  some_point = omega (arith, ap length (builder-Built interval es fits small).first.1)

  enough_rounds : length es < length contents + 1
  enough_rounds = omega (
    arith,
    length-Spells [] es data_bytes (builder-Built interval es fits small).spells,
    buffer_small interval es fits small,
  )

  Lands-points :
      (index : ℕ) (it : Iter)
      → IsOrder user.compare
      → IsRising user es
      → index < length points
      → StartsAt index
      → (it' : Iter) × (seek_loop contents
            (length data_bytes)
            (length points)
            user
            target
            (length contents + 1)
            (seek_to_restart_point contents (length data_bytes) (length points) it index)
          ≡ some it')
        × (it'.status ≡ it.status)
        × Lands user contents (length data_bytes) (length points) (first_from user target es) it'
  unfolding seek_to_restart_point
  Lands-points index it o rising h starts = elim starts [
    | inl first ↦
        let (it', found, status, lands) =
          seek_loop-Lands user contents (length data_bytes) (length points) all_bytes few_bytes
            target (length contents + 1) es
            (seek_to_restart_point contents (length data_bytes) (length points) it 0)
            (first_point interval es fits small it) enough_rounds in
        rw first (it', found, status, lands)
    | inr (r, below) ↦
        let rest = (r.key, r.value) ∷ r.after in
        let start : At contents (length data_bytes) (length points) rest
            (seek_to_restart_point contents (length data_bytes) (length points) it index) =
          seek_to_restart_point-At contents (length data_bytes) (length points) all_bytes few_bytes
            rest it index r.behind r.bytes
            (take-block_bytes (builder interval es fits small) ∙ r.split)
            (block-point interval es fits small index (length points) h ∙ r.place) r.spells in
        let same : first_from user target es ≡ first_from user target rest =
          ap (first_from user target) r.entries
          ∙ first_from-append user o target r.before r.key r.value r.after (rw r.entries at rising)
              below in
        let (it', found, status, lands) =
          seek_loop-Lands user contents (length data_bytes) (length points) all_bytes few_bytes
            target (length contents + 1) rest
            (seek_to_restart_point contents (length data_bytes) (length points) it index) start
            (omega (arith, enough_rounds, ap length r.entries, length-append r.before rest)) in
        (it', found, status, rw same lands)
  ]
    where
      all_bytes : length data_bytes ≤ length contents
      all_bytes = omega (arith, buffer_small interval es fits small)

      few_bytes : length data_bytes < 2 ^ 32
      few_bytes = omega (arith, buffer_small interval es fits small, small)

  -- Seek in the block of some entries with rising keys ends, with the status as it was, at the first
  -- entry whose key is not before the target, and is invalid where there is none. The comparison is an
  -- order; a key and its value have fewer than 2^32 bytes together, and so has the block.
  pub seek_entry-first_from :
      IsOrder user.compare
      → IsRising user es
      → (it : Iter)
      → (it' : Iter) × (seek_entry contents (length data_bytes) (length points) user target it
          ≡ some it')
        × (it'.status ≡ it.status)
        × Lands user contents (length data_bytes) (length points) (first_from user target es) it'
  seek_entry-first_from o rising it =
      let (index, found, h, starts) =
        restart_search-StartsAt (length points) 0 (length points - 1) (omega arith)
          (omega (arith, some_point)) (omega (arith, some_point)) (inl refl) in
      let (it', ends, status, lands) = Lands-points index it o rising h starts in
      (
        it',
        seek_entry-found user contents (length data_bytes) (length points) target it it' index found
            ends,
        status,
        lands,
      )
