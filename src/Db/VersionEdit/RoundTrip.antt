-- ===== src/Db/VersionEdit/RoundTrip.antt =====
-- EncodeTo writes the items of an edit, and DecodeFrom reads them back.
use quas_db.Base.{
  ℕ, zero, suc, ◌^◌, ◌≤◌, ◌<◌, ◌≡◌, refl, sym, ap, ◌∙◌, Option, none, some, List, [], ◌∷◌, ◌++◌,
  map, length, length-append, append_assoc, append-nil, All, All-append, true, arith,
}
use quas_db.Util.Coding.{
  encode_varint32, encode_varint64, put_varint32, put_varint64, put_length_prefixed_slice,
  get_varint32, get_varint32_ptr, get_varint32_ptr_fallback, get_varint_loop,
}
use quas_db.Util.Coding.Encode.{encode_varint32_shape}
use quas_db.Util.Status.{ok}
use quas_db.Db.WriteBatch.Records.{put_length_prefixed_slice-append}
use quas_db.Db.VersionEdit.{
  FileMetaData, VersionEdit, pair_lt, set_insert, put_number, put_comparator, put_pointer,
  put_deleted, put_new_file, encode_to, decode_field, parsed, decode_loop, decode_from, clear,
}
use quas_db.Db.VersionEdit.Items.{
  Item, named, log, prev, next, last, pointer, deleted, added, item_bytes, tag_of, body_of, apply,
  IsItem, decode_field-item, get_varint32-item,
}
use mathlib.Core.List.{foldl}

all_bytes : List Item → List ℕ
all_bytes [] = []
all_bytes (i ∷ is) = item_bytes i ++ all_bytes is

all_bytes-append : (is js : List Item) → all_bytes (is ++ js) ≡ all_bytes is ++ all_bytes js
unfolding all_bytes
all_bytes-append [] js = refl
all_bytes-append (i ∷ is) js =
    ap (λ r. item_bytes i ++ r) (all_bytes-append is js)
    ∙ sym (append_assoc (item_bytes i) (all_bytes is) (all_bytes js))

apply_all : VersionEdit → List Item → VersionEdit
apply_all e [] = e
apply_all e (i ∷ is) = apply_all (apply e i) is

abbrev maybe : {A : Type 0} → (A → Item) → Option A → List Item
maybe f none = []
maybe f (some a) = f a ∷ []

abbrev pointer_item : ℕ × List ℕ → Item
pointer_item (level, key) = pointer level key

abbrev deleted_item : ℕ × ℕ → Item
deleted_item (level, n) = deleted level n

abbrev added_item : ℕ × FileMetaData → Item
added_item (level, f) = added level f

-- The fields of an edit in the order of EncodeTo.
abbrev items : VersionEdit → List Item
items e =
    maybe named e.comparator
    ++ (maybe log e.log_number
        ++ (maybe prev e.prev_log_number
            ++ (maybe next e.next_file_number
                ++ (maybe last e.last_sequence
                    ++ (map pointer_item e.compact_pointers
                        ++ (map deleted_item e.deleted_files ++ map added_item e.new_files))))))

all_bytes_one : (i : Item) → all_bytes (i ∷ []) ≡ item_bytes i
unfolding all_bytes
all_bytes_one i = append-nil (item_bytes i)

comparator_bytes :
    (dst : List ℕ) (o : Option (List ℕ)) → put_comparator dst o ≡ dst ++ all_bytes (maybe named o)
comparator_bytes dst none = unfold all_bytes in sym (append-nil dst)
comparator_bytes dst (some name) =
    put_length_prefixed_slice-append (put_varint32 dst 1) name
    ∙ rw (all_bytes_one (named name)) (unfold put_varint32 in append_assoc dst _ _)

number_bytes :
    (tag n : ℕ) (dst : List ℕ)
    → put_number tag dst (some n) ≡ dst ++ (encode_varint32 tag ++ encode_varint64 n)
unfolding put_varint32 put_varint64
number_bytes tag n dst = append_assoc dst (encode_varint32 tag) (encode_varint64 n)

module _ (f : ℕ → Item) (tag : ℕ)
    (shape : (n : ℕ) → item_bytes (f n) ≡ encode_varint32 tag ++ encode_varint64 n) where
  maybe_number_bytes :
      (dst : List ℕ) (o : Option ℕ) → put_number tag dst o ≡ dst ++ all_bytes (maybe f o)
  maybe_number_bytes dst none = unfold all_bytes in sym (append-nil dst)
  maybe_number_bytes dst (some n) = number_bytes tag n dst ∙ rw (all_bytes_one (f n), shape n)

-- A loop that appends the bytes of one item a round.
module _ {A : Type 0} (f : A → Item) (put : List ℕ → A → List ℕ)
    (one : (dst : List ℕ) (a : A) → put dst a ≡ dst ++ item_bytes (f a)) where
  foldl_bytes : (l : List A) (dst : List ℕ) → foldl put dst l ≡ dst ++ all_bytes (map f l)
  unfolding all_bytes
  foldl_bytes [] dst = sym (append-nil dst)
  foldl_bytes (a ∷ l) dst =
      foldl_bytes l (put dst a)
      ∙ ap (λ d. d ++ all_bytes (map f l)) (one dst a)
      ∙ append_assoc dst (item_bytes (f a)) (all_bytes (map f l))

pointer_bytes :
    (dst : List ℕ) (p : ℕ × List ℕ) → put_pointer dst p ≡ dst ++ item_bytes (pointer_item p)
pointer_bytes dst (level, key) =
    put_length_prefixed_slice-append (put_varint32 (put_varint32 dst 5) level) key
    ∙ (unfold put_varint32 in simp append_assoc)

deleted_bytes : (dst : List ℕ) (p : ℕ × ℕ) → put_deleted dst p ≡ dst ++ item_bytes (deleted_item p)
unfolding put_varint32 put_varint64
deleted_bytes dst (level, n) = simp append_assoc

new_file_bytes :
    (dst : List ℕ) (p : ℕ × FileMetaData) → put_new_file dst p ≡ dst ++ item_bytes (added_item p)
new_file_bytes dst (level, f) =
    let numbers =
      put_varint64 (put_varint64 (put_varint32 (put_varint32 dst 7) level) f.number) f.file_size in
    put_length_prefixed_slice-append (put_length_prefixed_slice numbers f.smallest) f.largest
    ∙ ap (λ d. d ++ put_length_prefixed_slice [] f.largest)
        (put_length_prefixed_slice-append numbers f.smallest)
    ∙ (unfold put_varint32 put_varint64 in simp append_assoc)

encode_to-items : (e : VersionEdit) (dst : List ℕ) → encode_to e dst ≡ dst ++ all_bytes (items e)
unfolding encode_to
encode_to-items e dst =
    rw
      (
        foldl_bytes added_item put_new_file new_file_bytes e.new_files,
        foldl_bytes deleted_item put_deleted deleted_bytes e.deleted_files,
        foldl_bytes pointer_item put_pointer pointer_bytes e.compact_pointers,
        maybe_number_bytes last 4 (λ n. refl),
        maybe_number_bytes next 3 (λ n. refl),
        maybe_number_bytes prev 9 (λ n. refl),
        maybe_number_bytes log 2 (λ n. refl),
        comparator_bytes,
      )
      (simp (all_bytes-append, append_assoc))

-- The deleted files of an edit are a set: pairs in rising order.
abbrev AllBelow : ℕ × ℕ → List (ℕ × ℕ) → Type 0
AllBelow p s = All (λ q. pair_lt q p ≡ true) s

abbrev pub IsRising : List (ℕ × ℕ) → Type 0
IsRising [] = Unit {0}
IsRising (p ∷ s) = All (λ q. pair_lt p q ≡ true) s × IsRising s

set_insert_last : (p : ℕ × ℕ) (s : List (ℕ × ℕ)) → AllBelow p s → set_insert p s ≡ s ++ (p ∷ [])
unfolding set_insert
set_insert_last p [] h = refl
set_insert_last (l, n) ((m, k) ∷ s) (below, h) = ground (arith, set_insert_last (l, n) s h)

insert_all : List (ℕ × ℕ) → List (ℕ × ℕ) → List (ℕ × ℕ)
insert_all s [] = s
insert_all s (p ∷ ps) = insert_all (set_insert p s) ps

raise_bound :
    (q : ℕ × ℕ) (s ps : List (ℕ × ℕ))
    → All (λ p. AllBelow p s) ps
    → All (λ p. pair_lt q p ≡ true) ps
    → All (λ p. AllBelow p (s ++ (q ∷ []))) ps
raise_bound q s [] h k = tt
raise_bound q s (p ∷ ps) (hp, h) (kp, k) =
    (All-append _ s (q ∷ []) hp (kp, tt), raise_bound q s ps h k)

insert_all-append :
    (ps s : List (ℕ × ℕ)) → All (λ p. AllBelow p s) ps → IsRising ps → insert_all s ps ≡ s ++ ps
unfolding insert_all
insert_all-append [] s h r = sym (append-nil s)
insert_all-append (p ∷ ps) s (hp, h) (rp, r) =
    ap (λ t. insert_all t ps) (set_insert_last p s hp)
    ∙ insert_all-append ps (s ++ (p ∷ [])) (raise_bound p s ps h rp) r
    ∙ append_assoc s (p ∷ []) ps

none_below : (ps : List (ℕ × ℕ)) → All (λ p. AllBelow p []) ps
none_below [] = tt
none_below (p ∷ ps) = (tt, none_below ps)

apply_pointers :
    (e : VersionEdit) (ps : List (ℕ × List ℕ)) (is : List Item)
    → apply_all e (map pointer_item ps ++ is)
      ≡ apply_all (record e { compact_pointers = e.compact_pointers ++ ps }) is
unfolding apply_all
apply_pointers e [] is = rw (append-nil e.compact_pointers)
apply_pointers e ((level, key) ∷ ps) is =
    apply_pointers (apply e (pointer level key)) ps is
    ∙ ap (λ c. apply_all (record e { compact_pointers = c }) is)
        (append_assoc e.compact_pointers ((level, key) ∷ []) ps)

apply_deleted :
    (e : VersionEdit) (ps : List (ℕ × ℕ)) (is : List Item)
    → apply_all e (map deleted_item ps ++ is)
      ≡ apply_all (record e { deleted_files = insert_all e.deleted_files ps }) is
unfolding apply_all insert_all
apply_deleted e [] is = refl
apply_deleted e ((level, n) ∷ ps) is = apply_deleted (apply e (deleted level n)) ps is

apply_added :
    (e : VersionEdit) (fs : List (ℕ × FileMetaData))
    → apply_all e (map added_item fs) ≡ record e { new_files = e.new_files ++ fs }
unfolding apply_all
apply_added e [] = rw (append-nil e.new_files)
apply_added e ((level, f) ∷ fs) =
    apply_added (apply e (added level f)) fs
    ∙ ap (λ c. record e { new_files = c }) (append_assoc e.new_files ((level, f) ∷ []) fs)

-- An optional field that is not set yet takes the value of the item, if there is one.
set_comparator :
    (e : VersionEdit) (o : Option (List ℕ)) (is : List Item)
    → apply_all (record e { comparator = none }) (maybe named o ++ is)
      ≡ apply_all (record e { comparator = o }) is
unfolding apply_all
set_comparator e none is = refl
set_comparator e (some a) is = refl

set_log_number :
    (e : VersionEdit) (o : Option (ℕ)) (is : List Item)
    → apply_all (record e { log_number = none }) (maybe log o ++ is)
      ≡ apply_all (record e { log_number = o }) is
unfolding apply_all
set_log_number e none is = refl
set_log_number e (some a) is = refl

set_prev_log_number :
    (e : VersionEdit) (o : Option (ℕ)) (is : List Item)
    → apply_all (record e { prev_log_number = none }) (maybe prev o ++ is)
      ≡ apply_all (record e { prev_log_number = o }) is
unfolding apply_all
set_prev_log_number e none is = refl
set_prev_log_number e (some a) is = refl

set_next_file_number :
    (e : VersionEdit) (o : Option (ℕ)) (is : List Item)
    → apply_all (record e { next_file_number = none }) (maybe next o ++ is)
      ≡ apply_all (record e { next_file_number = o }) is
unfolding apply_all
set_next_file_number e none is = refl
set_next_file_number e (some a) is = refl

set_last_sequence :
    (e : VersionEdit) (o : Option (ℕ)) (is : List Item)
    → apply_all (record e { last_sequence = none }) (maybe last o ++ is)
      ≡ apply_all (record e { last_sequence = o }) is
unfolding apply_all
set_last_sequence e none is = refl
set_last_sequence e (some a) is = refl

-- Applying the fields of `e` to a cleared edit gives `e`, with the compaction pointers behind those
-- that were there.
apply_items :
    (e₀ e : VersionEdit)
    → IsRising e.deleted_files
    → apply_all (clear e₀) (items e)
      ≡ record e { compact_pointers = e₀.compact_pointers ++ e.compact_pointers }
unfolding clear
apply_items e₀ e rising =
    let is₇ = map added_item e.new_files in
    let is₆ = map deleted_item e.deleted_files ++ is₇ in
    let is₅ = map pointer_item e.compact_pointers ++ is₆ in
    let is₄ = maybe last e.last_sequence ++ is₅ in
    let is₃ = maybe next e.next_file_number ++ is₄ in
    let is₂ = maybe prev e.prev_log_number ++ is₃ in
    let is₁ = maybe log e.log_number ++ is₂ in
    let e₀' = clear e₀ in
    let e₁ = record e₀' { comparator = e.comparator } in
    let e₂ = record e₁ { log_number = e.log_number } in
    let e₃ = record e₂ { prev_log_number = e.prev_log_number } in
    let e₄ = record e₃ { next_file_number = e.next_file_number } in
    let e₅ = record e₄ { last_sequence = e.last_sequence } in
    let e₆ = record e₅ { compact_pointers = e₀.compact_pointers ++ e.compact_pointers } in
    let e₇ = record e₆ { deleted_files = e.deleted_files } in
    set_comparator e₀' e.comparator is₁
    ∙ set_log_number e₁ e.log_number is₂
    ∙ set_prev_log_number e₂ e.prev_log_number is₃
    ∙ set_next_file_number e₃ e.next_file_number is₄
    ∙ set_last_sequence e₄ e.last_sequence is₅
    ∙ apply_pointers e₅ e.compact_pointers is₆
    ∙ apply_deleted e₆ e.deleted_files is₇
    ∙ ap (λ d. apply_all (record e₆ { deleted_files = d }) is₇)
        (insert_all-append e.deleted_files [] (none_below e.deleted_files) rising)
    ∙ apply_added e₇ e.new_files

length-item : (i : Item) → 1 ≤ length (item_bytes i)
length-item i = omega (
  arith,
  length-append (encode_varint32 (tag_of i)) (body_of i),
  (encode_varint32_shape (tag_of i) (small i)).1,
)
  where
    small : (i : Item) → tag_of i < 2 ^ 32
    small (named name) = omega arith
    small _ = omega arith

length-all_bytes : (is : List Item) → length is ≤ length (all_bytes is)
unfolding all_bytes
length-all_bytes [] = omega arith
length-all_bytes (i ∷ is) =
    omega (arith, length-append (item_bytes i) (all_bytes is), length-item i, length-all_bytes is)

decode_loop-end : (fuel : ℕ) (e : VersionEdit) → decode_loop fuel [] e ≡ some (e, ok)
unfolding decode_loop get_varint32 get_varint32_ptr get_varint32_ptr_fallback get_varint_loop
decode_loop-end zero e = refl
decode_loop-end (suc fuel) e = refl

decode_loop_step :
    (fuel tag : ℕ) (input rest rest' : List ℕ) (e e' : VersionEdit)
    → get_varint32 input ≡ some (tag, rest)
    → decode_field tag rest e ≡ parsed e' rest'
    → decode_loop (suc fuel) input e ≡ decode_loop fuel rest' e'
unfolding decode_loop
decode_loop_step fuel tag input rest rest' e e' p q = rw (p, decode_loop) (rw q)

decode_loop_round :
    (fuel : ℕ) (i : Item) (rest : List ℕ) (e : VersionEdit)
    → IsItem i
    → decode_loop (suc fuel) (item_bytes i ++ rest) e ≡ decode_loop fuel rest (apply e i)
decode_loop_round fuel i rest e h =
    decode_loop_step fuel (tag_of i) (item_bytes i ++ rest) (body_of i ++ rest) rest e (apply e i)
      (get_varint32-item i rest) (decode_field-item i rest e h)

decode_loop-items :
    (is : List Item) (fuel : ℕ) (e : VersionEdit)
    → All IsItem is
    → length is ≤ fuel
    → decode_loop fuel (all_bytes is) e ≡ some (apply_all e is, ok)
unfolding all_bytes apply_all
decode_loop-items [] fuel e hs hf = decode_loop-end fuel e
decode_loop-items (i ∷ is) zero e hs hf = absurd (omega arith)
decode_loop-items (i ∷ is) (suc fuel) e (h, hs) hf =
    decode_loop_round fuel i (all_bytes is) e h
    ∙ decode_loop-items is fuel (apply e i) hs (omega arith)

-- What an edit must be to be written: numbers and lengths in range, levels below 7, nonempty keys,
-- and its set of deleted files a set.
pub record IsEdit (e : VersionEdit) : Type 0 where
  pub fields : All IsItem (items e)
  pub rising : IsRising e.deleted_files

-- DecodeFrom reads back the edit that EncodeTo wrote and returns OK, where the edit is well formed
-- (numbers in the range of their C++ types, levels below 7, nonempty internal keys, deleted files in
-- the order of the set); the compaction pointers that the target had before stay in front of those
-- that are read.
pub decode_from-encode_to :
    (e₀ e : VersionEdit)
    → IsEdit e
    → decode_from e₀ (encode_to e [])
      ≡ some (record e { compact_pointers = e₀.compact_pointers ++ e.compact_pointers }, ok)
unfolding decode_from
decode_from-encode_to e₀ e h =
    ap (λ src. decode_loop (length src) src (clear e₀)) (encode_to-items e [])
    ∙ decode_loop-items (items e) (length (all_bytes (items e))) (clear e₀) h.fields
        (length-all_bytes (items e))
    ∙ ap (λ r. some (r, ok)) (apply_items e₀ e h.rising)
