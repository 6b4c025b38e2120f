-- ===== src/Table/Format/Handles.antt =====
-- The footer of a table, written and read back.
use quas_db.Base.{
  ℕ, ◌-◌, ◌/◌, ◌%◌, ◌^◌, ◌<◌, ◌≤◌, ◌≡◌, refl, sym, ap, ◌∙◌, List, [], ◌++◌, append_assoc, length,
  length-append, length-replicate, take, drop, take_all, drop_front, replicate, arith,
}
use quas_db.Util.Coding.{encode_varint64, put_varint64, put_fixed32, encode_fixed32, decode_fixed32}
use quas_db.Util.Coding.Encode.{encode_varint64_short}
use quas_db.Util.Coding.RoundTrip.{get_varint64-encode_varint64}
use quas_db.Util.Coding.Fixed.{decode_fixed32-encode_fixed32, length-encode_fixed32}
use quas_db.Util.Status.{ok}
use quas_db.Table.Format.{
  BlockHandle, put_handle, get_handle, Footer, footer_length, table_magic_number, put_footer,
  get_footer,
}

abbrev pub FitsHandle : BlockHandle → Type 0
FitsHandle h = (h.offset < 2 ^ 64) × (h.size < 2 ^ 64)

abbrev handle_bytes : BlockHandle → List ℕ
handle_bytes h = encode_varint64 h.offset ++ encode_varint64 h.size

put_handle_bytes : (dst : List ℕ) (h : BlockHandle) → put_handle dst h ≡ dst ++ handle_bytes h
unfolding put_handle put_varint64
put_handle_bytes dst h = append_assoc dst (encode_varint64 h.offset) (encode_varint64 h.size)

length-handle_bytes : (h : BlockHandle) → FitsHandle h → length (handle_bytes h) ≤ 20
length-handle_bytes h (o, s) = omega (
  arith,
  length-append (encode_varint64 h.offset) (encode_varint64 h.size),
  encode_varint64_short h.offset o,
  encode_varint64_short h.size s,
)

-- A handle is read back from the bytes that were written, and the bytes behind it are left.
pub get_handle-put_handle :
    (start h : BlockHandle) (rest : List ℕ)
    → FitsHandle h
    → get_handle start (handle_bytes h ++ rest) ≡ (h, rest, ok)
unfolding get_handle
get_handle-put_handle start h rest (o, s) =
    rw
      (
        append_assoc (encode_varint64 h.offset) (encode_varint64 h.size) rest,
        get_handle,
        get_varint64-encode_varint64 h.offset (encode_varint64 h.size ++ rest) o,
        get_varint64-encode_varint64 h.size rest s,
      )
      refl

abbrev handles : Footer → List ℕ
handles f = handle_bytes f.metaindex_handle ++ handle_bytes f.index_handle

abbrev padding : Footer → List ℕ
padding f = replicate (40 - length (handles f)) 0

abbrev magic_bytes : List ℕ
magic_bytes =
    encode_fixed32 (table_magic_number % 2 ^ 32) ++ encode_fixed32 (table_magic_number / 2 ^ 32)

put_footer_bytes :
    (f : Footer)
    → FitsHandle f.metaindex_handle
    → FitsHandle f.index_handle
    → put_footer [] f ≡ (handles f ++ padding f) ++ magic_bytes
unfolding put_footer put_fixed32
put_footer_bytes f m i =
    let written : put_handle (put_handle [] f.metaindex_handle) f.index_handle ≡ handles f =
      ap (λ (s : List ℕ). put_handle s f.index_handle) (put_handle_bytes [] f.metaindex_handle)
      ∙ put_handle_bytes (handle_bytes f.metaindex_handle) f.index_handle in
    let whole : take 40 (handles f) ≡ handles f = take_all 40 (handles f) (
      omega (
        arith,
        length-append (handle_bytes f.metaindex_handle) (handle_bytes f.index_handle),
        length-handle_bytes f.metaindex_handle m,
        length-handle_bytes f.index_handle i,
      )) in
    rw (written, whole)
      (append_assoc (handles f ++ padding f) (encode_fixed32 (table_magic_number % 2 ^ 32))
        (encode_fixed32 (table_magic_number / 2 ^ 32)))

length-handles :
    (f : Footer)
    → FitsHandle f.metaindex_handle
    → FitsHandle f.index_handle
    → length (handles f ++ padding f) ≡ 40
length-handles f m i = omega (
  arith,
  length-append (handles f) (padding f),
  length-replicate {A = ℕ} (40 - length (handles f)) 0,
  length-append (handle_bytes f.metaindex_handle) (handle_bytes f.index_handle),
  length-handle_bytes f.metaindex_handle m,
  length-handle_bytes f.index_handle i,
)

pub length-put_footer :
    (f : Footer)
    → FitsHandle f.metaindex_handle
    → FitsHandle f.index_handle
    → length (put_footer [] f) ≡ footer_length
length-put_footer f m i = omega (
  arith,
  ap length (put_footer_bytes f m i),
  length-append (handles f ++ padding f) magic_bytes,
  length-handles f m i,
  length-append (encode_fixed32 (table_magic_number % 2 ^ 32))
      (encode_fixed32 (table_magic_number / 2 ^ 32)),
  length-encode_fixed32 (table_magic_number % 2 ^ 32),
  length-encode_fixed32 (table_magic_number / 2 ^ 32),
)

get_footer-ok :
    (start f : Footer) (input rest1 rest2 : List ℕ)
    → decode_fixed32 (drop 40 input) ≡ table_magic_number % 2 ^ 32
    → decode_fixed32 (drop 44 input) ≡ table_magic_number / 2 ^ 32
    → get_handle start.metaindex_handle input ≡ (f.metaindex_handle, rest1, ok)
    → get_handle start.index_handle rest1 ≡ (f.index_handle, rest2, ok)
    → get_footer start input ≡ (f, drop 48 input, ok)
unfolding get_footer
get_footer-ok start f input rest1 rest2 lo hi m i = rw (get_footer, lo, hi, m, i) refl

-- A footer that is written to an empty string is read back from it, whatever the footer was before,
-- with what stands behind its 48 bytes left. The offsets and sizes of its handles are below 2^64.
pub get_footer-put_footer :
    (start f : Footer) (rest : List ℕ)
    → FitsHandle f.metaindex_handle
    → FitsHandle f.index_handle
    → get_footer start (put_footer [] f ++ rest) ≡ (f, rest, ok)
get_footer-put_footer start f rest m i =
    let front = handles f ++ padding f in
    let lo = encode_fixed32 (table_magic_number % 2 ^ 32) in
    let hi = encode_fixed32 (table_magic_number / 2 ^ 32) in
    let input : List ℕ = put_footer [] f ++ rest in
    let split : input ≡ front ++ (lo ++ (hi ++ rest)) =
      ap (λ (s : List ℕ). s ++ rest) (put_footer_bytes f m i)
      ∙ append_assoc front (lo ++ hi) rest
      ∙ ap (λ (s : List ℕ). front ++ s) (append_assoc lo hi rest) in
    let long = length-handles f m i in
    let at40 : drop 40 input ≡ lo ++ (hi ++ rest) =
      ap (λ (s : List ℕ). drop 40 s) split ∙ drop_front 40 front (lo ++ (hi ++ rest)) (sym long) in
    let at44 : drop 44 input ≡ hi ++ rest =
      ap (λ (s : List ℕ). drop 44 s) (split ∙ sym (append_assoc front lo (hi ++ rest)))
      ∙ drop_front 44 (front ++ lo) (hi ++ rest) (
          omega (
            arith,
            length-append front lo,
            long,
            length-encode_fixed32 (table_magic_number % 2 ^ 32),
          )) in
    get_footer-ok start f input (handle_bytes f.index_handle ++ (padding f ++ (lo ++ (hi ++ rest))))
      (padding f ++ (lo ++ (hi ++ rest)))
      (ap decode_fixed32 at40
        ∙ decode_fixed32-encode_fixed32 (table_magic_number % 2 ^ 32) (hi ++ rest) (omega arith))
      (ap decode_fixed32 at44
        ∙ decode_fixed32-encode_fixed32 (table_magic_number / 2 ^ 32) rest (omega arith))
      (ap (λ (s : List ℕ). get_handle start.metaindex_handle s)
          (split
            ∙ append_assoc (handles f) (padding f) (lo ++ (hi ++ rest))
            ∙ append_assoc (handle_bytes f.metaindex_handle) (handle_bytes f.index_handle)
                (padding f ++ (lo ++ (hi ++ rest))))
        ∙ get_handle-put_handle start.metaindex_handle f.metaindex_handle
            (handle_bytes f.index_handle ++ (padding f ++ (lo ++ (hi ++ rest)))) m)
      (get_handle-put_handle start.index_handle f.index_handle (padding f ++ (lo ++ (hi ++ rest)))
        i)
    ∙ ap (λ (s : List ℕ). (f, s, ok))
        (drop_front 48 (put_footer [] f) rest (sym (length-put_footer f m i)))
