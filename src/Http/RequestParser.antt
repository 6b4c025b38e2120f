-- ===== src/Http/RequestParser.antt =====
-- http_server/request_parser.cpp and .h, request.h, header.h: the incremental parser of a request. A
-- character is its byte; the tests agree with those on a signed `char`, which takes the bytes from
-- 128 on for negative. The version numbers are read into an `int`: where the sum of the source is too large
-- for one, its behaviour is undefined, and the model stops with a result of its own, `overflow`.
pub mod Safety
pub mod Scan
pub mod Lines
pub mod Version
pub mod Accept
pub mod Overflow
use quas_db.Base.{
  ℕ, ◌+◌, ◌-◌, ◌*◌, ltb, leb, ◌==◌, ◌&&◌, ◌||◌, not, Bool, true, false, if◌then◌else◌, List, [],
  ◌∷◌, ◌++◌, length,
}

pub record Header : Type 0 where
  pub name : List ℕ
  pub value : List ℕ

-- Each version number is an `int` in the source (fits_int).
pub record Request : Type 0 where
  pub method : List ℕ
  pub uri : List ℕ
  pub http_version_major : ℕ
  pub http_version_minor : ℕ
  pub headers : List Header

pub data State : Type 0 where
  method_start method uri : State
  http_version_h http_version_t_1 http_version_t_2 http_version_p http_version_slash : State
  http_version_major_start http_version_major http_version_minor_start http_version_minor : State
  expecting_newline_1 header_line_start header_lws header_name : State
  space_before_header_value header_value expecting_newline_2 expecting_newline_3 : State

-- The source's three results, and the model's own: an `int` has overflowed.
pub data Result : Type 0 where
  good bad indeterminate overflow : Result

-- What one character leads to: the parser's state, the request and the result.
pub record Outcome : Type 0 where
  pub state : State
  pub req : Request
  pub result : Result

unfoldable pub is_char : ℕ → Bool
is_char c = leb c 127

unfoldable pub is_ctl : ℕ → Bool
is_ctl c = leb c 31 || c == 127

unfoldable pub is_tspecial : ℕ → Bool
is_tspecial c =
    c == b'('
    || c == b')'
    || c == b'<'
    || c == b'>'
    || c == b'@'
    || c == b','
    || c == b';'
    || c == b':'
    || c == 92
    || c == 34
    || c == b'/'
    || c == b'['
    || c == b']'
    || c == b'?'
    || c == b'='
    || c == b'{'
    || c == b'}'
    || c == b' '
    || c == 9

unfoldable pub is_digit : ℕ → Bool
is_digit c = leb b'0' c && leb c b'9'

-- `!is_char(input) || is_ctl(input) || is_tspecial(input)`.
unfoldable pub not_token : ℕ → Bool
unfolding is_char is_ctl is_tspecial
not_token c = not (is_char c) || is_ctl c || is_tspecial c

-- Changes of `headers.back()`; without a header it is left alone (the source's behaviour is
-- undefined there, and the invariant of the parser excludes it).
abbrev pub push_name : List Header → ℕ → List Header
push_name [] c = []
push_name (h ∷ []) c = record h { name = h.name ++ (c ∷ []) } ∷ []
push_name (h ∷ g ∷ hs) c = h ∷ push_name (g ∷ hs) c

abbrev pub push_value : List Header → ℕ → List Header
push_value [] c = []
push_value (h ∷ []) c = record h { value = h.value ++ (c ∷ []) } ∷ []
push_value (h ∷ g ∷ hs) c = h ∷ push_value (g ∷ hs) c

abbrev pub is_empty : List Header → Bool
is_empty [] = true
is_empty (h ∷ hs) = false

abbrev pub more : State → Request → Outcome
more s req = record { state = s; req = req; result = indeterminate }

abbrev pub reject : State → Request → Outcome
reject s req = record { state = s; req = req; result = bad }

-- The end of the model, where an `int` overflows in the source.
abbrev pub stuck : State → Request → Outcome
stuck s req = record { state = s; req = req; result = overflow }

-- What the source computes for `number * 10 + input` is an `int`.
abbrev pub fits_int : ℕ → Bool
fits_int n = ltb n 2147483648

-- A state that takes one character only.
abbrev pub expect : ℕ → State → State → Request → ℕ → Outcome
expect wanted here next req c = if c == wanted then more next req else reject here req

unfoldable pub consume_method_start : Request → ℕ → Outcome
unfolding not_token
consume_method_start req c =
    if not_token c
    then reject method_start req
    else more method (record req { method = req.method ++ (c ∷ []) })

unfoldable pub consume_method : Request → ℕ → Outcome
unfolding not_token
consume_method req c =
    if c == b' '
    then more uri req
    else if not_token c
    then reject method req
    else more method (record req { method = req.method ++ (c ∷ []) })

unfoldable pub consume_uri : Request → ℕ → Outcome
unfolding is_ctl
consume_uri req c =
    if c == b' '
    then more http_version_h req
    else if is_ctl c
    then reject uri req
    else more uri (record req { uri = req.uri ++ (c ∷ []) })

unfoldable pub consume_slash : Request → ℕ → Outcome
consume_slash req c =
    if c == b'/'
    then more http_version_major_start
        (record req { http_version_major = 0; http_version_minor = 0 })
    else reject http_version_slash req

-- The digit `c` behind the number read so far, where `number * 10 + input` fits.
abbrev pub push_major : Request → ℕ → Request
push_major req c = record req { http_version_major = req.http_version_major * 10 + c - b'0' }

abbrev pub push_minor : Request → ℕ → Request
push_minor req c = record req { http_version_minor = req.http_version_minor * 10 + c - b'0' }

unfoldable pub consume_major_start : Request → ℕ → Outcome
unfolding is_digit
consume_major_start req c =
    if is_digit c
    then (if fits_int (req.http_version_major * 10 + c)
        then more http_version_major (push_major req c)
        else stuck http_version_major_start req)
    else reject http_version_major_start req

unfoldable pub consume_major : Request → ℕ → Outcome
unfolding is_digit
consume_major req c =
    if c == b'.'
    then more http_version_minor_start req
    else if is_digit c
    then (if fits_int (req.http_version_major * 10 + c)
        then more http_version_major (push_major req c)
        else stuck http_version_major req)
    else reject http_version_major req

unfoldable pub consume_minor_start : Request → ℕ → Outcome
unfolding is_digit
consume_minor_start req c =
    if is_digit c
    then (if fits_int (req.http_version_minor * 10 + c)
        then more http_version_minor (push_minor req c)
        else stuck http_version_minor_start req)
    else reject http_version_minor_start req

unfoldable pub consume_minor : Request → ℕ → Outcome
unfolding is_digit
consume_minor req c =
    if c == 13
    then more expecting_newline_1 req
    else if is_digit c
    then (if fits_int (req.http_version_minor * 10 + c)
        then more http_version_minor (push_minor req c)
        else stuck http_version_minor req)
    else reject http_version_minor req

unfoldable pub consume_line_start : Request → ℕ → Outcome
unfolding not_token
consume_line_start req c =
    if c == 13
    then more expecting_newline_3 req
    else if not (is_empty req.headers) && (c == b' ' || c == 9)
    then more header_lws req
    else if not_token c
    then reject header_line_start req
    else more header_name
        (record req { headers = req.headers ++ (record { name = c ∷ []; value = [] } ∷ []) })

unfoldable pub consume_lws : Request → ℕ → Outcome
unfolding is_ctl
consume_lws req c =
    if c == 13
    then more expecting_newline_2 req
    else if c == b' ' || c == 9
    then more header_lws req
    else if is_ctl c
    then reject header_lws req
    else more header_value (record req { headers = push_value req.headers c })

unfoldable pub consume_name : Request → ℕ → Outcome
unfolding not_token
consume_name req c =
    if c == b':'
    then more space_before_header_value req
    else if not_token c
    then reject header_name req
    else more header_name (record req { headers = push_name req.headers c })

unfoldable pub consume_value : Request → ℕ → Outcome
unfolding is_ctl
consume_value req c =
    if c == 13
    then more expecting_newline_2 req
    else if is_ctl c
    then reject header_value req
    else more header_value (record req { headers = push_value req.headers c })

unfoldable pub consume : State → Request → ℕ → Outcome
unfolding consume_method_start consume_method consume_uri consume_slash consume_major_start
    consume_major consume_minor_start consume_minor consume_line_start consume_lws consume_name
    consume_value
consume method_start req c = consume_method_start req c
consume method req c = consume_method req c
consume uri req c = consume_uri req c
consume http_version_h req c = expect b'H' http_version_h http_version_t_1 req c
consume http_version_t_1 req c = expect b'T' http_version_t_1 http_version_t_2 req c
consume http_version_t_2 req c = expect b'T' http_version_t_2 http_version_p req c
consume http_version_p req c = expect b'P' http_version_p http_version_slash req c
consume http_version_slash req c = consume_slash req c
consume http_version_major_start req c = consume_major_start req c
consume http_version_major req c = consume_major req c
consume http_version_minor_start req c = consume_minor_start req c
consume http_version_minor req c = consume_minor req c
consume expecting_newline_1 req c = expect 10 expecting_newline_1 header_line_start req c
consume header_line_start req c = consume_line_start req c
consume header_lws req c = consume_lws req c
consume header_name req c = consume_name req c
consume space_before_header_value req c = expect b' ' space_before_header_value header_value req c
consume header_value req c = consume_value req c
consume expecting_newline_2 req c = expect 10 expecting_newline_2 header_line_start req c
consume expecting_newline_3 req c = record {
  state = expecting_newline_3;
  req = req;
  result = if c == 10 then good else bad;
}

-- The loop of `parse`: it stops behind the character that decides.
unfoldable pub parse : State → Request → List ℕ → Outcome × List ℕ
parse s req [] = (more s req, [])
parse s req (c ∷ input) =
    let o = consume s req c in
    let rest = parse o.state o.req input in
    elim o.result [
      | good ↦ (o, input)
      | bad ↦ (o, input)
      | overflow ↦ (o, input)
      | indeterminate ↦ rest
    ]
