-- ===== src/Http/RequestParser/Safety.antt =====
-- The parser touches `headers.back()` only where there is a header, and its version numbers stay
-- in an `int`.
use quas_db.Base.{ℕ, ◌<◌, ◌≡◌, ◌≢◌, refl, false, List, ◌∷◌, arith}
use quas_db.Http.RequestParser.{
  Request, State, header_lws, header_name, space_before_header_value, header_value, indeterminate,
  is_empty, consume, parse,
}

-- The states that write to the last header.
abbrev HasLast : State → Request → Type 0
HasLast header_lws req = is_empty req.headers ≡ false
HasLast header_name req = is_empty req.headers ≡ false
HasLast space_before_header_value req = is_empty req.headers ≡ false
HasLast header_value req = is_empty req.headers ≡ false
HasLast _ req = Unit {0}

-- Both version numbers are values of an `int`.
abbrev FitsInt : Request → Type 0
FitsInt req = (req.http_version_major < 2147483648) × (req.http_version_minor < 2147483648)

abbrev pub IsSafe : State → Request → Type 0
IsSafe s req = HasLast s req × FitsInt req

-- One round of the loop of `parse`, by the result.
module _ (s : State) (req : Request) (c : ℕ) (input : List ℕ) where
  pub parse_last :
      (consume s req c).result ≢ indeterminate → parse s req (c ∷ input) ≡ (consume s req c, input)
  unfolding parse
  parse_last e = ground arith

  pub parse_more :
      (consume s req c).result ≡ indeterminate
      → parse s req (c ∷ input) ≡ parse (consume s req c).state (consume s req c).req input
  unfolding parse
  parse_more e = rw (e, parse) refl
