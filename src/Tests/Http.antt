-- ===== src/Tests/Http.antt =====
-- The request parser at concrete inputs.
use quas_db.Base.{
  ℕ, inr, ◌≡◌, refl, false, ◌==◌, if◌then◌else◌, Option, none, some, List, [], ◌∷◌, ◌++◌, get_or,
  arith,
}
use quas_db.Http.RequestHandler.{url_decode, has_dots, request_path}
use quas_db.Http.RequestHandler.Decode.{plain, space, escaped, written, url_decode-written}
use quas_db.Http.RequestHandler.Path.{request_path-has_dots}
use quas_db.Util.Status.{bytes}
use quas_db.Http.RequestParser.{
  Header, method_start, expecting_newline_3, good, bad, overflow, header_name, consume, parse,
  not_token, is_digit,
}
use quas_db.Http.RequestParser.Scan.{number_from}
use quas_db.Http.RequestParser.Version.{blank}
use quas_db.Http.RequestParser.Overflow.{parse-overflow}
use quas_db.Http.RequestParser.Accept.{request_text, request_of, parse-request_text}

abbrev host : Header
host = record { name = bytes "Host"; value = bytes "a b" }

parse-request_text_example :
    parse method_start blank
      (request_text (bytes "GET") (bytes "/k") (bytes "1") (bytes "10") (host ∷ []) (bytes "x"))
    ≡ (
      record {
        state = expecting_newline_3;
        req = request_of (bytes "GET") (bytes "/k") (bytes "1") (bytes "10") (host ∷ []);
        result = good;
      },
      bytes "x",
    )
unfolding not_token is_digit number_from
parse-request_text_example =
    parse-request_text (bytes "GET") (bytes "/k") (bytes "1") (bytes "10") (host ∷ []) (bytes "x")
      (λ e. cc) (λ e. cc) (λ e. cc) (refl, (refl, (refl, tt))) ((refl, refl), ((refl, refl), tt))
      (refl, tt) (refl, (refl, tt))
      (((λ e. cc), (refl, (refl, (refl, (refl, tt)))), (refl, (refl, (refl, tt)))), tt)
      (omega arith) (omega arith)

parse-overflow_example :
    (parse method_start blank
      (request_text (bytes "GET") (bytes "/k") (bytes "1") (bytes "2147483600") [] [])).0.result
    ≡ overflow
unfolding not_token is_digit number_from
parse-overflow_example =
    parse-overflow (bytes "GET") (bytes "/k") (bytes "1") (bytes "2147483600") [] [] (λ e. cc)
      (λ e. cc) (λ e. cc) (refl, (refl, (refl, tt))) ((refl, refl), ((refl, refl), tt)) (refl, tt)
      (refl, (refl, (refl, (refl, (refl, (refl, (refl, (refl, (refl, (refl, tt))))))))))
      (inr (omega arith))

-- A request that is cut in the name of its first header.
abbrev cut_in_header : List ℕ
cut_in_header = bytes "GET / HTTP/1.1" ++ (13 ∷ 10 ∷ bytes "Host")

cut_in_header_state : (parse method_start blank cut_in_header).0.state ≡ header_name
unfolding parse consume
cut_in_header_state = refl

-- A line that begins with a blank and follows no header is refused.
early_blank :
    (parse method_start blank (bytes "G / HTTP/1.1" ++ (13 ∷ 10 ∷ bytes " x"))).0.result ≡ bad
unfolding parse consume
early_blank = refl

-- Digits of which the first is a 2 are read as a slash.
abbrev slash_only : List ℕ → Option ℕ
slash_only s = elim s [ [] ↦ none | a ∷ rest ↦ if a == b'2' then some b'/' else none ]

url_decode-written_example :
    url_decode slash_only (written (escaped b'2' b'F' b'/' ∷ plain b'a' ∷ space ∷ []))
    ≡ some (bytes "/a ")
url_decode-written_example =
    url_decode-written slash_only (escaped b'2' b'F' b'/' ∷ plain b'a' ∷ space ∷ [])
      ((refl, omega arith), ((omega arith, omega arith), (tt, tt)))

docs_path : request_path slash_only (bytes "/docs/") ≡ some (bytes "/docs/index.html")
unfolding request_path url_decode
docs_path = refl

request_path-has_dots_example :
    (get_or (bytes "/docs/index.html") 0 0 ≡ b'/') × (has_dots (bytes "/docs/index.html") ≡ false)
request_path-has_dots_example =
    request_path-has_dots slash_only (bytes "/docs/") (bytes "/docs/index.html") docs_path
