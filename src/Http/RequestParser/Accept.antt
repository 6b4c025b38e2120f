-- ===== src/Http/RequestParser/Accept.antt =====
-- Every well-formed request text is accepted, and read into its parts.
use quas_db.Base.{
  ℕ, ◌+◌, ◌<◌, ◌≡◌, ◌≢◌, refl, sym, ap, ◌∙◌, List, [], ◌∷◌, ◌++◌, append_assoc, append-nil, All,
}
use quas_db.Http.RequestParser.Safety.{parse_last}
use quas_db.Http.RequestParser.{
  Header, Request, method_start, http_version_major_start, http_version_minor, expecting_newline_1,
  header_line_start, header_name, space_before_header_value, header_value, expecting_newline_2,
  expecting_newline_3, good, more, consume, parse,
}
use quas_db.Http.RequestParser.Scan.{
  IsToken, IsUri, IsText, IsDigit, step, add_major, add_minor, number_from, FitsBehind,
}
use quas_db.Http.RequestParser.Version.{blank, version, to_version}
use quas_db.Http.RequestParser.Lines.{
  with_headers, name_all_last, value_all_last, take_name, take_value, line_char, header_text,
  IsHeader,
}

header_line :
    (c : ℕ) (t v rest : List ℕ) (req : Request)
    → IsToken c
    → All IsToken t
    → All IsText v
    → parse header_line_start req ((c ∷ t) ++ (b':' ∷ b' ' ∷ (v ++ (13 ∷ 10 ∷ rest))))
      ≡ parse header_line_start
          (with_headers req (req.headers ++ (record { name = c ∷ t; value = v } ∷ [])))
          rest
header_line c t v rest req hc ht hv =
    let hs = req.headers in
    let h0 : Header = record { name = c ∷ []; value = [] } in
    let h1 : Header = record { name = c ∷ t; value = [] } in
    let h2 : Header = record { name = c ∷ t; value = v } in
    let r0 = with_headers req (hs ++ (h0 ∷ [])) in
    let r1 = with_headers req (hs ++ (h1 ∷ [])) in
    let r2 = with_headers req (hs ++ (h2 ∷ [])) in
    let end = 13 ∷ 10 ∷ rest in
    step header_line_start header_name req r0 c (t ++ (b':' ∷ b' ' ∷ (v ++ end)))
      (line_char req c hc)
    ∙ take_name t (b':' ∷ b' ' ∷ (v ++ end)) r0 ht
    ∙ ap (λ l. parse header_name (with_headers req l) (b':' ∷ b' ' ∷ (v ++ end)))
        (name_all_last t hs h0)
    ∙ step header_name space_before_header_value r1 r1 b':' (b' ' ∷ (v ++ end))
        (unfold consume in refl)
    ∙ step space_before_header_value header_value r1 r1 b' ' (v ++ end) (unfold consume in refl)
    ∙ take_value v end r1 hv
    ∙ ap (λ l. parse header_value (with_headers req l) end) (value_all_last v hs h1)
    ∙ step header_value expecting_newline_2 r2 r2 13 (10 ∷ rest) (unfold consume in refl)
    ∙ step expecting_newline_2 header_line_start r2 r2 10 rest (unfold consume in refl)

unfoldable pub headers_text : List Header → List ℕ
headers_text [] = []
headers_text (h ∷ hs) = header_text h ++ headers_text hs

header_lines :
    (hs : List Header) (rest : List ℕ) (req : Request)
    → All IsHeader hs
    → parse header_line_start req (headers_text hs ++ rest)
      ≡ parse header_line_start (with_headers req (req.headers ++ hs)) rest
unfolding headers_text
header_lines [] rest req h =
    ap (λ l. parse header_line_start (with_headers req l) rest) (sym (append-nil req.headers))
header_lines (h ∷ hs) rest req (hh, ok) =
    one_line h (headers_text hs) hh
    ∙ header_lines hs rest (with_headers req (req.headers ++ (h ∷ []))) ok
    ∙ ap (λ l. parse header_line_start (with_headers req l) rest)
        (append_assoc req.headers (h ∷ []) hs)
  where
    line :
        (n v more : List ℕ)
        → n ≢ []
        → All IsToken n
        → All IsText v
        → parse header_line_start req
            ((n ++ (b':' ∷ b' ' ∷ (v ++ (13 ∷ 10 ∷ [])))) ++ (more ++ rest))
          ≡ parse header_line_start
              (with_headers req (req.headers ++ (record { name = n; value = v } ∷ [])))
              (more ++ rest)
    line [] v more e p q = absurd (e refl)
    line (c ∷ t) v more e (pc, p) q =
        ap (parse header_line_start req) (simp append_assoc)
        ∙ header_line c t v (more ++ rest) req pc p q

    one_line :
        (h : Header) (more : List ℕ)
        → IsHeader h
        → parse header_line_start req ((header_text h ++ more) ++ rest)
          ≡ parse header_line_start (with_headers req (req.headers ++ (h ∷ []))) (more ++ rest)
    one_line h more (a, b, d) =
        ap (parse header_line_start req) (append_assoc (header_text h) more rest)
        ∙ line h.name h.value more a b d

-- The text of a request from its parts; `ma` and `mi` are the digits of the version.
abbrev pub after_minor : List Header → List ℕ → List ℕ
after_minor hs rest = 13 ∷ 10 ∷ (headers_text hs ++ (13 ∷ 10 ∷ rest))

abbrev after_major : List ℕ → List Header → List ℕ → List ℕ
after_major mi hs rest = b'.' ∷ (mi ++ after_minor hs rest)

abbrev after_uri : List ℕ → List ℕ → List Header → List ℕ → List ℕ
after_uri ma mi hs rest = b' ' ∷ b'H' ∷ b'T' ∷ b'T' ∷ b'P' ∷ b'/' ∷ (ma ++ after_major mi hs rest)

unfoldable pub request_text : List ℕ → List ℕ → List ℕ → List ℕ → List Header → List ℕ → List ℕ
request_text m u ma mi hs rest = m ++ (b' ' ∷ (u ++ after_uri ma mi hs rest))

-- The request whose text has the given parts.
abbrev pub request_of : List ℕ → List ℕ → List ℕ → List ℕ → List Header → Request
request_of m u ma mi hs = record {
  method = m;
  uri = u;
  http_version_major = number_from 0 ma;
  http_version_minor = number_from 0 mi;
  headers = hs;
}

tail_of_request :
    (hs : List Header) (rest : List ℕ) (req : Request)
    → All IsHeader hs
    → parse http_version_minor req (after_minor hs rest) ≡ (
      record {
        state = expecting_newline_3;
        req = with_headers req (req.headers ++ hs);
        result = good;
      },
      rest,
    )
tail_of_request hs rest req h =
    let more_lines = headers_text hs ++ (13 ∷ 10 ∷ rest) in
    let full = with_headers req (req.headers ++ hs) in
    step http_version_minor expecting_newline_1 req req 13 (10 ∷ more_lines)
      (unfold consume in refl)
    ∙ step expecting_newline_1 header_line_start req req 10 more_lines (unfold consume in refl)
    ∙ header_lines hs (13 ∷ 10 ∷ rest) req h
    ∙ step header_line_start expecting_newline_3 full full 13 (10 ∷ rest) (unfold consume in refl)
    ∙ (unfold consume in parse_last expecting_newline_3 full 10 rest (λ e. cc))

from_version :
    (d e : ℕ) (ds es : List ℕ) (hs : List Header) (rest : List ℕ) (req : Request)
    → IsDigit d
    → IsDigit e
    → All IsDigit ds
    → All IsDigit es
    → All IsHeader hs
    → FitsBehind 0 (d ∷ ds)
    → FitsBehind 0 (e ∷ es)
    → req.http_version_major ≡ 0
    → req.http_version_minor ≡ 0
    → parse http_version_major_start req ((d ∷ ds) ++ after_major (e ∷ es) hs rest) ≡ (
      record {
        state = expecting_newline_3;
        req = with_headers (add_minor (add_major req (d ∷ ds)) (e ∷ es)) (req.headers ++ hs);
        result = good;
      },
      rest,
    )
unfolding add_major add_minor
from_version d e ds es hs rest req hd he hds hes hhs fa fi n0 m0 =
    version d e ds es (after_minor hs rest) req hd he hds hes n0 m0 fa fi
    ∙ tail_of_request hs rest (add_minor (add_major req (d ∷ ds)) (e ∷ es)) hhs

-- A request whose method is a nonempty token, whose URI has no blank and no control character, whose
-- version has digits on both sides of the dot, each for a number that with the character 0 added is
-- an `int`, and whose headers have a nonempty token for a name and no control character in the value,
-- is accepted: the parser reads exactly its parts, says good, and
-- leaves the bytes behind the request unread.
pub parse-request_text :
    (m u ma mi : List ℕ) (hs : List Header) (rest : List ℕ)
    → m ≢ []
    → ma ≢ []
    → mi ≢ []
    → All IsToken m
    → All IsUri u
    → All IsDigit ma
    → All IsDigit mi
    → All IsHeader hs
    → number_from 0 ma + b'0' < 2147483648
    → number_from 0 mi + b'0' < 2147483648
    → parse method_start blank (request_text m u ma mi hs rest)
      ≡ (record { state = expecting_newline_3; req = request_of m u ma mi hs; result = good }, rest)
unfolding request_text add_major add_minor
parse-request_text m u [] mi hs rest e1 e2 e3 hm hu hma hmi hhs fa fi = absurd (e2 refl)
parse-request_text m u (d ∷ ds) [] hs rest e1 e2 e3 hm hu hma hmi hhs fa fi = absurd (e3 refl)
parse-request_text m u (d ∷ ds) (e ∷ es) hs rest e1 e2 e3 hm hu (hd, hds) (he, hes) hhs fa fi =
    to_version m u ((d ∷ ds) ++ after_major (e ∷ es) hs rest) e1 hm hu
    ∙ from_version d e ds es hs rest (record blank { method = m; uri = u }) hd he hds hes hhs fa fi
        refl refl
