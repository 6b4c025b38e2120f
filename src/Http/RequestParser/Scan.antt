-- ===== src/Http/RequestParser/Scan.antt =====
-- The loops of the parser over a method, a URI and the version's digits.
use quas_db.Base.{
  ℕ, ◌+◌, ◌-◌, ◌*◌, ◌<◌, ◌≤◌, ◌≡◌, refl, sym, ap, ◌∙◌, true, false, List, [], ◌∷◌, ◌++◌,
  append_assoc, append-nil, All, arith, ◌==◌,
}
use quas_db.Http.RequestParser.Safety.{parse_more}
use quas_db.Http.RequestParser.{
  Request, State, method, uri, http_version_major, http_version_minor, Outcome, more, consume,
  parse, not_token, is_ctl, is_digit, fits_int,
}

-- Characters of a method or a header's name; of a URI; of a header's value; of a version number.
abbrev pub IsToken : ℕ → Type 0
IsToken c = not_token c ≡ false

abbrev pub IsUri : ℕ → Type 0
IsUri c = (is_ctl c ≡ false) × ((c == b' ') ≡ false)

abbrev pub IsText : ℕ → Type 0
IsText c = is_ctl c ≡ false

abbrev pub IsDigit : ℕ → Type 0
IsDigit c = is_digit c ≡ true

-- A character that the parser takes and goes on.
pub step :
    (s s' : State) (req req' : Request) (c : ℕ) (input : List ℕ)
    → consume s req c ≡ more s' req'
    → parse s req (c ∷ input) ≡ parse s' req' input
step s s' req req' c input e =
    parse_more s req c input (ap (λ (o : Outcome). o.result) e)
    ∙ ap (λ (o : Outcome). parse o.state o.req input) e

pub method_char :
    (req : Request) (c : ℕ)
    → IsToken c
    → consume method req c ≡ more method (record req { method = req.method ++ (c ∷ []) })
unfolding consume
method_char req c h = ground arith

uri_char :
    (req : Request) (c : ℕ)
    → IsUri c
    → consume uri req c ≡ more uri (record req { uri = req.uri ++ (c ∷ []) })
unfolding consume
uri_char req c h = ground arith

-- A loop over characters that all change the request alike and stay in one state.
module _ (s : State) (Takes : Request → List ℕ → Type 0) (take : Request → List ℕ → Request)
    (nothing : (req : Request) → take req [] ≡ req)
    (one_more : (req : Request) (c : ℕ) (t : List ℕ)
      → take (take req (c ∷ [])) t ≡ take req (c ∷ t))
    (first : (req : Request) (c : ℕ) (t : List ℕ)
      → Takes req (c ∷ t)
      → consume s req c ≡ more s (take req (c ∷ [])))
    (behind : (req : Request) (c : ℕ) (t : List ℕ)
      → Takes req (c ∷ t)
      → Takes (take req (c ∷ [])) t) where
  take_while :
      (t input : List ℕ) (req : Request)
      → Takes req t
      → parse s req (t ++ input) ≡ parse s (take req t) input
  take_while [] input req h = ap (λ r. parse s r input) (sym (nothing req))
  take_while (c ∷ t) input req h =
      step s s req (take req (c ∷ [])) c (t ++ input) (first req c t h)
      ∙ take_while t input (take req (c ∷ [])) (behind req c t h)
      ∙ ap (λ r. parse s r input) (one_more req c t)

-- The same where a character is taken whatever the request holds.
module _ (s : State) (P : ℕ → Type 0) (take : Request → List ℕ → Request)
    (nothing : (req : Request) → take req [] ≡ req)
    (one_more : (req : Request) (c : ℕ) (t : List ℕ)
      → take (take req (c ∷ [])) t ≡ take req (c ∷ t))
    (one : (req : Request) (c : ℕ) → P c → consume s req c ≡ more s (take req (c ∷ []))) where
  pub take_run :
      (t input : List ℕ) (req : Request)
      → All P t
      → parse s req (t ++ input) ≡ parse s (take req t) input
  take_run =
      take_while s (λ req t. All P t) take nothing one_more (λ req c t (hc, h). one req c hc)
        (λ req c t (hc, h). h)

abbrev pub add_method : Request → List ℕ → Request
add_method req t = record req { method = req.method ++ t }

abbrev pub add_uri : Request → List ℕ → Request
add_uri req t = record req { uri = req.uri ++ t }

pub take_method :
    (t input : List ℕ) (req : Request)
    → All IsToken t
    → parse method req (t ++ input) ≡ parse method (add_method req t) input
take_method =
    take_run method IsToken add_method
      (λ req. ap (λ m. record req { method = m }) (append-nil req.method))
      (λ req c t. ap (λ m. record req { method = m }) (append_assoc req.method (c ∷ []) t))
      method_char

pub take_uri :
    (t input : List ℕ) (req : Request)
    → All IsUri t
    → parse uri req (t ++ input) ≡ parse uri (add_uri req t) input
take_uri =
    take_run uri IsUri add_uri (λ req. ap (λ m. record req { uri = m }) (append-nil req.uri))
      (λ req c t. ap (λ m. record req { uri = m }) (append_assoc req.uri (c ∷ []) t)) uri_char

-- The number that decimal digits stand for, behind a number read before.
unfoldable pub number_from : ℕ → List ℕ → ℕ
number_from n [] = n
number_from n (c ∷ t) = number_from (n * 10 + c - b'0') t

unfoldable pub add_major : Request → List ℕ → Request
add_major req t = record req { http_version_major = number_from req.http_version_major t }

unfoldable pub add_minor : Request → List ℕ → Request
add_minor req t = record req { http_version_minor = number_from req.http_version_minor t }

-- Digits that can be read behind the number `n` with no sum outside of an `int`.
abbrev pub FitsBehind : ℕ → List ℕ → Type 0
FitsBehind n t = number_from n t + b'0' < 2147483648

number_from_le : (n : ℕ) (t : List ℕ) → All IsDigit t → n ≤ number_from n t
unfolding number_from is_digit
number_from_le n [] h = omega arith
number_from_le n (c ∷ t) (hc, h) = ground (arith, number_from_le (n * 10 + c - b'0') t h)

pub fits_int-digit :
    (n c : ℕ) (t : List ℕ)
    → All IsDigit (c ∷ t)
    → FitsBehind n (c ∷ t)
    → fits_int (n * 10 + c) ≡ true
unfolding number_from is_digit
fits_int-digit n c t (hc, h) fits = ground (arith, number_from_le (n * 10 + c - b'0') t h)

major_char :
    (req : Request) (c : ℕ)
    → IsDigit c
    → fits_int (req.http_version_major * 10 + c) ≡ true
    → consume http_version_major req c ≡ more http_version_major (add_major req (c ∷ []))
unfolding consume add_major number_from
major_char req c h fits = ground arith

minor_char :
    (req : Request) (c : ℕ)
    → IsDigit c
    → fits_int (req.http_version_minor * 10 + c) ≡ true
    → consume http_version_minor req c ≡ more http_version_minor (add_minor req (c ∷ []))
unfolding consume add_minor number_from
minor_char req c h fits = ground arith

pub take_major :
    (t input : List ℕ) (req : Request)
    → All IsDigit t
    → FitsBehind req.http_version_major t
    → parse http_version_major req (t ++ input) ≡ parse http_version_major (add_major req t) input
unfolding add_major number_from
take_major t input req h fits =
    take_while http_version_major (λ r l. All IsDigit l × FitsBehind r.http_version_major l)
      add_major (λ r. refl) (λ r c l. refl)
      (λ r c l ok. major_char r c ok.0.0 (fits_int-digit r.http_version_major c l ok.0 ok.1))
      (λ r c l ok. (ok.0.1, ok.1)) t input req (h, fits)

pub take_minor :
    (t input : List ℕ) (req : Request)
    → All IsDigit t
    → FitsBehind req.http_version_minor t
    → parse http_version_minor req (t ++ input) ≡ parse http_version_minor (add_minor req t) input
unfolding add_minor number_from
take_minor t input req h fits =
    take_while http_version_minor (λ r l. All IsDigit l × FitsBehind r.http_version_minor l)
      add_minor (λ r. refl) (λ r c l. refl)
      (λ r c l ok. minor_char r c ok.0.0 (fits_int-digit r.http_version_minor c l ok.0 ok.1))
      (λ r c l ok. (ok.0.1, ok.1)) t input req (h, fits)
