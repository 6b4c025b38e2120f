-- ===== src/Http/RequestParser/Overflow.antt =====
-- What becomes of a request whose version has too many digits: the source's `int` overflows.
use quas_db.Base.{
  ℕ, ◌+◌, ◌-◌, ◌*◌, ◌<◌, ◌≤◌, ◌≡◌, ◌≢◌, ◌⊎◌, inl, inr, refl, ap, ◌∙◌, true, false, ltb, Bool-cases,
  List, [], ◌∷◌, ◌++◌, All, arith,
}
use quas_db.Http.RequestParser.Safety.{parse_last}
use quas_db.Http.RequestParser.{
  Header, Request, State, method_start, http_version_major_start, http_version_major,
  http_version_minor_start, http_version_minor, overflow, more, stuck, fits_int, push_major,
  push_minor, consume, parse, is_digit,
}
use quas_db.Http.RequestParser.Scan.{
  IsToken, IsUri, IsDigit, step, take_major, add_major, add_minor, number_from, FitsBehind,
  fits_int-digit,
}
use quas_db.Http.RequestParser.Version.{blank, major_start, minor_start, to_version}
use quas_db.Http.RequestParser.Accept.{request_text, after_minor}

-- Digits of which some sum behind the number `n` is outside of an `int`.
abbrev TooLong : ℕ → List ℕ → Type 0
TooLong n t = 2147483648 ≤ number_from n t + b'0'

-- A loop over digits that pushes each onto a number, where the sums fit.
module _ (s : State) (number : Request → ℕ) (push : Request → ℕ → Request)
    (pushed : (req : Request) (c : ℕ) → number (push req c) ≡ number req * 10 + c - b'0')
    (taken : (req : Request) (c : ℕ)
      → IsDigit c
      → fits_int (number req * 10 + c) ≡ true
      → consume s req c ≡ more s (push req c))
    (refused : (req : Request) (c : ℕ)
      → IsDigit c
      → fits_int (number req * 10 + c) ≡ false
      → consume s req c ≡ stuck s req) where
  overflows :
      (t input : List ℕ) (req : Request)
      → All IsDigit t
      → number req + b'0' < 2147483648
      → TooLong (number req) t
      → (parse s req (t ++ input)).0.result ≡ overflow
  unfolding number_from is_digit
  overflows [] input req h small long = absurd (omega arith)
  overflows (c ∷ t) input req (hc, h) small long =
      elim (Bool-cases (fits_int (number req * 10 + c))) [
        | inl fits ↦
            ap (λ r. r.0.result) (step s s req (push req c) c (t ++ input) (taken req c hc fits))
            ∙ overflows t input (push req c) h (rw (pushed req c) (ground arith))
                (rw (pushed req c) long)
        | inr over ↦
            let stop = refused req c hc over in
            ap (λ r. r.0.result) (parse_last s req c (t ++ input) (rw stop (λ e. cc)))
            ∙ rw stop refl
      ]

major_overflows :
    (t input : List ℕ) (req : Request)
    → All IsDigit t
    → req.http_version_major + b'0' < 2147483648
    → TooLong req.http_version_major t
    → (parse http_version_major req (t ++ input)).0.result ≡ overflow
unfolding consume
major_overflows =
    overflows http_version_major (λ req. req.http_version_major) push_major (λ req c. refl)
      (λ req c h fits. ground arith) (λ req c h over. ground arith)

minor_overflows :
    (t input : List ℕ) (req : Request)
    → All IsDigit t
    → req.http_version_minor + b'0' < 2147483648
    → TooLong req.http_version_minor t
    → (parse http_version_minor req (t ++ input)).0.result ≡ overflow
unfolding consume
minor_overflows =
    overflows http_version_minor (λ req. req.http_version_minor) push_minor (λ req c. refl)
      (λ req c h fits. ground arith) (λ req c h over. ground arith)

first_fits : (d : ℕ) → IsDigit d → fits_int (0 * 10 + d) ≡ true
unfolding is_digit
first_fits d h = ground arith

-- From the start of one of the numbers, which is 0 there.
long_major :
    (d : ℕ) (ds input : List ℕ) (req : Request)
    → req.http_version_major ≡ 0
    → All IsDigit (d ∷ ds)
    → TooLong 0 (d ∷ ds)
    → (parse http_version_major_start req ((d ∷ ds) ++ input)).0.result ≡ overflow
unfolding add_major number_from is_digit
long_major d ds input req zeroed (hd, h) long =
    ap (λ r. r.0.result)
      (step http_version_major_start http_version_major req (add_major req (d ∷ [])) d (ds ++ input)
        (major_start req d hd (rw zeroed (first_fits d hd))))
    ∙ major_overflows ds input (add_major req (d ∷ [])) h (rw zeroed (ground arith))
        (rw zeroed long)

long_minor :
    (e : ℕ) (es input : List ℕ) (req : Request)
    → req.http_version_minor ≡ 0
    → All IsDigit (e ∷ es)
    → TooLong 0 (e ∷ es)
    → (parse http_version_minor_start req ((e ∷ es) ++ input)).0.result ≡ overflow
unfolding add_minor number_from is_digit
long_minor e es input req zeroed (he, h) long =
    ap (λ r. r.0.result)
      (step http_version_minor_start http_version_minor req (add_minor req (e ∷ [])) e (es ++ input)
        (minor_start req e he (rw zeroed (first_fits e he))))
    ∙ minor_overflows es input (add_minor req (e ∷ [])) h (rw zeroed (ground arith))
        (rw zeroed long)

-- A major number that is read whole, up to the start of the minor one.
behind_major :
    (d : ℕ) (ds input : List ℕ) (req : Request)
    → req.http_version_major ≡ 0
    → All IsDigit (d ∷ ds)
    → FitsBehind 0 (d ∷ ds)
    → parse http_version_major_start req ((d ∷ ds) ++ (b'.' ∷ input))
      ≡ parse http_version_minor_start (add_major req (d ∷ ds)) input
unfolding add_major number_from
behind_major d ds input req zeroed (hd, h) fits =
    let r1 = add_major req (d ∷ []) in
    let r2 = add_major req (d ∷ ds) in
    step http_version_major_start http_version_major req r1 d _
      (major_start req d hd (rw zeroed (fits_int-digit 0 d ds (hd, h) fits)))
    ∙ take_major ds (b'.' ∷ input) r1 h (rw zeroed fits)
    ∙ step http_version_major http_version_minor_start r2 r2 b'.' input (unfold consume in refl)

-- A request whose parts are as in a request that is accepted, but with digits for the major or the
-- minor version number that with the character 0 added is outside of an `int`, ends in an overflow of
-- that `int`, whatever follows the version: its behaviour in the source is undefined.
pub parse-overflow :
    (m u ma mi : List ℕ) (hs : List Header) (rest : List ℕ)
    → m ≢ []
    → ma ≢ []
    → mi ≢ []
    → All IsToken m
    → All IsUri u
    → All IsDigit ma
    → All IsDigit mi
    → (2147483648 ≤ number_from 0 ma + b'0') ⊎ (2147483648 ≤ number_from 0 mi + b'0')
    → (parse method_start blank (request_text m u ma mi hs rest)).0.result ≡ overflow
unfolding request_text add_major
parse-overflow m u [] mi hs rest e1 e2 e3 hm hu hma hmi long = absurd (e2 refl)
parse-overflow m u (d ∷ ds) [] hs rest e1 e2 e3 hm hu hma hmi long = absurd (e3 refl)
parse-overflow m u (d ∷ ds) (e ∷ es) hs rest e1 e2 e3 hm hu hma hmi long =
    let req = record blank { method = m; uri = u } in
    let minor_on = (e ∷ es) ++ after_minor hs rest in
    ap (λ r. r.0.result) (to_version m u ((d ∷ ds) ++ (b'.' ∷ minor_on)) e1 hm hu)
    ∙ elim (Bool-cases (ltb (number_from 0 (d ∷ ds) + b'0') 2147483648)) [
      | inl fits ↦
          ap (λ r. r.0.result) (behind_major d ds minor_on req refl hma (ground arith))
          ∙ long_minor e es (after_minor hs rest) (add_major req (d ∷ ds)) refl hmi (ground arith)
      | inr over ↦ long_major d ds (b'.' ∷ minor_on) req refl hma (ground arith)
    ]
