-- ===== src/Http/RequestParser/Version.antt =====
-- The request line up to the version, and the version: the digits on both sides of the dot, which are
-- read into an `int` each.
use quas_db.Base.{ℕ, ◌+◌, ◌*◌, ◌≡◌, ◌≢◌, refl, sym, ◌∙◌, true, List, [], ◌∷◌, ◌++◌, All, arith}
use mathlib.Core.Path.{subst}
use quas_db.Http.RequestParser.{
  Request, method_start, method, uri, http_version_h, http_version_t_1, http_version_t_2,
  http_version_p, http_version_slash, http_version_major_start, http_version_major,
  http_version_minor_start, http_version_minor, more, fits_int, consume, parse,
}
use quas_db.Http.RequestParser.Scan.{
  IsToken, IsUri, IsDigit, step, take_method, take_uri, take_major, take_minor, add_method, add_uri,
  add_major, add_minor, number_from, FitsBehind, fits_int-digit,
}

abbrev pub blank : Request
blank = record {
  method = [];
  uri = [];
  http_version_major = 0;
  http_version_minor = 0;
  headers = [];
}

pub major_start :
    (req : Request) (d : ℕ)
    → IsDigit d
    → fits_int (req.http_version_major * 10 + d) ≡ true
    → consume http_version_major_start req d ≡ more http_version_major (add_major req (d ∷ []))
unfolding consume add_major number_from
major_start req d h fits = ground arith

pub minor_start :
    (req : Request) (d : ℕ)
    → IsDigit d
    → fits_int (req.http_version_minor * 10 + d) ≡ true
    → consume http_version_minor_start req d ≡ more http_version_minor (add_minor req (d ∷ []))
unfolding consume add_minor number_from
minor_start req d h fits = ground arith

method_first :
    (req : Request) (c : ℕ)
    → IsToken c
    → consume method_start req c ≡ more method (add_method req (c ∷ []))
unfolding consume
method_first req c h = ground arith

-- From the start of a request to the start of the version number.
pub to_version :
    (m u v : List ℕ)
    → m ≢ []
    → All IsToken m
    → All IsUri u
    → parse method_start blank (m ++ (b' ' ∷ (u ++ (b' ' ∷ b'H' ∷ b'T' ∷ b'T' ∷ b'P' ∷ b'/' ∷ v))))
      ≡ parse http_version_major_start (record blank { method = m; uri = u }) v
to_version [] u v e hm hu = absurd (e refl)
to_version (c ∷ m) u v e (hc, hm) hu =
    let slash_on = b'H' ∷ b'T' ∷ b'T' ∷ b'P' ∷ b'/' ∷ v in
    let r1 = add_method blank (c ∷ m) in
    let r2 = add_uri r1 u in
    step method_start method blank (add_method blank (c ∷ [])) c
      (m ++ (b' ' ∷ (u ++ (b' ' ∷ slash_on)))) (method_first blank c hc)
    ∙ take_method m (b' ' ∷ (u ++ (b' ' ∷ slash_on))) (add_method blank (c ∷ [])) hm
    ∙ step method uri r1 r1 b' ' (u ++ (b' ' ∷ slash_on)) (unfold consume in refl)
    ∙ take_uri u (b' ' ∷ slash_on) r1 hu
    ∙ step uri http_version_h r2 r2 b' ' slash_on (unfold consume in refl)
    ∙ step http_version_h http_version_t_1 r2 r2 b'H' _ (unfold consume in refl)
    ∙ step http_version_t_1 http_version_t_2 r2 r2 b'T' _ (unfold consume in refl)
    ∙ step http_version_t_2 http_version_p r2 r2 b'T' _ (unfold consume in refl)
    ∙ step http_version_p http_version_slash r2 r2 b'P' (b'/' ∷ v) (unfold consume in refl)
    ∙ step http_version_slash http_version_major_start r2 r2 b'/' v (unfold consume in refl)

-- From the start of the version number to its end.
pub version :
    (d e : ℕ) (ds es rest : List ℕ) (req : Request)
    → IsDigit d
    → IsDigit e
    → All IsDigit ds
    → All IsDigit es
    → req.http_version_major ≡ 0
    → req.http_version_minor ≡ 0
    → FitsBehind 0 (d ∷ ds)
    → FitsBehind 0 (e ∷ es)
    → parse http_version_major_start req ((d ∷ ds) ++ (b'.' ∷ ((e ∷ es) ++ rest)))
      ≡ parse http_version_minor (add_minor (add_major req (d ∷ ds)) (e ∷ es)) rest
unfolding add_major add_minor number_from
version d e ds es rest req hd he hds hes n0 m0 fa fi =
    let r1 = add_major req (d ∷ []) in
    let r2 = add_major req (d ∷ ds) in
    let r3 = add_minor r2 (e ∷ []) in
    step http_version_major_start http_version_major req r1 d _ (
      major_start req d hd (
        fits_int-digit req.http_version_major d ds (hd, hds)
          (subst (λ n. FitsBehind n (d ∷ ds)) (sym n0) fa)))
    ∙ take_major ds (b'.' ∷ ((e ∷ es) ++ rest)) r1 hds
        (subst (λ n. FitsBehind n (d ∷ ds)) (sym n0) fa)
    ∙ step http_version_major http_version_minor_start r2 r2 b'.' ((e ∷ es) ++ rest)
        (unfold consume in refl)
    ∙ step http_version_minor_start http_version_minor r2 r3 e (es ++ rest) (
        minor_start r2 e he (
          fits_int-digit req.http_version_minor e es (he, hes)
            (subst (λ n. FitsBehind n (e ∷ es)) (sym m0) fi)))
    ∙ take_minor es rest r3 hes (subst (λ n. FitsBehind n (e ∷ es)) (sym m0) fi)
