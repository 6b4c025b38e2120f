-- ===== src/Http/RequestHandler/Path.antt =====
-- The path of a request stays below the root of the documents.
use quas_db.Base.{
  ℕ, zero, suc, ◌-◌, ◌≤◌, ◌≡◌, refl, sym, ap, ◌∙◌, Bool, false, not, ◌||◌, ◌==◌, Bool-cases, inl,
  inr, Option, none, some, Option-cases, List, [], ◌∷◌, ◌++◌, length, get_or, arith, if◌then◌else◌,
}
use mathlib.Core.Option.{none-ne-some, some-injective}
use quas_db.Util.Status.{bytes}
use quas_db.Http.RequestHandler.{url_decode, has_dots, request_path}

has_dots-append :
    (n : ℕ) (s t : List ℕ)
    → suc n ≡ length s
    → get_or s n 0 ≡ b'/'
    → has_dots s ≡ false
    → has_dots t ≡ false
    → has_dots (s ++ t) ≡ false
has_dots-append n [] t l slash h k = k
has_dots-append zero (c ∷ []) t l slash h k = ground (arith, slash, k)
has_dots-append (suc n) (c ∷ []) t l slash h k = absurd (omega (arith, l))
has_dots-append zero (c ∷ d ∷ s) t l slash h k = absurd (omega (arith, l))
has_dots-append (suc n) (c ∷ d ∷ s) t l slash h k =
    ground (arith, h, has_dots-append n (d ∷ s) t (omega (arith, l)) slash)

get_or-append : (s t : List ℕ) → 1 ≤ length s → get_or (s ++ t) 0 0 ≡ get_or s 0 0
get_or-append [] t h = absurd (omega arith)
get_or-append (c ∷ s) t h = refl

abbrev refused : List ℕ → Bool
refused path = length path == 0 || (not (get_or path 0 0 == b'/') || has_dots path)

abbrev completed : List ℕ → List ℕ
completed path =
    if get_or path (length path - 1) 0 == b'/' then path ++ bytes "index.html" else path

completed-has_dots :
    (path : List ℕ)
    → refused path ≡ false
    → (get_or (completed path) 0 0 ≡ b'/') × (has_dots (completed path) ≡ false)
completed-has_dots path fine =
    let filled : 1 ≤ length path = ground (arith, fine) in
    let rooted : get_or path 0 0 ≡ b'/' = ground (arith, fine) in
    let dotless : has_dots path ≡ false = ground (arith, fine) in
    elim (Bool-cases (get_or path (length path - 1) 0 == b'/')) [
      | inl directory ↦
          let slash : get_or path (length path - 1) 0 ≡ b'/' = ground (arith, directory) in
          rw directory (
            get_or-append path (bytes "index.html") filled ∙ rooted,
            has_dots-append (length path - 1) path (bytes "index.html") (omega (arith, filled))
                slash dotless refl,
          )
      | inr file ↦ rw file (rooted, dotless)
    ]

request_path-decoded :
    (hex : List ℕ → Option ℕ) (uri decoded : List ℕ)
    → url_decode hex uri ≡ some decoded
    → request_path hex uri ≡ (if refused decoded then none else some (completed decoded))
unfolding request_path
request_path-decoded hex uri decoded d = rw d refl

request_path-none :
    (hex : List ℕ → Option ℕ) (uri : List ℕ)
    → url_decode hex uri ≡ none
    → request_path hex uri ≡ none
unfolding request_path
request_path-none hex uri d = rw d refl

-- A path that a request is answered from starts with a slash, and no two dots in it stand side by
-- side, also where index.html was added to it. Any reading of the hexadecimal digits will do.
pub request_path-has_dots :
    (hex : List ℕ → Option ℕ) (uri path : List ℕ)
    → request_path hex uri ≡ some path
    → (get_or path 0 0 ≡ b'/') × (has_dots path ≡ false)
request_path-has_dots hex uri path e = elim (Option-cases (url_decode hex uri)) [
  | inl nothing ↦ absurd (none-ne-some path (sym (request_path-none hex uri nothing) ∙ e))
  | inr (decoded, d) ↦
      let answer = sym (request_path-decoded hex uri decoded d) ∙ e in
      elim (Bool-cases (refused decoded)) [
        | inl bad ↦ absurd (
            none-ne-some path
              (sym (ap (λ (b : Bool). if b then none else some (completed decoded)) bad) ∙ answer))
        | inr fine ↦
            let is_path : completed decoded ≡ path = some-injective (completed decoded) path (
              sym (ap (λ (b : Bool). if b then none else some (completed decoded)) fine)
              ∙ answer) in
            let (rooted, dotless) = completed-has_dots decoded fine in
            (
              ap (λ (p : List ℕ). get_or p 0 0) (sym is_path) ∙ rooted,
              ap has_dots (sym is_path) ∙ dotless,
            )
      ]
]
