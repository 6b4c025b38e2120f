-- ===== src/Http/RequestParser/Lines.antt =====
-- The loops of the parser over the name and the value of a header, which is the last one.
use quas_db.Base.{
  ℕ, ◌≡◌, ◌≢◌, refl, sym, ap, ◌∙◌, List, [], ◌∷◌, ◌++◌, append_assoc, append-nil, All, arith,
}
use quas_db.Http.RequestParser.{
  Header, Request, header_line_start, header_name, header_value, push_name, push_value, more,
  consume, parse,
}
use quas_db.Http.RequestParser.Scan.{IsToken, IsText, take_run}

pub name_all : List Header → List ℕ → List Header
name_all hs [] = hs
name_all hs (c ∷ t) = name_all (push_name hs c) t

pub value_all : List Header → List ℕ → List Header
value_all hs [] = hs
value_all hs (c ∷ t) = value_all (push_value hs c) t

push_name_last :
    (hs : List Header) (h : Header) (c : ℕ)
    → push_name (hs ++ (h ∷ [])) c ≡ hs ++ (record h { name = h.name ++ (c ∷ []) } ∷ [])
push_name_last [] h c = refl
push_name_last (g ∷ []) h c = refl
push_name_last (g ∷ k ∷ hs) h c = ap (λ l. g ∷ l) (push_name_last (k ∷ hs) h c)

push_value_last :
    (hs : List Header) (h : Header) (c : ℕ)
    → push_value (hs ++ (h ∷ [])) c ≡ hs ++ (record h { value = h.value ++ (c ∷ []) } ∷ [])
push_value_last [] h c = refl
push_value_last (g ∷ []) h c = refl
push_value_last (g ∷ k ∷ hs) h c = ap (λ l. g ∷ l) (push_value_last (k ∷ hs) h c)

pub name_all_last :
    (t : List ℕ) (hs : List Header) (h : Header)
    → name_all (hs ++ (h ∷ [])) t ≡ hs ++ (record h { name = h.name ++ t } ∷ [])
unfolding name_all
name_all_last [] hs h = ap (λ n. hs ++ (record h { name = n } ∷ [])) (sym (append-nil h.name))
name_all_last (c ∷ t) hs h =
    ap (λ l. name_all l t) (push_name_last hs h c)
    ∙ name_all_last t hs (record h { name = h.name ++ (c ∷ []) })
    ∙ ap (λ n. hs ++ (record h { name = n } ∷ [])) (append_assoc h.name (c ∷ []) t)

pub value_all_last :
    (t : List ℕ) (hs : List Header) (h : Header)
    → value_all (hs ++ (h ∷ [])) t ≡ hs ++ (record h { value = h.value ++ t } ∷ [])
unfolding value_all
value_all_last [] hs h = ap (λ n. hs ++ (record h { value = n } ∷ [])) (sym (append-nil h.value))
value_all_last (c ∷ t) hs h =
    ap (λ l. value_all l t) (push_value_last hs h c)
    ∙ value_all_last t hs (record h { value = h.value ++ (c ∷ []) })
    ∙ ap (λ n. hs ++ (record h { value = n } ∷ [])) (append_assoc h.value (c ∷ []) t)

abbrev pub with_headers : Request → List Header → Request
with_headers req hs = record req { headers = hs }

name_char :
    (req : Request) (c : ℕ)
    → IsToken c
    → consume header_name req c ≡ more header_name (with_headers req (push_name req.headers c))
unfolding consume
name_char req c h = ground arith

value_char :
    (req : Request) (c : ℕ)
    → IsText c
    → consume header_value req c ≡ more header_value (with_headers req (push_value req.headers c))
unfolding consume
value_char req c h = ground arith

pub line_char :
    (req : Request) (c : ℕ)
    → IsToken c
    → consume header_line_start req c
      ≡ more header_name
          (with_headers req (req.headers ++ (record { name = c ∷ []; value = [] } ∷ [])))
unfolding consume
line_char req c h = ground arith

pub take_name :
    (t input : List ℕ) (req : Request)
    → All IsToken t
    → parse header_name req (t ++ input)
      ≡ parse header_name (with_headers req (name_all req.headers t)) input
unfolding name_all
take_name =
    take_run header_name IsToken (λ req t. with_headers req (name_all req.headers t)) (λ req. refl)
      (λ req c t. refl) name_char

pub take_value :
    (t input : List ℕ) (req : Request)
    → All IsText t
    → parse header_value req (t ++ input)
      ≡ parse header_value (with_headers req (value_all req.headers t)) input
unfolding value_all
take_value =
    take_run header_value IsText (λ req t. with_headers req (value_all req.headers t)) (λ req. refl)
      (λ req c t. refl) value_char

-- A header line: the name, a colon and a blank, the value, and the end of the line.
abbrev pub header_text : Header → List ℕ
header_text h = h.name ++ (b':' ∷ b' ' ∷ (h.value ++ (13 ∷ 10 ∷ [])))

abbrev pub IsHeader : Header → Type 0
IsHeader h = (h.name ≢ []) × All IsToken h.name × All IsText h.value
