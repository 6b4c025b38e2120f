-- ===== src/Http/RequestHandler/Decode.antt =====
-- url_decode reads back what was written in the form of a URL.
use quas_db.Base.{ℕ, ◌<◌, ◌≡◌, ◌≢◌, refl, ap, ◌∙◌, Option, some, List, [], ◌∷◌, All, arith}
use quas_db.Http.RequestHandler.{url_decode, plain_char}

-- A character as it stands, a plus sign for a space, and a byte by its two digits.
pub data Piece : Type 0 where
  plain : ℕ → Piece
  space : Piece
  escaped : (high low byte : ℕ) → Piece

abbrev pub written : List Piece → List ℕ
written [] = []
written (plain c ∷ ps) = c ∷ written ps
written (space ∷ ps) = b'+' ∷ written ps
written (escaped high low byte ∷ ps) = b'%' ∷ high ∷ low ∷ written ps

abbrev pub meant : List Piece → List ℕ
meant [] = []
meant (plain c ∷ ps) = c ∷ meant ps
meant (space ∷ ps) = b' ' ∷ meant ps
meant (escaped high low byte ∷ ps) = byte ∷ meant ps

module _ (hex : List ℕ → Option ℕ) where
  abbrev pub IsPiece : Piece → Type 0
  IsPiece (plain c) = (c ≢ b'%') × (c ≢ b'+')
  IsPiece space = Unit {0}
  IsPiece (escaped high low byte) = (hex (high ∷ low ∷ []) ≡ some byte) × (byte < 256)

  url_decode-plain :
      (c : ℕ) (s out : List ℕ)
      → c ≢ b'%'
      → url_decode hex s ≡ some out
      → url_decode hex (c ∷ s) ≡ some (plain_char c ∷ out)
  unfolding url_decode
  url_decode-plain c [] out h e = ground (arith, e)
  url_decode-plain c (a ∷ []) out h e = ground (arith, e)
  url_decode-plain c (a ∷ b ∷ s) out h e = ground (arith, e)

  url_decode-escaped :
      (a b v : ℕ) (s out : List ℕ)
      → hex (a ∷ b ∷ []) ≡ some v
      → v < 256
      → url_decode hex s ≡ some out
      → url_decode hex (b'%' ∷ a ∷ b ∷ s) ≡ some (v ∷ out)
  unfolding url_decode
  url_decode-escaped a b v s out h small e =
      rw (h, e) (ap (λ (n : ℕ). some (n ∷ out)) (omega arith))

  -- url_decode gives the bytes that were written as a URL: characters but the percent sign and the
  -- plus sign as they stand, plus signs for spaces, and bytes by two digits that the stream reads as
  -- that byte.
  pub url_decode-written :
      (ps : List Piece) → All IsPiece ps → url_decode hex (written ps) ≡ some (meant ps)
  unfolding url_decode
  url_decode-written [] h = refl
  url_decode-written (plain c ∷ ps) ((percent, plus), h) =
      url_decode-plain c (written ps) (meant ps) percent (url_decode-written ps h)
      ∙ ap (λ (n : ℕ). some (n ∷ meant ps)) (ground arith)
  url_decode-written (space ∷ ps) (p, h) =
      url_decode-plain b'+' (written ps) (meant ps) (omega arith) (url_decode-written ps h)
  url_decode-written (escaped high low byte ∷ ps) ((digits, small), h) =
      url_decode-escaped high low byte (written ps) (meant ps) digits small
        (url_decode-written ps h)
