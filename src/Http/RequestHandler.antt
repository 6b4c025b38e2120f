-- ===== src/Http/RequestHandler.antt =====
-- http_server/request_handler.cpp: the path of the file that a request asks for. The number that an
-- istringstream reads from hexadecimal digits is a parameter, `none` where it fails.
pub mod Decode
pub mod Path
use quas_db.Base.{
  ℕ, ◌+◌, ◌-◌, ◌%◌, Bool, true, false, not, ◌&&◌, ◌||◌, ◌==◌, if◌then◌else◌, Option, none, some,
  ◌>>=◌, List, [], ◌∷◌, ◌++◌, length, get_or,
}
use quas_db.Util.Status.{bytes}

abbrev pub plain_char : ℕ → ℕ
plain_char c = if c == b'+' then b' ' else c

abbrev pub starts_with_dot : List ℕ → Bool
starts_with_dot [] = false
starts_with_dot (c ∷ s) = c == b'.'

-- request_path.find("..") != npos
abbrev pub has_dots : List ℕ → Bool
has_dots [] = false
has_dots (c ∷ s) = (c == b'.' && starts_with_dot s) || has_dots s

module _ (hex : List ℕ → Option ℕ) where
  -- `none` for the return value false.
  unfoldable pub url_decode : List ℕ → Option (List ℕ)
  url_decode [] = some []
  url_decode (c ∷ []) = if c == b'%' then none else some (plain_char c ∷ [])
  url_decode (c ∷ a ∷ []) =
      let rest = url_decode (a ∷ []) in
      if c == b'%' then none else (rest >>= λ out. some (plain_char c ∷ out))
  url_decode (c ∷ a ∷ b ∷ s) =
      let behind = url_decode s in
      let rest = url_decode (a ∷ b ∷ s) in
      if c == b'%'
      then (hex (a ∷ b ∷ []) >>= λ v. behind >>= λ out. some (v % 256 ∷ out))
      else (rest >>= λ out. some (plain_char c ∷ out))

  -- The path below the root of the documents; `none` where the reply is bad_request.
  unfoldable pub request_path : List ℕ → Option (List ℕ)
  request_path uri = do
    path ← url_decode uri
    if length path == 0 || (not (get_or path 0 0 == b'/') || has_dots path)
        then none
        else some
            (if get_or path (length path - 1) 0 == b'/' then path ++ bytes "index.html" else path)
