-- ===== src/Util/Status.antt =====
-- kv/include/status.h and kv/util/status.cpp: the result of an operation. A `Status` keeps the code
-- and the two messages that it is made of; `make_state` is the buffer that the constructor fills.
pub mod Message
use quas_db.Base.{
  ℕ, zero, suc, ◌+◌, ◌-◌, ◌%◌, ◌^◌, ◌==◌, if◌then◌else◌, Bool, true, false, List, [], ◌∷◌, ◌++◌,
  length, take, drop,
}
use quas_db.Util.Coding.{encode_fixed32, decode_fixed32}
use Prim.Native.String.{String}
use Prim.Native.Char.{code}

pub data Code : Type 0 where
  not_found corruption not_supported invalid_argument io_error : Code

abbrev pub code_byte : Code → ℕ
code_byte not_found = 1
code_byte corruption = 2
code_byte not_supported = 3
code_byte invalid_argument = 4
code_byte io_error = 5

-- `ok` is the null state.
pub data Status : Type 0 where
  ok : Status
  failed : Code → List ℕ → List ℕ → Status

-- The bytes of an ASCII text.
abbrev pub bytes : String → List ℕ
bytes String.[] = []
bytes (String.◌∷◌ c s) = code c ∷ bytes s

abbrev pub is_ok : Status → Bool
is_ok ok = true
is_ok (failed c m1 m2) = false

-- memcpy(result + at, src, src.size()).
abbrev pub write_at : ℕ → List ℕ → List ℕ → List ℕ
write_at at src result = take at result ++ (src ++ drop (at + length src) result)

-- `fresh` is what `new char[size + 5]` returned. The store of the blank goes to `6 + len2`.
unfoldable pub make_state : List ℕ → Code → List ℕ → List ℕ → List ℕ
make_state fresh code msg1 msg2 =
    let len1 = length msg1 % 2 ^ 32 in
    let len2 = length msg2 % 2 ^ 32 in
    let size = (len1 + (if len2 == 0 then 0 else 2 + len2)) % 2 ^ 32 in
    let r0 = write_at 0 (encode_fixed32 size) fresh in
    let r1 = write_at 4 (code_byte code ∷ []) r0 in
    let r2 = write_at 5 msg1 r1 in
    if len2 == 0
    then r2
    else write_at (7 + len1) msg2
        (write_at (6 + len2) (b' ' ∷ []) (write_at (5 + len1) (b':' ∷ []) r2))

-- The message part of ToString.
unfoldable pub message : List ℕ → List ℕ
message state = take (decode_fixed32 state) (drop 5 state)
