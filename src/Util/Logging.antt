-- ===== src/Util/Logging.antt =====
-- kv/util/logging.cpp: reading a decimal number, as the file names and the log numbers need it.
pub mod Decimal
use quas_db.Base.{
  ℕ, ◌+◌, ◌-◌, ◌*◌, ◌%◌, ◌/◌, ◌^◌, ltb, ◌==◌, ◌||◌, ◌&&◌, if◌then◌else◌, Option, none, some, List,
  [], ◌∷◌, length, Bool, true, false,
}

abbrev pub max_uint64 : ℕ
max_uint64 = 2 ^ 64 - 1

-- The overflow check, with the last digit of the maximum.
abbrev pub overflows : ℕ → ℕ → Bool
overflows value ch =
    ltb (max_uint64 / 10) value || ((value == max_uint64 / 10) && ltb (b'0' + max_uint64 % 10) ch)

-- The loop: the value and the input that is left, or `none` where it returns false.
unfoldable pub consume_digits : List ℕ → (value : ℕ) → Option (ℕ × List ℕ)
consume_digits [] value = some (value, [])
consume_digits (ch ∷ input) value =
    let more = consume_digits input ((value * 10 + (ch - b'0')) % 2 ^ 64) in
    if ltb ch b'0' || ltb b'9' ch
    then some (value, ch ∷ input)
    else if overflows value ch
    then none
    else more

unfoldable pub consume_decimal_number : List ℕ → Option (ℕ × List ℕ)
consume_decimal_number input = elim (consume_digits input 0) [
  | none ↦ none
  | some (value, rest) ↦ if length rest == length input then none else some (value, rest)
]
