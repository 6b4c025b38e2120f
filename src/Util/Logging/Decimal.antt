-- ===== src/Util/Logging/Decimal.antt =====
-- ConsumeDecimalNumber reads the leading digits as a number, and refuses the numbers above a uint64.
use quas_db.Base.{
  ℕ, ◌+◌, ◌-◌, ◌*◌, ◌^◌, ◌<◌, ◌≤◌, ◌%◌, ◌≡◌, sym, inl, inr, refl, true, false, not, ltb, ◌==◌, ◌||◌,
  Bool-cases, if◌then◌else◌, none, some, List, [], ◌∷◌, length, arith,
}
use quas_db.Util.Logging.{consume_digits, consume_decimal_number, overflows}

-- The leading digits as a number of any size, and what is behind them.
unfoldable pub leading_number : List ℕ → ℕ → ℕ × List ℕ
leading_number [] value = (value, [])
leading_number (ch ∷ input) value =
    let more = leading_number input (value * 10 + (ch - b'0')) in
    if ltb ch b'0' || ltb b'9' ch then (value, ch ∷ input) else more

leading_number_grows : (input : List ℕ) (v : ℕ) → v ≤ (leading_number input v).0
unfolding leading_number
leading_number_grows [] v = omega arith
leading_number_grows (ch ∷ input) v = elim (Bool-cases (ltb ch b'0' || ltb b'9' ch)) [
  | inl stop ↦ rw stop (omega arith)
  | inr digit ↦ rw digit (omega (arith, leading_number_grows input (v * 10 + (ch - b'0'))))
]

overflow_exact :
    (v ch : ℕ)
    → (ltb ch b'0' || ltb b'9' ch) ≡ false
    → overflows v ch ≡ not (ltb (v * 10 + (ch - b'0')) (2 ^ 64))
overflow_exact v ch h = ground arith

in_range : {A : Type 0} (n : ℕ) (x y : A) → n < 2 ^ 64 → (if ltb n (2 ^ 64) then x else y) ≡ x
in_range n x y h = ground arith

out_of_range :
    {A : Type 0} (n m : ℕ) (x y : A)
    → ltb n (2 ^ 64) ≡ false
    → n ≤ m
    → (if ltb m (2 ^ 64) then x else y) ≡ y
out_of_range n m x y h k = ground arith

no_wrap : (n : ℕ) → ltb n (2 ^ 64) ≡ true → n % 2 ^ 64 ≡ n
no_wrap n h = ground arith

-- The loop gives the leading number where it fits, however far the input goes on.
consume_digits-leading_number :
    (input : List ℕ) (v : ℕ)
    → v < 2 ^ 64
    → consume_digits input v
      ≡ (if ltb (leading_number input v).0 (2 ^ 64) then some (leading_number input v) else none)
unfolding consume_digits leading_number
consume_digits-leading_number [] v h = sym (in_range v (some (v, [])) none h)
consume_digits-leading_number (ch ∷ input) v h = elim (Bool-cases (ltb ch b'0' || ltb b'9' ch)) [
  | inl stop ↦ rw stop (sym (in_range v (some (v, ch ∷ input)) none h))
  | inr digit ↦
      let next = v * 10 + (ch - b'0') in
      elim (Bool-cases (ltb next (2 ^ 64))) [
        | inl fits ↦
            rw (digit, overflow_exact v ch digit, fits, no_wrap next fits)
              (consume_digits-leading_number input next (ground arith))
        | inr over ↦
            rw (digit, overflow_exact v ch digit, over)
              (sym (
                out_of_range next (leading_number input next).0 (some (leading_number input next))
                  none over (leading_number_grows input next)))
      ]
]

-- ConsumeDecimalNumber takes the leading digits and gives the number that they write, whatever its
-- length; it fails where there is no digit, and exactly where the number is above the largest uint64.
pub consume_decimal_number-leading_number :
    (input : List ℕ)
    → consume_decimal_number input ≡ (
        if not (ltb (leading_number input 0).0 (2 ^ 64))
          || (length (leading_number input 0).1 == length input)
        then none
        else some (leading_number input 0))
unfolding consume_decimal_number
consume_decimal_number-leading_number input =
    elim (Bool-cases (ltb (leading_number input 0).0 (2 ^ 64))) [
      | inl fits ↦
          rw (consume_decimal_number, consume_digits-leading_number input 0 (omega arith), fits)
            refl
      | inr over ↦
          rw (consume_decimal_number, consume_digits-leading_number input 0 (omega arith), over)
            refl
    ]
