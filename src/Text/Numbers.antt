-- ===== src/Text/Numbers.antt =====
-- Python's `int(text)` and `str(int)`.
use aqap.Prelude.{
  ℕ, zero, suc, ◌+◌, ◌*◌, ◌/◌, ◌%◌, String, Bool, true, false, ◌&&◌, List, [], ◌∷◌, ◌≡◌, refl, ltb,
  nat_eq, if◌then◌else◌, Result, ok, err, value_error, bind,
}
use aqap.Value.{ℤ, pos, negsuc}
use aqap.Text.{Python, other, digit, decimal, strip, codes, ascii, ◌+s◌}

module _ (py : Python) where
  -- Decimal digits, an underscore only between two of them: `after` says that a digit came last.
  read_body : ℕ → Bool → List ℕ → Result ℕ
  read_body n after [] = if after then ok n else err value_error
  read_body n after (c ∷ s) = elim (py.digit_of c) [
    | other ↦ if after && nat_eq c b'_' then read_body n false s else err value_error
    | digit ↦ err value_error
    | decimal d ↦ read_body (n * 10 + d) true s
  ]

  -- the decimal digits of a text
  count_digits : List ℕ → ℕ
  count_digits [] = 0
  count_digits (c ∷ s) = elim (py.digit_of c) [
    | other ↦ count_digits s
    | digit ↦ count_digits s
    | decimal d ↦ suc (count_digits s)
  ]

  unfoldable read_natural : List ℕ → Result ℕ
  unfolding read_body count_digits
  read_natural s =
      if ltb py.max_str_digits (count_digits s) then err value_error else read_body 0 false s

  abbrev negated : ℕ → ℤ
  negated zero = pos 0
  negated (suc n) = negsuc n

  unfoldable read_signed : List ℕ → Result ℤ
  unfolding read_natural
  read_signed [] = err value_error
  read_signed (c ∷ s) =
      if nat_eq c b'-'
      then bind (read_natural s) (λ n. ok (negated n))
      else if nat_eq c b'+'
      then bind (read_natural s) (λ n. ok (pos n))
      else bind (read_natural (c ∷ s)) (λ n. ok (pos n))

  -- int(s)
  unfoldable pub int_text : List ℕ → Result ℤ
  unfolding read_signed strip
  int_text s = read_signed (strip py s)

abbrev digit_text : ℕ → String
digit_text d =
    if nat_eq d 0
    then "0"
    else if nat_eq d 1
    then "1"
    else if nat_eq d 2
    then "2"
    else if nat_eq d 3
    then "3"
    else if nat_eq d 4
    then "4"
    else if nat_eq d 5
    then "5"
    else if nat_eq d 6
    then "6"
    else if nat_eq d 7
    then "7"
    else if nat_eq d 8
    then "8"
    else "9"

-- A number has no more digits than itself, so that it is enough as fuel.
decimal_within : ℕ → ℕ → String
decimal_within zero n = digit_text n
decimal_within (suc fuel) n = elim (ltb n 10) [
  | true ↦ digit_text n
  | false ↦ decimal_within fuel (n / 10) +s digit_text (n % 10)
]

-- str(n)
unfoldable pub decimal_text : ℕ → String
unfolding decimal_within
decimal_text n = decimal_within n n

decimal_text_test : decimal_text 1700000120 ≡ "1700000120"
unfolding decimal_text
decimal_text_test = refl

int_text_test : int_text ascii (codes " -1_0 ") ≡ ok (negsuc 9)
unfolding int_text
int_text_test = refl
