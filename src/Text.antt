-- ===== src/Text.antt =====
-- The `str` methods that the program calls, over code points. What Unicode says of a character is
-- a parameter, with CPython's limit on the digits that `int` reads: `Python`.
pub mod Numbers
use Prim.Native.String
use Prim.Native.Char.{code}
use mathlib.Core.List.{flat_map, reverse}
use aqap.Prelude.{
  ℕ, ◌+◌, ◌-◌, ◌*◌, String, Bool, true, false, ◌&&◌, ◌||◌, List, [], ◌∷◌, ◌≡◌, refl, arith, leb,
  ltb, nat_eq, if◌then◌else◌, length, Result, ok, err, value_error,
}

-- The code points of a text. `String` has its own `[]` and `∷`.
abbrev pub codes : String → List ℕ
codes String.[] = []
codes (String.◌∷◌ c s) = code c ∷ codes s

infixl 65 ◌+s◌
abbrev pub ◌+s◌ : String → String → String
s +s t = String.◌++◌ s t

-- `isdigit` holds of `digit` and `decimal` characters; `int` reads the `decimal` ones alone.
pub data Digit : Type 0 where
  other digit : Digit
  decimal : ℕ → Digit

pub record Python : Type 0 where
  pub upper_char : ℕ → List ℕ
  pub is_space : ℕ → Bool
  pub digit_of : ℕ → Digit
  pub max_str_digits : ℕ

abbrev pub same_codes : List ℕ → List ℕ → Bool
same_codes [] [] = true
same_codes [] (d ∷ t) = false
same_codes (c ∷ s) [] = false
same_codes (c ∷ s) (d ∷ t) = nat_eq c d && same_codes s t

same_codes_refl : (s : List ℕ) → same_codes s s ≡ true
same_codes_refl [] = refl
same_codes_refl (c ∷ s) = ground (arith, same_codes_refl s)

-- "." in s
abbrev pub has_dot : List ℕ → Bool
has_dot [] = false
has_dot (c ∷ s) = nat_eq c b'.' || has_dot s

-- s.split(".")[0]
abbrev pub before_dot : List ℕ → List ℕ
before_dot [] = []
before_dot (c ∷ s) = let rest = before_dot s in if nat_eq c b'.' then [] else c ∷ rest

module _ (py : Python) where
  -- s.upper()
  unfoldable pub upper : List ℕ → List ℕ
  upper s = flat_map py.upper_char s

  abbrev lstrip : List ℕ → List ℕ
  lstrip [] = []
  lstrip (c ∷ s) = let rest = lstrip s in if py.is_space c then rest else c ∷ s

  -- s.strip()
  unfoldable pub strip : List ℕ → List ℕ
  strip s = reverse (lstrip (reverse (lstrip s)))

  abbrev is_digit_char : ℕ → Bool
  is_digit_char c = elim (py.digit_of c) [ other ↦ false | digit ↦ true | decimal n ↦ true ]

  abbrev all_digits : List ℕ → Bool
  all_digits [] = true
  all_digits (c ∷ s) = is_digit_char c && all_digits s

  -- s.isdigit()
  unfoldable pub isdigit : List ℕ → Bool
  isdigit [] = false
  isdigit (c ∷ s) = is_digit_char c && all_digits s

  read_digits : ℕ → List ℕ → Result ℕ
  read_digits n [] = ok n
  read_digits n (c ∷ s) = elim (py.digit_of c) [
    | other ↦ err value_error
    | digit ↦ err value_error
    | decimal d ↦ read_digits (n * 10 + d) s
  ]

  -- int(s), where s has passed `isdigit`: no sign, blank or underscore
  unfoldable pub int_of : List ℕ → Result ℕ
  unfolding read_digits
  int_of s = if ltb py.max_str_digits (length s) then err value_error else read_digits 0 s

-- Unicode's tables on ASCII, for tests.
abbrev pub ascii : Python
ascii = record {
  upper_char = λ c. if leb b'a' c && leb c b'z' then (c - 32) ∷ [] else c ∷ [];
  is_space = λ c. (leb 9 c && leb c 13) || (leb 28 c && leb c 32);
  digit_of = λ c. if leb b'0' c && leb c b'9' then decimal (c - b'0') else other;
  max_str_digits = 4300;
}

strip_test : strip ascii (codes " a b ") ≡ codes "a b"
unfolding strip
strip_test = refl

int_test : int_of ascii (codes "042") ≡ ok 42
unfolding int_of
int_test = refl
