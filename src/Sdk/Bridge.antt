-- ===== src/Sdk/Bridge.antt =====
-- `HTTPBridge` of sdk/aqap_sdk/bridge/__init__.py: how a request is read from its connection. A
-- reader is the list of what its calls of `read` give, in order; afterwards they give no bytes, or
-- raise what `failure` holds. Lines and their parts are texts.
pub mod Serving
pub mod Pieces
pub mod Requests
pub mod Accepting
pub mod Answers
use Prim.Native.String
use Prim.Native.Char.{code}
use aqap.Prelude.{
  ℕ, zero, suc, ◌+◌, ◌-◌, String, Bool, true, false, ◌&&◌, Option, none, some, List, [], ◌∷◌, ◌++◌,
  if◌then◌else◌, nat_eq, ltb, take, drop, length, Result, ok, err, bind, Exc, raised,
}
use aqap.Value.{ℤ, pos, negsuc}
use aqap.Config.Environment.{after_prefix, add_char}
use aqap.Text.{Python, codes, strip}
use aqap.Text.Numbers.{int_text}

abbrev pub Bytes : Type 0
Bytes = List ℕ

pub record Reader : Type 0 where
  pub chunks : List Bytes
  pub failure : Option Exc

-- What is read of a request: the bytes before the blank line, and those after it.
pub record Request : Type 0 where
  pub head : Bytes
  pub body : Bytes

-- data.startswith(b"\r\n\r\n")
unfoldable pub starts_blank : Bytes → Bool
starts_blank (a ∷ b ∷ c ∷ d ∷ rest) = nat_eq a 13 && nat_eq b 10 && nat_eq c 13 && nat_eq d 10
starts_blank _ = false

abbrev pub next_index : Option ℕ → Option ℕ
next_index none = none
next_index (some i) = some (suc i)

-- data.find(b"\r\n\r\n"), where `none` is -1
unfoldable pub find_blank : Bytes → Option ℕ
unfolding starts_blank
find_blank [] = none
find_blank (b ∷ got) =
    let later = find_blank got in if starts_blank (b ∷ got) then some 0 else next_index later

abbrev pub is_empty : Bytes → Bool
is_empty [] = true
is_empty (b ∷ bs) = false

abbrev at_end : Option Exc → Result Bytes
at_end none = ok []
at_end (some e) = err e

-- The first loop: it ends at a blank line, and at the end of the connection.
unfoldable pub read_head : Option Exc → Bytes → List Bytes → Result Bytes × List Bytes
read_head failure got [] = elim (find_blank got) [
  | some i ↦ (ok got, [])
  | none ↦ (bind (at_end failure) (λ chunk. ok got), [])
]
read_head failure got (chunk ∷ rest) = elim (find_blank got) [
  | some i ↦ (ok got, chunk ∷ rest)
  | none ↦ if is_empty chunk then (ok got, rest) else read_head failure (got ++ chunk) rest
]

-- one call of `read`
unfoldable pub read : Option Exc → List Bytes → Result Bytes × List Bytes
read failure [] = (at_end failure, [])
read failure (chunk ∷ rest) = (ok chunk, rest)

-- The second loop, `while len(body) < clen`. The fuel is the number of its tests, `none` that they
-- have not ended it.
unfoldable pub read_body : ℕ → ℕ → Option Exc → Bytes → List Bytes → Option (Result Bytes)
unfolding read
read_body zero clen failure body chunks = none
read_body (suc fuel) clen failure body chunks = elim (ltb (length body) clen) [
  | false ↦ some (ok body)
  | true ↦
      let (r, rest) = read failure chunks in
      elim r [ ok chunk ↦ read_body fuel clen failure (body ++ chunk) rest | err e ↦ some (err e) ]
]

-- request_data[:header_end]; where no blank line came, the index is -1
unfoldable pub head_of : Bytes → Bytes
unfolding find_blank
head_of got = elim (find_blank got) [ some i ↦ take i got | none ↦ take (length got - 1) got ]

-- request_data[header_end + 4:]
unfoldable pub body_of : Bytes → Bytes
unfolding find_blank
body_of got = elim (find_blank got) [ some i ↦ drop (i + 4) got | none ↦ drop 3 got ]

-- s.split(c), for a separator of one character
unfoldable pub split_at : ℕ → String → List String
split_at sep String.[] = String.[] ∷ []
split_at sep (String.◌∷◌ c s) =
    let parts = split_at sep s in
    if nat_eq (code c) sep then String.[] ∷ parts else add_char c parts

-- s.split("\r\n")
unfoldable pub split_lines : String → List String
split_lines String.[] = String.[] ∷ []
split_lines (String.◌∷◌ c String.[]) = String.◌∷◌ c String.[] ∷ []
split_lines (String.◌∷◌ c (String.◌∷◌ d s)) = elim (nat_eq (code c) 13 && nat_eq (code d) 10) [
  | true ↦ String.[] ∷ split_lines s
  | false ↦ add_char c (split_lines (String.◌∷◌ d s))
]

-- parts[1]
abbrev pub second : List String → Result String
second (a ∷ b ∷ parts) = ok b
second _ = err (raised "list index out of range")

-- int(line.split(":")[1].strip())
unfoldable pub length_in : Python → String → Result ℤ
unfolding split_at strip int_text
length_in py line = bind (second (split_at b':' line)) (λ part. int_text py (strip py (codes part)))

-- The loop over the lines of the head; the last line that names the length counts.
unfoldable pub content_length : Python → (String → String) → ℤ → List String → Result ℤ
unfolding length_in after_prefix
content_length py lower clen [] = ok clen
content_length py lower clen (line ∷ lines) = elim (after_prefix "content-length:" (lower line)) [
  | some value ↦ bind (length_in py line) (λ n. content_length py lower n lines)
  | none ↦ content_length py lower clen lines
]

-- A negative length is less than that of every body.
abbrev pub wanted : ℤ → ℕ
wanted (pos n) = n
wanted (negsuc n) = 0
