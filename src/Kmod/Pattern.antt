-- ===== src/Kmod/Pattern.antt =====
-- osbase/kmod/radix.go, `parsePattern`: from the text of a pattern to its parts. The state of the
-- loop is the current literal and the parts that were stored.
pub mod Reading
pub mod Grammar
pub mod Needles
pub mod Parsing
use monogon.Prelude.{
  ℕ, zero, suc, Bool, true, false, not, ◌&&◌, List, [], ◌∷◌, ◌++◌, Option, none, some,
  if◌then◌else◌, length, ltb, ◌==◌, Bytes,
}
use monogon.Kmod.{Part, root, wildcard, single_wildcard, literal, byte_range, RadixNode, add_parts}

pub data ParseError : Type 0 where
  not_enough_characters incorrect_dash_or_closing start_larger_than_end escape_at_end : ParseError

pub data Parsed : Type 0 where
  parts : List Part → Parsed
  failed : ParseError → Parsed
  out_of_fuel : Parsed

-- What the switch on `pattern[i]` reads.
pub data Token : Type 0 where
  star question : Token
  range : ℕ → ℕ → Token
  byte : ℕ → Token
  bad : ParseError → Token

-- Behind `[`.
unfoldable pub read_range : Bytes → Token × Bytes
read_range (a ∷ dash ∷ b ∷ closing ∷ rest) =
    if not ((dash == b'-') && (closing == b']'))
    then (bad incorrect_dash_or_closing, rest)
    else if ltb b a
    then (bad start_larger_than_end, rest)
    else (range a b, rest)
read_range rest = (bad not_enough_characters, rest)

-- Behind a backslash.
unfoldable pub read_escape : Bytes → Token × Bytes
read_escape [] = (bad escape_at_end, [])
read_escape (b ∷ rest) = (byte b, rest)

unfoldable pub read_token : ℕ → Bytes → Token × Bytes
read_token x rest =
    if x == b'*'
    then (star, rest)
    else if x == b'?'
    then (question, rest)
    else if x == b'['
    then read_range rest
    else if x == 92
    then read_escape rest
    else (byte x, rest)

-- `storeCurrentLiteral`
unfoldable pub store_current_literal : Bytes → List Part → List Part
store_current_literal [] out = out
store_current_literal (b ∷ l) out = out ++ literal (b ∷ l) ∷ []

abbrev pub is_wildcard : Part → Bool
is_wildcard wildcard = true
is_wildcard _ = false

unfoldable pub ends_in_wildcard : List Part → Bool
ends_in_wildcard [] = false
ends_in_wildcard (p ∷ []) = is_wildcard p
ends_in_wildcard (p ∷ q ∷ out) = ends_in_wildcard (q ∷ out)

unfoldable pub push_token : Token → Bytes → List Part → Bytes × List Part
push_token star l out =
    let stored = store_current_literal l out in
    ([], if ends_in_wildcard stored then stored else stored ++ wildcard ∷ [])
push_token question l out = ([], store_current_literal l out ++ single_wildcard ∷ [])
push_token (range a b) l out = ([], store_current_literal l out ++ byte_range a b ∷ [])
push_token (byte b) l out = (l ++ b ∷ [], out)
push_token (bad e) l out = (l, out)

abbrev pub error_of : Token → Option ParseError
error_of (bad e) = some e
error_of _ = none

unfoldable pub parse_loop : ℕ → Bytes → Bytes → List Part → Parsed
parse_loop zero pattern_text l out = out_of_fuel
parse_loop (suc fuel) [] l out = parts (store_current_literal l out)
parse_loop (suc fuel) (x ∷ rest) l out =
    let (t, behind) = read_token x rest in
    elim (error_of t) [
      | some e ↦ failed e
      | none ↦ let (l', out') = push_token t l out in parse_loop fuel behind l' out'
    ]

unfoldable pub parse_pattern : Bytes → Parsed
parse_pattern s = parse_loop (suc (length s)) s [] []

-- `AddPattern`: the tree is left alone where the pattern is illegal.
unfoldable pub add_pattern : Bytes → ℕ → RadixNode → RadixNode × Option ParseError
add_pattern s idx n = elim (parse_pattern s) [
  | parts ps ↦ (add_parts ps idx n, none)
  | failed e ↦ (n, some e)
  | out_of_fuel ↦ (n, none)
]
