-- ===== src/BootParam.antt =====
-- osbase/bootparam/bootparam.go and params.go: kernel command lines. The text of errors is not
-- modelled.
pub mod Tokens
pub mod Scanning
pub mod Lines
use monogon.Prelude.{
  ℕ, Bool, true, false, not, ◌&&◌, ◌||◌, Option, none, some, if◌then◌else◌, ◌==◌, ltb, leb, Bytes,
  bytes_eq, split_byte, List, [], ◌∷◌, ◌++◌,
}

pub record Param : Type 0 where
  pub param : Bytes
  pub value : Bytes
  pub has_value : Bool

abbrev pub quote : ℕ
quote = 34

abbrev pub equals : ℕ
equals = 61

abbrev pub space : ℕ
space = 32

abbrev pub dashes : Bytes
dashes = 45 ∷ 45 ∷ []

unfoldable pub is_space : ℕ → Bool
is_space r = (r == 9) || (r == 10) || (r == 11) || (r == 12) || (r == 13) || (r == 32) || (r == 160)

unfoldable pub trim_left_space : Bytes → Bytes
trim_left_space [] = []
trim_left_space (c ∷ s) = let rest = trim_left_space s in if is_space c then rest else c ∷ s

unfoldable pub contains_space : Bytes → Bool
contains_space [] = false
contains_space (c ∷ s) = if is_space c then true else contains_space s

-- strings.IndexByte other than -1.
abbrev pub has_byte : ℕ → Bytes → Bool
has_byte b [] = false
has_byte b (c ∷ s) = (c == b) || has_byte b s

abbrev pub is_empty : Bytes → Bool
is_empty [] = true
is_empty (c ∷ s) = false

-- strings.HasPrefix and TrimPrefix for a string of one byte.
abbrev pub has_prefix : ℕ → Bytes → Bool
has_prefix b [] = false
has_prefix b (c ∷ s) = c == b

abbrev pub trim_prefix : ℕ → Bytes → Bytes
trim_prefix b [] = []
trim_prefix b (c ∷ s) = if c == b then s else c ∷ s

-- strings.TrimSuffix for a string of one byte.
abbrev pub trim_suffix : ℕ → Bytes → Bytes
trim_suffix b [] = []
trim_suffix b (c ∷ []) = if c == b then [] else c ∷ []
trim_suffix b (c ∷ (d ∷ s)) = c ∷ trim_suffix b (d ∷ s)

-- strings.Cut at a byte; `none` for what follows when there is no such byte.
abbrev pub cut_byte : ℕ → Bytes → Bytes × Option Bytes
cut_byte b [] = ([], none)
cut_byte b (c ∷ s) =
    let rest = cut_byte b s in if c == b then ([], some s) else (c ∷ rest.0, rest.1)

-- The token after its first test; HasValue is never set.
unfoldable pub split_token : Bytes → Param
split_token token =
    let (param, value) = cut_byte equals token in
    elim value [
      | none ↦ record {
        param =
            if has_prefix quote param then trim_suffix quote (trim_prefix quote param) else param;
        value = [];
        has_value = false;
      }
      | some v ↦ record {
        param = if has_prefix quote param then trim_prefix quote param else param;
        value =
            if has_prefix quote v
            then trim_suffix quote (trim_prefix quote v)
            else if has_prefix quote param
            then trim_suffix quote v
            else v;
        has_value = false;
      }
    ]

-- `none` is the error on a leading equals sign.
unfoldable pub parse_token : Bytes → Option Param
parse_token token =
    if has_prefix equals token
      || (has_prefix quote token && has_prefix equals (trim_prefix quote token))
    then none
    else some (split_token token)

-- Params and rest, or the params before an error.
pub data Unmarshaled : Type 0 where
  unmarshaled : List Param → Bytes → Unmarshaled
  bad_token : List Param → Unmarshaled

-- The end of a token; `done` is returned behind a "--", and `more` goes on with the params.
abbrev pub end_token : Bytes → List Param → Bytes → (List Param → Unmarshaled) → Unmarshaled
end_token token params rest more =
    if is_empty (trim_left_space token) then more params else elim (parse_token token) [
      | none ↦ bad_token params
      | some p ↦
          if bytes_eq p.param dashes then unmarshaled params rest else more (params ++ p ∷ [])
    ]

-- The loop over the bytes, and what comes behind it; `token` is cmdline[lastIdx:i].
unfoldable pub scan : Bytes → Bytes → Bool → List Param → Unmarshaled
scan [] token in_quote params = end_token token params [] (λ ps. unmarshaled ps [])
scan (c ∷ s) token in_quote params = elim (is_space c && not in_quote) [
  | true ↦ end_token token params (trim_left_space s) (λ ps. scan s [] in_quote ps)
  | false ↦ scan s (token ++ c ∷ []) (if c == quote then not in_quote else in_quote) params
]

abbrev pub before_byte : ℕ → Bytes → Bytes
before_byte b s = (cut_byte b s).0

unfoldable pub unmarshal : Bytes → Unmarshaled
unmarshal cmdline = scan (before_byte 0 (trim_left_space cmdline)) [] false []

abbrev pub quoted : Bytes → Bytes
quoted s = if contains_space s then quote ∷ (s ++ quote ∷ []) else s

-- The tests of Marshal on a param.
unfoldable pub is_encodable : Param → Bool
is_encodable p =
    if has_byte equals p.param
      || (has_byte quote p.param
          || (has_byte quote p.value
              || (has_byte 0 p.param
                  || (has_byte 0 p.value || (has_byte 160 p.param || has_byte 160 p.value)))))
    then false
    else if not (is_empty p.value) && contains_space p.param
    then false
    else if bytes_eq p.param dashes
    then false
    else not (is_empty p.param)

unfoldable pub encode_param : Param → Bytes
encode_param p = quoted p.param ++ (if is_empty p.value then [] else equals ∷ quoted p.value)

unfoldable pub encode_params : List Param → Option Bytes
encode_params [] = some []
encode_params (p ∷ ps) =
    let rest = encode_params ps in
    if is_encodable p
    then elim rest [ none ↦ none | some s ↦ some (encode_param p ++ space ∷ s) ]
    else none

unfoldable pub marshal : List Param → Bytes → Option Bytes
marshal params rest = if has_byte 0 rest then none else elim (encode_params params) [
  | none ↦ none
  | some s ↦ some (if is_empty rest then s else s ++ (dashes ++ (space ∷ trim_left_space rest)))
]

-- validTTYRegexp: letters and digits, one at least.
abbrev is_alphanumeric : ℕ → Bool
is_alphanumeric c = (leb 97 c && leb c 122) || (leb 65 c && leb c 90) || (leb 48 c && leb c 57)

abbrev all_alphanumeric : Bytes → Bool
all_alphanumeric [] = true
all_alphanumeric (c ∷ s) = is_alphanumeric c && all_alphanumeric s

abbrev pub is_valid_tty : Bytes → Bool
is_valid_tty s = not (is_empty s) && all_alphanumeric s

-- strings.TrimPrefix.
abbrev trim_string : Bytes → Bytes → Option Bytes
trim_string [] s = some s
trim_string (p ∷ ps) [] = none
trim_string (p ∷ ps) (c ∷ s) = if p == c then trim_string ps s else none

abbrev first_part : List Bytes → Bytes
first_part [] = []
first_part (p ∷ ps) = p

-- The name of the console of a param, if it is one.
unfoldable pub console_name : Bytes → Bytes
console_name value =
    let name = first_part (split_byte 44 value) in
    elim (trim_string (47 ∷ 100 ∷ 101 ∷ 118 ∷ 47 ∷ []) name) [ none ↦ name | some s ↦ s ]

unfoldable pub consoles : List Param → List Bytes
consoles [] = []
consoles (p ∷ ps) =
    let rest = consoles ps in
    if bytes_eq p.param (99 ∷ 111 ∷ 110 ∷ 115 ∷ 111 ∷ 108 ∷ 101 ∷ [])
      && is_valid_tty (console_name p.value)
    then console_name p.value ∷ rest
    else rest
