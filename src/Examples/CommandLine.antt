-- ===== src/Examples/CommandLine.antt =====
-- Kernel command lines: console=ttyS0,115200 ro and a rest.
use monogon.Prelude.{◌≡◌, refl, true, some, Bytes, bytes_eq, split_byte, [], ◌∷◌, map}
use monogon.BootParam.Tokens.{bare}
use monogon.BootParam.Lines.{unmarshal-marshal}
use monogon.BootParam.{
  Param, unmarshaled, bad_token, is_space, trim_left_space, contains_space, parse_token, scan,
  unmarshal, is_encodable, encode_param, encode_params, marshal, console_name, consoles,
}

abbrev console : Param
console = record {
  param = 99 ∷ 111 ∷ 110 ∷ 115 ∷ 111 ∷ 108 ∷ 101 ∷ [];
  value = 116 ∷ 116 ∷ 121 ∷ 83 ∷ 48 ∷ 44 ∷ 49 ∷ [];
  has_value = true;
}

-- A value with a space, which Marshal puts in quotes.
abbrev spaced : Param
spaced = record { param = 97 ∷ []; value = 98 ∷ 32 ∷ 99 ∷ []; has_value = true }

abbrev line : Bytes
line =
    99 ∷ 111 ∷ 110 ∷ 115 ∷ 111 ∷ 108 ∷ 101 ∷ 61 ∷ 116 ∷ 116 ∷ 121 ∷ 83 ∷ 48 ∷ 44 ∷ 49 ∷ 32 ∷ 97 ∷ 61
    ∷ 34 ∷ 98 ∷ 32 ∷ 99 ∷ 34 ∷ 32 ∷ 45 ∷ 45 ∷ 32 ∷ 120 ∷ []

line-marshal : marshal (console ∷ spaced ∷ []) (32 ∷ 120 ∷ []) ≡ some line
unfolding marshal encode_params encode_param is_encodable contains_space is_space trim_left_space
    bytes_eq
line-marshal = refl

console_found : consoles (console ∷ spaced ∷ []) ≡ (116 ∷ 116 ∷ 121 ∷ 83 ∷ 48 ∷ []) ∷ []
unfolding consoles console_name bytes_eq split_byte
console_found = refl

leading_equals : unmarshal (61 ∷ 97 ∷ []) ≡ bad_token []
unfolding unmarshal scan trim_left_space is_space parse_token
leading_equals = refl

unmarshal-marshal_example :
    unmarshal line
    ≡ unmarshaled (map bare (console ∷ spaced ∷ [])) (trim_left_space (32 ∷ 120 ∷ []))
unmarshal-marshal_example =
    unmarshal-marshal (console ∷ spaced ∷ []) (32 ∷ 120 ∷ []) line line-marshal
