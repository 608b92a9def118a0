-- ===== src/Examples/Text.antt =====
-- A pointer with a slash and a tilde in its parts, and the bytes of a UUID.
use monogon.Prelude.{◌≡◌, refl, List, [], ◌∷◌, Bytes}
use monogon.JsonPatch.{replace_all, encode_json_ref_token, join, encode_parts, pointer_from_parts}
use monogon.JsonPatch.Pointer.{parts_of_pointer, parts_of_pointer-pointer_from_parts}
use monogon.Msguid.{from_uuid, to_uuid}
use monogon.Msguid.Transpose.{Uuid, bytes_of, from_uuid-to_uuid}

-- The parts `a/b` and `~`.
abbrev odd_parts : List Bytes
odd_parts = (b'a' ∷ b'/' ∷ b'b' ∷ []) ∷ (b'~' ∷ []) ∷ []

odd_pointer :
    pointer_from_parts odd_parts ≡ b'/' ∷ b'a' ∷ b'~' ∷ b'1' ∷ b'b' ∷ b'/' ∷ b'~' ∷ b'0' ∷ []
unfolding pointer_from_parts encode_parts encode_json_ref_token replace_all join
odd_pointer = refl

parts_of_pointer-pointer_from_parts_example :
    parts_of_pointer (pointer_from_parts odd_parts) ≡ odd_parts
parts_of_pointer-pointer_from_parts_example = parts_of_pointer-pointer_from_parts odd_parts

abbrev counted : Uuid
counted = record {
  b0 = 0;
  b1 = 1;
  b2 = 2;
  b3 = 3;
  b4 = 4;
  b5 = 5;
  b6 = 6;
  b7 = 7;
  b8 = 8;
  b9 = 9;
  b10 = 10;
  b11 = 11;
  b12 = 12;
  b13 = 13;
  b14 = 14;
  b15 = 15;
}

from_uuid-to_uuid_example :
    (to_uuid (from_uuid (bytes_of counted)) ≡ bytes_of counted)
    × (from_uuid (to_uuid (bytes_of counted)) ≡ bytes_of counted)
    × (from_uuid (bytes_of counted)
        ≡ 3 ∷ 2 ∷ 1 ∷ 0 ∷ 5 ∷ 4 ∷ 7 ∷ 6 ∷ 8 ∷ 9 ∷ 10 ∷ 11 ∷ 12 ∷ 13 ∷ 14 ∷ 15 ∷ [])
from_uuid-to_uuid_example = from_uuid-to_uuid counted
