-- ===== src/Msguid.antt =====
-- osbase/msguid/msguid.go: the mixed-endian encoding of UUIDs. An array is a list of its bytes; `set`
-- and `get_or` stand for the accesses, whose indices are all below the length.
pub mod Transpose
use monogon.Prelude.{ℕ, zero, suc, ◌+◌, List, [], ◌∷◌, Bytes, get_or, set, replicate}

abbrev pub mixed_endian_transpose : List ℕ
mixed_endian_transpose = 3 ∷ 2 ∷ 1 ∷ 0 ∷ 5 ∷ 4 ∷ 7 ∷ 6 ∷ 8 ∷ 9 ∷ 10 ∷ 11 ∷ 12 ∷ 13 ∷ 14 ∷ 15 ∷ []

-- `for dest, from := range`, at the index `dest`.
unfoldable pub from_loop : ℕ → List ℕ → Bytes → Bytes → Bytes
from_loop dest [] u o = o
from_loop dest (from ∷ rest) u o = from_loop (suc dest) rest u (set o dest (get_or u from 0))

-- `for from, dest := range`
unfoldable pub to_loop : ℕ → List ℕ → Bytes → Bytes → Bytes
to_loop from [] i o = o
to_loop from (dest ∷ rest) i o = to_loop (suc from) rest i (set o dest (get_or i from 0))

unfoldable pub from_uuid : Bytes → Bytes
from_uuid u = from_loop 0 mixed_endian_transpose u (replicate 16 0)

unfoldable pub to_uuid : Bytes → Bytes
to_uuid i = to_loop 0 mixed_endian_transpose i (replicate 16 0)
