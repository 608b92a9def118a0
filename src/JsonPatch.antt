-- ===== src/JsonPatch.antt =====
-- osbase/jsonpatch/jsonpatch.go: JSON Pointers (RFC 6901).
pub mod Pointer
use monogon.Prelude.{Bool, List, [], ◌∷◌, ◌++◌, if◌then◌else◌, ◌==◌, Bytes, ℕ}

-- strings.ReplaceAll of one byte by a string.
unfoldable pub replace_all : ℕ → Bytes → Bytes → Bytes
replace_all b new [] = []
replace_all b new (x ∷ s) =
    let rest = replace_all b new s in if x == b then new ++ rest else x ∷ rest

unfoldable pub encode_json_ref_token : Bytes → Bytes
encode_json_ref_token token =
    let x = replace_all b'~' (b'~' ∷ b'0' ∷ []) token in replace_all b'/' (b'~' ∷ b'1' ∷ []) x

-- strings.Join
unfoldable pub join : Bytes → List Bytes → Bytes
join sep [] = []
join sep (x ∷ []) = x
join sep (x ∷ y ∷ xs) = x ++ (sep ++ join sep (y ∷ xs))

unfoldable pub encode_parts : List Bytes → List Bytes
encode_parts [] = []
encode_parts (p ∷ ps) = encode_json_ref_token p ∷ encode_parts ps

unfoldable pub pointer_from_parts : List Bytes → Bytes
pointer_from_parts parts = join (b'/' ∷ []) ([] ∷ encode_parts parts)
