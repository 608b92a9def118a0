-- ===== src/JsonPatch/Pointer.antt =====
-- Reading a pointer back.
use monogon.Prelude.{
  ◌≡◌, refl, ◌∙◌, sym, ap, true, false, ◌&&◌, List, [], ◌∷◌, ◌++◌, if◌then◌else◌, arith, inl, inr,
  ◌==◌, Bytes, ℕ, All, NotByte, Bool-cases, split_byte, split_byte-append, split_byte-clean, ==_iff,
}
use monogon.JsonPatch.{replace_all, encode_json_ref_token, join, encode_parts, pointer_from_parts}

-- "Evaluation of each reference token begins by decoding any escaped character sequence": `~1` is a
-- slash and `~0` a tilde.
unfoldable pub decode_token : Bytes → Bytes
decode_token [] = []
decode_token (x ∷ []) = x ∷ []
decode_token (x ∷ y ∷ s) =
    let rest = decode_token s in
    let plain = decode_token (y ∷ s) in
    if (x == b'~') && (y == b'1')
    then b'/' ∷ rest
    else if (x == b'~') && (y == b'0')
    then b'~' ∷ rest
    else x ∷ plain

unfoldable pub decode_tokens : List Bytes → List Bytes
decode_tokens [] = []
decode_tokens (t ∷ ts) = decode_token t ∷ decode_tokens ts

-- The tokens of a pointer: what stands behind each slash.
unfoldable pub parts_of_pointer : Bytes → List Bytes
parts_of_pointer s = elim (split_byte b'/' s) [ [] ↦ [] | front ∷ ts ↦ decode_tokens ts ]

abbrev escape : ℕ → Bytes → Bytes
escape x rest =
    if x == b'~' then b'~' ∷ b'0' ∷ rest else if x == b'/' then b'~' ∷ b'1' ∷ rest else x ∷ rest

encode-cons :
    (x : ℕ) (s : Bytes) → encode_json_ref_token (x ∷ s) ≡ escape x (encode_json_ref_token s)
unfolding encode_json_ref_token replace_all
encode-cons x s = ground arith

decode-plain : (x : ℕ) (s : Bytes) → (x == b'~') ≡ false → decode_token (x ∷ s) ≡ x ∷ decode_token s
unfolding decode_token
decode-plain x [] h = refl
decode-plain x (y ∷ s) h = ground arith

encode-tilde :
    (x : ℕ) (t : Bytes)
    → (x == b'~') ≡ true
    → encode_json_ref_token (x ∷ t) ≡ b'~' ∷ b'0' ∷ encode_json_ref_token t
encode-tilde x t h = encode-cons x t ∙ rw h refl

encode-slash :
    (x : ℕ) (t : Bytes)
    → (x == b'~') ≡ false
    → (x == b'/') ≡ true
    → encode_json_ref_token (x ∷ t) ≡ b'~' ∷ b'1' ∷ encode_json_ref_token t
encode-slash x t h g = encode-cons x t ∙ rw (h, g) refl

encode-plain :
    (x : ℕ) (t : Bytes)
    → (x == b'~') ≡ false
    → (x == b'/') ≡ false
    → encode_json_ref_token (x ∷ t) ≡ x ∷ encode_json_ref_token t
encode-plain x t h g = encode-cons x t ∙ rw (h, g) refl

decode-encode : (t : Bytes) → decode_token (encode_json_ref_token t) ≡ t
unfolding decode_token encode_json_ref_token replace_all
decode-encode [] = refl
decode-encode (x ∷ t) = elim (Bool-cases (x == b'~')) [
  | inl tilde ↦
      let is_x : b'~' ≡ x = sym ((==_iff x b'~').0 tilde) in
      ap decode_token (encode-tilde x t tilde)
      ∙ ap (◌∷◌ b'~') (decode-encode t)
      ∙ ap (λ y. y ∷ t) is_x
  | inr other ↦ elim (Bool-cases (x == b'/')) [
    | inl slash ↦
        let is_x : b'/' ≡ x = sym ((==_iff x b'/').0 slash) in
        ap decode_token (encode-slash x t other slash)
        ∙ ap (◌∷◌ b'/') (decode-encode t)
        ∙ ap (λ y. y ∷ t) is_x
    | inr plain ↦
        ap decode_token (encode-plain x t other plain)
        ∙ decode-plain x (encode_json_ref_token t) other
        ∙ ap (◌∷◌ x) (decode-encode t)
  ]
]

encode-NotByte : (t : Bytes) → All (NotByte b'/') (encode_json_ref_token t)
unfolding encode_json_ref_token replace_all
encode-NotByte [] = tt
encode-NotByte (x ∷ t) = elim (Bool-cases (x == b'~')) [
  | inl tilde ↦ rw (encode-tilde x t tilde) (refl, (refl, encode-NotByte t))
  | inr other ↦ elim (Bool-cases (x == b'/')) [
    | inl slash ↦ rw (encode-slash x t other slash) (refl, (refl, encode-NotByte t))
    | inr plain ↦ rw (encode-plain x t other plain) (plain, encode-NotByte t)
  ]
]

split_byte-join :
    (p : Bytes) (ps : List Bytes)
    → split_byte b'/' (join (b'/' ∷ []) (encode_json_ref_token p ∷ encode_parts ps))
      ≡ encode_json_ref_token p ∷ encode_parts ps
unfolding join encode_parts
split_byte-join p [] = split_byte-clean b'/' (encode_json_ref_token p) (encode-NotByte p)
split_byte-join p (q ∷ ps) =
    let first = encode_json_ref_token p in
    let tail = join (b'/' ∷ []) (encode_json_ref_token q ∷ encode_parts ps) in
    split_byte-append b'/' first tail
    ∙ ap (λ a. a ++ split_byte b'/' tail) (split_byte-clean b'/' first (encode-NotByte p))
    ∙ ap (◌∷◌ first) (split_byte-join q ps)

decode-encode_parts : (ps : List Bytes) → decode_tokens (encode_parts ps) ≡ ps
unfolding decode_tokens encode_parts
decode-encode_parts [] = refl
decode-encode_parts (p ∷ ps) = ground (arith, decode-encode p, decode-encode_parts ps)

-- A pointer reads back as the parts it was made from, whatever slashes and tildes they hold, and the
-- empty list of parts as the pointer to the whole document.
pub parts_of_pointer-pointer_from_parts :
    (ps : List Bytes) → parts_of_pointer (pointer_from_parts ps) ≡ ps
unfolding parts_of_pointer pointer_from_parts join encode_parts split_byte decode_tokens
parts_of_pointer-pointer_from_parts [] = refl
parts_of_pointer-pointer_from_parts (p ∷ ps) =
    let tail = join (b'/' ∷ []) (encode_json_ref_token p ∷ encode_parts ps) in
    let tokens : split_byte b'/' (b'/' ∷ tail) ≡ [] ∷ encode_json_ref_token p ∷ encode_parts ps =
      split_byte-append b'/' [] tail ∙ ap (◌∷◌ []) (split_byte-join p ps) in
    ap (λ ts. elim ts [ [] ↦ [] | front ∷ ts ↦ decode_tokens ts ]) tokens
    ∙ decode-encode_parts (p ∷ ps)
