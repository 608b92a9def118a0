-- ===== src/BootParam/Lines.antt =====
-- osbase/bootparam/bootparam.go, Marshal and Unmarshal: the round trip.
use monogon.Prelude.{
  ◌≡◌, refl, ap, ◌∙◌, true, false, some, if◌then◌else◌, Bytes, bytes_eq, List, [], ◌∷◌, ◌++◌, map,
  arith, inl, inr, Bool-cases, Option-cases,
}
use monogon.BootParam.Tokens.{
  bare, append_nil, append_assoc, has_byte-append, cut_byte-none, IsEncodable,
  is_encodable-IsEncodable,
}
use monogon.BootParam.{
  Param, split_token, unmarshaled, quote, equals, space, dashes, is_space, trim_left_space,
  has_byte, is_empty, parse_token, scan, before_byte, unmarshal, quoted, is_encodable, encode_param,
  encode_params, marshal,
}
use monogon.BootParam.Scanning.{
  starts_word, trim_left_space-word, encode_param-starts, scan-encode_params,
}

quoted-no_nul : (xs : Bytes) → has_byte 0 xs ≡ false → has_byte 0 (quoted xs) ≡ false
quoted-no_nul xs h = ground (arith, h, has_byte-append 0 xs (quote ∷ []))

encode_param-no_nul : (p : Param) → IsEncodable p → has_byte 0 (encode_param p) ≡ false
unfolding encode_param
encode_param-no_nul p f =
    let value = if is_empty p.value then [] else equals ∷ quoted p.value in
    ground (
      arith,
      has_byte-append 0 (quoted p.param) value,
      quoted-no_nul p.param f.no_nul,
      quoted-no_nul p.value f.no_nul_value,
    )

-- What Marshal writes for the params has no NUL, and a space that follows does not trim it.
encode_params-clean :
    (ps : List Param) (t u : Bytes)
    → encode_params ps ≡ some t
    → trim_left_space u ≡ u
    → (has_byte 0 t ≡ false) × (trim_left_space (t ++ u) ≡ t ++ u)
unfolding encode_params
encode_params-clean [] t u h w = let e : t ≡ [] = ground (arith, h) in rw e (refl, w)
encode_params-clean (p ∷ ps) t u h w = elim (Bool-cases (is_encodable p)) [
  | inr bad ↦ absurd (ground (arith, bad, h))
  | inl ok ↦ elim (Option-cases (encode_params ps)) [
    | inl gone ↦ absurd (ground (arith, ok, gone, h))
    | inr (rest, there) ↦
        let f = is_encodable-IsEncodable p ok in
        let token = encode_param p in
        let e : t ≡ token ++ space ∷ rest = ground (arith, h, ok, there) in
        let clean : has_byte 0 t ≡ false = rw e (
          ground (
            arith,
            has_byte-append 0 token (space ∷ rest),
            encode_param-no_nul p f,
            (encode_params-clean ps rest u there w).0,
          )) in
        let split : t ++ u ≡ token ++ (space ∷ rest ++ u) =
          ap (λ x. x ++ u) e ∙ append_assoc token (space ∷ rest) u in
        let word : starts_word (t ++ u) ≡ true =
          ap starts_word split ∙ encode_param-starts p (space ∷ rest ++ u) f in
        (clean, trim_left_space-word (t ++ u) word)
  ]
]

trim_left_space-twice : (s : Bytes) → trim_left_space (trim_left_space s) ≡ trim_left_space s
unfolding trim_left_space
trim_left_space-twice [] = refl
trim_left_space-twice (c ∷ s) = ground (arith, trim_left_space-twice s)

trim_left_space-no_nul : (s : Bytes) → has_byte 0 s ≡ false → has_byte 0 (trim_left_space s) ≡ false
unfolding trim_left_space
trim_left_space-no_nul [] h = refl
trim_left_space-no_nul (c ∷ s) h = ground (arith, h, trim_left_space-no_nul s)

-- What Marshal writes for a rest.
abbrev rest_line : Bytes → Bytes
rest_line rest = if is_empty rest then [] else dashes ++ (space ∷ trim_left_space rest)

rest_line-clean :
    (rest : Bytes)
    → has_byte 0 rest ≡ false
    → (has_byte 0 (rest_line rest) ≡ false) × (trim_left_space (rest_line rest) ≡ rest_line rest)
unfolding trim_left_space is_space
rest_line-clean [] h = (refl, refl)
rest_line-clean (c ∷ rest) h = (ground (arith, trim_left_space-no_nul (c ∷ rest) h), refl)

scan-rest_line :
    (rest : Bytes) (params : List Param)
    → scan (rest_line rest) [] false params ≡ unmarshaled params (trim_left_space rest)
unfolding scan trim_left_space is_space parse_token split_token bytes_eq
scan-rest_line [] params = refl
scan-rest_line (c ∷ rest) params = ap (unmarshaled params) (trim_left_space-twice (c ∷ rest))

-- Unmarshal gives back the params and the rest that Marshal accepts: each param with its value, the
-- rest without the spaces in front, and HasValue not set.
pub unmarshal-marshal :
    (ps : List Param) (rest s : Bytes)
    → marshal ps rest ≡ some s
    → unmarshal s ≡ unmarshaled (map bare ps) (trim_left_space rest)
unfolding marshal unmarshal
unmarshal-marshal ps rest s h = elim (Bool-cases (has_byte 0 rest)) [
  | inl bad ↦ absurd (ground (arith, bad, h))
  | inr clean ↦ elim (Option-cases (encode_params ps)) [
    | inl gone ↦ absurd (ground (arith, clean, gone, h))
    | inr (t, there) ↦
        let u = rest_line rest in
        let e : s ≡ t ++ u = ground (arith, h, clean, there, append_nil t) in
        let (no_nul_rest, trimmed_rest) = rest_line-clean rest clean in
        let (no_nul, trimmed) = encode_params-clean ps t u there trimmed_rest in
        let whole : has_byte 0 (t ++ u) ≡ false =
          ground (arith, has_byte-append 0 t u, no_nul, no_nul_rest) in
        ap (λ x. scan (before_byte 0 (trim_left_space x)) [] false []) e
        ∙ ap (λ x. scan (before_byte 0 x) [] false []) trimmed
        ∙ ap (λ x. scan x.0 [] false []) (cut_byte-none 0 (t ++ u) whole)
        ∙ scan-encode_params ps t u [] there
        ∙ scan-rest_line rest (map bare ps)
  ]
]
