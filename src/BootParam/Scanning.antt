-- ===== src/BootParam/Scanning.antt =====
-- osbase/bootparam/bootparam.go, Unmarshal: the loop over the bytes that Marshal writes.
use monogon.Prelude.{
  ◌≡◌, refl, sym, ap, ◌∙◌, Bool, true, false, not, ◌||◌, some, if◌then◌else◌, Bytes, List, [], ◌∷◌,
  ◌++◌, map, arith, inl, inr, Bool-cases, Option-cases,
}
use monogon.BootParam.Tokens.{
  bare, append_nil, append_assoc, has_byte-append, IsEncodable, is_encodable-IsEncodable,
  encode_param-plain, encode_param-quoted, encode_param-value, encode_param-quoted_value,
  parse_token-encode_param,
}
use monogon.BootParam.{
  Param, Unmarshaled, quote, equals, space, is_space, trim_left_space, contains_space, has_byte,
  is_empty, end_token, scan, quoted, is_encodable, encode_param, encode_params,
}

-- Bytes that are no spaces and no quotes join the token.
scan-plain :
    (xs s token : Bytes) (params : List Param)
    → contains_space xs ≡ false
    → has_byte quote xs ≡ false
    → scan (xs ++ s) token false params ≡ scan s (token ++ xs) false params
unfolding scan contains_space
scan-plain [] s token params n q = ap (λ t. scan s t false params) (sym (append_nil token))
scan-plain (x ∷ xs) s token params n q =
    let rest =
      scan-plain xs s (token ++ x ∷ []) params (ground (arith, n)) (ground (arith, q))
      ∙ ap (λ t. scan s t false params) (append_assoc token (x ∷ []) xs) in
    ground (arith, rest, n, q)

-- So do bytes inside quotes.
scan-inside :
    (xs s token : Bytes) (params : List Param)
    → has_byte quote xs ≡ false
    → scan (xs ++ s) token true params ≡ scan s (token ++ xs) true params
unfolding scan
scan-inside [] s token params q = ap (λ t. scan s t true params) (sym (append_nil token))
scan-inside (x ∷ xs) s token params q =
    let rest =
      scan-inside xs s (token ++ x ∷ []) params (ground (arith, q))
      ∙ ap (λ t. scan s t true params) (append_assoc token (x ∷ []) xs) in
    ground (arith, rest, q)

scan-quote :
    (s token : Bytes) (q : Bool) (params : List Param)
    → scan (quote ∷ s) token q params ≡ scan s (token ++ quote ∷ []) (not q) params
unfolding scan is_space
scan-quote s token q params = ground arith

-- A string in quotes joins the token as it stands.
scan-quoted :
    (xs s token : Bytes) (params : List Param)
    → has_byte quote xs ≡ false
    → scan ((quote ∷ (xs ++ quote ∷ [])) ++ s) token false params
      ≡ scan s (token ++ (quote ∷ (xs ++ quote ∷ []))) false params
scan-quoted xs s token params q =
    let inner = token ++ quote ∷ [] in
    scan-quote ((xs ++ quote ∷ []) ++ s) token false params
    ∙ ap (λ t. scan t inner true params) (append_assoc xs (quote ∷ []) s)
    ∙ scan-inside xs (quote ∷ s) inner params q
    ∙ scan-quote s (inner ++ xs) true params
    ∙ ap (λ t. scan s t false params)
        (append_assoc inner xs (quote ∷ []) ∙ append_assoc token (quote ∷ []) (xs ++ quote ∷ []))

contains_space-append :
    (xs ys : Bytes) → contains_space (xs ++ ys) ≡ (contains_space xs || contains_space ys)
unfolding contains_space
contains_space-append [] ys = refl
contains_space-append (x ∷ xs) ys = ground (arith, contains_space-append xs ys)

-- An encoded param is one token.
scan-encode_param :
    (p : Param) (s : Bytes) (params : List Param)
    → IsEncodable p
    → scan (encode_param p ++ s) [] false params ≡ scan s (encode_param p) false params
unfolding contains_space is_space
scan-encode_param p s params f = elim (Bool-cases (is_empty p.value)) [
  | inl e ↦ elim (Bool-cases (contains_space p.param)) [
    | inl c ↦ rw (encode_param-quoted p e c) (scan-quoted p.param s [] params f.no_quote)
    | inr c ↦ rw (encode_param-plain p e c) (scan-plain p.param s [] params c f.no_quote)
  ]
  | inr e ↦
      let c : contains_space p.param ≡ false = ground (arith, f.one_spaced, e) in
      elim (Bool-cases (contains_space p.value)) [
        | inl v ↦
            let pre = p.param ++ equals ∷ [] in
            let text = quote ∷ (p.value ++ quote ∷ []) in
            let whole : encode_param p ≡ pre ++ text =
              encode_param-quoted_value p e c v ∙ sym (append_assoc p.param (equals ∷ []) text) in
            let no_space : contains_space pre ≡ false =
              ground (arith, contains_space-append p.param (equals ∷ []), c) in
            let no_quote : has_byte quote pre ≡ false =
              ground (arith, has_byte-append quote p.param (equals ∷ []), f.no_quote) in
            ap (λ t. scan (t ++ s) [] false params) whole
            ∙ ap (λ t. scan t [] false params) (append_assoc pre text s)
            ∙ scan-plain pre (text ++ s) [] params no_space no_quote
            ∙ scan-quoted p.value s pre params f.no_quote_value
            ∙ ap (λ t. scan s t false params) (sym whole)
        | inr v ↦
            let text = p.param ++ equals ∷ p.value in
            let no_space : contains_space text ≡ false =
              ground (arith, contains_space-append p.param (equals ∷ p.value), c, v) in
            let no_quote : has_byte quote text ≡ false = ground (
              arith,
              has_byte-append quote p.param (equals ∷ p.value),
              f.no_quote,
              f.no_quote_value,
            ) in
            rw (encode_param-value p e c v) (scan-plain text s [] params no_space no_quote)
      ]
]

-- A string that starts with a byte that is no space.
abbrev pub starts_word : Bytes → Bool
starts_word [] = false
starts_word (c ∷ s) = not (is_space c)

pub trim_left_space-word : (s : Bytes) → starts_word s ≡ true → trim_left_space s ≡ s
unfolding trim_left_space
trim_left_space-word [] h = refl
trim_left_space-word (c ∷ s) h = ground (arith, h)

quote_no_space : is_space quote ≡ false
unfolding is_space
quote_no_space = refl

quoted-starts : (xs s : Bytes) → is_empty xs ≡ false → starts_word (quoted xs ++ s) ≡ true
unfolding contains_space
quoted-starts [] s n = absurd (ground (arith, n))
quoted-starts (x ∷ xs) s n = ground (arith, quote_no_space)

pub encode_param-starts :
    (p : Param) (s : Bytes) → IsEncodable p → starts_word (encode_param p ++ s) ≡ true
unfolding encode_param
encode_param-starts p s f =
    let value = if is_empty p.value then [] else equals ∷ quoted p.value in
    ap starts_word (append_assoc (quoted p.param) value s)
    ∙ quoted-starts p.param (value ++ s) f.nonempty

scan-space :
    (s token : Bytes) (params : List Param)
    → scan (space ∷ s) token false params
      ≡ end_token token params (trim_left_space s) (λ ps. scan s [] false ps)
unfolding scan is_space
scan-space s token params = refl

is_empty-word : (s : Bytes) → starts_word s ≡ true → is_empty s ≡ false
is_empty-word [] h = absurd (ground (arith, h))
is_empty-word (c ∷ s) h = refl

-- A token that a space ends is a param.
end_token-encode_param :
    (p : Param) (params : List Param) (rest : Bytes) (more : List Param → Unmarshaled)
    → IsEncodable p
    → end_token (encode_param p) params rest more ≡ more (params ++ bare p ∷ [])
end_token-encode_param p params rest more f =
    let token = encode_param p in
    let word : starts_word token ≡ true =
      ap starts_word (sym (append_nil token)) ∙ encode_param-starts p [] f in
    let there : is_empty (trim_left_space token) ≡ false =
      ap is_empty (trim_left_space-word token word) ∙ is_empty-word token word in
    ground (arith, there, parse_token-encode_param p f, f.no_dashes)

pub scan-encode_params :
    (ps : List Param) (t u : Bytes) (params : List Param)
    → encode_params ps ≡ some t
    → scan (t ++ u) [] false params ≡ scan u [] false (params ++ map bare ps)
unfolding encode_params
scan-encode_params [] t u params h =
    let e : t ≡ [] = ground (arith, h) in
    ap (λ x. scan (x ++ u) [] false params) e
    ∙ ap (λ x. scan u [] false x) (sym (append_nil params))
scan-encode_params (p ∷ ps) t u params h = elim (Bool-cases (is_encodable p)) [
  | inr bad ↦ absurd (ground (arith, bad, h))
  | inl ok ↦ elim (Option-cases (encode_params ps)) [
    | inl gone ↦ absurd (ground (arith, ok, gone, h))
    | inr (rest, there) ↦
        let f = is_encodable-IsEncodable p ok in
        let token = encode_param p in
        let e : t ≡ token ++ space ∷ rest = ground (arith, h, ok, there) in
        ap (λ x. scan (x ++ u) [] false params) e
        ∙ ap (λ x. scan x [] false params) (append_assoc token (space ∷ rest) u)
        ∙ scan-encode_param p (space ∷ (rest ++ u)) params f
        ∙ scan-space (rest ++ u) token params
        ∙ end_token-encode_param p params (trim_left_space (rest ++ u))
            (λ x. scan (rest ++ u) [] false x) f
        ∙ scan-encode_params ps rest u (params ++ bare p ∷ []) there
        ∙ ap (λ x. scan u [] false x) (append_assoc params (bare p ∷ []) (map bare ps))
  ]
]
