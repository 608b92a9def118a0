-- ===== src/BootParam/Tokens.antt =====
-- osbase/bootparam/bootparam.go, parseToken: what it makes of the tokens that Marshal writes.
use monogon.Prelude.{
  ℕ, ◌≡◌, refl, ap, ◌∙◌, true, false, not, ◌||◌, none, some, eq_refl, Bytes, bytes_eq, List, [],
  ◌∷◌, ◌++◌, arith, inl, inr, Bool-cases,
}
use monogon.BootParam.{
  Param, quote, equals, dashes, has_byte, is_empty, has_prefix, trim_suffix, cut_byte, split_token,
  parse_token, contains_space, encode_param, is_encodable,
}

-- A param as Unmarshal gives it back.
abbrev pub bare : Param → Param
bare p = record { param = p.param; value = p.value; has_value = false }

pub append_nil : {A : Type 0} (xs : List A) → xs ++ [] ≡ xs
append_nil [] = refl
append_nil (x ∷ xs) = ap (◌∷◌ x) (append_nil xs)

pub append_assoc : {A : Type 0} (xs ys zs : List A) → (xs ++ ys) ++ zs ≡ xs ++ (ys ++ zs)
append_assoc [] ys zs = refl
append_assoc (x ∷ xs) ys zs = ap (◌∷◌ x) (append_assoc xs ys zs)

pub has_byte-append :
    (b : ℕ) (xs ys : Bytes) → has_byte b (xs ++ ys) ≡ (has_byte b xs || has_byte b ys)
has_byte-append b [] ys = refl
has_byte-append b (x ∷ xs) ys = ground (arith, has_byte-append b xs ys)

pub cut_byte-none : (b : ℕ) (xs : Bytes) → has_byte b xs ≡ false → cut_byte b xs ≡ (xs, none)
cut_byte-none b [] h = refl
cut_byte-none b (x ∷ xs) h = ground (arith, cut_byte-none b xs, h)

cut_byte-some :
    (b : ℕ) (xs ys : Bytes) → has_byte b xs ≡ false → cut_byte b (xs ++ b ∷ ys) ≡ (xs, some ys)
cut_byte-some b [] ys h = ground (arith, eq_refl b)
cut_byte-some b (x ∷ xs) ys h = ground (arith, cut_byte-some b xs ys, h)

trim_suffix-append : (b : ℕ) (xs : Bytes) → trim_suffix b (xs ++ b ∷ []) ≡ xs
trim_suffix-append b [] = ground (arith, eq_refl b)
trim_suffix-append b (x ∷ []) = ground (arith, eq_refl b)
trim_suffix-append b (x ∷ (y ∷ ys)) = ap (◌∷◌ x) (trim_suffix-append b (y ∷ ys))

has_prefix-false : (b : ℕ) (xs : Bytes) → has_byte b xs ≡ false → has_prefix b xs ≡ false
has_prefix-false b [] h = refl
has_prefix-false b (x ∷ xs) h = ground (arith, h)

-- A param without a value and without spaces.
pub parse_token-plain :
    (xs : Bytes)
    → has_byte equals xs ≡ false
    → has_byte quote xs ≡ false
    → parse_token xs ≡ some (record { param = xs; value = []; has_value = false })
unfolding parse_token split_token
parse_token-plain xs e q =
    ground
      (arith, cut_byte-none equals xs e, has_prefix-false equals xs e, has_prefix-false quote xs q)

pub parse_token-quoted :
    (xs : Bytes)
    → has_byte equals xs ≡ false
    → parse_token (quote ∷ (xs ++ quote ∷ []))
      ≡ some (record { param = xs; value = []; has_value = false })
unfolding parse_token split_token
parse_token-quoted xs e =
    let inner = xs ++ quote ∷ [] in
    let none_inside : has_byte equals inner ≡ false =
      ground (arith, has_byte-append equals xs (quote ∷ []), e) in
    ground (
      arith,
      cut_byte-none equals inner none_inside,
      has_prefix-false equals inner none_inside,
      trim_suffix-append quote xs,
    )

pub parse_token-value :
    (xs v : Bytes)
    → is_empty xs ≡ false
    → has_byte equals xs ≡ false
    → has_byte quote xs ≡ false
    → has_byte quote v ≡ false
    → parse_token (xs ++ equals ∷ v) ≡ some (record { param = xs; value = v; has_value = false })
unfolding parse_token split_token
parse_token-value [] v n e q w = absurd (ground (arith, n))
parse_token-value (x ∷ xs) v n e q w =
    let cut = cut_byte-some equals (x ∷ xs) v e in
    ground (arith, cut, e, q, has_prefix-false quote v w)

pub parse_token-quoted_value :
    (xs v : Bytes)
    → is_empty xs ≡ false
    → has_byte equals xs ≡ false
    → has_byte quote xs ≡ false
    → parse_token (xs ++ equals ∷ (quote ∷ (v ++ quote ∷ [])))
      ≡ some (record { param = xs; value = v; has_value = false })
unfolding parse_token split_token
parse_token-quoted_value [] v n e q = absurd (ground (arith, n))
parse_token-quoted_value (x ∷ xs) v n e q =
    let cut = cut_byte-some equals (x ∷ xs) (quote ∷ (v ++ quote ∷ [])) e in
    ground (arith, cut, e, q, trim_suffix-append quote v)

is_empty-nil : (xs : Bytes) → is_empty xs ≡ true → xs ≡ []
is_empty-nil [] h = refl
is_empty-nil (x ∷ xs) h = absurd (ground (arith, h))

-- What the tests of Marshal tell.
pub record IsEncodable (p : Param) : Type 0 where
  pub no_equals : has_byte equals p.param ≡ false
  pub no_quote : has_byte quote p.param ≡ false
  pub no_quote_value : has_byte quote p.value ≡ false
  pub no_nul : has_byte 0 p.param ≡ false
  pub no_nul_value : has_byte 0 p.value ≡ false
  pub one_spaced : (is_empty p.value || not (contains_space p.param)) ≡ true
  pub no_dashes : bytes_eq p.param dashes ≡ false
  pub nonempty : is_empty p.param ≡ false

pub is_encodable-IsEncodable : (p : Param) → is_encodable p ≡ true → IsEncodable p
unfolding is_encodable
is_encodable-IsEncodable p h = record {
  no_equals = ground (arith, h);
  no_quote = ground (arith, h);
  no_quote_value = ground (arith, h);
  no_nul = ground (arith, h);
  no_nul_value = ground (arith, h);
  one_spaced = ground (arith, h);
  no_dashes = ground (arith, h);
  nonempty = ground (arith, h);
}

-- The four forms of an encoded param.
pub encode_param-plain :
    (p : Param)
    → is_empty p.value ≡ true
    → contains_space p.param ≡ false
    → encode_param p ≡ p.param
unfolding encode_param
encode_param-plain p e s = ground (arith, e, s, append_nil p.param)

pub encode_param-quoted :
    (p : Param)
    → is_empty p.value ≡ true
    → contains_space p.param ≡ true
    → encode_param p ≡ quote ∷ (p.param ++ quote ∷ [])
unfolding encode_param
encode_param-quoted p e s = ground (arith, e, s, append_nil (p.param ++ quote ∷ []))

pub encode_param-value :
    (p : Param)
    → is_empty p.value ≡ false
    → contains_space p.param ≡ false
    → contains_space p.value ≡ false
    → encode_param p ≡ p.param ++ equals ∷ p.value
unfolding encode_param
encode_param-value p e s v = ground (arith, e, s, v)

pub encode_param-quoted_value :
    (p : Param)
    → is_empty p.value ≡ false
    → contains_space p.param ≡ false
    → contains_space p.value ≡ true
    → encode_param p ≡ p.param ++ equals ∷ (quote ∷ (p.value ++ quote ∷ []))
unfolding encode_param
encode_param-quoted_value p e s v = ground (arith, e, s, v)

-- parseToken gives back each param that Marshal accepts.
pub parse_token-encode_param :
    (p : Param) → IsEncodable p → parse_token (encode_param p) ≡ some (bare p)
parse_token-encode_param p f = elim (Bool-cases (is_empty p.value)) [
  | inl e ↦
      let v : p.value ≡ [] = is_empty-nil p.value e in
      elim (Bool-cases (contains_space p.param)) [
        | inl s ↦
            ap parse_token (encode_param-quoted p e s)
            ∙ parse_token-quoted p.param f.no_equals
            ∙ ground (arith, v)
        | inr s ↦
            ap parse_token (encode_param-plain p e s)
            ∙ parse_token-plain p.param f.no_equals f.no_quote
            ∙ ground (arith, v)
      ]
  | inr e ↦
      let s : contains_space p.param ≡ false = ground (arith, f.one_spaced, e) in
      elim (Bool-cases (contains_space p.value)) [
        | inl v ↦
            ap parse_token (encode_param-quoted_value p e s v)
            ∙ parse_token-quoted_value p.param p.value f.nonempty f.no_equals f.no_quote
        | inr v ↦
            ap parse_token (encode_param-value p e s v)
            ∙ parse_token-value p.param p.value f.nonempty f.no_equals f.no_quote f.no_quote_value
      ]
]
