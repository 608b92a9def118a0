-- ===== src/Kmod/Pattern/Grammar.antt =====
-- The notation of patterns in osbase/kmod/radix.go: what a pattern may be, and which needles it stands
-- for. It uses nothing of the parser but the names of its tokens and errors.
use monogon.Prelude.{
  ℕ, ◌≤◌, ◌<◌, ◌≡◌, ◌≢◌, refl, false, ◌&&◌, [], ◌∷◌, ◌++◌, none, some, arith, inl, inr, ◌⊎◌,
  Bool-cases, Bytes, length, ◌==◌, ltb,
}
use monogon.Kmod.Pattern.{
  ParseError, not_enough_characters, incorrect_dash_or_closing, start_larger_than_end,
  escape_at_end, Token, star, question, range, byte, read_range, read_escape, read_token, error_of,
}

abbrev pub IsPlain : ℕ → Type 0
IsPlain x = (x ≢ b'*') × (x ≢ b'?') × (x ≢ b'[') × (x ≢ 92)

-- How a pattern starts, and what is left of it.
pub data Head (text : Bytes) : Token → Bytes → Type 0 where
  a_star : (rest : Bytes) → text ≡ b'*' ∷ rest → Head text star rest
  a_question : (rest : Bytes) → text ≡ b'?' ∷ rest → Head text question rest
  a_range :
      (a b : ℕ) (rest : Bytes)
      → text ≡ b'[' ∷ a ∷ b'-' ∷ b ∷ b']' ∷ rest
      → a ≤ b
      → Head text (range a b) rest
  an_escape : (b : ℕ) (rest : Bytes) → text ≡ 92 ∷ b ∷ rest → Head text (byte b) rest
  a_byte : (b : ℕ) (rest : Bytes) → text ≡ b ∷ rest → IsPlain b → Head text (byte b) rest

-- A pattern that starts wrong.
pub data BadHead (text : Bytes) : ParseError → Type 0 where
  short_range :
      (rest : Bytes) → text ≡ b'[' ∷ rest → length rest < 4 → BadHead text not_enough_characters
  wrong_range :
      (a d b c : ℕ) (rest : Bytes)
      → text ≡ b'[' ∷ a ∷ d ∷ b ∷ c ∷ rest
      → (d ≢ b'-') ⊎ (c ≢ b']')
      → BadHead text incorrect_dash_or_closing
  empty_range :
      (a b : ℕ) (rest : Bytes)
      → text ≡ b'[' ∷ a ∷ b'-' ∷ b ∷ b']' ∷ rest
      → b < a
      → BadHead text start_larger_than_end
  lone_escape : text ≡ 92 ∷ [] → BadHead text escape_at_end

-- A pattern with an error somewhere, the first one.
pub data Illegal : Bytes → ParseError → Type 0 where
  here : (text : Bytes) (e : ParseError) → BadHead text e → Illegal text e
  behind :
      (text : Bytes) (t : Token) (rest : Bytes) (e : ParseError)
      → Head text t rest
      → Illegal rest e
      → Illegal text e

-- What a token takes from the front of a needle.
pub data Takes : Token → Bytes → Bytes → Type 0 where
  any_bytes : (s front r : Bytes) → s ≡ front ++ r → Takes star s r
  one_byte : (c : ℕ) (r : Bytes) → Takes question (c ∷ r) r
  in_range : (a b c : ℕ) (r : Bytes) → a ≤ c → c ≤ b → Takes (range a b) (c ∷ r) r
  that_byte : (b : ℕ) (r : Bytes) → Takes (byte b) (b ∷ r) r

-- The whole needle fits the whole pattern.
pub data Accepts : Bytes → Bytes → Type 0 where
  both_end : Accepts [] []
  step :
      (text rest s r : Bytes) (t : Token)
      → Head text t rest
      → Takes t s r
      → Accepts rest r
      → Accepts text s

read_range-Head :
    (r : Bytes) (t : Token) (rest : Bytes)
    → read_range r ≡ (t, rest)
    → error_of t ≡ none
    → Head (b'[' ∷ r) t rest
unfolding read_range
read_range-Head [] t rest e ok = absurd (ground (arith, e, ok))
read_range-Head (a ∷ []) t rest e ok = absurd (ground (arith, e, ok))
read_range-Head (a ∷ d ∷ []) t rest e ok = absurd (ground (arith, e, ok))
read_range-Head (a ∷ d ∷ b ∷ []) t rest e ok = absurd (ground (arith, e, ok))
read_range-Head (a ∷ d ∷ b ∷ c ∷ r) t rest e ok = elim (Bool-cases ((d == b'-') && (c == b']'))) [
  | inr wrong ↦ absurd (ground (arith, e, ok, wrong))
  | inl right ↦ elim (Bool-cases (ltb b a)) [
    | inl less ↦ absurd (ground (arith, e, ok, right, less))
    | inr fine ↦
        let is_t : range a b ≡ t = ground (arith, e, right, fine) in
        let is_rest : r ≡ rest = ground (arith, e, right, fine) in
        let dash : d ≡ b'-' = ground (arith, right) in
        let closing : c ≡ b']' = ground (arith, right) in
        rw (← is_t, ← is_rest) (a_range a b r (rw (dash, closing) refl) (ground (arith, fine)))
  ]
]

pub read_token-Head :
    (x : ℕ) (r : Bytes) (t : Token) (rest : Bytes)
    → read_token x r ≡ (t, rest)
    → error_of t ≡ none
    → Head (x ∷ r) t rest
unfolding read_token read_escape
read_token-Head x r t rest e ok = elim (Bool-cases (x == b'*')) [
  | inl h ↦
      let is_t : star ≡ t = ground (arith, e, h) in
      let is_rest : r ≡ rest = ground (arith, e, h) in
      let is_x : x ≡ b'*' = ground (arith, h) in rw (← is_t, ← is_rest) (a_star r (rw is_x refl))
  | inr not_star ↦ elim (Bool-cases (x == b'?')) [
    | inl h ↦
        let is_t : question ≡ t = ground (arith, e, not_star, h) in
        let is_rest : r ≡ rest = ground (arith, e, not_star, h) in
        let is_x : x ≡ b'?' = ground (arith, h) in
        rw (← is_t, ← is_rest) (a_question r (rw is_x refl))
    | inr not_question ↦ elim (Bool-cases (x == b'[')) [
      | inl h ↦
          let is_x : x ≡ b'[' = ground (arith, h) in
          rw is_x (read_range-Head r t rest (ground (arith, e, not_star, not_question, h)) ok)
      | inr not_range ↦ elim (Bool-cases (x == 92)) [
        | inl h ↦
            let is_x : x ≡ 92 = ground (arith, h) in
            rw is_x (escaped r (ground (arith, e, not_star, not_question, not_range, h)))
        | inr plain ↦
            let is_t : byte x ≡ t = ground (arith, e, not_star, not_question, not_range, plain) in
            let is_rest : r ≡ rest = ground (arith, e, not_star, not_question, not_range, plain) in
            rw (← is_t, ← is_rest)
              (a_byte x r refl (
                ground (arith, not_star),
                ground (arith, not_question),
                ground (arith, not_range),
                ground (arith, plain),
              ))
      ]
    ]
  ]
]
  where
    escaped : (q : Bytes) → read_escape q ≡ (t, rest) → Head (92 ∷ q) t rest
    escaped [] f = absurd (ground (arith, ok, f, read_escape))
    escaped (b ∷ q) f =
        let is_t : byte b ≡ t = ground (arith, f, read_escape) in
        let is_rest : q ≡ rest = ground (arith, f, read_escape) in
        rw (← is_t, ← is_rest) (an_escape b q refl)

-- And back: what the notation says of the start is what is read there.
pub Head-read_token :
    (x : ℕ) (r : Bytes) (t : Token) (rest : Bytes)
    → Head (x ∷ r) t rest
    → (read_token x r ≡ (t, rest)) × (error_of t ≡ none)
unfolding read_token read_escape read_range
Head-read_token x r _ _ (a_star rest e) =
    let is_x : x ≡ b'*' = ground (arith, e) in
    let is_r : r ≡ rest = ground (arith, e) in (rw (is_x, is_r) refl, refl)
Head-read_token x r _ _ (a_question rest e) =
    let is_x : x ≡ b'?' = ground (arith, e) in
    let is_r : r ≡ rest = ground (arith, e) in (rw (is_x, is_r) refl, refl)
Head-read_token x r _ _ (a_range a b rest e le) =
    let is_x : x ≡ b'[' = ground (arith, e) in
    let is_r : r ≡ a ∷ b'-' ∷ b ∷ b']' ∷ rest = ground (arith, e) in
    (rw (is_x, is_r) (ground (arith, le)), refl)
Head-read_token x r _ _ (an_escape b rest e) =
    let is_x : x ≡ 92 = ground (arith, e) in
    let is_r : r ≡ b ∷ rest = ground (arith, e) in (rw (is_x, is_r) refl, refl)
Head-read_token x r _ _ (a_byte b rest e plain) =
    let is_x : x ≡ b = ground (arith, e) in
    let is_r : r ≡ rest = ground (arith, e) in
    (ground (arith, is_x, is_r, plain.0, plain.1, plain.2, plain.3), refl)

pub BadHead-read_token :
    (x : ℕ) (r : Bytes) (e : ParseError) → BadHead (x ∷ r) e → error_of (read_token x r).0 ≡ some e
unfolding read_token read_escape read_range
BadHead-read_token x r _ (short_range rest e low) =
    let is_x : x ≡ b'[' = ground (arith, e) in
    let is_r : r ≡ rest = ground (arith, e) in rw (is_x, is_r) (short rest low)
  where
    short : (q : Bytes) → length q < 4 → error_of (read_token b'[' q).0 ≡ some not_enough_characters
    short [] h = ground (arith, read_token, read_range)
    short (a ∷ []) h = ground (arith, read_token, read_range)
    short (a ∷ d ∷ []) h = ground (arith, read_token, read_range)
    short (a ∷ d ∷ b ∷ []) h = ground (arith, read_token, read_range)
    short (a ∷ d ∷ b ∷ c ∷ q) h = absurd (omega arith)
BadHead-read_token x r _ (wrong_range a d b c rest e wrong) =
    let is_x : x ≡ b'[' = ground (arith, e) in
    let is_r : r ≡ a ∷ d ∷ b ∷ c ∷ rest = ground (arith, e) in
    rw (is_x, is_r) (ground (arith, wrong))
BadHead-read_token x r _ (empty_range a b rest e less) =
    let is_x : x ≡ b'[' = ground (arith, e) in
    let is_r : r ≡ a ∷ b'-' ∷ b ∷ b']' ∷ rest = ground (arith, e) in
    rw (is_x, is_r) (ground (arith, less))
BadHead-read_token x r _ (lone_escape e) =
    let is_x : x ≡ 92 = ground (arith, e) in
    let is_r : r ≡ [] = ground (arith, e) in rw (is_x, is_r) refl

read_range-BadHead :
    (r : Bytes) (e : ParseError) → error_of (read_range r).0 ≡ some e → BadHead (b'[' ∷ r) e
unfolding read_range
read_range-BadHead [] e h =
    let f : not_enough_characters ≡ e = ground (arith, h) in
    rw (← f) (short_range [] refl (omega arith))
read_range-BadHead (a ∷ []) e h =
    let f : not_enough_characters ≡ e = ground (arith, h) in
    rw (← f) (short_range (a ∷ []) refl (omega arith))
read_range-BadHead (a ∷ d ∷ []) e h =
    let f : not_enough_characters ≡ e = ground (arith, h) in
    rw (← f) (short_range (a ∷ d ∷ []) refl (omega arith))
read_range-BadHead (a ∷ d ∷ b ∷ []) e h =
    let f : not_enough_characters ≡ e = ground (arith, h) in
    rw (← f) (short_range (a ∷ d ∷ b ∷ []) refl (omega arith))
read_range-BadHead (a ∷ d ∷ b ∷ c ∷ r) e h = elim (Bool-cases ((d == b'-') && (c == b']'))) [
  | inr wrong ↦
      let f : incorrect_dash_or_closing ≡ e = ground (arith, h, wrong) in
      rw (← f) (wrong_range a d b c r refl (which wrong))
  | inl right ↦ elim (Bool-cases (ltb b a)) [
    | inl less ↦
        let f : start_larger_than_end ≡ e = ground (arith, h, right, less) in
        let dash : d ≡ b'-' = ground (arith, right) in
        let closing : c ≡ b']' = ground (arith, right) in
        rw (← f) (empty_range a b r (rw (dash, closing) refl) (ground (arith, less)))
    | inr fine ↦ absurd (ground (arith, h, right, fine))
  ]
]
  where
    which : ((d == b'-') && (c == b']')) ≡ false → (d ≢ b'-') ⊎ (c ≢ b']')
    which w = elim (Bool-cases (d == b'-')) [
      | inl dash ↦ inr (ground (arith, w, dash))
      | inr other ↦ inl (ground (arith, other))
    ]

pub read_token-BadHead :
    (x : ℕ) (r : Bytes) (e : ParseError) → error_of (read_token x r).0 ≡ some e → BadHead (x ∷ r) e
unfolding read_token read_escape
read_token-BadHead x r e h = elim (Bool-cases (x == b'[')) [
  | inl range_starts ↦
      let is_x : x ≡ b'[' = ground (arith, range_starts) in
      rw is_x (read_range-BadHead r e (ground (arith, h, is_x)))
  | inr not_range ↦ elim (Bool-cases (x == 92)) [
    | inl slash ↦
        let is_x : x ≡ 92 = ground (arith, slash) in rw is_x (escaped r (ground (arith, h, is_x)))
    | inr plain ↦ absurd (ground (arith, h, not_range, plain))
  ]
]
  where
    escaped : (q : Bytes) → error_of (read_escape q).0 ≡ some e → BadHead (92 ∷ q) e
    escaped [] f =
        let is_e : escape_at_end ≡ e = ground (arith, f, read_escape) in
        rw (← is_e) (lone_escape refl)
    escaped (b ∷ q) f = absurd (ground (arith, f, read_escape))
