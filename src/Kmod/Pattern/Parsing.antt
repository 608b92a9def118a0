-- ===== src/Kmod/Pattern/Parsing.antt =====
-- parsePattern ends and agrees with the notation of patterns, and what AddPattern makes of it.
use monogon.Prelude.{
  ℕ, zero, suc, ◌<◌, ◌≤◌, ◌≡◌, refl, ◌∙◌, sym, ap, ◌&&◌, ◌||◌, List, [], ◌∷◌, ◌++◌, none, some,
  arith, inl, inr, ◌⊎◌, Option-cases, length, ◌==◌, Bytes, Bool, true, false, ◌↔◌, All, eq_refl,
}
use monogon.Kmod.{Part, RadixNode, add_parts, lookup_modules_rec}
use monogon.Kmod.Matching.{mem, matches}
use monogon.Kmod.Adding.{add_parts-found}
use monogon.Kmod.Pattern.{
  ParseError, Parsed, parts, failed, out_of_fuel, Token, read_range, read_escape, read_token,
  store_current_literal, push_token, error_of, parse_loop, parse_pattern, add_pattern,
}
use monogon.Kmod.Pattern.Grammar.{Illegal, Accepts}
use monogon.Kmod.Pattern.Needles.{
  IsByte, failed-Illegal, Illegal-failed, matches-Accepts, Accepts-matches,
}
use monogon.Kmod.Pattern.Reading.{part_for, cons_part, tokens, push_token-matches}

-- What the loop gives, against the tokens that are left.
Agree : Bytes → List Part → Parsed → Parsed → Type 0
Agree l out (parts qs) t =
    (ps : List Part) × (t ≡ parts ps)
    × ((s : Bytes) → matches qs s ≡ matches (store_current_literal l out ++ ps) s)
Agree l out (failed e) t = t ≡ failed e
Agree l out out_of_fuel t = t ≡ out_of_fuel

Agree-cons :
    (t : Token) (l : Bytes) (out : List Part) (a b : Parsed)
    → error_of t ≡ none
    → Agree (push_token t l out).0 (push_token t l out).1 a b
    → Agree l out a (cons_part (part_for t) b)
unfolding Agree cons_part
Agree-cons t l out (parts qs) b ok (ps, is_ps, same) = (
  part_for t ∷ ps,
  ap (cons_part (part_for t)) is_ps,
  λ s. same s ∙ push_token-matches t l out ps s ok,
)
Agree-cons t l out (failed e) b ok h = ap (cons_part (part_for t)) h
Agree-cons t l out out_of_fuel b ok h = ap (cons_part (part_for t)) h

append-nil : (ps : List Part) → ps ++ [] ≡ ps
append-nil [] = refl
append-nil (p ∷ ps) = ap (◌∷◌ p) (append-nil ps)

Agree-cong :
    (l : Bytes) (out : List Part) (a a' b b' : Parsed)
    → a' ≡ a
    → b' ≡ b
    → Agree l out a b
    → Agree l out a' b'
Agree-cong l out a a' b b' ea eb h = rw (ea, eb) h

parse_loop-tokens :
    (fuel : ℕ) (text l : Bytes) (out : List Part)
    → Agree l out (parse_loop fuel text l out) (tokens fuel text)
unfolding parse_loop tokens Agree
parse_loop-tokens zero text l out = refl
parse_loop-tokens (suc fuel) [] l out =
    ([], refl, λ s. ap (λ qs. matches qs s) (sym (append-nil (store_current_literal l out))))
parse_loop-tokens (suc fuel) (x ∷ rest) l out =
    let t = read_token x rest in
    elim (Option-cases (error_of t.0)) [
      | inr (e, is_e) ↦
          Agree-cong l out (failed e) _ (failed e) _ (ground (arith, is_e)) (ground (arith, is_e))
            refl
      | inl ok ↦
          let next = push_token t.0 l out in
          let rest_parsed = parse_loop fuel t.1 next.0 next.1 in
          let rest_tokens = tokens fuel t.1 in
          Agree-cong l out rest_parsed _ (cons_part (part_for t.0) rest_tokens) _
            (ground (arith, ok)) (ground (arith, ok))
            (Agree-cons t.0 l out rest_parsed rest_tokens ok
              (parse_loop-tokens fuel t.1 next.0 next.1))
    ]

read_range-length : (rest : Bytes) → length (read_range rest).1 ≤ length rest
unfolding read_range
read_range-length [] = omega arith
read_range-length (a ∷ []) = omega arith
read_range-length (a ∷ b ∷ []) = omega arith
read_range-length (a ∷ b ∷ c ∷ []) = omega arith
read_range-length (a ∷ b ∷ c ∷ d ∷ rest) = ground arith

read_escape-length : (rest : Bytes) → length (read_escape rest).1 ≤ length rest
unfolding read_escape
read_escape-length [] = omega arith
read_escape-length (b ∷ rest) = omega arith

read_token-length : (x : ℕ) (rest : Bytes) → length (read_token x rest).1 ≤ length rest
unfolding read_token
read_token-length x rest = ground (arith, read_range-length rest, read_escape-length rest)

-- The fuel is enough for a token for each byte.
tokens_end :
    (fuel : ℕ) (s : Bytes)
    → length s < fuel
    → ((ps : List Part) × (tokens fuel s ≡ parts ps))
      ⊎ ((e : ParseError) × (tokens fuel s ≡ failed e))
unfolding tokens cons_part
tokens_end zero s h = absurd (omega arith)
tokens_end (suc fuel) [] h = inl ([], refl)
tokens_end (suc fuel) (x ∷ rest) h =
    let t = read_token x rest in
    elim (Option-cases (error_of t.0)) [
      | inr (e, is_e) ↦ inr (e, ground (arith, is_e))
      | inl ok ↦ elim (tokens_end fuel t.1 (omega (arith, read_token-length x rest))) [
        | inl (ps, is_ps) ↦ inl (part_for t.0 ∷ ps, ground (arith, ok, is_ps))
        | inr (e, is_e) ↦ inr (e, ground (arith, ok, is_e))
      ]
    ]

-- The parts of a pattern, token by token.
abbrev tokens_of : Bytes → Parsed
tokens_of s = tokens (suc (length s)) s

-- The two results that agree, as cases.
Agree-cases :
    (a t : Parsed)
    → Agree [] [] a t
    → ((ps : List Part) × (t ≡ parts ps)) ⊎ ((e : ParseError) × (t ≡ failed e))
    → ((e : ParseError) × (t ≡ failed e) × (a ≡ failed e))
      ⊎ ((ps : List Part) × (qs : List Part) × (t ≡ parts ps)
          × (a ≡ parts qs)
          × ((r : Bytes) → matches qs r ≡ matches ps r))
unfolding Agree store_current_literal
Agree-cases (parts qs) t (ps, is_ps, same) ends = inr (ps, qs, is_ps, refl, same)
Agree-cases (failed e) t h ends = inl (e, h, refl)
Agree-cases out_of_fuel t h (inl (ps, is_ps)) = absurd (ground (arith, h, is_ps))
Agree-cases out_of_fuel t h (inr (e, is_e)) = absurd (ground (arith, h, is_e))

-- The two results, token by token.
parse_pattern-tokens :
    (s : Bytes)
    → ((e : ParseError) × (tokens_of s ≡ failed e) × (parse_pattern s ≡ failed e))
      ⊎ ((ps : List Part) × (qs : List Part) × (tokens_of s ≡ parts ps)
          × (parse_pattern s ≡ parts qs)
          × ((r : Bytes) → matches qs r ≡ matches ps r))
unfolding parse_pattern
parse_pattern-tokens s =
    Agree-cases (parse_loop (suc (length s)) s [] []) (tokens_of s)
      (parse_loop-tokens (suc (length s)) s [] []) (tokens_end (suc (length s)) s (omega arith))

-- parsePattern of any bytes always ends. It fails on exactly the patterns that are not written as the
-- notation of patterns asks for, with the first error of the text. Otherwise its parts match exactly
-- the needles that the pattern stands for: `*` for any bytes, `?` for one byte, `[a-b]` for one in
-- the range, a backslash for the byte behind it, and any other byte for itself.
pub parse_pattern-Accepts :
    (s : Bytes)
    → All IsByte s
    → ((e : ParseError) × Illegal s e × (parse_pattern s ≡ failed e))
      ⊎ ((qs : List Part) × ((e : ParseError) → ¬ Illegal s e)
          × (parse_pattern s ≡ parts qs)
          × ((r : Bytes) → (matches qs r ≡ true) ↔ Accepts s r))
parse_pattern-Accepts s w = elim (parse_pattern-tokens s) [
  | inl (e, bad_text, fails) ↦ inl (e, failed-Illegal (suc (length s)) s e bad_text, fails)
  | inr (ps, qs, good_text, parses, same) ↦ inr (
    qs,
    λ e ill.
        absurd (ground (arith, good_text, Illegal-failed (suc (length s)) s e (omega arith) ill)),
    parses,
    λ r. (
      λ h. matches-Accepts (suc (length s)) s ps r good_text w (ground (arith, h, same r)),
      λ a. same r ∙ Accepts-matches (suc (length s)) s ps r good_text w a,
    ),
  )
]

or_true : (a b : Bool) → (a || b ≡ true) ↔ ((a ≡ true) ⊎ (b ≡ true))
or_true true b = (λ h. inl refl, λ h. refl)
or_true false b = (λ h. inr h, λ h. elim h [ inl e ↦ absurd (ground (arith, e)) | inr e ↦ e ])

-- AddPattern of any bytes leaves the tree alone if the pattern is not written as the notation asks
-- for. Otherwise a lookup finds what it found before, and the new index exactly for the needles that
-- the pattern stands for.
pub add_pattern-found :
    (s : Bytes) (idx : ℕ) (n : RadixNode)
    → All IsByte s
    → ((e : ParseError) × Illegal s e × (add_pattern s idx n ≡ (n, some e)))
      ⊎ ((n' : RadixNode) × ((e : ParseError) → ¬ Illegal s e)
          × (add_pattern s idx n ≡ (n', none))
          × ((j : ℕ) (r : Bytes)
              → (mem j (lookup_modules_rec n' r) ≡ true)
                ↔ ((mem j (lookup_modules_rec n r) ≡ true) ⊎ ((j ≡ idx) × Accepts s r))))
unfolding add_pattern
add_pattern-found s idx n w = elim (parse_pattern-Accepts s w) [
  | inl (e, bad_text, fails) ↦ inl (e, bad_text, ground (arith, fails))
  | inr (qs, legal, parses, fits) ↦ inr (
    add_parts qs idx n,
    legal,
    ground (arith, parses),
    λ j r.
        let found = add_parts-found qs idx n j r in
        let cases = or_true (mem j (lookup_modules_rec n r)) ((j == idx) && matches qs r) in
        (
          λ h. elim (cases.0 (ground (arith, h, found))) [
            | inl old ↦ inl old
            | inr new ↦ inr (ground (arith, new), (fits r).0 (ground (arith, new)))
          ],
          λ h.
              found
              ∙ cases.1 (elim h [
                | inl old ↦ inl old
                | inr (e, a) ↦ inr (ground (arith, e, eq_refl idx, (fits r).1 a))
              ]),
        ),
  )
]
