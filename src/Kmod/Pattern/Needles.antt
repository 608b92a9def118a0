-- ===== src/Kmod/Pattern/Needles.antt =====
-- The reading of tokens agrees with the notation of patterns.
use monogon.Prelude.{
  ℕ, zero, suc, ◌<◌, ◌≡◌, refl, ap, Bool, true, ◌&&◌, List, [], ◌∷◌, ◌++◌, none, arith, inl, inr,
  Bool-cases, Option-cases, Bytes, All, length, ◌==◌, leb, bytes_eq, eq_refl,
}
use mathlib.Core.Path.{subst}
use native.Mathlib.Nat.{mod-eq_of_lt}
use monogon.Kmod.{Part, advance, suffixes, literal_rest}
use monogon.Kmod.Matching.{any, matches}
use monogon.Kmod.Pattern.{
  ParseError, Parsed, parts, failed, out_of_fuel, Token, star, question, range, byte, bad,
  read_token, error_of,
}
use monogon.Kmod.Pattern.Grammar.{
  short_range, wrong_range, empty_range, lone_escape, Head, a_star, a_question, a_range, an_escape,
  a_byte, BadHead, Illegal, here, behind, Takes, any_bytes, one_byte, in_range, that_byte, Accepts,
  both_end, step, read_token-Head, Head-read_token, BadHead-read_token, read_token-BadHead,
}
use monogon.Kmod.Pattern.Reading.{part_for, cons_part, tokens}

-- The bounds of a range are bytes.
abbrev HasBytes : Token → Type 0
HasBytes (range a b) = (a < 256) × (b < 256)
HasBytes star = Unit
HasBytes question = Unit
HasBytes (byte b) = Unit
HasBytes (bad e) = Unit

any_suffix :
    (f : Bytes → Bool) (s : Bytes)
    → any f (suffixes s) ≡ true
    → (front r : Bytes) × (s ≡ front ++ r) × (f r ≡ true)
unfolding suffixes
any_suffix f [] h = ([], [], refl, ground (arith, h))
any_suffix f (x ∷ s) h = elim (Bool-cases (f (x ∷ s))) [
  | inl now ↦ ([], x ∷ s, refl, now)
  | inr later ↦
      let (front, r, e, hit) = any_suffix f s (ground (arith, h, later)) in
      (x ∷ front, r, ap (◌∷◌ x) e, hit)
]

suffix_hit :
    (f : Bytes → Bool) (front r : Bytes) → f r ≡ true → any f (suffixes (front ++ r)) ≡ true
unfolding suffixes
suffix_hit f [] [] h = ground (arith, h)
suffix_hit f [] (x ∷ r) h = ground (arith, h)
suffix_hit f (x ∷ front) r h = ground (arith, suffix_hit f front r h)

-- The part that stands for a token goes on behind exactly what the token takes.
advance-Takes :
    (t : Token) (f : Bytes → Bool) (s : Bytes)
    → error_of t ≡ none
    → HasBytes t
    → any f (advance (part_for t) s) ≡ true
    → (r : Bytes) × Takes t s r × (f r ≡ true)
unfolding advance literal_rest bytes_eq
advance-Takes star f s ok small h =
    let (front, r, e, hit) = any_suffix f s h in (r, any_bytes s front r e, hit)
advance-Takes question f [] ok small h = absurd (ground (arith, h))
advance-Takes question f (c ∷ s) ok small h = (s, one_byte c s, ground (arith, h))
advance-Takes (range a b) f [] ok small h = absurd (ground (arith, h))
advance-Takes (range a b) f (c ∷ s) ok (low, high) h = elim (Bool-cases (leb a c && leb c b)) [
  | inl fits ↦ (
    s,
    in_range a b c s (ground (arith, fits)) (ground (arith, fits)),
    ground (arith, h, mod-eq_of_lt low, mod-eq_of_lt high, fits),
  )
  | inr off ↦ absurd (ground (arith, h, mod-eq_of_lt low, mod-eq_of_lt high, off))
]
advance-Takes (byte b) f [] ok small h = absurd (ground (arith, h))
advance-Takes (byte b) f (c ∷ s) ok small h = elim (Bool-cases (b == c)) [
  | inl same ↦
      let e : b ≡ c = ground (arith, same) in (s, rw e (that_byte c s), ground (arith, h, same))
  | inr other ↦ absurd (ground (arith, h, other))
]
advance-Takes (bad e) f s ok small h = absurd (ground (arith, ok))

Takes-advance :
    (t : Token) (f : Bytes → Bool) (s r : Bytes)
    → HasBytes t
    → Takes t s r
    → f r ≡ true
    → any f (advance (part_for t) s) ≡ true
unfolding advance literal_rest bytes_eq
Takes-advance _ f _ _ small (any_bytes s front r e) h = rw e (suffix_hit f front r h)
Takes-advance _ f _ _ small (one_byte c r) h = ground (arith, h)
Takes-advance _ f _ _ small (in_range a b c r ge le) h =
    ground (arith, h, mod-eq_of_lt small.0, mod-eq_of_lt small.1, ge, le)
Takes-advance _ f _ _ small (that_byte b r) h = ground (arith, h, eq_refl b)

abbrev pub IsByte : ℕ → Type 0
IsByte b = b < 256

Head-bytes :
    (text : Bytes) (t : Token) (rest : Bytes)
    → Head text t rest
    → All IsByte text
    → HasBytes t × All IsByte rest
Head-bytes text _ _ (a_star rest e) w = (tt, (subst (All IsByte) e w).1)
Head-bytes text _ _ (a_question rest e) w = (tt, (subst (All IsByte) e w).1)
Head-bytes text _ _ (a_range a b rest e le) w =
    let (opening, (low, (dash, (high, (closing, more))))) = subst (All IsByte) e w in
    ((low, high), more)
Head-bytes text _ _ (an_escape b rest e) w = (tt, (subst (All IsByte) e w).1.1)
Head-bytes text _ _ (a_byte b rest e plain) w = (tt, (subst (All IsByte) e w).1)

-- What a list of parts that was read says of the first token.
tokens_step :
    (fuel x : ℕ) (rest : Bytes) (ps : List Part)
    → tokens (suc fuel) (x ∷ rest) ≡ parts ps
    → (t : Token) × (behind : Bytes) × (qs : List Part) × (read_token x rest ≡ (t, behind))
      × (error_of t ≡ none)
      × (tokens fuel behind ≡ parts qs)
      × (ps ≡ part_for t ∷ qs)
unfolding tokens cons_part
tokens_step fuel x rest ps h =
    let t = read_token x rest in
    elim (Option-cases (error_of t.0)) [
      | inr (e, is_e) ↦ absurd (ground (arith, h, is_e))
      | inl ok ↦ go (tokens fuel t.1) refl (ground (arith, h, ok)) ok
    ]
  where
    go :
        (p : Parsed)
        → tokens fuel (read_token x rest).1 ≡ p
        → cons_part (part_for (read_token x rest).0) p ≡ parts ps
        → error_of (read_token x rest).0 ≡ none
        → (t : Token) × (behind : Bytes) × (qs : List Part) × (read_token x rest ≡ (t, behind))
          × (error_of t ≡ none)
          × (tokens fuel behind ≡ parts qs)
          × (ps ≡ part_for t ∷ qs)
    go (parts qs) e f ok = (
      (read_token x rest).0,
      (read_token x rest).1,
      qs,
      refl,
      ok,
      e,
      ground (arith, f, cons_part),
    )
    go (failed err) e f ok = absurd (ground (arith, f, cons_part))
    go out_of_fuel e f ok = absurd (ground (arith, f, cons_part))

pub matches-Accepts :
    (fuel : ℕ) (text : Bytes) (ps : List Part) (s : Bytes)
    → tokens fuel text ≡ parts ps
    → All IsByte text
    → matches ps s ≡ true
    → Accepts text s
unfolding tokens matches
matches-Accepts zero text ps s e w h = absurd (ground (arith, e))
matches-Accepts (suc fuel) [] ps [] e w h = both_end
matches-Accepts (suc fuel) [] ps (c ∷ s) e w h =
    let bare : [] ≡ ps = ground (arith, e) in absurd (ground (arith, h, bare))
matches-Accepts (suc fuel) (x ∷ rest) ps s e w h =
    let (t, left, qs, reads, ok, more, is_ps) = tokens_step fuel x rest ps e in
    let head = read_token-Head x rest t left reads ok in
    let (small, w') = Head-bytes (x ∷ rest) t left head w in
    let (r, takes, fits) = advance-Takes t (matches qs) s ok small (rw is_ps at h) in
    step (x ∷ rest) left s r t head takes (matches-Accepts fuel left qs r more w' fits)

pub Accepts-matches :
    (fuel : ℕ) (text : Bytes) (ps : List Part) (s : Bytes)
    → tokens fuel text ≡ parts ps
    → All IsByte text
    → Accepts text s
    → matches ps s ≡ true
unfolding tokens matches
Accepts-matches zero text ps s e w a = absurd (ground (arith, e))
Accepts-matches (suc fuel) [] ps _ e w both_end =
    let bare : [] ≡ ps = ground (arith, e) in ground (arith, bare)
Accepts-matches (suc fuel) [] ps s e w (step _ rest _ r t head takes a) = absurd (never t rest head)
  where
    never : (t : Token) (rest : Bytes) → ¬ Head [] t rest
    never _ _ (a_star rest e) = ground (arith, e)
    never _ _ (a_question rest e) = ground (arith, e)
    never _ _ (a_range a b rest e le) = ground (arith, e)
    never _ _ (an_escape b rest e) = ground (arith, e)
    never _ _ (a_byte b rest e plain) = ground (arith, e)
Accepts-matches (suc fuel) (x ∷ rest) ps s e w (step _ left _ r t head takes a) =
    let (t', left', qs, reads, ok, more, is_ps) = tokens_step fuel x rest ps e in
    let (reads', ok') = Head-read_token x rest t left head in
    let same_t : t' ≡ t = ground (arith, reads, reads') in
    let same_left : left' ≡ left = ground (arith, reads, reads') in
    let (small, w') = Head-bytes (x ∷ rest) t left head w in
    let fits = Accepts-matches fuel left qs r (rw same_left at more) w' a in
    rw (is_ps, same_t) (Takes-advance t (matches qs) s r small takes fits)

Head-length :
    (text : Bytes) (t : Token) (rest : Bytes) → Head text t rest → length rest < length text
Head-length text _ _ (a_star rest e) = omega (arith, ap length e)
Head-length text _ _ (a_question rest e) = omega (arith, ap length e)
Head-length text _ _ (a_range a b rest e le) = omega (arith, ap length e)
Head-length text _ _ (an_escape b rest e) = omega (arith, ap length e)
Head-length text _ _ (a_byte b rest e plain) = omega (arith, ap length e)

pub failed-Illegal :
    (fuel : ℕ) (text : Bytes) (e : ParseError) → tokens fuel text ≡ failed e → Illegal text e
unfolding tokens cons_part
failed-Illegal zero text e h = absurd (ground (arith, h))
failed-Illegal (suc fuel) [] e h = absurd (ground (arith, h))
failed-Illegal (suc fuel) (x ∷ rest) e h =
    let t = read_token x rest in
    elim (Option-cases (error_of t.0)) [
      | inr (e', is_e) ↦
          let same : e' ≡ e = ground (arith, h, is_e) in
          here (x ∷ rest) e (read_token-BadHead x rest e (rw same at is_e))
      | inl ok ↦
          behind (x ∷ rest) t.0 t.1 e (read_token-Head x rest t.0 t.1 refl ok)
            (failed-Illegal fuel t.1 e (later (tokens fuel t.1) (ground (arith, h, ok))))
    ]
  where
    later : (p : Parsed) → cons_part (part_for (read_token x rest).0) p ≡ failed e → p ≡ failed e
    later (parts qs) f = absurd (ground (arith, f, cons_part))
    later (failed e') f = ground (arith, f, cons_part)
    later out_of_fuel f = absurd (ground (arith, f, cons_part))

not_in_empty : (t : Token) (rest : Bytes) → Head [] t rest → ¬ Unit {0}
not_in_empty t rest h u = omega (arith, Head-length [] t rest h)

nothing_bad : (e : ParseError) → BadHead [] e → ¬ Unit {0}
nothing_bad _ (short_range rest e low) u = ground (arith, e)
nothing_bad _ (wrong_range a d b c rest e w) u = ground (arith, e)
nothing_bad _ (empty_range a b rest e less) u = ground (arith, e)
nothing_bad _ (lone_escape e) u = ground (arith, e)

pub Illegal-failed :
    (fuel : ℕ) (text : Bytes) (e : ParseError)
    → length text < fuel
    → Illegal text e
    → tokens fuel text ≡ failed e
unfolding tokens cons_part
Illegal-failed zero text e lt w = absurd (omega arith)
Illegal-failed (suc fuel) [] e lt (here _ _ bad_start) = absurd (nothing_bad e bad_start tt)
Illegal-failed (suc fuel) [] e lt (behind _ t rest _ head w) = absurd (not_in_empty t rest head tt)
Illegal-failed (suc fuel) (x ∷ rest) e lt (here _ _ bad_start) =
    ground (arith, BadHead-read_token x rest e bad_start)
Illegal-failed (suc fuel) (x ∷ rest) e lt (behind _ t left _ head w) =
    let (reads, ok) = Head-read_token x rest t left head in
    let fails = Illegal-failed fuel left e (omega (arith, Head-length (x ∷ rest) t left head)) w in
    let reads_t : (read_token x rest).0 ≡ t = ground (arith, reads) in
    let reads_left : (read_token x rest).1 ≡ left = ground (arith, reads) in
    ground (arith, reads_t, reads_left, ok, fails)
