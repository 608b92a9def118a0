-- ===== src/Kmod/Pattern/Reading.antt =====
-- parsePattern merges literals and drops repeated wildcards; what the pattern matches stays the same
-- as for its tokens one by one.
use monogon.Prelude.{
  ℕ, zero, suc, ◌≡◌, refl, ◌∙◌, sym, ap, Bool, true, List, [], ◌∷◌, ◌++◌, none, some, arith, inl,
  inr, Bool-cases, Bytes,
}
use monogon.Kmod.{Part, root, wildcard, single_wildcard, literal, byte_range, advance, suffixes}
use monogon.Kmod.Matching.{any, any_cong, matches, literal_rest-append}
use monogon.Kmod.Pattern.{
  Parsed, parts, failed, out_of_fuel, Token, star, question, range, byte, bad, read_token,
  store_current_literal, ends_in_wildcard, push_token, error_of,
}

-- The part that a token stands for.
abbrev pub part_for : Token → Part
part_for star = wildcard
part_for question = single_wildcard
part_for (range a b) = byte_range a b
part_for (byte b) = literal (b ∷ [])
part_for (bad e) = root

unfoldable pub cons_part : Part → Parsed → Parsed
cons_part p (parts ps) = parts (p ∷ ps)
cons_part p (failed e) = failed e
cons_part p out_of_fuel = out_of_fuel

-- The reference: one part for each token.
unfoldable pub tokens : ℕ → Bytes → Parsed
unfolding cons_part
tokens zero s = out_of_fuel
tokens (suc fuel) [] = parts []
tokens (suc fuel) (x ∷ rest) =
    let t = read_token x rest in
    elim (error_of t.0) [ some e ↦ failed e | none ↦ cons_part (part_for t.0) (tokens fuel t.1) ]

matches-append_cong :
    (out ps qs : List Part)
    → ((s : Bytes) → matches ps s ≡ matches qs s)
    → (s : Bytes) → matches (out ++ ps) s ≡ matches (out ++ qs) s
unfolding matches
matches-append_cong [] ps qs h s = h s
matches-append_cong (p ∷ out) ps qs h s =
    any_cong _ _ (advance p s) (λ r. matches-append_cong out ps qs h r)

-- Behind a wildcard a second one changes nothing.
any-suffixes-suffixes :
    (f : Bytes → Bool) (s : Bytes) → any (λ r. any f (suffixes r)) (suffixes s) ≡ any f (suffixes s)
unfolding suffixes
any-suffixes-suffixes f [] = ground arith
any-suffixes-suffixes f (x ∷ s) = ground (arith, any-suffixes-suffixes f s)

any-singleton : (f : Bytes → Bool) (s : Bytes) → any f (s ∷ []) ≡ f s
any-singleton f s = ground arith

store_last : (out : List Part) (p : Part) (ps : List Part) → (out ++ p ∷ []) ++ ps ≡ out ++ p ∷ ps
store_last [] p ps = refl
store_last (q ∷ out) p ps = ap (◌∷◌ q) (store_last out p ps)

wildcard_twice :
    (out ps : List Part) (s : Bytes)
    → ends_in_wildcard out ≡ true
    → matches (out ++ ps) s ≡ matches (out ++ wildcard ∷ ps) s
unfolding ends_in_wildcard matches advance
wildcard_twice [] ps s h = absurd (ground (arith, h))
wildcard_twice (wildcard ∷ []) ps s h = sym (any-suffixes-suffixes (matches ps) s)
wildcard_twice (root ∷ []) ps s h = absurd (ground (arith, h))
wildcard_twice (single_wildcard ∷ []) ps s h = absurd (ground (arith, h))
wildcard_twice (literal l ∷ []) ps s h = absurd (ground (arith, h))
wildcard_twice (byte_range a b ∷ []) ps s h = absurd (ground (arith, h))
wildcard_twice (p ∷ q ∷ out) ps s h =
    any_cong _ _ (advance p s) (λ r. wildcard_twice (q ∷ out) ps r h)

literal_two :
    (x : ℕ) (l : Bytes) (b : ℕ) (ps : List Part) (r : Bytes)
    → matches (literal (x ∷ l ++ b ∷ []) ∷ ps) r
      ≡ matches (literal (x ∷ l) ∷ literal (b ∷ []) ∷ ps) r
unfolding matches advance
literal_two x l b ps r = literal_rest-append (matches ps) (x ∷ l) (b ∷ []) r

literal_longer :
    (l : Bytes) (b : ℕ) (out ps : List Part) (s : Bytes)
    → matches (store_current_literal (l ++ b ∷ []) out ++ ps) s
      ≡ matches (store_current_literal l out ++ literal (b ∷ []) ∷ ps) s
unfolding store_current_literal
literal_longer [] b out ps s = ap (λ qs. matches qs s) (store_last out (literal (b ∷ [])) ps)
literal_longer (x ∷ l) b out ps s =
    ap (λ qs. matches qs s) (store_last out (literal (x ∷ l ++ b ∷ [])) ps)
    ∙ matches-append_cong out (literal (x ∷ l ++ b ∷ []) ∷ ps)
        (literal (x ∷ l) ∷ literal (b ∷ []) ∷ ps) (λ r. literal_two x l b ps r) s
    ∙ ap (λ qs. matches qs s) (sym (store_last out (literal (x ∷ l)) (literal (b ∷ []) ∷ ps)))

-- A token goes into the state as its part.
pub push_token-matches :
    (t : Token) (l : Bytes) (out ps : List Part) (s : Bytes)
    → error_of t ≡ none
    → matches (store_current_literal (push_token t l out).0 (push_token t l out).1 ++ ps) s
      ≡ matches (store_current_literal l out ++ part_for t ∷ ps) s
unfolding push_token store_current_literal
push_token-matches star l out ps s ok =
    let stored = store_current_literal l out in
    elim (Bool-cases (ends_in_wildcard stored)) [
      | inl e ↦ rw e (wildcard_twice stored ps s e)
      | inr e ↦ rw e (ap (λ qs. matches qs s) (store_last stored wildcard ps))
    ]
push_token-matches question l out ps s ok =
    ap (λ qs. matches qs s) (store_last (store_current_literal l out) single_wildcard ps)
push_token-matches (range a b) l out ps s ok =
    ap (λ qs. matches qs s) (store_last (store_current_literal l out) (byte_range a b) ps)
push_token-matches (byte b) l out ps s ok = literal_longer l b out ps s
push_token-matches (bad e) l out ps s ok = absurd (ground (arith, ok))
