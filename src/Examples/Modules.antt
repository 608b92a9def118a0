-- ===== src/Examples/Modules.antt =====
-- A tree of two module aliases that part inside a literal.
use monogon.Prelude.{
  ℕ, ◌⊎◌, some, none, All, true, ◌↔◌, arith, ◌≡◌, refl, ◌&&◌, ◌||◌, List, [], ◌∷◌, ◌==◌, Bytes,
  bytes_eq,
}
use monogon.Kmod.{
  Part, root, wildcard, single_wildcard, literal, RadixNode, radix, no_more, add_parts,
  add_children, lookup_modules_rec, mark, chain, fit, common, split_node, advance, literal_rest,
  suffixes,
}
use monogon.Kmod.Matching.{mem, matches}
use monogon.Kmod.Adding.{add_parts-found}
use monogon.Kmod.Pattern.{
  ParseError, parts, failed, parse_pattern, add_pattern, parse_loop, read_token, read_range,
  read_escape, push_token, store_current_literal, ends_in_wildcard,
}
use monogon.Kmod.Pattern.Grammar.{Illegal, Accepts}
use monogon.Kmod.Pattern.Needles.{IsByte}
use monogon.Kmod.Pattern.Parsing.{parse_pattern-Accepts, add_pattern-found}

-- The alias `ab*`.
abbrev ab_star : List Part
ab_star = literal (b'a' ∷ b'b' ∷ []) ∷ wildcard ∷ []

-- The alias `ac?`.
abbrev ac_any : List Part
ac_any = literal (b'a' ∷ b'c' ∷ []) ∷ single_wildcard ∷ []

abbrev aliases : RadixNode
aliases = add_parts ab_star 4 (radix root [] no_more)

acx : Bytes
acx = b'a' ∷ b'c' ∷ b'x' ∷ []

lookup_acx : lookup_modules_rec (add_parts ac_any 7 aliases) acx ≡ 7 ∷ []
unfolding acx lookup_modules_rec add_parts mark add_children fit common split_node chain advance
    literal_rest suffixes bytes_eq
lookup_acx = refl

add_parts-found_example :
    mem 7 (lookup_modules_rec (add_parts ac_any 7 aliases) acx)
    ≡ (mem 7 (lookup_modules_rec aliases acx) || ((7 == 7) && matches ac_any acx))
add_parts-found_example = add_parts-found ac_any 7 aliases 7 acx

-- The text `ac**`.
acstars : Bytes
acstars = b'a' ∷ b'c' ∷ b'*' ∷ b'*' ∷ []

parse_acstars : parse_pattern acstars ≡ parts (literal (b'a' ∷ b'c' ∷ []) ∷ wildcard ∷ [])
unfolding acstars parse_pattern parse_loop read_token read_range read_escape push_token
    store_current_literal ends_in_wildcard
parse_acstars = refl

acstars-bytes : All IsByte acstars
unfolding acstars
acstars-bytes = (omega arith, (omega arith, (omega arith, (omega arith, tt))))

parse_pattern-Accepts_example :
    ((e : ParseError) × Illegal acstars e × (parse_pattern acstars ≡ failed e))
    ⊎ ((qs : List Part) × ((e : ParseError) → ¬ Illegal acstars e)
        × (parse_pattern acstars ≡ parts qs)
        × ((r : Bytes) → (matches qs r ≡ true) ↔ Accepts acstars r))
parse_pattern-Accepts_example = parse_pattern-Accepts acstars acstars-bytes

add_pattern-found_example :
    ((e : ParseError) × Illegal acstars e × (add_pattern acstars 7 aliases ≡ (aliases, some e)))
    ⊎ ((n' : RadixNode) × ((e : ParseError) → ¬ Illegal acstars e)
        × (add_pattern acstars 7 aliases ≡ (n', none))
        × ((j : ℕ) (r : Bytes)
            → (mem j (lookup_modules_rec n' r) ≡ true)
              ↔ ((mem j (lookup_modules_rec aliases r) ≡ true) ⊎ ((j ≡ 7) × Accepts acstars r))))
add_pattern-found_example = add_pattern-found acstars 7 aliases acstars-bytes
