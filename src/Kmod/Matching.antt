-- ===== src/Kmod/Matching.antt =====
-- What a list of parts matches, and what a node of the tree contributes to a lookup.
use monogon.Prelude.{
  ℕ, ◌≡◌, refl, Bool, false, ◌&&◌, ◌||◌, List, [], ◌∷◌, ◌++◌, if◌then◌else◌, arith, ◌==◌, Bytes,
  bytes_eq,
}
use monogon.Kmod.{
  Part, RadixNode, radix, Children, no_more, child, part_of, is_empty, literal_rest, advance,
  lookup_modules_rec, lookup_children, lookup_each, Item, chain, mark,
}

abbrev pub mem : ℕ → List ℕ → Bool
mem j [] = false
mem j (x ∷ xs) = (j == x) || mem j xs

abbrev pub any {ℓ} : {A : Type ℓ} → (A → Bool) → List A → Bool
any f [] = false
any f (x ∷ xs) = f x || any f xs

pub mem-append : (j : ℕ) (xs ys : List ℕ) → mem j (xs ++ ys) ≡ (mem j xs || mem j ys)
mem-append j [] ys = refl
mem-append j (x ∷ xs) ys = ground (arith, mem-append j xs ys)

pub any-or :
    (f g h : Bytes → Bool) (xs : List Bytes)
    → ((x : Bytes) → f x ≡ (g x || h x))
    → any f xs ≡ (any g xs || any h xs)
any-or f g h [] e = refl
any-or f g h (x ∷ xs) e = ground (arith, e x, any-or f g h xs e)

pub any-and :
    (b : Bool) (f g : Bytes → Bool) (xs : List Bytes)
    → ((x : Bytes) → f x ≡ (b && g x))
    → any f xs ≡ (b && any g xs)
any-and b f g [] e = ground arith
any-and b f g (x ∷ xs) e = ground (arith, e x, any-and b f g xs e)

pub any_cong :
    (f g : Bytes → Bool) (xs : List Bytes) → ((x : Bytes) → f x ≡ g x) → any f xs ≡ any g xs
any_cong f g [] e = refl
any_cong f g (x ∷ xs) e = ground (arith, e x, any_cong f g xs e)

pub any-append : (f : Bytes → Bool) (xs ys : List Bytes) → any f (xs ++ ys) ≡ (any f xs || any f ys)
any-append f [] ys = refl
any-append f (x ∷ xs) ys = ground (arith, any-append f xs ys)

-- A node is found behind any of the needles.
pub lookup_each-any :
    (j : ℕ) (c : RadixNode) (ss : List Bytes)
    → mem j (lookup_each c ss) ≡ any (λ r. mem j (lookup_modules_rec c r)) ss
unfolding lookup_each
lookup_each-any j (radix p m f) [] = refl
lookup_each-any j (radix p m f) (s ∷ ss) = ground (
  arith,
  mem-append j (lookup_modules_rec (radix p m f) s) (lookup_each (radix p m f) ss),
  lookup_each-any j (radix p m f) ss,
)

literal_rest-cons :
    (x y : ℕ) (l s : Bytes)
    → literal_rest (x ∷ l) (y ∷ s) ≡ (if x == y then literal_rest l s else [])
unfolding literal_rest bytes_eq
literal_rest-cons x y l s = ground arith

literal_rest-end : (x : ℕ) (l : Bytes) → literal_rest (x ∷ l) [] ≡ []
unfolding literal_rest
literal_rest-end x l = ground arith

literal_rest-nil : (s : Bytes) → literal_rest [] s ≡ s ∷ []
unfolding literal_rest bytes_eq
literal_rest-nil s = ground arith

-- A literal in two pieces.
pub literal_rest-append :
    (f : Bytes → Bool) (k l s : Bytes)
    → any f (literal_rest (k ++ l) s) ≡ any (λ r. any f (literal_rest l r)) (literal_rest k s)
literal_rest-append f [] l s = ground (arith, literal_rest-nil s)
literal_rest-append f (x ∷ k) l [] =
    ground (arith, literal_rest-end x (k ++ l), literal_rest-end x k)
literal_rest-append f (x ∷ k) l (y ∷ s) = ground (
  arith,
  literal_rest-cons x y (k ++ l) s,
  literal_rest-cons x y k s,
  literal_rest-append f k l s,
)

-- The needles that a list of parts matches.
unfoldable pub matches : List Part → Bytes → Bool
matches [] s = is_empty s
matches (p ∷ ps) s = any (matches ps) (advance p s)

-- The same with the indices of the parts: where the parts end, the index is found.
unfoldable pub accepts : ℕ → List Item → Bytes → Bool
accepts j [] s = false
accepts j ((p, m) ∷ qs) s = any (λ r. (is_empty r && mem j m) || accepts j qs r) (advance p s)

pub accepts-mark :
    (j idx : ℕ) (p : Part) (ps : List Part) (s : Bytes)
    → accepts j (mark (p ∷ ps) idx) s ≡ ((j == idx) && matches (p ∷ ps) s)
unfolding accepts mark matches
accepts-mark j idx p [] s = any-and (j == idx) _ is_empty (advance p s) (λ r. ground arith)
accepts-mark j idx p (q ∷ ps) s =
    any-and (j == idx) _ (matches (q ∷ ps)) (advance p s)
      (λ r. ground (arith, accepts-mark j idx q ps r))

-- What a child contributes.
abbrev pub below : ℕ → RadixNode → Bytes → Bool
below j c s = any (λ r. mem j (lookup_modules_rec c r)) (advance (part_of c) s)

pub lookup_children-child :
    (j : ℕ) (c : RadixNode) (f : Children) (s : Bytes)
    → mem j (lookup_children (child c f) s) ≡ (below j c s || mem j (lookup_children f s))
unfolding lookup_children
lookup_children-child j c f s = ground (
  arith,
  mem-append j (lookup_each c (advance (part_of c) s)) (lookup_children f s),
  lookup_each-any j c (advance (part_of c) s),
)

pub lookup_modules_rec-radix :
    (j : ℕ) (p : Part) (m : List ℕ) (f : Children) (s : Bytes)
    → mem j (lookup_modules_rec (radix p m f) s)
      ≡ (mem j (lookup_children f s) || (is_empty s && mem j m))
unfolding lookup_modules_rec
lookup_modules_rec-radix j p m f s =
    ground (arith, mem-append j (lookup_children f s) (if is_empty s then m else []))

-- A chain is found where its parts match.
pub below-chain :
    (j : ℕ) (q : Item) (qs : List Item) (s : Bytes) → below j (chain q qs) s ≡ accepts j (q ∷ qs) s
unfolding chain accepts lookup_children
below-chain j (p, m) [] s =
    any_cong _ _ (advance p s) (λ r. ground (arith, lookup_modules_rec-radix j p m no_more r))
below-chain j (p, m) (q ∷ qs) s = any_cong _ _ (advance p s) (λ r. ground (
  arith,
  lookup_modules_rec-radix j p m (child (chain q qs) no_more) r,
  lookup_children-child j (chain q qs) no_more r,
  below-chain j q qs r,
))
