-- ===== src/Logtree/Options.antt =====
-- osbase/logtree/logtree_access.go: what the options of Read ask for, from the list of options alone,
-- and the loop over them.
use monogon.Prelude.{
  ℕ, zero, suc, ◌-◌, ◌≡◌, refl, ◌∙◌, Bool, true, false, not, ◌&&◌, ◌||◌, Option, none, some,
  if◌then◌else◌, List, [], ◌∷◌, arith, Bytes, bytes_eq, split_byte, leb, length, drop,
}
use monogon.Logtree.Access.{LogReadOption, no_option, is_wanted, is_nonempty, gather}
use monogon.Logtree.{Entry}

-- One of the options asks for it.
abbrev pub asks : (LogReadOption → Bool) → List LogReadOption → Bool
asks f [] = false
asks f (opt ∷ opts) = f opt || asks f opts

abbrev unless_asked : Option ℕ → Option ℕ → Option ℕ
unless_asked none this = none
unless_asked (some zero) this = this
unless_asked (some (suc n)) this = some (suc n)

-- The last option that asks for a backlog says how many entries; `none` is all of them.
abbrev pub last_backlog : List LogReadOption → Option ℕ
last_backlog [] = some 0
last_backlog (opt ∷ opts) = unless_asked (last_backlog opts) opt.with_backlog

abbrev unless_given : Bytes → Bytes → Bytes
unless_given [] this = this
unless_given (c ∷ s) this = c ∷ s

-- The last option with a severity.
abbrev pub last_severity : List LogReadOption → Bytes
last_severity [] = []
last_severity (opt ∷ opts) = unless_given (last_severity opts) opt.leveled_with_minimum_severity

abbrev pub has : {A : Type 0} → Option A → Bool
has none = false
has (some a) = true

-- The letters of the severities in their order.
abbrev pub rank : Bytes → Option ℕ
rank s =
    if bytes_eq (b'I' ∷ []) s
    then some 0
    else if bytes_eq (b'W' ∷ []) s
    then some 1
    else if bytes_eq (b'E' ∷ []) s
    then some 2
    else if bytes_eq (b'F' ∷ []) s
    then some 3
    else none

abbrev pub is_severe : Bytes → Bytes → Bool
is_severe least s = elim (rank least) [
  | none ↦ false
  | some n ↦ elim (rank s) [ none ↦ false | some m ↦ leb n m ]
]

abbrev pub is_prefix : List Bytes → List Bytes → Bool
is_prefix [] ys = true
is_prefix (x ∷ xs) [] = false
is_prefix (x ∷ xs) (y ∷ ys) = bytes_eq y x && is_prefix xs ys

-- The root of the tree is above every DN, another DN is above those that its parts begin.
abbrev pub is_below : Bytes → Bytes → Bool
is_below [] origin = true
is_below (c ∷ dn) origin = is_prefix (split_byte b'.' (c ∷ dn)) (split_byte b'.' origin)

-- The entries that the options ask for.
abbrev pub expects : Bytes → List LogReadOption → Entry → Bool
expects dn opts e =
    (not (asks (λ o. o.only_leveled) opts) || has e.leveled)
    && ((not (asks (λ o. o.only_raw) opts) || has e.raw)
        && ((if asks (λ o. o.with_children) opts
              then is_below dn e.origin
              else bytes_eq e.origin dn)
            && elim (last_severity opts) [
              | [] ↦ true
              | c ∷ s ↦ elim e.leveled [ none ↦ false | some p ↦ is_severe (c ∷ s) p.severity ]
            ]))

-- The last entries of a list, `none` for all.
abbrev pub last_of : Option ℕ → List ℕ → List ℕ
last_of none xs = xs
last_of (some n) xs = drop (length xs - n) xs

-- The variables of Read after one more option.
abbrev merged : LogReadOption → LogReadOption → LogReadOption
merged opt s = record {
  with_backlog = if is_wanted opt.with_backlog then opt.with_backlog else s.with_backlog;
  with_stream = if opt.with_stream then true else s.with_stream;
  with_children = if opt.with_children then true else s.with_children;
  leveled_with_minimum_severity =
      if is_nonempty opt.leveled_with_minimum_severity
      then opt.leveled_with_minimum_severity
      else s.leveled_with_minimum_severity;
  only_leveled = if opt.only_leveled then true else s.only_leveled;
  only_raw = if opt.only_raw then true else s.only_raw;
}

pub gather-leveled :
    (opts : List LogReadOption) (s : LogReadOption)
    → (gather opts s).only_leveled ≡ (s.only_leveled || asks (λ o. o.only_leveled) opts)
unfolding gather
gather-leveled [] s = ground arith
gather-leveled (opt ∷ opts) s = ground (arith, gather-leveled opts (merged opt s))

pub gather-raw :
    (opts : List LogReadOption) (s : LogReadOption)
    → (gather opts s).only_raw ≡ (s.only_raw || asks (λ o. o.only_raw) opts)
unfolding gather
gather-raw [] s = ground arith
gather-raw (opt ∷ opts) s = ground (arith, gather-raw opts (merged opt s))

pub gather-children :
    (opts : List LogReadOption) (s : LogReadOption)
    → (gather opts s).with_children ≡ (s.with_children || asks (λ o. o.with_children) opts)
unfolding gather
gather-children [] s = ground arith
gather-children (opt ∷ opts) s = ground (arith, gather-children opts (merged opt s))

gather-backlog_from :
    (opts : List LogReadOption) (s : LogReadOption)
    → (gather opts s).with_backlog ≡ unless_asked (last_backlog opts) s.with_backlog
unfolding gather is_wanted
gather-backlog_from [] s = refl
gather-backlog_from (opt ∷ opts) s =
    gather-backlog_from opts (merged opt s) ∙ pick (last_backlog opts) opt.with_backlog
  where
    pick :
        (later this : Option ℕ)
        → unless_asked later (if is_wanted this then this else s.with_backlog)
          ≡ unless_asked (unless_asked later this) s.with_backlog
    pick none this = refl
    pick (some zero) none = ground (arith, is_wanted)
    pick (some zero) (some zero) = ground (arith, is_wanted)
    pick (some zero) (some (suc n)) = ground (arith, is_wanted)
    pick (some (suc n)) this = refl

pub gather-backlog :
    (opts : List LogReadOption) → (gather opts no_option).with_backlog ≡ last_backlog opts
gather-backlog opts = gather-backlog_from opts no_option ∙ same (last_backlog opts)
  where
    same : (o : Option ℕ) → unless_asked o (some 0) ≡ o
    same none = refl
    same (some zero) = refl
    same (some (suc n)) = refl

gather-severity_from :
    (opts : List LogReadOption) (s : LogReadOption)
    → (gather opts s).leveled_with_minimum_severity
      ≡ unless_given (last_severity opts) s.leveled_with_minimum_severity
unfolding gather
gather-severity_from [] s = refl
gather-severity_from (opt ∷ opts) s =
    gather-severity_from opts (merged opt s)
    ∙ pick (last_severity opts) opt.leveled_with_minimum_severity
  where
    pick :
        (later this : Bytes)
        → unless_given later (if is_nonempty this then this else s.leveled_with_minimum_severity)
          ≡ unless_given (unless_given later this) s.leveled_with_minimum_severity
    pick [] [] = refl
    pick [] (c ∷ t) = refl
    pick (c ∷ t) this = refl

pub gather-severity :
    (opts : List LogReadOption)
    → (gather opts no_option).leveled_with_minimum_severity ≡ last_severity opts
gather-severity opts = gather-severity_from opts no_option ∙ same (last_severity opts)
  where
    same : (o : Bytes) → unless_given o [] ≡ o
    same [] = refl
    same (c ∷ t) = refl
