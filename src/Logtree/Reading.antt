-- ===== src/Logtree/Reading.antt =====
-- osbase/logtree/journal.go, journal_subscriber.go and logtree_access.go: filters, the scans
-- through the journal, Read, and the subscribers.
use monogon.Prelude.{
  ℕ, zero, suc, Bool, true, false, ◌&&◌, ◌||◌, Option, none, some, if◌then◌else◌, ltb, leb, Bytes,
  bytes_eq, split_byte, List, [], ◌∷◌, ◌++◌, length,
}
use monogon.Logtree.{Entry, Journal}

abbrev pub Filter : Type 0
Filter = Entry → Bool

abbrev pub is_some {ℓ} : {A : Type ℓ} → Option A → Bool
is_some none = false
is_some (some a) = true

abbrev pub dot : ℕ
dot = 46

abbrev any_empty : List Bytes → Bool
any_empty [] = false
any_empty ([] ∷ ps) = true
any_empty ((c ∷ p) ∷ ps) = any_empty ps

-- DN.Path; `none` is ErrInvalidDN.
unfoldable pub path : Bytes → Option (List Bytes)
path [] = some []
path (c ∷ d) = let parts = split_byte dot (c ∷ d) in if any_empty parts then none else some parts

unfoldable pub filter_all : Filter
filter_all e = true

unfoldable pub filter_exact : Bytes → Filter
filter_exact dn e = bytes_eq e.origin dn

-- The loop over the parts of the root.
unfoldable pub starts_with : List Bytes → List Bytes → Bool
starts_with [] parts = true
starts_with (r ∷ root) [] = false
starts_with (r ∷ root) (p ∷ parts) = bytes_eq p r && starts_with root parts

unfoldable pub filter_subtree : Bytes → Filter
filter_subtree [] e = filter_all e
filter_subtree (c ∷ root) e =
    let root_parts = split_byte dot (c ∷ root) in
    let parts = split_byte dot e.origin in
    if ltb (length parts) (length root_parts) then false else starts_with root_parts parts

abbrev pub info : Bytes
info = 73 ∷ []

abbrev pub warning : Bytes
warning = 87 ∷ []

abbrev pub error : Bytes
error = 69 ∷ []

abbrev pub fatal : Bytes
fatal = 70 ∷ []

-- SeverityAtLeast; a severity that is no key of the map gives the nil slice.
unfoldable pub severity_at_least : Bytes → List Bytes
severity_at_least s =
    if bytes_eq s info
    then info ∷ warning ∷ error ∷ fatal ∷ []
    else if bytes_eq s warning
    then warning ∷ error ∷ fatal ∷ []
    else if bytes_eq s error
    then error ∷ fatal ∷ []
    else if bytes_eq s fatal
    then fatal ∷ []
    else []

abbrev contains : Bytes → List Bytes → Bool
contains s [] = false
contains s (el ∷ els) = bytes_eq el s || contains s els

unfoldable pub at_least : Bytes → Bytes → Bool
at_least s other = contains s (severity_at_least other)

unfoldable pub filter_severity : Bytes → Filter
filter_severity least e = elim e.leveled [ none ↦ false | some p ↦ at_least p.severity least ]

unfoldable pub filter_only_raw : Filter
filter_only_raw e = is_some e.raw

unfoldable pub filter_only_leveled : Filter
filter_only_leveled e = is_some e.leveled

-- The loop over the filters.
unfoldable pub passes : List Filter → Entry → Bool
passes [] e = true
passes (f ∷ fs) e = if f e then passes fs e else false

-- `count != BacklogAllAvailable && len(res) >= count`, where `none` is BacklogAllAvailable. Read
-- passes no other negative count.
abbrev pub is_enough : Option ℕ → List ℕ → Bool
is_enough none res = false
is_enough (some count) res = leb count (length res)

-- sort.SliceStable by `i > j` on positions: "Reverse entries back into chronological order."
abbrev pub reverse : {A : Type 0} → List A → List A
reverse [] = []
reverse (x ∷ xs) = reverse xs ++ x ∷ []

-- The loop of scanEntries and getEntries along the pointers to previous entries. The outer `none`
-- is a loop that has run out of fuel.
unfoldable pub scan_back :
    ℕ → (ℕ → Option ℕ) → (ℕ → Bool) → Option ℕ → Option ℕ → List ℕ → Option (List ℕ)
scan_back fuel prev passed count none res = some res
scan_back zero prev passed count (some cur) res = none
scan_back (suc fuel) prev passed count (some cur) res =
    let found = if passed cur then res ++ cur ∷ [] else res in
    elim (is_enough count found) [
      | true ↦ some found
      | false ↦ scan_back fuel prev passed count (prev cur) found
    ]

unfoldable pub scan_entries : ℕ → Option ℕ → List Filter → Journal → Option (List ℕ)
scan_entries fuel count filters j =
    elim (scan_back fuel j.global.prev (λ e. passes filters (j.entry e)) count j.global.tail []) [
      | none ↦ none
      | some res ↦ some (reverse res)
    ]

unfoldable pub get_entries : ℕ → Option ℕ → Bytes → List Filter → Journal → Option (List ℕ)
get_entries fuel count exact filters j =
    elim (scan_back fuel j.prev_local (λ e. passes filters (j.entry e)) count (j.tails exact) []) [
      | none ↦ none
      | some res ↦ some (reverse res)
    ]
