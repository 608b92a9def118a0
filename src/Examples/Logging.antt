-- ===== src/Examples/Logging.antt =====
-- A journal with room for one entry of each DN: entries 0 and 1 come from "a", entry 2 from "a.b".
use monogon.Prelude.{
  ℕ, ◌≡◌, ◌⊎◌, refl, sym, ap, true, false, none, some, List, [], ◌∷◌, map, arith, inl, inr, Bytes,
  bytes_eq, split_byte, if◌then◌else◌, ◌==◌,
}
use mathlib.Core.Path.{subst}
use monogon.Logtree.Linked.{push, cut}
use monogon.Logtree.Standing.{trimmed}
use monogon.Logtree.Views.{origins}
use monogon.Logtree.Quotas.{Represents}
use monogon.Logtree.Appending.{append-Represents}
use monogon.Logtree.Backlog.{with_filters, notify-with_filters}
use monogon.Logtree.Reading.{
  path, filter_all, filter_subtree, filter_only_raw, starts_with, at_least, severity_at_least, info,
  warning, error,
}
use monogon.Logtree.Access.{
  LogReadOption, with_children, with_stream, with_backlog, run_filters, offer, notify_all, notify,
}
use monogon.Logtree.{
  Entry, Journal, new_journal, origin_of, local_links, set_local_links, unlink, create_quota,
  next_seq, insert_local, pop_excess, count_local, apply_quota, append,
}

abbrev name_a : Bytes
name_a = 97 ∷ []

abbrev name_a_b : Bytes
name_a_b = 97 ∷ 46 ∷ 98 ∷ []

abbrev entries : ℕ → Entry
entries e = if e == 2 then record { origin = name_a_b; leveled = none; raw = none } else record {
  origin = name_a;
  leveled = some (record { messages = []; timestamp = 0; severity = error; file = []; line = 0 });
  raw = none;
}

abbrev small : Journal
small = record (new_journal entries) { quota = λ d. some 1 }

small-Represents : Represents small []
unfolding new_journal local_links
small-Represents = record {
  linked = record {
    distinct = tt;
    globally = record { starts = refl; ends = refl; chained = tt };
    locally = λ d. record { starts = refl; ends = refl; chained = tt };
  };
  numbered = λ d. tt;
  bounded = λ d. omega arith;
  quotas = λ d q h. ground (arith, h);
}

abbrev one : Journal
one = elim (append 0 small) [ none ↦ small | some j ↦ j ]

one-Represents : Represents one (0 ∷ [])
unfolding new_journal
one-Represents =
    let (j, max, run, r, was, _) = append-Represents small [] 0 refl small-Represents in
    let limit : max ≡ 1 = elim was [
      | inl there ↦ ground (arith, there)
      | inr gone ↦ absurd (ground (arith, gone.0))
    ] in
    let kept : trimmed (origins small) name_a max (0 ∷ []) ≡ 0 ∷ [] = ground (arith, limit) in
    let is : one ≡ j = ap (λ o. elim o [ none ↦ small | some k ↦ k ]) run in
    subst (λ k. Represents k (0 ∷ [])) (sym is) (subst (λ xs. Represents j xs) kept r)

-- The second entry of "a" pushes out the first.
quota_of_one : (elim (append 1 one) [ none ↦ none | some j ↦ j.global.head ]) ≡ some 1
unfolding append apply_quota insert_local create_quota next_seq pop_excess count_local unlink
    set_local_links local_links new_journal push cut bytes_eq
quota_of_one = refl

path_of_dots : path (97 ∷ 46 ∷ 46 ∷ []) ≡ none
unfolding path split_byte
path_of_dots = refl

subtree_of_a : filter_subtree name_a (entries 2) ≡ true
unfolding filter_subtree starts_with split_byte bytes_eq
subtree_of_a = refl

severities : (at_least error warning ≡ true) × (at_least info warning ≡ false)
unfolding at_least severity_at_least bytes_eq
severities = (refl, refl)

append-Represents_example :
    (j' : Journal) × (max : ℕ) × (append 1 one ≡ some j')
    × Represents j' (trimmed (origins one) (origin_of 1 one) max (0 ∷ 1 ∷ []))
    × ((one.quota (origin_of 1 one) ≡ some max)
        ⊎ ((one.quota (origin_of 1 one) ≡ none) × (max ≡ 8192)))
    × (j'.entry ≡ one.entry)
append-Represents_example = append-Represents one (0 ∷ []) 1 refl one-Represents

abbrev deep : List LogReadOption
deep = with_children ∷ with_backlog (some 3) ∷ with_stream ∷ []

abbrev watched : Journal
watched = record small {
  subscribers =
      record { filters = filter_only_raw ∷ []; data_c = []; done = false; missed = 0 } ∷ [];
}

-- An entry that is not raw reaches a subscriber for raw entries.
unfiltered : map (λ s. s.data_c) (notify 0 watched).subscribers ≡ (entries 0 ∷ []) ∷ []
unfolding notify notify_all offer run_filters filter_only_raw new_journal
unfiltered = refl

notify-with_filters_example :
    (notify 0 (record watched {
      subscribers = map (with_filters (filter_all ∷ [])) watched.subscribers;
    })).subscribers
    ≡ map (with_filters (filter_all ∷ [])) (notify 0 watched).subscribers
notify-with_filters_example = notify-with_filters (filter_all ∷ []) 0 watched
