-- ===== src/Logtree/Backlog.antt =====
-- osbase/logtree/logtree_access.go, Read, and journal_subscriber.go, notify.
use monogon.Prelude.{ℕ, ◌≡◌, refl, if◌then◌else◌, List, [], ◌∷◌, arith, Bytes, map}
use monogon.Logtree.Scans.{filter, latest}
use monogon.Logtree.Reading.{Filter, passes}
use monogon.Logtree.Options.{last_backlog, last_of, expects}
use monogon.Logtree.Access.{
  LogReadOption, is_wanted, filters_of, run_filters, offer, notify_all, notify,
}
use monogon.Logtree.{Entry, Subscriber, Journal}

-- The entries that the code's own settings and filters select.
abbrev pub backlog_of : Bytes → LogReadOption → Journal → List ℕ → List ℕ
backlog_of dn s j g =
    if is_wanted s.with_backlog
    then latest s.with_backlog (filter (λ e. passes (filters_of dn s) (j.entry e)) g)
    else []

-- What a reader is to get for its options.
abbrev pub backlog_for : Bytes → List LogReadOption → Journal → List ℕ → List ℕ
backlog_for dn opts j g = last_of (last_backlog opts) (filter (λ e. expects dn opts (j.entry e)) g)

abbrev pub with_filters : List Filter → Subscriber → Subscriber
with_filters fs sub = record sub { filters = fs }

run_filters-same : (fs : List Filter) (e : Entry) (sub : Subscriber) → run_filters fs e sub ≡ sub
unfolding run_filters
run_filters-same [] e sub = refl
run_filters-same (f ∷ fs) e sub = ground (arith, run_filters-same fs e sub)

notify_all-filters :
    (fs : List Filter) (e : Entry) (subs : List Subscriber)
    → notify_all e (map (with_filters fs) subs) ≡ map (with_filters fs) (notify_all e subs)
unfolding notify_all offer
notify_all-filters fs e [] = refl
notify_all-filters fs e (sub ∷ subs) = ground (
  arith,
  notify_all-filters fs e subs,
  run_filters-same sub.filters e sub,
  run_filters-same fs e (with_filters fs sub),
)

-- What notify sends to the subscribers does not depend on their filters: with other filters the
-- same subscribers get the same entries and miss as many.
pub notify-with_filters :
    (fs : List Filter) (e : ℕ) (j : Journal)
    → (notify e (record j { subscribers = map (with_filters fs) j.subscribers })).subscribers
      ≡ map (with_filters fs) (notify e j).subscribers
unfolding notify
notify-with_filters fs e j = notify_all-filters fs (j.entry e) j.subscribers
