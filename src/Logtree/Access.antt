-- ===== src/Logtree/Access.antt =====
-- osbase/logtree/logtree_access.go and journal_subscriber.go: Read with its options, and the
-- subscribers that new entries are sent to.
use monogon.Prelude.{
  ℕ, ◌+◌, ◌%◌, ◌^◌, Bool, true, false, not, ◌&&◌, Option, none, some, if◌then◌else◌, ltb, Bytes,
  List, [], ◌∷◌, ◌++◌, length, map,
}
use monogon.Logtree.Reading.{
  Filter, filter_only_leveled, filter_only_raw, filter_subtree, filter_exact, filter_severity,
  scan_entries, get_entries,
}
use monogon.Logtree.{Entry, Subscriber, Journal}

-- A backlog is `none` for BacklogAllAvailable; other negative numbers are ignored, like 0.
pub record LogReadOption : Type 0 where
  pub with_children : Bool
  pub with_stream : Bool
  pub with_backlog : Option ℕ
  pub only_leveled : Bool
  pub only_raw : Bool
  pub leveled_with_minimum_severity : Bytes

abbrev pub no_option : LogReadOption
no_option = record {
  with_children = false;
  with_stream = false;
  with_backlog = some 0;
  only_leveled = false;
  only_raw = false;
  leveled_with_minimum_severity = [];
}

abbrev pub with_children : LogReadOption
with_children = record no_option { with_children = true }

abbrev pub with_stream : LogReadOption
with_stream = record no_option { with_stream = true }

abbrev pub with_backlog : Option ℕ → LogReadOption
with_backlog count = record no_option { with_backlog = count }

abbrev pub only_raw : LogReadOption
only_raw = record no_option { only_raw = true }

abbrev pub only_leveled : LogReadOption
only_leveled = record no_option { only_leveled = true }

abbrev pub leveled_with_minimum_severity : Bytes → LogReadOption
leveled_with_minimum_severity s = record no_option { leveled_with_minimum_severity = s }

-- `backlog > 0 || backlog == BacklogAllAvailable`.
unfoldable pub is_wanted : Option ℕ → Bool
is_wanted none = true
is_wanted (some n) = ltb 0 n

abbrev pub is_nonempty : Bytes → Bool
is_nonempty [] = false
is_nonempty (c ∷ s) = true

-- The loop over the options, on the variables of Read.
unfoldable pub gather : List LogReadOption → LogReadOption → LogReadOption
gather [] s = s
gather (opt ∷ opts) s = gather opts (record {
  with_backlog = if is_wanted opt.with_backlog then opt.with_backlog else s.with_backlog;
  with_stream = if opt.with_stream then true else s.with_stream;
  with_children = if opt.with_children then true else s.with_children;
  leveled_with_minimum_severity =
      if is_nonempty opt.leveled_with_minimum_severity
      then opt.leveled_with_minimum_severity
      else s.leveled_with_minimum_severity;
  only_leveled = if opt.only_leveled then true else s.only_leveled;
  only_raw = if opt.only_raw then true else s.only_raw;
})

unfoldable pub filters_of : Bytes → LogReadOption → List Filter
filters_of dn s =
    (if s.only_leveled then filter_only_leveled ∷ [] else [])
    ++ ((if s.only_raw then filter_only_raw ∷ [] else [])
        ++ ((if s.with_children then filter_subtree dn else filter_exact dn)
            ∷ (if is_nonempty s.leveled_with_minimum_severity
                then filter_severity s.leveled_with_minimum_severity ∷ []
                else [])))

-- A stream is the subscriber behind it.
pub record LogReader : Type 0 where
  pub backlog : List Entry
  pub stream : Option Subscriber

pub data ReadResult : Type 0 where
  raw_and_leveled : ReadResult
  reader : LogReader → Journal → ReadResult
  unfinished : ReadResult

unfoldable pub read_entries : ℕ → Bytes → LogReadOption → Journal → Option (List ℕ)
read_entries fuel dn s j =
    if is_wanted s.with_backlog
    then if s.with_children
      then scan_entries fuel s.with_backlog (filters_of dn s) j
      else get_entries fuel s.with_backlog dn (filters_of dn s) j
    else some []

unfoldable pub subscribe : Subscriber → Journal → Journal
subscribe sub j = record j { subscribers = j.subscribers ++ sub ∷ [] }

unfoldable pub read : ℕ → Bytes → List LogReadOption → Journal → ReadResult
read fuel dn opts j =
    let s = gather opts no_option in
    if s.only_leveled && s.only_raw then raw_and_leveled else elim (read_entries fuel dn s j) [
      | none ↦ unfinished
      | some entries ↦
          let sub : Subscriber = record {
            filters = filters_of dn s;
            data_c = [];
            done = false;
            missed = 0;
          } in
          let backlog = map j.entry entries in
          if s.with_stream
          then reader (record { backlog = backlog; stream = some sub }) (subscribe sub j)
          else reader (record { backlog = backlog; stream = none }) j
    ]

-- The loop of notify over the filters of a subscriber. Its `continue` goes on with the next
-- filter.
unfoldable pub run_filters : List Filter → Entry → Subscriber → Subscriber
run_filters [] e sub = sub
run_filters (f ∷ fs) e sub = let rest = run_filters fs e sub in if not (f e) then rest else rest

-- The send without blocking on a channel with room for 128 entries.
unfoldable pub offer : Entry → Subscriber → Subscriber
offer e sub =
    if ltb (length sub.data_c) 128
    then record sub { data_c = sub.data_c ++ e ∷ [] }
    else record sub { missed = (sub.missed + 1) % 2 ^ 64 }

unfoldable pub notify_all : Entry → List Subscriber → List Subscriber
notify_all e [] = []
notify_all e (sub ∷ subs) =
    let rest = notify_all e subs in
    if sub.done then rest else offer e (run_filters sub.filters e sub) ∷ rest

unfoldable pub notify : ℕ → Journal → Journal
notify e j = record j { subscribers = notify_all (j.entry e) j.subscribers }
