-- ===== src/Logtree.antt =====
-- osbase/logtree/journal.go and journal_entry.go: the journal with its global list of entries, the
-- list of each DN, and the quota of each DN. An entry is known by its address, a number; a map
-- that is read with a key it lacks gives nil. Locking is not modelled: each operation holds the
-- mutex throughout.
pub mod Linked
pub mod Reading
pub mod Access
pub mod Views
pub mod Numbers
pub mod Standing
pub mod Quotas
pub mod Appending
pub mod Scans
pub mod Options
pub mod Requests
pub mod Backlog
use monogon.Prelude.{
  ℕ, zero, suc, ◌+◌, ◌-◌, ◌%◌, ◌^◌, Bool, Option, none, some, if◌then◌else◌, ltb, Bytes, bytes_eq,
  List, [], ◌==◌,
}
use monogon.LineBuffer.{Line}
use Linked.{Links, put, push, cut}

pub record LeveledPayload : Type 0 where
  pub messages : List Bytes
  pub timestamp : ℕ
  pub severity : Bytes
  pub file : Bytes
  pub line : ℕ

-- The fields that stay as they are, and what `external` returns.
pub record Entry : Type 0 where
  pub origin : Bytes
  pub leveled : Option LeveledPayload
  pub raw : Option Line

-- dataC is what waits in the channel.
pub record Subscriber : Type 0 where
  pub filters : List (Entry → Bool)
  pub data_c : List Entry
  pub done : Bool
  pub missed : ℕ

pub record Journal : Type 0 where
  pub entry : ℕ → Entry
  pub global : Links
  pub prev_local : ℕ → Option ℕ
  pub next_local : ℕ → Option ℕ
  pub heads : Bytes → Option ℕ
  pub tails : Bytes → Option ℕ
  pub seq_local : ℕ → ℕ
  pub quota : Bytes → Option ℕ
  pub subscribers : List Subscriber

-- newJournal; the entries are there before they are appended.
unfoldable pub new_journal : (ℕ → Entry) → Journal
new_journal entry = record {
  entry = entry;
  global = record { prev = λ x. none; next = λ x. none; head = none; tail = none };
  prev_local = λ x. none;
  next_local = λ x. none;
  heads = λ d. none;
  tails = λ d. none;
  seq_local = λ x. 0;
  quota = λ d. none;
  subscribers = [];
}

abbrev pub origin_of : ℕ → Journal → Bytes
origin_of e j = (j.entry e).origin

abbrev pub put_dn : Bytes → Option ℕ → (Bytes → Option ℕ) → Bytes → Option ℕ
put_dn d v f d' = if bytes_eq d d' then v else f d'

abbrev pub put_seq : ℕ → ℕ → (ℕ → ℕ) → ℕ → ℕ
put_seq x v f y = if x == y then v else f y

-- The local list of a DN, as the four places that hold it.
unfoldable pub local_links : Bytes → Journal → Links
local_links d j = record {
  prev = j.prev_local;
  next = j.next_local;
  head = j.heads d;
  tail = j.tails d;
}

unfoldable pub set_local_links : Bytes → Links → Journal → Journal
set_local_links d l j = record j {
  prev_local = l.prev;
  next_local = l.next;
  heads = put_dn d l.head j.heads;
  tails = put_dn d l.tail j.tails;
}

unfoldable pub unlink : ℕ → Journal → Journal
unlink e j =
    let d = origin_of e j in
    set_local_links d (cut e (local_links d j)) (record j { global = cut e j.global })

-- "Create quota if necessary."
unfoldable pub create_quota : Bytes → (Bytes → Option ℕ) → Bytes → Option ℕ
create_quota d quota = elim (quota d) [ none ↦ put_dn d (some 8192) quota | some q ↦ quota ]

-- "calculate seqLocal".
unfoldable pub next_seq : Bytes → Journal → ℕ
next_seq d j = elim (j.tails d) [ none ↦ 0 | some t ↦ (j.seq_local t + 1) % 2 ^ 64 ]

-- "Insert at head in local linked list, calculate seqLocal, set pointers."
unfoldable pub insert_local : ℕ → Bytes → Journal → Journal
insert_local e d j =
    set_local_links d (push e (local_links d j))
      (record j { seq_local = put_seq e (next_seq d j) j.seq_local })

-- "Keep popping elements off the head of the local linked list until quota is not violated."
unfoldable pub pop_excess : ℕ → Option ℕ → Journal → Journal
pop_excess zero cur j = j
pop_excess (suc left) none j = j
pop_excess (suc left) (some el) j = pop_excess left (j.next_local el) (unlink el j)

-- The length of a local list by the numbers at its ends.
unfoldable pub count_local : ℕ → ℕ → ℕ
count_local newest oldest = ((newest + (2 ^ 64 - oldest)) % 2 ^ 64 + 1) % 2 ^ 64

-- "Apply quota to the local linked list that this entry got inserted to"; `none` is the panic on a
-- nil pointer.
unfoldable pub apply_quota : Bytes → Journal → Option Journal
apply_quota d j = elim (j.quota d) [
  | none ↦ none
  | some max ↦ elim (j.tails d) [
    | none ↦ none
    | some t ↦ elim (j.heads d) [
      | none ↦ none
      | some h ↦
          let count = count_local (j.seq_local t) (j.seq_local h) in
          some (if ltb max count then pop_excess (count - max) (j.heads d) j else j)
    ]
  ]
]

unfoldable pub append : ℕ → Journal → Option Journal
append e j =
    let d = origin_of e j in
    apply_quota d
      (insert_local e d (record j { global = push e j.global; quota = create_quota d j.quota }))
