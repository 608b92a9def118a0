-- ===== src/Logtree/Linked.antt =====
-- osbase/logtree/journal.go and journal_entry.go: a doubly linked list, as the global one and the
-- ones of each DN are kept, with the statements that push an entry and that cut one out.
pub mod Chain
pub mod Cutting
use monogon.Prelude.{ℕ, Bool, true, false, Option, none, some, if◌then◌else◌, ◌==◌}

pub record Links : Type 0 where
  pub prev : ℕ → Option ℕ
  pub next : ℕ → Option ℕ
  pub head : Option ℕ
  pub tail : Option ℕ

abbrev pub points : Option ℕ → ℕ → Bool
points none y = false
points (some x) y = x == y

abbrev pub put : ℕ → Option ℕ → (ℕ → Option ℕ) → ℕ → Option ℕ
put x v f y = if x == y then v else f y

-- `p.f = v` where the pointer `p` may be nil.
abbrev pub put_at : Option ℕ → Option ℕ → (ℕ → Option ℕ) → ℕ → Option ℕ
put_at p v f y = if points p y then v else f y

abbrev pub or_else : Option ℕ → Option ℕ → Option ℕ
or_else none o = o
or_else (some x) o = some x

-- "Insert at head in global linked list, set pointers."
unfoldable pub push : ℕ → Links → Links
push e l = record {
  next = put_at l.tail (some e) (put e none l.next);
  prev = put e l.tail l.prev;
  tail = some e;
  head = or_else l.head (some e);
}

-- "Unlink from the global linked list.", "Update journal head/tail pointers."
unfoldable pub cut : ℕ → Links → Links
cut e l = record {
  next = put_at (l.prev e) (l.next e) l.next;
  prev = put_at (l.next e) (l.prev e) l.prev;
  head = if points l.head e then l.next e else l.head;
  tail = if points l.tail e then l.prev e else l.tail;
}
