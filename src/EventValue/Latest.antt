-- ===== src/EventValue/Latest.antt =====
-- osbase/event/memory/memory.go: what a watcher receives, against the events of its value.
use monogon.Prelude.{Bool, Option, none, some, if◌then◌else◌, false}
use monogon.EventValue.{GetResult, waits, received}
use monogon.EventValue.Serving.{View}

module _ {T : Type 0} where
  abbrev pub unseen : View T
  unseen = record { latest = none; owed = none; busy = false }

  abbrev pub passing : (T → Bool) → Option T → GetResult T
  passing predicate none = waits
  passing predicate (some v) = if predicate v then received v else waits
