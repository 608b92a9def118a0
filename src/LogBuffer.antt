-- ===== src/LogBuffer.antt =====
-- osbase/logbuffer/logbuffer.go: a ring of the last lines behind a line buffer. The embedded
-- LineBuffer is that of LineBuffer.antt, with `line_callback` for its callback. `none` is the
-- panic of a division by zero, in a ring of size 0. Locks are not modelled: each operation holds
-- the mutex from its first to its last step.
pub mod History
pub mod Pipe
use monogon.Prelude.{
  ℕ, zero, suc, ◌+◌, ◌-◌, ◌%◌, List, [], Option, none, some, length, get_or, set, replicate, ltb,
  ◌==◌, if◌then◌else◌,
}
use monogon.LineBuffer.{Line, LineBuffer, new_line_buffer, to_text}

pub record LogBuffer : Type 0 where
  pub content : List Line
  pub count : ℕ

-- What `make([]Line, size)` fills with.
abbrev pub zero_line : Line
zero_line = record { bytes = []; original_length = 0 }

pub new : ℕ → ℕ → LineBuffer × Option LogBuffer
new size max_line_length = (
  new_line_buffer max_line_length,
  some (record { content = replicate size zero_line; count = 0 }),
)

pub push_line : Line → LogBuffer → Option LogBuffer
push_line line b =
    if length b.content == 0
    then none
    else some
        (record { content = set b.content (b.count % length b.content) line; count = b.count + 1 })

pub line_callback : Line → Option LogBuffer → Option LogBuffer
line_callback line none = none
line_callback line (some b) = push_line line b

pub cap_to_content_length : LogBuffer → ℕ → ℕ
cap_to_content_length b n =
    let m = if ltb b.count n then b.count else n in
    if ltb (length b.content) m then length b.content else m

-- The loop `for i := 1; i <= n; i++` with the rounds left first; each round writes one slot.
pub read_loop {ℓ} : {A : Type ℓ} → (Line → A) → ℕ → ℕ → ℕ → LogBuffer → List A → List A
read_loop f zero i n b out = out
read_loop f (suc rounds) i n b out =
    read_loop f rounds (suc i) n b
      (set out (n - i) (f (get_or b.content ((b.count - i) % length b.content) zero_line)))

pub read_lines : LogBuffer → ℕ → List Line
read_lines b n =
    let m = cap_to_content_length b n in read_loop (λ l. l) m 1 m b (replicate m zero_line)

-- The ellipsis that the caller passes is not used: `Line.String` writes its own.
pub read_lines_truncated : LogBuffer → ℕ → List ℕ → List (List ℕ)
read_lines_truncated b n ellipsis =
    let m = cap_to_content_length b n in read_loop to_text m 1 m b (replicate m [])
