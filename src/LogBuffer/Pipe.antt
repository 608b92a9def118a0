-- ===== src/LogBuffer/Pipe.antt =====
-- The log buffer from end to end: what is written to it by `Write` and read by `ReadLines`.
use monogon.Prelude.{
  ℕ, ◌<◌, ◌≡◌, refl, ◌∙◌, ap, List, [], ◌∷◌, ◌++◌, map, some, length, replicate, arith, All,
  NotByte, length-replicate,
}
use mathlib.Core.List.{append-nil, append_assoc}
use monogon.LineBuffer.{Line, new_line_buffer, write, newline}
use monogon.LineBuffer.Chunks.{cut_line, unlines, deliver, write-unlines}
use monogon.LogBuffer.{LogBuffer, new, line_callback, read_lines, zero_line}
use monogon.LogBuffer.History.{
  Holds, newest, pushed, push_line-pushed, pushed-Holds, length-pushed, read_lines-newest,
}

-- The ring after a history of lines that come through the callback.
pushed_all : List Line → LogBuffer → LogBuffer
pushed_all [] b = b
pushed_all (l ∷ ls) b = pushed_all ls (pushed l b)

deliver-pushed_all :
    (limit : ℕ) (ls : List (List ℕ)) (b : LogBuffer)
    → 0 < length b.content
    → deliver line_callback limit ls (some b) ≡ some (pushed_all (map (cut_line limit) ls) b)
unfolding deliver pushed_all line_callback
deliver-pushed_all limit [] b h = refl
deliver-pushed_all limit (l ∷ ls) b h =
    let line = cut_line limit l in
    rw (push_line-pushed line b h)
      (deliver-pushed_all limit ls (pushed line b) (omega (arith, length-pushed line b)))

pushed_all-Holds :
    (ls : List Line) (b : LogBuffer) (history : List Line)
    → Holds b history
    → Holds (pushed_all ls b) (history ++ ls)
      × (length (pushed_all ls b).content ≡ length b.content)
unfolding pushed_all
pushed_all-Holds [] b history h = (rw append-nil h, refl)
pushed_all-Holds (l ∷ ls) b history h =
    let (held, size) =
      pushed_all-Holds ls (pushed l b) (history ++ l ∷ []) (pushed-Holds l b history h) in
    (rw append_assoc at held, size ∙ length-pushed l b)

abbrev empty_ring : ℕ → LogBuffer
empty_ring size = record { content = replicate size zero_line; count = 0 }

empty_ring-Holds : (size : ℕ) → 0 < size → Holds (empty_ring size) []
empty_ring-Holds size h = record {
  nonempty = omega (arith, length-replicate size zero_line);
  counted = refl;
  recent = λ i lt _. absurd (omega arith);
}

-- Write whole lines to a fresh buffer with a ring of at least one slot: no write panics, and
-- `ReadLines` then gives the newest of the lines, each cut to the limit, in order.
pub write-read_lines :
    (size limit n : ℕ) (ls : List (List ℕ))
    → 0 < size
    → All (All (NotByte newline)) ls
    → (b : LogBuffer) × ((write line_callback (unlines ls) (new size limit)).0
        ≡ (new_line_buffer limit, some b))
      × (read_lines b n ≡ newest size n (map (cut_line limit) ls))
unfolding new
write-read_lines size limit n ls pos clean =
    let b = empty_ring size in
    let lines = map (cut_line limit) ls in
    let (held, len) = pushed_all-Holds lines b [] (empty_ring-Holds size pos) in
    let full : length (pushed_all lines b).content ≡ size = len ∙ length-replicate size zero_line in
    (
      pushed_all lines b,
      rw (
        write-unlines line_callback limit ls (some b) clean,
        deliver-pushed_all limit ls b (omega (arith, length-replicate size zero_line)),
      ),
      read_lines-newest (pushed_all lines b) lines n held ∙ ap (λ s. newest s n lines) full,
    )
