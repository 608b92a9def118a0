-- ===== src/Examples/Buffer.antt =====
-- A log buffer with two slots and lines of at most three bytes.
use monogon.Prelude.{
  ℕ, ◌≡◌, refl, false, List, [], ◌∷◌, ◌++◌, some, arith, map, if◌then◌else◌, ltb, length, All,
  NotByte, get_or, ◌%◌, ◌+◌, ◌<◌, ◌≤◌, zero, suc,
}
use monogon.LineBuffer.{
  Line, LineBuffer, newline, new_line_buffer, write, close, written, closed_ok, already_closed,
}
use monogon.LineBuffer.Chunks.{cut_line, unlines, deliver, write-append, write-unlines, close_final}
use monogon.LogBuffer.{
  push_line, LogBuffer, new, line_callback, read_lines, read_lines_truncated, zero_line,
}
use monogon.LogBuffer.History.{
  Holds, newest, push_line-Holds, full_text, read_lines-newest, read_lines_truncated-newest,
}
use monogon.LogBuffer.Pipe.{write-read_lines}

-- A callback that keeps all lines, the newest first.
abbrev collect : Line → List Line → List Line
collect l ls = l ∷ ls

abbrev two_lines : List (List ℕ)
two_lines = (1 ∷ 2 ∷ []) ∷ (3 ∷ 4 ∷ 5 ∷ 6 ∷ []) ∷ []

lines_clean : All (All (NotByte newline)) two_lines
lines_clean = ((refl, (refl, tt)), ((refl, (refl, (refl, (refl, tt)))), tt))

abbrev half_line : LineBuffer
half_line = record { max_line_length = 3; cur = 7 ∷ []; len = 1; closed = false }

write-append_example :
    (write collect (8 ∷ 10 ∷ []) (write collect (9 ∷ []) (half_line, [])).0).0
    ≡ (write collect (9 ∷ 8 ∷ 10 ∷ []) (half_line, [])).0
write-append_example = write-append collect (9 ∷ []) (8 ∷ 10 ∷ []) (half_line, []) (omega arith)

write-unlines_example :
    write collect (unlines two_lines) (new_line_buffer 3, [])
    ≡ ((new_line_buffer 3, deliver collect 3 two_lines []), written (length (unlines two_lines)))
write-unlines_example = write-unlines collect 3 two_lines [] lines_clean

close_final_example :
    let (p, reply) = close collect (half_line, []) in
    (reply ≡ closed_ok)
    × (p.1 ≡ (
        if ltb 0 half_line.len
        then (record { bytes = half_line.cur; original_length = half_line.len }) ∷ []
        else []))
    × (write collect (1 ∷ []) p ≡ (p, already_closed))
    × (close collect p ≡ (p, already_closed))
close_final_example = close_final collect half_line [] (1 ∷ []) refl

write-read_lines_example :
    (b : LogBuffer) × ((write line_callback (unlines two_lines) (new 2 3)).0
      ≡ (new_line_buffer 3, some b))
    × (read_lines b 1 ≡ newest 2 1 (map (cut_line 3) two_lines))
write-read_lines_example = write-read_lines 2 3 1 two_lines (omega arith) lines_clean

abbrev line : ℕ → Line
line n = record { bytes = n ∷ []; original_length = 5 }

-- A ring of two slots after three lines.
abbrev turned : LogBuffer
turned = record { content = line 3 ∷ line 2 ∷ []; count = 3 }

abbrev three : List Line
three = line 1 ∷ line 2 ∷ line 3 ∷ []

turned_recent :
    (i : ℕ) → i < 3 → 3 ≤ i + 2 → get_or turned.content (i % 2) zero_line ≡ get_or three i zero_line
turned_recent zero lt near = absurd (omega arith)
turned_recent (suc zero) lt near = refl
turned_recent (suc (suc zero)) lt near = refl
turned_recent (suc (suc (suc i))) lt near = absurd (omega arith)

turned-Holds : Holds turned three
turned-Holds = record { nonempty = omega arith; counted = refl; recent = turned_recent }

push_line-Holds_example :
    (b : LogBuffer) × (push_line (line 4) turned ≡ some b)
    × (length b.content ≡ 2)
    × Holds b (three ++ line 4 ∷ [])
push_line-Holds_example = push_line-Holds (line 4) turned three turned-Holds

read_lines-newest_example : read_lines turned 5 ≡ newest 2 5 three
read_lines-newest_example = read_lines-newest turned three 5 turned-Holds

read_lines_truncated-newest_example :
    read_lines_truncated turned 1 (1 ∷ []) ≡ map full_text (newest 2 1 three)
read_lines_truncated-newest_example =
    read_lines_truncated-newest turned three 1 (1 ∷ []) turned-Holds
