-- ===== src/LineBuffer.antt =====
-- osbase/logbuffer/linebuffer.go: a writer that cuts its input into lines of bounded length and
-- hands each completed line to a callback. Bytes are numbers, the callback acts on a state `S`.
pub mod Bytes
pub mod Chunks
use monogon.Prelude.{
  ℕ, zero, suc, ◌+◌, ◌-◌, Bool, true, false, List, [], ◌∷◌, ◌++◌, Option, none, some, length, take,
  drop, ltb, index_byte, ◌==◌, if◌then◌else◌,
}

-- A stored line and the length that it had before it was cut.
pub record Line : Type 0 where
  pub bytes : List ℕ
  pub original_length : ℕ

unfoldable pub is_truncated : Line → Bool
is_truncated l = ltb (length l.bytes) l.original_length

-- The bytes of "...".
abbrev pub dots : List ℕ
dots = b'.' ∷ b'.' ∷ b'.' ∷ []

unfoldable pub to_text : Line → List ℕ
unfolding is_truncated
to_text l = if is_truncated l then l.bytes ++ dots else l.bytes

pub record LineBuffer : Type 0 where
  pub max_line_length : ℕ
  pub cur : List ℕ
  pub len : ℕ
  pub closed : Bool

pub new_line_buffer : ℕ → LineBuffer
new_line_buffer n = record { max_line_length = n; cur = []; len = 0; closed = false }

pub write_limited : LineBuffer → List ℕ → LineBuffer
write_limited s input =
    let room = s.max_line_length - length s.cur in
    let kept =
      if ltb s.max_line_length (length s.cur + length input) then take room input else input in
    record s { cur = s.cur ++ kept; len = s.len + length input }

abbrev pub newline : ℕ
newline = 10

-- What a call of `Write` or `Close` reports.
pub data Reply : Type 0 where
  written : ℕ → Reply
  closed_ok already_closed : Reply

module _ {ℓ} {S : Type ℓ} (cb : Line → S → S) where
  pub commit_line : LineBuffer × S → LineBuffer × S
  commit_line (s, e) =
      (record s { cur = []; len = 0 }, cb (record { bytes = s.cur; original_length = s.len }) e)

  -- The loop of `Write` at a position: `rest` is what stands from there on.
  pub write_loop : ℕ → ℕ → List ℕ → LineBuffer × S → LineBuffer × S
  write_loop zero total rest p = p
  write_loop (suc fuel) total rest (s, e) = elim (index_byte newline rest) [
    | none ↦ (write_limited s rest, e)
    | some k ↦
        let p = commit_line (write_limited s (take k rest), e) in
        let more = write_loop fuel total (drop (suc k) rest) p in if k == total - 1 then p else more
  ]

  pub write : List ℕ → LineBuffer × S → (LineBuffer × S) × Reply
  write input (s, e) =
      if s.closed
      then ((s, e), already_closed)
      else (write_loop (suc (length input)) (length input) input (s, e), written (length input))

  pub close : LineBuffer × S → (LineBuffer × S) × Reply
  close (s, e) = if s.closed then ((s, e), already_closed) else (
    (if ltb 0 s.len
        then commit_line (record s { closed = true }, e)
        else (record s { closed = true }, e)),
    closed_ok,
  )
