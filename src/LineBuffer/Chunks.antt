-- ===== src/LineBuffer/Chunks.antt =====
-- How a writer sees the line buffer: the cut of the input into calls of `Write` does not matter,
-- each line reaches the callback once, in order and cut to the limit, and `Close` is final.
use monogon.Prelude.{
  ℕ, ◌≡◌, refl, ◌∙◌, false, List, [], ◌∷◌, ◌++◌, length, take, ltb, if◌then◌else◌, arith, inl, inr,
  Bool-cases, All, NotByte,
}
use monogon.LineBuffer.{
  Line, LineBuffer, new_line_buffer, write_limited, newline, commit_line, write, close, written,
  closed_ok, already_closed,
}
use monogon.LineBuffer.Bytes.{
  Fits, feed_all, feed_all-append, feed_all-Fits, feed_all-closed, write-feed_all, feed_all-split,
  write_limited_lem, write_closed, feed_all-nil,
}

-- A line as it is stored under a limit.
pub cut_line : ℕ → List ℕ → Line
cut_line limit bs = record { bytes = take limit bs; original_length = length bs }

-- The lines, each with its newline.
pub unlines : List (List ℕ) → List ℕ
unlines [] = []
unlines (l ∷ ls) = l ++ newline ∷ unlines ls

new_line_buffer-Fits : (limit : ℕ) → Fits (new_line_buffer limit)
unfolding new_line_buffer
new_line_buffer-Fits limit = omega arith

module _ {ℓ} {S : Type ℓ} (cb : Line → S → S) where
  -- The callback on each line in turn.
  unfoldable pub deliver : ℕ → List (List ℕ) → S → S
  deliver limit [] e = e
  deliver limit (l ∷ ls) e = deliver limit ls (cb (cut_line limit l) e)

  commit_line-whole :
      (limit : ℕ) (l : List ℕ) (e : S)
      → commit_line cb (write_limited (new_line_buffer limit) l, e)
        ≡ (new_line_buffer limit, cb (cut_line limit l) e)
  unfolding commit_line new_line_buffer cut_line
  commit_line-whole limit l e =
      let s = new_line_buffer limit in rw (write_limited_lem s l (omega arith)) (ground arith)

  -- Two calls of `Write` leave the buffer and the callback's state as one call with both inputs.
  pub write-append :
      (xs ys : List ℕ) (p : LineBuffer × S)
      → Fits p.0
      → (write cb ys (write cb xs p).0).0 ≡ (write cb (xs ++ ys) p).0
  write-append xs ys p h = elim (Bool-cases p.0.closed) [
    | inl shut ↦
        rw (write_closed cb xs p shut, write_closed cb ys p shut, write_closed cb (xs ++ ys) p shut)
    | inr open_now ↦
        let q = feed_all cb p xs in
        let still : q.0.closed ≡ false = feed_all-closed cb p xs ∙ open_now in
        rw (
          write-feed_all cb xs p h open_now,
          write-feed_all cb ys q (feed_all-Fits cb p xs h) still,
          write-feed_all cb (xs ++ ys) p h open_now,
          feed_all-append cb p xs ys,
        )
  ]

  feed_all-unlines :
      (limit : ℕ) (ls : List (List ℕ)) (e : S)
      → All (All (NotByte newline)) ls
      → feed_all cb (new_line_buffer limit, e) (unlines ls)
        ≡ (new_line_buffer limit, deliver limit ls e)
  unfolding unlines deliver
  feed_all-unlines limit [] e h = feed_all-nil cb _
  feed_all-unlines limit (l ∷ ls) e h =
      rw
        (
          feed_all-split cb (new_line_buffer limit) e l (unlines ls) (new_line_buffer-Fits limit)
              h.0,
          commit_line-whole limit l e,
        )
        (feed_all-unlines limit ls (cb (cut_line limit l) e) h.1)

  -- A fresh buffer to which whole lines are written hands each of them to the callback, in order
  -- and cut to the limit, and is fresh again.
  pub write-unlines :
      (limit : ℕ) (ls : List (List ℕ)) (e : S)
      → All (All (NotByte newline)) ls
      → write cb (unlines ls) (new_line_buffer limit, e)
        ≡ ((new_line_buffer limit, deliver limit ls e), written (length (unlines ls)))
  write-unlines limit ls e h = rw (
    write-feed_all cb (unlines ls) (new_line_buffer limit, e) (new_line_buffer-Fits limit)
        (unfold new_line_buffer in refl),
    feed_all-unlines limit ls e h,
  )

  -- `Close` hands over what stands of an unfinished line, and from then on the buffer is inert.
  pub close_final :
      (s : LineBuffer) (e : S) (input : List ℕ)
      → s.closed ≡ false
      → let (p, reply) = close cb (s, e) in
        (reply ≡ closed_ok)
        × (p.1
            ≡ (if ltb 0 s.len then cb (record { bytes = s.cur; original_length = s.len }) e else e))
        × (write cb input p ≡ (p, already_closed))
        × (close cb p ≡ (p, already_closed))
  unfolding close write commit_line
  close_final s e input h = ground arith
