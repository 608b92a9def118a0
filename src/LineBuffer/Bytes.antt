-- ===== src/LineBuffer/Bytes.antt =====
-- The line buffer byte by byte: what one byte does, and that `Write` does it for each in turn.
use monogon.Prelude.{
  ℕ, zero, suc, ◌+◌, ◌-◌, ◌≤◌, ◌<◌, ◌≡◌, refl, ap, ◌∙◌, sym, true, false, List, [], ◌∷◌, ◌++◌,
  length, take, drop, ltb, ◌==◌, if◌then◌else◌, arith, inl, inr, Bool-cases, Option-cases,
  length-append, length-drop, All, ==_iff, index_byte, NotByte, index_byte-none, index_byte-some,
}
use mathlib.Core.List.{append-nil, append_assoc}
use monogon.LineBuffer.{
  Line, LineBuffer, write_limited, newline, commit_line, write_loop, write, written, already_closed,
}

-- A byte that is no newline is counted, and kept where the line has room.
pub push_byte : LineBuffer → ℕ → LineBuffer
push_byte s b = record s {
  cur = if ltb (length s.cur) s.max_line_length then s.cur ++ b ∷ [] else s.cur;
  len = s.len + 1;
}

pub push_all : LineBuffer → List ℕ → LineBuffer
push_all s [] = s
push_all s (b ∷ bs) = push_all (push_byte s b) bs

abbrev pub Fits : LineBuffer → Type 0
Fits s = length s.cur ≤ s.max_line_length

take_all : (n : ℕ) (xs : List ℕ) → length xs ≤ n → take n xs ≡ xs
take_all zero [] h = refl
take_all zero (x ∷ xs) h = absurd (omega arith)
take_all (suc n) [] h = refl
take_all (suc n) (x ∷ xs) h = ap (◌∷◌ x) (take_all n xs (omega arith))

pub write_limited_lem :
    (s : LineBuffer) (xs : List ℕ)
    → Fits s
    → write_limited s xs ≡ record s {
      cur = s.cur ++ take (s.max_line_length - length s.cur) xs;
      len = s.len + length xs;
    }
unfolding write_limited
write_limited_lem s xs h = ground (arith, take_all (s.max_line_length - length s.cur) xs)

pub push_byte-Fits : (s : LineBuffer) (b : ℕ) → Fits s → Fits (push_byte s b)
unfolding push_byte
push_byte-Fits s b h = ground (arith, length-append s.cur (b ∷ []))

pub write_limited-nil : (s : LineBuffer) → Fits s → write_limited s [] ≡ s
unfolding write_limited
write_limited-nil s h = ground (arith, append-nil s.cur)

-- The room left for a line, with one more byte in it.
room-suc : (m c : ℕ) → c < m → m - c ≡ suc (m - (c + 1))
room-suc m c h = omega arith

take-room-cons :
    (m : ℕ) (cur : List ℕ) (b : ℕ) (bs : List ℕ)
    → length cur ≤ m
    → cur ++ take (m - length cur) (b ∷ bs)
      ≡ (if ltb (length cur) m then cur ++ b ∷ [] else cur)
        ++ take (m - length (if ltb (length cur) m then cur ++ b ∷ [] else cur)) bs
take-room-cons m cur b bs h = elim (Bool-cases (ltb (length cur) m)) [
  | inl lt ↦
      let e = room-suc m (length cur) (ground arith) in
      rw (lt, length-append cur (b ∷ []), e)
        (sym (append_assoc cur (b ∷ []) (take (m - (length cur + 1)) bs)))
  | inr ge ↦ let e : m - length cur ≡ 0 = ground arith in rw (ge, e)
]

pub write_limited-cons :
    (s : LineBuffer) (b : ℕ) (bs : List ℕ)
    → Fits s
    → write_limited s (b ∷ bs) ≡ write_limited (push_byte s b) bs
unfolding push_byte
write_limited-cons s b bs h =
    rw (write_limited_lem s (b ∷ bs) h, write_limited_lem (push_byte s b) bs (push_byte-Fits s b h))
      (ground (arith, take-room-cons s.max_line_length s.cur b bs))

pub write_limited-push_all :
    (s : LineBuffer) (bs : List ℕ) → Fits s → write_limited s bs ≡ push_all s bs
unfolding push_all
write_limited-push_all s [] h = write_limited-nil s h
write_limited-push_all s (b ∷ bs) h =
    write_limited-cons s b bs h ∙ write_limited-push_all (push_byte s b) bs (push_byte-Fits s b h)

pub push_all-Fits : (s : LineBuffer) (bs : List ℕ) → Fits s → Fits (push_all s bs)
unfolding push_all
push_all-Fits s [] h = h
push_all-Fits s (b ∷ bs) h = push_all-Fits (push_byte s b) bs (push_byte-Fits s b h)

module _ {ℓ} {S : Type ℓ} (cb : Line → S → S) where
  -- What one byte of input does.
  pub feed : LineBuffer × S → ℕ → LineBuffer × S
  feed (s, e) b = if b == newline then commit_line cb (s, e) else (push_byte s b, e)

  pub feed_all : LineBuffer × S → List ℕ → LineBuffer × S
  feed_all p [] = p
  feed_all p (b ∷ bs) = feed_all (feed p b) bs

  pub feed_all-append :
      (p : LineBuffer × S) (xs ys : List ℕ) → feed_all p (xs ++ ys) ≡ feed_all (feed_all p xs) ys
  unfolding feed_all
  feed_all-append p [] ys = refl
  feed_all-append p (x ∷ xs) ys = feed_all-append (feed p x) xs ys

  pub feed_all-line :
      (s : LineBuffer) (e : S) (bs : List ℕ)
      → All (NotByte newline) bs
      → feed_all (s, e) bs ≡ (push_all s bs, e)
  unfolding feed_all push_all feed
  feed_all-line s e [] h = refl
  feed_all-line s e (b ∷ bs) h = rw (h.0) (feed_all-line (push_byte s b) e bs h.1)

  commit_line-Fits : (p : LineBuffer × S) → Fits (commit_line cb p).0
  unfolding commit_line
  commit_line-Fits (s, e) = omega arith

  pub feed-Fits : (p : LineBuffer × S) (b : ℕ) → Fits p.0 → Fits (feed p b).0
  unfolding feed
  feed-Fits (s, e) b h = ground (arith, commit_line-Fits (s, e), push_byte-Fits s b)

  pub feed_all-Fits : (p : LineBuffer × S) (bs : List ℕ) → Fits p.0 → Fits (feed_all p bs).0
  unfolding feed_all
  feed_all-Fits p [] h = h
  feed_all-Fits p (b ∷ bs) h = feed_all-Fits (feed p b) bs (feed-Fits p b h)

  feed-newline : (p : LineBuffer × S) → feed p newline ≡ commit_line cb p
  unfolding feed
  feed-newline (s, e) = refl

  -- A line and its newline.
  pub feed_all-split :
      (s : LineBuffer) (e : S) (xs ys : List ℕ)
      → Fits s
      → All (NotByte newline) xs
      → feed_all (s, e) (xs ++ newline ∷ ys) ≡ feed_all (commit_line cb (write_limited s xs, e)) ys
  unfolding feed_all
  feed_all-split s e xs ys h clean = rw (
    feed_all-append (s, e) xs (newline ∷ ys),
    feed_all-line s e xs clean,
    write_limited-push_all s xs h,
    feed-newline (push_all s xs, e),
  )

  length_zero : (xs : List ℕ) → length xs ≡ 0 → xs ≡ []
  length_zero [] h = refl
  length_zero (x ∷ xs) h = absurd (omega arith)

  -- The loop does what its bytes do one by one, if it has a round for each of them.
  pub write_loop-feed_all :
      (fuel total : ℕ) (rest : List ℕ) (s : LineBuffer) (e : S)
      → length rest < fuel
      → length rest ≤ total
      → Fits s
      → write_loop cb fuel total rest (s, e) ≡ feed_all (s, e) rest
  unfolding write_loop
  write_loop-feed_all zero total rest s e f t h = absurd (omega arith)
  write_loop-feed_all (suc fuel) total rest s e f t h =
      elim (Option-cases (index_byte newline rest)) [
        | inl gone ↦
            rw (gone, write_loop, feed_all-line s e rest (index_byte-none newline rest gone))
              (ap (λ z. (z, e)) (write_limited-push_all s rest h))
        | inr (k, found) ↦
            let (split, clean, lt) = index_byte-some newline rest k found in
            let tail = drop (suc k) rest in
            let p = commit_line cb (write_limited s (take k rest), e) in
            let spec : feed_all (s, e) rest ≡ feed_all p tail =
              ap (feed_all (s, e)) split ∙ feed_all-split s e (take k rest) tail h clean in
            let fits : Fits p.0 = commit_line-Fits (write_limited s (take k rest), e) in
            let len = length-drop (suc k) rest in
            let ih =
              write_loop-feed_all fuel total tail p.0 p.1 (omega (arith, len)) (omega (arith, len))
                fits in
            rw (found, write_loop, spec)
              (elim (Bool-cases (k == total - 1)) [
                | inl last ↦
                    let empty : tail ≡ [] =
                      length_zero tail (omega (arith, len, (==_iff k (total - 1)).0 last)) in
                    rw (last, empty) (unfold feed_all in refl)
                | inr more ↦ rw more ih
              ])
      ]

  -- `Write` on an open buffer handles its bytes one by one and reports their number.
  pub write-feed_all :
      (input : List ℕ) (p : LineBuffer × S)
      → Fits p.0
      → p.0.closed ≡ false
      → write cb input p ≡ (feed_all p input, written (length input))
  unfolding write
  write-feed_all input (s, e) h o =
      let loop =
        write_loop-feed_all (suc (length input)) (length input) input s e (omega arith)
          (omega arith) h in
      ground arith

  pub write_closed :
      (input : List ℕ) (p : LineBuffer × S)
      → p.0.closed ≡ true
      → write cb input p ≡ (p, already_closed)
  unfolding write
  write_closed input (s, e) o = ground arith

  pub feed_all-nil : (p : LineBuffer × S) → feed_all p [] ≡ p
  unfolding feed_all
  feed_all-nil p = refl

  pub feed_all-closed : (p : LineBuffer × S) (bs : List ℕ) → (feed_all p bs).0.closed ≡ p.0.closed
  unfolding feed_all feed push_byte commit_line
  feed_all-closed p [] = refl
  feed_all-closed (s, e) (b ∷ bs) = ground (arith, feed_all-closed (feed (s, e) b) bs)
