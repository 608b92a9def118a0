-- ===== src/LogBuffer/History.antt =====
-- The ring refines the history of all lines ever stored: it holds the last of them.
use monogon.Prelude.{
  ℕ, zero, suc, ◌+◌, ◌-◌, ◌%◌, ◌≤◌, ◌<◌, min, ◌≡◌, ◌≢◌, refl, sym, ap, ◌∙◌, List, [], ◌∷◌, ◌++◌,
  map, some, length, get_or, set, replicate, drop, leb, ltb, ◌==◌, if◌then◌else◌, true, false,
  arith, inl, inr, Bool-cases, length-set, length-append, length-drop, length-replicate,
  get_or-set_self, get_or-set_ne, get_or-drop, get_or-append_left, get_or-append_end, eq_of_get_or,
}
use native.Mathlib.Nat.{mod-lt}
use mathlib.Core.Path.{fun_ext}
use monogon.LineBuffer.{Line, is_truncated, to_text}
use monogon.LogBuffer.{
  LogBuffer, zero_line, push_line, cap_to_content_length, read_loop, read_lines,
  read_lines_truncated,
}

-- The ring stands for a history of lines, oldest first.
pub record Holds (b : LogBuffer) (history : List Line) : Type 0 where
  pub nonempty : 0 < length b.content
  pub counted : b.count ≡ length history
  pub recent :
      (i : ℕ)
      → i < length history
      → length history ≤ i + length b.content
      → get_or b.content (i % length b.content) zero_line ≡ get_or history i zero_line

-- Two positions less than one turn apart have different slots.
mod_ne : (s i l : ℕ) → i < l → l < i + s → i % s ≢ l % s
mod_ne s i l lt near e = grind arith

get_or-replicate {ℓ} : {A : Type ℓ} (n i : ℕ) (a : A) → get_or (replicate n a) i a ≡ a
get_or-replicate zero i a = refl
get_or-replicate (suc n) zero a = refl
get_or-replicate (suc n) (suc i) a = get_or-replicate n i a

-- The slot of the k-th newest line.
abbrev slot : LogBuffer → ℕ → Line
slot b k = get_or b.content ((b.count - k) % length b.content) zero_line

-- The loop fills the positions that its rounds reach, and leaves the others.
get_or-read_loop {ℓ} :
    {A : Type ℓ} (f : Line → A) (d : A) (rounds i n : ℕ) (b : LogBuffer) (out : List A) (j : ℕ)
    → i + rounds ≡ n + 1
    → 0 < i
    → length out ≡ n
    → j < n
    → get_or (read_loop f rounds i n b out) j d
      ≡ (if leb (j + i) n then f (slot b (n - j)) else get_or out j d)
unfolding read_loop
get_or-read_loop f d zero i n b out j e pos len lt = ground arith
get_or-read_loop f d (suc rounds) i n b out j e pos len lt =
    let out' = set out (n - i) (f (slot b i)) in
    let ih =
      get_or-read_loop f d rounds (suc i) n b out' j (omega arith) (omega arith)
        (omega (arith, length-set out (n - i) (f (slot b i)))) lt in
    elim (Bool-cases (j == n - i)) [
      | inl here ↦
          let at : j ≡ n - i = ground arith in
          let back : n - j ≡ i = omega arith in
          let self : get_or out' j d ≡ f (slot b i) =
            rw at (get_or-set_self out (n - i) (f (slot b i)) d (omega arith)) in
          let low : leb (j + suc i) n ≡ false = ground arith in
          let high : leb (j + i) n ≡ true = ground arith in rw (high, back) (ih ∙ rw low self)
      | inr away ↦
          let ne : n - i ≢ j = ground arith in
          let same : leb (j + suc i) n ≡ leb (j + i) n = ground arith in
          ih ∙ rw (same, get_or-set_ne out (n - i) j (f (slot b i)) d ne)
    ]

length-read_loop {ℓ} :
    {A : Type ℓ} (f : Line → A) (rounds i n : ℕ) (b : LogBuffer) (out : List A)
    → length (read_loop f rounds i n b out) ≡ length out
unfolding read_loop
length-read_loop f zero i n b out = refl
length-read_loop f (suc rounds) i n b out =
    let v = f (slot b i) in
    length-read_loop f rounds (suc i) n b (set out (n - i) v) ∙ length-set out (n - i) v

-- The newest `n` of the lines that a ring of this size still has.
pub newest : ℕ → ℕ → List Line → List Line
newest size n history = drop (length history - min n (min size (length history))) history

cap_lem :
    (b : LogBuffer) (n : ℕ) → cap_to_content_length b n ≡ min n (min (length b.content) b.count)
unfolding cap_to_content_length
cap_lem b n = ground arith

module _ {ℓ} {A : Type ℓ} (f : Line → A) where
  get_or-map :
      (xs : List Line) (i : ℕ) (d : A) (z : Line)
      → i < length xs
      → get_or (map f xs) i d ≡ f (get_or xs i z)
  get_or-map [] i d z h = elim h [ ]
  get_or-map (x ∷ xs) zero d z h = refl
  get_or-map (x ∷ xs) (suc i) d z h = get_or-map xs i d z (omega arith)

  length-map : (xs : List Line) → length (map f xs) ≡ length xs
  length-map [] = refl
  length-map (x ∷ xs) = ap suc (length-map xs)

  -- A read of `m` lines that the ring still has gives the last `m` of the history.
  read_loop-newest :
      (b : LogBuffer) (history : List Line) (m : ℕ) (d : A)
      → Holds b history
      → m ≤ length history
      → m ≤ length b.content
      → read_loop f m 1 m b (replicate m d) ≡ map f (drop (length history - m) history)
  read_loop-newest b history m d h le_history le_size =
      let l = length history in
      let len_out = length-read_loop f m 1 m b (replicate m d) ∙ length-replicate m d in
      let len_spec = length-map (drop (l - m) history) ∙ length-drop (l - m) history in
      eq_of_get_or d _ _ (omega (arith, len_out, len_spec)) λ j lt.
        let lt_m : j < m = omega (arith, len_out) in
        let in_range : leb (j + 1) m ≡ true = ground arith in
        let index : b.count - (m - j) ≡ (l - m) + j = omega (arith, h.counted) in
        get_or-read_loop f d m 1 m b (replicate m d) j (omega arith) (omega arith)
          (length-replicate m d) lt_m
        ∙ rw (in_range, index, h.recent ((l - m) + j) (omega arith) (omega arith))
            (sym (
              get_or-map (drop (l - m) history) j d zero_line
                (omega (arith, length-drop (l - m) history))
              ∙ ap f (get_or-drop (l - m) j history zero_line)))

map_id : (xs : List Line) → map (λ l. l) xs ≡ xs
map_id [] = refl
map_id (x ∷ xs) = ap (◌∷◌ x) (map_id xs)

-- `ReadLines` returns the newest lines of the history in the order in which they came: as many as
-- were asked for, as were ever stored and as the ring has room for.
pub read_lines-newest :
    (b : LogBuffer) (history : List Line) (n : ℕ)
    → Holds b history
    → read_lines b n ≡ newest (length b.content) n history
unfolding read_lines newest
read_lines-newest b history n h =
    let m = cap_to_content_length b n in
    let e : m ≡ min n (min (length b.content) (length history)) = rw (← h.counted) (cap_lem b n) in
    read_loop-newest (λ l. l) b history m zero_line h (omega (arith, e)) (omega (arith, e))
    ∙ rw e (map_id _)

-- What the text of a line is to be.
abbrev pub full_text : Line → List ℕ
full_text l =
    if ltb (length l.bytes) l.original_length then l.bytes ++ b'.' ∷ b'.' ∷ b'.' ∷ [] else l.bytes

to_text-full_text : (l : Line) → to_text l ≡ full_text l
unfolding to_text is_truncated
to_text-full_text l = ground arith

-- `ReadLinesTruncated` returns the texts of the same lines as `ReadLines`, whatever ellipsis it is
-- given: a line that kept fewer bytes than it had ends in three dots, every other is as it was kept.
pub read_lines_truncated-newest :
    (b : LogBuffer) (history : List Line) (n : ℕ) (ellipsis : List ℕ)
    → Holds b history
    → read_lines_truncated b n ellipsis ≡ map full_text (newest (length b.content) n history)
unfolding read_lines_truncated newest
read_lines_truncated-newest b history n ellipsis h =
    let m = cap_to_content_length b n in
    let e : m ≡ min n (min (length b.content) (length history)) = rw (← h.counted) (cap_lem b n) in
    read_loop-newest to_text b history m [] h (omega (arith, e)) (omega (arith, e))
    ∙ rw (e, fun_ext to_text-full_text) refl

-- The ring after one more line.
pub pushed : Line → LogBuffer → LogBuffer
pushed line b = record {
  content = set b.content (b.count % length b.content) line;
  count = b.count + 1;
}

pub push_line-pushed :
    (line : Line) (b : LogBuffer) → 0 < length b.content → push_line line b ≡ some (pushed line b)
unfolding push_line pushed
push_line-pushed line b h = ground arith

pub length-pushed :
    (line : Line) (b : LogBuffer) → length (pushed line b).content ≡ length b.content
unfolding pushed
length-pushed line b = length-set b.content (b.count % length b.content) line

pushed_recent :
    (line : Line) (b : LogBuffer) (history : List Line) (i : ℕ)
    → Holds b history
    → i < length history + 1
    → length history + 1 ≤ i + length b.content
    → get_or (set b.content (b.count % length b.content) line) (i % length b.content) zero_line
      ≡ get_or (history ++ line ∷ []) i zero_line
pushed_recent line b history i h lt near = elim (Bool-cases (i == length history)) [
  | inl last ↦
      let at : i ≡ length history = ground arith in
      rw (at, h.counted, get_or-append_end history line zero_line)
        (get_or-set_self b.content _ line zero_line (mod-lt (length history) h.nonempty))
  | inr older ↦
      let before : i < length history = ground arith in
      rw (h.counted, get_or-append_left history (line ∷ []) i zero_line before)
        (get_or-set_ne b.content _ _ line zero_line
            (λ e. mod_ne (length b.content) i (length history) before (omega arith) (sym e))
          ∙ h.recent i before (omega arith))
]

pub pushed-Holds :
    (line : Line) (b : LogBuffer) (history : List Line)
    → Holds b history
    → Holds (pushed line b) (history ++ line ∷ [])
unfolding pushed
pushed-Holds line b history h =
    let size = length-set b.content (b.count % length b.content) line in
    let grown = length-append history (line ∷ []) in
    record {
      nonempty = omega (arith, size, h.nonempty);
      counted = omega (arith, grown, h.counted);
      recent = λ i lt near.
          rw size
            (pushed_recent line b history i h (omega (arith, grown)) (omega (arith, grown, size)));
    }

-- Storing a line: in a ring with room that counts a history and holds as many of its newest lines as
-- it has slots, it does not panic, the ring keeps its size, and it does so for the history with the
-- line at its end.
pub push_line-Holds :
    (line : Line) (b : LogBuffer) (history : List Line)
    → Holds b history
    → (b' : LogBuffer) × (push_line line b ≡ some b')
      × (length b'.content ≡ length b.content)
      × Holds b' (history ++ line ∷ [])
push_line-Holds line b history h = (
  pushed line b,
  push_line-pushed line b h.nonempty,
  length-pushed line b,
  pushed-Holds line b history h,
)
