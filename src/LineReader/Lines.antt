-- ===== src/LineReader/Lines.antt =====
-- `readline` against a description of lines that knows nothing of chunks and of the buffer.
use bazaar_compute_node.Prelude.{
  ℕ, zero, suc, ◌+◌, ◌<◌, length, length-append, ◌≡◌, ◌≢◌, inl, inr, refl, sym, ◌∙◌, ap, arith,
  Bool, true, none, some, some_inj, List, [], ◌∷◌, ◌++◌, append_assoc, append-nil, ◌==◌, take, drop,
  take-cons, drop-cons, take-zero, drop-zero, if◌then◌else◌, Bool-cases, Option-cases,
}
use bazaar_compute_node.LineReader.{
  Bytes, Stream, LineReader, newline, find, line_ready, readline_loop, readline,
}

-- The first line of a sequence of bytes, its newline with it, and the bytes after it.
pub first_line : Bytes → Bytes × Bytes
first_line [] = ([], [])
first_line (c ∷ cs) =
    let rest = first_line cs in if c == newline then (c ∷ [], cs) else (c ∷ rest.0, rest.1)

-- All bytes that a stream still brings.
unfoldable pub concat : Stream → Bytes
concat [] = []
concat (c ∷ s) = c ++ concat s

-- All bytes that a reader has not handed out.
abbrev pub unread : LineReader → Bytes
unread r = r.buffer ++ concat r.reader

-- `read` returns `b""` only at the end, and the reader has not seen the end before it.
abbrev pub Chunks : Stream → Type 0
Chunks [] = Unit
Chunks (c ∷ s) = (c ≢ []) × Chunks s

abbrev pub IsValid : LineReader → Type 0
IsValid r = Chunks r.reader × (r.eof ≡ true → r.reader ≡ [])

-- A line ends in the first chunk that has a newline.
found_line :
    (b t : Bytes) (k : ℕ)
    → find newline b ≡ some k
    → first_line (b ++ t) ≡ (take (k + 1) b, drop (k + 1) b ++ t)
unfolding find first_line
found_line [] t k h = absurd (cc h)
found_line (c ∷ cs) t k h = elim (Bool-cases (c == newline)) [
  | inl here ↦
      let at_0 : 0 ≡ k = some_inj (rw here at h) in
      rw (here, ← at_0, take-cons, drop-cons, take-zero, drop-zero) refl
  | inr ne ↦ elim (Option-cases (find newline cs)) [
    | inl nowhere ↦ absurd (cc (rw (ne, nowhere) at h))
    | inr (j, there) ↦
        let at_suc : j + 1 ≡ k = some_inj (rw (ne, there) at h) in
        rw (ne, ← at_suc, take-cons, drop-cons, found_line cs t j there) refl
  ]
]

unfound_line :
    (b t : Bytes)
    → find newline b ≡ none
    → first_line (b ++ t) ≡ (b ++ (first_line t).0, (first_line t).1)
unfolding find first_line
unfound_line [] t h = refl
unfound_line (c ∷ cs) t h = elim (Bool-cases (c == newline)) [
  | inl here ↦ absurd (cc (rw here at h))
  | inr ne ↦ elim (Option-cases (find newline cs)) [
    | inl nowhere ↦ rw (ne, unfound_line cs t nowhere) refl
    | inr (j, there) ↦ absurd (cc (rw (ne, there) at h))
  ]
]

-- What a call handed out, against the bytes that were there.
record Reads (bytes : Bytes) (out : Bytes × LineReader) : Type 0 where
  line : out.0 ≡ (first_line bytes).0
  rest : unread out.1 ≡ (first_line bytes).1
  valid : IsValid out.1

found-Reads :
    (s : Stream) (b : Bytes) (e : Bool) (k : ℕ)
    → Chunks s
    → (e ≡ true → s ≡ [])
    → find newline b ≡ some k
    → Reads
        (b ++ concat s)
        (take (k + 1) b, record { reader = s; buffer = drop (k + 1) b; eof = e })
found-Reads s b e k c v h = record {
  line = rw (found_line b (concat s) k h) refl;
  rest = rw (found_line b (concat s) k h) refl;
  valid = (c, v);
}

-- The stream is at its end.
last-Reads :
    (b : Bytes) (e : Bool)
    → find newline b ≡ none
    → Reads (b ++ []) (b, record { reader = []; buffer = []; eof = e })
unfolding first_line concat
last-Reads b e h = record {
  line = rw (unfound_line b [] h, append-nil) refl;
  rest = rw (unfound_line b [] h) refl;
  valid = (tt, λ p. refl);
}

loop-Reads :
    (s : Stream) (b : Bytes) (e : Bool)
    → Chunks s
    → (e ≡ true → s ≡ [])
    → Reads (b ++ concat s) (readline_loop s b e)
unfolding readline_loop line_ready concat
loop-Reads [] b e c v = elim (Option-cases (find newline b)) [
  | inr (k, there) ↦ rw (readline_loop, there) (found-Reads [] b e k c v there)
  | inl nowhere ↦ elim (Bool-cases e) [
    | inl ended ↦ rw (readline_loop, nowhere, ended) (last-Reads b true nowhere)
    | inr open_ ↦ rw (readline_loop, nowhere, open_) (last-Reads b true nowhere)
  ]
]
loop-Reads ([] ∷ s) b e c v = absurd (c.0 refl)
loop-Reads ((x ∷ xs) ∷ s) b e c v = elim (Option-cases (find newline b)) [
  | inr (k, there) ↦ rw (readline_loop, there) (found-Reads ((x ∷ xs) ∷ s) b e k c v there)
  | inl nowhere ↦ elim (Bool-cases e) [
    | inl ended ↦ absurd (cc (v ended))
    | inr open_ ↦
        rw (readline_loop, nowhere, open_, ← append_assoc)
          (loop-Reads s (b ++ (x ∷ xs)) e c.1 (λ h. absurd (cc (open_, h))))
  ]
]

-- `readline` hands out the first line of all bytes that are still to come, whatever the chunks in
-- which they come, and leaves exactly the bytes after it.
pub readline-first_line :
    (r : LineReader)
    → IsValid r
    → ((readline r).0 ≡ (first_line (unread r)).0)
      × (unread (readline r).1 ≡ (first_line (unread r)).1)
      × IsValid (readline r).1
unfolding readline
readline-first_line r v =
    let x = loop-Reads r.reader r.buffer r.eof v.0 v.1 in (x.line, x.rest, x.valid)

first_line-append : (bs : Bytes) → (first_line bs).0 ++ (first_line bs).1 ≡ bs
unfolding first_line
first_line-append [] = refl
first_line-append (c ∷ cs) = elim (Bool-cases (c == newline)) [
  | inl here ↦ rw here refl
  | inr ne ↦ rw ne (ap (λ (xs : Bytes). c ∷ xs) (first_line-append cs))
]

-- A loop that reads lines until `b""`, in at most so many rounds.
unfoldable pub readlines : ℕ → LineReader → List Bytes
readlines zero r = []
readlines (suc n) r =
    let rest = readlines n (readline r).1 in
    elim (readline r).0 [ [] ↦ [] | c ∷ cs ↦ (c ∷ cs) ∷ rest ]

first_line-nil : (bs : Bytes) → (first_line bs).0 ≡ [] → bs ≡ []
unfolding first_line
first_line-nil [] h = refl
first_line-nil (c ∷ cs) h = elim (Bool-cases (c == newline)) [
  | inl here ↦ absurd (cc (rw here at h))
  | inr ne ↦ absurd (cc (rw ne at h))
]

line_then_rest : (r : LineReader) → IsValid r → (readline r).0 ++ unread (readline r).1 ≡ unread r
line_then_rest r v =
    let (line, rest, valid) = readline-first_line r v in
    rw (line, rest) (first_line-append (unread r))

-- Reading lines until the empty one takes no more rounds than there are bytes, and one; the lines
-- together are all bytes, none lost and none read twice.
pub readlines-concat :
    (n : ℕ) (r : LineReader) → IsValid r → length (unread r) < n → concat (readlines n r) ≡ unread r
unfolding readlines concat
readlines-concat zero r v h = absurd (omega arith)
readlines-concat (suc n) r v h =
    go (readline r).0 refl (readlines-concat n (readline r).1 (readline-first_line r v).2)
  where
    go :
        (line : Bytes)
        → (readline r).0 ≡ line
        → (length (unread (readline r).1) < n
            → concat (readlines n (readline r).1) ≡ unread (readline r).1)
        → concat (elim line [ [] ↦ [] | c ∷ cs ↦ (c ∷ cs) ∷ readlines n (readline r).1 ]) ≡ unread r
    go [] p later = sym (first_line-nil (unread r) (sym (readline-first_line r v).0 ∙ p))
    go (c ∷ cs) p later =
        let whole : (c ∷ cs) ++ unread (readline r).1 ≡ unread r =
          ap (λ (xs : Bytes). xs ++ unread (readline r).1) (sym p) ∙ line_then_rest r v in
        ap (λ (xs : Bytes). (c ∷ cs) ++ xs)
          (later (omega (arith, ap length whole, length-append (c ∷ cs) (unread (readline r).1))))
        ∙ whole
