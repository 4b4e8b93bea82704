-- ===== src/LineReader.antt =====
-- bazaar_compute_node/core/utils/line_reader.py: `UnlimitedLineReader`. The stream that it reads
-- from is a parameter: the list of the chunks that the calls of `read` still return, after which
-- they return `b""`, the end of the stream. A byte is a number.
pub mod Lines
mod Tests
use bazaar_compute_node.Prelude.{
  ℕ, ◌+◌, Bool, true, false, Option, none, some, List, [], ◌∷◌, ◌++◌, ◌==◌, take, drop,
  if◌then◌else◌,
}

abbrev pub Bytes : Type 0
Bytes = List ℕ

abbrev pub Stream : Type 0
Stream = List Bytes

pub record LineReader : Type 0 where
  pub reader : Stream
  pub buffer : Bytes
  pub eof : Bool

abbrev pub newline : ℕ
newline = 10

-- `UnlimitedLineReader.__init__`
unfoldable pub new_reader : Stream → LineReader
new_reader reader = record { reader = reader; buffer = []; eof = false }

-- `find`, with `none` for -1.
unfoldable pub find : ℕ → Bytes → Option ℕ
find b [] = none
find b (c ∷ cs) =
    let rest = find b cs in
    if c == b then some 0 else elim rest [ none ↦ none | some k ↦ some (k + 1) ]

-- The two early returns in a round of the loop, by what `find` says, and `none` if it goes on.
unfoldable pub line_ready : Option ℕ → Bytes → Bool → Stream → Option (Bytes × LineReader)
line_ready (some found) buffer eof reader =
    let boundary = found + 1 in
    some
      (take boundary buffer, record { reader = reader; buffer = drop boundary buffer; eof = eof })
line_ready none buffer eof reader =
    if eof then some (buffer, record { reader = reader; buffer = []; eof = eof }) else none

-- The loop of `readline`, by the chunks that are left. Its last round returns what there is.
unfoldable pub readline_loop : Stream → Bytes → Bool → Bytes × LineReader
readline_loop [] buffer eof = elim (line_ready (find newline buffer) buffer eof []) [
  | some out ↦ out
  | none ↦ (buffer, record { reader = []; buffer = []; eof = true })
]
readline_loop ([] ∷ reader) buffer eof =
    elim (line_ready (find newline buffer) buffer eof ([] ∷ reader)) [
      | some out ↦ out
      | none ↦ (buffer, record { reader = reader; buffer = []; eof = true })
    ]
readline_loop ((c ∷ cs) ∷ reader) buffer eof =
    let next = readline_loop reader (buffer ++ (c ∷ cs)) eof in
    elim (line_ready (find newline buffer) buffer eof ((c ∷ cs) ∷ reader)) [
      | some out ↦ out
      | none ↦ next
    ]

-- `UnlimitedLineReader.readline`
unfoldable pub readline : LineReader → Bytes × LineReader
readline r = readline_loop r.reader r.buffer r.eof
