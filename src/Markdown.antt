-- ===== src/Markdown.antt =====
-- bazaar_compute_node/core/utils/markdown.py: how a long Markdown text is split to fit a provider's
-- limit, and a code fence that a cut falls into closed and opened again. A text is the list of its
-- code points. `measure` is an argument, any function of a text.
pub mod Fits
mod Slices
pub mod Limits
pub mod Pieces
mod Tests
use bazaar_compute_node.Prelude.{
  ℕ, zero, suc, ◌+◌, ◌-◌, ◌/◌, ◌≤◌, max, Bool, true, false, not, ◌&&◌, ◌||◌, Option, none, some,
  List, [], ◌∷◌, ◌++◌, length, take, drop, ltb, leb, ◌==◌, is_none, if◌then◌else◌,
}
use bazaar_compute_node.Prelude.Result.{Result, ok, err}

abbrev pub Text : Type 0
Text = List ℕ

-- `Fence`
pub record Fence : Type 0 where
  pub marker : Text
  pub opening : Text

-- `str.isspace` of one character.
unfoldable pub is_space : ℕ → Bool
is_space c =
    (leb 9 c && leb c 13)
    || (leb 28 c && leb c 32)
    || c == 0x85
    || c == 0xA0
    || c == 0x1680
    || (leb 0x2000 c && leb c 0x200A)
    || c == 0x2028
    || c == 0x2029
    || c == 0x202F
    || c == 0x205F
    || c == 0x3000

-- The characters that end a line for `str.splitlines`.
unfoldable pub is_break : ℕ → Bool
is_break c =
    (leb 10 c && leb c 13) || (leb 28 c && leb c 30) || c == 0x85 || c == 0x2028 || c == 0x2029

abbrev pub is_newline : ℕ → Bool
is_newline c = c == 10 || c == 13

-- Whether a text begins with "\n".
abbrev pub at_linefeed : Text → Bool
at_linefeed [] = false
at_linefeed (c ∷ cs) = c == 10

-- A character in front of the first line.
unfoldable pub onto_first : ℕ → List Text → List Text
onto_first c [] = (c ∷ []) ∷ []
onto_first c (l ∷ ls) = (c ∷ l) ∷ ls

-- `str.splitlines(keepends=True)`; "\r\n" is one end of line.
unfoldable pub splitlines : Text → List Text
splitlines [] = []
splitlines (c ∷ cs) =
    let rest = splitlines cs in
    if is_break c && not (c == 13 && at_linefeed cs) then (c ∷ []) ∷ rest else onto_first c rest

-- `endswith(("\n", "\r"))`
unfoldable pub ends_line : Text → Bool
ends_line [] = false
ends_line (c ∷ []) = is_newline c
ends_line (c ∷ d ∷ cs) = ends_line (d ∷ cs)

unfoldable pub lstrip : Text → Text
lstrip [] = []
lstrip (c ∷ cs) = let rest = lstrip cs in if is_space c then rest else c ∷ cs

unfoldable pub rstrip : Text → Text
rstrip [] = []
rstrip (c ∷ cs) = elim (rstrip cs) [ [] ↦ if is_space c then [] else c ∷ [] | d ∷ ds ↦ c ∷ d ∷ ds ]

-- `str.strip`
abbrev pub strip : Text → Text
strip s = rstrip (lstrip s)

-- How many of the first characters are `m`: `len(s) - len(s.lstrip(m))`.
unfoldable pub run_length : ℕ → Text → ℕ
run_length m [] = 0
run_length m (c ∷ cs) = let rest = run_length m cs in if c == m then suc rest else 0

unfoldable pub contains : ℕ → Text → Bool
contains m [] = false
contains m (c ∷ cs) = c == m || contains m cs

abbrev pub is_nil {ℓ} : {A : Type ℓ} → List A → Bool
is_nil [] = true
is_nil (x ∷ xs) = false

-- The line that may open a fence: its first character, and the line.
unfoldable pub open_fence : ℕ → Text → Option Fence
open_fence c stripped =
    let marker_length = run_length c stripped in
    if not (c == b'`' || c == b'~')
    then none
    else if ltb marker_length 3
    then none
    else if c == b'`' && contains b'`' (drop marker_length stripped)
    then none
    else some (record { marker = take marker_length stripped; opening = stripped })

-- The line that may close one, `m` the first character of its marker.
unfoldable pub close_fence : ℕ → ℕ → Text → Fence → Option Fence
close_fence m c stripped fence =
    let marker_length = run_length m stripped in
    if not (c == m)
    then some fence
    else if leb (length fence.marker) marker_length && is_nil (strip (drop marker_length stripped))
    then none
    else some fence

-- `fence.marker[0]`, of a marker that is never empty.
abbrev pub head_of : Text → ℕ
head_of [] = 0
head_of (c ∷ cs) = c

-- One complete line, stripped.
unfoldable pub advance_line : Option Fence → Text → Option Fence
advance_line fence [] = fence
advance_line none (c ∷ cs) = open_fence c (c ∷ cs)
advance_line (some fence) (c ∷ cs) = close_fence (head_of fence.marker) c (c ∷ cs) fence

-- The loop of `advance_fence`; `boundary` is `index > 0 or initial_line_boundary`.
unfoldable pub advance_lines : Option Fence → Bool → Bool → List Text → Option Fence
advance_lines fence boundary terminal [] = fence
advance_lines fence boundary terminal (line ∷ lines) =
    let complete = boundary && (ends_line line || (is_nil lines && terminal)) in
    advance_lines (if complete then advance_line fence (strip line) else fence) true terminal lines

-- `advance_fence`
abbrev pub advance_fence : Option Fence → Text → Bool → Bool → Option Fence
advance_fence fence segment initial terminal =
    advance_lines fence initial terminal (splitlines segment)

-- `closing_suffix`
unfoldable pub closing_suffix : Text → Option Fence → Text
closing_suffix content none = []
closing_suffix content (some fence) = (if ends_line content then [] else 10 ∷ []) ++ fence.marker

-- `content[start:end]`
abbrev pub slice : ℕ → ℕ → Text → Text
slice start end content = take (end - start) (drop start content)

unfoldable pub starts_with : Text → Text → Bool
starts_with [] s = true
starts_with (c ∷ cs) [] = false
starts_with (c ∷ cs) (d ∷ ds) = c == d && starts_with cs ds

-- The search of `rfind` from `minimum + k` down to `minimum`.
unfoldable pub rfind_from : Text → Text → ℕ → ℕ → Option ℕ
rfind_from separator content minimum zero =
    if starts_with separator (drop minimum content) then some minimum else none
rfind_from separator content minimum (suc k) =
    let below = rfind_from separator content minimum k in
    if starts_with separator (drop (minimum + suc k) content) then some (minimum + suc k) else below

-- `content.rfind(separator, minimum, end)`, with `none` for -1.
unfoldable pub rfind : Text → Text → ℕ → ℕ → Option ℕ
rfind separator content minimum end =
    if ltb end (minimum + length separator)
    then none
    else rfind_from separator content minimum (end - length separator - minimum)

-- The last loop of `preferred_boundary`, over the `k` indices from `minimum` on.
unfoldable pub last_space : Text → ℕ → ℕ → Option ℕ
last_space content minimum zero = none
last_space content minimum (suc k) =
    let below = last_space content minimum k in
    elim (drop (minimum + k) content) [
      | [] ↦ below
      | c ∷ cs ↦ if is_space c then some (minimum + k + 1) else below
    ]

-- The separators in order, each looked for where the ones before are not found.
unfoldable pub boundary_of : Option ℕ → Option ℕ → Option ℕ → Option ℕ
boundary_of (some i) line space = some (i + 2)
boundary_of none (some i) space = some (i + 1)
boundary_of none none space = space

-- `preferred_boundary`
unfoldable pub preferred_boundary : Text → ℕ → ℕ → Option ℕ
preferred_boundary content minimum end =
    boundary_of (rfind (10 ∷ 10 ∷ []) content minimum end) (rfind (10 ∷ []) content minimum end)
      (last_space content minimum (end - minimum))

-- `code_points`
abbrev pub code_points : Text → ℕ
code_points = length

-- `utf8_bytes`
unfoldable pub utf8_bytes : Text → ℕ
utf8_bytes [] = 0
utf8_bytes (c ∷ cs) =
    (if ltb c 0x80 then 1 else if ltb c 0x800 then 2 else if ltb c 0x10000 then 3 else 4)
    + utf8_bytes cs

-- The `ValueError`s, and a loop that ran out of the rounds that the model gives it.
pub data SplitError : Type 0 where
  limit_not_positive overhead_exceeds closure_exceeds : SplitError
  out_of_rounds : SplitError

-- `prefix`
abbrev pub prefix_of : Option Fence → Text
prefix_of none = []
prefix_of (some fence) = fence.opening ++ (10 ∷ [])

-- `end == len(content) or content[end] in "\r\n"`
abbrev pub line_complete : Text → Bool
line_complete [] = true
line_complete (c ∷ cs) = is_newline c

-- `content[cursor - 1] in "\r\n"`
abbrev pub after_newline : Text → Bool
after_newline [] = false
after_newline (c ∷ cs) = is_newline c

-- `line_start`
unfoldable pub line_start : Option Fence → ℕ → Text → Bool
line_start (some fence) cursor content = true
line_start none zero content = true
line_start none (suc before) content = after_newline (drop before content)

-- Where a round may end: the end, the fence there and the suffix that closes it.
pub record Cut : Type 0 where
  pub end : ℕ
  pub next_fence : Option Fence
  pub suffix : Text

module _ (measure : Text → ℕ) (limit : ℕ) where
  -- The first inner loop: how many of the characters ahead fit behind `size`.
  unfoldable pub fitting : ℕ → Text → ℕ
  fitting size [] = 0
  fitting size (c ∷ cs) =
      let step = measure (c ∷ []) in
      let rest = fitting (size + step) cs in if ltb limit (size + step) then 0 else suc rest

  -- The fence and the suffix of a piece that ends at `end`.
  unfoldable pub cut_at : Text → ℕ → Option Fence → ℕ → Cut
  cut_at content cursor fence end =
      let piece = slice cursor end content in
      let next_fence =
        advance_fence fence piece (line_start fence cursor content)
          (line_complete (drop end content)) in
      record {
        end = end;
        next_fence = next_fence;
        suffix = closing_suffix (prefix_of fence ++ piece) next_fence;
      }

  -- The chunk of a cut.
  abbrev pub chunk_of : Text → ℕ → Option Fence → Cut → Text
  chunk_of content cursor fence cut = prefix_of fence ++ slice cursor cut.end content ++ cut.suffix

  abbrev pub cut_fits : Text → ℕ → Option Fence → Cut → Bool
  cut_fits content cursor fence cut = leb (measure (chunk_of content cursor fence cut)) limit

  -- The second inner loop, from `cursor + n` down.
  unfoldable pub shrink : Text → ℕ → Option Fence → ℕ → Result SplitError Cut
  shrink content cursor fence zero = err closure_exceeds
  shrink content cursor fence (suc n) =
      let cut = cut_at content cursor fence (cursor + suc n) in
      let shorter = shrink content cursor fence n in
      if cut_fits content cursor fence cut then ok cut else shorter

  -- The cut at the preferred boundary, where there is one and its chunk fits.
  unfoldable pub prefer_at : Text → ℕ → Option Fence → Option ℕ → Cut → Cut
  prefer_at content cursor fence none cut = cut
  prefer_at content cursor fence (some preferred) cut =
      let nicer = cut_at content cursor fence preferred in
      if cut_fits content cursor fence nicer then nicer else cut

  unfoldable pub prefer : Text → ℕ → Option Fence → Cut → Cut
  prefer content cursor fence cut =
      let minimum = cursor + max 1 ((cut.end - cursor) / 2) in
      if ltb cut.end (length content)
      then prefer_at content cursor fence (preferred_boundary content minimum cut.end) cut
      else cut

  unfoldable pub prefer_ok : Text → ℕ → Option Fence → Result SplitError Cut → Result SplitError Cut
  prefer_ok content cursor fence (err e) = err e
  prefer_ok content cursor fence (ok cut) = ok (prefer content cursor fence cut)

  -- One round of the outer loop, up to `chunks.append`.
  unfoldable pub round : Text → ℕ → Option Fence → Result SplitError Cut
  round content cursor fence = elim (fitting (measure (prefix_of fence)) (drop cursor content)) [
    | zero ↦ err overhead_exceeds
    | suc n ↦ prefer_ok content cursor fence (shrink content cursor fence (suc n))
  ]

  unfoldable pub prepend : Text → Result SplitError (List Text) → Result SplitError (List Text)
  prepend chunk (err e) = err e
  prepend chunk (ok chunks) = ok (chunk ∷ chunks)

  -- The outer loop, with the rounds that it is given.
  unfoldable pub split_from : ℕ → Text → ℕ → Option Fence → Result SplitError (List Text)
  split_from zero content cursor fence =
      if ltb cursor (length content) then err out_of_rounds else ok []
  split_from (suc rounds) content cursor fence =
      if ltb cursor (length content)
      then elim (round content cursor fence) [
        | err e ↦ err e
        | ok cut ↦
            prepend (chunk_of content cursor fence cut)
              (split_from rounds content cut.end cut.next_fence)
      ]
      else ok []

  -- `split_markdown`. Every round takes a character at least.
  unfoldable pub split_markdown : Text → Result SplitError (List Text)
  split_markdown content =
      if limit == 0
      then err limit_not_positive
      else if is_nil content
      then ok (content ∷ [])
      else split_from (length content) content 0 none
