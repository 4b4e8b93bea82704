-- ===== src/LineReader/Tests.antt =====
-- The reader on a stream whose chunks cut its lines anywhere.
use bazaar_compute_node.Prelude.{◌≡◌, refl, arith, [], ◌∷◌, take, drop}
use bazaar_compute_node.LineReader.{Stream, new_reader, find, line_ready, readline_loop, readline}
use bazaar_compute_node.LineReader.Lines.{
  first_line, concat, unread, IsValid, readline-first_line, readlines, readlines-concat,
}

-- "ab", "c\nd", "\n\ne" in three chunks.
abbrev chunks : Stream
chunks = (97 ∷ 98 ∷ []) ∷ (99 ∷ 10 ∷ 100 ∷ []) ∷ (10 ∷ 10 ∷ 101 ∷ []) ∷ []

first : (readline (new_reader chunks)).0 ≡ 97 ∷ 98 ∷ 99 ∷ 10 ∷ []
unfolding readline readline_loop line_ready find new_reader take drop
first = refl

all_lines :
    readlines 9 (new_reader chunks)
    ≡ (97 ∷ 98 ∷ 99 ∷ 10 ∷ []) ∷ (100 ∷ 10 ∷ []) ∷ (10 ∷ []) ∷ (101 ∷ []) ∷ []
unfolding readlines readline readline_loop line_ready find new_reader take drop
all_lines = refl

new-IsValid : IsValid (new_reader chunks)
unfolding new_reader
new-IsValid = (((λ h. cc h), ((λ h. cc h), ((λ h. cc h), tt))), λ h. absurd (cc h))

readline-first_line_example :
    ((readline (new_reader chunks)).0 ≡ (first_line (unread (new_reader chunks))).0)
    × (unread (readline (new_reader chunks)).1 ≡ (first_line (unread (new_reader chunks))).1)
    × IsValid (readline (new_reader chunks)).1
readline-first_line_example = readline-first_line (new_reader chunks) new-IsValid

readlines-concat_example : concat (readlines 9 (new_reader chunks)) ≡ unread (new_reader chunks)
unfolding concat new_reader
readlines-concat_example = readlines-concat 9 (new_reader chunks) new-IsValid (omega arith)
