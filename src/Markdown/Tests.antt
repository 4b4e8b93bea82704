-- ===== src/Markdown/Tests.antt =====
-- Tests of Markdown.antt on a fenced text, "```\nab\ncd\n```" cut to ten characters.
use bazaar_compute_node.Prelude.{◌≡◌, ◌≢◌, refl, List, [], ◌∷◌, none, take, drop}
use bazaar_compute_node.Prelude.Result.{ok, err}
use bazaar_compute_node.Markdown.{
  Text, out_of_rounds, closure_exceeds, code_points, split_markdown, split_from, round, prepend,
  prefer_ok, prefer, prefer_at, shrink, cut_at, fitting, line_start, preferred_boundary,
  boundary_of, last_space, rfind, rfind_from, starts_with, closing_suffix, advance_lines,
  advance_line, close_fence, open_fence, contains, run_length, lstrip, rstrip, ends_line,
  splitlines, onto_first, is_break, is_space,
}
use bazaar_compute_node.Markdown.Pieces.{Reassembles, split_markdown-Reassembles}
use bazaar_compute_node.Markdown.Limits.{Within, split_markdown-Within, split_markdown-terminates}

abbrev fenced : Text
fenced = b'`' ∷ b'`' ∷ b'`' ∷ 10 ∷ b'a' ∷ b'b' ∷ 10 ∷ b'c' ∷ b'd' ∷ 10 ∷ b'`' ∷ b'`' ∷ b'`' ∷ []

abbrev fenced_chunks : List Text
fenced_chunks =
    (b'`' ∷ b'`' ∷ b'`' ∷ 10 ∷ b'a' ∷ b'b' ∷ 10 ∷ b'`' ∷ b'`' ∷ b'`' ∷ [])
    ∷ (b'`' ∷ b'`' ∷ b'`' ∷ 10 ∷ b'c' ∷ b'd' ∷ 10 ∷ b'`' ∷ b'`' ∷ b'`' ∷ [])
    ∷ []

fenced_split : split_markdown code_points 10 fenced ≡ ok fenced_chunks
unfolding split_markdown split_from round prepend prefer_ok prefer prefer_at shrink cut_at fitting
    line_start preferred_boundary boundary_of last_space rfind rfind_from starts_with closing_suffix
    advance_lines advance_line close_fence open_fence contains run_length lstrip rstrip ends_line
    splitlines onto_first is_break is_space take drop
fenced_split = refl

-- Eight characters do not hold an opened fence, a character and the fence that closes it.
fenced_fails : split_markdown code_points 8 fenced ≡ err closure_exceeds
unfolding split_markdown split_from round prepend prefer_ok prefer prefer_at shrink cut_at fitting
    line_start preferred_boundary boundary_of last_space rfind rfind_from starts_with closing_suffix
    advance_lines advance_line close_fence open_fence contains run_length lstrip rstrip ends_line
    splitlines onto_first is_break is_space take drop
fenced_fails = refl

split_markdown-Reassembles_example : Reassembles none fenced fenced_chunks
split_markdown-Reassembles_example =
    split_markdown-Reassembles code_points 10 fenced fenced_chunks refl fenced_split

split_markdown-Within_example : Within code_points 10 fenced_chunks
split_markdown-Within_example =
    split_markdown-Within code_points 10 fenced fenced_chunks refl fenced_split

split_markdown-terminates_example : split_markdown code_points 10 fenced ≢ err out_of_rounds
split_markdown-terminates_example = split_markdown-terminates code_points 10 fenced
