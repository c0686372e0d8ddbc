-- ===== src/Cli/Examples.antt =====
-- src/cli/CliOptions.cpp: the document of usage examples, and the part of it that is shown. A
-- document is its lines; the newlines are those of `std::getline`.
use vehicle_spy.Base.{
  ℕ, Bool, true, false, ◌||◌, Option, none, some, List, [], ◌∷◌, ◌++◌, ◌==◌, if◌then◌else◌, length,
  drop,
}
use vehicle_spy.Base.Text.{Text, codes, starts_with, drop_while, trim_by}
use vehicle_spy.Cli.Target.{is_empty}
use vehicle_spy.Cli.Focus.{block_matches}
use vehicle_spy.Cli.Validate.{for_log_keep_newlines}

pub record ExampleBlock : Type 0 where
  pub topics : List Text
  pub body : List Text

pub record ExampleSection : Type 0 where
  pub name : Text
  pub blocks : List ExampleBlock

abbrev pub is_space_or_tab : ℕ → Bool
is_space_or_tab c = c == 32 || c == 9

unfoldable pub trimmed : Text → Text
unfolding trim_by
trimmed s = trim_by is_space_or_tab s

-- The segments between the commas.
unfoldable pub split_comma_separated : Text → List Text
split_comma_separated [] = [] ∷ []
split_comma_separated (c ∷ s) = put (split_comma_separated s)
  where
    put : List Text → List Text
    put [] = if c == b',' then [] ∷ [] ∷ [] else (c ∷ []) ∷ []
    put (seg ∷ segs) = if c == b',' then [] ∷ seg ∷ segs else (c ∷ seg) ∷ segs

abbrev keep_named : List Text → List Text
keep_named [] = []
keep_named (seg ∷ segs) =
    let name = trimmed seg in
    let rest = keep_named segs in if is_empty name then rest else name ∷ rest

unfoldable pub split_topic_names : Text → List Text
unfolding split_comma_separated trimmed
split_topic_names raw = keep_named (split_comma_separated raw)

abbrev pub section_tag : Text
section_tag = codes "# section:"

abbrev pub topic_tag : Text
topic_tag = codes "# topic:"

-- What parseExamplesDocument has built: the finished sections, and the one it is in with its
-- finished blocks and the block that is open, if any.
pub record Parser : Type 0 where
  pub finished : List ExampleSection
  pub section_name : Text
  pub section_blocks : List ExampleBlock
  pub current : Option ExampleBlock

abbrev pub initial_parser : Parser
initial_parser = record { finished = []; section_name = []; section_blocks = []; current = none }

abbrev pub with_current : List ExampleBlock → Option ExampleBlock → List ExampleBlock
with_current bs none = bs
with_current bs (some b) = bs ++ b ∷ []

abbrev pub close_section : Parser → List ExampleSection
close_section p =
    p.finished
    ++ record { name = p.section_name; blocks = with_current p.section_blocks p.current } ∷ []

-- A line of a block is kept; outside a block it is dropped.
abbrev pub push_line : Text → Option ExampleBlock → Option ExampleBlock
push_line line none = none
push_line line (some b) = some (record b { body = b.body ++ line ∷ [] })

unfoldable pub parse_line : Parser → Text → Parser
unfolding trimmed split_topic_names
parse_line p line =
    let tag = drop_while is_space_or_tab line in
    if is_empty tag
    then record p { current = push_line line p.current }
    else if starts_with section_tag tag
    then record {
      finished = close_section p;
      section_name = trimmed (drop (length section_tag) tag);
      section_blocks = [];
      current = none;
    }
    else if starts_with topic_tag tag
    then record p {
      section_blocks = with_current p.section_blocks p.current;
      current =
          some (record { topics = split_topic_names (drop (length topic_tag) tag); body = [] });
    }
    else record p { current = push_line line p.current }

unfoldable pub parse_lines : Parser → List Text → List ExampleSection
unfolding parse_line
parse_lines p [] = close_section p
parse_lines p (line ∷ lines) = parse_lines (parse_line p line) lines

unfoldable pub parse_examples_document : List Text → List ExampleSection
unfolding parse_lines
parse_examples_document lines = parse_lines initial_parser lines

abbrev pub newline : Text
newline = 10 ∷ []

abbrev pub render_body : List Text → Text
unfolding for_log_keep_newlines
render_body [] = []
render_body (line ∷ lines) = for_log_keep_newlines line ++ (newline ++ render_body lines)

unfoldable pub kept_blocks : List Text → List ExampleBlock → List ExampleBlock
kept_blocks focus [] = []
kept_blocks focus (b ∷ bs) =
    let rest = kept_blocks focus bs in if block_matches b.topics focus then b ∷ rest else rest

-- The flag says that nothing has been shown yet.
abbrev pub separator : Bool → Text
separator first = if first then [] else newline

abbrev pub render_blocks : Bool → List ExampleBlock → Text
render_blocks first [] = []
render_blocks first (b ∷ bs) = separator first ++ (render_body b.body ++ render_blocks false bs)

abbrev pub heading : Text → Text
unfolding for_log_keep_newlines
heading name = if is_empty name then [] else for_log_keep_newlines name ++ (b':' ∷ newline)

abbrev pub has_blocks : List ExampleBlock → Bool
has_blocks [] = false
has_blocks (b ∷ bs) = true

unfoldable pub render_sections : Bool → List Text → List ExampleSection → Text
unfolding kept_blocks
render_sections first focus [] = newline
render_sections first focus (s ∷ ss) =
    let kept = kept_blocks focus s.blocks in
    let skipped = render_sections first focus ss in
    let shown =
      separator first
      ++ (heading s.name ++ (render_blocks true kept ++ render_sections false focus ss)) in
    if has_blocks kept then shown else skipped

unfoldable pub print_examples : List Text → List Text → Text
unfolding parse_examples_document render_sections
print_examples lines focus =
    codes "EXAMPLES:" ++ (newline ++ render_sections true focus (parse_examples_document lines))
