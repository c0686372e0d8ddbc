-- ===== src/Cli/ExamplesRoundTrip.antt =====
-- src/cli/CliOptions.cpp: parseExamplesDocument reads a document as it is laid out.
use vehicle_spy.Base.{◌≡◌, false, ◌||◌, Option, List, [], ◌∷◌, ◌++◌, map, All}
use vehicle_spy.Base.Text.{Text, starts_with, drop_while}
use vehicle_spy.Cli.Examples.{
  ExampleBlock, ExampleSection, is_space_or_tab, trimmed, split_topic_names, section_tag, topic_tag,
  Parser,
}

-- A document as it is written: the tails of the marker lines, and the lines of each block.
pub record WrittenBlock : Type 0 where
  pub topic_tail : Text
  pub lines : List Text

pub record WrittenSection : Type 0 where
  pub section_tail : Text
  pub written : List WrittenBlock

-- A line that is no marker: blank, or anything else, plain comments too.
abbrev pub IsPlain : Text → Type 0
IsPlain line =
    (starts_with section_tag (drop_while is_space_or_tab line)
      || starts_with topic_tag (drop_while is_space_or_tab line))
    ≡ false

abbrev pub IsPlainBlock : WrittenBlock → Type 0
IsPlainBlock b = All IsPlain b.lines

abbrev pub IsPlainSection : WrittenSection → Type 0
IsPlainSection s = All IsPlainBlock s.written

pub lay_out_blocks : List WrittenBlock → List Text → List Text
lay_out_blocks [] after = after
lay_out_blocks (b ∷ bs) after = (topic_tag ++ b.topic_tail) ∷ (b.lines ++ lay_out_blocks bs after)

pub lay_out : List WrittenSection → List Text
lay_out [] = []
lay_out (s ∷ ss) = (section_tag ++ s.section_tail) ∷ lay_out_blocks s.written (lay_out ss)

abbrev pub read_block : WrittenBlock → ExampleBlock
unfolding split_topic_names
read_block b = record { topics = split_topic_names b.topic_tail; body = b.lines }

abbrev pub read_section : WrittenSection → ExampleSection
unfolding trimmed split_topic_names
read_section s = record { name = trimmed s.section_tail; blocks = map read_block s.written }

abbrev at : List ExampleSection → Text → List ExampleBlock → Option ExampleBlock → Parser
at f n bs cur = record { finished = f; section_name = n; section_blocks = bs; current = cur }
