-- ===== src/Cli/Focus.antt =====
-- src/cli/CliOptions.cpp: the topics that --help and --examples are filtered to.
use vehicle_spy.Base.{
  ◌≡◌, refl, Bool, true, false, not, ◌&&◌, ◌||◌, List, [], ◌∷◌, ◌++◌, arith, ◌==◌, if◌then◌else◌,
}
use vehicle_spy.Base.Text.{Text, codes, text_eq, starts_with}
use vehicle_spy.Cli.Target.{is_empty}

-- The topic is the focus, or one is a prefix of the other up to a dash.
unfoldable pub topic_matches_focus : Text → Text → Bool
topic_matches_focus topic focus =
    text_eq topic focus
    || starts_with (focus ++ b'-' ∷ []) topic
    || starts_with (topic ++ b'-' ∷ []) focus

unfoldable pub strip_leading_dashes : Text → Text
strip_leading_dashes [] = []
strip_leading_dashes (c ∷ s) =
    let rest = strip_leading_dashes s in if c == b'-' then rest else c ∷ s

-- A token that is no flag.
abbrev pub takes_value : Text → Bool
takes_value [] = false
takes_value (c ∷ s) = not (c == b'-')

abbrev pub is_help_flag : Text → Bool
is_help_flag a =
    text_eq a (codes "--help") || text_eq a (codes "-h") || text_eq a (codes "--examples")

-- What follows a token that was taken as a focus, without the value of that token: the second
-- argument says that the last token was taken.
unfoldable pub compute_focus : Bool → List Text → List Text
compute_focus taken [] = []
compute_focus taken (a ∷ args) =
    let bare = strip_leading_dashes a in
    let rest = compute_focus false args in
    let took = bare ∷ compute_focus true args in
    if taken && takes_value a
    then rest
    else if is_help_flag a
    then rest
    else if is_empty bare
    then rest
    else took

-- The tokens behind the name of the program.
unfoldable pub compute_help_focus : List Text → List Text
unfolding compute_focus
compute_help_focus args = compute_focus false args

-- Without a focus every block is shown.
abbrev pub any_focus : Text → List Text → Bool
any_focus topic [] = false
any_focus topic (f ∷ fs) = topic_matches_focus topic f || any_focus topic fs

abbrev pub any_topic : List Text → List Text → Bool
any_topic [] focus = false
any_topic (t ∷ ts) focus = any_focus t focus || any_topic ts focus

abbrev pub block_matches : List Text → List Text → Bool
block_matches topics [] = true
block_matches topics (f ∷ fs) = any_topic topics (f ∷ fs)

text_eq_sym : (s t : Text) → text_eq s t ≡ text_eq t s
unfolding text_eq
text_eq_sym [] [] = refl
text_eq_sym [] (c ∷ t) = refl
text_eq_sym (c ∷ s) [] = refl
text_eq_sym (c ∷ s) (d ∷ t) = ground (arith, text_eq_sym s t)

-- A topic matches a focus exactly if the focus, as a topic, matches the topic.
pub topic_matches_focus_sym : (s t : Text) → topic_matches_focus s t ≡ topic_matches_focus t s
unfolding topic_matches_focus
topic_matches_focus_sym s t = ground (arith, text_eq_sym s t)
