-- ===== src/Workflows/Commands.antt =====
-- workflows/case_collab_workflow.py: `CaseCollabWorkflow._parse_command`.
use Prim.Native.Char.{code}
use text.Mathlib.TextLemmas.{nil-append, cons-append}
use support_agent_platform.Shared.{
  String, ◌<>◌, ◌≡◌, refl, List, [], ◌∷◌, eqb, if◌then◌else◌, Result, ok, err, value_error,
}
use support_agent_platform.Shared.Text.{strip, lstrip, rstrip, lower, is_space}
use support_agent_platform.Shared.Words.{
  split, join_words, AllWords, split-join_words, split-rstrip,
}

abbrev empty_command : Result (String × List String)
empty_command = err (value_error "Empty command")

-- The command's name and its arguments.
unfoldable pub command_of : List String → Result (String × List String)
unfolding lower
command_of [] = empty_command
command_of (name ∷ args) = ok (lower name, args)

unfoldable pub after_slash : String → Result (String × List String)
unfolding split command_of
after_slash String.[] = err (value_error "Command must start with '/'")
after_slash (String.◌∷◌ c s) =
    if eqb (code c) b'/'
    then command_of (split s)
    else err (value_error "Command must start with '/'")

unfoldable pub parse_command : String → Result (String × List String)
unfolding after_slash strip
parse_command line = after_slash (strip line)

-- The white space after the slash and the words does not matter.
strip-slash : (t : String) → strip ("/" <> t) ≡ String.◌∷◌ "/" (rstrip t)
unfolding strip lstrip rstrip is_space
strip-slash t = rw (cons-append "/" "" t, nil-append t) refl

command_of-words :
    (name : String) (args : List String) → command_of (name ∷ args) ≡ ok (lower name, args)
unfolding command_of
command_of-words name args = refl

after_slash-words :
    (t name : String) (args : List String)
    → split t ≡ name ∷ args
    → after_slash (String.◌∷◌ "/" (rstrip t)) ≡ ok (lower name, args)
unfolding after_slash
after_slash-words t name args e = rw (split-rstrip t, e) (command_of-words name args)

-- A command that is written as a slash, its name and its arguments with a space between them, none
-- of them empty or with white space in it, is read back: the name in lower case, and the arguments
-- as they were, in their order.
pub parse_command-join_words :
    (name : String) (args : List String)
    → AllWords (name ∷ args)
    → parse_command ("/" <> join_words (name ∷ args)) ≡ ok (lower name, args)
unfolding parse_command
parse_command-join_words name args h =
    rw (strip-slash (join_words (name ∷ args)))
      (after_slash-words (join_words (name ∷ args)) name args (split-join_words (name ∷ args) h))

parse_command_test : parse_command "  /Reassign  ann \n" ≡ ok ("reassign", "ann" ∷ [])
unfolding parse_command split is_space
parse_command_test = refl
