-- ===== src/Programs/Console.antt =====
-- internal/console/console.go: the layout of messages. `strings.TrimSpace` is a parameter.
use mathlib.Core.List.{flatten}
use gitlab_shell.Prelude.{
  if◌then◌else◌, replicate, all, Bytes, codes, is_empty, Bool, true, false, List, [], ◌∷◌, ◌++◌,
  map,
}

-- `formatLine`
unfoldable pub format_line : Bytes → Bytes
format_line message = codes "remote: " ++ (message ++ codes "\n")

-- `blankLine`
unfoldable pub blank_line : Bytes
unfolding format_line
blank_line = format_line []

-- `divider`
unfoldable pub divider : Bytes
unfolding format_line blank_line
divider = blank_line ++ (format_line (replicate 72 b'=') ++ blank_line)

-- `displayBlankLineOrDivider`
unfoldable pub blank_line_or_divider : Bool → Bytes
unfolding blank_line divider
blank_line_or_divider display_divider = if display_divider then divider else blank_line

module _ (trim_space : Bytes → Bytes) where
  -- `noMessages`
  unfoldable pub no_messages : List Bytes → Bool
  no_messages messages = all (λ msg. is_empty (trim_space msg)) messages

  -- `DisplayMessages`
  unfoldable pub display_messages : Bool → List Bytes → Bytes
  unfolding no_messages blank_line_or_divider format_line
  display_messages display_divider messages =
      if no_messages messages
      then []
      else blank_line_or_divider display_divider
        ++ (flatten (map format_line messages) ++ blank_line_or_divider display_divider)

  -- `DisplayWarningMessages`
  unfoldable pub display_warning_messages : List Bytes → Bytes
  unfolding display_messages
  display_warning_messages messages = display_messages true messages

  -- `DisplayInfoMessages`
  unfoldable pub display_info_messages : List Bytes → Bytes
  unfolding display_messages
  display_info_messages messages = display_messages false messages

  -- `DisplayWarningMessage`
  unfoldable pub display_warning_message : Bytes → Bytes
  unfolding display_warning_messages
  display_warning_message message = display_warning_messages (message ∷ [])

  -- `DisplayInfoMessage`
  unfoldable pub display_info_message : Bytes → Bytes
  unfolding display_info_messages
  display_info_message message = display_info_messages (message ∷ [])
