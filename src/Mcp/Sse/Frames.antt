-- ===== src/Mcp/Sse/Frames.antt =====
-- mcp/sse.go `readLoop`: lines into events. The lines are what `bufio.Scanner` yields.
pub mod Laws
use mcp_plugin.Base.Tests.{
  ℕ, ◌*◌, Bool, Option, none, some, List, [], ◌∷◌, ◌++◌, ltb, if◌then◌else◌, length, Result, ok,
  err, ◌>>=◌,
}
use mcp_plugin.Base.Text.{Text, codes, ◌==◌, cut_prefix, has_prefix, join, Unicode, trim_space}

abbrev pub event_field : Text
event_field = codes "event:"

abbrev pub data_field : Text
data_field = codes "data:"

-- An event: its type, and its data with the lines joined.
abbrev pub Event : Type 0
Event = Text × Text

abbrev pub newline : Text
newline = 10 ∷ []

abbrev pub sse_max_token_size : ℕ
sse_max_token_size = 4 * 1024 * 1024

-- The scanner stops at a line that does not fit its buffer.
unfoldable pub scanned : ℕ → List Text → List Text
scanned limit [] = []
scanned limit (line ∷ lines) =
    let rest = scanned limit lines in if ltb (length line) limit then line ∷ rest else []

module _ (u : Unicode) where
  -- The two variables of the loop, after a line that is not blank.
  unfoldable pub next_type : Text → Text → Text
  next_type event_type line = elim (cut_prefix line event_field) [
    | none ↦ event_type
    | some after ↦ trim_space u after
  ]

  unfoldable pub add_data : List Text → Text → List Text
  add_data data_lines line = elim (cut_prefix line event_field) [
    | some _ ↦ data_lines
    | none ↦ elim (cut_prefix line data_field) [
      | none ↦ data_lines
      | some after ↦ data_lines ++ trim_space u after ∷ []
    ]
  ]

  -- `readLoop`: the events that it hands to `handleEvent`. A blank line ends an event; what is left
  -- at the end of the stream is dropped.
  unfoldable pub read_events : Text → List Text → List Text → List Event
  read_events event_type data_lines [] = []
  read_events event_type data_lines ([] ∷ lines) =
      (event_type, join data_lines newline) ∷ read_events [] [] lines
  read_events event_type data_lines ((c ∷ line) ∷ lines) =
      read_events (next_type event_type (c ∷ line)) (add_data data_lines (c ∷ line)) lines

  unfoldable pub read_stream : List Text → List Event
  read_stream lines = read_events [] [] (scanned sse_max_token_size lines)

  -- `decodeSSEResponse`: the payload of the first data line.
  unfoldable pub first_payload : List Text → Option Text
  first_payload [] = none
  first_payload (line ∷ lines) =
      let rest = first_payload lines in
      elim (cut_prefix line data_field) [ none ↦ rest | some after ↦ some (trim_space u after) ]
