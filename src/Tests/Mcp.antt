-- ===== src/Tests/Mcp.antt =====
-- Runs of the reading of an event stream.
use mcp_plugin.Base.Tests.{◌≡◌, refl, List, [], ◌∷◌, ◌++◌, map, arith}
use mcp_plugin.Base.Text.{codes, trim_space, join, cut_prefix}
use mcp_plugin.Mcp.Sse.Frames.{read_stream}
use mcp_plugin.Mcp.Sse.Frames.Laws.{
  Line, event, datum, other, written, lines_of, read_stream-lines_of,
}
use mcp_plugin.Tests.World.{unicode}

abbrev frames : List (List Line)
frames =
    (event (codes " message") ∷ datum (codes " { ") ∷ other (codes ":") ∷ datum (codes "}") ∷ [])
    ∷ []

read_stream-lines_of_example :
    read_stream unicode (lines_of frames (map written (datum [] ∷ []) ++ []))
    ≡ (codes "message", 0x7B ∷ 10 ∷ 0x7D ∷ []) ∷ []
unfolding trim_space join cut_prefix
read_stream-lines_of_example =
    read_stream-lines_of unicode frames (datum [] ∷ []) []
      (
        (
          (omega arith, tt),
          ((omega arith, tt), ((omega arith, ((λ e. cc), refl, refl)), ((omega arith, tt), tt))),
        ),
        tt,
      )
      ((omega arith, tt), tt) tt
