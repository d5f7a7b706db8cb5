-- ===== src/Mcp/Sse/Frames/Laws.antt =====
-- Event streams read back.
use mathlib.Core.Path.{ap₂}
use mcp_plugin.Base.Tests.{
  ◌*◌, ◌≤◌, ◌<◌, length, arith, ◌≡◌, refl, sym, ap, ◌∙◌, ◌≢◌, none, List, [], ◌∷◌, ◌++◌, map,
  append_assoc, append-nil, All,
}
use mcp_plugin.Base.Text.{Text, cut_prefix, join, Unicode, trim_space}
use mcp_plugin.Mcp.Sse.Frames.{
  event_field, data_field, Event, newline, next_type, add_data, read_events, sse_max_token_size,
  scanned, read_stream,
}

-- The lines that a server may write between two blank lines.
pub data Line : Type 0 where
  event datum other : Text → Line

abbrev pub written : Line → Text
written (event t) = event_field ++ t
written (datum d) = data_field ++ d
written (other s) = s

-- The lines of frames, with what follows them.
abbrev pub lines_of : List (List Line) → List Text → List Text
lines_of [] rest = rest
lines_of (frame ∷ frames) rest = map written frame ++ ([] ∷ lines_of frames rest)

-- A line that the read loop's buffer of 4 MiB holds.
abbrev pub IsShort : Text → Type 0
IsShort line = length line < 4 * 1024 * 1024

-- What the read loop does not read: nothing is left, or the next line is too long.
abbrev pub IsUnread : List Text → Type 0
IsUnread [] = Unit
IsUnread (line ∷ _) = 4 * 1024 * 1024 ≤ length line

module _ (u : Unicode) where
  -- What a frame means, from what was read of it before; the values are trimmed.
  abbrev pub type_of : Text → List Line → Text
  type_of t [] = t
  type_of t (event t' ∷ ls) = type_of (trim_space u t') ls
  type_of t (_ ∷ ls) = type_of t ls

  abbrev pub data_of : List Line → List Text
  data_of [] = []
  data_of (datum d ∷ ls) = trim_space u d ∷ data_of ls
  data_of (_ ∷ ls) = data_of ls

  abbrev pub meaning : List Line → Event
  meaning frame = (type_of [] frame, join (data_of frame) newline)

  -- A line that is neither field is not blank and starts with neither name.
  abbrev IsOwnKind : Line → Type 0
  IsOwnKind (event t) = Unit
  IsOwnKind (datum d) = Unit
  IsOwnKind (other s) =
      (s ≢ []) × (cut_prefix s event_field ≡ none) × (cut_prefix s data_field ≡ none)

  abbrev pub IsLine : Line → Type 0
  IsLine l = IsShort (written l) × IsOwnKind l

  next_type-line : (t : Text) (l : Line) → IsLine l → next_type u t (written l) ≡ type_of t (l ∷ [])
  unfolding next_type cut_prefix
  next_type-line t (event t') h = refl
  next_type-line t (datum d) h = refl
  next_type-line t (other s) h = rw ((h.1).1, next_type)

  add_data-line :
      (ds : List Text) (l : Line) → IsLine l → add_data u ds (written l) ≡ ds ++ data_of (l ∷ [])
  unfolding add_data cut_prefix
  add_data-line ds (event t') h = sym (append-nil ds)
  add_data-line ds (datum d) h = refl
  add_data-line ds (other s) h = rw ((h.1).1, (h.1).2, add_data) (sym (append-nil ds))

  read_events-written :
      (t : Text) (ds : List Text) (l : Line) (rest : List Text)
      → IsLine l
      → read_events u t ds (written l ∷ rest)
        ≡ read_events u (next_type u t (written l)) (add_data u ds (written l)) rest
  unfolding read_events
  read_events-written t ds (event t') rest h = refl
  read_events-written t ds (datum d) rest h = refl
  read_events-written t ds (other []) rest h = absurd ((h.1).0 refl)
  read_events-written t ds (other (c ∷ s)) rest h = refl

  type_of-cons :
      (t : Text) (l : Line) (ls : List Line) → type_of t (l ∷ ls) ≡ type_of (type_of t (l ∷ [])) ls
  type_of-cons t (event t') ls = refl
  type_of-cons t (datum d) ls = refl
  type_of-cons t (other s) ls = refl

  data_of-cons : (l : Line) (ls : List Line) → data_of (l ∷ ls) ≡ data_of (l ∷ []) ++ data_of ls
  data_of-cons (event t') ls = refl
  data_of-cons (datum d) ls = refl
  data_of-cons (other s) ls = refl

  read_events-frame :
      (t : Text) (ds : List Text) (frame : List Line) (rest : List Text)
      → All IsLine frame
      → read_events u t ds (map written frame ++ ([] ∷ rest))
        ≡ (type_of t frame, join (ds ++ data_of frame) newline) ∷ read_events u [] [] rest
  read_events-frame t ds [] rest _ = unfold read_events in rw append-nil
  read_events-frame t ds (l ∷ frame) rest (h, hs) =
      read_events-written t ds l (map written frame ++ ([] ∷ rest)) h
      ∙ ap₂ (λ (x : Text) (y : List Text). read_events u x y (map written frame ++ ([] ∷ rest)))
          (next_type-line t l h) (add_data-line ds l h)
      ∙ read_events-frame (type_of t (l ∷ [])) (ds ++ data_of (l ∷ [])) frame rest hs
      ∙ ap₂ (λ (x : Text) (y : List Text). (x, join y newline) ∷ read_events u [] [] rest)
          (sym (type_of-cons t l frame))
          (append_assoc ds (data_of (l ∷ [])) (data_of frame)
            ∙ ap (λ (z : List Text). ds ++ z) (sym (data_of-cons l frame)))

  read_events-partial :
      (t : Text) (ds : List Text) (frame : List Line)
      → All IsLine frame
      → read_events u t ds (map written frame) ≡ []
  read_events-partial t ds [] _ = unfold read_events in refl
  read_events-partial t ds (l ∷ frame) (h, hs) =
      read_events-written t ds l (map written frame) h
      ∙ read_events-partial (next_type u t (written l)) (add_data u ds (written l)) frame hs

  read_events-lines_of :
      (frames : List (List Line)) (partial : List Line)
      → All (All IsLine) frames
      → All IsLine partial
      → read_events u [] [] (lines_of frames (map written partial)) ≡ map meaning frames
  read_events-lines_of [] partial _ p = read_events-partial [] [] partial p
  read_events-lines_of (frame ∷ frames) partial (h, hs) p =
      read_events-frame [] [] frame (lines_of frames (map written partial)) h
      ∙ ap (λ (es : List Event). meaning frame ∷ es) (read_events-lines_of frames partial hs p)

  scanned-short :
      (line : Text) (rest : List Text)
      → IsShort line
      → scanned sse_max_token_size (line ∷ rest) ≡ line ∷ scanned sse_max_token_size rest
  unfolding scanned
  scanned-short line rest h = ground arith

  scanned-unread : (rest : List Text) → IsUnread rest → scanned sse_max_token_size rest ≡ []
  unfolding scanned
  scanned-unread [] h = refl
  scanned-unread (line ∷ rest) h = ground arith

  scanned-frame :
      (frame : List Line) (rest : List Text)
      → All IsLine frame
      → scanned sse_max_token_size (map written frame ++ rest)
        ≡ map written frame ++ scanned sse_max_token_size rest
  scanned-frame [] rest _ = refl
  scanned-frame (l ∷ frame) rest (h, hs) =
      scanned-short (written l) (map written frame ++ rest) h.0
      ∙ ap (λ (ts : List Text). written l ∷ ts) (scanned-frame frame rest hs)

  scanned-partial :
      (partial : List Line) (unread : List Text)
      → All IsLine partial
      → IsUnread unread
      → scanned sse_max_token_size (map written partial ++ unread) ≡ map written partial
  scanned-partial partial unread p stop =
      scanned-frame partial unread p
      ∙ ap (λ (ts : List Text). map written partial ++ ts) (scanned-unread unread stop)
      ∙ append-nil (map written partial)

  scanned-lines_of :
      (frames : List (List Line)) (partial : List Line) (unread : List Text)
      → All (All IsLine) frames
      → All IsLine partial
      → IsUnread unread
      → scanned sse_max_token_size (lines_of frames (map written partial ++ unread))
        ≡ lines_of frames (map written partial)
  scanned-lines_of [] partial unread _ p stop = scanned-partial partial unread p stop
  scanned-lines_of (frame ∷ frames) partial unread (h, hs) p stop =
      scanned-frame frame ([] ∷ lines_of frames (map written partial ++ unread)) h
      ∙ ap (λ (ts : List Text). map written frame ++ ts)
          (scanned-short [] (lines_of frames (map written partial ++ unread)) (omega arith)
            ∙ ap (λ (ts : List Text). [] ∷ ts) (scanned-lines_of frames partial unread hs p stop))

  -- Let a stream consist of events, each ended by a blank line, then of the lines of an event that
  -- is not ended, and then of nothing or of a line of at least 4 MiB and whatever follows it. Each
  -- line before that is shorter than 4 MiB, and is an event field, a data field, or a line that is
  -- not blank and starts with neither field's name. Then `readLoop` hands over exactly the ended
  -- events, in order: each with the last type that was written for it and its data lines joined, all
  -- values trimmed.
  pub read_stream-lines_of :
      (frames : List (List Line)) (partial : List Line) (unread : List Text)
      → All (All IsLine) frames
      → All IsLine partial
      → IsUnread unread
      → read_stream u (lines_of frames (map written partial ++ unread)) ≡ map meaning frames
  unfolding read_stream
  read_stream-lines_of frames partial unread h p stop =
      ap (read_events u [] []) (scanned-lines_of frames partial unread h p stop)
      ∙ read_events-lines_of frames partial h p
