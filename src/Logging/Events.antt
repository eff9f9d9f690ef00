-- ===== src/Logging/Events.antt =====
-- logging.py: events, and how they are dispatched.
use kanta.Base.{ℕ, suc, Bool, ◌&&◌, Option, none, some, List, [], ◌∷◌, ◌++◌, map, if◌then◌else◌}
use kanta.Base.ParseInt.{codes}
use kanta.Database.{decimal}
use kanta.Terminal.{Text, strip_ansi}
use kanta.Terminal.Line.{joined}
use kanta.Logging.{Colors, join_parts}
use kanta.Logging.Header.{format_action_header, aborted_header}

-- `kind`
pub data EventKind : Type 0 where
  change created opened migrated aborted : EventKind

-- `LogEvent`, as far as it is rendered: the extra and the error as texts, and the lines of the diff
pub record LogEvent : Type 0 where
  pub kind : EventKind
  pub action : Option Text
  pub user : Option Text
  pub extra : Option Text
  pub error : Text
  pub show_diff : Bool
  pub filename : Text
  pub from_version : ℕ
  pub to_version : ℕ
  pub migrations : List Text
  pub header : Option Text
  pub diff_lines : List Text

abbrev or_empty : Option Text → Text
or_empty none = []
or_empty (some t) = t

-- a line for a file, behind its sign
abbrev file_line : Text → Text → Text
file_line filename verb = 128738 ∷ 65039 ∷ b' ' ∷ (filename ++ verb)

abbrev version_text : ℕ → Text
version_text n = b'v' ∷ codes (decimal (suc n) n "")

-- a message for the event's logger, or for its child ".diff"
pub data Message : Type 0 where
  to_logger to_diff : Text → Message

-- `_maybe_strip`, with what `use_color` says
unfoldable pub maybe_strip : Bool → Text → Text
unfolding strip_ansi
maybe_strip use_color t = if use_color then t else strip_ansi t

-- the messages of a change; no lines where the child logger is not enabled
unfoldable pub emit_change : Bool → Text → List Text → List Message
unfolding maybe_strip
emit_change use_color header [] = to_logger (maybe_strip use_color header) ∷ []
emit_change use_color header (line ∷ []) = to_diff (maybe_strip use_color (header ++ line)) ∷ []
emit_change use_color header (line ∷ lines) =
    to_logger (maybe_strip use_color header)
    ∷ map (λ l. to_diff (maybe_strip use_color l)) (line ∷ lines)

module _ (palette : Colors) where
  -- `_build_header`
  unfoldable pub build_header : LogEvent → Text
  unfolding format_action_header aborted_header
  build_header self = elim self.kind [
    | created ↦ file_line self.filename (codes " created")
    | opened ↦ file_line self.filename (codes " opened")
    | migrated ↦ file_line self.filename (
        codes " migrated "
        ++ (version_text self.from_version
            ++ (codes " -> "
                ++ (version_text self.to_version ++ (codes ": " ++ join_parts self.migrations)))))
    | change ↦
        joined (format_action_header palette (or_empty self.action) self.user self.extra none)
    | aborted ↦
        joined (aborted_header palette (or_empty self.action) self.user self.extra self.error)
  ]

  -- `header`, which is built where it is not set
  unfoldable pub header_of : LogEvent → Text
  unfolding build_header
  header_of self = elim self.header [ none ↦ build_header self | some header ↦ header ]

  -- `default_emit`
  unfoldable pub default_emit : Bool → Bool → LogEvent → List Message
  unfolding header_of emit_change
  default_emit use_color is_enabled ev = elim ev.kind [
    | change ↦
        emit_change use_color (header_of ev)
          (if ev.show_diff && is_enabled then ev.diff_lines else [])
    | _ ↦ to_logger (maybe_strip use_color (header_of ev)) ∷ []
  ]

-- what a handler returns, or that it raises, with the event as it leaves it
pub data Handled : Type 0 where
  passes stops crashes : LogEvent → Handled

-- the event that the fallback is called with, and how many errors are reported
pub record Emission : Type 0 where
  pub rendered : Option LogEvent
  pub reports : ℕ

module _ (fallback_raises : LogEvent → Bool) where
  -- render(ev), whose exception is reported
  abbrev pub render : LogEvent → Emission
  render ev = record { rendered = some ev; reports = if fallback_raises ev then 1 else 0 }

  -- `emit_event`
  unfoldable pub emit_event : LogEvent → List (LogEvent → Handled) → Emission
  emit_event ev [] = render ev
  emit_event ev (handler ∷ handlers) = elim (handler ev) [
    | passes ev' ↦ emit_event ev' handlers
    | stops ev' ↦ record { rendered = none; reports = 0 }
    | crashes ev' ↦ record (render ev') { reports = suc (render ev').reports }
  ]
