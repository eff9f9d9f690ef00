-- ===== src/Lib.antt =====
-- kanta keeps a dict in memory and its changes in a log file: each change is written as a diff of two
-- states, and opening the file replays the diffs. This library models that core.
--
-- The parts, from the state in memory to the bytes and back:
--   * Value: the JSON values that a state is made of, with Python's `==` on them, and dicts as
--     association lists. A number is an integer over a power of two, with the type that it has.
--   * Diff (kanta/diff.py): `diff` makes the diff of two states.
--   * Patch (kanta/serialization/base.py): `unmarshal` and `apply_diff` bring a state along. `none`
--     is an exception that a malformed diff raises.
--   * Structs (kanta/structs.py, and the protocol of kanta/serialization/base.py): the two records of
--     the log, and the serializer, a parameter. Theorems that decode what was encoded have it as a
--     hypothesis that the records at hand can be decoded again.
--   * Framing (kanta/serialization/framing.py, kanta/exceptions.py): the interface of a framer, the
--     errors of a replay, and a generator as a stream that ends, raises or yields.
--   * Framing.Bin (`BinFramer`): the binary frames, with their seed and their checksum. The keyed hash
--     of the package blake3 is a parameter, with the length of its digest as the hypothesis.
--     Framing.Bin.Journal describes a file independently: the frames of a list of entries.
--   * Framing.Line (`LineFramer`): one record on a line.
--   * Replay (`replay` of kanta/serialization/base.py): the last snapshot of a file, and the changes
--     behind it.
--   * LockedFile (kanta/filelock.py): a file as the other parts see it, its path included.
--     LockedFile.Unix is what `LockedFile` does on Unix, over the calls of `os`, a parameter.
--   * Rotation (kanta/rotation.py): the plan that bounds the history of a file, and its execution.
--   * SnapshotState (kanta/snapshot.py): when a snapshot is written, and its write.
--   * Persistence (kanta/persistence.py): the queue of changes, `flush_sync` and `flush`, and
--     `maybe_snapshot`. Persistence.Commands strings calls together; Persistence.Invariant says what
--     the file and the queue stand for.
--   * Migrations (kanta/migrations.py): the registry of numbered migrations, and `apply`, with a
--     migration as a parameter.
--   * Database (kanta/kantaimpl.py): the state of `KantaImpl`, and what a program gives to it.
--     Database.Open is `open`, Database.Close is `close` with the background loop of
--     kanta/persistence.py, and Database.Transaction (kanta/transaction.py) is a transaction around a
--     body. A body is what it leaves of the data, and how it ends. Of the logging of a transaction,
--     whether the chain of formatters can be built is an argument, since only that can raise.
--     `try_open` is `open` with the answer of the system to the read of the opened file, and
--     `open_database` the case that the file is read.
--   * ReplayLog (kanta/replaylog.py): the events of a file, and the ranges of them that a user asks
--     for, whose specifications are lists of code points.
--   * Terminal (kanta/tty.py): texts with escape sequences. Terminal.Shown is what a terminal shows of
--     one. Terminal.Sgr is the state that a list of SGR parameters leaves, and its transitions;
--     Terminal.Sgr.Look is a terminal's own reading of the parameters, and Terminal.Sgr.Readable the
--     specs that both read alike. Terminal.Line is the builder of lines. A color of the palette is
--     given as its parameters, split at ";".
--   * Changes (`_collect_changes` of kanta/logging.py): a diff as a flat list of changes. Logging has
--     the texts of values and paths, Logging.Lines the lines of changes, Logging.Header the headers,
--     and Logging.Events the events and their dispatch.
--   * Callbacks (kanta/callbacks.py): annotations, and what they stand for. Callbacks.Validate checks
--     the signature of a callback, Callbacks.Registry keeps and invokes callbacks, and
--     Callbacks.Formats is the chain of formatters. What a program's callbacks do is a parameter.
--   * Grep (kanta/grep.py): Grep.Patterns matches paths and values, Grep.Evaluate records and
--     snapshots; Grep.Spans has the spans of a text and the marks on them, Grep.Render the hooks that
--     mark what is rendered. The tables of Unicode and `fnmatchcase` are parameters.
--   * Base: shared names and lemmas. Examples: the theorems at small inputs.
--
-- Conventions. The clock's reading is an argument, and so is what the disk does: whether the file
-- opens, and whether a write takes its bytes, all of them or none (LockedFile.Unix has short
-- writes). Digits are ASCII where the code takes those of Unicode, in the keys of list patches and
-- the names of migrations, and the cutoff of a rotation stops at the first time, where Python raises
-- an OverflowError. Numbers are naturals, and
-- the widths of a frame's fields are the guards of `frame`, which is `none` beyond them (Python's
-- OverflowError). Fuel: `frames_from` and `lines_from` read a file with one unit more
-- than the file has bytes, and each round moves on by one byte at least; `read_chunks` reads a
-- descriptor, with the fuel as an argument; `decimal` writes a number with one unit for each digit.
--
-- Not modelled: the Windows side of kanta/filelock.py, the environment that `use_color` asks, and
-- what only prints or passes calls on (kanta/kanta.py, kanta/__main__.py, the loggers of
-- kanta/logging.py). The other parts leave out what cannot raise in their logging, and have their
-- callbacks as one function. An open and a close each run as one step, and a flush lets nothing but
-- `queue_change` run while it waits (Persistence/Interleaved): a second flush, or a cancelled one, is
-- left out. A framer's seed is passed explicitly, and what a read makes of it is `bin_framer_class`.
pub mod Base
pub mod Value
pub mod Callbacks
pub mod Diff
pub mod Patch
pub mod Framing
pub mod Structs
pub mod Replay
pub mod LockedFile
pub mod Rotation
pub mod SnapshotState
pub mod Persistence
pub mod Migrations
pub mod Database
pub mod ReplayLog
pub mod Terminal
pub mod Grep
pub mod Logging
pub mod Changes
pub mod Examples
