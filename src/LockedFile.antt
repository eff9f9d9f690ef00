-- ===== src/LockedFile.antt =====
-- filelock.py: `LockedFile` on Unix, and the path that it stands for. What the system answers is an
-- argument: whether another process holds the lock.
pub mod Unix
pub mod Outcomes
pub mod Content
use kanta.Base.{
  Bool, true, false, not, ◌&&◌, ◌||◌, Option, none, some, if◌then◌else◌, [], ◌++◌, ℕ, length,
}
use kanta.Base.Bytes.{Bytes}

-- whether the descriptor is open, whether there is a file at the path, and what it holds
pub record File : Type 0 where
  pub is_open : Bool
  pub exists : Bool
  pub content : Bytes

abbrev pub no_file : File
no_file = record { is_open = false; exists = false; content = [] }

-- `open`; false is the FileLockError of a file that is not found or is locked. A file that is
-- created for a lock that is not granted stays.
unfoldable pub open_file : File → Bool → Bool → Bool → File × Bool
open_file self create readonly lock_free =
    if self.is_open
    then (self, true)
    else if not self.exists && (readonly || not create)
    then (self, false)
    else if readonly || lock_free
    then (record self { exists = true; is_open = true }, true)
    else (record self { exists = true }, false)

-- `read`; none is the RuntimeError of a closed file
unfoldable pub read_file : File → Option Bytes
read_file self = if self.is_open then some self.content else none

-- `write`, where the system takes all bytes
unfoldable pub append : File → Bytes → File
append self bytes = record self { content = self.content ++ bytes }

unfoldable pub replace_content : File → Bytes → File
replace_content self bytes = record self { content = bytes }

unfoldable pub close_file : File → File
close_file self = record self { is_open = false }

-- path.unlink(missing_ok=True)
unfoldable pub unlink : File → File
unlink self = record self { exists = false; content = [] }
