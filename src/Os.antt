-- ===== src/Os.antt =====
-- What the program takes from Windows and from the run-time library: files, directories, child
-- processes. The world is what these calls read and change; none of its laws is assumed.
use online_judger.Common.{ℕ, Bool, List, Option, Bytes}
use online_judger.Common.Int.{ℤ}
use online_judger.Process.{DebugEvent, JobMessage}
use online_judger.Watcher.{Sample}

-- the outcome of `DeleteFile`, with `GetLastError` where it fails
pub data Deletion : Type 0 where
  deleted not_found refused : Deletion

-- an entry that `FindFirstFile` and `FindNextFile` deliver
pub record Found : Type 0 where
  pub file_name : Bytes
  pub is_dot : Bool
  pub is_dir : Bool

-- a run under the debugger, as the judge and its watcher see it
pub record DebugRun : Type 0 where
  pub events : List DebugEvent
  pub samples : List Sample
  pub last : Sample
  pub exit_code : ℕ

-- a run in a job object: whether the process was assigned to it, its messages, and the accounts
pub record JobRun : Type 0 where
  pub assigned : Bool
  pub messages : List JobMessage
  pub total_user_time : ℕ
  pub peak_process_memory : ℕ

pub record Os : Type 1 where
  pub World : Type 0
  -- `GetFileAttributes` finds the name
  pub has_file : Bytes → World → Bool
  pub delete_file : Bytes → World → Deletion × World
  pub create_directory : Bytes → World → Bool × World
  -- the entries that fit a pattern; none if `FindFirstFile` fails
  pub find : Bytes → World → List Found
  -- what a stream opened in text mode delivers; none if it does not open
  pub read_text : Bytes → World → Option Bytes
  -- what a file opened in binary mode holds; none if it does not open
  pub read_binary : Bytes → World → Option Bytes
  -- a file opened in text mode and written anew; none if it does not open
  pub write_text : Bytes → Bytes → World → Option World
  pub sleep : ℕ → World → World
  -- `CreateProcess` with a command line, an input and an output file
  pub create_process : Bytes → Bytes → Bytes → World → Bool × World
  -- `waitExit` on the process that was created last: at most so many milliseconds, then the exit code
  pub wait_exit : ℤ → World → ℕ × World
  -- the process that was created last, run to its end
  pub debug_run : World → DebugRun × World
  pub job_run : World → JobRun × World
