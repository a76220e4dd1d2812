-- ===== src/Main.antt =====
-- `main` of Judger/main.cpp: the calls that it makes of the other parts, in order, and the loop that
-- reads commands. The parts run in threads of their own between the calls. The title of the window,
-- the locale, the current directory and the log are left out.
pub mod Asks
pub mod Commands
use online_judger.Common.{
  ℕ, Bool, true, false, List, [], ◌∷◌, ◌++◌, Option, none, some, ltb, if◌then◌else◌, Bytes, codes,
  bytes_eq, length, take,
}
use online_judger.Common.Int.{ℤ}
use online_judger.Config.{Config, new_config, load_config_file}
use online_judger.Os.{Os}
use online_judger.Text.{until_nul}

pub data Call : Type 0 where
  load_service new_database stop_cell stop_database disconnect unload_service : Call
  connect : Bytes → ℤ → Bytes → Bytes → Bytes → Call
  new_cell : ℤ → Call
  system : Bytes → Call
  enable_debug_msg : Bool → Call

-- what a line asks for
pub data Command : Type 0 where
  nothing leave : Command
  call : Call → Command

-- the tests of the loop behind those for an empty line and a dollar
pub named_command : Bytes → Command
named_command str =
    if bytes_eq str (codes "exit")
    then leave
    else if bytes_eq str (codes "dbmsg on")
    then call (enable_debug_msg true)
    else if bytes_eq str (codes "dbmsg off")
    then call (enable_debug_msg false)
    else nothing

pub dollar_command : Bytes → Command
dollar_command [] = nothing
dollar_command (c ∷ cmd) = call (system (c ∷ cmd))

unfoldable pub command_of : Bytes → Command
unfolding named_command dollar_command
command_of [] = nothing
command_of (c ∷ cs) =
    if bytes_eq (c ∷ []) (codes "$") then dollar_command cs else named_command (c ∷ cs)

-- `getline` into 256 characters, as a string
unfoldable pub line_of : Bytes → Bytes
line_of l = until_nul (take 255 l)

-- how `main` ends: it returns, it reads empty lines forever, or an exception leaves it
pub data MainEnd : Type 0 where
  returns spins throws : MainEnd

pub record MainRun : Type 0 where
  pub calls : List Call
  pub ending : MainEnd

-- a round of the loop, by the command and the rounds behind it
pub after_command : Command → MainRun → MainRun
after_command nothing later = later
after_command leave later = record { calls = []; ending = returns }
after_command (call c) later = record later { calls = c ∷ later.calls }

abbrev pub stuck : MainRun
stuck = record { calls = []; ending = spins }

-- The loop on the lines of the input. A line that does not fit and the end of the input put the stream
-- into a state of failure that is never cleared, in which `getline` gives empty lines.
unfoldable pub command_loop : List Bytes → MainRun
unfolding after_command
command_loop [] = stuck
command_loop (l ∷ ls) =
    let later = command_loop ls in
    after_command (command_of (line_of l)) (if ltb (length l) 256 then later else stuck)

-- behind the loop
abbrev pub shut_down : List Call
shut_down = stop_cell ∷ stop_database ∷ disconnect ∷ unload_service ∷ []

pub closed : MainRun → MainRun
closed r = elim r.ending [ returns ↦ record r { calls = r.calls ++ shut_down } | _ ↦ r ]

abbrev pub connect_call : Config → Call
connect_call c = connect c.db_ip c.db_port c.db_user_name c.db_password c.db_name

-- with the settings loaded; the flags say what `loadService` and `connect` return
pub main_with : Config → Bool → Bool → List Bytes → MainRun
unfolding closed
main_with c false connected ls = record { calls = load_service ∷ []; ending = returns }
main_with c true false ls = record { calls = load_service ∷ connect_call c ∷ []; ending = returns }
main_with c true true ls =
    let r = closed (command_loop ls) in
    record r { calls = load_service ∷ connect_call c ∷ new_database ∷ new_cell c.cores ∷ r.calls }

pub main : (os : Os) → os.World → Bool → Bool → List Bytes → MainRun
main os w loaded connected ls = elim (load_config_file os new_config (codes "config.xml") w) [
  | none ↦ record { calls = []; ending = throws }
  | some (c, false) ↦ record { calls = []; ending = returns }
  | some (c, true) ↦ main_with c loaded connected ls
]
