-- ===== src/Main/Commands.antt =====
-- When the loop of `main` ends, and what `main` has called then.
use online_judger.Common.{
  ◌≡◌, ◌∙◌, ◌↔◌, ◌⊎◌, refl, sym, ap, Bool, true, false, List, [], ◌∷◌, ◌++◌, some, ltb,
  if◌then◌else◌, Bytes, codes, bytes_eq, bytes_eq_iff, length, arith, ◌<◌, Bool-cases, inl, inr,
}
use online_judger.Config.{Config, new_config, load_config_file}
use online_judger.Os.{Os}
use online_judger.Main.Asks.{Asks, command_loop-Asks}
use online_judger.Main.{
  Call, enable_debug_msg, load_service, new_database, new_cell, stop_cell, stop_database,
  disconnect, unload_service, connect, Command, nothing, leave, call, named_command, dollar_command,
  command_of, line_of, MainEnd, returns, spins, throws, MainRun, after_command, command_loop, stuck,
  closed, main_with, main,
}

-- An input with the line "exit" behind lines that fit.
pub data Exits : List Bytes → Type 0 where
  here : {l : Bytes} {ls : List Bytes} → line_of l ≡ codes "exit" → Exits (l ∷ ls)
  later : {l : Bytes} {ls : List Bytes} → length l < 256 → Exits ls → Exits (l ∷ ls)

named_command-leave : (s : Bytes) → named_command s ≡ leave → s ≡ codes "exit"
unfolding named_command
named_command-leave s e = elim (Bool-cases (bytes_eq s (codes "exit"))) [
  | inl y ↦ (bytes_eq_iff s (codes "exit")).0 y
  | inr n ↦ absurd (
      go (bytes_eq s (codes "exit")) (bytes_eq s (codes "dbmsg on"))
        (bytes_eq s (codes "dbmsg off")) n e)
]
  where
    go :
        (a b c : Bool)
        → a ≡ false
        → (if a
            then leave
            else if b
            then call (enable_debug_msg true)
            else if c
            then call (enable_debug_msg false)
            else nothing)
          ≡ leave
        → ⊥
    go true b c n f = cc
    go false true c n f = cc
    go false false true n f = cc
    go false false false n f = cc

command_of-leave_iff : (s : Bytes) → (command_of s ≡ leave) ↔ (s ≡ codes "exit")
unfolding command_of named_command dollar_command
command_of-leave_iff [] = ((λ e. absurd cc), (λ e. absurd cc))
command_of-leave_iff (c ∷ cs) = (
  elim (Bool-cases (bytes_eq (c ∷ []) (codes "$"))) [
    | inl y ↦ (λ e. absurd (dollar cs (rw y at e)))
    | inr n ↦ (λ e. named_command-leave (c ∷ cs) (rw n at e))
  ],
  (λ e. ap command_of e),
)
  where
    dollar : (u : Bytes) → dollar_command u ≡ leave → ⊥
    dollar [] e = cc
    dollar (d ∷ u) e = cc

-- the rounds behind a command that is not "exit" decide
after_command-returns :
    (c : Command) (fits : Bool) (r : MainRun)
    → (after_command c (if fits then r else stuck)).ending ≡ returns
    → (c ≡ leave) ⊎ ((fits ≡ true) × (r.ending ≡ returns))
unfolding after_command
after_command-returns leave b r e = inl refl
after_command-returns nothing true r e = inr (refl, e)
after_command-returns nothing false r e = absurd cc
after_command-returns (call x) true r e = inr (refl, e)
after_command-returns (call x) false r e = absurd cc

returns-after_command :
    (c : Command) (fits : Bool) (r : MainRun)
    → (c ≡ leave) ⊎ ((fits ≡ true) × (r.ending ≡ returns))
    → (after_command c (if fits then r else stuck)).ending ≡ returns
unfolding after_command
returns-after_command c b r (inl e) = rw e refl
returns-after_command c b r (inr (f, e)) = rw f (go c)
  where
    go : (d : Command) → (after_command d r).ending ≡ returns
    go nothing = e
    go leave = refl
    go (call x) = e

command_loop-Exits : (ls : List Bytes) → ((command_loop ls).ending ≡ returns) ↔ Exits ls
unfolding command_loop
command_loop-Exits [] = ((λ e. absurd cc), none_left)
  where
    none_left : Exits [] → stuck.ending ≡ returns
    none_left x = elim x [ ]
command_loop-Exits (l ∷ ls) =
    let rest = command_loop-Exits ls in
    let leaves = command_of-leave_iff (line_of l) in
    let fits = ltb (length l) 256 in
    (
      (λ e. elim (after_command-returns (command_of (line_of l)) fits (command_loop ls) e) [
        | inl f ↦ here (leaves.0 f)
        | inr (f, g) ↦ later (ground arith) (rest.0 g)
      ]),
      go rest.1 leaves.1,
    )
  where
    go :
        (Exits ls → (command_loop ls).ending ≡ returns)
        → (line_of l ≡ codes "exit" → command_of (line_of l) ≡ leave)
        → Exits (l ∷ ls)
        → (after_command
            (command_of (line_of l))
            (if ltb (length l) 256 then command_loop ls else stuck)).ending
          ≡ returns
    go rest leaves (here e) =
        returns-after_command (command_of (line_of l)) (ltb (length l) 256) (command_loop ls)
          (inl (leaves e))
    go rest leaves (later h x) =
        returns-after_command (command_of (line_of l)) (ltb (length l) 256) (command_loop ls)
          (inr (ground arith, rest x))

-- the loop returns or reads on, and does not throw
after_command-ends :
    (c : Command) (fits : Bool) (r : MainRun)
    → (r.ending ≡ returns) ⊎ (r.ending ≡ spins)
    → ((after_command c (if fits then r else stuck)).ending ≡ returns)
      ⊎ ((after_command c (if fits then r else stuck)).ending ≡ spins)
unfolding after_command
after_command-ends leave b r e = inl refl
after_command-ends nothing true r e = e
after_command-ends nothing false r e = inr refl
after_command-ends (call x) true r e = e
after_command-ends (call x) false r e = inr refl

command_loop-ends :
    (ls : List Bytes) → ((command_loop ls).ending ≡ returns) ⊎ ((command_loop ls).ending ≡ spins)
unfolding command_loop
command_loop-ends [] = inr refl
command_loop-ends (l ∷ ls) =
    after_command-ends (command_of (line_of l)) (ltb (length l) 256) (command_loop ls)
      (command_loop-ends ls)

closed-ending : (r : MainRun) → (closed r).ending ≡ r.ending
unfolding closed
closed-ending r = go r.ending refl
  where
    go : (e : MainEnd) → r.ending ≡ e → (closed r).ending ≡ r.ending
    go returns h = rw (h, closed) h
    go spins h = rw (h, closed) h
    go throws h = rw (h, closed) h

-- the calls behind the loop: the cell stops before the manager, and the connection is closed last
abbrev pub stops : List Call
stops = stop_cell ∷ stop_database ∷ disconnect ∷ unload_service ∷ []

closed-calls : (r : MainRun) → r.ending ≡ returns → (closed r).calls ≡ r.calls ++ stops
unfolding closed
closed-calls r h = rw (h, closed) refl

-- what `main` calls up to the loop
abbrev pub start_up : Config → List Call
start_up c =
    load_service
    ∷ connect c.db_ip c.db_port c.db_user_name c.db_password c.db_name
    ∷ new_database
    ∷ new_cell c.cores
    ∷ []

-- With the settings loaded, the service loaded and the database connected, `main` returns exactly if
-- the line "exit" comes behind lines of at most 255 characters, and otherwise reads empty lines
-- forever. If it returns, it has loaded the service, connected, started the database manager and then
-- the cell, has done in order what each line up to "exit" asks for, which is a command of the shell
-- behind a dollar, or to turn the messages on or off, or nothing; and then it has stopped the cell,
-- stopped the manager, closed the connection and unloaded the service.
pub main_returns_iff :
    (os : Os) (w : os.World) (c : Config) (ls : List Bytes)
    → load_config_file os new_config (codes "config.xml") w ≡ some (c, true)
    → (((main os w true true ls).ending ≡ returns) ↔ Exits ls)
      × (Exits ls
          → (cs : List Call) × Asks ls cs
            × ((main os w true true ls).calls ≡ start_up c ++ (cs ++ stops)))
      × (((main os w true true ls).ending ≡ returns) ⊎ ((main os w true true ls).ending ≡ spins))
unfolding main main_with
main_returns_iff os w c ls h =
    let r = command_loop ls in
    let (to, from) = command_loop-Exits ls in
    let ending : (main os w true true ls).ending ≡ r.ending = rw (h, main) (closed-ending r) in
    let all : main os w true true ls ≡ main_with c true true ls = rw (h, main) refl in
    (
      ((λ e. to (sym ending ∙ e)), (λ x. ending ∙ from x)),
      (λ x. (
        r.calls,
        command_loop-Asks ls (from x),
        ap (λ m. m.calls) all ∙ ap (λ cs. start_up c ++ cs) (closed-calls r (from x)),
      )),
      elim (command_loop-ends ls) [ inl e ↦ inl (ending ∙ e) | inr e ↦ inr (ending ∙ e) ],
    )
