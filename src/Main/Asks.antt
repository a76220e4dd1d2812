-- ===== src/Main/Asks.antt =====
-- What the lines that `main` reads ask for.
use online_judger.Common.{
  ◌≡◌, ◌≢◌, ℕ, Bool, true, false, List, [], ◌∷◌, ltb, if◌then◌else◌, Bytes, codes, bytes_eq,
  bytes_eq_iff, length, arith, Bool-cases, inl, inr,
}
use online_judger.Main.{
  Call, enable_debug_msg, system, Command, nothing, leave, call, named_command, dollar_command,
  command_of, line_of, returns, MainRun, after_command, command_loop, stuck,
}

-- no line of a command
abbrev IsOther : Bytes → Type 0
IsOther s =
    (s ≢ codes "exit")
    × (s ≢ codes "dbmsg on")
    × (s ≢ codes "dbmsg off")
    × ((c : ℕ) (cmd : Bytes) → s ≢ b'$' ∷ c ∷ cmd)

-- what a line asks for, by its text
pub data Means (s : Bytes) : Command → Type 0 where
  exit : s ≡ codes "exit" → Means s leave
  shell : (c : ℕ) (cmd : Bytes) → s ≡ b'$' ∷ c ∷ cmd → Means s (call (system (c ∷ cmd)))
  debug_on : s ≡ codes "dbmsg on" → Means s (call (enable_debug_msg true))
  debug_off : s ≡ codes "dbmsg off" → Means s (call (enable_debug_msg false))
  other : IsOther s → Means s nothing

-- The calls that the lines ask for, up to the first line "exit".
pub data Asks : List Bytes → List Call → Type 0 where
  ends : {l : Bytes} {ls : List Bytes} → Means (line_of l) leave → Asks (l ∷ ls) []
  skips :
      {l : Bytes} {ls : List Bytes} {cs : List Call}
      → Means (line_of l) nothing
      → Asks ls cs
      → Asks (l ∷ ls) cs
  calls :
      {l : Bytes} {ls : List Bytes} {c : Call} {cs : List Call}
      → Means (line_of l) (call c)
      → Asks ls cs
      → Asks (l ∷ ls) (c ∷ cs)

different : (s t : Bytes) → bytes_eq s t ≡ false → s ≢ t
different s t e h = let same = (bytes_eq_iff s t).1 h in absurd cc

named_command-Means :
    (s : Bytes) → ((c : ℕ) (cmd : Bytes) → s ≢ b'$' ∷ c ∷ cmd) → Means s (named_command s)
unfolding named_command
named_command-Means s plain = elim (Bool-cases (bytes_eq s (codes "exit"))) [
  | inl e ↦ rw (e) (exit ((bytes_eq_iff s (codes "exit")).0 e))
  | inr e ↦ elim (Bool-cases (bytes_eq s (codes "dbmsg on"))) [
    | inl f ↦ rw (e, f) (debug_on ((bytes_eq_iff s (codes "dbmsg on")).0 f))
    | inr f ↦ elim (Bool-cases (bytes_eq s (codes "dbmsg off"))) [
      | inl g ↦ rw (e, f, g) (debug_off ((bytes_eq_iff s (codes "dbmsg off")).0 g))
      | inr g ↦ rw (e, f, g) (other (different s _ e, different s _ f, different s _ g, plain))
    ]
  ]
]

command_of-Means : (s : Bytes) → Means s (command_of s)
unfolding command_of dollar_command
command_of-Means [] =
    other ((λ e. absurd cc), (λ e. absurd cc), (λ e. absurd cc), λ c cmd e. absurd cc)
command_of-Means (c ∷ cs) = elim (Bool-cases (bytes_eq (c ∷ []) (codes "$"))) [
  | inl e ↦ rw (e) (dollar cs ((bytes_eq_iff (c ∷ []) (codes "$")).0 e))
  | inr e ↦ rw (e) (
      named_command-Means (c ∷ cs) (λ d cmd h.
        let same : c ∷ [] ≡ codes "$" = ground arith in
        absurd (different (c ∷ []) (codes "$") e same)))
]
  where
    dollar : (u : Bytes) → c ∷ [] ≡ codes "$" → Means (c ∷ u) (dollar_command u)
    dollar [] e =
        other ((λ h. ground arith), (λ h. ground arith), (λ h. ground arith), λ d cmd h. absurd cc)
    dollar (d ∷ u) e = shell d u (ground arith)

after_command-Asks :
    (l : Bytes) (ls : List Bytes) (c : Command) (fits : Bool) (r : MainRun)
    → Means (line_of l) c
    → (r.ending ≡ returns → Asks ls r.calls)
    → (after_command c (if fits then r else stuck)).ending ≡ returns
    → Asks (l ∷ ls) (after_command c (if fits then r else stuck)).calls
unfolding after_command
after_command-Asks l ls leave b r m asks e = ends m
after_command-Asks l ls nothing true r m asks e = skips m (asks e)
after_command-Asks l ls nothing false r m asks e = absurd cc
after_command-Asks l ls (call x) true r m asks e = calls m (asks e)
after_command-Asks l ls (call x) false r m asks e = absurd cc

pub command_loop-Asks :
    (ls : List Bytes) → (command_loop ls).ending ≡ returns → Asks ls (command_loop ls).calls
unfolding command_loop
command_loop-Asks [] e = absurd cc
command_loop-Asks (l ∷ ls) e =
    after_command-Asks l ls (command_of (line_of l)) (ltb (length l) 256) (command_loop ls)
      (command_of-Means (line_of l)) (command_loop-Asks ls) e
