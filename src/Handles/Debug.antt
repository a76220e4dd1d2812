-- ===== src/Handles/Debug.antt =====
-- `ZProcessInOut` and `ZProcessDebug` of acm/ZProcess.cpp over their whole life.
use online_judger.Common.{
  ℕ, ◌+◌, ◌<◌, ◌≡◌, refl, Bool, true, false, List, [], ◌∷◌, if◌then◌else◌, Option, none, some,
  Bytes, length, arith,
}
use online_judger.Handles.{
  Handle, null, Kernel, ProcessInOut, create_in_out, start_in_out, destroy, debug_rounds,
  start_debug, create_debug, then_start, suspended, debug_only_this_process,
}
use online_judger.Handles.Lives.{compiler_process, debugged_process, end_compiler, end_debugged}
use online_judger.Handles.Accounts.{
  one, each, owned, Ledger, Grows, Quiet, Grows-trans, Grows-Quiet, Grows-eq, IsLawful,
  safe_close_handle-Grows, destroy-Grows, close_files_and_thread-Grows, Holds,
  open_and_create-Holds,
}
use online_judger.Process.{
  DebugEvent, create_process, breakpoint, exception, other, exit_process, ContinueStatus,
  dbg_continue, next_status,
}

module _ (kernel : Kernel) (ledger : Ledger kernel) (lawful : IsLawful kernel ledger) where
  open kernel use {World}

  -- The files that the events of another kind bring, such as the loading of a DLL, up to the end of the
  -- process: one for each, as `WaitForDebugEvent` gives it.
  pub data Delivered : List DebugEvent → List Handle → Type 0 where
    no_events : Delivered [] []
    exits : {es : List DebugEvent} (code : ℕ) → Delivered (exit_process code ∷ es) []
    creates :
        {es : List DebugEvent} {hs : List Handle}
        → Delivered es hs
        → Delivered (create_process ∷ es) hs
    breaks :
        {es : List DebugEvent} {hs : List Handle} → Delivered es hs → Delivered (breakpoint ∷ es) hs
    raises :
        {es : List DebugEvent} {hs : List Handle} → Delivered es hs → Delivered (exception ∷ es) hs
    brings :
        {es : List DebugEvent} {hs : List Handle} (v : World)
        → Delivered es hs
        → Delivered (other ∷ es) ((kernel.wait_for_debug_event other v).0 ∷ hs)

  -- from `w` to `w'` the open handles grow by `g` and by the files that the events bring
  abbrev pub Left : World → World → (ℕ → ℕ) → List DebugEvent → Type 0
  Left w w' g es =
      (hs : List Handle) × Delivered es hs × Grows kernel ledger w w' (λ j. g j + each hs j)

  -- one more file that stays open
  left_open :
      (w w' : World) (g : ℕ → ℕ) (v : World) (es : List DebugEvent)
      → Left w w' (λ j. one (kernel.wait_for_debug_event other v).0 j + g j) es
      → Left w w' g (other ∷ es)
  left_open w w' g v es (hs, d, o) = (
    (kernel.wait_for_debug_event other v).0 ∷ hs,
    brings v d,
    Grows-eq kernel ledger w w' _ _ (λ j. omega arith) o,
  )

  widen :
      {w w' : World} (g : ℕ → ℕ) {es fs : List DebugEvent}
      → ((hs : List Handle) → Delivered es hs → Delivered fs hs)
      → Left w w' g es
      → Left w w' g fs
  widen g f (hs, d, o) = (hs, f hs d, o)

  arrives :
      (e : DebugEvent) (w w' : World) (g : ℕ → ℕ)
      → Grows kernel ledger w w' g
      → Grows kernel ledger w
          (kernel.wait_for_debug_event e w').1
          (λ j. one (kernel.wait_for_debug_event e w').0 j + g j)
  arrives e w w' g o =
      Grows-eq kernel ledger w _ _ _ (λ j. omega arith)
        (Grows-trans kernel ledger w w' _ _ _ o (lawful.wait e w'))

  arrives_bare :
      (e : DebugEvent) (w w' : World) (g : ℕ → ℕ)
      → (kernel.wait_for_debug_event e w').0 ≡ null
      → Grows kernel ledger w w' g
      → Grows kernel ledger w (kernel.wait_for_debug_event e w').1 g
  arrives_bare e w w' g bare o =
      Grows-eq kernel ledger w _ _ _ (λ j. rw (bare) (omega arith)) (arrives e w w' g o)

  continued :
      (s : ContinueStatus) (w w' : World) (g : ℕ → ℕ)
      → Grows kernel ledger w w' g
      → Grows kernel ledger w (kernel.continue_debug_event s w') g
  continued s w w' g o = Grows-Quiet kernel ledger w w' _ g o (lawful.continue s w')

  debug_rounds-Left :
      (status : ContinueStatus) (es : List DebugEvent) (w w' : World) (g : ℕ → ℕ)
      → Grows kernel ledger w w' g
      → Left w (debug_rounds kernel status es w').1 g es
  unfolding debug_rounds
  debug_rounds-Left status [] w w' g o =
      ([], no_events, Grows-eq kernel ledger w w' _ _ (λ j. omega arith) o)
  debug_rounds-Left status (create_process ∷ es) w w' g o =
      widen g (λ hs. creates)
        (debug_rounds-Left (next_status status create_process) es w _ g (
          continued _ w _ g (
            safe_close_handle-Grows kernel ledger lawful _ w _ g
              (arrives create_process w w' g o))))
  debug_rounds-Left status (breakpoint ∷ es) w w' g o =
      widen g (λ hs. breaks)
        (debug_rounds-Left (next_status status breakpoint) es w _ g
          (continued _ w _ g (arrives_bare breakpoint w w' g (lawful.carries breakpoint w') o)))
  debug_rounds-Left status (exception ∷ es) w w' g o =
      widen g (λ hs. raises)
        (debug_rounds-Left (next_status status exception) es w _ g
          (continued _ w _ g (arrives_bare exception w w' g (lawful.carries exception w') o)))
  debug_rounds-Left status (other ∷ es) w w' g o = left_open w _ g w' es (
      debug_rounds-Left (next_status status other) es w _
        (λ j. one (kernel.wait_for_debug_event other w').0 j + g j)
        (continued _ w _ _ (arrives other w w' g o)))
  debug_rounds-Left status (exit_process code ∷ es) w w' g o = (
    [],
    exits code,
    Grows-eq kernel ledger w _ _ _ (λ j. omega arith)
        (Grows-Quiet kernel ledger w _ _ g
          (arrives_bare (exit_process code) w w' g (lawful.carries (exit_process code) w') o)
          (lawful.stop _)),
  )

  start_debug-Left :
      (es : List DebugEvent) (p : ProcessInOut) (w w' : World)
      → Grows kernel ledger w w' (owned p)
      → let r = start_debug kernel es p w' in Left w r.2 (owned r.1) es
  unfolding start_debug
  start_debug-Left es p w w' o = debug_rounds-Left dbg_continue es w _ _ (
      Grows-eq kernel ledger w _ _ _ (λ j. omega arith)
        (close_files_and_thread-Grows kernel ledger lawful p w _ (λ j. 0)
          (Grows-eq kernel ledger w _ _ _ (λ j. omega arith)
            (Grows-Quiet kernel ledger w w' _ _ o (lawful.resume p.h_thread w')))))

  -- where an object holds all that a life opened, but for some files, its end leaves these open
  ends :
      (p : ProcessInOut) (w w' : World) (es : List DebugEvent)
      → Left w w' (owned p) es
      → Left w (destroy kernel p w') (λ j. 0) es
  ends p w w' es (hs, l, o) = (
    hs,
    l,
    Grows-eq kernel ledger w _ _ _ (λ j. omega arith)
        (destroy-Grows kernel ledger lawful p w w' (each hs) o),
  )

  abbrev pub Closed : World → Option (Bool × World) → List DebugEvent → Type 0
  Closed w life es =
      (created : Bool) × (w' : World) × (life ≡ some (created, w'))
      × Left w w' (λ j. 0) (if created then es else [])

  abbrev pub IsQuiet : (World → World) → Type 0
  IsQuiet wait = (v : World) → Quiet kernel ledger v (wait v)

  none_left : (w w' : World) (g : ℕ → ℕ) → Grows kernel ledger w w' g → Left w w' g []
  none_left w w' g o = ([], no_events, Grows-eq kernel ledger _ _ _ _ (λ j. omega arith) o)

  end_compiler-Closed :
      (wait : World → World) (w : World) (made : Option (Bool × ProcessInOut × World))
      → IsQuiet wait
      → Holds kernel ledger lawful w made
      → Closed w
          (end_compiler kernel wait
            (then_start kernel true (λ q v. (q, start_in_out kernel q v)) made))
          []
  unfolding end_compiler
  end_compiler-Closed wait w none quiet h = absurd h
  end_compiler-Closed wait w (some (false, p, w1)) quiet h =
      (false, _, refl, ends p w w1 [] (none_left w _ _ h))
  end_compiler-Closed wait w (some (true, p, w1)) quiet h = (
    true,
    _,
    refl,
    ends p w _ [] (
        none_left w _ _ (
          Grows-Quiet kernel ledger w _ _ _
            (Grows-Quiet kernel ledger w w1 _ _ h (lawful.resume p.h_thread w1)) (quiet _))),
  )

  end_debugged-Closed :
      (es : List DebugEvent) (watch : World → World) (w : World)
      (made : Option (Bool × ProcessInOut × World))
      → IsQuiet watch
      → Holds kernel ledger lawful w made
      → Closed w
          (end_debugged kernel es watch (
            then_start kernel false
              (λ q v. let (ok, q', v') = start_debug kernel es q v in (q', v'))
              made))
          es
  unfolding end_debugged
  end_debugged-Closed es watch w none quiet h = absurd h
  end_debugged-Closed es watch w (some (false, p, w1)) quiet h =
      (false, _, refl, ends p w w1 [] (none_left w _ _ h))
  end_debugged-Closed es watch w (some (true, p, w1)) quiet h =
      let (hs, l, o) = start_debug-Left es p w w1 h in
      (
        true,
        _,
        refl,
        ends (start_debug kernel es p w1).1 w _ es
            (hs, l, Grows-Quiet kernel ledger w _ _ _ o (quiet _)),
      )

  -- The compiler's process, over any kernel whose calls account for handles as Windows documents it,
  -- for a command below 1024 characters and a wait that opens and closes nothing: the code comes to its
  -- end, by which every handle that it opened is closed again, whether or not the process was created,
  -- and no handle was closed that was not open.
  pub compiler_process-Closed :
      (out_file cmd : Bytes) (wait : World → World) (w : World)
      → length cmd < 1024
      → IsQuiet wait
      → Closed w (compiler_process kernel out_file cmd wait w) []
  unfolding compiler_process create_in_out
  compiler_process-Closed out_file cmd wait w short quiet =
      end_compiler-Closed wait w _ quiet
        (open_and_create-Holds kernel ledger lawful (suspended ∷ []) [] out_file cmd w short)

  -- The process under the debugger, over any kernel whose calls account for handles as Windows
  -- documents it, for a command below 1024 characters, any debug events, and a watch that opens and
  -- closes nothing: the code comes to its end, and no handle was closed that was not open. What is still open
  -- of what it opened are the files that `WaitForDebugEvent` gave with the events of another kind,
  -- such as the loading of a DLL, one for each such event before the end of the process; there is
  -- none if the process was not created. The handles of process and threads that debug events carry are
  -- left to Windows and not counted.
  pub debugged_process-Closed :
      (in_file out_file cmd : Bytes) (es : List DebugEvent) (watch : World → World) (w : World)
      → length cmd < 1024
      → IsQuiet watch
      → Closed w (debugged_process kernel in_file out_file cmd es watch w) es
  unfolding debugged_process create_debug
  debugged_process-Closed in_file out_file cmd es watch w short quiet =
      end_debugged-Closed es watch w _ quiet (
        open_and_create-Holds kernel ledger lawful (suspended ∷ debug_only_this_process ∷ [])
          in_file out_file cmd w short)
