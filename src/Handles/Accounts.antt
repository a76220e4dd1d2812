-- ===== src/Handles/Accounts.antt =====
-- What is assumed of the handles of Windows, and how the handles of an object are accounted for. A
-- handle is open as often as `count` says; `faults` counts the calls of `CloseHandle` on a handle that
-- is not open.
use online_judger.Common.{
  ℕ, ◌+◌, ◌≤◌, ◌<◌, leb, ◌≡◌, refl, ◌∙◌, sym, Bool, false, List, [], ◌∷◌, Option, none, some, ◌==◌,
  if◌then◌else◌, Bytes, length, arith,
}
use online_judger.Handles.{
  JobInformation, Handle, null, invalid, handle, Kernel, CreationFlag, ProcessInOut,
  safe_close_handle, create_input_file, create_output_file, destroy, close_files_and_thread,
  open_and_create, adopt, new_in_out,
}
use online_judger.Process.{
  JobMessage, DebugEvent, create_process, breakpoint, exception, other, exit_process,
  ContinueStatus,
}

-- how often a value of type `HANDLE` is the handle `j`
abbrev pub one : Handle → ℕ → ℕ
one null j = 0
one invalid j = 0
one (handle n) j = if n == j then 1 else 0

abbrev pub each : List Handle → ℕ → ℕ
each [] j = 0
each (h ∷ hs) j = one h j + each hs j

abbrev pub pair : Option (Handle × Handle) → ℕ → ℕ
pair none j = 0
pair (some (g, h)) j = one g j + one h j

abbrev pub owned : ProcessInOut → ℕ → ℕ
owned p j = one p.h_process j + one p.h_thread j + one p.h_input j + one p.h_output j

-- what a debug event can carry: only the creation of the process, and the loading of a DLL, which is
-- among the other events, come with a file
abbrev pub CarriesFile : DebugEvent → Handle → Type 0
CarriesFile create_process h = Unit {0}
CarriesFile other h = Unit {0}
CarriesFile breakpoint h = h ≡ null
CarriesFile exception h = h ≡ null
CarriesFile (exit_process code) h = h ≡ null

pub record Ledger (kernel : Kernel) : Type 0 where
  pub count : kernel.World → ℕ → ℕ
  pub faults : kernel.World → ℕ

module _ (kernel : Kernel) (ledger : Ledger kernel) where
  open kernel use {
    World, close_handle, open_to_read, open_to_write, start_process, resume_thread,
    wait_for_debug_event, continue_debug_event, stop_debugging, create_job, set_information,
    create_completion_port, assign_process, next_message, terminate_job, sleep,
  }
  open ledger use {count, faults}

  -- from one world to a later one, with no fault between them, the open handles grow by `g`
  abbrev pub Grows : World → World → (ℕ → ℕ) → Type 0
  Grows w w' g = (faults w' ≡ faults w) × ((j : ℕ) → count w' j ≡ count w j + g j)

  abbrev pub Quiet : World → World → Type 0
  Quiet w w' = Grows w w' (λ j. 0)

  pub record IsLawful : Type 0 where
    -- closing undoes opening; INVALID_HANDLE_VALUE is the process itself, whose closing does nothing
    pub close :
        (n : ℕ) (w : World) → 1 ≤ count w n → Grows (close_handle (handle n) w) w (one (handle n))
    pub close_invalid : (w : World) → Quiet w (close_handle invalid w)
    pub read :
        (name : Bytes) (w : World) → Grows w (open_to_read name w).1 (one (open_to_read name w).0)
    pub write :
        (name : Bytes) (w : World) → Grows w (open_to_write name w).1 (one (open_to_write name w).0)
    pub start :
        (cmd : Bytes) (flags : List CreationFlag) (i o : Handle) (w : World)
        → Grows w (start_process cmd flags i o w).1 (pair (start_process cmd flags i o w).0)
    pub resume : (h : Handle) (w : World) → Quiet w (resume_thread h w)
    -- Only files are counted here. The handles of the process and of its threads that debug events
    -- carry are Windows' own, which closes them as the events of their ends are continued.
    pub wait :
        (e : DebugEvent) (w : World)
        → Grows w (wait_for_debug_event e w).1 (one (wait_for_debug_event e w).0)
    pub carries : (e : DebugEvent) (w : World) → CarriesFile e (wait_for_debug_event e w).0
    pub continue : (s : ContinueStatus) (w : World) → Quiet w (continue_debug_event s w)
    pub stop : (w : World) → Quiet w (stop_debugging w)
    pub job : (w : World) → Grows w (create_job w).1 (one (create_job w).0)
    pub set : (h : Handle) (i : JobInformation) (w : World) → Quiet w (set_information h i w)
    pub port : (w : World) → Grows w (create_completion_port w).1 (one (create_completion_port w).0)
    pub assign : (h p : Handle) (w : World) → Quiet w (assign_process h p w).1
    pub message : (h : Handle) (m : JobMessage) (w : World) → Quiet w (next_message h m w)
    pub terminate : (h : Handle) (w : World) → Quiet w (terminate_job h w).1
    pub sleeps : (w : World) → Quiet w (sleep w)

  pub Grows-trans :
      (w w' w'' : World) (g h : ℕ → ℕ)
      → Grows w w' g
      → Grows w' w'' h
      → Grows w w'' (λ j. g j + h j)
  Grows-trans w w' w'' g h (f, c) (f', c') = (f' ∙ f, λ j. omega (arith, c j, c' j))

  pub Grows-Quiet : (w w' w'' : World) (g : ℕ → ℕ) → Grows w w' g → Quiet w' w'' → Grows w w'' g
  Grows-Quiet w w' w'' g (f, c) (f', c') = (f' ∙ f, λ j. omega (arith, c j, c' j))

  pub Grows-eq : (w w' : World) (g h : ℕ → ℕ) → ((j : ℕ) → g j ≡ h j) → Grows w w' g → Grows w w' h
  Grows-eq w w' g h e (f, c) = (f, λ j. omega (arith, c j, e j))

  module _ (lawful : IsLawful) where
    -- `SAFE_CLOSE_HANDLE` on a handle that is among those that are open
    pub safe_close_handle-Grows :
        (h : Handle) (w w' : World) (g : ℕ → ℕ)
        → Grows w w' (λ j. one h j + g j)
        → Grows w (safe_close_handle kernel h w') g
    unfolding safe_close_handle
    safe_close_handle-Grows null w w' g o = Grows-eq w w' _ g (λ j. omega arith) o
    safe_close_handle-Grows invalid w w' g o =
        Grows-Quiet w w' _ g (Grows-eq w w' _ g (λ j. omega arith) o) (lawful.close_invalid w')
    safe_close_handle-Grows (handle n) w w' g (f, c) =
        let (f', c') = lawful.close n w' (ground (arith, c n)) in
        (sym f' ∙ f, λ j. omega (arith, c j, c' j))

    -- the destructor closes what the object holds
    pub destroy-Grows :
        (p : ProcessInOut) (w w' : World) (g : ℕ → ℕ)
        → Grows w w' (λ j. owned p j + g j)
        → Grows w (destroy kernel p w') g
    unfolding destroy
    destroy-Grows p w w' g o = safe_close_handle-Grows p.h_thread w _ g (
        safe_close_handle-Grows p.h_process w _ _ (
          safe_close_handle-Grows p.h_output w _ _
            (safe_close_handle-Grows p.h_input w w' _ (Grows-eq w w' _ _ (λ j. omega arith) o))))

    pub close_files_and_thread-Grows :
        (p : ProcessInOut) (w w' : World) (g : ℕ → ℕ)
        → Grows w w' (λ j. owned p j + g j)
        → Grows w
            (close_files_and_thread kernel p w').1
            (λ j. owned (close_files_and_thread kernel p w').0 j + g j)
    unfolding close_files_and_thread
    close_files_and_thread-Grows p w w' g o = safe_close_handle-Grows p.h_thread w _ _ (
        safe_close_handle-Grows p.h_output w _ _
          (safe_close_handle-Grows p.h_input w w' _ (Grows-eq w w' _ _ (λ j. omega arith) o)))

    pub create_input_file-Grows :
        (name : Bytes) (w : World)
        → Grows w (create_input_file kernel name w).1 (one (create_input_file kernel name w).0)
    unfolding create_input_file
    create_input_file-Grows [] w = (refl, λ j. omega arith)
    create_input_file-Grows (c ∷ cs) w = lawful.read (c ∷ cs) w

    pub create_output_file-Grows :
        (name : Bytes) (w : World)
        → Grows w (create_output_file kernel name w).1 (one (create_output_file kernel name w).0)
    unfolding create_output_file
    create_output_file-Grows [] w = (refl, λ j. omega arith)
    create_output_file-Grows (c ∷ cs) w = lawful.write (c ∷ cs) w

    -- what is open after a `create` that reached its end, for an object that held nothing
    abbrev pub Holds : World → Option (Bool × ProcessInOut × World) → Type 0
    Holds w none = ⊥
    Holds w (some (ok, p, w')) = Grows w w' (owned p)

    adopt-Holds :
        (in_file out_file : Bytes) (i o : Handle) (w w' w'' : World)
        (made : Option (Handle × Handle))
        → Grows w w' (λ j. one i j + one o j)
        → Grows w' w'' (pair made)
        → Holds w (
            some (
              adopt kernel
                (record (new_in_out in_file out_file) { h_input = i; h_output = o })
                (made, w'')))
    adopt-Holds in_file out_file i o w w' w'' none f g =
        Grows-eq w w'' _ _ (λ j. omega arith) (Grows-trans w w' w'' _ _ f g)
    adopt-Holds in_file out_file i o w w' w'' (some (p, t)) f g =
        Grows-eq w w'' _ _ (λ j. omega arith) (Grows-trans w w' w'' _ _ f g)

    pub open_and_create-Holds :
        (flags : List CreationFlag) (in_file out_file cmd : Bytes) (w : World)
        → length cmd < 1024
        → Holds w (open_and_create kernel flags (new_in_out in_file out_file) cmd w)
    unfolding open_and_create
    open_and_create-Holds flags in_file out_file cmd w short =
        let input = create_input_file kernel in_file w in
        let output = create_output_file kernel out_file input.1 in
        let files =
          Grows-trans w input.1 output.1 _ _ (create_input_file-Grows in_file w)
            (create_output_file-Grows out_file input.1) in
        let fits : leb 1024 (length cmd) ≡ false = ground (arith, short) in
        let made = lawful.start cmd flags input.0 output.0 output.1 in
        rw (fits) (adopt-Holds in_file out_file input.0 output.0 w output.1 _ _ files made)
