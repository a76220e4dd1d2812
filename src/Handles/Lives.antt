-- ===== src/Handles/Lives.antt =====
-- The processes of `CppCompiler` and `ExeDebugRunner` of Judger/Excuter.cpp from their creation to
-- their destructors.
use online_judger.Common.{Bool, true, false, List, [], Option, none, some, Bytes}
use online_judger.Process.{DebugEvent}
use online_judger.Handles.{
  Kernel, ProcessInOut, new_in_out, create_in_out, destroy, start_debug, create_debug,
}

module _ (kernel : Kernel) where
  open kernel use {World}

  -- The process of `CppCompiler::exc` from its `create` on: it is waited for, if it was created, and
  -- destroyed. The result says that it was created.
  unfoldable pub end_compiler :
      (World → World) → Option (Bool × ProcessInOut × World) → Option (Bool × World)
  unfolding destroy
  end_compiler wait none = none
  end_compiler wait (some (false, p, w)) = some (false, destroy kernel p w)
  end_compiler wait (some (true, p, w)) = some (true, destroy kernel p (wait w))

  unfoldable pub compiler_process : Bytes → Bytes → (World → World) → World → Option (Bool × World)
  unfolding create_in_out end_compiler
  compiler_process out_file cmd wait w =
      end_compiler wait (create_in_out kernel (new_in_out [] out_file) cmd true w)

  -- the process of `ExeDebugRunner::exc`: created without a start, started, watched, destroyed
  unfoldable pub end_debugged :
      List DebugEvent
      → (World → World)
      → Option (Bool × ProcessInOut × World)
      → Option (Bool × World)
  unfolding start_debug destroy
  end_debugged es watch none = none
  end_debugged es watch (some (false, p, w)) = some (false, destroy kernel p w)
  end_debugged es watch (some (true, p, w)) =
      let (ok, q, w') = start_debug kernel es p w in some (true, destroy kernel q (watch w'))

  unfoldable pub debugged_process :
      Bytes → Bytes → Bytes → List DebugEvent → (World → World) → World → Option (Bool × World)
  unfolding create_debug end_debugged
  debugged_process in_file out_file cmd es watch w =
      end_debugged es watch (create_debug kernel es (new_in_out in_file out_file) cmd false w)
