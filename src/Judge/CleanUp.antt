-- ===== src/Judge/CleanUp.antt =====
-- What the removal of a judgement's files promises, on a file system.
use online_judger.Common.{
  ℕ, zero, suc, ◌≡◌, ◌≢◌, ◌∙◌, refl, Bool, true, false, Option, some, none, inl, inr, if◌then◌else◌,
  Bytes, Bool-cases,
}
use online_judger.Config.{Config}
use online_judger.Os.{Os, refused}
use online_judger.Task.{Task}
use online_judger.Judge.Removal.{after, safe_remove_file-Removes}
use online_judger.Judge.{
  JudgeCore, safe_remove_file, do_clean_up, on_task_finish, do_judge, judge, finish,
}

-- What `DeleteFile` and `Sleep` do, by their documentation: where a deletion succeeds or does not
-- find the file, there is none of that name, and neither call makes a file.
pub record FileLaws (os : Os) : Type 0 where
  pub removes :
      (name : Bytes) (w : os.World)
      → (os.delete_file name w).0 ≢ refused
      → os.has_file name (os.delete_file name w).1 ≡ false
  pub deletion_makes_none :
      (other name : Bytes) (w : os.World)
      → os.has_file other w ≡ false
      → os.has_file other (os.delete_file name w).1 ≡ false
  pub sleep_makes_none :
      (other : Bytes) (ms : ℕ) (w : os.World)
      → os.has_file other w ≡ false
      → os.has_file other (os.sleep ms w) ≡ false

-- of two steps, the second behind a success of the first
both :
    {W : Type 0} (first : Bool) (second : Bool × W) (w : W)
    → (if first then second else (false, w)).0 ≡ true
    → (first ≡ true) × (second.0 ≡ true) × ((if first then second else (false, w)) ≡ second)
both true second w h = (refl, h, refl)
both false second w h = absurd cc

module _ (os : Os) (files : FileLaws os) where
  open os use {World}

  after_makes_none :
      (name other : Bytes) (n : ℕ) (w : World)
      → os.has_file other w ≡ false
      → os.has_file other (after os name n w) ≡ false
  after_makes_none name other zero w h = h
  after_makes_none name other (suc n) w h =
      after_makes_none name other n (os.sleep 1000 (os.delete_file name w).1) (
        files.sleep_makes_none other 1000 (os.delete_file name w).1
          (files.deletion_makes_none other name w h))

  safe_remove_file_makes_none :
      (name other : Bytes) (w : World)
      → os.has_file other w ≡ false
      → os.has_file other (safe_remove_file os name w).1 ≡ false
  safe_remove_file_makes_none name other w h =
      let (removed, not_removed) = safe_remove_file-Removes os name w in
      elim (Bool-cases (safe_remove_file os name w).0) [
        | inl e ↦
            let r = removed e in
            rw (r.end_world) (
              files.deletion_makes_none other name (after os name r.attempt w)
                (after_makes_none name other r.attempt w h))
        | inr e ↦ rw ((not_removed e).1) (after_makes_none name other 10 w h)
      ]

  -- Where `safeRemoveFile` says true, there is no file of the name.
  pub safe_remove_file_removes :
      (name : Bytes) (w : World)
      → (safe_remove_file os name w).0 ≡ true
      → os.has_file name (safe_remove_file os name w).1 ≡ false
  safe_remove_file_removes name w e =
      let r = (safe_remove_file-Removes os name w).0 e in
      rw (r.end_world) (files.removes name (after os name r.attempt w) r.gone)

  -- none of the files of a judgement is there
  pub record CleanedUp (t : Task) (w : World) : Type 0 where
    pub code_gone : os.has_file t.code_file w ≡ false
    pub compiler_output_gone : os.has_file t.compiler_output w ≡ false
    pub exe_output_gone : os.has_file t.exe_output w ≡ false
    pub exe_gone : os.has_file t.exe_name w ≡ false

  module _ (config : Config) (core : JudgeCore os config) where
    do_clean_up-CleanedUp :
        (t : Task) (w : World)
        → (do_clean_up os config core t w).0 ≡ true
        → CleanedUp t (do_clean_up os config core t w).1
    unfolding do_clean_up
    do_clean_up-CleanedUp t w h =
        let a = safe_remove_file os t.code_file w in
        let b = safe_remove_file os t.compiler_output a.1 in
        let c = safe_remove_file os t.exe_output b.1 in
        let d = safe_remove_file os t.exe_name c.1 in
        let (ea, h', same) = both a.0 _ a.1 h in
        let (eb, h'', same') = both b.0 _ b.1 h' in
        let (ec, ed, same'') = both c.0 d c.1 h'' in
        rw ((same ∙ same') ∙ same'') (record {
          code_gone = stays t.exe_name c.1 (
              stays t.exe_output b.1
                (stays t.compiler_output a.1 (safe_remove_file_removes t.code_file w ea)));
          compiler_output_gone =
              stays t.exe_name c.1
                (stays t.exe_output b.1 (safe_remove_file_removes t.compiler_output a.1 eb));
          exe_output_gone = stays t.exe_name c.1 (safe_remove_file_removes t.exe_output b.1 ec);
          exe_gone = safe_remove_file_removes t.exe_name c.1 ed;
        })
      where
        stays :
            {other : Bytes} (name : Bytes) (v : World)
            → os.has_file other v ≡ false
            → os.has_file other (safe_remove_file os name v).1 ≡ false
        stays name v h = safe_remove_file_makes_none name _ v h

    -- Take a file system on which a deletion that succeeds, or finds no file, leaves no file of the
    -- name, and on which neither deletions nor sleeping make files. Where `judge` returns true,
    -- none of the task's four files is left: the source, the compiler's output, the program's
    -- output and the program.
    pub judge-CleanedUp :
        (t u : Task) (w w' : World) → judge os config core t w ≡ some (true, u, w') → CleanedUp u w'
    unfolding judge finish
    judge-CleanedUp t u w w' e = from (do_judge os config core t w) e
      where
        from :
            (x : Option (Bool × Task × World))
            → finish os config core x ≡ some (true, u, w')
            → CleanedUp u w'
        from none e = absurd cc
        from (some (b, v, w1)) e =
            let cleaned = do_clean_up os config core v (on_task_finish os config core v w1) in
            let done : cleaned.0 ≡ true = cc in
            let world : cleaned.1 ≡ w' = cc in
            let task : v ≡ u = cc in
            rw (← task, ← world) (do_clean_up-CleanedUp v (on_task_finish os config core v w1) done)
