-- ===== src/Cell/Worker.antt =====
-- What a thread does with its entries.
use online_judger.Common.{
  ℕ, zero, suc, ◌≡◌, refl, ap, Bool, true, false, List, [], ◌∷◌, ◌++◌, none, some, map, length,
}
use online_judger.Config.{Config}
use online_judger.Judge.{JudgeCore, judge, finish, do_clean_up, on_task_finish}
use online_judger.Judge.Loop.{CoreLaws}
use online_judger.Judge.Outcome.{do_judge_returns}
use online_judger.Judge.Submission.{judge-SameSubmission}
use online_judger.Os.{Os}
use online_judger.Task.{Task}
use online_judger.Task.Data.{IsCoherent, SameSubmission}
use online_judger.Cell.{
  Entry, Ending, waits, exit_task, fatal, asserted, Work, after_judge, work, stop, work_all,
}

-- every task of the entries is as the constructor of a task leaves it
abbrev pub AllCoherent : List Entry → Type 0
AllCoherent [] = Unit {0}
AllCoherent (none ∷ ts) = AllCoherent ts
AllCoherent (some t ∷ ts) = IsCoherent t × AllCoherent ts

-- the same submissions, one by one
abbrev pub AllSame : List Task → List Task → Type 0
AllSame [] [] = Unit {0}
AllSame (t ∷ ts) (u ∷ us) = SameSubmission t u × AllSame ts us
AllSame _ _ = ⊥

module _ (os : Os) (config : Config) (core : JudgeCore os config) where
  open os use {World}

  -- what is left of the entries behind those that were judged
  abbrev pub Left : Work os → List Entry → Type 0
  Left r ts = elim r.ending [
    | waits ↦ ts ≡ []
    | exit_task ↦ ts ≡ none ∷ r.rest
    | fatal ↦ ts ≡ r.rest
    | asserted ↦ ⊥
  ]

  -- Tasks are judged in order, each in the world that the one before and a sleep left; what comes of
  -- them, the world behind, and whether all of them could remove their files. Only the last can fail to.
  pub data Judgements : List Task → World → List Task → World → Bool → Type 0 where
    no_more : {w : World} → Judgements [] w [] w true
    cannot_clean :
        {t u : Task} {w w' : World}
        → judge os config core t w ≡ some (false, u, w')
        → Judgements (t ∷ []) w (u ∷ []) w' false
    next :
        {t u : Task} {ts us : List Task} {w w' v : World} {b : Bool}
        → judge os config core t w ≡ some (true, u, w')
        → Judgements ts (os.sleep 100 w') us v b
        → Judgements (t ∷ ts) w (u ∷ us) v b

  -- a thread does not end with an error of the judgement
  abbrev pub is_clean : Ending → Bool
  is_clean fatal = false
  is_clean _ = true

  -- The entries are tasks, one for each judgement, and then what the thread left.
  pub record IsWorked (ts : List Entry) (w : World) (r : Work os) : Type 0 where
    pub taken : List Task
    pub behind : List Entry
    pub entries : ts ≡ map some taken ++ behind
    pub one_each : AllSame taken r.judged
    pub judgements : Judgements taken w r.judged r.world (is_clean r.ending)
    pub left : Left r behind

module _ (os : Os) (config : Config) (core : JudgeCore os config)
    (laws : CoreLaws os config core) where
  open os use {World}

  pub judge_returns :
      (t : Task) (w : World)
      → IsCoherent t
      → (b : Bool) × (u : Task) × (w' : World) × (judge os config core t w ≡ some (b, u, w'))
  unfolding judge finish
  judge_returns t w h =
      let ((b, u, v), e) = do_judge_returns os config core laws t w h in
      let cleaned = do_clean_up os config core u (on_task_finish os config core u v) in
      (cleaned.0, u, cleaned.1, rw (e))

  -- A thread whose core has steps as the judge relies on, and which is given coherent tasks and
  -- tasks NULL, never runs into an assertion. It judges the tasks in order, each once and as the
  -- submission that it is, and goes on behind a judgement that returns true, after a sleep. It ends at
  -- the first judgement that returns false, as it cannot remove its files, or at the first task NULL,
  -- after which it takes no entry; else it waits for the next.
  pub work-IsWorked :
      (ts : List Entry) (w : World)
      → AllCoherent ts
      → IsWorked os config core ts w (work os config core ts w)
  unfolding work after_judge
  work-IsWorked [] w h = record {
    taken = [];
    behind = [];
    entries = refl;
    one_each = tt;
    judgements = no_more;
    left = refl;
  }
  work-IsWorked (none ∷ ts) w h = record {
    taken = [];
    behind = none ∷ ts;
    entries = refl;
    one_each = tt;
    judgements = no_more;
    left = refl;
  }
  work-IsWorked (some t ∷ ts) w (h, hs) =
      let (b, u, w', e) = judge_returns t w h in
      let later = work-IsWorked ts (os.sleep 100 w') hs in
      rw (e, work) (go b u w' e (judge-SameSubmission os config core laws t u w w' b e) later)
    where
      go :
          (b : Bool) (u : Task) (w' : World)
          → judge os config core t w ≡ some (b, u, w')
          → SameSubmission t u
          → IsWorked os config core ts (os.sleep 100 w') (work os config core ts (os.sleep 100 w'))
          → IsWorked os config core
              (some t ∷ ts)
              w
              (after_judge os config core ts w (some (b, u, w')) (work os config core ts))
      go false u w' e k l = record {
        taken = t ∷ [];
        behind = ts;
        entries = refl;
        one_each = (k, tt);
        judgements = cannot_clean e;
        left = refl;
      }
      go true u w' e k l = record {
        taken = t ∷ l.taken;
        behind = l.behind;
        entries = ap (◌∷◌ (some t)) l.entries;
        one_each = (k, l.one_each);
        judgements = next e l.judgements;
        left = l.left;
      }

-- `stop` puts one task NULL in front for each core
stop_puts : (n : ℕ) (ts : List Entry) → stop (suc n) ts ≡ none ∷ stop n ts
unfolding stop
stop_puts zero ts = refl
stop_puts (suc n) ts = stop_puts n (none ∷ ts)

abbrev pub AllExited : {os : Os} → List (Work os) → Type 0
AllExited [] = Unit {0}
AllExited (r ∷ rs) = (r.ending ≡ exit_task) × (r.judged ≡ []) × AllExited rs

-- After `stop`, as many threads as there are cores, coming for an entry one after another, all end
-- at once, without judging what is still in the queue.
pub stop-AllExited :
    (os : Os) (config : Config) (cores : List (JudgeCore os config)) (ts : List Entry)
    (w : os.World)
    → AllExited (work_all os config cores (stop (length cores) ts) w)
unfolding work_all work
stop-AllExited os config [] ts w = tt
stop-AllExited os config (c ∷ cs) ts w =
    rw (stop_puts (length cs) ts, work_all) (refl, refl, stop-AllExited os config cs ts w)
