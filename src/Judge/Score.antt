-- ===== src/Judge/Score.antt =====
-- The count of accepted tests over the rounds of the loop.
use online_judger.Common.{ℕ, ◌+◌, ◌≤◌, ◌<◌, ◌≡◌, ap, some, ◌⊎◌, arith, length}
use online_judger.Config.{Config}
use online_judger.Os.{Os}
use online_judger.Task.{Task, set_test_data_index}
use online_judger.Task.Data.{
  IsCoherent, KeepsFiles, PointsAt, KeepsFiles-refl, KeepsFiles-trans, KeepsPlace-PointsAt,
  PointsAt-IsCoherent, set_test_data_index-PointsAt,
}
use online_judger.Judge.{JudgeCore, Run, Next, go_on, judge_round}
use online_judger.Judge.Loop.{CoreLaws, Rounds, start, round}
use online_judger.Judge.Round.{RoundFacts, judge_round-RoundFacts, IsRejection}

pub in_range :
    {j : ℕ} {t u : Task} → KeepsFiles t u → j < length t.test_data → j < length u.test_data
in_range k h = rw k.same_test_data h

module _ (os : Os) (config : Config) (core : JudgeCore os config) where
  -- what a round at index `j` keeps, however it ends
  pub record Kept (j : ℕ) (s : Run os) (t : Task) (how : Next) (u : Run os) : Type 0 where
    pub points : PointsAt u.task j
    pub files : KeepsFiles s.task u.task
    pub facts : RoundFacts os config core s t how u

  -- What holds behind rounds `i` to `j`: the task keeps its data, at most one test is counted for
  -- each round, and if one was counted for each, the result is "accepted".
  pub record Scored (i : ℕ) (r : Run os) (j : ℕ) (s : Run os) : Type 0 where
    pub coherent : IsCoherent s.task
    pub files : KeepsFiles r.task s.task
    pub ordered : i ≤ j
    pub counted : s.accepted + i ≤ r.accepted + j
    pub full : i < j → s.accepted + i ≡ r.accepted + j → s.task.result ≡ config.je_accept
    pub last : i < j → (s.task.result ≡ config.je_accept) ⊎ IsRejection config s.task.result

module _ (os : Os) (config : Config) (core : JudgeCore os config)
    (laws : CoreLaws os config core) where
  -- A round in range leaves the task at the data of its index.
  pub round-Kept :
      (j : ℕ) (s : Run os) (t : Task) (how : Next) (u : Run os)
      → IsCoherent s.task
      → j < length s.task.test_data
      → set_test_data_index s.task j ≡ some t
      → judge_round os config core s t ≡ (how, u)
      → Kept os config core j s t how u
  round-Kept j s t how u coherent h e judged =
      let (v, f, points, files, _) = set_test_data_index-PointsAt s.task j coherent h in
      let same : v ≡ t = cc in
      let facts : RoundFacts os config core s t how u =
        rw (ap {B = Next} (λ x. x.0) judged, ap {B = Run os} (λ x. x.1) judged) at
          (judge_round-RoundFacts os config core laws s t) in
      record {
        points = KeepsPlace-PointsAt facts.place (rw same at points);
        files = KeepsFiles-trans (rw same at files) facts.place.keeps_files;
        facts = facts;
      }

  pub Rounds-Scored :
      (i : ℕ) (r : Run os) {j : ℕ} {s : Run os}
      → IsCoherent r.task
      → j ≤ length r.task.test_data
      → Rounds os config core i r j s
      → Scored os config core i r j s
  Rounds-Scored i r coherent h start = record {
    coherent = coherent;
    files = KeepsFiles-refl r.task;
    ordered = omega arith;
    counted = omega arith;
    full = λ bad. absurd (omega arith);
    last = λ bad. absurd (omega arith);
  }
  Rounds-Scored i r coherent h (round {j} {s} {u} t rounds e judged) =
      let before = Rounds-Scored i r coherent (omega arith) rounds in
      let kept =
        round-Kept j s t go_on u before.coherent (in_range before.files (omega arith)) e judged in
      let ordered = before.ordered in
      let counted = before.counted in
      record {
        coherent = PointsAt-IsCoherent u.task j kept.points;
        files = KeepsFiles-trans before.files kept.files;
        ordered = omega arith;
        counted = ground (arith, kept.facts.counted);
        full = λ _ e. ground (arith, kept.facts.counted);
        last = λ _. ground (arith, kept.facts.counted);
      }
