-- ===== src/Task/Data.antt =====
-- The test data that a task points at.
use online_judger.Common.{
  ℕ, zero, suc, ◌<◌, ◌≡◌, refl, ap, sym, ◌∙◌, List, [], ◌∷◌, ◌++◌, some, inl, inr, arith, Bytes,
  codes, length, get_elem?, Bool-cases,
}
use online_judger.Common.Int.{ℤ, pos, negsuc, eq_ℤ, eq_ℤ_iff}
use online_judger.Config.{Config}
use online_judger.FileTool.{get_file_name}
use online_judger.Os.{Os}
use online_judger.Task.{
  Task, set_test_data_index, point_at_first, find_test_data, blank_task, initialize_data, new_task,
}

-- The index, if it is one of the list, and the two current files go together.
pub record PointsAt (t : Task) (i : ℕ) : Type 0 where
  pub index_is : t.cur_test_data_index ≡ pos i
  pub output_is : get_elem? t.test_data i ≡ some t.cur_output_test_data
  pub input_is : t.cur_input_test_data ≡ get_file_name t.cur_output_test_data ++ codes ".in"

-- If the index is in range, the current files are those of the index.
abbrev pub IsCoherent : Task → Type 0
IsCoherent t = (i : ℕ) → t.cur_test_data_index ≡ pos i → i < length t.test_data → PointsAt t i

-- the same submission: its numbers, its user and its language
pub record SameSubmission (t u : Task) : Type 0 where
  pub same_solution : u.solution_id ≡ t.solution_id
  pub same_problem : u.problem_id ≡ t.problem_id
  pub same_user : u.user_name ≡ t.user_name
  pub same_language : u.language ≡ t.language

pub SameSubmission-refl : (t : Task) → SameSubmission t t
SameSubmission-refl t = record {
  same_solution = refl;
  same_problem = refl;
  same_user = refl;
  same_language = refl;
}

pub SameSubmission-trans :
    {t u v : Task} → SameSubmission t u → SameSubmission u v → SameSubmission t v
SameSubmission-trans a b = record {
  same_solution = b.same_solution ∙ a.same_solution;
  same_problem = b.same_problem ∙ a.same_problem;
  same_user = b.same_user ∙ a.same_user;
  same_language = b.same_language ∙ a.same_language;
}

-- what the judge relies on, of a task and the one that a step makes of it: the same submission, data
-- and files
pub record KeepsFiles (t u : Task) : Type 0 where
  pub same_submission : SameSubmission t u
  pub same_test_data : u.test_data ≡ t.test_data
  pub same_code_file : u.code_file ≡ t.code_file
  pub same_compiler_output : u.compiler_output ≡ t.compiler_output
  pub same_exe_name : u.exe_name ≡ t.exe_name
  pub same_exe_output : u.exe_output ≡ t.exe_output

-- and the same place in the data
pub record KeepsPlace (t u : Task) : Type 0 where
  pub keeps_files : KeepsFiles t u
  pub open keeps_files use *
  pub same_index : u.cur_test_data_index ≡ t.cur_test_data_index
  pub same_output : u.cur_output_test_data ≡ t.cur_output_test_data
  pub same_input : u.cur_input_test_data ≡ t.cur_input_test_data

pub KeepsFiles-refl : (t : Task) → KeepsFiles t t
KeepsFiles-refl t = record {
  same_submission = SameSubmission-refl t;
  same_test_data = refl;
  same_code_file = refl;
  same_compiler_output = refl;
  same_exe_name = refl;
  same_exe_output = refl;
}

get_elem?-in_range {ℓ} :
    {A : Type ℓ} (xs : List A) (i : ℕ) → i < length xs → (x : A) × (get_elem? xs i ≡ some x)
get_elem?-in_range [] i h = absurd (omega arith)
get_elem?-in_range (x ∷ xs) zero h = (x, refl)
get_elem?-in_range (x ∷ xs) (suc i) h = get_elem?-in_range xs i (omega arith)

-- On a coherent task and an index in range, `setTestDataIndex` does not fail: it points the task at
-- the data of the index, and keeps the test data, the other files and the result.
pub set_test_data_index-PointsAt :
    (t : Task) (i : ℕ)
    → IsCoherent t
    → i < length t.test_data
    → (u : Task) × (set_test_data_index t i ≡ some u)
      × PointsAt u i
      × KeepsFiles t u
      × (u.result ≡ t.result)
unfolding set_test_data_index
set_test_data_index-PointsAt t i coherent h =
    elim (Bool-cases (eq_ℤ (pos i) t.cur_test_data_index)) [
      | inl same ↦
          let e : pos i ≡ t.cur_test_data_index = (eq_ℤ_iff (pos i) t.cur_test_data_index).0 same in
          (t, rw (same, set_test_data_index), coherent i (sym e) h, KeepsFiles-refl t, refl)
      | inr other ↦
          let (out, e) = get_elem?-in_range t.test_data i h in
          (
            record t {
              cur_test_data_index = pos i;
              cur_output_test_data = out;
              cur_input_test_data = get_file_name out ++ codes ".in";
            },
            rw (other, set_test_data_index) (rw (e)),
            record { index_is = refl; output_is = e; input_is = refl },
            record {
              same_submission = record {
                same_solution = refl;
                same_problem = refl;
                same_user = refl;
                same_language = refl;
              };
              same_test_data = refl;
              same_code_file = refl;
              same_compiler_output = refl;
              same_exe_name = refl;
              same_exe_output = refl;
            },
            refl,
          )
    ]

pub PointsAt-IsCoherent : (t : Task) (i : ℕ) → PointsAt t i → IsCoherent t
PointsAt-IsCoherent t i p j e h = let same : i ≡ j = ground (arith, p.index_is) in rw (← same) p

point_at_first-IsCoherent :
    (t : Task) (ds : List Bytes)
    → t.test_data ≡ ds
    → (u : Task) × (point_at_first t ds ≡ some u) × IsCoherent u
unfolding point_at_first
point_at_first-IsCoherent t [] e = (t, refl, λ i _ h. absurd (omega (arith, ap {B = ℕ} length e)))
point_at_first-IsCoherent t (d ∷ ds) e =
    let (u, set, points, _, _) =
      set_test_data_index-PointsAt (record t { cur_test_data_index = negsuc 0 }) 0 (λ i bad _. cc)
        (rw e (omega arith)) in
    (u, set, PointsAt-IsCoherent u 0 points)

module _ (os : Os) (config : Config) where
  open os use {World}

  -- The constructor of a task never runs into the assertion, and makes a coherent task: if its
  -- index is in the range of the test data found, its current files are those of that index.
  pub new_task-IsCoherent :
      (solution_id problem_id : ℤ) (user_name : Bytes) (language compile time memory : ℤ)
      (w : World)
      → (t : Task) × (new_task os config solution_id problem_id user_name language compile time
            memory w
          ≡ some t)
        × IsCoherent t
  unfolding new_task
  new_task-IsCoherent solution_id problem_id user_name language compile time memory w =
      elim (Bool-cases (eq_ℤ solution_id (pos 0))) [
        | inl zero_id ↦ (
          blank_task solution_id problem_id user_name language compile time memory,
          rw (zero_id, initialize_data),
          λ i _ h. absurd (omega arith),
        )
        | inr id ↦
            let start = blank_task solution_id problem_id user_name language compile time memory in
            let found = find_test_data os config start w in
            let (u, e, coherent) = point_at_first-IsCoherent found found.test_data refl in
            (u, rw (id, initialize_data) e, coherent)
      ]

pub KeepsPlace-PointsAt : {t u : Task} {i : ℕ} → KeepsPlace t u → PointsAt t i → PointsAt u i
KeepsPlace-PointsAt {t} {u} {i} k p = record {
  index_is = k.same_index ∙ p.index_is;
  output_is = rw (k.same_test_data, k.same_output) p.output_is;
  input_is = k.same_input ∙ (p.input_is ∙ rw (k.same_output));
}

pub KeepsFiles-trans : {t u v : Task} → KeepsFiles t u → KeepsFiles u v → KeepsFiles t v
KeepsFiles-trans a b = record {
  same_submission = SameSubmission-trans a.same_submission b.same_submission;
  same_test_data = b.same_test_data ∙ a.same_test_data;
  same_code_file = b.same_code_file ∙ a.same_code_file;
  same_compiler_output = b.same_compiler_output ∙ a.same_compiler_output;
  same_exe_name = b.same_exe_name ∙ a.same_exe_name;
  same_exe_output = b.same_exe_output ∙ a.same_exe_output;
}

pub KeepsPlace-trans : {t u v : Task} → KeepsPlace t u → KeepsPlace u v → KeepsPlace t v
KeepsPlace-trans a b = record {
  keeps_files = KeepsFiles-trans a.keeps_files b.keeps_files;
  same_index = b.same_index ∙ a.same_index;
  same_output = b.same_output ∙ a.same_output;
  same_input = b.same_input ∙ a.same_input;
}

pub KeepsPlace-IsCoherent : {t u : Task} → KeepsPlace t u → IsCoherent t → IsCoherent u
KeepsPlace-IsCoherent k coherent i e h =
    KeepsPlace-PointsAt k (coherent i (sym k.same_index ∙ e) (rw k.same_test_data at h))
