-- ===== src/Config/Loaded.antt =====
-- The configuration that a successful load leaves, and what a failed one leaves alone.
use online_judger.Common.{
  ◌≡◌, refl, sym, ◌∙◌, true, false, List, [], ◌∷◌, ◌++◌, ◌⊎◌, ◌↔◌, Option, none, some, inl, inr,
  arith, Bytes, codes, Option-cases,
}
use online_judger.Common.Int.{ℤ, pos}
use online_judger.LzData.{Node, Children, children, read, read_int, read_string}
use online_judger.LzData.Walk.{walk, read-walk}
use online_judger.LzData.Walk.Lookup.{lookup}
use online_judger.LzData.Walk.Names.{names}
use online_judger.Config.{Config, load_config}

names-append :
    (a b : Bytes) → names (a ++ b'/' ∷ b) ≡ ((names a).0, (names a).1 ++ (names b).0 ∷ (names b).1)
unfolding names
names-append [] b = refl
names-append (c ∷ a) b = ground (arith, names-append a b)

walk-append :
    (us : List Bytes) (ns : Children) (t u : Bytes) (vs : List Bytes)
    → walk ns t (us ++ u ∷ vs)
      ≡ (elim (walk ns t us) [ none ↦ none | some m ↦ walk (children m) u vs ])
unfolding walk
walk-append [] ns t u vs = refl
walk-append (w ∷ us) ns t u vs = elim (Option-cases (lookup t ns)) [
  | inl e ↦ rw (e, walk)
  | inr (m, e) ↦ rw (e, walk) (walk-append us (children m) w u vs)
]

-- Reading a path in two halves, from the node that the first leads to, is reading it at once.
pub read-append :
    (n : Node) (a b : Bytes)
    → read n (a ++ b'/' ∷ b) ≡ (elim (read n a) [ none ↦ none | some m ↦ read m b ])
read-append n a b =
    read-walk n (a ++ b'/' ∷ b)
    ∙ rw (names-append a b) (
        walk-append (names a).1 (children n) (names a).0 (names b).0 (names b).1
        ∙ rw (← (read-walk n a)) (below (read n a)))
  where
    below :
        (o : Option Node)
        → (elim o as (λ x. Option Node) [
          | none ↦ none
          | some m ↦ walk (children m) (names b).0 (names b).1
        ])
          ≡ (elim o [ none ↦ none | some m ↦ read m b ])
    below none = refl
    below (some m) = sym (read-walk m b)

-- Every field holds what the tree has at the path of the field, or the default.
pub record IsLoaded (root : Node) (c : Config) : Type 0 where
  pub je_pending_is : c.je_pending ≡ read_int root (codes "judgecode/pending") (pos 0)
  pub je_rejudge_is : c.je_rejudge ≡ read_int root (codes "judgecode/rejudge") (pos 0)
  pub je_compiling_is : c.je_compiling ≡ read_int root (codes "judgecode/compiling") (pos 0)
  pub je_running_judgine_is :
      c.je_running_judgine ≡ read_int root (codes "judgecode/running") (pos 0)
  pub je_accept_is : c.je_accept ≡ read_int root (codes "judgecode/accept") (pos 0)
  pub je_complie_is : c.je_complie ≡ read_int root (codes "judgecode/compile_error") (pos 0)
  pub je_wrong_anwser_is :
      c.je_wrong_anwser ≡ read_int root (codes "judgecode/wrong_anwser") (pos 0)
  pub je_time_limited_is :
      c.je_time_limited ≡ read_int root (codes "judgecode/time_limited") (pos 0)
  pub je_memory_limited_is :
      c.je_memory_limited ≡ read_int root (codes "judgecode/memory_limited") (pos 0)
  pub je_present_is : c.je_present ≡ read_int root (codes "judgecode/present_error") (pos 0)
  pub je_system_is : c.je_system ≡ read_int root (codes "judgecode/system_error") (pos 0)
  pub je_runtime_is : c.je_runtime ≡ read_int root (codes "judgecode/runtime_error") (pos 0)
  pub je_unknown_is : c.je_unknown ≡ read_int root (codes "judgecode/unknow_error") (pos 0)
  pub cl_gcc_is : c.cl_gcc ≡ read_int root (codes "compiler/gcc") (pos 0)
  pub cl_gplus_is : c.cl_gplus ≡ read_int root (codes "compiler/g++") (pos 1)
  pub cl_java_is : c.cl_java ≡ read_int root (codes "compiler/java") (pos 3)
  pub db_ip_is : c.db_ip ≡ read_string root (codes "mysql/ip") []
  pub db_port_is : c.db_port ≡ read_int root (codes "mysql/port") (pos 0)
  pub db_user_name_is : c.db_user_name ≡ read_string root (codes "mysql/user") []
  pub db_password_is : c.db_password ≡ read_string root (codes "mysql/password") []
  pub db_name_is : c.db_name ≡ read_string root (codes "mysql/dbname") []
  pub cores_is : c.cores ≡ read_int root (codes "cores") (pos 0)
  pub test_data_path_is : c.test_data_path ≡ read_string root (codes "testDataPath") []

read_int-append :
    (n m : Node) (a b : Bytes) (def : ℤ)
    → read n a ≡ some m
    → read_int m b def ≡ read_int n (a ++ b'/' ∷ b) def
unfolding read_int
read_int-append n m a b def e = rw (read-append n a b, read_int) (rw e)

read_string-append :
    (n m : Node) (a b def : Bytes)
    → read n a ≡ some m
    → read_string m b def ≡ read_string n (a ++ b'/' ∷ b) def
unfolding read_string
read_string-append n m a b def e = rw (read-append n a b, read_string) (rw e)

loaded :
    (c : Config) (root judgecode compiler mysql : Node)
    → read root (codes "judgecode") ≡ some judgecode
    → read root (codes "compiler") ≡ some compiler
    → read root (codes "mysql") ≡ some mysql
    → IsLoaded root (load_config c root).0
unfolding load_config
loaded c root judgecode compiler mysql e f g =
    rw (e, load_config)
      (rw (f, g)
        (record {
          je_pending_is =
              read_int-append root judgecode (codes "judgecode") (codes "pending") (pos 0) e;
          je_rejudge_is =
              read_int-append root judgecode (codes "judgecode") (codes "rejudge") (pos 0) e;
          je_compiling_is =
              read_int-append root judgecode (codes "judgecode") (codes "compiling") (pos 0) e;
          je_running_judgine_is =
              read_int-append root judgecode (codes "judgecode") (codes "running") (pos 0) e;
          je_accept_is =
              read_int-append root judgecode (codes "judgecode") (codes "accept") (pos 0) e;
          je_complie_is =
              read_int-append root judgecode (codes "judgecode") (codes "compile_error") (pos 0) e;
          je_wrong_anwser_is =
              read_int-append root judgecode (codes "judgecode") (codes "wrong_anwser") (pos 0) e;
          je_time_limited_is =
              read_int-append root judgecode (codes "judgecode") (codes "time_limited") (pos 0) e;
          je_memory_limited_is =
              read_int-append root judgecode (codes "judgecode") (codes "memory_limited") (pos 0) e;
          je_present_is =
              read_int-append root judgecode (codes "judgecode") (codes "present_error") (pos 0) e;
          je_system_is =
              read_int-append root judgecode (codes "judgecode") (codes "system_error") (pos 0) e;
          je_runtime_is =
              read_int-append root judgecode (codes "judgecode") (codes "runtime_error") (pos 0) e;
          je_unknown_is =
              read_int-append root judgecode (codes "judgecode") (codes "unknow_error") (pos 0) e;
          cl_gcc_is = read_int-append root compiler (codes "compiler") (codes "gcc") (pos 0) f;
          cl_gplus_is = read_int-append root compiler (codes "compiler") (codes "g++") (pos 1) f;
          cl_java_is = read_int-append root compiler (codes "compiler") (codes "java") (pos 3) f;
          db_ip_is = read_string-append root mysql (codes "mysql") (codes "ip") [] g;
          db_port_is = read_int-append root mysql (codes "mysql") (codes "port") (pos 0) g;
          db_user_name_is = read_string-append root mysql (codes "mysql") (codes "user") [] g;
          db_password_is = read_string-append root mysql (codes "mysql") (codes "password") [] g;
          db_name_is = read_string-append root mysql (codes "mysql") (codes "dbname") [] g;
          cores_is = refl;
          test_data_path_is = refl;
        }))

-- one of the three sections is missing
abbrev pub IsIncomplete : Node → Type 0
IsIncomplete root =
    (read root (codes "judgecode") ≡ none)
    ⊎ (read root (codes "compiler") ≡ none)
    ⊎ (read root (codes "mysql") ≡ none)

incomplete_fails : (c : Config) (root : Node) → IsIncomplete root → (load_config c root).1 ≡ false
unfolding load_config
incomplete_fails c root h = ground arith

-- A load that succeeds leaves every field as the tree says, at a path of its section and its name,
-- such as "judgecode/accept", or with the default of the field.
pub load_config-IsLoaded :
    (c : Config) (root : Node)
    → (load_config c root).1 ≡ true
    → IsLoaded root (load_config c root).0
load_config-IsLoaded c root h = elim (Option-cases (read root (codes "judgecode"))) [
  | inl e ↦ absurd (cc (incomplete_fails c root (inl e)))
  | inr (judgecode, e) ↦ elim (Option-cases (read root (codes "compiler"))) [
    | inl f ↦ absurd (cc (incomplete_fails c root (inr (inl f))))
    | inr (compiler, f) ↦ elim (Option-cases (read root (codes "mysql"))) [
      | inl g ↦ absurd (cc (incomplete_fails c root (inr (inr g))))
      | inr (mysql, g) ↦ loaded c root judgecode compiler mysql e f g
    ]
  ]
]

-- the settings of the database are the same
abbrev pub SameDatabase : Config → Config → Type 0
SameDatabase c d =
    (d.db_ip ≡ c.db_ip)
    × (d.db_port ≡ c.db_port)
    × (d.db_user_name ≡ c.db_user_name)
    × (d.db_password ≡ c.db_password)
    × (d.db_name ≡ c.db_name)

-- A load fails exactly if one of the three sections is missing. It then leaves the settings of the
-- database as they were, while the number of cores is that of the tree all the same.
pub load_config_fails :
    (c : Config) (root : Node)
    → (((load_config c root).1 ≡ false) ↔ IsIncomplete root)
      × ((load_config c root).1 ≡ false → SameDatabase c (load_config c root).0)
      × ((load_config c root).0.cores ≡ read_int root (codes "cores") (pos 0))
unfolding load_config
load_config_fails c root =
    ((λ h. ground arith, incomplete_fails c root), λ h. ground arith, ground arith)
