-- ===== src/Config.antt =====
-- `Config` of Judger/Config.h and Judger/Config.cpp: the codes of the verdicts and of the languages,
-- and the settings of the judge, read from a tree.
pub mod Loaded
pub mod File
use online_judger.Common.{ℕ, Bool, true, false, [], Option, none, some, Bytes, codes}
use online_judger.Common.Int.{ℤ, pos}
use online_judger.LzData.{Node, read, read_int, read_string}
use online_judger.LzdFile.{lzd_xml, tree, null, throws, create_lzd_from_file}
use online_judger.Os.{Os}

pub record Config : Type 0 where
  pub je_pending : ℤ
  pub je_accept : ℤ
  pub je_compiling : ℤ
  pub je_running_judgine : ℤ
  pub je_rejudge : ℤ
  pub je_complie : ℤ
  pub je_wrong_anwser : ℤ
  pub je_time_limited : ℤ
  pub je_memory_limited : ℤ
  pub je_present : ℤ
  pub je_system : ℤ
  pub je_runtime : ℤ
  pub je_unknown : ℤ
  pub cl_gplus : ℤ
  pub cl_gcc : ℤ
  pub cl_java : ℤ
  pub cores : ℤ
  pub test_data_path : Bytes
  pub db_user_name : Bytes
  pub db_password : Bytes
  pub db_ip : Bytes
  pub db_port : ℤ
  pub db_name : Bytes

-- The constructor leaves `cores` and `dbport` unset; they are 0 here, and nothing reads them before
-- they are loaded.
abbrev pub new_config : Config
new_config = record {
  je_pending = pos 0;
  je_accept = pos 4;
  je_compiling = pos 2;
  je_running_judgine = pos 3;
  je_rejudge = pos 1;
  je_complie = pos 5;
  je_wrong_anwser = pos 6;
  je_time_limited = pos 7;
  je_memory_limited = pos 8;
  je_present = pos 9;
  je_system = pos 10;
  je_runtime = pos 11;
  je_unknown = pos 99;
  cl_gplus = pos 0;
  cl_gcc = pos 1;
  cl_java = pos 2;
  cores = pos 0;
  test_data_path = [];
  db_user_name = [];
  db_password = [];
  db_ip = [];
  db_port = pos 0;
  db_name = [];
}

-- the assignments under each section that is found
load_root : Config → Node → Config
load_root c root = record c {
  cores = read_int root (codes "cores") (pos 0);
  test_data_path = read_string root (codes "testDataPath") [];
}

load_judgecode : Config → Node → Config
load_judgecode c ptr = record c {
  je_pending = read_int ptr (codes "pending") (pos 0);
  je_rejudge = read_int ptr (codes "rejudge") (pos 0);
  je_compiling = read_int ptr (codes "compiling") (pos 0);
  je_running_judgine = read_int ptr (codes "running") (pos 0);
  je_accept = read_int ptr (codes "accept") (pos 0);
  je_complie = read_int ptr (codes "compile_error") (pos 0);
  je_wrong_anwser = read_int ptr (codes "wrong_anwser") (pos 0);
  je_time_limited = read_int ptr (codes "time_limited") (pos 0);
  je_memory_limited = read_int ptr (codes "memory_limited") (pos 0);
  je_present = read_int ptr (codes "present_error") (pos 0);
  je_system = read_int ptr (codes "system_error") (pos 0);
  je_runtime = read_int ptr (codes "runtime_error") (pos 0);
  je_unknown = read_int ptr (codes "unknow_error") (pos 0);
}

load_compiler : Config → Node → Config
load_compiler c ptr = record c {
  cl_gcc = read_int ptr (codes "gcc") (pos 0);
  cl_gplus = read_int ptr (codes "g++") (pos 1);
  cl_java = read_int ptr (codes "java") (pos 3);
}

load_mysql : Config → Node → Config
load_mysql c ptr = record c {
  db_ip = read_string ptr (codes "ip") [];
  db_port = read_int ptr (codes "port") (pos 0);
  db_user_name = read_string ptr (codes "user") [];
  db_password = read_string ptr (codes "password") [];
  db_name = read_string ptr (codes "dbname") [];
}

-- `loadConfig` on a tree: what it leaves of the object, also where it returns false
unfoldable pub load_config : Config → Node → Config × Bool
unfolding load_root load_judgecode load_compiler load_mysql
load_config c root = elim (read root (codes "judgecode")) [
  | none ↦ (load_root c root, false)
  | some judgecode ↦ elim (read root (codes "compiler")) [
    | none ↦ (load_judgecode (load_root c root) judgecode, false)
    | some compiler ↦ elim (read root (codes "mysql")) [
      | none ↦ (load_compiler (load_judgecode (load_root c root) judgecode) compiler, false)
      | some mysql ↦ (
        load_mysql (load_compiler (load_judgecode (load_root c root) judgecode) compiler) mysql,
        true,
      )
    ]
  ]
]

-- `loadConfig` on a file: what it leaves of the object and what it returns; none for an exception
unfoldable pub load_config_file : (os : Os) → Config → Bytes → os.World → Option (Config × Bool)
load_config_file os c config w = elim (create_lzd_from_file os lzd_xml config [] w) [
  | throws ↦ none
  | null ↦ some (c, false)
  | tree root ↦ some (load_config c root)
]
