-- ===== src/FileTool.antt =====
-- acm/FileTool.cpp: names of files and directories, and the calls on them.
pub mod Names
pub mod Fuel
use online_judger.Common.{
  ℕ, zero, suc, Bool, true, false, List, [], ◌∷◌, ◌++◌, Option, none, some, ◌==◌, if◌then◌else◌,
  Bytes, length, take, drop, map,
}
use online_judger.Os.{Os, Found}
use online_judger.Text.{find_last_of}

abbrev slash_use : ℕ
slash_use = b'\\'

abbrev slash_old : ℕ
slash_old = b'/'

unfoldable pub format_slash : Bytes → Bytes
format_slash = map (λ c. if c == slash_old then slash_use else c)

-- whether the last character is a backslash
pub ends_in_slash : Bytes → Bool
ends_in_slash [] = false
ends_in_slash (c ∷ []) = c == slash_use
ends_in_slash (c ∷ d ∷ cs) = ends_in_slash (d ∷ cs)

-- `dirName.erase(lastIndex)`
unfoldable pub drop_last : Bytes → Bytes
drop_last [] = []
drop_last (c ∷ []) = []
drop_last (c ∷ d ∷ cs) = c ∷ drop_last (d ∷ cs)

-- `formatDirName`; the flag is `appendSlash`
unfoldable pub format_dir_name : Bytes → Bool → Bytes
unfolding format_slash ends_in_slash drop_last
format_dir_name [] append_slash = []
format_dir_name (c ∷ cs) append_slash =
    let name = format_slash (c ∷ cs) in
    if append_slash
    then if ends_in_slash name then name else name ++ slash_use ∷ []
    else if ends_in_slash name
    then drop_last name
    else name

unfoldable pub get_path_file : Bytes → Bytes
unfolding format_slash
get_path_file filename =
    let name = format_slash filename in
    elim (find_last_of slash_use name) [ none ↦ name | some pos ↦ drop (suc pos) name ]

unfoldable pub get_file_path : Bytes → Bytes
unfolding format_slash
get_file_path filename =
    let name = format_slash filename in
    elim (find_last_of slash_use name) [ none ↦ [] | some pos ↦ take pos name ]

unfoldable pub get_file_name : Bytes → Bytes
get_file_name filename = elim (find_last_of b'.' filename) [
  | none ↦ filename
  | some pos ↦ take pos filename
]

unfoldable pub get_file_ext : Bytes → Bytes
get_file_ext filename = elim (find_last_of b'.' filename) [
  | none ↦ []
  | some pos ↦ drop (suc pos) filename
]

module _ (os : Os) where
  open os use {World, has_file, create_directory, find, read_text}

  -- the body of `makeDir`, by whether the name is there, the path of the parent, and the call for it
  unfoldable pub make_below : Bytes → World → Bool → Bytes → (Bytes → Bool × World) → Bool × World
  make_below temp_path w true parent call = (true, w)
  make_below temp_path w false [] call = create_directory temp_path w
  make_below temp_path w false (c ∷ cs) call =
      let above = call (c ∷ cs) in
      if above.0 then create_directory temp_path above.1 else (false, above.1)

  -- `makeDir`, through as many parents as the fuel allows
  pub make_dir_fuel : ℕ → Bytes → World → Bool × World
  make_dir_fuel zero dir w = (false, w)
  make_dir_fuel (suc fuel) dir w =
      let temp_path = format_dir_name dir false in
      make_below temp_path w (has_file dir w) (get_file_path temp_path)
        (λ parent. make_dir_fuel fuel parent w)

  -- The path of the parent is shorter.
  unfoldable pub make_dir : Bytes → World → Bool × World
  unfolding make_dir_fuel
  make_dir dir w = make_dir_fuel (suc (length dir)) dir w

  -- the loop of `findFiles`: files only, with the path in front if `unionPath` is set
  collect : Bool → Bytes → List Found → List Bytes
  collect union_path path [] = []
  collect union_path path (f ∷ fs) =
      let rest = collect union_path path fs in
      if f.is_dot
      then rest
      else if f.is_dir
      then rest
      else (if union_path then path ++ f.file_name else f.file_name) ∷ rest

  -- `findFiles`: the names found, and whether there are any
  unfoldable pub find_files : Bytes → Bytes → Bool → World → List Bytes × Bool
  unfolding collect format_dir_name
  find_files path ext union_path w =
      let formated_path = format_dir_name path true in
      let names = collect union_path formated_path (find (formated_path ++ ext) w) in
      (names, elim names [ [] ↦ false | n ∷ ns ↦ true ])

  -- `readFileBuffer` in text mode
  abbrev pub read_file_buffer : Bytes → World → Option Bytes
  read_file_buffer fname w = read_text fname w
