-- ===== src/Text.antt =====
-- Characters and strings: the trimming of LZData/LZData.cpp, and the `std::string` searches that
-- the program uses.
pub mod Trim
pub mod Search
pub mod Stored
use online_judger.Common.{
  ℕ, zero, suc, Bool, ◌||◌, [], ◌∷◌, Option, none, some, ◌==◌, if◌then◌else◌, Bytes, length,
  get_elem?, take,
}

-- `isWhiteSpace` of LZData/lzdParser.cpp
unfoldable pub is_blank : ℕ → Bool
is_blank c = c == b' ' || c == b'\t' || c == b'\n' || c == b'\r'

unfoldable pub ltrim_string : Bytes → Bytes
ltrim_string [] = []
ltrim_string (c ∷ cs) = if is_blank c then ltrim_string cs else c ∷ cs

-- the loop of `rtrimString`; the first argument is `i + 1`
unfoldable pub rtrim_loop : ℕ → Bytes → Bytes
rtrim_loop zero str = []
rtrim_loop (suc i) str = elim (get_elem? str i) [
  | none ↦ str
  | some c ↦ let rest = rtrim_loop i str in if is_blank c then rest else take (suc i) str
]

unfoldable pub rtrim_string : Bytes → Bytes
rtrim_string str = rtrim_loop (length str) str

unfoldable pub trim_string : Bytes → Bytes
unfolding is_blank ltrim_string rtrim_string rtrim_loop
trim_string str = rtrim_string (ltrim_string str)

-- the position before which `std::string::find_first_of` stops, if the character is there
unfoldable pub find_first_of : ℕ → Bytes → Option ℕ
find_first_of ch [] = none
find_first_of ch (c ∷ cs) =
    let later : Option ℕ = elim (find_first_of ch cs) [ none ↦ none | some p ↦ some (suc p) ] in
    if c == ch then some 0 else later

unfoldable pub find_last_of : ℕ → Bytes → Option ℕ
find_last_of ch [] = none
find_last_of ch (c ∷ cs) = elim (find_last_of ch cs) [
  | some p ↦ some (suc p)
  | none ↦ if c == ch then some 0 else none
]

-- a text up to its first NUL, as `operator +=` and a constructor of `std::string` take a buffer
unfoldable pub until_nul : Bytes → Bytes
until_nul [] = []
until_nul (c ∷ cs) = if c == 0 then [] else c ∷ until_nul cs
