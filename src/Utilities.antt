-- ===== src/Utilities.antt =====
-- `trimRStringA` and `StringTool` of Commen/Utilities.h and acm/Utilities.cpp.
pub mod Agreement
use online_judger.Common.{
  ℕ, zero, suc, Bool, true, false, ◌||◌, not, [], ◌∷◌, Option, none, some, ltb, ◌==◌, if◌then◌else◌,
  Bytes, bytes_eq, codes, length, get_elem?, take,
}
use online_judger.Common.Int.{ℤ, pos, eq_ℤ}
use online_judger.Number.{atoi, show_int}
use online_judger.Text.{find_first_of}

-- `filter.find(ch) != filter.npos`
abbrev pub is_filtered : Bytes → ℕ → Bool
is_filtered filter ch = elim (find_first_of ch filter) [ none ↦ false | some p ↦ true ]

-- the loop of `_trimRString` from `i + 1` down: the length that is kept
unfoldable pub kept_length : Bytes → Bytes → ℕ → ℕ
kept_length filter str zero = zero
kept_length filter str (suc i) = elim (get_elem? str i) [
  | none ↦ suc i
  | some c ↦ let rest = kept_length filter str i in if is_filtered filter c then rest else suc i
]

-- `trimRStringA`
unfoldable pub trim_r_string : Bytes → Bytes → Bytes
unfolding kept_length
trim_r_string filter str =
    let i = kept_length filter str (length str) in if ltb i (length str) then take i str else str

-- the default of the filter
abbrev pub blanks : Bytes
blanks = codes " \t\r\n"

-- the value of a `StringTool`
abbrev pub StringTool : Type 0
StringTool = Bytes

abbrev pub as_int : StringTool → ℤ
as_int m_value = atoi m_value

unfoldable pub as_bool : StringTool → Bool
as_bool m_value =
    if bytes_eq m_value (codes "true")
    then true
    else if bytes_eq m_value (codes "false")
    then false
    else not (eq_ℤ (as_int m_value) (pos 0))

-- `convertToString` with "%d": an `int` fits into its 64 characters
abbrev pub set_int : StringTool → ℤ → StringTool
set_int m_value value = show_int value

abbrev pub set_bool : StringTool → Bool → StringTool
set_bool m_value value = if value then codes "true" else codes "false"
