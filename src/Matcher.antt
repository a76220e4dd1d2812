-- ===== src/Matcher.antt =====
-- `Matcher` of Judger/Excuter.cpp: the comparison of a program's output with the expected one.
pub mod Verdict
use online_judger.Common.{ℕ, Bool, ◌&&◌, ◌||◌, [], ◌∷◌, ◌==◌, if◌then◌else◌, Bytes, true, false}

-- MATCHER_ACCEPT and the other results of `compare`
abbrev pub matcher_accept : ℕ
matcher_accept = 0

abbrev pub matcher_not_exist_src : ℕ
matcher_not_exist_src = 2

abbrev pub matcher_not_exist_dest : ℕ
matcher_not_exist_dest = 3

abbrev pub matcher_wrong_anwser : ℕ
matcher_wrong_anwser = 4

abbrev pub matcher_present_error : ℕ
matcher_present_error = 5

-- `isWhiteSpace` with the default set of characters " \t\r\n"
unfoldable pub is_white_space : ℕ → Bool
is_white_space c = c == 0 || c == b' ' || c == b'\t' || c == b'\r' || c == b'\n'

-- the two loops behind the main loop: what is left must be white, and then it is a presentation error
unfoldable pub compare_rest : ℕ → Bytes → ℕ
compare_rest result [] = result
compare_rest result (c ∷ cs) =
    let rest = compare_rest matcher_present_error cs in
    if is_white_space c then rest else matcher_wrong_anwser

-- the main loop; the arguments are what stands at and behind `i` and `k`
unfoldable pub compare_loop : ℕ → Bytes → Bytes → ℕ
compare_loop result [] ds = compare_rest result ds
compare_loop result (s ∷ ss) [] = compare_rest result (s ∷ ss)
compare_loop result (s ∷ ss) (d ∷ ds) = elim (s == d) [
  | true ↦ compare_loop result ss ds
  | false ↦ elim (s == b'\r' && d == b'\n') [
    | true ↦ compare_loop result ss (d ∷ ds)
    | false ↦ elim (d == b'\r' && s == b'\n') [
      | true ↦ compare_loop result (s ∷ ss) ds
      | false ↦ elim (is_white_space s) [
        | true ↦ compare_loop matcher_present_error ss (d ∷ ds)
        | false ↦ elim (is_white_space d) [
          | true ↦ compare_loop matcher_present_error (s ∷ ss) ds
          | false ↦ matcher_wrong_anwser
        ]
      ]
    ]
  ]
]

unfoldable pub compare : Bytes → Bytes → ℕ
unfolding compare_loop compare_rest is_white_space
compare src dst = compare_loop matcher_accept src dst
