-- ===== src/Matcher/Verdict.antt =====
-- What `compare` decides, stated without its loops.
use online_judger.Common.{
  ℕ, true, false, ◌&&◌, [], ◌∷◌, ◌≡◌, refl, arith, ◌==◌, if◌then◌else◌, Bool-cases, inl, inr, ◌≢◌,
  Bytes, bytes_eq, bytes_eq_iff, ◌↔◌, ==_self, ◌∙◌, sym,
}
use online_judger.Matcher.{
  matcher_accept, matcher_wrong_anwser, matcher_present_error, is_white_space, compare_rest,
  compare_loop, compare,
}

-- the characters that are not white space
pub visible : Bytes → Bytes
visible [] = []
visible (c ∷ cs) = if is_white_space c then visible cs else c ∷ visible cs

-- `c` in front of `r`, unless `c` is a carriage return and `r` begins with a line feed
pub put_char : ℕ → Bytes → Bytes
put_char c [] = c ∷ []
put_char c (d ∷ ds) = if c == b'\r' && d == b'\n' then d ∷ ds else c ∷ d ∷ ds

-- the text without the carriage returns that lead to a line feed
pub unix_lines : Bytes → Bytes
unix_lines [] = []
unix_lines (c ∷ cs) = put_char c (unix_lines cs)

pub verdict : ℕ → Bytes → Bytes → ℕ
unfolding visible unix_lines put_char
verdict result a b =
    if bytes_eq (visible a) (visible b)
    then if bytes_eq (unix_lines a) (unix_lines b) then result else matcher_present_error
    else matcher_wrong_anwser

put_char_same : (c : ℕ) (x y : Bytes) → bytes_eq (put_char c x) (put_char c y) ≡ bytes_eq x y
unfolding put_char
put_char_same c [] [] = ground arith
put_char_same c [] (d ∷ ds) = ground arith
put_char_same c (d ∷ ds) [] = ground arith
put_char_same c (d ∷ ds) (e ∷ es) = ground arith

put_char_differs :
    (s d : ℕ) (x y : Bytes)
    → (s == d) ≡ false
    → (s == b'\r' && d == b'\n') ≡ false
    → (d == b'\r' && s == b'\n') ≡ false
    → bytes_eq (put_char s x) (put_char d y) ≡ false
unfolding put_char
put_char_differs s d [] [] = ground arith
put_char_differs s d [] (e ∷ es) = ground arith
put_char_differs s d (e ∷ es) [] = ground arith
put_char_differs s d (e ∷ es) (f ∷ fs) = ground arith

put_char_return :
    (x y : Bytes) → bytes_eq (put_char b'\r' x) (put_char b'\n' y) ≡ bytes_eq x (put_char b'\n' y)
unfolding put_char
put_char_return [] [] = ground arith
put_char_return [] (d ∷ ds) = ground arith
put_char_return (d ∷ ds) [] = ground arith
put_char_return (d ∷ ds) (e ∷ es) = ground arith

return_is_white : is_white_space b'\r' ≡ true
unfolding is_white_space
return_is_white = refl

feed_is_white : is_white_space b'\n' ≡ true
unfolding is_white_space
feed_is_white = refl

compare_rest-verdict : (result : ℕ) (ds : Bytes) → compare_rest result ds ≡ verdict result [] ds
unfolding compare_rest verdict
compare_rest-verdict result [] = refl
compare_rest-verdict result (d ∷ []) = ground arith
compare_rest-verdict result (d ∷ e ∷ es) =
    ground (arith, compare_rest-verdict matcher_present_error (e ∷ es))

bytes_eq_sym : (a b : Bytes) → bytes_eq a b ≡ bytes_eq b a
bytes_eq_sym [] [] = refl
bytes_eq_sym [] (y ∷ b) = refl
bytes_eq_sym (x ∷ a) [] = refl
bytes_eq_sym (x ∷ a) (y ∷ b) = ground (arith, bytes_eq_sym a b)

verdict_sym : (result : ℕ) (a b : Bytes) → verdict result a b ≡ verdict result b a
unfolding verdict
verdict_sym result a b =
    rw (bytes_eq_sym (visible a) (visible b), bytes_eq_sym (unix_lines a) (unix_lines b))

verdict_same : (result c : ℕ) (a b : Bytes) → verdict result (c ∷ a) (c ∷ b) ≡ verdict result a b
unfolding verdict
verdict_same result c a b =
    rw (put_char_same c (unix_lines a) (unix_lines b)) (elim (Bool-cases (is_white_space c)) [
      | inl white ↦ rw white
      | inr ink ↦ rw (ink, ==_self c)
    ])

verdict_return :
    (result : ℕ) (a b : Bytes)
    → verdict result (b'\r' ∷ a) (b'\n' ∷ b) ≡ verdict result a (b'\n' ∷ b)
unfolding verdict
verdict_return result a b = rw (put_char_return (unix_lines a) (unix_lines b), return_is_white)

-- Two characters that differ, and are no carriage return and line feed: the texts differ, and if
-- one of the characters is white, all depends on what is visible.
verdict_skip :
    (result s d : ℕ) (a b : Bytes)
    → (s == d) ≡ false
    → (s == b'\r' && d == b'\n') ≡ false
    → (d == b'\r' && s == b'\n') ≡ false
    → is_white_space s ≡ true
    → verdict result (s ∷ a) (d ∷ b) ≡ verdict matcher_present_error a (d ∷ b)
unfolding verdict
verdict_skip result s d a b h1 h2 h3 white =
    ground (arith, put_char_differs s d (unix_lines a) (unix_lines b) h1 h2 h3)

verdict_wrong :
    (result s d : ℕ) (a b : Bytes)
    → (s == d) ≡ false
    → is_white_space s ≡ false
    → is_white_space d ≡ false
    → verdict result (s ∷ a) (d ∷ b) ≡ matcher_wrong_anwser
unfolding verdict
verdict_wrong result s d a b h ink ink' = rw (ink, ink', h)

compare_loop-verdict :
    (result : ℕ) (src dst : Bytes) → compare_loop result src dst ≡ verdict result src dst
unfolding compare_loop
compare_loop-verdict result [] dst = compare_rest-verdict result dst
compare_loop-verdict result (s ∷ ss) [] =
    compare_rest-verdict result (s ∷ ss) ∙ verdict_sym result [] (s ∷ ss)
compare_loop-verdict result (s ∷ ss) (d ∷ ds) = ground (
  arith,
  compare_loop-verdict result ss ds,
  compare_loop-verdict result ss (d ∷ ds),
  compare_loop-verdict result (s ∷ ss) ds,
  compare_loop-verdict matcher_present_error ss (d ∷ ds),
  compare_loop-verdict matcher_present_error (s ∷ ss) ds,
  verdict_same result s ss ds,
  verdict_return result ss ds,
  verdict_return result ds ss,
  verdict_sym result (s ∷ ss) ds,
  verdict_sym result (s ∷ ss) (d ∷ ds),
  verdict_sym matcher_present_error (s ∷ ss) ds,
  verdict_skip result s d ss ds,
  verdict_skip result d s ds ss,
  verdict_wrong result s d ss ds,
)

visible-put_char : (c : ℕ) (r : Bytes) → visible (put_char c r) ≡ visible (c ∷ r)
unfolding visible put_char is_white_space
visible-put_char c [] = refl
visible-put_char c (d ∷ ds) = ground arith

visible-cons : (c : ℕ) (a b : Bytes) → visible a ≡ visible b → visible (c ∷ a) ≡ visible (c ∷ b)
unfolding visible
visible-cons c a b e = rw e

visible-unix_lines : (a : Bytes) → visible (unix_lines a) ≡ visible a
unfolding unix_lines
visible-unix_lines [] = refl
visible-unix_lines (c ∷ cs) =
    visible-put_char c (unix_lines cs) ∙ visible-cons c (unix_lines cs) cs (visible-unix_lines cs)

-- `compare` accepts exactly the outputs that equal the expected one up to carriage returns that
-- lead to a line feed.
pub compare-eq-accept_iff :
    (src dst : Bytes) → (compare src dst ≡ matcher_accept) ↔ (unix_lines src ≡ unix_lines dst)
unfolding compare
compare-eq-accept_iff src dst = rw (compare_loop-verdict matcher_accept src dst) (
    unfold verdict in
    (
      λ h. ground (arith, bytes_eq_iff (unix_lines src) (unix_lines dst)),
      λ h. ground (
        arith,
        bytes_eq_iff (unix_lines src) (unix_lines dst),
        bytes_eq_iff (visible src) (visible dst),
        visible-unix_lines src,
        visible-unix_lines dst,
      ),
    ))

-- `compare` says wrong answer exactly if the texts differ in what is not white space.
pub compare-eq-wrong_iff :
    (src dst : Bytes) → (compare src dst ≡ matcher_wrong_anwser) ↔ (visible src ≢ visible dst)
unfolding compare
compare-eq-wrong_iff src dst = rw (compare_loop-verdict matcher_accept src dst) (
    unfold verdict in
    (
      λ h e. ground (arith, bytes_eq_iff (visible src) (visible dst)),
      λ h. ground (arith, bytes_eq_iff (visible src) (visible dst)),
    ))

-- `compare` says presentation error exactly if the texts agree in what is not white space and differ
-- in more than carriage returns that lead to a line feed.
pub compare-eq-present_iff :
    (src dst : Bytes)
    → (compare src dst ≡ matcher_present_error)
      ↔ ((visible src ≡ visible dst) × (unix_lines src ≢ unix_lines dst))
unfolding compare
compare-eq-present_iff src dst = rw (compare_loop-verdict matcher_accept src dst) (
    unfold verdict in
    (
      λ h. (
        ground (arith, bytes_eq_iff (visible src) (visible dst)),
        λ e. ground (arith, bytes_eq_iff (unix_lines src) (unix_lines dst)),
      ),
      λ h. ground (
        arith,
        bytes_eq_iff (unix_lines src) (unix_lines dst),
        bytes_eq_iff (visible src) (visible dst),
      ),
    ))

-- `compare` says the same if the program's output and the expected one change places.
pub compare_comm : (a b : Bytes) → compare a b ≡ compare b a
unfolding compare
compare_comm a b =
    compare_loop-verdict matcher_accept a b
    ∙ verdict_sym matcher_accept a b
    ∙ sym (compare_loop-verdict matcher_accept b a)
