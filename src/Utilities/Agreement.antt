-- ===== src/Utilities/Agreement.antt =====
-- `trimRStringA` of acm/Utilities.cpp beside `rtrimString` of LZData/LZData.cpp.
use online_judger.Common.{
  ℕ, zero, suc, ◌≡◌, ◌∙◌, ◌≤◌, refl, sym, ap, Bool, true, false, ltb, inl, inr, Bytes, length,
  get_elem?, take, arith, Bool-cases, Option-cases,
}
use online_judger.Common.Int.{ℤ}
use online_judger.Number.{atoi-show_int}
use online_judger.Text.{is_blank, find_first_of, rtrim_loop, rtrim_string}
use online_judger.Text.Trim.{get_elem?-lt, take_all}
use online_judger.Utilities.{
  is_filtered, kept_length, trim_r_string, blanks, as_bool, set_bool, as_int, set_int,
}

is_filtered-blank : (c : ℕ) → is_filtered blanks c ≡ is_blank c
unfolding is_blank find_first_of
is_filtered-blank c = ground arith

kept_length-le : (filter s : Bytes) (n : ℕ) → kept_length filter s n ≤ n
unfolding kept_length
kept_length-le filter s zero = omega arith
kept_length-le filter s (suc i) =
    let h = kept_length-le filter s i in
    elim (Option-cases (get_elem? s i)) [
      | inl e ↦ rw (e, kept_length) (omega arith)
      | inr (c, e) ↦
          rw (e, kept_length)
            (elim (Bool-cases (is_filtered filter c)) [
              | inl b ↦ rw (b) (omega arith)
              | inr b ↦ rw (b) (omega arith)
            ])
    ]

-- the two loops keep the same characters
take-kept_length :
    (n : ℕ) (s : Bytes) → n ≤ length s → take (kept_length blanks s n) s ≡ rtrim_loop n s
unfolding kept_length rtrim_loop
take-kept_length zero s h = refl
take-kept_length (suc i) s h =
    let (c, e) = get_elem?-lt i s h in
    let ih = take-kept_length i s (omega arith) in
    rw (e, kept_length, rtrim_loop, is_filtered-blank c)
      (elim (Bool-cases (is_blank c)) [ inl b ↦ rw (b) ih | inr b ↦ rw (b) refl ])

-- the two trimming routines of the program give the same string
trim_r_string-rtrim_string : (s : Bytes) → trim_r_string blanks s ≡ rtrim_string s
unfolding trim_r_string rtrim_string
trim_r_string-rtrim_string s =
    let h = kept_length-le blanks s (length s) in
    let agree = take-kept_length (length s) s (omega arith) in
    elim (Bool-cases (ltb (kept_length blanks s (length s)) (length s))) [
      | inl b ↦ rw (b) agree
      | inr b ↦ rw (b) (sym (take_all s) ∙ ap (λ n. take n s) (all h b) ∙ agree)
    ]
  where
    all : {i n : ℕ} → i ≤ n → ltb i n ≡ false → n ≡ i
    all h b = ground arith

-- a truth value survives being stored
as_bool-set_bool : (m_value : Bytes) (b : Bool) → as_bool (set_bool m_value b) ≡ b
unfolding as_bool
as_bool-set_bool m_value true = refl
as_bool-set_bool m_value false = refl

-- a number survives being stored
as_int-set_int : (m_value : Bytes) (z : ℤ) → as_int (set_int m_value z) ≡ z
as_int-set_int m_value z = atoi-show_int z
