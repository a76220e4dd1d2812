-- ===== src/Number.antt =====
-- `atoi` and `sprintf` with "%d", as LZData/LZData.cpp and acm/Utilities.cpp use them. Numbers do
-- not overflow here.
use online_judger.Common.{
  ℕ, zero, suc, ◌+◌, ◌-◌, ◌*◌, ◌/◌, ◌%◌, ◌<◌, ◌≤◌, length, ◌≡◌, ap, refl, ◌∙◌, Bool, true, ◌&&◌,
  ◌||◌, [], ◌∷◌, ltb, leb, ◌==◌, if◌then◌else◌, Bytes, arith, inl, inr, Bool-cases,
}
use online_judger.Common.Int.{ℤ, pos, negsuc, neg_ℕ}

-- the characters that `isspace` accepts in the C locale
abbrev is_space : ℕ → Bool
is_space c = c == b' ' || leb 9 c && leb c 13

abbrev pub is_digit : ℕ → Bool
is_digit c = leb b'0' c && leb c b'9'

read_digits : ℕ → Bytes → ℕ
read_digits acc [] = acc
read_digits acc (c ∷ cs) =
    let rest = read_digits (acc * 10 + (c - b'0')) cs in if is_digit c then rest else acc

read_signed : Bytes → ℤ
read_signed [] = pos 0
read_signed (c ∷ cs) =
    if c == b'-'
    then neg_ℕ (read_digits 0 cs)
    else if c == b'+'
    then pos (read_digits 0 cs)
    else pos (read_digits 0 (c ∷ cs))

skip_space : Bytes → Bytes
skip_space [] = []
skip_space (c ∷ cs) = if is_space c then skip_space cs else c ∷ cs

unfoldable pub atoi : Bytes → ℤ
unfolding read_digits read_signed skip_space
atoi s = read_signed (skip_space s)

-- the decimal digits of `n` in front of `rest`
unfoldable pub digits_onto : ℕ → ℕ → Bytes → Bytes
digits_onto zero n rest = rest
digits_onto (suc fuel) n rest =
    let front = digits_onto fuel (n / 10) ((b'0' + n % 10) ∷ rest) in
    if ltb n 10 then (b'0' + n) ∷ rest else front

unfoldable pub show_nat : ℕ → Bytes
unfolding digits_onto
show_nat n = digits_onto (suc n) n []

-- "%d"
unfoldable pub show_int : ℤ → Bytes
unfolding show_nat
show_int (pos n) = show_nat n
show_int (negsuc n) = b'-' ∷ show_nat (suc n)

read_digits-digits_onto :
    (fuel n : ℕ) (rest : Bytes)
    → n < fuel
    → read_digits 0 (digits_onto fuel n rest) ≡ read_digits n rest
unfolding digits_onto read_digits
read_digits-digits_onto zero n rest h = elim h [ ]
read_digits-digits_onto (suc fuel) n rest h = elim (Bool-cases (ltb n 10)) [
  | inl one ↦ rw one (ground arith)
  | inr more ↦
      let again = (b'0' + n % 10) ∷ rest in
      rw more (read_digits-digits_onto fuel (n / 10) again (ground arith) ∙ ground arith)
]

starts_with_digit :
    (fuel n : ℕ) (rest : Bytes)
    → n < fuel
    → (d : ℕ) × (ds : Bytes) × (digits_onto fuel n rest ≡ d ∷ ds) × (is_digit d ≡ true)
unfolding digits_onto
starts_with_digit zero n rest h = elim h [ ]
starts_with_digit (suc fuel) n rest h = elim (Bool-cases (ltb n 10)) [
  | inl one ↦ rw one (b'0' + n, rest, refl, ground arith)
  | inr more ↦ rw more (starts_with_digit fuel (n / 10) ((b'0' + n % 10) ∷ rest) (ground arith))
]

read_signed-digit :
    (s : Bytes) (d : ℕ) (ds : Bytes)
    → s ≡ d ∷ ds
    → is_digit d ≡ true
    → read_signed (skip_space s) ≡ pos (read_digits 0 s)
unfolding read_signed skip_space
read_signed-digit s d ds e h = rw e (ground arith)

-- Reading back a printed number gives the number.
pub atoi-show_int : (z : ℤ) → atoi (show_int z) ≡ z
unfolding atoi show_int show_nat
atoi-show_int (pos n) =
    let (d, ds, e, h) = starts_with_digit (suc n) n [] (omega arith) in
    read_signed-digit (digits_onto (suc n) n []) d ds e h
    ∙ rw (read_digits-digits_onto (suc n) n [] (omega arith))
atoi-show_int (negsuc n) = rw (read_digits-digits_onto (suc (suc n)) (suc n) [] (omega arith))

-- the digit of a character at the front, if it is one, behind a number
abbrev pub then_digit : ℕ → Bytes → ℕ
then_digit n [] = n
then_digit n (c ∷ cs) = if is_digit c then n * 10 + (c - b'0') else n

read_digits-digit :
    (acc d : ℕ) (rest : Bytes)
    → d < 10
    → read_digits acc ((b'0' + d) ∷ rest) ≡ read_digits (acc * 10 + d) rest
unfolding read_digits
read_digits-digit acc d rest h = ground arith

read_digits-then_digit :
    (n : ℕ) (tail : Bytes) → length tail ≤ 1 → read_digits n tail ≡ then_digit n tail
unfolding read_digits
read_digits-then_digit n [] short = refl
read_digits-then_digit n (c ∷ []) short = ground arith
read_digits-then_digit n (c ∷ d ∷ tail) short = absurd (omega arith)

-- Four digits are read as their number, and one more digit behind them is read too.
pub atoi-four :
    (a b c d : ℕ) (tail : Bytes)
    → a < 10
    → b < 10
    → c < 10
    → d < 10
    → length tail ≤ 1
    → atoi ((b'0' + a) ∷ (b'0' + b) ∷ (b'0' + c) ∷ (b'0' + d) ∷ tail)
      ≡ pos (then_digit (((a * 10 + b) * 10 + c) * 10 + d) tail)
unfolding atoi
atoi-four a b c d tail ha hb hc hd short =
    let digits = (b'0' + a) ∷ (b'0' + b) ∷ (b'0' + c) ∷ (b'0' + d) ∷ tail in
    let same : (((0 * 10 + a) * 10 + b) * 10 + c) * 10 + d ≡ ((a * 10 + b) * 10 + c) * 10 + d =
      omega arith in
    read_signed-digit digits _ _ refl (ground arith)
    ∙ ap pos (
        read_digits-digit 0 a ((b'0' + b) ∷ (b'0' + c) ∷ (b'0' + d) ∷ tail) ha
        ∙ read_digits-digit (0 * 10 + a) b ((b'0' + c) ∷ (b'0' + d) ∷ tail) hb
        ∙ read_digits-digit ((0 * 10 + a) * 10 + b) c ((b'0' + d) ∷ tail) hc
        ∙ read_digits-digit (((0 * 10 + a) * 10 + b) * 10 + c) d tail hd
        ∙ read_digits-then_digit ((((0 * 10 + a) * 10 + b) * 10 + c) * 10 + d) tail short
        ∙ ap (λ (m : ℕ). then_digit m tail) same)
