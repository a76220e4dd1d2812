-- ===== src/Net/Header.antt =====
-- The length that a head names.
use online_judger.Common.{
  ℕ, ◌+◌, ◌-◌, ◌*◌, ◌/◌, ◌%◌, ◌<◌, ◌≡◌, [], ◌∷◌, ◌++◌, ◌==◌, if◌then◌else◌, Bytes, length,
  drop-append_eq, ap, ◌∙◌, arith,
}
use online_judger.Common.Int.{pos}
use online_judger.Net.{four_digits, head_length, close_head, overwrite}
use online_judger.Number.{is_digit, then_digit, atoi-four}
use online_judger.Text.{until_nul}

-- the digits carry no NUL, and the array is closed behind the sixth character
until_nul-digits :
    (a b c d h : ℕ) (rest : Bytes)
    → until_nul ((b'0' + a) ∷ (b'0' + b) ∷ (b'0' + c) ∷ (b'0' + d) ∷ h ∷ 0 ∷ rest)
      ≡ (b'0' + a) ∷ (b'0' + b) ∷ (b'0' + c) ∷ (b'0' + d) ∷ (if h == 0 then [] else h ∷ [])
unfolding until_nul
until_nul-digits a b c d h rest = ground arith

abbrev tail : ℕ → Bytes
tail h = if h == 0 then [] else h ∷ []

then_digit-tail :
    (n h : ℕ) → then_digit n (tail h) ≡ (if is_digit h then n * 10 + (h - b'0') else n)
then_digit-tail n h = ground arith

-- The length of a message below 10000 that a head names, in an array with `h` at index 5 from before:
-- the array is closed one place too far, so that a digit there is read as a fifth one.
pub head_length-digits :
    (n h i : ℕ) (first rest : Bytes)
    → n < 10000
    → length first ≡ 5
    → head_length (close_head (overwrite (b'@' ∷ four_digits n) (first ++ h ∷ i ∷ rest)))
      ≡ pos (if is_digit h then n * 10 + (h - b'0') else n)
unfolding head_length
head_length-digits n h i first rest small five =
    let value : ((n / 1000 * 10 + n / 100 % 10) * 10 + n / 10 % 10) * 10 + n % 10 ≡ n =
      omega (arith, small) in
    rw (drop-append_eq 5 first (h ∷ i ∷ rest) five) (
      rw (until_nul-digits (n / 1000) (n / 100 % 10) (n / 10 % 10) (n % 10) h rest, head_length)
        (atoi-four (n / 1000) (n / 100 % 10) (n / 10 % 10) (n % 10) (tail h) (omega (arith, small))
            (omega arith) (omega arith) (omega arith) (ground arith)
          ∙ ap pos (ap (λ (m : ℕ). then_digit m (tail h)) value ∙ then_digit-tail n h)))
