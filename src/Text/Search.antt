-- ===== src/Text/Search.antt =====
-- Texts that lack a character, and where a search finds one.
use online_judger.Common.{
  ℕ, zero, suc, ◌≤◌, ◌≡◌, ◌≢◌, refl, ap, true, false, [], ◌∷◌, ◌++◌, none, some, arith, Bytes,
  length, take, drop,
}
use online_judger.Text.{is_blank, find_first_of}
use online_judger.Text.Trim.{AllBlank}

abbrev pub Lacks : ℕ → Bytes → Type 0
Lacks ch [] = Unit {0}
Lacks ch (c ∷ cs) = (c ≢ ch) × Lacks ch cs

pub Lacks-append : (ch : ℕ) (a b : Bytes) → Lacks ch a → Lacks ch b → Lacks ch (a ++ b)
Lacks-append ch [] b h k = k
Lacks-append ch (c ∷ a) b (h, hs) k = (h, Lacks-append ch a b hs k)

-- a character that is not blank
pub AllBlank-Lacks : (ch : ℕ) (a : Bytes) → is_blank ch ≡ false → AllBlank a → Lacks ch a
AllBlank-Lacks ch [] n h = tt
AllBlank-Lacks ch (c ∷ a) n (h, hs) =
    ((λ e. let blank : is_blank ch ≡ true = rw (← e) h in cc), AllBlank-Lacks ch a n hs)

pub AllBlank-append : (a b : Bytes) → AllBlank a → AllBlank b → AllBlank (a ++ b)
AllBlank-append [] b h k = k
AllBlank-append (c ∷ a) b (h, hs) k = (h, AllBlank-append a b hs k)

pub find_first_of-append :
    (ch : ℕ) (a b : Bytes) → Lacks ch a → find_first_of ch (a ++ ch ∷ b) ≡ some (length a)
unfolding find_first_of
find_first_of-append ch [] b h = ground arith
find_first_of-append ch (c ∷ a) b (h, hs) =
    let later = find_first_of-append ch a b hs in ground (arith, later)

pub find_first_of-Lacks : (ch : ℕ) (a : Bytes) → Lacks ch a → find_first_of ch a ≡ none
unfolding find_first_of
find_first_of-Lacks ch [] h = refl
find_first_of-Lacks ch (c ∷ a) (h, hs) =
    let later = find_first_of-Lacks ch a hs in ground (arith, later)

-- the text in front of a position, and what stands behind it
pub take-append : (a b : Bytes) → take (length a) (a ++ b) ≡ a
take-append [] b = refl
take-append (c ∷ a) b = ap (◌∷◌ c) (take-append a b)

pub drop-append : (a b : Bytes) → drop (length a) (a ++ b) ≡ b
drop-append [] b = refl
drop-append (c ∷ a) b = drop-append a b

pub drop-append_suc : (a : Bytes) (c : ℕ) (b : Bytes) → drop (suc (length a)) (a ++ c ∷ b) ≡ b
drop-append_suc [] c b = refl
drop-append_suc (d ∷ a) c b = drop-append_suc a c b

pub length-drop_le : (n : ℕ) (s : Bytes) → length (drop n s) ≤ length s
length-drop_le zero s = omega arith
length-drop_le (suc n) [] = omega arith
length-drop_le (suc n) (c ∷ cs) = omega (arith, length-drop_le n cs)
