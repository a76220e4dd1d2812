-- ===== src/LzData/Walk/Names.antt =====
-- The names of a path: what stands between the slashes.
use online_judger.Common.{
  ℕ, zero, suc, ◌<◌, ◌≡◌, refl, List, [], ◌∷◌, none, some, arith, ◌==◌, if◌then◌else◌, Bytes,
  length, take, drop,
}
use online_judger.Text.{find_first_of}

-- the first name, and the others
unfoldable pub names : Bytes → Bytes × List Bytes
names [] = ([], [])
names (c ∷ cs) =
    let rest = names cs in if c == b'/' then ([], rest.0 ∷ rest.1) else (c ∷ rest.0, rest.1)

pub names-none : (t : Bytes) → find_first_of b'/' t ≡ none → names t ≡ (t, [])
unfolding find_first_of names
names-none [] e = refl
names-none (c ∷ cs) e = ground (arith, names-none cs)

pub names-some :
    (t : Bytes) (p : ℕ)
    → find_first_of b'/' t ≡ some p
    → names t ≡ (take p t, (names (drop (suc p) t)).0 ∷ (names (drop (suc p) t)).1)
unfolding find_first_of names
names-some [] p e = cc
names-some (c ∷ cs) zero e = ground arith
names-some (c ∷ cs) (suc p) e = ground (arith, names-some cs p)

pub length-rest-lt :
    (t : Bytes) (p : ℕ) → find_first_of b'/' t ≡ some p → length (drop (suc p) t) < length t
unfolding find_first_of
length-rest-lt [] p e = cc
length-rest-lt (c ∷ cs) zero e = omega arith
length-rest-lt (c ∷ cs) (suc p) e = ground (arith, length-rest-lt cs p)
