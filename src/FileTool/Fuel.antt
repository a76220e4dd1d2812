-- ===== src/FileTool/Fuel.antt =====
-- That the fuel of `make_dir` is enough.
use online_judger.Common.{
  ℕ, zero, suc, ◌≤◌, ◌<◌, ◌≡◌, refl, Bool, true, false, [], ◌∷◌, some, inl, inr, Option-cases,
  arith, if◌then◌else◌, Bytes, length, take, map, ◌==◌,
}
use online_judger.FileTool.{
  format_slash, format_dir_name, drop_last, get_file_path, make_below, make_dir_fuel, make_dir,
  slash_use, slash_old,
}
use online_judger.Os.{Os}
use online_judger.Text.{find_last_of}

length-map : (f : ℕ → ℕ) (s : Bytes) → length (map f s) ≡ length s
length-map f [] = refl
length-map f (c ∷ cs) = omega (arith, length-map f cs)

length-format_slash : (s : Bytes) → length (format_slash s) ≡ length s
unfolding format_slash
length-format_slash s = length-map (λ c. if c == slash_old then slash_use else c) s

drop_last_le : (s : Bytes) → length (drop_last s) ≤ length s
unfolding drop_last
drop_last_le [] = omega arith
drop_last_le (c ∷ []) = omega arith
drop_last_le (c ∷ d ∷ cs) = omega (arith, drop_last_le (d ∷ cs))

format_dir_name_le : (s : Bytes) → length (format_dir_name s false) ≤ length s
unfolding format_dir_name
format_dir_name_le [] = omega arith
format_dir_name_le (c ∷ cs) =
    ground (arith, drop_last_le (format_slash (c ∷ cs)), length-format_slash (c ∷ cs))

find_last_of_lt : (ch : ℕ) (s : Bytes) (p : ℕ) → find_last_of ch s ≡ some p → p < length s
unfolding find_last_of
find_last_of_lt ch [] p e = absurd cc
find_last_of_lt ch (c ∷ cs) p e = elim (Option-cases (find_last_of ch cs)) [
  | inl f ↦ ground (arith, e, f)
  | inr (q, f) ↦ let h = find_last_of_lt ch cs q f in ground (arith, e, f, h)
]

length-take : (n : ℕ) (s : Bytes) → length (take n s) ≤ n
length-take zero s = omega arith
length-take (suc n) [] = omega arith
length-take (suc n) (c ∷ cs) = omega (arith, length-take n cs)

-- the path of a parent is shorter, if there is one
get_file_path_lt :
    (s : Bytes) (c : ℕ) (cs : Bytes) → get_file_path s ≡ c ∷ cs → length (c ∷ cs) < length s
unfolding get_file_path
get_file_path_lt s c cs e = elim (Option-cases (find_last_of slash_use (format_slash s))) [
  | inl f ↦ absurd (nothing (rw (f, get_file_path) at e))
  | inr (p, f) ↦
      let short : length (take p (format_slash s)) ≤ p = length-take p (format_slash s) in
      let inside = find_last_of_lt slash_use (format_slash s) p f in
      let same : take p (format_slash s) ≡ c ∷ cs = rw (f, get_file_path) at e in
      omega (arith, inside, length-format_slash s, rw same at short)
]
  where
    nothing : [] ≡ c ∷ cs → ⊥
    nothing bad = absurd cc

parent_lt :
    (dir : Bytes) (c : ℕ) (cs : Bytes)
    → get_file_path (format_dir_name dir false) ≡ c ∷ cs
    → length (c ∷ cs) < length dir
parent_lt dir c cs e =
    omega (arith, get_file_path_lt (format_dir_name dir false) c cs e, format_dir_name_le dir)

module _ (os : Os) where
  open os use {World, has_file, create_directory}

  make_below-parent :
      (temp_path : Bytes) (w : World) (b : Bool) (parent : Bytes) (f g : Bytes → Bool × World)
      → ((c : ℕ) (cs : Bytes) → parent ≡ c ∷ cs → f (c ∷ cs) ≡ g (c ∷ cs))
      → make_below os temp_path w b parent f ≡ make_below os temp_path w b parent g
  unfolding make_below
  make_below-parent temp_path w true parent f g h = refl
  make_below-parent temp_path w false [] f g h = refl
  make_below-parent temp_path w false (c ∷ cs) f g h = rw (h c cs refl) refl

  make_dir_fuel_enough :
      (n m : ℕ) (dir : Bytes) (w : World)
      → length dir < n
      → length dir < m
      → make_dir_fuel os n dir w ≡ make_dir_fuel os m dir w
  unfolding make_dir_fuel
  make_dir_fuel_enough zero m dir w h k = absurd (omega (arith, h))
  make_dir_fuel_enough (suc n) zero dir w h k = absurd (omega (arith, k))
  make_dir_fuel_enough (suc n) (suc m) dir w h k =
      let temp_path = format_dir_name dir false in
      make_below-parent temp_path w (has_file dir w) (get_file_path temp_path)
        (λ parent. make_dir_fuel os n parent w) (λ parent. make_dir_fuel os m parent w)
        (λ c cs e.
          let shorter = parent_lt dir c cs e in
          make_dir_fuel_enough n m (c ∷ cs) w (omega (arith, shorter, h))
            (omega (arith, shorter, k)))

  -- `makeDir` ends: the fuel of `make_dir` is enough for every name, so that `make_dir` is what the
  -- source says, with a call of itself for the path of the parent if there is one.
  pub make_dir-make_below :
      (dir : Bytes) (w : World)
      → make_dir os dir w
        ≡ make_below os
            (format_dir_name dir false)
            w
            (has_file dir w)
            (get_file_path (format_dir_name dir false))
            (λ parent. make_dir os parent w)
  unfolding make_dir make_dir_fuel
  make_dir-make_below dir w =
      let temp_path = format_dir_name dir false in
      make_below-parent temp_path w (has_file dir w) (get_file_path temp_path)
        (λ parent. make_dir_fuel os (length dir) parent w) (λ parent. make_dir os parent w)
        (λ c cs e.
          make_dir_fuel_enough (length dir) (suc (length (c ∷ cs))) (c ∷ cs) w
            (parent_lt dir c cs e) (omega arith))
