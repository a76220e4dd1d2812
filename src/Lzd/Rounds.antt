-- ===== src/Lzd/Rounds.antt =====
-- That the fuel of `parse_fuel` is enough: every round takes a character off the text.
use online_judger.Common.{
  ℕ, zero, suc, ◌≤◌, ◌<◌, ◌≡◌, ◌∙◌, refl, sym, ap, Bool, true, false, [], ◌∷◌, inl, inr, ◌⊎◌, arith,
  if◌then◌else◌, ◌==◌, Bytes, length, Bool-cases,
}
use online_judger.LzData.{new_one}
use online_judger.Lzd.{
  Parser, new_parser, escapes, a_str, get_a_str, with_block, skip_space, skip_to_end,
  skip_to_return, parse_var_name, clear, on_brace_named, on_brace, on_equal_named, on_equal,
  on_return_named, on_return, on_space_vars, on_space, on_error, plain_char, on_char, after_char,
  round, is_done, parse_fuel, parse,
}

length-skip_space_le : (s : Bytes) → length (skip_space s) ≤ length s
unfolding skip_space
length-skip_space_le [] = omega arith
length-skip_space_le (c ∷ cs) = ground (arith, length-skip_space_le cs)

length-skip_to_end_le : (s : Bytes) → length (skip_to_end s) ≤ length s
unfolding skip_to_end
length-skip_to_end_le [] = omega arith
length-skip_to_end_le (c ∷ cs) = ground (arith, length-skip_to_end_le cs)

length-skip_to_return_le : (s : Bytes) → length (skip_to_return s) ≤ length s
unfolding skip_to_return
length-skip_to_return_le [] = omega arith
length-skip_to_return_le (c ∷ cs) = ground (arith, length-skip_to_return_le cs)

length-a_str_le : (e : Bool) (s : Bytes) → length (a_str e s).1 ≤ length s
unfolding a_str
length-a_str_le e [] = omega arith
length-a_str_le true (c ∷ cs) = omega (arith, length-a_str_le false cs)
length-a_str_le false (c ∷ cs) = ground (arith, length-a_str_le (escapes c cs) cs)

-- What is known of two parsers for texts of at most `n` characters.
record Agree (n : ℕ) (call call' : Parser → Parser) : Type 0 where
  same : (p : Parser) → length p.text ≤ n → call p ≡ call' p
  shrinks : (p : Parser) → length p.text ≤ n → length (call p).text ≤ length p.text

-- the same of what they make of a text of `n` characters
record Agrees (n : ℕ) (x y : Parser) : Type 0 where
  same : x ≡ y
  shrinks : length x.text ≤ n

alone : (n : ℕ) (x : Parser) → length x.text ≤ n → Agrees n x x
alone n x h = record { same = refl; shrinks = h }

on_equal-shrinks : (r : Bytes × ℕ) (p : Parser) → length (on_equal_named r p).text ≤ length p.text
unfolding on_equal_named get_a_str
on_equal-shrinks (name, zero) p = length-a_str_le false p.text
on_equal-shrinks (name, suc e) p = omega arith

on_return-shrinks : (r : Bytes × ℕ) (p : Parser) → length (on_return_named r p).text ≤ length p.text
unfolding on_return_named
on_return-shrinks (name, zero) p = omega arith
on_return-shrinks (name, suc e) p = omega arith

on_space-shrinks : (v c : Bytes) (p : Parser) → length (on_space_vars v c p).text ≤ length p.text
unfolding on_space_vars
on_space-shrinks v [] p = length-skip_space_le p.text
on_space-shrinks [] (c ∷ cur) p = length-skip_space_le p.text
on_space-shrinks (v ∷ var) (c ∷ cur) p = ground (arith, length-skip_space_le p.text)

after_char-shrinks : (p : Parser) → length (after_char p).text ≤ length p.text
unfolding after_char on_error
after_char-shrinks p = ground (arith, length-skip_to_end_le p.text)

plain_char-shrinks : (ch : ℕ) (p : Parser) → length (plain_char ch p).text ≤ length p.text
unfolding plain_char on_equal on_return on_space
plain_char-shrinks ch p = ground (
  arith,
  on_equal-shrinks (parse_var_name p) (clear p),
  on_return-shrinks (parse_var_name p) (clear p),
  on_space-shrinks p.variable p.cur_variable p,
  length-skip_to_return_le p.text,
)

module _ (n : ℕ) (call call' : Parser → Parser) (agree : Agree n call call') where
  on_brace-Agrees :
      (r : Bytes × ℕ) (p : Parser)
      → length p.text ≤ n
      → Agrees (length p.text) (on_brace_named call r p) (on_brace_named call' r p)
  unfolding on_brace_named with_block
  on_brace-Agrees (name, zero) p h =
      let q = new_parser p.text (new_one name []) in
      record { same = ap (λ x. with_block x p) (agree.same q h); shrinks = agree.shrinks q h }
  on_brace-Agrees (name, suc e) p h =
      alone (length p.text) (on_brace_named call (name, suc e) p) (omega arith)

  on_char-Agrees :
      (ch : ℕ) (p : Parser)
      → length p.text ≤ n
      → Agrees (length p.text) (on_char call ch p) (on_char call' ch p)
  unfolding on_char on_brace
  on_char-Agrees ch p h = elim (Bool-cases (ch == b'{')) [
    | inl e ↦ rw e (on_brace-Agrees (parse_var_name p) (clear p) h)
    | inr e ↦ rw e (alone (length p.text) (plain_char ch p) (plain_char-shrinks ch p))
  ]

  round-Agrees :
      (p : Parser) (ch : ℕ) (cs : Bytes)
      → p.text ≡ ch ∷ cs
      → length cs ≤ n
      → Agrees (length cs) (round call p) (round call' p)
  unfolding round
  round-Agrees p ch cs e h =
      let a = on_char-Agrees ch (record p { text = cs }) h in
      rw e (record {
        same = ap after_char a.same;
        shrinks =
            omega (arith, after_char-shrinks (on_char call ch (record p { text = cs })), a.shrinks);
      })

-- a list of characters, or none
text-cases : (s : Bytes) → (s ≡ []) ⊎ ((c : ℕ) × (cs : Bytes) × (s ≡ c ∷ cs))
text-cases [] = inl refl
text-cases (c ∷ cs) = inr (c, cs, refl)

empty_done : (f : ℕ) (p : Parser) → p.text ≡ [] → parse_fuel f p ≡ p
unfolding parse_fuel
empty_done zero p e = refl
empty_done (suc f) p e = rw e refl

-- one round with fuel for `n` characters, on a text of one more
next-Agrees :
    (n f g : ℕ) (p : Parser)
    → Agree n (parse_fuel f) (parse_fuel g)
    → length p.text ≤ suc n
    → Agrees (length p.text) (parse_fuel (suc f) p) (parse_fuel (suc g) p)
unfolding parse_fuel
next-Agrees n f g p agree h = elim (text-cases p.text) [
  | inl e ↦ rw e (record { same = refl; shrinks = omega arith })
  | inr (c, cs, e) ↦
      let size : length p.text ≡ suc (length cs) = ap length e in
      let a =
        round-Agrees n (parse_fuel f) (parse_fuel g) agree p c cs e (omega (arith, size, h)) in
      let x : Parser = round (parse_fuel f) p in
      let short : length x.text ≤ n = omega (arith, a.shrinks, size, h) in
      let rest : Agrees (length p.text) (parse_fuel f x) (parse_fuel g (round (parse_fuel g) p)) =
        record {
          same = agree.same x short ∙ ap (parse_fuel g) a.same;
          shrinks = omega (arith, agree.shrinks x short, a.shrinks, size);
        } in
      go (is_done p) x (round (parse_fuel g) p) rest
]
  where
    go :
        (b : Bool) (x y : Parser)
        → Agrees (length p.text) (parse_fuel f x) (parse_fuel g y)
        → Agrees (length p.text) (if b then p else parse_fuel f x) (if b then p else parse_fuel g y)
    go true x y r = record { same = refl; shrinks = omega arith }
    go false x y r = r

calls-Agree : (n f g : ℕ) → n ≤ f → n ≤ g → Agree n (parse_fuel f) (parse_fuel g)
calls-Agree zero f g h k = record {
  same = λ p l. empty_done f p (empty p.text l) ∙ sym (empty_done g p (empty p.text l));
  shrinks = λ p l. rw (empty_done f p (empty p.text l)) (omega arith);
}
  where
    empty : (s : Bytes) → length s ≤ 0 → s ≡ []
    empty [] l = refl
    empty (c ∷ cs) l = absurd (omega (arith, l))
calls-Agree (suc n) zero g h k = absurd (omega arith)
calls-Agree (suc n) (suc f) zero h k = absurd (omega arith)
calls-Agree (suc n) (suc f) (suc g) h k =
    let agree = calls-Agree n f g (omega (arith, h)) (omega (arith, k)) in
    record {
      same = λ p l. (next-Agrees n f g p agree l).same;
      shrinks = λ p l. (next-Agrees n f g p agree l).shrinks;
    }

enough : (n : ℕ) → Agree n (parse_fuel n) parse
unfolding parse
enough n = record {
  same =
      λ p l. (calls-Agree (length p.text) n (length p.text) l (omega arith)).same p (omega arith);
  shrinks = (calls-Agree n n n (omega arith) (omega arith)).shrinks;
}

-- The loop of `parse` without fuel: it ends on an empty text or behind a brace, and goes on after a
-- round otherwise, which leaves a shorter text.
pub parse-round :
    (p : Parser)
    → (parse p ≡ (if is_done p then p else parse (round parse p)))
      × (is_done p ≡ false → length (round parse p).text < length p.text)
unfolding parse parse_fuel
parse-round p = elim (text-cases p.text) [
  | inl e ↦ (rw e refl, λ d. absurd (let done : is_done p ≡ true = rw e refl in cc))
  | inr (c, cs, e) ↦
      let size : length p.text ≡ suc (length cs) = ap length e in
      let agree = enough (length cs) in
      let a =
        round-Agrees (length cs) (parse_fuel (length cs)) parse agree p c cs e (omega arith) in
      let x : Parser = round (parse_fuel (length cs)) p in
      let goes_on : parse_fuel (length cs) x ≡ parse (round parse p) =
        agree.same x a.shrinks ∙ ap parse a.same in
      let first : parse p ≡ (if is_done p then p else parse_fuel (length cs) x) =
        ap (λ k. parse_fuel k p) size in
      let shorter : length (round parse p).text ≤ length cs = rw (← a.same) a.shrinks in
      (first ∙ ap (λ y. if is_done p then p else y) goes_on, λ d. omega (arith, shorter, size))
]
