-- ===== src/Xml/Fuel.antt =====
-- That the fuel of `parse_real` is enough: every round takes a tag off the stream.
use online_judger.Common.{
  ℕ, zero, suc, ◌≤◌, ◌<◌, ◌≡◌, ◌≢◌, refl, Bool, false, [], ◌∷◌, Option, none, some, inl, inr, arith,
  Bytes, length, Option-cases,
}
use online_judger.LzData.{node, Children, nil, push_back, new_one}
use online_judger.Text.{find_first_of}
use online_judger.Text.Search.{length-drop_le}
use online_judger.Xml.{
  get_range, Found, no_mark, no_end, throws, found, find_tag, find_value, Tag, end_tag, attribute,
  start_tag, tag_of, Status, succeeds, fails, crashes, out_of_fuel, Parsed, ends, Call, after_child,
  after_start, after_tag, after_search, parse_real, parse_all,
}

-- a tag that is found leaves a shorter stream
abbrev Shorter : Bytes → Found → Type 0
Shorter s (found text s') = length s' < length s
Shorter s _ = Unit {0}

find_first_of-nil : (ch : ℕ) → find_first_of ch [] ≡ none
unfolding find_first_of
find_first_of-nil ch = refl

find_tag-Shorter : (s : Bytes) → Shorter s (find_tag s)
unfolding find_tag
find_tag-Shorter [] = rw (find_first_of-nil b'<', find_tag) tt
find_tag-Shorter (c ∷ cs) = elim (Option-cases (find_first_of b'<' (c ∷ cs))) [
  | inl e ↦ rw (e, find_tag) tt
  | inr (begin, e) ↦ elim (Option-cases (find_first_of b'>' (c ∷ cs))) [
    | inl f ↦ rw (e, f, find_tag) tt
    | inr (end, f) ↦ elim (Option-cases (get_range (c ∷ cs) (suc begin) end)) [
      | inl g ↦ rw (e, f, g, find_tag) tt
      | inr (text, g) ↦ rw (e, f, g, find_tag) (omega (arith, length-drop_le end cs))
    ]
  ]
]

abbrev NotLonger : Bytes → Option (Bytes × Bytes) → Type 0
NotLonger s none = Unit {0}
NotLonger s (some (v, s')) = length s' ≤ length s

find_value-NotLonger : (s : Bytes) → NotLonger s (find_value s)
unfolding find_value
find_value-NotLonger s = elim (Option-cases (find_first_of b'<' s)) [
  | inl e ↦ rw (e, find_value) tt
  | inr (end, e) ↦ rw (e, find_value) (length-drop_le end s)
]

-- What is known of the calls on streams shorter than `n`: two of them agree, they do not run out of
-- fuel, and they leave no more than they get.
record Agree (n : ℕ) (call call' : Call) : Type 0 where
  same :
      (r : Bool) (p : Bytes) (ns : Children) (s : Bytes)
      → length s < n
      → call r p ns s ≡ call' r p ns s
  enough :
      (r : Bool) (p : Bytes) (ns : Children) (s : Bytes)
      → length s < n
      → (call r p ns s).status ≢ out_of_fuel
  shrinks :
      (r : Bool) (p : Bytes) (ns : Children) (s : Bytes)
      → length s < n
      → length (call r p ns s).rest ≤ length s

-- the same of one call on a stream
record Agrees (s : Bytes) (x y : Parsed) : Type 0 where
  same : x ≡ y
  enough : x.status ≢ out_of_fuel
  shrinks : length x.rest ≤ length s

module _ (n : ℕ) (call call' : Call) (agree : Agree n call call') (r : Bool) (p : Bytes) where
  next_call :
      (ns : Children) (s s' : Bytes)
      → length s' < n
      → length s' ≤ length s
      → Agrees s (call r p ns s') (call' r p ns s')
  next_call ns s s' h k = record {
    same = agree.same r p ns s' h;
    enough = agree.enough r p ns s' h;
    shrinks = omega (arith, agree.shrinks r p ns s' h, k);
  }

  after_child-Agrees :
      (ns : Children) (name value s : Bytes) (below : Parsed)
      → below.status ≢ out_of_fuel
      → length below.rest < n
      → length below.rest ≤ length s
      → Agrees s
          (after_child call r p ns name value below)
          (after_child call' r p ns name value below)
  unfolding after_child
  after_child-Agrees ns name value s below enough h k = go below.status enough
    where
      ns' : Children
      ns' = push_back ns (node name value below.children)

      go :
          (st : Status)
          → st ≢ out_of_fuel
          → Agrees s
              (elim st as (λ _. Parsed) [
                | succeeds ↦ call r p ns' below.rest
                | other ↦ ends other ns' below.rest
              ])
              (elim st as (λ _. Parsed) [
                | succeeds ↦ call' r p ns' below.rest
                | other ↦ ends other ns' below.rest
              ])
      go succeeds e = next_call ns' s below.rest h k
      go fails e = record { same = refl; enough = e; shrinks = k }
      go crashes e = record { same = refl; enough = e; shrinks = k }
      go out_of_fuel e = absurd (e refl)

  after_start-Agrees :
      (ns : Children) (name s : Bytes) (v : Option (Bytes × Bytes))
      → length s < n
      → NotLonger s v
      → Agrees s (after_start call r p ns name s v) (after_start call' r p ns name s v)
  unfolding after_start
  after_start-Agrees ns name s none h k = record {
    same = refl;
    enough = λ e. absurd cc;
    shrinks = omega arith;
  }
  after_start-Agrees ns name s (some (value, s')) h k =
      let short : length s' < n = omega (arith, h, k) in
      let rest = agree.shrinks false name nil s' short in
      rw (← (agree.same false name nil s' short)) (
        after_child-Agrees ns name value s (call false name nil s')
          (agree.enough false name nil s' short) (omega (arith, rest, short))
          (omega (arith, rest, k)))

  after_tag-Agrees :
      (ns : Children) (s : Bytes) (t : Tag)
      → length s < n
      → Agrees s (after_tag call r p ns s t) (after_tag call' r p ns s t)
  unfolding after_tag
  after_tag-Agrees ns s (end_tag name) h = record {
    same = refl;
    enough = λ e. ground arith;
    shrinks = omega arith;
  }
  after_tag-Agrees ns s (attribute name) h =
      next_call (push_back ns (new_one name [])) s s h (omega arith)
  after_tag-Agrees ns s (start_tag name) h =
      after_start-Agrees ns name s (find_value s) h (find_value-NotLonger s)

  after_search-Agrees :
      (ns : Children) (s : Bytes) (x : Found)
      → length s ≤ n
      → Shorter s x
      → Agrees s (after_search call r p ns s x) (after_search call' r p ns s x)
  unfolding after_search
  after_search-Agrees ns s no_mark h k = record {
    same = refl;
    enough = λ e. ground arith;
    shrinks = omega arith;
  }
  after_search-Agrees ns s no_end h k = record {
    same = refl;
    enough = λ e. absurd cc;
    shrinks = omega arith;
  }
  after_search-Agrees ns s throws h k = record {
    same = refl;
    enough = λ e. absurd cc;
    shrinks = omega arith;
  }
  after_search-Agrees ns s (found text s') h k =
      let a = after_tag-Agrees ns s' (tag_of text) (omega (arith, h, k)) in
      record { same = a.same; enough = a.enough; shrinks = omega (arith, a.shrinks, k) }

round-Agrees :
    (n f g : ℕ) (r : Bool) (p : Bytes) (ns : Children) (s : Bytes)
    → Agree n (parse_real f) (parse_real g)
    → length s ≤ n
    → Agrees s (parse_real (suc f) r p ns s) (parse_real (suc g) r p ns s)
unfolding parse_real
round-Agrees n f g r p ns s agree h =
    after_search-Agrees n (parse_real f) (parse_real g) agree r p ns s (find_tag s) h
      (find_tag-Shorter s)

calls-Agree : (n f g : ℕ) → n ≤ f → n ≤ g → Agree n (parse_real f) (parse_real g)
calls-Agree zero f g h k = record {
  same = λ r p ns s l. absurd (omega (arith, l));
  enough = λ r p ns s l. absurd (omega (arith, l));
  shrinks = λ r p ns s l. absurd (omega (arith, l));
}
calls-Agree (suc n) zero g h k = absurd (omega arith)
calls-Agree (suc n) (suc f) zero h k = absurd (omega arith)
calls-Agree (suc n) (suc f) (suc g) h k =
    let agree = calls-Agree n f g (omega (arith, h)) (omega (arith, k)) in
    record {
      same = λ r p ns s l. (round-Agrees n f g r p ns s agree (omega (arith, l))).same;
      enough = λ r p ns s l. (round-Agrees n f g r p ns s agree (omega (arith, l))).enough;
      shrinks = λ r p ns s l. (round-Agrees n f g r p ns s agree (omega (arith, l))).shrinks;
    }

-- With more fuel than the stream has characters, `parseReal` comes to its end, with the result of any
-- other such fuel.
pub parse_real-enough :
    (fuel : ℕ) (r : Bool) (p : Bytes) (ns : Children) (s : Bytes)
    → length s < fuel
    → ((parse_real fuel r p ns s).status ≢ out_of_fuel)
      × (parse_real fuel r p ns s ≡ parse_all r p ns s)
unfolding parse_all
parse_real-enough fuel r p ns s h =
    let a = calls-Agree (suc (length s)) fuel (suc (length s)) (omega (arith, h)) (omega arith) in
    (a.enough r p ns s (omega arith), a.same r p ns s (omega arith))

-- The parser without its fuel: a round, then the parser on the streams that are left.
pub parse_all-round :
    (r : Bool) (p : Bytes) (ns : Children) (s : Bytes)
    → parse_all r p ns s ≡ after_search parse_all r p ns s (find_tag s)
unfolding parse_all parse_real
parse_all-round r p ns s =
    (after_search-Agrees (length s) (parse_real (length s)) parse_all agree r p ns s (find_tag s)
      (omega arith) (find_tag-Shorter s)).same
  where
    agree : Agree (length s) (parse_real (length s)) parse_all
    agree = record {
      same = λ q t ms u h. (parse_real-enough (length s) q t ms u h).1;
      enough = λ q t ms u h. (parse_real-enough (length s) q t ms u h).0;
      shrinks = (calls-Agree (length s) (length s) (length s) (omega arith) (omega arith)).shrinks;
    }
