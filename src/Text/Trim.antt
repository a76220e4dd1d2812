-- ===== src/Text/Trim.antt =====
-- What trimming removes.
use online_judger.Common.{
  ℕ, zero, suc, ◌≤◌, ◌≡◌, refl, ap, ◌∙◌, true, false, [], ◌∷◌, ◌++◌, some, if◌then◌else◌, Bytes,
  length, get_elem?, take, arith, Bool-cases, inl, inr,
}
use online_judger.Text.{is_blank, ltrim_string, rtrim_loop, rtrim_string, trim_string}

-- `rtrimString` by recursion from the front: an end of blanks vanishes
abbrev pub rstrip : Bytes → Bytes
rstrip [] = []
rstrip (c ∷ cs) = elim (rstrip cs) [ [] ↦ if is_blank c then [] else c ∷ [] | d ∷ ds ↦ c ∷ d ∷ ds ]

pub rstrip-concat :
    (xs : Bytes) (c : ℕ) → rstrip (xs ++ c ∷ []) ≡ (if is_blank c then rstrip xs else xs ++ c ∷ [])
rstrip-concat [] c = refl
rstrip-concat (x ∷ xs) c = elim (Bool-cases (is_blank c)) [
  | inl b ↦ rw (b, rstrip) (ground (arith, rstrip-concat xs c))
  | inr b ↦ ground (arith, rstrip-concat xs c, nonempty xs c)
]
  where
    nonempty : (ys : Bytes) (d : ℕ) → (ys ++ d ∷ []) ≡ [] → ⊥
    nonempty [] d e = cc
    nonempty (y ∷ ys) d e = cc

pub take-suc :
    (i : ℕ) (s : Bytes) (c : ℕ) → get_elem? s i ≡ some c → take (suc i) s ≡ take i s ++ c ∷ []
take-suc i [] c e = cc
take-suc zero (x ∷ s) c e = ground arith
take-suc (suc i) (x ∷ s) c e = ap (◌∷◌ x) (take-suc i s c e)

pub take_all : (s : Bytes) → take (length s) s ≡ s
take_all [] = refl
take_all (x ∷ s) = ap (◌∷◌ x) (take_all s)

pub get_elem?-lt : (i : ℕ) (s : Bytes) → suc i ≤ length s → (c : ℕ) × (get_elem? s i ≡ some c)
get_elem?-lt i [] h = absurd (omega arith)
get_elem?-lt zero (x ∷ s) h = (x, refl)
get_elem?-lt (suc i) (x ∷ s) h = get_elem?-lt i s (omega arith)

rtrim_loop-rstrip : (n : ℕ) (s : Bytes) → n ≤ length s → rtrim_loop n s ≡ rstrip (take n s)
unfolding rtrim_loop
rtrim_loop-rstrip zero s h = refl
rtrim_loop-rstrip (suc i) s h =
    let (c, e) = get_elem?-lt i s h in
    let ih = rtrim_loop-rstrip i s (omega arith) in
    rw (e, rtrim_loop)
      (rw (take-suc i s c e) (rw (rstrip-concat (take i s) c) (ground (arith, ih))))

pub rtrim_string-rstrip : (s : Bytes) → rtrim_string s ≡ rstrip s
unfolding rtrim_string
rtrim_string-rstrip s = rtrim_loop-rstrip (length s) s (omega arith) ∙ rw (take_all s)

-- all characters are blank
abbrev pub AllBlank : Bytes → Type 0
AllBlank [] = Unit {0}
AllBlank (c ∷ cs) = (is_blank c ≡ true) × AllBlank cs

-- the first and the last character, if there are any, are not blank
abbrev pub Trimmed : Bytes → Type 0
Trimmed t = (ltrim_string t ≡ t) × (rstrip t ≡ t)

pub ltrim_string-append_blank : (a v : Bytes) → AllBlank a → ltrim_string (a ++ v) ≡ ltrim_string v
unfolding ltrim_string
ltrim_string-append_blank [] v h = refl
ltrim_string-append_blank (c ∷ a) v h = rw (h.0) (ltrim_string-append_blank a v h.1)

rstrip-AllBlank : (b : Bytes) → AllBlank b → rstrip b ≡ []
rstrip-AllBlank [] h = refl
rstrip-AllBlank (c ∷ b) h = ground (arith, rstrip-AllBlank b h.1)

pub rstrip-append_blank : (v b : Bytes) → AllBlank b → rstrip (v ++ b) ≡ rstrip v
rstrip-append_blank [] b h = rstrip-AllBlank b h
rstrip-append_blank (c ∷ v) b h = ground (arith, rstrip-append_blank v b h)

record Ltrims (s t : Bytes) : Type 0 where
  before : Bytes
  splits : s ≡ before ++ t
  blank : AllBlank before

ltrim_string-Ltrims : (s : Bytes) → Ltrims s (ltrim_string s)
unfolding ltrim_string
ltrim_string-Ltrims [] = record { before = []; splits = refl; blank = tt }
ltrim_string-Ltrims (c ∷ cs) = elim (Bool-cases (is_blank c)) [
  | inl b ↦
      let r = ltrim_string-Ltrims cs in
      rw b (record { before = c ∷ r.before; splits = ap (◌∷◌ c) r.splits; blank = (b, r.blank) })
  | inr b ↦ rw b (record { before = []; splits = refl; blank = tt })
]

ltrim_string_idem : (s : Bytes) → ltrim_string (ltrim_string s) ≡ ltrim_string s
unfolding ltrim_string
ltrim_string_idem [] = refl
ltrim_string_idem (c ∷ cs) = ground (arith, ltrim_string_idem cs)

record Rtrims (s t : Bytes) : Type 0 where
  after : Bytes
  splits : s ≡ t ++ after
  blank : AllBlank after

rstrip-Rtrims : (s : Bytes) → Rtrims s (rstrip s)
rstrip-Rtrims [] = record { after = []; splits = refl; blank = tt }
rstrip-Rtrims (c ∷ cs) =
    let r = rstrip-Rtrims cs in
    record {
      after = after_of c (rstrip cs) r.after;
      splits = ground (arith, r.splits);
      blank = ground (arith, r.blank);
    }
  where
    after_of : ℕ → Bytes → Bytes → Bytes
    after_of d [] rest = if is_blank d then d ∷ rest else rest
    after_of d (e ∷ es) rest = rest

rstrip_idem : (s : Bytes) → rstrip (rstrip s) ≡ rstrip s
rstrip_idem [] = refl
rstrip_idem (c ∷ cs) = ground (arith, rstrip_idem cs)

length-ltrim_string-le : (s : Bytes) → length (ltrim_string s) ≤ length s
unfolding ltrim_string
length-ltrim_string-le [] = omega arith
length-ltrim_string-le (c ∷ cs) = ground (arith, length-ltrim_string-le cs)

pub head_not_blank : (c : ℕ) (cs : Bytes) → ltrim_string (c ∷ cs) ≡ c ∷ cs → is_blank c ≡ false
unfolding ltrim_string
head_not_blank c cs e = elim (Bool-cases (is_blank c)) [
  | inl b ↦
      let whole : ltrim_string cs ≡ c ∷ cs = rw b at e in
      absurd (omega (arith, length-ltrim_string-le cs, ap {B = ℕ} length whole))
  | inr b ↦ b
]

ltrim_string-rstrip : (s : Bytes) → ltrim_string s ≡ s → ltrim_string (rstrip s) ≡ rstrip s
unfolding ltrim_string
ltrim_string-rstrip [] e = refl
ltrim_string-rstrip (c ∷ cs) e =
    let b = head_not_blank c cs e in ground (arith, b, head_of (rstrip cs) b)
  where
    head_of :
        (r : Bytes)
        → is_blank c ≡ false
        → ltrim_string (elim r [ [] ↦ if is_blank c then [] else c ∷ [] | d ∷ ds ↦ c ∷ d ∷ ds ])
          ≡ (elim r [ [] ↦ if is_blank c then [] else c ∷ [] | d ∷ ds ↦ c ∷ d ∷ ds ])
    head_of [] b = rw b (rw b)
    head_of (d ∷ ds) b = rw b

AllBlank-core : (b : Bytes) → AllBlank b → rstrip (ltrim_string b) ≡ []
unfolding ltrim_string
AllBlank-core [] h = refl
AllBlank-core (c ∷ b) h = rw (h.0) (AllBlank-core b h.1)

first : (c : ℕ) (u v : Bytes) → ltrim_string (c ∷ u) ≡ c ∷ u → ltrim_string (c ∷ v) ≡ c ∷ v
unfolding ltrim_string
first c u v e = rw (head_not_blank c u e)

pub trim_string-rstrip : (s : Bytes) → trim_string s ≡ rstrip (ltrim_string s)
unfolding trim_string
trim_string-rstrip s = rtrim_string-rstrip (ltrim_string s)

pub record Trims (s t : Bytes) : Type 0 where
  pub before : Bytes
  pub after : Bytes
  pub splits : s ≡ before ++ (t ++ after)
  pub before_blank : AllBlank before
  pub after_blank : AllBlank after
  pub inner : Trimmed t

-- `trimString` takes away blanks only, all of them at both ends, and nothing else.
pub trim_string-Trims : (s : Bytes) → Trims s (trim_string s)
trim_string-Trims s =
    let l = ltrim_string-Ltrims s in
    let r = rstrip-Rtrims (ltrim_string s) in
    rw (trim_string-rstrip s) (record {
      before = l.before;
      after = r.after;
      splits = l.splits ∙ ap (◌++◌ l.before) r.splits;
      before_blank = l.blank;
      after_blank = r.blank;
      inner = (
        ltrim_string-rstrip (ltrim_string s) (ltrim_string_idem s),
        rstrip_idem (ltrim_string s),
      );
    })

-- Blanks round a text that has none at its ends are what trimming removes.
pub trim_string-padded :
    (a t b : Bytes) → AllBlank a → AllBlank b → Trimmed t → trim_string (a ++ (t ++ b)) ≡ t
trim_string-padded a t b ha hb (hl, hr) =
    trim_string-rstrip (a ++ (t ++ b)) ∙ rw (ltrim_string-append_blank a (t ++ b) ha) (core t hl hr)
  where
    core : (u : Bytes) → ltrim_string u ≡ u → rstrip u ≡ u → rstrip (ltrim_string (u ++ b)) ≡ u
    core [] e f = AllBlank-core b hb
    core (c ∷ u) e f = rw (first c u (u ++ b) e) (rstrip-append_blank (c ∷ u) b hb ∙ f)
