-- ===== src/Lzd/Steps.antt =====
-- The rounds of the parser on the pieces of a printed text.
use online_judger.Common.{
  ℕ, zero, suc, ◌≡◌, ◌≢◌, ◌∙◌, refl, sym, ap, Bool, true, false, not, ◌||◌, [], ◌∷◌, ◌++◌, arith,
  if◌then◌else◌, ◌==◌, Bytes, append-nil, append_assoc,
}
use online_judger.LzData.{Node, new_one, write_string}
use online_judger.LzData.Printing.{print_table}
use online_judger.Text.{is_blank, trim_string, ltrim_string}
use online_judger.Text.Trim.{Trimmed, trim_string-padded}
use online_judger.Text.Search.{Lacks}
use online_judger.Lzd.{
  Parser, new_parser, var_name, parse_var_name, skip_space, skip_to_end, on_error, get_a_str,
  with_block, on_brace_named, on_brace, on_equal_named, on_equal, on_return_named, on_return,
  on_space_vars, on_space, plain_char, on_char, after_char, round, is_done, parse,
}
use online_judger.Lzd.Rounds.{parse-round}

-- a parser without an error, in front of a text
abbrev pub at : Bytes → Node → Bytes → Bytes → ℕ → ℕ → Parser
at s n var cur vl cl = record {
  text = s;
  cur_node = n;
  is_end = false;
  variable = var;
  var_line = vl;
  cur_variable = cur;
  cur_line = cl;
  error_id = 0;
}

-- a character of a name
abbrev pub is_plain : ℕ → Bool
is_plain c =
    not (is_blank c || c == b'{' || c == b'}' || c == b'=' || c == b'#' || c == b';' || c == b'/')

abbrev pub AllPlain : Bytes → Type 0
AllPlain [] = Unit {0}
AllPlain (c ∷ cs) = (is_plain c ≡ true) × AllPlain cs

next : (p : Parser) → is_done p ≡ false → parse p ≡ parse (round parse p)
next p h = (parse-round p).0 ∙ rw h refl

module _ (n : Node) (vl cl : ℕ) where
  parse-plain :
      (c : ℕ) (s var cur : Bytes)
      → is_plain c ≡ true
      → parse (at (c ∷ s) n var cur vl cl) ≡ parse (at s n var (cur ++ c ∷ []) vl cl)
  unfolding round on_char plain_char after_char is_blank
  parse-plain c s var cur h = next (at (c ∷ s) n var cur vl cl) refl ∙ ap parse (ground arith)

  parse-tab :
      (s var : Bytes)
      → parse (at (b'\t' ∷ s) n var [] vl cl) ≡ parse (at (skip_space s) n var [] vl cl)
  unfolding round on_char plain_char after_char on_space on_space_vars
  parse-tab s var = next (at (b'\t' ∷ s) n var [] vl cl) refl

  pub parse-newline :
      (s : Bytes) → parse (at (b'\n' ∷ s) n [] [] vl cl) ≡ parse (at s n [] [] vl (suc cl))
  unfolding round on_char plain_char after_char on_return on_return_named parse_var_name var_name
  parse-newline s = next (at (b'\n' ∷ s) n [] [] vl cl) refl

  pub parse-tabs :
      (d c : ℕ) (s var : Bytes)
      → (c == b' ' || c == b'\t') ≡ false
      → parse (at (print_table d ++ c ∷ s) n var [] vl cl) ≡ parse (at (c ∷ s) n var [] vl cl)
  unfolding print_table skip_space
  parse-tabs zero c s var h = refl
  parse-tabs (suc d) c s var h =
      parse-tab (print_table d ++ c ∷ s) var ∙ ap (λ x. parse (at x n var [] vl cl)) (skipped d)
    where
      skipped : (e : ℕ) → skip_space (print_table e ++ c ∷ s) ≡ c ∷ s
      skipped zero = rw h refl
      skipped (suc e) = skipped e

  -- The characters of a name are collected.
  pub parse-name :
      (t s var cur : Bytes)
      → AllPlain t
      → parse (at (t ++ s) n var cur vl cl) ≡ parse (at s n var (cur ++ t) vl cl)
  parse-name [] s var cur h = ap (λ x. parse (at s n var x vl cl)) (sym (append-nil cur))
  parse-name (c ∷ t) s var cur (h, hs) =
      parse-plain c (t ++ s) var cur h
      ∙ parse-name t s var (cur ++ c ∷ []) hs
      ∙ ap (λ x. parse (at s n var x vl cl)) (append_assoc cur (c ∷ []) t)

AllPlain-Trimmed : (t : Bytes) → AllPlain t → Trimmed t
unfolding is_blank ltrim_string
AllPlain-Trimmed [] h = (refl, refl)
AllPlain-Trimmed (c ∷ t) (h, hs) =
    let later = (AllPlain-Trimmed t hs).1 in (ground (arith), ground (arith, later))

pub AllPlain-Lacks : (t : Bytes) → AllPlain t → Lacks b'/' t
AllPlain-Lacks [] h = tt
AllPlain-Lacks (c ∷ t) (h, hs) = ((λ e. ground arith), AllPlain-Lacks t hs)

trim_string-plain : (t : Bytes) → AllPlain t → trim_string t ≡ t
trim_string-plain t h =
    ap {B = Bytes} trim_string (sym (append-nil t))
    ∙ trim_string-padded [] t [] tt tt (AllPlain-Trimmed t h)

-- the name of a variable that is set, or collected
var_name-set : (t : Bytes) (b : Bool) → t ≢ [] → AllPlain t → var_name t [] b ≡ (t, 0)
unfolding var_name
var_name-set [] b h k = absurd (h refl)
var_name-set (c ∷ t) b h k = ap (λ x. (x, 0)) (trim_string-plain (c ∷ t) k)

var_name-collected : (t : Bytes) (b : Bool) → t ≢ [] → AllPlain t → var_name [] t b ≡ (t, 0)
unfolding var_name
var_name-collected [] b h k = absurd (h refl)
var_name-collected (c ∷ t) b h k = ap (λ x. (x, 0)) (trim_string-plain (c ∷ t) k)

-- a name that is printed and read as it is
abbrev pub IsName : Bytes → Type 0
IsName t = (t ≢ []) × AllPlain t

module _ (n : Node) (t : Bytes) (is_name : IsName t) (vl cl : ℕ) where
  -- A blank behind a collected name sets the variable.
  pub parse-set :
      (c : ℕ) (s : Bytes)
      → (c == b' ' || c == b'\t') ≡ false
      → parse (at (b' ' ∷ c ∷ s) n [] t vl cl) ≡ parse (at (c ∷ s) n t [] cl cl)
  unfolding round on_char plain_char after_char on_space on_space_vars skip_space
  parse-set c s k =
      next (at (b' ' ∷ c ∷ s) n [] t vl cl) refl ∙ ap (λ q. parse (after_char q)) (go t is_name.0)
    where
      go :
          (u : Bytes)
          → u ≢ []
          → on_space_vars [] u (at (c ∷ s) n [] u vl cl) ≡ at (c ∷ s) n u [] cl cl
      go [] h = absurd (h refl)
      go (d ∷ u) h = rw k refl

  pub parse-equal :
      (s : Bytes)
      → parse (at (b'=' ∷ s) n t [] vl cl)
        ≡ parse (at (get_a_str s).1 (write_string n t (get_a_str s).0) [] [] vl cl)
  unfolding round on_char plain_char after_char on_equal on_equal_named parse_var_name
  parse-equal s =
      next (at (b'=' ∷ s) n t [] vl cl) refl
      ∙ ap (λ r. parse (after_char (on_equal_named r (at s n [] [] vl cl))))
          (var_name-set t (vl == cl) is_name.0 is_name.1)

  pub parse-line :
      (s : Bytes) → parse (at (b'\n' ∷ s) n [] t vl cl) ≡ parse (at s n t [] cl (suc cl))
  unfolding round on_char plain_char after_char on_return on_return_named parse_var_name
  parse-line s =
      next (at (b'\n' ∷ s) n [] t vl cl) refl
      ∙ ap (λ r. parse (after_char (on_return_named r (at s n [] [] vl cl))))
          (var_name-collected t (vl == cl) is_name.0 is_name.1)

  -- A brace behind the name begins a block.
  pub parse-brace :
      (s : Bytes)
      → parse (at (b'{' ∷ s) n t [] vl cl)
        ≡ parse (with_block (parse (new_parser s (new_one t []))) (at s n [] [] vl cl))
  unfolding round on_char after_char on_brace on_brace_named with_block parse_var_name
  parse-brace s =
      next (at (b'{' ∷ s) n t [] vl cl) refl
      ∙ ap (λ r. parse (after_char (on_brace_named parse r (at s n [] [] vl cl))))
          (var_name-set t (vl == cl) is_name.0 is_name.1)

skip_to_end_lem :
    (s rest : Bytes) → Lacks b'\n' s → Lacks b'}' s → skip_to_end (s ++ b'\n' ∷ rest) ≡ b'\n' ∷ rest
unfolding skip_to_end
skip_to_end_lem [] rest h k = refl
skip_to_end_lem (c ∷ s) rest (h, hs) (k, ks) =
    let later = skip_to_end_lem s rest hs ks in ground (arith, later)

-- A second name on a line is an error: the rest of the line is skipped, as are both names.
pub parse-second :
    (n : Node) (t u s rest : Bytes) (cl : ℕ)
    → t ≢ []
    → u ≢ []
    → Lacks b'\n' s
    → Lacks b'}' s
    → parse (at (b' ' ∷ (s ++ b'\n' ∷ rest)) n t u cl cl) ≡ parse (at (b'\n' ∷ rest) n [] [] cl cl)
unfolding round on_char plain_char after_char on_space on_space_vars on_error
parse-second n [] u s rest cl h k l m = absurd (h refl)
parse-second n (c ∷ t) [] s rest cl h k l m = absurd (k refl)
parse-second n (c ∷ t) (d ∷ u) s rest cl h k l m =
    next (at (b' ' ∷ (s ++ b'\n' ∷ rest)) n (c ∷ t) (d ∷ u) cl cl) refl
    ∙ ap parse (rw (same_self, skip_to_end_lem s rest l m) refl)
  where
    same_self : (cl == cl) ≡ true
    same_self = ground arith

-- The end of a block.
pub parse-close :
    (s : Bytes) (n : Node) (vl cl : ℕ)
    → parse (at (b'}' ∷ s) n [] [] vl cl) ≡ record (at s n [] [] vl cl) { is_end = true }
unfolding round on_char plain_char after_char
parse-close s n vl cl =
    next (at (b'}' ∷ s) n [] [] vl cl) refl
    ∙ (parse-round (record (at s n [] [] vl cl) { is_end = true })).0
    ∙ done s
  where
    done :
        (u : Bytes)
        → (if is_done (record (at u n [] [] vl cl) { is_end = true })
            then record (at u n [] [] vl cl) { is_end = true }
            else parse (round parse (record (at u n [] [] vl cl) { is_end = true })))
          ≡ record (at u n [] [] vl cl) { is_end = true }
    done [] = refl
    done (c ∷ u) = refl
