-- ===== src/Lzd.antt =====
-- `lzd` and `cParser` of LZData/lzd.cpp, lzdParser.h and lzdParser.cpp: how a tree is printed as
-- names with values or braces, and read from them. The message of an error goes to the debugger only
-- and is left out.
pub mod Printing
pub mod Values
pub mod Rounds
pub mod Steps
pub mod RoundTrip
pub mod Errors
use online_judger.Common.{
  ℕ, zero, suc, ◌+◌, Bool, true, false, ◌||◌, [], ◌∷◌, ◌++◌, ◌==◌, if◌then◌else◌, Bytes, codes,
  length,
}
use online_judger.LzData.Printing.{
  print_table, print_table-AllBlank, push_all, push_all-nil, as_printed,
}
use online_judger.LzData.{
  Node, node, Children, nil, cons, children, new_one, push_back, write_string,
}
use online_judger.Text.{trim_string, until_nul}

-- the characters that end a value
unfoldable pub is_stop : ℕ → Bool
is_stop ch = ch == b'#' || ch == b'}' || ch == b';'

-- `cParser`
pub record Parser : Type 0 where
  pub text : Bytes
  pub cur_node : Node
  pub is_end : Bool
  pub variable : Bytes
  pub var_line : ℕ
  pub cur_variable : Bytes
  pub cur_line : ℕ
  pub error_id : ℕ

abbrev pub new_parser : Bytes → Node → Parser
new_parser s n = record {
  text = s;
  cur_node = n;
  is_end = false;
  variable = [];
  var_line = 0;
  cur_variable = [];
  cur_line = 0;
  error_id = 0;
}

-- `setVar` with the line of the parser
abbrev pub set_var : Bytes → Parser → Parser
set_var name p = record p { variable = name; var_line = p.cur_line }

abbrev pub clear : Parser → Parser
clear p = record p { cur_variable = []; variable = [] }

-- the name of `parseVarName` by the two variables, and whether they are on one line; every name is
-- valid
unfoldable pub var_name : Bytes → Bytes → Bool → Bytes × ℕ
var_name [] [] same_line = ([], 1)
var_name [] (c ∷ cur) same_line = (trim_string (c ∷ cur), 0)
var_name (v ∷ var) [] same_line = (trim_string (v ∷ var), 0)
var_name (v ∷ var) (c ∷ cur) true = ([], 2)
var_name (v ∷ var) (c ∷ cur) false = (trim_string (c ∷ cur), 0)

-- `parseVarName`: the name, and the error, 0 if there is none
unfoldable pub parse_var_name : Parser → Bytes × ℕ
unfolding var_name
parse_var_name p = var_name p.variable p.cur_variable (p.var_line == p.cur_line)

abbrev blank_or_tab : ℕ → Bool
blank_or_tab c = c == b' ' || c == b'\t'

unfoldable pub skip_space : Bytes → Bytes
skip_space [] = []
skip_space (c ∷ cs) = if blank_or_tab c then skip_space cs else c ∷ cs

pub skip_to_end : Bytes → Bytes
skip_to_end [] = []
skip_to_end (c ∷ cs) = if c == b'\n' || c == b'}' then c ∷ cs else skip_to_end cs

pub skip_to_return : Bytes → Bytes
skip_to_return [] = []
skip_to_return (c ∷ cs) = if c == b'\n' then c ∷ cs else skip_to_return cs

-- a backslash that is in front of a character which it escapes
unfoldable pub escapes : ℕ → Bytes → Bool
unfolding is_stop
escapes c [] = false
escapes c (d ∷ ds) = if c == b'\\' then is_stop d || d == b'\\' else false

-- the loop of `getAStr`: the text before it is trimmed, and what is left; the flag says that a
-- backslash in front took away the meaning of the next character
unfoldable pub a_str : Bool → Bytes → Bytes × Bytes
unfolding escapes
a_str escaped [] = ([], [])
a_str true (c ∷ cs) = let r = a_str false cs in (c ∷ r.0, r.1)
a_str false (c ∷ cs) =
    let e = escapes c cs in
    let r = a_str e cs in
    if is_stop c || c == b'\n' then ([], c ∷ cs) else (if e then r.0 else c ∷ r.0, r.1)

-- `getAStr`
unfoldable pub get_a_str : Bytes → Bytes × Bytes
unfolding a_str
get_a_str s = let r = a_str false s in (trim_string r.0, r.1)

-- what `onLBraket` takes from the parser for the block
pub with_block : Parser → Parser → Parser
with_block below p = record p {
  cur_node = elim p.cur_node [ node t v ns ↦ node t v (push_back ns below.cur_node) ];
  text = below.text;
  cur_line = p.cur_line + below.cur_line;
}

-- `onLBraket`, by the name and its error; a call is the parser for the block
pub on_brace_named : (Parser → Parser) → Bytes × ℕ → Parser → Parser
unfolding with_block
on_brace_named call (name, zero) p = with_block (call (new_parser p.text (new_one name []))) p
on_brace_named call (name, suc e) p = record p { error_id = suc e }

unfoldable pub on_brace : (Parser → Parser) → Parser → Parser
unfolding on_brace_named parse_var_name
on_brace call p = on_brace_named call (parse_var_name p) (clear p)

-- `onEqual`
pub on_equal_named : Bytes × ℕ → Parser → Parser
unfolding get_a_str
on_equal_named (name, zero) p =
    let r = get_a_str p.text in record p { cur_node = write_string p.cur_node name r.0; text = r.1 }
on_equal_named (name, suc e) p = record p { error_id = suc e }

unfoldable pub on_equal : Parser → Parser
unfolding on_equal_named parse_var_name
on_equal p = on_equal_named (parse_var_name p) (clear p)

-- `onReturn`
pub on_return_named : Bytes × ℕ → Parser → Parser
on_return_named (name, zero) p = let q = set_var name p in record q { cur_line = suc q.cur_line }
on_return_named (name, suc e) p = record p { error_id = 0; cur_line = suc p.cur_line }

unfoldable pub on_return : Parser → Parser
unfolding on_return_named parse_var_name
on_return p = on_return_named (parse_var_name p) (clear p)

-- `onSpace`, by the two variables
pub on_space_vars : Bytes → Bytes → Parser → Parser
unfolding skip_space
on_space_vars var [] p = record p { text = skip_space p.text }
on_space_vars [] (c ∷ cur) p = record p {
  variable = c ∷ cur;
  var_line = p.cur_line;
  cur_variable = [];
  text = skip_space p.text;
}
on_space_vars (v ∷ var) (c ∷ cur) p =
    if p.var_line == p.cur_line then record p { error_id = 2 } else record p {
      variable = c ∷ cur;
      var_line = p.cur_line;
      cur_variable = [];
      text = skip_space p.text;
    }

unfoldable pub on_space : Parser → Parser
unfolding on_space_vars
on_space p = on_space_vars p.variable p.cur_variable p

-- `onOther`
abbrev pub on_other : ℕ → Parser → Parser
on_other ch p = record p { cur_variable = p.cur_variable ++ ch ∷ [] }

-- `onError`
unfoldable pub on_error : Parser → Parser
unfolding skip_to_end
on_error p = record p { text = skip_to_end p.text; cur_variable = []; variable = []; error_id = 0 }

-- the switch of `parse`, on a character that is taken off the text; the cases without a call
unfoldable pub plain_char : ℕ → Parser → Parser
unfolding on_equal on_return on_space skip_to_return
plain_char ch p =
    if ch == b'}'
    then record p { is_end = true }
    else if ch == b'='
    then on_equal p
    else if ch == b'\n'
    then on_return p
    else if blank_or_tab ch
    then on_space p
    else if ch == b'#'
    then record p { text = skip_to_return p.text }
    else if ch == b';'
    then p
    else on_other ch p

unfoldable pub on_char : (Parser → Parser) → ℕ → Parser → Parser
unfolding on_brace plain_char
on_char call ch p = if ch == b'{' then on_brace call p else plain_char ch p

pub after_char : Parser → Parser
unfolding on_error
after_char p = if p.error_id == 0 then p else on_error p

-- a round of the loop of `parse`
unfoldable pub round : (Parser → Parser) → Parser → Parser
unfolding on_char after_char
round call p = elim p.text [
  | [] ↦ p
  | ch ∷ cs ↦ after_char (on_char call ch (record p { text = cs }))
]

abbrev pub is_done : Parser → Bool
is_done p = elim p.text [ [] ↦ true | c ∷ cs ↦ p.is_end ]

-- The loop of `parse`. A round takes a character off the text, so that fuel for every character is
-- enough; without fuel the text is empty.
unfoldable pub parse_fuel : ℕ → Parser → Parser
unfolding round
parse_fuel zero p = p
parse_fuel (suc fuel) p =
    let rest = parse_fuel fuel (round (parse_fuel fuel) p) in if is_done p then p else rest

-- `parse`
unfoldable pub parse : Parser → Parser
unfolding parse_fuel
parse p = parse_fuel (length p.text) p

-- `createFromBuffer`, on the memory from the pointer on: the parser takes it up to a NUL and does not
-- look at the length
unfoldable pub create_from_buffer : Bytes → Node
unfolding parse until_nul
create_from_buffer buffer =
    (parse (new_parser (until_nul buffer) (new_one (codes "root") []))).cur_node
