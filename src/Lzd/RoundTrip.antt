-- ===== src/Lzd/RoundTrip.antt =====
-- Reading what `lzd::print` writes.
use online_judger.Common.{
  ℕ, suc, ◌+◌, ◌≡◌, ◌∙◌, refl, sym, ap, true, [], ◌∷◌, ◌++◌, none, arith, Bytes, codes, append-nil,
  append_assoc,
}
use online_judger.LzData.{
  Node, node, Children, nil, cons, new_one, push_back, find_child, write_string,
}
use online_judger.LzData.Printing.{print_table, push_all, push_all-nil, as_printed}
use online_judger.LzData.ReadWrite.{write_string-fresh}
use online_judger.Text.{is_blank, until_nul}
use online_judger.Text.Trim.{Trimmed}
use online_judger.Text.Search.{Lacks, find_first_of-Lacks}
use online_judger.Lzd.{Parser, new_parser, with_block, parse, create_from_buffer}
use online_judger.Lzd.Printing.{convert_value, print_node, print}
use online_judger.Lzd.Values.{get_a_str-convert_value}
use online_judger.Lzd.Steps.{
  at, AllPlain-Lacks, IsName, parse-tabs, parse-name, parse-newline, parse-set, parse-equal,
  parse-line, parse-brace, parse-close,
}

parse-tabs_name :
    (d : ℕ) (t s : Bytes) (n : Node) (vl cl : ℕ)
    → IsName t
    → parse (at (print_table d ++ (t ++ s)) n [] [] vl cl) ≡ parse (at s n [] t vl cl)
unfolding is_blank
parse-tabs_name d [] s n vl cl (h, k) = absurd (h refl)
parse-tabs_name d (c ∷ t) s n vl cl (h, (k, ks)) =
    parse-tabs n vl cl d c (t ++ s) [] (ground arith) ∙ parse-name n vl cl (c ∷ t) s [] [] (k, ks)

module _ (u w : Bytes) (acc : Children) (vl cl : ℕ) where
  -- A line with a name and a value makes a child.
  leaf_reads :
      (d : ℕ) (t v tail : Bytes)
      → IsName t
      → find_child t acc ≡ none
      → Trimmed v
      → Lacks b'\\' v
      → Lacks b'\n' v
      → parse (at (print_node d (node t v nil) ++ tail) (node u w acc) [] [] vl cl)
        ≡ parse (at tail (node u w (push_back acc (node t v nil))) [] [] cl (suc cl))
  unfolding print_node
  leaf_reads d t v tail h new hv hb hn =
      let value : Bytes = b' ' ∷ (convert_value v ++ b'\n' ∷ tail) in
      let n = node u w acc in
      let text : print_node d (node t v nil) ++ tail
          ≡ print_table d ++ (t ++ (b' ' ∷ b'=' ∷ value)) =
        simp (append_assoc) in
      ap (λ x. parse (at x n [] [] vl cl)) text
      ∙ parse-tabs_name d t (b' ' ∷ b'=' ∷ value) n vl cl h
      ∙ parse-set n t h vl cl b'=' value refl
      ∙ parse-equal n t h cl cl value
      ∙ ap (λ r. parse (at r.1 (write_string n t r.0) [] [] cl cl))
          (get_a_str-convert_value v tail hv hb hn)
      ∙ ap (λ x. parse (at (b'\n' ∷ tail) x [] [] cl cl))
          (write_string-fresh n t v (find_first_of-Lacks b'/' t (AllPlain-Lacks t h.1)) new)
      ∙ parse-newline (node u w (push_back acc (node t v nil))) cl cl tail

-- A parse that got through the lines of a list.
pub record Through (u w : Bytes) (acc ns : Children) (vl cl : ℕ) (text rest : Bytes) : Type 0 where
  pub vl' : ℕ
  pub cl' : ℕ
  pub same :
      parse (at text (node u w acc) [] [] vl cl)
      ≡ parse (at rest (node u w (push_all acc (as_printed ns))) [] [] vl' cl')

-- the parser behind the brace that ends a block
abbrev behind : Bytes → Node → ℕ → ℕ → Parser
behind s n vl cl = record (at s n [] [] vl cl) { is_end = true }

block_reads :
    (d : ℕ) (t tail : Bytes) (ns : Children)
    → (below : Through t [] nil ns 0 1
        (print (suc d) ns ++ (print_table d ++ b'}' ∷ tail))
        (print_table d ++ b'}' ∷ tail))
    → parse
        (new_parser (b'\n' ∷ (print (suc d) ns ++ (print_table d ++ b'}' ∷ tail))) (new_one t []))
      ≡ behind tail (node t [] (as_printed ns)) below.vl' below.cl'
block_reads d t tail ns below =
    let n : Children → Node = node t [] in
    parse-newline (n nil) 0 0 (print (suc d) ns ++ (print_table d ++ b'}' ∷ tail))
    ∙ below.same
    ∙ ap (λ x. parse (at (print_table d ++ b'}' ∷ tail) (n x) [] [] below.vl' below.cl'))
        (push_all-nil (as_printed ns))
    ∙ parse-tabs (n (as_printed ns)) below.vl' below.cl' d b'}' tail [] refl
    ∙ parse-close tail (n (as_printed ns)) below.vl' below.cl'

-- A name and a block make a child.
branch_reads :
    (u w : Bytes) (acc : Children) (vl cl d : ℕ) (t v tail : Bytes) (m : Node) (ms : Children)
    → IsName t
    → (below : Through t [] nil
        (cons m ms)
        0
        1
        (print (suc d) (cons m ms) ++ (print_table d ++ b'}' ∷ b'\n' ∷ tail))
        (print_table d ++ b'}' ∷ b'\n' ∷ tail))
    → parse (at (print_node d (node t v (cons m ms)) ++ tail) (node u w acc) [] [] vl cl)
      ≡ parse (
          at tail
            (node u w (push_back acc (node t [] (as_printed (cons m ms)))))
            []
            []
            cl
            (suc (suc cl + below.cl')))
unfolding print_node with_block
branch_reads u w acc vl cl d t v tail m ms h below =
    let n = node u w acc in
    let inner : Bytes =
      b'\n' ∷ (print (suc d) (cons m ms) ++ (print_table d ++ b'}' ∷ b'\n' ∷ tail)) in
    let text : print_node d (node t v (cons m ms)) ++ tail
        ≡ print_table d ++ (t ++ (b'\n' ∷ (print_table d ++ b'{' ∷ inner))) =
      simp (append_assoc) in
    ap (λ x. parse (at x n [] [] vl cl)) text
    ∙ parse-tabs_name d t (b'\n' ∷ (print_table d ++ b'{' ∷ inner)) n vl cl h
    ∙ parse-line n t h vl cl (print_table d ++ b'{' ∷ inner)
    ∙ parse-tabs n cl (suc cl) d b'{' inner t refl
    ∙ parse-brace n t h cl (suc cl) inner
    ∙ ap (λ b. parse (with_block b (at inner n [] [] cl (suc cl))))
        (block_reads d t (b'\n' ∷ tail) (cons m ms) below)
    ∙ parse-newline (node u w (push_back acc (node t [] (as_printed (cons m ms))))) cl
        (suc cl + below.cl') tail

-- The children `ns` of a list that begins with `before` are printed as they are read: names of plain
-- characters, values that are trimmed and have neither backslash nor line feed, and no value under a
-- name that stands in front of it.
abbrev pub IsPrintable : Children → Children → Type 0
IsPrintable before nil = Unit {0}
IsPrintable before (cons (node t v nil) ns) =
    IsName t
    × (find_child t before ≡ none)
    × Trimmed v
    × Lacks b'\\' v
    × Lacks b'\n' v
    × IsPrintable (push_back before (node t v nil)) ns
IsPrintable before (cons (node t v (cons m ms)) ns) =
    IsName t
    × IsPrintable nil (cons m ms)
    × IsPrintable (push_back before (node t [] (as_printed (cons m ms)))) ns

pub reads :
    (ns : Children) (u w : Bytes) (acc : Children) (vl cl d : ℕ) (rest : Bytes)
    → IsPrintable acc ns
    → Through u w acc ns vl cl (print d ns ++ rest) rest
unfolding print
reads nil u w acc vl cl d rest h = record { vl' = vl; cl' = cl; same = refl }
reads (cons (node t v nil) ns) u w acc vl cl d rest (ht, new, hv, hb, hn, hs) =
    let others = reads ns u w (push_back acc (node t v nil)) cl (suc cl) d rest hs in
    record {
      vl' = others.vl';
      cl' = others.cl';
      same =
          ap (λ x. parse (at x (node u w acc) [] [] vl cl))
            (append_assoc (print_node d (node t v nil)) (print d ns) rest)
          ∙ leaf_reads u w acc vl cl d t v (print d ns ++ rest) ht new hv hb hn
          ∙ others.same;
    }
reads (cons (node t v (cons m ms)) ns) u w acc vl cl d rest (ht, hm, hs) =
    let tail : Bytes = print d ns ++ rest in
    let below = reads (cons m ms) t [] nil 0 1 (suc d) (print_table d ++ b'}' ∷ b'\n' ∷ tail) hm in
    let others =
      reads ns u w (push_back acc (node t [] (as_printed (cons m ms)))) cl
        (suc (suc cl + below.cl')) d rest hs in
    record {
      vl' = others.vl';
      cl' = others.cl';
      same =
          ap (λ x. parse (at x (node u w acc) [] [] vl cl))
            (append_assoc (print_node d (node t v (cons m ms))) (print d ns) rest)
          ∙ branch_reads u w acc vl cl d t v tail m ms ht below
          ∙ others.same;
    }

pub until_nul-append : (s beyond : Bytes) → Lacks 0 s → until_nul (s ++ 0 ∷ beyond) ≡ s
unfolding until_nul
until_nul-append [] beyond h = refl
until_nul-append (c ∷ s) beyond (h, hs) =
    let rest = until_nul-append s beyond hs in ground (arith, rest)

-- `createFromBuffer` on what `print` writes of printable nodes, closed by a NUL, returns them under a
-- new root, less the values of nodes with children.
pub create_from_buffer-print_lzd :
    (ns : Children) (beyond : Bytes)
    → IsPrintable nil ns
    → Lacks 0 (print 0 ns)
    → create_from_buffer (print 0 ns ++ 0 ∷ beyond) ≡ node (codes "root") [] (as_printed ns)
unfolding create_from_buffer
create_from_buffer-print_lzd ns beyond h l =
    let r = reads ns (codes "root") [] nil 0 0 0 [] h in
    let e =
      ap (λ s. parse (new_parser s (new_one (codes "root") [])))
        (until_nul-append (print 0 ns) beyond l ∙ sym (append-nil (print 0 ns)))
      ∙ r.same
      ∙ ap (λ x. parse (at [] (node (codes "root") [] x) [] [] r.vl' r.cl'))
          (push_all-nil (as_printed ns)) in
    ap (λ p. p.cur_node) e
