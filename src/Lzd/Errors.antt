-- ===== src/Lzd/Errors.antt =====
-- How `cParser` goes on behind a line that it does not understand.
use online_judger.Common.{
  ℕ, suc, ◌≡◌, ◌∙◌, refl, sym, ap, [], ◌∷◌, ◌++◌, arith, Bytes, codes, append-nil,
}
use online_judger.LzData.{Node, node, Children, nil, new_one}
use online_judger.LzData.Printing.{push_all, push_all-nil, as_printed}
use online_judger.Text.{is_blank}
use online_judger.Text.Search.{Lacks}
use online_judger.Lzd.{new_parser, parse, create_from_buffer}
use online_judger.Lzd.Printing.{print}
use online_judger.Lzd.Steps.{at, IsName, parse-name, parse-newline, parse-set, parse-second}
use online_judger.Lzd.RoundTrip.{IsPrintable, reads, until_nul-append}

-- a line with two names and more
abbrev pub two_names : Bytes → Bytes → Bytes → Bytes → Bytes
two_names t u s rest = t ++ b' ' ∷ (u ++ b' ' ∷ (s ++ b'\n' ∷ rest))

parse-two_names :
    (t u s rest : Bytes) (n : Node) (vl cl : ℕ)
    → IsName t
    → IsName u
    → Lacks b'\n' s
    → Lacks b'}' s
    → parse (at (two_names t u s rest) n [] [] vl cl) ≡ parse (at rest n [] [] cl (suc cl))
unfolding is_blank
parse-two_names t [] s rest n vl cl h (k, ks) l m = absurd (k refl)
parse-two_names t (c ∷ u) s rest n vl cl h (k, (j, js)) l m =
    let behind : Bytes = b' ' ∷ (s ++ b'\n' ∷ rest) in
    parse-name n vl cl t (b' ' ∷ c ∷ (u ++ behind)) [] [] h.1
    ∙ parse-set n t h vl cl c (u ++ behind) (ground arith)
    ∙ parse-name n cl cl (c ∷ u) behind t [] (j, js)
    ∙ parse-second n t (c ∷ u) s rest cl h.0 k l m
    ∙ parse-newline n cl cl rest

-- A line with two names between printed lines is left out, and those behind it are read all the same.
pub create_from_buffer-two_names :
    (ns ms : Children) (t u s beyond : Bytes)
    → IsPrintable nil ns
    → IsPrintable (as_printed ns) ms
    → IsName t
    → IsName u
    → Lacks b'\n' s
    → Lacks b'}' s
    → Lacks 0 (print 0 ns ++ two_names t u s (print 0 ms))
    → create_from_buffer ((print 0 ns ++ two_names t u s (print 0 ms)) ++ 0 ∷ beyond)
      ≡ node (codes "root") [] (push_all (as_printed ns) (as_printed ms))
unfolding create_from_buffer
create_from_buffer-two_names ns ms t u s beyond h k ht hu l m z =
    let root : Children → Node = node (codes "root") [] in
    let first = reads ns (codes "root") [] nil 0 0 0 (two_names t u s (print 0 ms)) h in
    let second = reads ms (codes "root") [] (as_printed ns) first.cl' (suc first.cl') 0 [] k in
    ap (λ p. p.cur_node)
      (ap (λ x. parse (new_parser x (new_one (codes "root") [])))
          (until_nul-append (print 0 ns ++ two_names t u s (print 0 ms)) beyond z)
        ∙ first.same
        ∙ ap (λ x. parse (at (two_names t u s (print 0 ms)) (root x) [] [] first.vl' first.cl'))
            (push_all-nil (as_printed ns))
        ∙ parse-two_names t u s (print 0 ms) (root (as_printed ns)) first.vl' first.cl' ht hu l m
        ∙ ap (λ x. parse (at x (root (as_printed ns)) [] [] first.cl' (suc first.cl')))
            (sym (append-nil (print 0 ms)))
        ∙ second.same)
