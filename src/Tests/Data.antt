-- ===== src/Tests/Data.antt =====
-- Texts, trees and names at concrete inputs.
use online_judger.Common.{◌≡◌, ◌≢◌, ◌↔◌, refl, [], codes}
use online_judger.LzData.{
  Node, node, nil, cons, children, count_children, find_child, find_next_child, read, write,
  read_string, write_string,
}
use online_judger.LzData.Walk.Names.{names}
use online_judger.LzData.ReadWrite.Update.{last}
use online_judger.LzData.ReadWrite.{CanWrite, read_string-write_string, write_shadowed}
use online_judger.Matcher.{compare, matcher_accept, matcher_present_error}
use online_judger.Matcher.Verdict.{
  unix_lines, visible, compare-eq-accept_iff, compare-eq-present_iff,
}
use online_judger.Text.{find_first_of}

compare-eq-accept_iff_example :
    (compare (codes "1\r\n") (codes "1\n") ≡ matcher_accept)
    ↔ (unix_lines (codes "1\r\n") ≡ unix_lines (codes "1\n"))
compare-eq-accept_iff_example = compare-eq-accept_iff (codes "1\r\n") (codes "1\n")

compare-eq-present_iff_example : (compare (codes "12") (codes "1 2") ≡ matcher_present_error) ↔ (
    (visible (codes "12") ≡ visible (codes "1 2"))
    × (unix_lines (codes "12") ≢ unix_lines (codes "1 2")))
compare-eq-present_iff_example = compare-eq-present_iff (codes "12") (codes "1 2")

-- the root of a tree with a section of two children
abbrev tree : Node
tree = node (codes "root") [] (
    cons
      (node (codes "db") []
        (cons (node (codes "ip") (codes "x") nil) (cons (node (codes "port") (codes "1") nil) nil)))
      (cons (node (codes "cores") (codes "2") nil) nil))

cores-CanWrite : CanWrite tree (codes "cores")
unfolding find_child find_next_child names
cores-CanWrite = last (λ e. absurd cc)

read_string-write_string_example :
    read_string (write_string tree (codes "cores") (codes "4")) (codes "cores") [] ≡ codes "4"
read_string-write_string_example =
    read_string-write_string tree (codes "cores") (codes "4") [] cores-CanWrite

-- the first child of the root is not written
write_shadowed_example :
    (read (write tree (codes "db") (codes "y")).0 (codes "db") ≡ read tree (codes "db"))
    × (count_children (children (write tree (codes "db") (codes "y")).0) ≡ 3)
unfolding find_first_of find_child find_next_child
write_shadowed_example = write_shadowed tree (codes "db") (codes "y") refl refl

abbrev whole : Node
whole = node (codes "root") [] (
    cons (node (codes "judgecode") [] (cons (node (codes "accept") (codes "4") nil) nil))
      (cons (node (codes "compiler") [] nil) (cons (node (codes "mysql") [] nil) nil)))
