-- ===== src/Xml/RoundTrip.antt =====
-- Reading a whole text, and what `print` writes.
use online_judger.Common.{◌≡◌, ◌∙◌, sym, ap, Bool, true, [], ◌++◌, some, append-nil, Bytes, codes}
use online_judger.LzData.Printing.{push_all-nil, as_printed}
use online_judger.LzData.{node, Children, nil}
use online_judger.Text.Trim.{AllBlank}
use online_judger.Text.Stored.{stored}
use online_judger.Xml.{
  Parsed, succeeds, ends, after_search, parse_all, parse, create_from_buffer, root_of, print,
}
use online_judger.Xml.Scan.{find_tag-AllBlank}
use online_judger.Xml.Fuel.{parse_all-round}
use online_judger.Xml.Grammar.{Items, Items-Through}
use online_judger.Xml.Printed.{IsPrintable, print-Stands}

-- what `parse` has left to do on a text that begins with children
pub record IsRead (ns : Children) (rest : Bytes) (r : Parsed) : Type 0 where
  pub blanks : Bytes
  pub are_blank : AllBlank blanks
  pub same : r ≡ parse_all true (codes "root") ns (blanks ++ rest)

pub parse-IsRead :
    {ns : Children} {s k : Bytes} (w : Bytes)
    → AllBlank w
    → Items k ns s
    → IsRead ns k (parse (w ++ s))
unfolding parse
parse-IsRead {ns} {s} {k} w hw items =
    let r = Items-Through items true (codes "root") nil w hw in
    record {
      blanks = r.blanks;
      are_blank = r.are_blank;
      same = r.same ∙ ap (λ x. parse_all true (codes "root") x (r.blanks ++ k)) (push_all-nil ns);
    }

-- A text that stands for children: `parse` succeeds, and `createFromBuffer` returns them under a new
-- root.
pub create_from_buffer-Items :
    (ns : Children) (w s : Bytes)
    → AllBlank w
    → Items [] ns s
    → ((parse (w ++ s)).status ≡ succeeds)
      × (create_from_buffer (w ++ s) ≡ some (node (codes "root") [] ns))
unfolding create_from_buffer root_of after_search
create_from_buffer-Items ns w s hw items =
    let r = parse-IsRead w hw items in
    let e : parse (w ++ s) ≡ ends succeeds ns r.blanks =
      r.same
      ∙ ap (parse_all true (codes "root") ns) (append-nil r.blanks)
      ∙ parse_all-round true (codes "root") ns r.blanks
      ∙ ap (after_search parse_all true (codes "root") ns r.blanks)
          (find_tag-AllBlank r.blanks r.are_blank) in
    (ap (λ x. x.status) e, ap root_of e)

-- `createFromBuffer` on what `print` writes of printable nodes, as it is or as a file in text mode
-- holds it, returns them under a new root, less the values of nodes with children.
pub create_from_buffer-print :
    (text_mode : Bool) (ns : Children)
    → IsPrintable text_mode ns
    → create_from_buffer (stored text_mode (print 0 ns))
      ≡ some (node (codes "root") [] (as_printed ns))
create_from_buffer-print m ns h =
    let r = print-Stands m ns 0 [] [] h tt in
    ap create_from_buffer (sym (append-nil (stored m (print 0 ns))) ∙ r.splits)
    ∙ (create_from_buffer-Items (as_printed ns) r.blanks r.items r.are_blank r.are_items).1
