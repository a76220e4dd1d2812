-- ===== src/Tests/Documents.antt =====
-- Trees as texts and files, at concrete inputs.
use online_judger.Common.{◌≡◌, refl, true, false, [], ◌∷◌, ◌++◌, none, some, Bytes, codes, arith}
use online_judger.LzData.{Node, node, Children, nil, cons, find_child, find_next_child}
use online_judger.LzData.Printing.{as_printed, print_table}
use online_judger.LzdFile.{lzd_xml, save, create_lzd_from_file}
use online_judger.LzdFile.Files.{KeepsText, reloaded, create_lzd_from_file-save}
use online_judger.Os.{Os, deleted}
use online_judger.Tests.Machine.{test_os}
use online_judger.Text.{is_blank, ltrim_string}
use online_judger.Text.Stored.{stored}
use online_judger.Xml
use online_judger.Xml.Scan.{IsTag}
use online_judger.Xml.Grammar.{Items, done, closed, element}
use online_judger.Xml.Printed.{IsPrintable}
use online_judger.Xml.RoundTrip.{create_from_buffer-Items, create_from_buffer-print}
use online_judger.Xml.Errors.{create_from_buffer-cut, create_from_buffer-stray}
use online_judger.Lzd
use online_judger.Lzd.Printing
use online_judger.Lzd.RoundTrip
use online_judger.Lzd.RoundTrip.{create_from_buffer-print_lzd}

-- a section with a setting, and a setting of its own
abbrev settings : Children
settings =
    cons (node (codes "mysql") [] (cons (node (codes "port") (codes "3306") nil) nil))
      (cons (node (codes "cores") (codes "2") nil) nil)

pub mysql-IsTag : IsTag (codes "mysql")
unfolding is_blank ltrim_string Xml.slash_last
mysql-IsTag = record {
  trimmed = (refl, refl);
  no_end_mark = ground arith;
  first_not_slash = ground arith;
  last_not_slash = refl;
}

port-IsTag : IsTag (codes "port")
unfolding is_blank ltrim_string Xml.slash_last
port-IsTag = record {
  trimmed = (refl, refl);
  no_end_mark = ground arith;
  first_not_slash = ground arith;
  last_not_slash = refl;
}

cores-IsTag : IsTag (codes "cores")
unfolding is_blank ltrim_string Xml.slash_last
cores-IsTag = record {
  trimmed = (refl, refl);
  no_end_mark = ground arith;
  first_not_slash = ground arith;
  last_not_slash = refl;
}

settings-IsPrintable : IsPrintable true settings
unfolding is_blank ltrim_string
settings-IsPrintable = (
  mysql-IsTag,
  ground arith,
  (port-IsTag, ground arith, (refl, refl), ground arith, ground arith, tt),
  (cores-IsTag, ground arith, (refl, refl), ground arith, ground arith, tt),
)

create_from_buffer-print_example :
    Xml.create_from_buffer (stored true (Xml.print 0 settings))
    ≡ some (node (codes "root") [] settings)
create_from_buffer-print_example = create_from_buffer-print true settings settings-IsPrintable

-- a text with a blank value, and a tag that ends in a slash
abbrev hand_written : Bytes
hand_written = codes "<mysql><port/> </mysql>\n<cores>2</cores>"

abbrev written : Children
written =
    cons (node (codes "mysql") [] (cons (node (codes "port") [] nil) nil))
      (cons (node (codes "cores") (codes "2") nil) nil)

written-Items : (k : Bytes) → Items k written (hand_written ++ k)
unfolding is_blank ltrim_string
written-Items k =
    element [] [] (codes "\n") mysql-IsTag tt (refl, refl) tt tt
      (closed [] (codes " ") port-IsTag (ground arith) (λ e. absurd cc) tt tt (refl, tt) done)
      (refl, tt) (element [] [] [] cores-IsTag tt (refl, refl) (ground arith) tt done tt done)

create_from_buffer-Items_example :
    ((Xml.parse (codes " " ++ hand_written)).status ≡ Xml.succeeds)
    × (Xml.create_from_buffer (codes " " ++ hand_written) ≡ some (node (codes "root") [] written))
unfolding is_blank
create_from_buffer-Items_example =
    create_from_buffer-Items written (codes " ") hand_written (refl, tt) (written-Items [])

create_from_buffer-cut_example :
    ((Xml.parse (hand_written ++ codes "<co")).status ≡ Xml.fails)
    × (Xml.create_from_buffer (hand_written ++ codes "<co") ≡ some (node (codes "root") [] written))
create_from_buffer-cut_example =
    create_from_buffer-cut written [] (hand_written ++ codes "<co") (codes "co") tt
      (written-Items (codes "<co")) (ground arith)

create_from_buffer-stray_example : Xml.create_from_buffer (hand_written ++ codes "a>b<c>") ≡ none
create_from_buffer-stray_example =
    create_from_buffer-stray written [] (hand_written ++ codes "a>b<c>") (codes "a") (codes "b")
      (codes "c>") tt (written-Items (codes "a>b<c>")) (ground arith) (ground arith) (ground arith)

-- a machine whose world is what its only file holds
abbrev pub one_file : Os
one_file = record {
  World = Bytes;
  has_file = λ _ _. true;
  delete_file = λ _ w. (deleted, w);
  create_directory = λ _ w. (false, w);
  find = λ _ _. [];
  read_text = λ _ w. some w;
  read_binary = λ _ w. some w;
  write_text = λ _ s _. some (stored true s);
  sleep = λ _ w. w;
  create_process = λ _ _ _ w. (false, w);
  wait_exit = λ _ w. (0, w);
  debug_run = λ w. ((test_os.debug_run true).0, w);
  job_run = λ w. ((test_os.job_run true).0, w);
}

one_file-KeepsText : KeepsText one_file
one_file-KeepsText f s w w' e = ground arith

create_lzd_from_file-save_example :
    create_lzd_from_file one_file lzd_xml
      (codes "config.xml")
      []
      (save one_file lzd_xml (node (codes "root") [] settings) (codes "config.xml") []).1
    ≡ reloaded settings
unfolding save
create_lzd_from_file-save_example =
    create_lzd_from_file-save one_file (node (codes "root") [] settings) (codes "config.xml") []
      one_file-KeepsText settings-IsPrintable refl

settings-IsPrintable_lzd : RoundTrip.IsPrintable nil settings
unfolding is_blank ltrim_string find_child find_next_child
settings-IsPrintable_lzd = (
  ((λ e. absurd cc), ground arith),
  (((λ e. absurd cc), ground arith), refl, (refl, refl), ground arith, ground arith, tt),
  (((λ e. absurd cc), ground arith), refl, (refl, refl), ground arith, ground arith, tt),
)

create_from_buffer-print_lzd_example :
    Lzd.create_from_buffer (Lzd.Printing.print 0 settings ++ 0 ∷ codes "x")
    ≡ node (codes "root") [] settings
unfolding Lzd.Printing.print Lzd.Printing.convert_value Lzd.is_stop print_table
create_from_buffer-print_lzd_example =
    create_from_buffer-print_lzd settings (codes "x") settings-IsPrintable_lzd (ground arith)

abbrev tree_node : Node
tree_node = node (codes "root") [] nil

-- a setting behind one that is in the list
abbrev port : Children
port = cons (node (codes "port") (codes "1;2") nil) nil

port-IsPrintable : RoundTrip.IsPrintable (as_printed settings) port
unfolding is_blank ltrim_string find_child find_next_child
port-IsPrintable =
    (((λ e. absurd cc), ground arith), refl, (refl, refl), ground arith, ground arith, tt)
