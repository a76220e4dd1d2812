-- ===== src/Xml.antt =====
-- `xml` and `xmlParser` of LZData/xml.h, xml.cpp, xmlParser.h and xmlParser.cpp: how a tree is printed
-- as tags and read from them. The stream is the text from its index on.
pub mod Scan
pub mod Fuel
pub mod Grammar
pub mod Printed
pub mod RoundTrip
pub mod Errors
use online_judger.Common.{
  ℕ, zero, suc, ◌-◌, Bool, true, false, ◌&&◌, [], ◌∷◌, ◌++◌, Option, none, some, ltb, leb, ◌==◌,
  if◌then◌else◌, Bytes, codes, bytes_eq, length, take, drop,
}
use online_judger.FileTool.{drop_last}
use online_judger.LzData.{Node, node, Children, nil, cons, new_one, push_back}
use online_judger.LzData.Printing.{print_table}
use online_judger.Text.{find_first_of, rtrim_string, trim_string}

-- `WrapperStream::getRange`, from two positions that `find` returned, so that they are in the buffer;
-- none for a length below 0, at which `std::string::assign` throws
unfoldable pub get_range : Bytes → ℕ → ℕ → Option Bytes
get_range s begin end = if leb begin end then some (take (end - begin) (drop begin s)) else none

-- what the search for the next tag comes to: none, no end mark, an exception, or the trimmed text
-- between the marks with the stream behind it
pub data Found : Type 0 where
  no_mark no_end throws : Found
  found : Bytes → Bytes → Found

pub find_tag : Bytes → Found
unfolding get_range
find_tag s = elim (find_first_of b'<' s) [
  | none ↦ no_mark
  | some begin ↦ elim (find_first_of b'>' s) [
    | none ↦ no_end
    | some end ↦ elim (get_range s (suc begin) end) [
      | none ↦ throws
      | some tag ↦ found (trim_string tag) (drop (suc end) s)
    ]
  ]
]

-- the value in front of the next tag, and the stream from that tag on
pub find_value : Bytes → Option (Bytes × Bytes)
find_value s = elim (find_first_of b'<' s) [
  | none ↦ none
  | some end ↦ some (trim_string (take end s), drop end s)
]

pub data Tag : Type 0 where
  end_tag attribute start_tag : Bytes → Tag

-- `tag[lastIndex] == '/'`, for an index above 0
unfoldable pub slash_last : Bytes → Bool
slash_last [] = false
slash_last (c ∷ []) = false
slash_last (c ∷ d ∷ []) = d == b'/'
slash_last (c ∷ d ∷ e ∷ cs) = slash_last (d ∷ e ∷ cs)

-- the name of a tag that ends in a slash
unfoldable pub attribute_name : Bytes → Bytes
attribute_name tag = elim (find_first_of b' ' tag) [
  | none ↦ drop_last tag
  | some pos ↦ take pos tag
]

-- the text of a tag that does not begin with a slash
pub open_tag : Bytes → Tag
unfolding attribute_name slash_last
open_tag tag = if slash_last tag then attribute (attribute_name tag) else start_tag tag

pub tag_of : Bytes → Tag
unfolding open_tag
tag_of [] = start_tag []
tag_of (c ∷ cs) = if c == b'/' then end_tag (rtrim_string cs) else open_tag (c ∷ cs)

-- how `parseReal` ends: true, false, or an exception
pub data Status : Type 0 where
  succeeds fails crashes out_of_fuel : Status

-- what `parseReal` leaves: the children of the parent, and the stream
pub record Parsed : Type 0 where
  pub status : Status
  pub children : Children
  pub rest : Bytes

abbrev pub ends : Status → Children → Bytes → Parsed
ends st ns s = record { status = st; children = ns; rest = s }

-- behind the loop: only the root need not be closed
abbrev pub at_end : Bool → Children → Bytes → Parsed
at_end is_root ns s = ends (if is_root then succeeds else fails) ns s

-- a call of `parseReal`: whether the parent is the root, its tag, its children so far, and the stream
abbrev pub Call : Type 0
Call = Bool → Bytes → Children → Bytes → Parsed

-- the rest of a round, with the next round or the one for a child node as `call`: behind the child
pub after_child : Call → Bool → Bytes → Children → Bytes → Bytes → Parsed → Parsed
after_child call is_root parent ns name value below =
    let ns' = push_back ns (node name value below.children) in
    elim below.status [
      | succeeds ↦ call is_root parent ns' below.rest
      | other ↦ ends other ns' below.rest
    ]

-- behind a start tag, by the value
pub after_start : Call → Bool → Bytes → Children → Bytes → Bytes → Option (Bytes × Bytes) → Parsed
unfolding after_child
after_start call is_root parent ns name s none = ends fails (push_back ns (new_one name [])) s
after_start call is_root parent ns name s (some (value, s')) =
    after_child call is_root parent ns name value (call false name nil s')

-- behind a tag
pub after_tag : Call → Bool → Bytes → Children → Bytes → Tag → Parsed
unfolding after_start find_value
after_tag call is_root parent ns s (end_tag name) =
    ends (if bytes_eq name parent then succeeds else fails) ns s
after_tag call is_root parent ns s (attribute name) =
    call is_root parent (push_back ns (new_one name [])) s
after_tag call is_root parent ns s (start_tag name) =
    after_start call is_root parent ns name s (find_value s)

-- behind the search for a tag
pub after_search : Call → Bool → Bytes → Children → Bytes → Found → Parsed
unfolding after_tag tag_of
after_search call is_root parent ns s no_mark = at_end is_root ns s
after_search call is_root parent ns s no_end = ends fails ns s
after_search call is_root parent ns s throws = ends crashes ns s
after_search call is_root parent ns s (found text s') =
    after_tag call is_root parent ns s' (tag_of text)

-- `parseReal`, through as many tags as the fuel allows
unfoldable pub parse_real : ℕ → Call
unfolding after_search find_tag
parse_real zero is_root parent ns s = ends out_of_fuel ns s
parse_real (suc fuel) is_root parent ns s =
    after_search (parse_real fuel) is_root parent ns s (find_tag s)

-- `parseReal`: one round for every character of the stream is enough
unfoldable pub parse_all : Call
unfolding parse_real
parse_all is_root parent ns s = parse_real (suc (length s)) is_root parent ns s

-- `xmlParser::parse` on a new root
unfoldable pub parse : Bytes → Parsed
unfolding parse_all
parse s = parse_all true (codes "root") nil s

-- the root of the parser, whatever `parse` says; none for an exception
unfoldable pub root_of : Parsed → Option Node
root_of r = elim r.status [ crashes ↦ none | _ ↦ some (node (codes "root") [] r.children) ]

-- `createFromBuffer`
unfoldable pub create_from_buffer : Bytes → Option Node
unfolding root_of
create_from_buffer buffer = root_of (parse buffer)

unfoldable mutual
  -- the body of the loop of `print`
  unfolding print_table

  pub print_node : ℕ → Node → Bytes
  print_node depth (node tag value nil) =
      print_table depth
      ++ (codes "<" ++ (tag ++ (codes ">\t" ++ (value ++ (codes "\t</" ++ (tag ++ codes ">\n"))))))
  print_node depth (node tag value (cons n ns)) =
      print_table depth
      ++ (codes "<"
          ++ (tag
              ++ (codes ">\n"
                  ++ (print (suc depth) (cons n ns)
                      ++ (print_table depth ++ (codes "</" ++ (tag ++ codes ">\n")))))))

  -- `print`, on the children of a node
  pub print : ℕ → Children → Bytes
  print depth nil = []
  print depth (cons n ns) = print_node depth n ++ print depth ns
