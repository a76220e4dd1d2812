-- ===== src/Xml/Errors.antt =====
-- Texts that the parser does not accept, behind children that it has read.
use online_judger.Common.{
  suc, ◌≡◌, ◌∙◌, refl, sym, ap, true, false, [], ◌∷◌, ◌++◌, none, some, append_assoc, arith, leb,
  Bytes, codes, length, length-append,
}
use online_judger.LzData.{node, Children}
use online_judger.Text.{find_first_of, is_blank}
use online_judger.Text.Trim.{AllBlank}
use online_judger.Text.Search.{
  Lacks, Lacks-append, AllBlank-Lacks, find_first_of-append, find_first_of-Lacks,
}
use online_judger.Xml.{
  get_range, find_tag, no_end, throws, fails, after_search, parse_all, parse, create_from_buffer,
  root_of,
}
use online_judger.Xml.Fuel.{parse_all-round}
use online_judger.Xml.Grammar.{Items}
use online_judger.Xml.RoundTrip.{parse-IsRead}

find_tag-no_end :
    (w rest : Bytes) → AllBlank w → Lacks b'>' rest → find_tag (w ++ b'<' ∷ rest) ≡ no_end
unfolding find_tag is_blank
find_tag-no_end w rest hw hr =
    let begin = find_first_of-append b'<' w rest (AllBlank-Lacks b'<' w refl hw) in
    let whole =
      Lacks-append b'>' w (b'<' ∷ rest) (AllBlank-Lacks b'>' w refl hw) ((λ e. ground arith), hr) in
    rw (begin, find_first_of-Lacks b'>' (w ++ b'<' ∷ rest) whole, find_tag) refl

-- A text that is cut off inside a tag: `parse` returns false, and `createFromBuffer` returns the
-- children in front of it as if they were the whole tree.
pub create_from_buffer-cut :
    (ns : Children) (w s rest : Bytes)
    → AllBlank w
    → Items (b'<' ∷ rest) ns s
    → Lacks b'>' rest
    → ((parse (w ++ s)).status ≡ fails)
      × (create_from_buffer (w ++ s) ≡ some (node (codes "root") [] ns))
unfolding create_from_buffer root_of after_search
create_from_buffer-cut ns w s rest hw items hl =
    let r = parse-IsRead w hw items in
    let e =
      r.same
      ∙ parse_all-round true (codes "root") ns (r.blanks ++ b'<' ∷ rest)
      ∙ ap (after_search parse_all true (codes "root") ns (r.blanks ++ b'<' ∷ rest))
          (find_tag-no_end r.blanks rest r.are_blank hl) in
    (ap (λ x. x.status) e, ap root_of e)

find_tag-throws :
    (a b rest : Bytes)
    → Lacks b'<' a
    → Lacks b'>' a
    → Lacks b'<' b
    → find_tag (a ++ b'>' ∷ (b ++ b'<' ∷ rest)) ≡ throws
unfolding find_tag get_range
find_tag-throws a b rest ha hb hc =
    let s : Bytes = a ++ b'>' ∷ (b ++ b'<' ∷ rest) in
    let end = find_first_of-append b'>' a (b ++ b'<' ∷ rest) hb in
    let same : s ≡ (a ++ b'>' ∷ b) ++ b'<' ∷ rest = sym (append_assoc a (b'>' ∷ b) (b'<' ∷ rest)) in
    let front = Lacks-append b'<' a (b'>' ∷ b) ha ((λ e. ground arith), hc) in
    let begin : find_first_of b'<' s ≡ some (length (a ++ b'>' ∷ b)) =
      rw same (find_first_of-append b'<' (a ++ b'>' ∷ b) rest front) in
    let negative : leb (suc (length (a ++ b'>' ∷ b))) (length a) ≡ false =
      ground (arith, length-append a (b'>' ∷ b)) in
    rw (begin, end, negative, find_tag) refl

-- Behind children, an end mark in front of the next begin mark: the length of the tag is negative, and
-- `std::string::assign` throws, so that `createFromBuffer` does not return.
pub create_from_buffer-stray :
    (ns : Children) (w s a b rest : Bytes)
    → AllBlank w
    → Items (a ++ b'>' ∷ (b ++ b'<' ∷ rest)) ns s
    → Lacks b'<' a
    → Lacks b'>' a
    → Lacks b'<' b
    → create_from_buffer (w ++ s) ≡ none
unfolding create_from_buffer root_of after_search is_blank
create_from_buffer-stray ns w s a b rest hw items ha hb hc =
    let text : Bytes = a ++ b'>' ∷ (b ++ b'<' ∷ rest) in
    let r = parse-IsRead w hw items in
    let v = r.blanks in
    let found_none =
      find_tag-throws (v ++ a) b rest
        (Lacks-append b'<' v a (AllBlank-Lacks b'<' v refl r.are_blank) ha)
        (Lacks-append b'>' v a (AllBlank-Lacks b'>' v refl r.are_blank) hb) hc in
    ap root_of (
      r.same
      ∙ parse_all-round true (codes "root") ns (v ++ text)
      ∙ ap (after_search parse_all true (codes "root") ns (v ++ text))
          (ap find_tag (sym (append_assoc v a (b'>' ∷ (b ++ b'<' ∷ rest)))) ∙ found_none))
