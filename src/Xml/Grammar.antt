-- ===== src/Xml/Grammar.antt =====
-- The texts that stand for children, and that the parser reads them.
use online_judger.Common.{
  ℕ, ◌≡◌, ◌≢◌, ◌∙◌, refl, sym, ap, Bool, true, false, [], ◌∷◌, ◌++◌, some, append_assoc, arith,
  Bytes, bytes_eq_self,
}
use online_judger.FileTool.{drop_last}
use online_judger.LzData.Printing.{push_all, push_all-nil}
use online_judger.LzData.{Node, node, Children, nil, cons, push_back, new_one}
use online_judger.Text.{is_blank, ltrim_string}
use online_judger.Text.Trim.{AllBlank, Trimmed, rstrip, rstrip-concat, head_not_blank}
use online_judger.Text.Search.{
  Lacks, Lacks-append, find_first_of-append, find_first_of-Lacks, take-append,
}
use online_judger.Xml.{
  find_value, attribute, tag_of, open_tag, slash_last, attribute_name, succeeds, ends, after_search,
  after_tag, after_start, after_child, parse_all,
}
use online_judger.Xml.Scan.{
  IsTag, find_tag_lem, find_value_lem, tag_of-start, tag_of-end, slash-Trimmed,
}
use online_judger.Xml.Fuel.{parse_all-round}

-- the end tag, and what follows
abbrev pub closing : Bytes → Bytes → Bytes
closing t tail = b'<' ∷ b'/' ∷ (t ++ b'>' ∷ tail)

-- what may stand between the name of a tag and the slash that ends it
abbrev pub Attributes : Bytes → Type 0
Attributes [] = Unit {0}
Attributes (c ∷ y) = c ≡ b' '

-- `Items k ns s`: from its first mark on, the text `s` stands for the children `ns`, up to the text
-- `k`. A child is a tag that ends in a slash, or a start tag, a value, children, and the end tag, with
-- any blanks round the value and behind the tags.
pub data Items : Bytes → Children → Bytes → Type 0 where
  done : {k : Bytes} → Items k nil k
  closed :
      {k s t : Bytes} {ns : Children}
      → (y c : Bytes) → IsTag t
      → Lacks b' ' t
      → t ≢ []
      → Lacks b'>' y
      → Attributes y
      → AllBlank c
      → Items k ns s
      → Items k (cons (new_one t []) ns) (b'<' ∷ ((t ++ (y ++ b'/' ∷ [])) ++ b'>' ∷ (c ++ s)))
  element :
      {k s t v inner : Bytes} {kids ns : Children}
      → (a b c : Bytes) → IsTag t
      → AllBlank a
      → Trimmed v
      → Lacks b'<' v
      → AllBlank b
      → Items (closing t (c ++ s)) kids inner
      → AllBlank c
      → Items k ns s
      → Items k (cons (node t v kids) ns) (b'<' ∷ (t ++ b'>' ∷ ((a ++ (v ++ b)) ++ inner)))

-- a text that begins with a mark
abbrev Marked : Bytes → Type 0
Marked s = (x : Bytes) × (s ≡ b'<' ∷ x)

Items-Marked : {k s : Bytes} {ns : Children} → Items k ns s → Marked k → Marked s
Items-Marked done h = h
Items-Marked (closed {s = s} {t = t} y c ht hs hn hg hy hc rest) h =
    ((t ++ (y ++ b'/' ∷ [])) ++ b'>' ∷ (c ++ s), refl)
Items-Marked (element {t = t} {v = v} {inner = inner} a b c ht ha hv hl hb kids hc rest) h =
    (t ++ b'>' ∷ ((a ++ (v ++ b)) ++ inner), refl)

-- a tag that ends in a slash
slash_last-append : (c : ℕ) (x : Bytes) → slash_last (c ∷ (x ++ b'/' ∷ [])) ≡ true
unfolding slash_last
slash_last-append c [] = ground arith
slash_last-append c (d ∷ []) = ground arith
slash_last-append c (d ∷ e ∷ x) = slash_last-append d (e ∷ x)

drop_last-append : (t : Bytes) (c : ℕ) → drop_last (t ++ c ∷ []) ≡ t
unfolding drop_last
drop_last-append [] c = refl
drop_last-append (d ∷ []) c = refl
drop_last-append (d ∷ e ∷ t) c = ap (◌∷◌ d) (drop_last-append (e ∷ t) c)

attribute_name_lem :
    (t y : Bytes) → Lacks b' ' t → Attributes y → attribute_name (t ++ (y ++ b'/' ∷ [])) ≡ t
unfolding attribute_name
attribute_name_lem t [] h k =
    rw
      (
        find_first_of-Lacks b' ' (t ++ b'/' ∷ [])
            (Lacks-append b' ' t (b'/' ∷ []) h ((λ e. ground arith), tt)),
        attribute_name,
      )
      (drop_last-append t b'/')
attribute_name_lem t (c ∷ y) h k =
    ap (λ d. attribute_name (t ++ (d ∷ (y ++ b'/' ∷ [])))) k
    ∙ rw (find_first_of-append b' ' t (y ++ b'/' ∷ []) h, attribute_name)
        (take-append t (b' ' ∷ (y ++ b'/' ∷ [])))

open_tag-attribute :
    (x t : Bytes) → slash_last x ≡ true → attribute_name x ≡ t → open_tag x ≡ attribute t
unfolding open_tag
open_tag-attribute x t h k = rw (h, open_tag) (ap attribute k)

tag_of-closed :
    (t y : Bytes)
    → IsTag t
    → Lacks b' ' t
    → t ≢ []
    → Attributes y
    → tag_of (t ++ (y ++ b'/' ∷ [])) ≡ attribute t
unfolding tag_of
tag_of-closed [] y h k n a = absurd (n refl)
tag_of-closed (c ∷ t) y h k n a =
    let ends_in_slash : slash_last ((c ∷ t) ++ (y ++ b'/' ∷ [])) ≡ true =
      ap slash_last (sym (append_assoc (c ∷ t) y (b'/' ∷ []))) ∙ slash_last-append c (t ++ y) in
    let whole =
      open_tag-attribute ((c ∷ t) ++ (y ++ b'/' ∷ [])) (c ∷ t) ends_in_slash
        (attribute_name_lem (c ∷ t) y k a) in
    ground (arith, h.first_not_slash, whole)

closed-Trimmed : (t y : Bytes) → Trimmed t → t ≢ [] → Trimmed (t ++ (y ++ b'/' ∷ []))
unfolding is_blank ltrim_string
closed-Trimmed [] y h n = absurd (n refl)
closed-Trimmed (c ∷ t) y h n = (
  rw (head_not_blank c t h.0) refl,
  ap rstrip (sym (append_assoc (c ∷ t) y (b'/' ∷ [])))
      ∙ rstrip-concat ((c ∷ t) ++ y) b'/'
      ∙ append_assoc (c ∷ t) y (b'/' ∷ []),
)

module _ (r : Bool) (p : Bytes) where
  closed_reads :
      (w t y after : Bytes) (acc : Children)
      → AllBlank w
      → IsTag t
      → Lacks b' ' t
      → t ≢ []
      → Lacks b'>' y
      → Attributes y
      → parse_all r p acc (w ++ b'<' ∷ ((t ++ (y ++ b'/' ∷ [])) ++ b'>' ∷ after))
        ≡ parse_all r p (push_back acc (new_one t [])) after
  unfolding after_search after_tag
  closed_reads w t y after acc hw ht hs hn hg hy =
      let x : Bytes = t ++ (y ++ b'/' ∷ []) in
      let text : Bytes = w ++ b'<' ∷ (x ++ b'>' ∷ after) in
      let no_mark =
        Lacks-append b'>' t (y ++ b'/' ∷ []) ht.no_end_mark
          (Lacks-append b'>' y (b'/' ∷ []) hg ((λ e. ground arith), tt)) in
      parse_all-round r p acc text
      ∙ ap (after_search parse_all r p acc text)
          (find_tag_lem w x after hw (closed-Trimmed t y ht.trimmed hn) no_mark)
      ∙ ap (after_tag parse_all r p acc after) (tag_of-closed t y ht hs hn hy)

  -- A start tag, its value, and its children up to the end tag make one child.
  element_reads :
      (w t v kids_text tail after : Bytes) (acc kids : Children)
      → AllBlank w
      → IsTag t
      → find_value kids_text ≡ some (v, tail)
      → parse_all false t nil tail ≡ ends succeeds kids after
      → parse_all r p acc (w ++ b'<' ∷ (t ++ b'>' ∷ kids_text))
        ≡ parse_all r p (push_back acc (node t v kids)) after
  unfolding after_search after_tag after_start after_child
  element_reads w t v kids_text tail after acc kids hw ht hv hk =
      parse_all-round r p acc (w ++ b'<' ∷ (t ++ b'>' ∷ kids_text))
      ∙ rw (find_tag_lem w t kids_text hw ht.trimmed ht.no_end_mark, tag_of-start t ht, hv, hk) refl

-- The end tag of the parent ends its list.
parse_all-closing :
    (r : Bool) (w t tail : Bytes) (acc : Children)
    → AllBlank w
    → IsTag t
    → parse_all r t acc (w ++ closing t tail) ≡ ends succeeds acc tail
unfolding after_search after_tag
parse_all-closing r w t tail acc hw ht =
    let text : Bytes = w ++ closing t tail in
    let seen =
      find_tag_lem w (b'/' ∷ t) tail hw (slash-Trimmed t ht.trimmed)
        ((λ e. ground arith), ht.no_end_mark) in
    parse_all-round r t acc text
    ∙ ap (after_search parse_all r t acc text) seen
    ∙ ap (after_tag parse_all r t acc tail) (tag_of-end t ht.trimmed)
    ∙ rw (bytes_eq_self t) refl

-- a parse that got through a list, to blanks and what follows the list
pub record Through (r : Bool) (p : Bytes) (acc ns : Children) (text rest : Bytes) : Type 0 where
  pub blanks : Bytes
  pub are_blank : AllBlank blanks
  pub same : parse_all r p acc text ≡ parse_all r p (push_all acc ns) (blanks ++ rest)

-- a list that is read from its second child on
more :
    {r : Bool} {p : Bytes} {acc ns : Children} {text next k : Bytes} (n : Node)
    → parse_all r p acc text ≡ parse_all r p (push_back acc n) next
    → Through r p (push_back acc n) ns next k
    → Through r p acc (cons n ns) text k
more n first others = record {
  blanks = others.blanks;
  are_blank = others.are_blank;
  same = first ∙ others.same;
}

-- The parser reads the children that a text stands for.
pub Items-Through :
    {k s : Bytes} {ns : Children}
    → Items k ns s
    → (r : Bool) (p : Bytes) (acc : Children) (w : Bytes) → AllBlank w
    → Through r p acc ns (w ++ s) k
Items-Through done r p acc w hw = record { blanks = w; are_blank = hw; same = refl }
Items-Through (closed {s = s} {t = t} y c ht hs hn hg hy hc rest) r p acc w hw =
    more (new_one t []) (closed_reads r p w t y (c ++ s) acc hw ht hs hn hg hy)
      (Items-Through rest r p (push_back acc (new_one t [])) c hc)
Items-Through
      (element {s = s} {t = t} {v = v} {inner = inner} {kids = kids} a b c ht ha hv hl hb inside hc
        rest)
      r p acc w hw =
    let below = Items-Through inside false t nil [] tt in
    let (x, e) = Items-Marked inside (b'/' ∷ (t ++ b'>' ∷ (c ++ s)), refl) in
    let value : find_value ((a ++ (v ++ b)) ++ inner) ≡ some (v, inner) =
      rw e (find_value_lem a v b x ha hb hv hl) in
    let inner_reads : parse_all false t nil inner ≡ ends succeeds kids (c ++ s) =
      below.same
      ∙ ap (λ ns. parse_all false t ns (below.blanks ++ closing t (c ++ s))) (push_all-nil kids)
      ∙ parse_all-closing false below.blanks t (c ++ s) kids below.are_blank ht in
    more (node t v kids)
      (element_reads r p w t v ((a ++ (v ++ b)) ++ inner) inner (c ++ s) acc kids hw ht value
        inner_reads)
      (Items-Through rest r p (push_back acc (node t v kids)) c hc)
