-- ===== src/Xml/Printed.antt =====
-- What `print` writes stands for the children, also as a file in text mode holds it.
use online_judger.Common.{
  ℕ, suc, ◌≡◌, ◌∙◌, refl, sym, ap, Bool, true, false, [], ◌∷◌, ◌++◌, append_assoc, Bytes,
}
use online_judger.LzData.Printing.{print_table, print_table-AllBlank, as_printed}
use online_judger.LzData.{Node, node, Children, nil, cons}
use online_judger.Text.{is_blank, ltrim_string}
use online_judger.Text.Trim.{AllBlank, Trimmed}
use online_judger.Text.Search.{Lacks, AllBlank-append}
use online_judger.Text.Stored.{stored, Kept, stored-append, stored-Kept, AllBlank-stored}
use online_judger.Xml.{print_node, print}
use online_judger.Xml.Scan.{IsTag}
use online_judger.Xml.Grammar.{Items, done, element, closing}

-- The tags can be told by the parser, and the values of nodes without children are trimmed and have
-- no mark of a tag; where the text is stored in text mode, neither has a line feed.
abbrev pub IsPrintable : Bool → Children → Type 0
IsPrintable m nil = Unit {0}
IsPrintable m (cons (node t v nil) ns) =
    IsTag t × Kept m t × Trimmed v × Lacks b'<' v × Kept m v × IsPrintable m ns
IsPrintable m (cons (node t v (cons n ms)) ns) =
    IsTag t × Kept m t × IsPrintable m (cons n ms) × IsPrintable m ns

-- the text of a node without children, as it is stored
leaf_text :
    (m : Bool) (d : ℕ) (t v tail : Bytes)
    → Kept m t
    → Kept m v
    → stored m (print_node d (node t v nil)) ++ tail
      ≡ stored m (print_table d)
        ++ b'<'
          ∷ (t ++ b'>' ∷ ((b'\t' ∷ (v ++ b'\t' ∷ [])) ++ closing t (stored m (b'\n' ∷ []) ++ tail)))
unfolding print_node stored
leaf_text false d t v tail ht hv = simp (append_assoc)
leaf_text true d t v tail ht hv =
    simp (append_assoc, stored-append true, stored-Kept true t ht, stored-Kept true v hv)

-- the text of a node with children, as it is stored
branch_text :
    (m : Bool) (d : ℕ) (t v tail : Bytes) (n : Node) (ms : Children)
    → Kept m t
    → stored m (print_node d (node t v (cons n ms))) ++ tail
      ≡ stored m (print_table d)
        ++ b'<'
          ∷ (t
              ++ b'>'
                ∷ (stored m (b'\n' ∷ [])
                    ++ (stored m (print (suc d) (cons n ms))
                        ++ (stored m (print_table d)
                            ++ closing t (stored m (b'\n' ∷ []) ++ tail)))))
unfolding print_node stored
branch_text false d t v tail n ms ht = simp (append_assoc)
branch_text true d t v tail n ms ht = simp (append_assoc, stored-append true, stored-Kept true t ht)

-- the children that stand in front of a text, behind blanks
pub record Stands (ns : Children) (text k : Bytes) : Type 0 where
  pub blanks : Bytes
  pub items : Bytes
  pub splits : text ≡ blanks ++ items
  pub are_blank : AllBlank blanks
  pub are_items : Items k ns items

line_end-AllBlank : (m : Bool) → AllBlank (stored m (b'\n' ∷ []))
unfolding is_blank
line_end-AllBlank m = AllBlank-stored m (b'\n' ∷ []) (refl, tt)

tabs-AllBlank : (m : Bool) (d : ℕ) → AllBlank (stored m (print_table d))
tabs-AllBlank m d = AllBlank-stored m (print_table d) (print_table-AllBlank d)

stored_cons :
    (m : Bool) (d : ℕ) (n : Node) (ns : Children) (x : Bytes)
    → stored m (print d (cons n ns)) ++ x
      ≡ stored m (print_node d n) ++ (stored m (print d ns) ++ x)
unfolding print
stored_cons m d n ns x =
    ap (λ y. y ++ x) (stored-append m (print_node d n) (print d ns))
    ∙ append_assoc (stored m (print_node d n)) (stored m (print d ns)) x

stored_nil : (m : Bool) → stored m [] ≡ []
unfolding stored
stored_nil false = refl
stored_nil true = refl

-- What is printed stands for what it keeps of the children.
pub print-Stands :
    (m : Bool) (ns : Children) (d : ℕ) (w k : Bytes)
    → IsPrintable m ns
    → AllBlank w
    → Stands (as_printed ns) (stored m (print d ns) ++ (w ++ k)) k
unfolding print is_blank ltrim_string
print-Stands m nil d w k h hw = record {
  blanks = w;
  items = k;
  splits = ap (λ x. x ++ (w ++ k)) (stored_nil m);
  are_blank = hw;
  are_items = done;
}
print-Stands m (cons (node t v nil) ns) d w k (ht, kt, hv, hl, kv, hs) hw =
    let r = print-Stands m ns d w k hs hw in
    let rest : Bytes = stored m (print d ns) ++ (w ++ k) in
    let e : Bytes = stored m (b'\n' ∷ []) in
    let e_blank : AllBlank (e ++ r.blanks) =
      AllBlank-append e r.blanks (line_end-AllBlank m) r.are_blank in
    let behind : e ++ rest ≡ (e ++ r.blanks) ++ r.items =
      ap (◌++◌ e) r.splits ∙ sym (append_assoc e r.blanks r.items) in
    record {
      blanks = stored m (print_table d);
      items =
          b'<'
          ∷ (t ++ b'>' ∷ ((b'\t' ∷ (v ++ b'\t' ∷ [])) ++ closing t ((e ++ r.blanks) ++ r.items)));
      splits =
          stored_cons m d (node t v nil) ns (w ++ k)
          ∙ leaf_text m d t v rest kt kv
          ∙ ap
              (λ x.
                stored m (print_table d)
                ++ b'<' ∷ (t ++ b'>' ∷ ((b'\t' ∷ (v ++ b'\t' ∷ [])) ++ closing t x)))
              behind;
      are_blank = tabs-AllBlank m d;
      are_items =
          element (b'\t' ∷ []) (b'\t' ∷ []) (e ++ r.blanks) ht (refl, tt) hv hl (refl, tt) done
            e_blank r.are_items;
    }
print-Stands m (cons (node t v (cons n ms)) ns) d w k (ht, kt, hm, hs) hw =
    let r = print-Stands m ns d w k hs hw in
    let rest : Bytes = stored m (print d ns) ++ (w ++ k) in
    let e : Bytes = stored m (b'\n' ∷ []) in
    let tabs : Bytes = stored m (print_table d) in
    let e_blank : AllBlank (e ++ r.blanks) =
      AllBlank-append e r.blanks (line_end-AllBlank m) r.are_blank in
    let behind : e ++ rest ≡ (e ++ r.blanks) ++ r.items =
      ap (◌++◌ e) r.splits ∙ sym (append_assoc e r.blanks r.items) in
    let end : Bytes = closing t ((e ++ r.blanks) ++ r.items) in
    let inside = print-Stands m (cons n ms) (suc d) tabs end hm (tabs-AllBlank m d) in
    record {
      blanks = tabs;
      items = b'<' ∷ (t ++ b'>' ∷ ((e ++ inside.blanks) ++ inside.items));
      splits =
          stored_cons m d (node t v (cons n ms)) ns (w ++ k)
          ∙ branch_text m d t v rest n ms kt
          ∙ ap
              (λ x.
                tabs
                ++ b'<'
                  ∷ (t
                      ++ b'>'
                        ∷ (e ++ (stored m (print (suc d) (cons n ms)) ++ (tabs ++ closing t x)))))
              behind
          ∙ ap (λ x. tabs ++ b'<' ∷ (t ++ b'>' ∷ (e ++ x))) inside.splits
          ∙ ap (λ x. tabs ++ b'<' ∷ (t ++ b'>' ∷ x))
              (sym (append_assoc e inside.blanks inside.items));
      are_blank = tabs-AllBlank m d;
      are_items =
          element [] (e ++ inside.blanks) (e ++ r.blanks) ht tt (refl, refl) tt
            (AllBlank-append e inside.blanks (line_end-AllBlank m) inside.are_blank)
            inside.are_items e_blank r.are_items;
    }
