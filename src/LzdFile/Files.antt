-- ===== src/LzdFile/Files.antt =====
-- Saving a tree as a file with tags and loading it again.
use online_judger.Common.{
  ◌≡◌, ◌≢◌, ◌∙◌, refl, sym, true, false, [], ◌∷◌, some, inl, inr, Option-cases, Bytes, codes,
}
use online_judger.LzData.{Node, node, Children, nil, cons, children}
use online_judger.LzData.Printing.{print_table, as_printed}
use online_judger.LzdFile.{
  lzd_xml, Created, tree, null, created_xml, create_lzd_from_buffer, read_file_buffer,
  create_lzd_from_file, save,
}
use online_judger.Os.{Os}
use online_judger.Text.Stored.{stored}
use online_judger.Xml.{create_from_buffer, print_node, print}
use online_judger.Xml.Printed.{IsPrintable}
use online_judger.Xml.RoundTrip.{create_from_buffer-print}

-- a file that was written in text mode holds the text with carriage returns, in binary mode
abbrev pub KeepsText : Os → Type 0
KeepsText os =
    (f s : Bytes) (w w' : os.World)
    → os.write_text f s w ≡ some w'
    → os.read_binary f w' ≡ some (stored true s)

-- what a file with a text gives
pub file_text : Bytes → Created
unfolding created_xml
file_text [] = null
file_text (c ∷ cs) = created_xml (c ∷ cs)

pub file_text_lem :
    (os : Os) (f s : Bytes) (w : os.World)
    → os.read_binary f w ≡ some s
    → create_lzd_from_file os lzd_xml f [] w ≡ file_text s
unfolding create_lzd_from_file read_file_buffer create_lzd_from_buffer file_text
file_text_lem os f [] w h = rw (h, create_lzd_from_file, read_file_buffer) refl
file_text_lem os f (c ∷ s) w h = rw (h, create_lzd_from_file, read_file_buffer) refl

-- the tree that is loaded from what is saved of children
abbrev pub reloaded : Children → Created
reloaded nil = null
reloaded (cons n ns) = tree (node (codes "root") [] (as_printed (cons n ns)))

print-cons :
    (n : Node) (ns : Children) → (x : Bytes) × (stored true (print 0 (cons n ns)) ≡ b'<' ∷ x)
unfolding print print_node print_table stored
print-cons (node t v nil) ns = (_, refl)
print-cons (node t v (cons m ms)) ns = (_, refl)

created_xml-some : (s : Bytes) (n : Node) → create_from_buffer s ≡ some n → created_xml s ≡ tree n
unfolding created_xml
created_xml-some s n e = rw (e, created_xml) refl

pub file_text-cons :
    (s : Bytes) (n : Node) → s ≢ [] → create_from_buffer s ≡ some n → file_text s ≡ tree n
unfolding file_text
file_text-cons [] n h e = absurd (h refl)
file_text-cons (c ∷ s) n h e = created_xml-some (c ∷ s) n e

file_text-print :
    (ns : Children) → IsPrintable true ns → file_text (stored true (print 0 ns)) ≡ reloaded ns
unfolding file_text print stored
file_text-print nil h = refl
file_text-print (cons n ns) h =
    let (x, e) = print-cons n ns in
    file_text-cons (stored true (print 0 (cons n ns)))
      (node (codes "root") [] (as_printed (cons n ns))) (λ k. absurd (let both = sym e ∙ k in cc))
      (create_from_buffer-print true (cons n ns) h)

-- A tree that `save` could write as tags is loaded again from the file, less the values of nodes with
-- children; a tree without children makes an empty file, from which nothing is loaded.
pub create_lzd_from_file-save :
    (os : Os) (n : Node) (f : Bytes) (w : os.World)
    → KeepsText os
    → IsPrintable true (children n)
    → (save os lzd_xml n f w).0 ≡ true
    → create_lzd_from_file os lzd_xml f [] (save os lzd_xml n f w).1 ≡ reloaded (children n)
unfolding save
create_lzd_from_file-save os n f w law h saved =
    elim (Option-cases (os.write_text f (print 0 (children n)) w)) [
      | inl e ↦ absurd (let no : (save os lzd_xml n f w).0 ≡ false = rw (e, save) refl in cc)
      | inr (w', e) ↦
          rw (e, save)
            (file_text_lem os f (stored true (print 0 (children n))) w'
                (law f (print 0 (children n)) w w' e)
              ∙ file_text-print (children n) h)
    ]
