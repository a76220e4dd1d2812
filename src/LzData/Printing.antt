-- ===== src/LzData/Printing.antt =====
-- What the formats of LZData/xml.cpp and LZData/lzd.cpp have in common: the tabulators in front of a
-- line, and what of a tree is printed.
use online_judger.Common.{ℕ, zero, suc, ◌≡◌, ◌∙◌, refl, ap, [], ◌∷◌, Bytes}
use online_judger.LzData.{Node, node, Children, nil, cons, push_back}
use online_judger.Text.{is_blank}
use online_judger.Text.Trim.{AllBlank}

-- `printTable`
unfoldable pub print_table : ℕ → Bytes
print_table zero = []
print_table (suc n) = b'\t' ∷ print_table n

pub print_table-AllBlank : (d : ℕ) → AllBlank (print_table d)
unfolding print_table is_blank
print_table-AllBlank zero = tt
print_table-AllBlank (suc d) = (refl, print_table-AllBlank d)

-- the children of a list behind those of another
abbrev pub push_all : Children → Children → Children
push_all acc nil = acc
push_all acc (cons n ns) = push_all (push_back acc n) ns

pub push_all-nil : (ns : Children) → push_all nil ns ≡ ns
push_all-nil ns = go nil ns
  where
    join : Children → Children → Children
    join nil ms = ms
    join (cons n ns) ms = cons n (join ns ms)

    step : (a : Children) (n : Node) (ms : Children) → join (push_back a n) ms ≡ join a (cons n ms)
    step nil n ms = refl
    step (cons m a) n ms = ap (cons m) (step a n ms)

    go : (a ms : Children) → push_all a ms ≡ join a ms
    go a nil = unit a
      where
        unit : (b : Children) → b ≡ join b nil
        unit nil = refl
        unit (cons m b) = ap (cons m) (unit b)
    go a (cons n ms) = go (push_back a n) ms ∙ step a n ms

-- what is printed of a list: a node with children loses its value
abbrev pub as_printed : Children → Children
as_printed nil = nil
as_printed (cons (node t v nil) ns) = cons (node t v nil) (as_printed ns)
as_printed (cons (node t v (cons n ms)) ns) =
    cons (node t [] (as_printed (cons n ms))) (as_printed ns)
