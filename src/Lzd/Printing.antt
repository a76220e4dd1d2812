-- ===== src/Lzd/Printing.antt =====
-- `convertValue` and `print` of LZData/lzd.cpp.
use online_judger.Common.{ℕ, suc, [], ◌∷◌, ◌++◌, if◌then◌else◌, Bytes, codes}
use online_judger.LzData.{Node, node, Children, nil, cons}
use online_judger.LzData.Printing.{print_table}
use online_judger.Lzd.{is_stop}

-- `convertValue`
unfoldable pub convert_value : Bytes → Bytes
unfolding is_stop
convert_value [] = []
convert_value (ch ∷ src) =
    if is_stop ch then b'\\' ∷ ch ∷ convert_value src else ch ∷ convert_value src

unfoldable mutual
  -- the body of the loop of `print`
  unfolding print_table convert_value

  pub print_node : ℕ → Node → Bytes
  print_node depth (node tag value nil) =
      print_table depth ++ (tag ++ (codes " = " ++ (convert_value value ++ codes "\n")))
  print_node depth (node tag value (cons n ns)) =
      print_table depth
      ++ (tag
          ++ (codes "\n"
              ++ (print_table depth
                  ++ (codes "{\n"
                      ++ (print (suc depth) (cons n ns) ++ (print_table depth ++ codes "}\n"))))))

  -- `print`, on the children of a node
  pub print : ℕ → Children → Bytes
  print depth nil = []
  print depth (cons n ns) = print_node depth n ++ print depth ns
