-- ===== src/Tests/Program.antt =====
-- The entry point at a concrete file and input.
use online_judger.Common.{
  ◌≡◌, ◌↔◌, ◌⊎◌, refl, Bool, true, List, [], ◌∷◌, ◌++◌, some, Bytes, codes, arith,
}
use online_judger.Config.{Config, new_config, load_config, load_config_file}
use online_judger.Config.File.{LoadedFrom, load_config_file-reads, load_config_file-Items}
use online_judger.LzData.{node, Children, nil, cons, find_child, find_next_child, read}
use online_judger.Main.{Call, main, returns, spins}
use online_judger.Main.Asks.{Asks}
use online_judger.Main.Commands.{Exits, start_up, stops, main_returns_iff}
use online_judger.Tests.Documents.{one_file, mysql-IsTag}
use online_judger.Text.{is_blank, ltrim_string, find_first_of}
use online_judger.Xml
use online_judger.Xml.Scan.{IsTag}
use online_judger.Xml.Grammar.{Items, done, closed}

-- a file with empty sections, and what it stands for
abbrev sections_text : Bytes
sections_text = codes "<judgecode/><compiler/><mysql/>"

abbrev sections : Children
sections =
    cons (node (codes "judgecode") [] nil)
      (cons (node (codes "compiler") [] nil) (cons (node (codes "mysql") [] nil) nil))

judgecode-IsTag : IsTag (codes "judgecode")
unfolding is_blank ltrim_string Xml.slash_last
judgecode-IsTag = record {
  trimmed = (refl, refl);
  no_end_mark = ground arith;
  first_not_slash = ground arith;
  last_not_slash = refl;
}

compiler-IsTag : IsTag (codes "compiler")
unfolding is_blank ltrim_string Xml.slash_last
compiler-IsTag = record {
  trimmed = (refl, refl);
  no_end_mark = ground arith;
  first_not_slash = ground arith;
  last_not_slash = refl;
}

sections-Items : Items [] sections sections_text
sections-Items =
    closed [] [] judgecode-IsTag (ground arith) (λ e. absurd cc) tt tt tt
      (closed [] [] compiler-IsTag (ground arith) (λ e. absurd cc) tt tt tt
        (closed [] [] mysql-IsTag (ground arith) (λ e. absurd cc) tt tt tt done))

abbrev settings : Config
settings = (load_config new_config (node (codes "root") [] sections)).0

settings_loaded :
    load_config_file one_file new_config (codes "config.xml") sections_text ≡ some (settings, true)
unfolding load_config read find_first_of find_child find_next_child
settings_loaded =
    load_config_file-reads one_file new_config (codes "config.xml") [] sections_text sections_text
      sections refl (λ e. absurd cc) tt sections-Items

load_config_file-Items_example :
    (d : Config) × (b : Bool) × (load_config_file one_file new_config
        (codes "config.xml")
        sections_text
      ≡ some (d, b))
    × LoadedFrom (node (codes "root") [] sections) new_config d b
load_config_file-Items_example =
    load_config_file-Items one_file new_config (codes "config.xml") [] sections_text sections_text
      sections refl (λ e. absurd cc) tt sections-Items

abbrev lines : List Bytes
lines = codes "dbmsg on" ∷ codes "exit" ∷ codes "$cls" ∷ []

main_returns_iff_example :
    (((main one_file sections_text true true lines).ending ≡ returns) ↔ Exits lines)
    × (Exits lines
        → (cs : List Call) × Asks lines cs
          × ((main one_file sections_text true true lines).calls
              ≡ start_up settings ++ (cs ++ stops)))
    × (((main one_file sections_text true true lines).ending ≡ returns)
        ⊎ ((main one_file sections_text true true lines).ending ≡ spins))
main_returns_iff_example = main_returns_iff one_file sections_text settings lines settings_loaded
