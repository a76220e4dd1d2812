-- ===== src/Config/File.antt =====
-- Loading the configuration from its file.
use online_judger.Common.{
  ◌≡◌, ◌≢◌, ◌∙◌, refl, [], ◌++◌, some, Bool, true, false, inl, inr, Bytes, codes, Bool-cases,
}
use online_judger.Common.Int.{pos}
use online_judger.Config.Loaded.{
  IsLoaded, IsIncomplete, SameDatabase, load_config-IsLoaded, load_config_fails,
}
use online_judger.Config.{Config, load_config, load_config_file}
use online_judger.LzData.{Node, node, Children, read_int}
use online_judger.LzdFile.Files.{file_text_lem, file_text-cons}
use online_judger.Os.{Os}
use online_judger.Text.Trim.{AllBlank}
use online_judger.Xml.Grammar.{Items}
use online_judger.Xml.RoundTrip.{create_from_buffer-Items}

-- the loading of a file that holds a text which stands for children
pub load_config_file-reads :
    (os : Os) (c : Config) (f lead s : Bytes) (w : os.World) (ns : Children)
    → os.read_binary f w ≡ some (lead ++ s)
    → lead ++ s ≢ []
    → AllBlank lead
    → Items [] ns s
    → load_config_file os c f w ≡ some (load_config c (node (codes "root") [] ns))
unfolding load_config_file
load_config_file-reads os c f lead s w ns h full hl items =
    let root = node (codes "root") [] ns in
    let loaded =
      file_text_lem os f (lead ++ s) w h
      ∙ file_text-cons (lead ++ s) root full (create_from_buffer-Items ns lead s hl items).1 in
    rw (loaded, load_config_file) refl

-- what loading the tree of a root makes of a configuration, by what it says
abbrev pub LoadedFrom : Node → Config → Config → Bool → Type 0
LoadedFrom root c d true = (IsIncomplete root → ⊥) × IsLoaded root d
LoadedFrom root c d false =
    IsIncomplete root × SameDatabase c d × (d.cores ≡ read_int root (codes "cores") (pos 0))

load_config-LoadedFrom :
    (c : Config) (root : Node) → LoadedFrom root c (load_config c root).0 (load_config c root).1
load_config-LoadedFrom c root =
    let ((fails, misses), same, cores_is) = load_config_fails c root in
    elim (Bool-cases (load_config c root).1) [
      | inl e ↦ rw (e) ((λ h. let missed = misses h in absurd cc), load_config-IsLoaded c root e)
      | inr e ↦ rw (e) (fails e, same e, cores_is)
    ]

-- If the file holds a text that stands for children, it is loaded as the tree that they make under
-- a root. Loading says true exactly if the tree has the sections for the codes of the results, for the
-- compilers and for the database. It then leaves each setting as the tree has it at the path of the
-- setting, such as "judgecode/accept", or at its default; else it leaves the settings of the database.
pub load_config_file-Items :
    (os : Os) (c : Config) (f lead s : Bytes) (w : os.World) (ns : Children)
    → os.read_binary f w ≡ some (lead ++ s)
    → lead ++ s ≢ []
    → AllBlank lead
    → Items [] ns s
    → (d : Config) × (b : Bool) × (load_config_file os c f w ≡ some (d, b))
      × LoadedFrom (node (codes "root") [] ns) c d b
load_config_file-Items os c f lead s w ns h full hl items =
    let root = node (codes "root") [] ns in
    (
      (load_config c root).0,
      (load_config c root).1,
      load_config_file-reads os c f lead s w ns h full hl items,
      load_config-LoadedFrom c root,
    )
