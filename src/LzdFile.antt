-- ===== src/LzdFile.antt =====
-- Reading a tree from a file and writing it: `readFileBuffer`, `save`, `createLzdFromBuffer` and
-- `createLzdFromFile` of LZData/LZData.cpp, with the `createFromFile` of both formats.
pub mod Files
use online_judger.Common.{ℕ, Bool, true, false, [], ◌∷◌, ◌++◌, Option, none, some, ◌>>=◌, Bytes}
use online_judger.LzData.{Node, children}
use online_judger.Lzd
use online_judger.Lzd.Printing
use online_judger.Os.{Os}
use online_judger.Xml

pub data LzDataType : Type 0 where
  lzd_lzd lzd_xml : LzDataType

-- a pointer to a tree, NULL, or an exception
pub data Created : Type 0 where
  tree : Node → Created
  null throws : Created

-- `xml::createFromBuffer`
pub created_xml : Bytes → Created
created_xml buffer = elim (Xml.create_from_buffer buffer) [ none ↦ throws | some n ↦ tree n ]

-- `createLzdFromBuffer`; the buffer is in front of what the memory holds behind it
unfoldable pub create_lzd_from_buffer : LzDataType → Bytes → Bytes → Created
unfolding created_xml
create_lzd_from_buffer lzd_lzd buffer beyond = tree (Lzd.create_from_buffer (buffer ++ beyond))
create_lzd_from_buffer lzd_xml buffer beyond = created_xml buffer

-- the text of `print`, with the root's children only
abbrev pub printed : LzDataType → Node → Bytes
printed lzd_lzd n = Lzd.Printing.print 0 (children n)
printed lzd_xml n = Xml.print 0 (children n)

module _ (os : Os) where
  open os use {World, read_binary, write_text}

  -- `readFileBuffer`: an empty file cannot be read, as `fread_s` then reads no item
  unfoldable pub read_file_buffer : Bytes → World → Option Bytes
  read_file_buffer fname w = elim (read_binary fname w) [
    | none ↦ none
    | some [] ↦ none
    | some (c ∷ cs) ↦ some (c ∷ cs)
  ]

  -- `createFromFile` of a format, and `createLzdFromFile`
  unfoldable pub create_lzd_from_file : LzDataType → Bytes → Bytes → World → Created
  unfolding read_file_buffer create_lzd_from_buffer
  create_lzd_from_file type fname beyond w = elim (read_file_buffer fname w) [
    | none ↦ null
    | some buffer ↦ create_lzd_from_buffer type buffer beyond
  ]

  -- `save`
  unfoldable pub save : LzDataType → Node → Bytes → World → Bool × World
  save type n file_name w = elim (write_text file_name (printed type n) w) [
    | none ↦ (false, w)
    | some w' ↦ (true, w')
  ]
