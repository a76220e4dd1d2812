-- ===== src/Xml/Scan.antt =====
-- What the parser finds in a text that begins with a tag or with a value.
use online_judger.Common.{
  ℕ, suc, ◌-◌, ◌≡◌, ◌≢◌, ◌∙◌, refl, sym, ap, true, false, [], ◌∷◌, ◌++◌, some, append_assoc,
  append-nil, arith, leb, Bytes, length, drop, length-append,
}
use online_judger.Text.{find_first_of, is_blank, ltrim_string, trim_string}
use online_judger.Text.Trim.{AllBlank, Trimmed, rtrim_string-rstrip, trim_string-padded}
use online_judger.Text.Search.{
  Lacks, Lacks-append, AllBlank-Lacks, find_first_of-append, find_first_of-Lacks, take-append,
  drop-append, drop-append_suc,
}
use online_judger.Xml.{
  get_range, find_tag, found, no_mark, find_value, tag_of, slash_last, start_tag, end_tag,
}

abbrev pub NotSlash : Bytes → Type 0
NotSlash [] = Unit {0}
NotSlash (c ∷ cs) = c ≢ b'/'

-- a tag that can be told from an end tag and from a tag without a value, and that ends at its mark
pub record IsTag (t : Bytes) : Type 0 where
  pub trimmed : Trimmed t
  pub no_end_mark : Lacks b'>' t
  pub first_not_slash : NotSlash t
  pub last_not_slash : slash_last t ≡ false

trim_string_self : (t : Bytes) → Trimmed t → trim_string t ≡ t
trim_string_self t h =
    ap {B = Bytes} trim_string (sym (append-nil t)) ∙ trim_string-padded [] t [] tt tt h

find_tag-split :
    (t rest s : Bytes) (b e : ℕ)
    → find_first_of b'<' s ≡ some b
    → find_first_of b'>' s ≡ some e
    → get_range s (suc b) e ≡ some t
    → drop (suc e) s ≡ rest
    → find_tag s ≡ found (trim_string t) rest
unfolding find_tag
find_tag-split t rest s b e hb he hr hd = rw (hb, he, hr, hd, find_tag) refl

get_range-middle :
    (w t rest : Bytes) (c d : ℕ)
    → get_range (w ++ c ∷ (t ++ d ∷ rest)) (suc (length w)) (length (w ++ c ∷ t)) ≡ some t
unfolding get_range
get_range-middle w t rest c d =
    let size = length-append w (c ∷ t) in
    let behind = drop-append_suc w c (t ++ d ∷ rest) in
    let long : leb (suc (length w)) (length (w ++ c ∷ t)) ≡ true = ground (arith, size) in
    let n : length (w ++ c ∷ t) - suc (length w) ≡ length t = omega (arith, size) in
    rw (long, behind, n) (ap some (take-append t (d ∷ rest)))

-- Behind blanks the parser finds the tag between the two marks.
pub find_tag_lem :
    (w t rest : Bytes)
    → AllBlank w
    → Trimmed t
    → Lacks b'>' t
    → find_tag (w ++ b'<' ∷ (t ++ b'>' ∷ rest)) ≡ found t rest
unfolding is_blank
find_tag_lem w t rest hw ht hl =
    let s : Bytes = w ++ b'<' ∷ (t ++ b'>' ∷ rest) in
    let same : s ≡ (w ++ b'<' ∷ t) ++ b'>' ∷ rest = sym (append_assoc w (b'<' ∷ t) (b'>' ∷ rest)) in
    let front =
      Lacks-append b'>' w (b'<' ∷ t) (AllBlank-Lacks b'>' w refl hw) ((λ e. ground arith), hl) in
    let end : find_first_of b'>' s ≡ some (length (w ++ b'<' ∷ t)) =
      rw same (find_first_of-append b'>' (w ++ b'<' ∷ t) rest front) in
    let behind : drop (suc (length (w ++ b'<' ∷ t))) s ≡ rest =
      rw same (drop-append_suc (w ++ b'<' ∷ t) b'>' rest) in
    let begin = find_first_of-append b'<' w (t ++ b'>' ∷ rest) (AllBlank-Lacks b'<' w refl hw) in
    find_tag-split t rest s (length w) (length (w ++ b'<' ∷ t)) begin end
      (get_range-middle w t rest b'<' b'>') behind
    ∙ ap (λ x. found x rest) (trim_string_self t ht)

-- Blanks only: no tag.
pub find_tag-AllBlank : (w : Bytes) → AllBlank w → find_tag w ≡ no_mark
unfolding find_tag is_blank
find_tag-AllBlank w h =
    rw (find_first_of-Lacks b'<' w (AllBlank-Lacks b'<' w refl h), find_tag) refl

-- The value between blanks, in front of the next mark.
pub find_value_lem :
    (a v b rest : Bytes)
    → AllBlank a
    → AllBlank b
    → Trimmed v
    → Lacks b'<' v
    → find_value ((a ++ (v ++ b)) ++ b'<' ∷ rest) ≡ some (v, b'<' ∷ rest)
unfolding find_value is_blank
find_value_lem a v b rest ha hb hv hl =
    let whole : Bytes = a ++ (v ++ b) in
    let no_mark_in_front =
      Lacks-append b'<' a (v ++ b) (AllBlank-Lacks b'<' a refl ha)
        (Lacks-append b'<' v b hl (AllBlank-Lacks b'<' b refl hb)) in
    rw (find_first_of-append b'<' whole rest no_mark_in_front, find_value)
      (rw
        (
          take-append whole (b'<' ∷ rest),
          drop-append whole (b'<' ∷ rest),
          trim_string-padded a v b ha hb hv,
        )
        refl)

pub tag_of-start : (t : Bytes) → IsTag t → tag_of t ≡ start_tag t
unfolding tag_of slash_last
tag_of-start [] h = refl
tag_of-start (c ∷ cs) h = ground (arith, h.first_not_slash, h.last_not_slash)

pub tag_of-end : (t : Bytes) → Trimmed t → tag_of (b'/' ∷ t) ≡ end_tag t
unfolding tag_of
tag_of-end t h = ap end_tag (rtrim_string-rstrip t ∙ h.1)

pub slash-Trimmed : (t : Bytes) → Trimmed t → Trimmed (b'/' ∷ t)
unfolding is_blank ltrim_string
slash-Trimmed t h = (refl, rw (h.1) (go t))
  where
    go :
        (u : Bytes)
        → (elim u as (λ _. Bytes) [ [] ↦ b'/' ∷ [] | d ∷ ds ↦ b'/' ∷ d ∷ ds ]) ≡ b'/' ∷ u
    go [] = refl
    go (d ∷ ds) = refl
