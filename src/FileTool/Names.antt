-- ===== src/FileTool/Names.antt =====
-- How the parts of a name make up the name, and what formatting does.
use online_judger.Common.{
  ℕ, zero, suc, ◌≡◌, ◌≢◌, refl, ap, Bool, true, false, [], ◌∷◌, ◌++◌, none, some, inl, inr, ◌⊎◌,
  arith, if◌then◌else◌, Bytes, take, drop, Option-cases, Bool-cases,
}
use online_judger.Text.Search.{Lacks}
use online_judger.Text.{find_last_of}
use online_judger.FileTool.{
  slash_use, slash_old, format_slash, ends_in_slash, drop_last, format_dir_name, get_path_file,
  get_file_path, get_file_name, get_file_ext,
}

-- where `find_last_of` splits a text
find_last_of-none : (ch : ℕ) (s : Bytes) → find_last_of ch s ≡ none → Lacks ch s
unfolding find_last_of
find_last_of-none ch [] e = tt
find_last_of-none ch (c ∷ cs) e = (ground arith, find_last_of-none ch cs (ground arith))

-- where `find_last_of` splits a text
find_last_of-splits :
    (ch : ℕ) (s : Bytes) (pos : ℕ)
    → find_last_of ch s ≡ some pos
    → (s ≡ take pos s ++ ch ∷ drop (suc pos) s) × Lacks ch (drop (suc pos) s)
unfolding find_last_of
find_last_of-splits ch [] pos e = cc
find_last_of-splits ch (c ∷ cs) (suc pos) e =
    let (splits, none_later) = find_last_of-splits ch cs pos (ground arith) in
    (ap (◌∷◌ c) splits, none_later)
find_last_of-splits ch (c ∷ cs) zero e = (ground arith, find_last_of-none ch cs (ground arith))

Lacks-format_slash : (s : Bytes) → Lacks slash_old (format_slash s)
unfolding format_slash
Lacks-format_slash [] = tt
Lacks-format_slash (c ∷ cs) = (λ e. ground arith, Lacks-format_slash cs)

no_slash :
    (s : Bytes)
    → Lacks slash_use (format_slash s)
    → (format_slash s ≡ s) × Lacks slash_use s × Lacks slash_old s
unfolding format_slash
no_slash [] h = (refl, tt, tt)
no_slash (c ∷ cs) h =
    let (same, back, fore) = no_slash cs h.1 in
    let head = h.0 in (ground arith, (λ e. ground arith, back), (λ e. ground arith, fore))

-- A path splits at its last slash of either kind: `getFilePath` is what stands before it and
-- `getPathFile` what stands behind it, both with backslashes for slashes. Without a slash the path
-- part is empty, and the file part is the name.
pub path_parts :
    (name : Bytes)
    → ((format_slash name ≡ get_file_path name ++ slash_use ∷ get_path_file name)
        × Lacks slash_use (get_path_file name))
      ⊎ ((get_file_path name ≡ [])
          × (get_path_file name ≡ name)
          × Lacks slash_use name
          × Lacks slash_old name)
unfolding get_file_path get_path_file
path_parts name = elim (Option-cases (find_last_of slash_use (format_slash name))) [
  | inl e ↦
      let plain = no_slash name (find_last_of-none slash_use (format_slash name) e) in
      inr (rw (e, get_file_path), rw (e, get_path_file) plain.0, plain.1, plain.2)
  | inr (pos, e) ↦
      let (splits, later) = find_last_of-splits slash_use (format_slash name) pos e in
      inl (rw (e, get_file_path, get_path_file) splits, rw (e, get_path_file) later)
]

-- A file name splits at its last dot into `getFileName` and `getFileExt`; without a dot the
-- extension is empty.
pub name_parts :
    (name : Bytes)
    → ((name ≡ get_file_name name ++ b'.' ∷ get_file_ext name) × Lacks b'.' (get_file_ext name))
      ⊎ ((get_file_name name ≡ name) × (get_file_ext name ≡ []) × Lacks b'.' name)
unfolding get_file_name get_file_ext
name_parts name = elim (Option-cases (find_last_of b'.' name)) [
  | inl e ↦ inr (rw (e, get_file_name), rw (e, get_file_ext), find_last_of-none b'.' name e)
  | inr (pos, e) ↦
      let (splits, later) = find_last_of-splits b'.' name pos e in
      inl (rw (e, get_file_name, get_file_ext) splits, rw (e, get_file_ext) later)
]

ends_in_slash-concat : (s : Bytes) → ends_in_slash (s ++ slash_use ∷ []) ≡ true
unfolding ends_in_slash
ends_in_slash-concat [] = refl
ends_in_slash-concat (c ∷ []) = refl
ends_in_slash-concat (c ∷ d ∷ cs) = ends_in_slash-concat (d ∷ cs)

Lacks-append : (ch : ℕ) (s t : Bytes) → Lacks ch s → Lacks ch t → Lacks ch (s ++ t)
Lacks-append ch [] t h k = k
Lacks-append ch (c ∷ s) t h k = (h.0, Lacks-append ch s t h.1 k)

Lacks-drop_last : (ch : ℕ) (s : Bytes) → Lacks ch s → Lacks ch (drop_last s)
unfolding drop_last
Lacks-drop_last ch [] h = tt
Lacks-drop_last ch (c ∷ []) h = tt
Lacks-drop_last ch (c ∷ d ∷ cs) h = (h.0, Lacks-drop_last ch (d ∷ cs) h.1)

format_dir_name-append : (s : Bytes) → s ≢ [] → ends_in_slash (format_dir_name s true) ≡ true
unfolding format_dir_name
format_dir_name-append [] h = absurd (h refl)
format_dir_name-append (c ∷ cs) h = elim (Bool-cases (ends_in_slash (format_slash (c ∷ cs)))) [
  | inl e ↦ rw (e, format_dir_name) e
  | inr e ↦ rw (e, format_dir_name) (ends_in_slash-concat (format_slash (c ∷ cs)))
]

Lacks-format_dir_name :
    (s : Bytes) (append_slash : Bool) → Lacks slash_old (format_dir_name s append_slash)
unfolding format_dir_name
Lacks-format_dir_name [] append_slash = tt
Lacks-format_dir_name (c ∷ cs) append_slash =
    let formatted = Lacks-format_slash (c ∷ cs) in
    go append_slash (ends_in_slash (format_slash (c ∷ cs))) formatted
  where
    ne : slash_use ≢ slash_old
    ne = omega arith

    go :
        (b e : Bool)
        → Lacks slash_old (format_slash (c ∷ cs))
        → Lacks slash_old (
            if b
            then if e then format_slash (c ∷ cs) else format_slash (c ∷ cs) ++ slash_use ∷ []
            else if e
            then drop_last (format_slash (c ∷ cs))
            else format_slash (c ∷ cs))
    go true true h = h
    go true false h = Lacks-append slash_old (format_slash (c ∷ cs)) (slash_use ∷ []) h (ne, tt)
    go false true h = Lacks-drop_last slash_old (format_slash (c ∷ cs)) h
    go false false h = h

-- A formatted directory name has no forward slash, and if a backslash was to be appended to a name
-- that is not empty, it ends in one.
pub format_dir_name_lem :
    (s : Bytes)
    → Lacks slash_old (format_dir_name s true)
      × Lacks slash_old (format_dir_name s false)
      × (s ≢ [] → ends_in_slash (format_dir_name s true) ≡ true)
format_dir_name_lem s =
    (Lacks-format_dir_name s true, Lacks-format_dir_name s false, format_dir_name-append s)
