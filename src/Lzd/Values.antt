-- ===== src/Lzd/Values.antt =====
-- Reading back the values that `convertValue` escapes.
use online_judger.Common.{
  ℕ, Bool, ◌≡◌, ◌≢◌, ◌∙◌, refl, sym, ap, true, false, [], ◌∷◌, ◌++◌, inl, inr, arith, if◌then◌else◌,
  Bytes, Bool-cases, append-nil,
}
use online_judger.Text.{is_blank, trim_string}
use online_judger.Text.Trim.{Trimmed, trim_string-padded}
use online_judger.Text.Search.{Lacks}
use online_judger.Lzd.{is_stop, escapes, a_str, get_a_str}
use online_judger.Lzd.Printing.{convert_value}

escapes-other : (c : ℕ) (s : Bytes) → c ≢ b'\\' → escapes c s ≡ false
unfolding escapes
escapes-other c [] h = refl
escapes-other c (d ∷ s) h = ground arith

escapes-stop : (c : ℕ) (s : Bytes) → is_stop c ≡ true → escapes b'\\' (c ∷ s) ≡ true
unfolding escapes
escapes-stop c s h = rw h refl

kept : Bytes × Bytes → ℕ → Bytes × Bytes
kept r c = (c ∷ r.0, r.1)

a_str-escaped :
    (c : ℕ) (s : Bytes) → is_stop c ≡ true → a_str false (b'\\' ∷ c ∷ s) ≡ kept (a_str false s) c
unfolding a_str kept
a_str-escaped c s h = go (escapes b'\\' (c ∷ s)) (escapes-stop c s h)
  where
    go :
        (e : Bool)
        → e ≡ true
        → ◌≡◌ {A = Bytes × Bytes}
            (if e then (a_str e (c ∷ s)).0 else b'\\' ∷ (a_str e (c ∷ s)).0, (a_str e (c ∷ s)).1)
            (kept (a_str false s) c)
    go true f = refl
    go false f = absurd cc

a_str-plain :
    (c : ℕ) (s : Bytes)
    → is_stop c ≡ false
    → c ≢ b'\\'
    → c ≢ b'\n'
    → a_str false (c ∷ s) ≡ kept (a_str false s) c
unfolding a_str kept
a_str-plain c s h k l = rw (escapes-other c s k, h, a_str) (ground arith)

a_str-line : (s : Bytes) → a_str false (b'\n' ∷ s) ≡ ([], b'\n' ∷ s)
unfolding a_str
a_str-line s = refl

a_str-convert_value :
    (v rest : Bytes)
    → Lacks b'\\' v
    → Lacks b'\n' v
    → a_str false (convert_value v ++ b'\n' ∷ rest) ≡ (v, b'\n' ∷ rest)
unfolding convert_value kept
a_str-convert_value [] rest h k = a_str-line rest
a_str-convert_value (c ∷ v) rest (h, hs) (k, ks) =
    let later = a_str-convert_value v rest hs ks in
    let s : Bytes = convert_value v ++ b'\n' ∷ rest in
    elim (Bool-cases (is_stop c)) [
      | inl e ↦ rw (e) (a_str-escaped c s e ∙ ap (λ r. kept r c) later)
      | inr e ↦ rw (e) (a_str-plain c s e h k ∙ ap (λ r. kept r c) later)
    ]

-- Behind a blank, `getAStr` reads a value as `print` writes it, up to the end of the line.
pub get_a_str-convert_value :
    (v rest : Bytes)
    → Trimmed v
    → Lacks b'\\' v
    → Lacks b'\n' v
    → get_a_str (b' ' ∷ (convert_value v ++ b'\n' ∷ rest)) ≡ (v, b'\n' ∷ rest)
unfolding get_a_str kept is_blank is_stop
get_a_str-convert_value v rest hv h k =
    let s : Bytes = convert_value v ++ b'\n' ∷ rest in
    let front =
      a_str-plain b' ' s refl (λ e. ground arith) (λ e. ground arith)
      ∙ ap (λ r. kept r b' ') (a_str-convert_value v rest h k) in
    ap (λ r. (trim_string r.0, r.1)) front
    ∙ ap (λ x. (x, b'\n' ∷ rest))
        (ap (λ x. trim_string (b' ' ∷ x)) (sym (append-nil v))
          ∙ trim_string-padded (b' ' ∷ []) v [] (refl, tt) tt hv)
