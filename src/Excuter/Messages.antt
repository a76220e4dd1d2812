-- ===== src/Excuter/Messages.antt =====
-- The compiler's messages, read a thousand characters at a time.
use online_judger.Common.{
  ℕ, zero, suc, ◌≤◌, ◌<◌, ◌≡◌, refl, ap, [], ◌∷◌, ◌++◌, some, arith, Bytes, length, take, drop,
}
use online_judger.Config.{Config}
use online_judger.Excuter.{read_chunks, compile_errors}
use online_judger.Text.{until_nul}
use online_judger.Text.Search.{Lacks, length-drop_le}
use online_judger.Os.{Os}
use online_judger.Task.{Task}

until_nul-Lacks : (s : Bytes) → Lacks 0 s → until_nul s ≡ s
unfolding until_nul
until_nul-Lacks [] h = refl
until_nul-Lacks (c ∷ cs) (h, hs) = let rest = until_nul-Lacks cs hs in ground (arith, rest)

take-Lacks : (n : ℕ) (s : Bytes) → Lacks 0 s → Lacks 0 (take n s)
take-Lacks zero s h = tt
take-Lacks (suc n) [] h = tt
take-Lacks (suc n) (c ∷ cs) (h, hs) = (h, take-Lacks n cs hs)

drop-Lacks : (n : ℕ) (s : Bytes) → Lacks 0 s → Lacks 0 (drop n s)
drop-Lacks zero s h = h
drop-Lacks (suc n) [] h = tt
drop-Lacks (suc n) (c ∷ cs) (h, hs) = drop-Lacks n cs hs

take-append-drop : (n : ℕ) (s : Bytes) → take n s ++ drop n s ≡ s
take-append-drop zero s = refl
take-append-drop (suc n) [] = refl
take-append-drop (suc n) (c ∷ cs) = ap (◌∷◌ c) (take-append-drop n cs)

read_chunks-Lacks : (fuel : ℕ) (s : Bytes) → length s < fuel → Lacks 0 s → read_chunks fuel s ≡ s
unfolding read_chunks
read_chunks-Lacks zero s h l = absurd (omega (arith, h))
read_chunks-Lacks (suc fuel) [] h l = refl
read_chunks-Lacks (suc fuel) (c ∷ cs) h l =
    let shorter : length (drop 1000 (c ∷ cs)) ≤ length cs = length-drop_le 999 cs in
    rw (until_nul-Lacks (take 1000 (c ∷ cs)) (take-Lacks 1000 (c ∷ cs) l)) (
      rw
        (read_chunks-Lacks fuel (drop 1000 (c ∷ cs)) (omega (arith, h, shorter))
          (drop-Lacks 1000 (c ∷ cs) l))
        (take-append-drop 1000 (c ∷ cs)))

module _ (os : Os) (config : Config) where
  open os use {World, read_text}

  -- The messages that a failed compilation keeps are the whole text of the compiler's output file,
  -- if it can be read and has no NUL character; so the fuel of the loop over the file is enough.
  pub compile_errors_whole :
      (t : Task) (w : World) (s : Bytes)
      → read_text t.compiler_output w ≡ some s
      → Lacks 0 s
      → compile_errors os config t w ≡ s
  compile_errors_whole t w s e h =
      rw (e, compile_errors) (read_chunks-Lacks (suc (length s)) s (omega arith) h)
