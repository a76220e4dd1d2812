-- ===== src/Text/Stored.antt =====
-- What a file holds of a text that a stream writes: in text mode, Windows puts a carriage return in
-- front of every line feed.
use online_judger.Common.{
  ◌≡◌, refl, Bool, true, false, [], ◌∷◌, ◌++◌, ◌==◌, if◌then◌else◌, arith, Bytes,
}
use online_judger.Text.{is_blank}
use online_judger.Text.Trim.{AllBlank}
use online_judger.Text.Search.{Lacks}

-- the flag says that the stream is in text mode
unfoldable pub stored : Bool → Bytes → Bytes
stored false s = s
stored true [] = []
stored true (c ∷ cs) = if c == b'\n' then b'\r' ∷ b'\n' ∷ stored true cs else c ∷ stored true cs

-- a text that is stored as it is
abbrev pub Kept : Bool → Bytes → Type 0
Kept false s = Unit {0}
Kept true s = Lacks b'\n' s

pub stored-append : (m : Bool) (a b : Bytes) → stored m (a ++ b) ≡ stored m a ++ stored m b
unfolding stored
stored-append false a b = refl
stored-append true [] b = refl
stored-append true (c ∷ a) b = ground (arith, stored-append true a b)

pub stored-Kept : (m : Bool) (s : Bytes) → Kept m s → stored m s ≡ s
unfolding stored
stored-Kept false s h = refl
stored-Kept true [] h = refl
stored-Kept true (c ∷ s) (h, hs) = let rest = stored-Kept true s hs in ground (arith, rest)

pub AllBlank-stored : (m : Bool) (s : Bytes) → AllBlank s → AllBlank (stored m s)
unfolding stored is_blank
AllBlank-stored false s h = h
AllBlank-stored true [] h = tt
AllBlank-stored true (c ∷ s) (h, hs) = ground (arith, h, AllBlank-stored true s hs)
