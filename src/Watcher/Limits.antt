-- ===== src/Watcher/Limits.antt =====
-- What the verdicts of the watcher say about the samples.
use Prim.Native.Nat.{max}
use online_judger.Common.{
  ℕ, ◌≤◌, ◌<◌, ◌≡◌, refl, ◌∙◌, ◌⊎◌, inl, inr, true, false, List, [], ◌∷◌, arith, Bool-cases,
}
use online_judger.Watcher.{Watcher, Sample, new_watcher, watch_round, watch_loop, do_watch}

-- every sample keeps the limits
abbrev pub Within : ℕ → ℕ → List Sample → Type 0
Within time memory [] = Unit {0}
Within time memory (s ∷ ss) = (s.time ≤ time) × (s.memory ≤ memory) × Within time memory ss

-- the samples before the first that breaks a limit, and that one
pub data Breaks (time memory : ℕ) : List Sample → Sample → Type 0 where
  now :
      {s : Sample} {ss : List Sample}
      → (time < s.time) ⊎ (memory < s.memory)
      → Breaks time memory (s ∷ ss) s
  later :
      {s b : Sample} {ss : List Sample}
      → s.time ≤ time
      → s.memory ≤ memory
      → Breaks time memory ss b
      → Breaks time memory (s ∷ ss) b

-- What is true of the watcher between two rounds.
record IsWatching (time memory : ℕ) (w : Watcher) : Type 0 where
  time_is : w.limit_time ≡ time
  memory_is : w.limit_memory ≡ memory
  no_time : w.time_limited ≡ false
  no_memory : w.memory_limited ≡ false
  below : w.run_memory ≤ memory

new_watcher-IsWatching : (time memory : ℕ) → IsWatching time memory (new_watcher time memory)
new_watcher-IsWatching time memory = record {
  time_is = refl;
  memory_is = refl;
  no_time = refl;
  no_memory = refl;
  below = omega arith;
}

module _ (time memory : ℕ) where
  watch_round-go_on :
      (w : Watcher) (s : Sample)
      → IsWatching time memory w
      → (watch_round w s).1 ≡ true
      → IsWatching time memory (watch_round w s).0 × (s.time ≤ time) × (s.memory ≤ memory)
  unfolding watch_round
  watch_round-go_on w s h e = ground arith

  watch_round-stop :
      (w : Watcher) (s : Sample)
      → IsWatching time memory w
      → (watch_round w s).1 ≡ false
      → (((watch_round w s).0.time_limited ≡ true)
          × ((watch_round w s).0.memory_limited ≡ false)
          × (time < s.time))
        ⊎ (((watch_round w s).0.time_limited ≡ false)
            × ((watch_round w s).0.memory_limited ≡ true)
            × (s.time ≤ time)
            × (memory < s.memory))
  unfolding watch_round
  watch_round-stop w s h e = ground arith

  -- the verdict of a watcher on the samples it was given
  pub data Verdict (w : Watcher) (ss : List Sample) : Type 0 where
    within :
        w.time_limited ≡ false → w.memory_limited ≡ false → Within time memory ss → Verdict w ss
    out_of_time :
        (s : Sample)
        → w.time_limited ≡ true
        → w.memory_limited ≡ false
        → Breaks time memory ss s
        → time < s.time
        → Verdict w ss
    out_of_memory :
        (s : Sample)
        → w.time_limited ≡ false
        → w.memory_limited ≡ true
        → Breaks time memory ss s
        → s.time ≤ time
        → memory < s.memory
        → Verdict w ss

  Verdict-cons :
      (w : Watcher) (s : Sample) (ss : List Sample)
      → s.time ≤ time
      → s.memory ≤ memory
      → Verdict w ss
      → Verdict w (s ∷ ss)
  Verdict-cons w s ss t m (within a b h) = within a b (t, m, h)
  Verdict-cons w s ss t m (out_of_time x a b h k) = out_of_time x a b (later t m h) k
  Verdict-cons w s ss t m (out_of_memory x a b h k l) = out_of_memory x a b (later t m h) k l

  watch_loop-Verdict :
      (ss : List Sample) (w : Watcher) → IsWatching time memory w → Verdict (watch_loop w ss) ss
  unfolding watch_loop
  watch_loop-Verdict [] w h = within h.no_time h.no_memory tt
  watch_loop-Verdict (s ∷ ss) w h = elim (Bool-cases (watch_round w s).1) [
    | inl e ↦
        let (h', t, m) = watch_round-go_on w s h e in
        rw (e, watch_loop) (Verdict-cons _ s ss t m (watch_loop-Verdict ss (watch_round w s).0 h'))
    | inr e ↦ rw (e, watch_loop) (stopped (watch_round-stop w s h e))
  ]
    where
      stopped :
          (((watch_round w s).0.time_limited ≡ true)
              × ((watch_round w s).0.memory_limited ≡ false)
              × (time < s.time))
            ⊎ (((watch_round w s).0.time_limited ≡ false)
                × ((watch_round w s).0.memory_limited ≡ true)
                × (s.time ≤ time)
                × (memory < s.memory))
          → Verdict (watch_round w s).0 (s ∷ ss)
      stopped (inl (a, b, k)) = out_of_time s a b (now (inl k)) k
      stopped (inr (a, b, l, k)) = out_of_memory s a b (now (inr k)) l k

  transport-Verdict :
      (v w : Watcher) (ss : List Sample)
      → w.time_limited ≡ v.time_limited
      → w.memory_limited ≡ v.memory_limited
      → Verdict v ss
      → Verdict w ss
  transport-Verdict v w ss t m (within a b h) = within (t ∙ a) (m ∙ b) h
  transport-Verdict v w ss t m (out_of_time x a b h k) = out_of_time x (t ∙ a) (m ∙ b) h k
  transport-Verdict v w ss t m (out_of_memory x a b h k l) = out_of_memory x (t ∙ a) (m ∙ b) h k l

  -- The watcher says "out of time" or "out of memory", never both, and does so for the first sample
  -- beyond a limit, the time first; without such a sample it says neither.
  pub do_watch-Verdict :
      (ss : List Sample) (last : Sample) → Verdict (do_watch (new_watcher time memory) ss last) ss
  unfolding do_watch
  do_watch-Verdict ss last =
      transport-Verdict (watch_loop start ss) (do_watch start ss last) ss refl refl
        (watch_loop-Verdict ss start starts)
    where
      start : Watcher
      start = new_watcher time memory

      starts : IsWatching time memory start
      starts = new_watcher-IsWatching time memory

-- the highest memory of the samples
abbrev pub peak : List Sample → ℕ
peak [] = 0
peak (s ∷ ss) = max s.memory (peak ss)

watch_round-Within :
    (time memory : ℕ) (w : Watcher) (s : Sample)
    → IsWatching time memory w
    → s.time ≤ time
    → s.memory ≤ memory
    → ((watch_round w s).1 ≡ true) × ((watch_round w s).0.run_memory ≡ max w.run_memory s.memory)
unfolding watch_round
watch_round-Within time memory w s h t m = ground arith

watch_loop-Within :
    (time memory : ℕ) (ss : List Sample) (w : Watcher)
    → IsWatching time memory w
    → Within time memory ss
    → IsWatching time memory (watch_loop w ss)
      × ((watch_loop w ss).run_memory ≡ max w.run_memory (peak ss))
unfolding watch_loop
watch_loop-Within time memory [] w h k = (h, omega arith)
watch_loop-Within time memory (s ∷ ss) w h (t, m, k) =
    let (on, high) = watch_round-Within time memory w s h t m in
    let h' = (watch_round-go_on time memory w s h on).0 in
    let (ih, ih') = watch_loop-Within time memory ss (watch_round w s).0 h' k in
    rw (on, watch_loop) (ih, omega (arith, high, ih'))

-- A process that keeps its limits in every sample is reported with no verdict, with the time of the
-- last update and the highest memory of all updates; so a time beyond the limit at the last update
-- alone is shown and has no consequence.
pub do_watch-Within :
    (time memory : ℕ) (ss : List Sample) (last : Sample)
    → Within time memory ss
    → let w = do_watch (new_watcher time memory) ss last in
      (w.time_limited ≡ false)
      × (w.memory_limited ≡ false)
      × (w.run_time ≡ last.time)
      × (w.run_memory ≡ max (peak ss) last.memory)
unfolding do_watch
do_watch-Within time memory ss last k =
    let start = new_watcher-IsWatching time memory in
    let (h, high) = watch_loop-Within time memory ss (new_watcher time memory) start k in
    (h.no_time, h.no_memory, refl, ground (arith, high))
