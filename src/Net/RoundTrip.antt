-- ===== src/Net/RoundTrip.antt =====
-- That messages arrive as they were sent.
use online_judger.Common.{
  ℕ, suc, ◌+◌, ◌<◌, ◌≤◌, ◌≡◌, ◌∙◌, refl, sym, ap, Bool, true, false, List, [], ◌∷◌, ◌++◌,
  append-nil, append_assoc, some, ◌==◌, Bytes, bytes_eq, codes, length, length-append, take, drop,
  map, lt→ltb, take-append_eq, drop-append_eq, arith,
}
use online_judger.Common.Int.{pos}
use online_judger.Net.{
  Socket, four_digits, show_4, frame, set_at, overwrite, close_head, head_length, is_framed,
  thread_send, receive_body, thread_receive, Received,
}
use online_judger.Net.Header.{head_length-digits}
use online_judger.Number.{is_digit}
use online_judger.Text.{until_nul}

-- no character is NUL
abbrev pub HasNoNul : Bytes → Type 0
HasNoNul [] = Unit {0}
HasNoNul (c ∷ cs) = ((c == 0) ≡ false) × HasNoNul cs

-- a message that the head can announce, and that is not the one that ends the thread
pub record IsMessage (msg : Bytes) : Type 0 where
  pub short : length msg < 10000
  pub has_no_nul : HasNoNul msg
  pub is_not_exit : bytes_eq msg (codes "$exit") ≡ false
  pub is_not_empty : 1 ≤ length msg

abbrev pub AllMessages : List Bytes → Type 0
AllMessages [] = Unit {0}
AllMessages (msg ∷ ms) = IsMessage msg × AllMessages ms

abbrev pub concat : List Bytes → Bytes
concat [] = []
concat (b ∷ bs) = b ++ concat bs

-- the thread goes on for each of these messages
abbrev pub all_running : List Bytes → List (Bool × Bytes)
all_running [] = []
all_running (msg ∷ ms) = (true, msg) ∷ all_running ms

abbrev pub rounds : List Bytes → List Bool
rounds [] = []
rounds (msg ∷ ms) = true ∷ rounds ms

frame-short :
    (msg : Bytes) → length msg < 10000 → frame msg ≡ (b'@' ∷ four_digits (length msg)) ++ msg
unfolding frame show_4
frame-short msg h =
    let whole = (b'@' ∷ four_digits (length msg)) ++ msg in
    rw (lt→ltb (length msg) 10000 h, frame, show_4)
      (ap (take (length msg + 5)) (sym (append-nil whole))
        ∙ take-append_eq (length msg + 5) whole [] (omega arith))

-- a body behind which the array is closed, or ends
until_nul-set_at :
    (msg old : Bytes) → HasNoNul msg → until_nul (set_at (length msg) 0 (msg ++ old)) ≡ msg
unfolding until_nul
until_nul-set_at [] [] h = refl
until_nul-set_at [] (x ∷ old) h = refl
until_nul-set_at (c ∷ cs) old (k, h) = rw (k) (ap (◌∷◌ c) (until_nul-set_at cs old h))

module _ (net : Socket) where
  open net use {World, recv, send, fresh}

  -- where the calls of `send` succeed, the frames of the messages are sent
  thread_send-frames :
      (ms : List Bytes) (w : World)
      → AllMessages ms
      → ((b : Bytes) (v : World) → (send b v).0 ≡ true)
      → (thread_send net (all_running ms) w).frames ≡ map frame ms
  unfolding thread_send
  thread_send-frames [] w h ok = refl
  thread_send-frames ([] ∷ ms) w (k, h) ok = absurd (omega (arith, k.is_not_empty))
  thread_send-frames ((c ∷ cs) ∷ ms) w (k, h) ok =
      rw (k.is_not_exit, ok (frame (c ∷ cs)) w)
        (ap (◌∷◌ (frame (c ∷ cs))) (thread_send-frames ms (send (frame (c ∷ cs)) w).1 h ok))

  -- `recv` takes the bytes from those that the peer has sent, as many as it is asked for if there are
  -- so many
  pub record Delivers : Type 0 where
    pub pending : World → Bytes
    pub delivers :
        (n : ℕ) (w : World) → n ≤ length (pending w) → (recv n w).0 ≡ some (take n (pending w))
    pub takes :
        (n : ℕ) (w : World) → n ≤ length (pending w) → pending (recv n w).1 ≡ drop n (pending w)

  module _ (peer : Delivers) where
    open peer use {pending, delivers, takes}

    -- a call of `recv` for as many bytes as the first part of what is pending has
    got :
        (n : ℕ) (xs ys : Bytes) (w : World)
        → length xs ≡ n
        → pending w ≡ xs ++ ys
        → ((recv n w).0 ≡ some xs) × (pending (recv n w).1 ≡ ys)
    got n xs ys w e p =
        let enough : n ≤ length (pending w) = rw (p) (omega (arith, e, length-append xs ys)) in
        (
          delivers n w enough ∙ ap some (ap (take n) p ∙ take-append_eq n xs ys e),
          takes n w enough ∙ (ap (drop n) p ∙ drop-append_eq n xs ys e),
        )

    closed_head :
        (n h i : ℕ) (first rest : Bytes)
        → length first ≡ 5
        → close_head (overwrite (b'@' ∷ four_digits n) (first ++ h ∷ i ∷ rest))
          ≡ (b'@' ∷ four_digits n) ++ h ∷ 0 ∷ rest
    closed_head n h i first rest five = rw (drop-append_eq 5 first (h ∷ i ∷ rest) five) refl

    body_arrives :
        (msg : Bytes) (w : World) (next : World → Received net)
        → HasNoNul msg
        → (recv (length msg) w).0 ≡ some msg
        → (receive_body net (pos (length msg)) w next).messages
          ≡ msg ∷ (next (recv (length msg) w).1).messages
    unfolding receive_body
    body_arrives msg w next clean r =
        rw (r, receive_body)
          (ap (λ (m : Bytes). m ∷ (next (recv (length msg) w).1).messages)
            (until_nul-set_at msg (drop (length msg) (fresh (suc (length msg)) w)) clean))

    receive_one :
        (bs : List Bool) (msg more first rest : Bytes) (h i : ℕ) (w : World)
        → IsMessage msg
        → length first ≡ 5
        → is_digit h ≡ false
        → pending w ≡ frame msg ++ more
        → (w' : World) × (pending w' ≡ more)
          × ((thread_receive net (true ∷ bs) (first ++ h ∷ i ∷ rest) w).messages
              ≡ msg
                ∷ (thread_receive net bs
                    ((b'@' ∷ four_digits (length msg)) ++ h ∷ 0 ∷ rest)
                    w').messages)
    unfolding thread_receive receive_body is_framed
    receive_one bs msg more first rest h i w m five plain p =
        let head = b'@' ∷ four_digits (length msg) in
        let split : pending w ≡ head ++ (msg ++ more) =
          p
          ∙ (ap (λ (f : Bytes). f ++ more) (frame-short msg m.short)
              ∙ append_assoc head msg more) in
        let (r5, p5) = got 5 head (msg ++ more) w refl split in
        let (rn, pn) = got (length msg) msg more (recv 5 w).1 refl p5 in
        let named : head_length (head ++ h ∷ 0 ∷ rest) ≡ pos (length msg) =
          ap head_length (sym (closed_head (length msg) h i first rest five))
          ∙ (head_length-digits (length msg) h i first rest m.short five ∙ rw (plain) refl) in
        let next = thread_receive net bs (head ++ h ∷ 0 ∷ rest) in
        (
          (recv (length msg) (recv 5 w).1).1,
          pn,
          rw (r5, thread_receive)
              (rw (drop-append_eq 5 first (h ∷ i ∷ rest) five)
                (rw (named) (body_arrives msg (recv 5 w).1 next m.has_no_nul rn))),
        )

    receive_all :
        (ms : List Bytes) (more first rest : Bytes) (h i : ℕ) (w : World)
        → AllMessages ms
        → length first ≡ 5
        → is_digit h ≡ false
        → pending w ≡ concat (map frame ms) ++ more
        → (thread_receive net (rounds ms) (first ++ h ∷ i ∷ rest) w).messages ≡ ms
    unfolding thread_receive
    receive_all [] more first rest h i w all five plain p = refl
    receive_all (msg ∷ ms) more first rest h i w (m, all) five plain p =
        let behind = concat (map frame ms) ++ more in
        let (w', p', first_one) =
          receive_one (rounds ms) msg behind first rest h i w m five plain
            (p ∙ append_assoc (frame msg) (concat (map frame ms)) more) in
        first_one
        ∙ ap (◌∷◌ msg)
            (receive_all ms more (b'@' ∷ four_digits (length msg)) rest h 0 w' all refl plain p')

    -- Messages of 1 to 9999 characters without NUL, none of them `$exit`, that `threadSend` has sent
    -- over a socket whose calls succeed arrive in `threadReceiv` as they are and in order, where the
    -- socket delivers the bytes whole and the array for the head holds no digit at index 5.
    pub thread_receive-thread_send :
        (ms : List Bytes) (more first rest : Bytes) (h i : ℕ) (v w : World)
        → AllMessages ms
        → ((b : Bytes) (u : World) → (send b u).0 ≡ true)
        → length first ≡ 5
        → is_digit h ≡ false
        → pending w ≡ concat (thread_send net (all_running ms) v).frames ++ more
        → (thread_receive net (rounds ms) (first ++ h ∷ i ∷ rest) w).messages ≡ ms
    thread_receive-thread_send ms more first rest h i v w all ok five plain p =
        receive_all ms more first rest h i w all five plain
          (p ∙ ap (λ (fs : List Bytes). concat fs ++ more) (thread_send-frames ms v all ok))
