-- ===== src/Net.antt =====
-- acm/ZNet.cpp, class ZClientBase: the threads that send and receive messages over a socket. A message
-- is sent behind a head of five characters, `@` and its length.
pub mod Header
pub mod RoundTrip
pub mod Server
pub mod Clients
use online_judger.Common.{
  ℕ, zero, suc, ◌+◌, ◌/◌, ◌%◌, Bool, true, false, List, [], ◌∷◌, ◌++◌, Option, none, some, ltb,
  ◌==◌, if◌then◌else◌, Bytes, bytes_eq, codes, length, take, drop,
}
use online_judger.Common.Int.{ℤ, pos, negsuc}
use online_judger.Number.{atoi, show_nat}
use online_judger.Text.{until_nul}

-- The calls of a socket. `fresh` is what memory holds that `new` gives.
pub record Socket : Type 1 where
  pub World : Type 0
  -- the bytes that come, at most so many; none is SOCKET_ERROR
  pub recv : ℕ → World → Option Bytes × World
  -- whether the call succeeds
  pub send : Bytes → World → Bool × World
  pub fresh : ℕ → World → Bytes

-- "%4.4d": at least four digits
abbrev pub four_digits : ℕ → Bytes
four_digits n =
    (b'0' + n / 1000) ∷ (b'0' + n / 100 % 10) ∷ (b'0' + n / 10 % 10) ∷ (b'0' + n % 10) ∷ []

unfoldable pub show_4 : ℕ → Bytes
show_4 n = if ltb n 10000 then four_digits n else show_nat n

-- what `threadSend` hands to the socket for a message: the first `len + 5` characters
unfoldable pub frame : Bytes → Bytes
unfolding show_4
frame msg = take (length msg + 5) (b'@' ∷ (show_4 (length msg) ++ msg))

-- `*(p + i) = c` in an array
abbrev pub set_at : ℕ → ℕ → Bytes → Bytes
set_at i c [] = []
set_at zero c (x ∷ xs) = c ∷ xs
set_at (suc i) c (x ∷ xs) = x ∷ set_at i c xs

-- an array of which the first characters are written anew
abbrev pub overwrite : Bytes → Bytes → Bytes
overwrite new old = new ++ drop (length new) old

-- how a thread stands: it waits, it left its loop, it met an error, or an array of negative length
pub data ThreadEnd : Type 0 where
  goes_on left failed bad_length : ThreadEnd

-- the array `head` behind the first `recv`, and its length as `atoi` reads it
abbrev pub close_head : Bytes → Bytes
close_head head = set_at 6 0 head

unfoldable pub head_length : Bytes → ℤ
unfolding until_nul
head_length head = atoi (until_nul (drop 1 head))

is_framed : Bytes → Bool
is_framed [] = false
is_framed (c ∷ cs) = c == b'@'

module _ (net : Socket) where
  open net use {World, recv, send, fresh}

  pub record Sent : Type 0 where
    pub frames : List Bytes
    pub ending : ThreadEnd
    pub world : World

  -- `threadSend`, by what `isRunning` says in each round and the message that the queue gives
  unfoldable pub thread_send : List (Bool × Bytes) → World → Sent
  unfolding frame
  thread_send [] w = record { frames = []; ending = goes_on; world = w }
  thread_send ((false, msg) ∷ ms) w = record { frames = []; ending = left; world = w }
  thread_send ((true, []) ∷ ms) w = thread_send ms w
  thread_send ((true, c ∷ cs) ∷ ms) w =
      let (ok, w') = send (frame (c ∷ cs)) w in
      let later = thread_send ms w' in
      if bytes_eq (c ∷ cs) (codes "$exit")
      then record { frames = []; ending = left; world = w }
      else if ok
      then record later { frames = frame (c ∷ cs) ∷ later.frames }
      else record { frames = frame (c ∷ cs) ∷ []; ending = failed; world = w' }

  pub record Received : Type 0 where
    pub messages : List Bytes
    pub ending : ThreadEnd
    pub world : World

  abbrev receive_fails : World → Received
  receive_fails w = record { messages = []; ending = failed; world = w }

  -- the end of a round, by the length that the head names: the body, as far as a NUL
  unfoldable pub receive_body : ℤ → World → (World → Received) → Received
  unfolding until_nul
  receive_body (negsuc n) w next = record { messages = []; ending = bad_length; world = w }
  receive_body (pos n) w next =
      let (received, w') = recv n w in
      elim received [
        | none ↦ receive_fails w'
        | some body ↦
            let later = next w' in
            record later {
              messages = until_nul (set_at n 0 (overwrite body (fresh (suc n) w))) ∷ later.messages;
            }
      ]

  -- `threadReceiv`, by what `isRunning` says in each round
  unfoldable pub thread_receive : List Bool → Bytes → World → Received
  unfolding is_framed receive_body head_length
  thread_receive [] head w = record { messages = []; ending = goes_on; world = w }
  thread_receive (false ∷ bs) head w = record { messages = []; ending = left; world = w }
  thread_receive (true ∷ bs) head w =
      let (received, w') = recv 5 w in
      elim received [
        | none ↦ receive_fails w'
        | some new ↦
            let read = overwrite new head in
            elim (is_framed read) [
              | false ↦ thread_receive bs read w'
              | true ↦
                  receive_body (head_length (close_head read)) w'
                    (thread_receive bs (close_head read))
            ]
      ]
