-- ===== src/Tests/Sockets.antt =====
-- Two messages over a socket that delivers its bytes whole.
use online_judger.Common.{
  ◌≡◌, refl, true, List, [], ◌∷◌, ◌++◌, some, Bytes, codes, take, drop, arith,
}
use online_judger.Common.Int.{pos}
use online_judger.Net.{
  Socket, frame, show_4, four_digits, head_length, close_head, overwrite, thread_send,
  thread_receive,
}
use online_judger.Net.Server.{
  Server, Reachable, fresh, starts, accepts, accept_round, check_dead, add_new_client, get_client,
}
use online_judger.Net.Clients.{get_client-finds}
use online_judger.Net.Header.{head_length-digits}
use online_judger.Net.RoundTrip.{AllMessages, rounds, Delivers, thread_receive-thread_send}

-- the world holds the bytes that are still to come
abbrev net : Socket
net = record {
  World = Bytes;
  recv = λ n w. (some (take n w), drop n w);
  send = λ b w. (true, w);
  fresh = λ n w. [];
}

abbrev peer : Delivers net
peer = record { pending = λ w. w; delivers = λ n w h. refl; takes = λ n w h. refl }

abbrev two_messages : List Bytes
two_messages = codes "hi" ∷ codes "bye" ∷ []

two_messages-AllMessages : AllMessages two_messages
two_messages-AllMessages = (
  record {
    short = omega arith;
    has_no_nul = (refl, (refl, tt));
    is_not_exit = refl;
    is_not_empty = omega arith;
  },
  (
    record {
      short = omega arith;
      has_no_nul = (refl, (refl, (refl, tt)));
      is_not_exit = refl;
      is_not_empty = omega arith;
    },
    tt,
  ),
)

abbrev sent_bytes : Bytes
sent_bytes = codes "@0002hi@0003bye"

thread_receive-thread_send_example :
    (thread_receive net
      (rounds two_messages)
      (codes "xxxxx" ++ b'x' ∷ b'x' ∷ [])
      sent_bytes).messages
    ≡ two_messages
unfolding thread_send frame show_4
thread_receive-thread_send_example =
    thread_receive-thread_send net peer two_messages [] (codes "xxxxx") [] b'x' b'x' [] sent_bytes
      two_messages-AllMessages (λ b u. refl) refl refl refl

-- a digit left at index 5 makes 27 of 2
head_length-digits_example :
    head_length (close_head (overwrite (b'@' ∷ four_digits 2) (codes "xxxxx" ++ b'7' ∷ b'x' ∷ [])))
    ≡ pos 27
head_length-digits_example = head_length-digits 2 b'7' b'x' (codes "xxxxx") [] (omega arith) refl

abbrev one_client : Server
one_client = record {
  running = true;
  pool = record { id = 101; socket = 5; running = true } ∷ [];
  id_allocator = 101;
}

one_client-Reachable : Reachable 1 one_client
unfolding accept_round check_dead add_new_client
one_client-Reachable = accepts 5 (starts fresh)

get_client-finds_example :
    get_client one_client 101 ≡ some (record { id = 101; socket = 5; running = true })
get_client-finds_example =
    get_client-finds 1 one_client [] [] (record { id = 101; socket = 5; running = true })
      one_client-Reachable (omega arith) refl
