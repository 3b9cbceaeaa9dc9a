-- ===== src/Examples/Clients.antt =====
-- The theorems on commands and on forwarded requests, at concrete stores and nodes
-- (raft/src/lib.rs). Keys are texts and values are numbers.
use miniraft.Prelude.{ℕ, ◌≡◌, ◌≢◌, refl, some, List, [], ◌∷◌, map, arith, String, ok, Outcome}
use miniraft.Prelude.Equality.{find, ℕ_eq, string_eq}
use miniraft.Rpc.{NodeId, ClientMessage, read_request, read_response, id, set_id}
use miniraft.Kv.{WireCommand, read, write, cas, Command, Machine, from, stored}
use miniraft.Kv.Answers.{effects, run, run-effects, run-stored, Answered, requested, from_answers}
use miniraft.Raft.State.{State}
use miniraft.Proxy.{
  Proxies, Sends, insert_ordered, reply_to, forward, relay, proxy, Handled, client_step,
}
use miniraft.Proxy.Replies.{forward-relay}
use miniraft.Proxy.Inflight.{Inflight, forward_ok, client_step-Inflight}
use miniraft.Examples.{noon, second_follower, n1, n2, n3, n1-n2}

abbrev show_number : ℕ → String
show_number n = "a number"

abbrev empty_machine : Machine String ℕ
empty_machine = record { store = []; sent = [] }

abbrev asked : WireCommand String ℕ → Command String ℕ
asked w = requested n3 40 7 w

abbrev three_commands : List (Command String ℕ)
three_commands = asked (write "x" 1) ∷ asked (cas "x" 1 2) ∷ asked (read "x") ∷ []

run-effects_example :
    (λ key. find key (run show_number empty_machine three_commands).store)
    ≡ effects three_commands (λ key. find key empty_machine.store)
run-effects_example = run-effects show_number three_commands empty_machine

run-stored_example :
    ((run show_number empty_machine (map stored three_commands)).store
      ≡ (run show_number empty_machine three_commands).store)
    × ((run show_number empty_machine (map stored three_commands)).sent ≡ empty_machine.sent)
run-stored_example = run-stored show_number three_commands empty_machine empty_machine refl

from-read : from n3 40 (read_request "x" 7) ≡ ok (asked (read "x"))
unfolding from
from-read = refl

from_answers_example : Answered show_number n3 40 7 empty_machine (asked (read "x"))
from_answers_example =
    from_answers show_number n3 40 (read_request "x" 7) (asked (read "x")) empty_machine from-read

abbrev one_proxy : Proxies
one_proxy = (3, (9, n3)) ∷ []

abbrev two_proxies : Proxies
two_proxies = (3, (9, n3)) ∷ (5, (7, n3)) ∷ []

abbrev a_request : ClientMessage String ℕ
a_request = read_request "x" 7

abbrev a_response : ClientMessage String ℕ
a_response = read_response 5 2 80

one-forwarded :
    forward n2 n1 5 n3 a_request one_proxy ≡ ok (two_proxies, (n1, read_request "x" 5) ∷ [])
unfolding forward
one-forwarded = refl

abbrev just_sent : Sends String ℕ
just_sent = (n1, read_request "x" 5) ∷ []

forward-relay_example :
    ((fwd : ClientMessage String ℕ) × (just_sent ≡ (n1, fwd) ∷ [])
      × (id fwd ≡ 5)
      × (set_id fwd 7 ≡ a_request))
    × ((msg : ClientMessage String ℕ) × ((relay 5 a_response two_proxies).1 ≡ (n3, msg) ∷ [])
        × (id msg ≡ 7)
        × (reply_to msg ≡ some 5))
    × ((relay 5 a_response (relay 5 a_response two_proxies).0).1 ≡ [])
    × ((j : ℕ) → j ≢ 5 → find j (relay 5 a_response two_proxies).0 ≡ find j one_proxy)
forward-relay_example = forward-relay n2 n1 5 n3 a_request a_response one_proxy one-forwarded refl

one-Inflight : Inflight 4 one_proxy
one-Inflight = ((omega arith, omega arith), omega arith)

forward_ok_example :
    forward n2 n1 5 n3 a_request one_proxy
    ≡ ok (insert_ordered 5 (7, n3) one_proxy, (n1, read_request "x" 5) ∷ [])
forward_ok_example = forward_ok n2 n1 4 5 n3 a_request one_proxy one-Inflight (omega arith) n1-n2

abbrev to_command : NodeId → ℕ → ClientMessage String ℕ → Outcome ℕ
to_command client response_id msg = ok response_id

abbrev alone : State ℕ → State ℕ
alone s = s

one-handled :
    (h : Handled String ℕ ℕ) × (client_step to_command noon alone alone second_follower 5 n3
        a_request one_proxy
      ≡ ok h)
unfolding client_step proxy
one-handled = (_, refl)

client_step-Inflight_example : Inflight 6 one-handled.0.proxies
client_step-Inflight_example =
    client_step-Inflight to_command noon alone alone second_follower 4 5 n3 a_request one_proxy
      one-Inflight (omega arith) one-handled.1
