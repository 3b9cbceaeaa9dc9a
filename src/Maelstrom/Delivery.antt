-- ===== src/Maelstrom/Delivery.antt =====
-- What one node sends another reads (raft/src/maelstrom/infra.rs).
use miniraft.Prelude.{
  ℕ, suc, ◌<◌, ◌≡◌, ◌≢◌, refl, ap, ◌∙◌, arith, false, List, [], ◌∷◌, ◌++◌, map, ◌==◌, str_ne, ok,
}
use miniraft.Prelude.Results.{done}
use miniraft.Json.{Value, Parsed}
use miniraft.Json.Printer.{print}
use miniraft.Json.Printer.OneLine.{AllVisible, print-AllVisible}
use miniraft.Json.Printer.RoundTrip.{parse-print_line}
use miniraft.Json.Parser.{byte}
use miniraft.Json.Parser.Reads.{source}
use miniraft.Json.Parser.Values.{parse}
use miniraft.Json.Serde.{Serde, RoundTrips, whole}
use miniraft.Wire.Text.{Spells}
use miniraft.Rpc.{NodeId}
use miniraft.Wire.RoundTrip.{kept_message}
use miniraft.Maelstrom.{
  raft, client, Message, serialize_any, deserialize_any, MessageEnvelope, serialize_envelope,
  deserialize_envelope, send, read_line, interpret, or_invalid, read, Queues, route_incoming,
  routed_if_ok, receive,
}
use miniraft.Maelstrom.Tags.{ValidAny, kept_any, any_round_trip}
use miniraft.Maelstrom.Envelopes.{envelope_round_trip, envelope-Spelled, any-Spelled}

read_line-AllVisible :
    (text rest : List ℕ)
    → AllVisible text
    → read_line ((text ++ 10 ∷ []) ++ rest) ≡ (text ++ 10 ∷ [], rest)
unfolding read_line
read_line-AllVisible [] rest h = refl
read_line-AllVisible (b ∷ text) rest (h, hs) =
    let no_end : (b == 10) ≡ false = ground arith in
    rw (no_end, read_line-AllVisible text rest hs) refl

map-line : (text : List ℕ) → map byte (text ++ 10 ∷ []) ≡ source text (byte 10 ∷ [])
map-line [] = refl
map-line (b ∷ text) = ap (◌∷◌ (byte b)) (map-line text)

module _ {K V Cmd : Type 0} {k : Serde K} {v : Serde V} {c : Serde Cmd} {kept : Cmd → Cmd}
    (r : RoundTrips k whole) (w : RoundTrips v whole) (keys : Spells k r.IsValid 1)
    (values : Spells v w.IsValid 1) (t : RoundTrips c kept) {levels : ℕ}
    (spells : Spells c t.IsValid (suc levels)) where
  pub read-send :
      (e : MessageEnvelope (Message K V Cmd)) (rest : List ℕ)
      → e.source ≢ e.destination
      → levels < 251
      → ValidAny r w t e.body
      → (line : List ℕ) × (send (serialize_any k v c) e ≡ ok line)
        × (read (deserialize_envelope (deserialize_any k v c)) (line ++ rest)
            ≡ (ok (done (record e { body = kept_any r w t e.body })), rest))
  unfolding send read
  read-send e rest apart shallow valid =
      let value = serialize_envelope (serialize_any k v c) e in
      let spelled =
        envelope-Spelled (serialize_any k v c) e
          (any-Spelled r w keys values t spells e.body valid) in
      let (n, parses) =
        parse-print_line value spelled.valid spelled.plain (omega (arith, spelled.room)) in
      let back =
        envelope_round_trip (serialize_any k v c) (deserialize_any k v c) e (kept_any r w t e.body)
          (any_round_trip r w t e.body valid) in
      (
        print value ++ 10 ∷ [],
        rw (str_ne e.source e.destination apart) refl,
        ap (λ x. (interpret read_body (parse (map byte x.0)), x.1))
              (read_line-AllVisible (print value) rest
                (print-AllVisible value spelled.valid spelled.plain))
            ∙ ap (λ s. (interpret read_body (parse s), rest)) (map-line (print value))
            ∙ ap (λ p. (interpret read_body p, rest)) parses
            ∙ ap (λ b. (ok (or_invalid read_body b), rest)) back,
      )
    where
      read_body : Value → Parsed (MessageEnvelope (Message K V Cmd))
      read_body = deserialize_envelope (deserialize_any k v c)

  -- The message stands at the end of the queue of its kind, with the sender; the other queue is as it
  -- was.
  abbrev pub Queued : NodeId → Message K V Cmd → Queues K V Cmd → Queues K V Cmd → Type 0
  Queued from (raft msg) q q' =
      (q'.to_raft ≡ q.to_raft ++ (from, kept_message t msg) ∷ []) × (q'.to_client ≡ q.to_client)
  Queued from (client msg) q q' =
      (q'.to_client ≡ q.to_client ++ (from, msg) ∷ []) × (q'.to_raft ≡ q.to_raft)

  route_incoming-Queued :
      (from to : NodeId) (body : Message K V Cmd) (q : Queues K V Cmd)
      → Queued from body q (
          route_incoming (record { source = from; destination = to; body = kept_any r w t body }) q)
  unfolding route_incoming
  route_incoming-Queued from to (raft msg) q = (refl, refl)
  route_incoming-Queued from to (client msg) q = (refl, refl)

  -- A Raft or client message with 64-bit numbers, in an envelope between two nodes, is sent as
  -- a line. Another node that reads this line off its input, whatever follows, puts the
  -- message, with the sender's name, at the end of the queue of its kind and leaves the other
  -- queue as it was; of each command of a log the message has what the command's own form
  -- keeps. The JSON of a command has at most 251 levels, that of a key or a value one.
  pub receive-send :
      (e : MessageEnvelope (Message K V Cmd)) (rest : List ℕ) (q : Queues K V Cmd)
      → e.source ≢ e.destination
      → levels < 251
      → ValidAny r w t e.body
      → (line : List ℕ) × (q' : Queues K V Cmd) × (send (serialize_any k v c) e ≡ ok line)
        × (receive k v c (line ++ rest) q ≡ (ok (done q'), rest))
        × Queued e.source e.body q q'
  unfolding receive
  receive-send e rest q apart shallow valid =
      let (line, sends, reads) = read-send e rest apart shallow valid in
      (
        line,
        route_incoming (record e { body = kept_any r w t e.body }) q,
        sends,
        ap (λ x. (routed_if_ok q x.0, x.1)) reads,
        route_incoming-Queued e.source e.destination e.body q,
      )
