-- ===== src/Wire/RoundTrip/Restored.antt =====
-- What a node restores from its persistent state (raft/src/persistence.rs, raft/src/lib.rs).
use miniraft.Prelude.{◌≡◌, ◌≢◌, refl, map, Option, none, some}
use miniraft.Prelude.Results.{done}
use miniraft.Json.{null}
use miniraft.Json.Serde.{
  Serde, RoundTrips, whole, u64_round_trip, string_trips, option_round_trip, AllValid, OptValid,
  list_round_trip,
}
use miniraft.Kv.{WireCommand, read, write, cas, Command, stored}
use miniraft.Raft.State.{Persistent}
use miniraft.Rpc.{NodeId}
use miniraft.Wire.Commands.{
  serialize_wire, deserialize_wire, wire_body, serialize_command, deserialize_command,
  serialize_persistent, deserialize_persistent,
}
use miniraft.Wire.RoundTrip.{IsU64, entry_trips}

pub name_valid : (o : Option NodeId) → OptValid string_trips o
name_valid none = tt
name_valid (some v) = tt

module _ {K V : Type 0} {k : Serde K} {v : Serde V} (r : RoundTrips k whole)
    (w : RoundTrips v whole) where
  abbrev pub ValidWire : WireCommand K V → Type 0
  ValidWire (read key) = r.IsValid key
  ValidWire (write key value) = r.IsValid key × w.IsValid value
  ValidWire (cas key old desired) = r.IsValid key × w.IsValid old × w.IsValid desired

  wire_round_trip :
      (cmd : WireCommand K V)
      → ValidWire cmd
      → deserialize_wire k v (serialize_wire k v cmd) ≡ done cmd
  unfolding deserialize_wire serialize_wire wire_body
  wire_round_trip (read key) h = rw (r.round_trip key h) refl
  wire_round_trip (write key value) h = rw (r.round_trip key h.0, w.round_trip value h.1) refl
  wire_round_trip (cas key old desired) h =
      rw (r.round_trip key h.0, w.round_trip old h.1, w.round_trip desired h.2) refl

  wire-not_null : (cmd : WireCommand K V) → serialize_wire k v cmd ≢ null
  unfolding serialize_wire
  wire-not_null (read key) e = cc
  wire-not_null (write key value) e = cc
  wire-not_null (cas key old desired) e = cc

  abbrev pub command_serde : Serde (Command K V)
  command_serde = record {
    serialize = serialize_command k v;
    deserialize = deserialize_command k v;
  }

  pub command_round_trip :
      (cmd : Command K V)
      → ValidWire cmd.inner
      → deserialize_command k v (serialize_command k v cmd) ≡ done (stored cmd)
  unfolding deserialize_command serialize_command stored
  command_round_trip cmd h = rw (wire_round_trip cmd.inner h) refl

  pub command-not_null : (cmd : Command K V) → serialize_command k v cmd ≢ null
  unfolding serialize_command
  command-not_null cmd = wire-not_null cmd.inner

  abbrev pub command_trips : RoundTrips command_serde stored
  command_trips = record {
    IsValid = λ cmd. ValidWire cmd.inner;
    round_trip = command_round_trip;
    not_null = command-not_null;
  }

  -- A persistent state with 64-bit terms, and keys and values that are read back, is restored
  -- from its JSON with the same term, vote and log, but that each command of the log has lost
  -- its client.
  pub persistent_round_trip :
      (p : Persistent (Command K V))
      → IsU64 p.current_term
      → AllValid (entry_trips command_trips) p.log
      → deserialize_persistent command_serde (serialize_persistent command_serde p)
        ≡ done (record p { log = map (λ e. record { cmd = stored e.cmd; term = e.term }) p.log })
  unfolding deserialize_persistent serialize_persistent
  persistent_round_trip p t l =
      rw
        (
          u64_round_trip p.current_term t,
          option_round_trip string_trips p.voted_for (name_valid p.voted_for),
          list_round_trip (entry_trips command_trips) p.log l,
        )
        refl
