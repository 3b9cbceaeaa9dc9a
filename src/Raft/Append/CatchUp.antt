-- ===== src/Raft/Append/CatchUp.antt =====
-- A leader's message and a follower's handler together (raft/src/state.rs, `replicate_log`,
-- `handle_append_entries`).
use miniraft.Prelude.{
  ℕ, zero, suc, ◌+◌, ◌≤◌, ◌<◌, ◌≡◌, ◌≢◌, refl, sym, subst, ◌∙◌, ap, inl, inr, true, Option, none,
  some, Option-cases, List, [], ◌∷◌, arith, le→leb, length, length-map, length-drop, length_of_take,
  take, drop, take-split, take_all, map-take, map-drop, get_elem?, Outcome, ok, panic,
}
use miniraft.Rpc.{
  NodeId, RaftMessage, append_entries, append_entries_response, request_vote, request_vote_response,
}
use miniraft.Raft.Index.{LogIndex, u64_mod, to_machine_index, reach, dec}
use miniraft.Raft.Log.{Log, LogEntry, highest_index, get_from, slice_from, replace_from}
use miniraft.Raft.Log.Replace.{terms}
use miniraft.Raft.Log.Merge.{replace_from-terms}
use miniraft.Raft.State.{Common, State, Clock, can_stand}
use miniraft.Raft.Replication.{term_at, entries_from, message_for}
use miniraft.Raft.Commit.Applied.{Applied}
use miniraft.Raft.Append.{same_term, consistent, handle_append_entries}
use miniraft.Raft.Append.Stored.{SparesCommitted}
use miniraft.Raft.Append.Handler.{handle_append_entries-Applied}

reach-dec : (n : LogIndex) → reach (dec n) ≡ n.machine
reach-dec n = ground arith

same_term_refl : (o : Option ℕ) → same_term o o ≡ true
same_term_refl none = refl
same_term_refl (some t) = ground arith

slice_from-drop {ℓ} :
    {Cmd : Type ℓ} (log : Log Cmd) (k : ℕ) → k ≤ length log → slice_from log k ≡ some (drop k log)
slice_from-drop log k h = rw (le→leb k (length log) h)

module _ {Cmd : Type 0} where
  entries_from-drop :
      (log : Log Cmd) (n : LogIndex)
      → n.machine ≤ length log
      → entries_from log n ≡ drop n.machine log
  entries_from-drop log n h =
      let e : get_from log n ≡ some (drop n.machine log) =
        ap (slice_from log) {x = to_machine_index n} (omega arith)
        ∙ slice_from-drop log n.machine h in
      rw (e, entries_from)

  term_of : Option (LogEntry Cmd) → Option ℕ
  term_of none = none
  term_of (some e) = some e.term

  get-agree :
      (k : ℕ) (xs ys : Log Cmd) (i : ℕ)
      → terms (take k xs) ≡ terms (take k ys)
      → i < k
      → term_of (get_elem? xs i) ≡ term_of (get_elem? ys i)
  unfolding term_of
  get-agree zero xs ys i e h = elim h [ ]
  get-agree (suc k) [] [] i e h = refl
  get-agree (suc k) [] (y ∷ ys) i e h = absurd (cc)
  get-agree (suc k) (x ∷ xs) [] i e h = absurd (cc)
  get-agree (suc k) (x ∷ xs) (y ∷ ys) zero e h = cc
  get-agree (suc k) (x ∷ xs) (y ∷ ys) (suc i) e h = get-agree k xs ys i (cc) (omega arith)

  term_at-agree :
      (k : ℕ) (xs ys : Log Cmd) (i : LogIndex)
      → terms (take k xs) ≡ terms (take k ys)
      → i.machine < k
      → term_at xs (some i) ≡ term_at ys (some i)
  unfolding term_of
  term_at-agree k xs ys i e h =
      let at : to_machine_index i ≡ i.machine = omega arith in
      ground (arith, get-agree k xs ys (to_machine_index i) e (omega arith))

  -- The check of the previous entry passes between logs that agree in front of the entries.
  dec-consistent :
      (xs ys : Log Cmd) (n : LogIndex)
      → terms (take n.machine xs) ≡ terms (take n.machine ys)
      → consistent xs (dec n) (term_at ys (dec n)) ≡ true
  unfolding consistent
  dec-consistent xs ys n e = elim (Option-cases (dec n)) [
    | inl first ↦ rw first
    | inr (i, d) ↦
        let below : i.machine < n.machine = omega (arith, ap reach d, reach-dec n) in
        rw (d, term_at-agree n.machine xs ys i e below) (same_term_refl (term_at ys (some i)))
  ]

  terms-join :
      (k m : ℕ) (xs ys : Log Cmd)
      → k + m ≡ length ys
      → terms (take k xs) ≡ terms (take k ys)
      → terms (take m (drop k xs)) ≡ terms (drop k ys)
      → terms (take (length ys) xs) ≡ terms ys
  terms-join k m xs ys e h g =
      let size : length (terms ys) ≡ length ys = length-map ys _ in
      let split : take (k + m) (terms xs) ≡ take (k + m) (terms ys) =
        take-split k m (terms xs) (terms ys) (sym (map-take _ k xs) ∙ h ∙ map-take _ k ys) (
          ap (take m) (sym (map-drop _ k xs))
          ∙ sym (map-take _ m (drop k xs))
          ∙ g
          ∙ map-drop _ k ys
          ∙ sym (take_all m (drop k (terms ys)) (omega (arith, length-drop k (terms ys), size)))) in
      map-take _ (length ys) xs
      ∙ subst (λ n. take n (terms xs) ≡ take n (terms ys)) e split
      ∙ take_all (length ys) (terms ys) (omega (arith, size))

  length-terms-take :
      (k : ℕ) (xs ys : Log Cmd)
      → k ≤ length ys
      → terms (take k xs) ≡ terms (take k ys)
      → k ≤ length xs
  length-terms-take k xs ys h e = rw (length-map xs (λ (x : LogEntry Cmd). x.term)) at (
      length_of_take k (terms xs) (terms ys) (sym (map-take _ k xs) ∙ e ∙ map-take _ k ys)
        (omega (arith, length-map ys (λ (x : LogEntry Cmd). x.term))))

  replace_from-agrees :
      (xs ys result : Log Cmd) (i : LogIndex) (gone : List Cmd)
      → i.machine ≤ length ys
      → terms (take i.machine xs) ≡ terms (take i.machine ys)
      → length xs + 1 < u64_mod
      → replace_from xs i (drop i.machine ys) ≡ ok (result, gone)
      → terms (take (length ys) result) ≡ terms ys
  replace_from-agrees xs ys result i gone h e small run =
      let at : to_machine_index i ≡ i.machine = omega arith in
      let (front, back) =
        replace_from-terms xs (drop i.machine ys) i
          (omega (arith, length-terms-take i.machine xs ys h e)) small result gone run in
      terms-join i.machine (length (drop i.machine ys)) result ys
        (omega (arith, length-drop i.machine ys)) (ap terms (rw at at front) ∙ e) (rw at at back)

-- The message that a leader sends to a peer whose next index is `n`, as the peer's handler is given
-- it.
abbrev pub deliver :
    {Cmd M : Type 0}
    → (M → Cmd → M)
    → Clock
    → State Cmd
    → NodeId
    → M
    → RaftMessage Cmd
    → Outcome (State Cmd × M × List Cmd × RaftMessage Cmd)
deliver apply clock s peer machine (append_entries t commit prev prev_term entries) =
    handle_append_entries apply clock s peer t commit prev prev_term entries machine
deliver apply clock s peer machine (append_entries_response t index success) = panic
deliver apply clock s peer machine (request_vote t i u) = panic
deliver apply clock s peer machine (request_vote_response t granted) = panic

module _ {Cmd M : Type 0} (apply : M → Cmd → M) where
  -- A follower or candidate, whose log agrees in its terms with the leader's in front of the
  -- next index and which is in the leader's term, is given the leader's message for that next
  -- index. If the message contradicts nothing committed and the indexes stay in range, it
  -- accepts, its log then begins with the terms of the leader's whole log, and its machine has
  -- applied exactly the applied prefix of that log.
  pub message_for-catches_up :
      (clock : Clock) (s : State Cmd) (peer : NodeId) (c : Common Cmd) (n : LogIndex)
      (initial machine : M)
      → can_stand s.r ≡ true
      → s.c.id ≢ peer
      → c.current_term ≡ s.c.current_term
      → n.machine ≤ length c.log
      → terms (take n.machine s.c.log) ≡ terms (take n.machine c.log)
      → Applied apply initial s.c machine
      → SparesCommitted s.c (dec n) (drop n.machine c.log)
      → length s.c.log + length c.log + 2 < u64_mod
      → (s' : State Cmd) × (machine' : M) × (gone : List Cmd) × (deliver apply clock s peer machine
            (message_for c n)
          ≡ ok (
            s',
            machine',
            gone,
            append_entries_response s.c.current_term (highest_index s'.c.log) true,
          ))
        × (terms (take (length c.log) s'.c.log) ≡ terms c.log)
        × Applied apply initial s'.c machine'
  unfolding message_for
  message_for-catches_up clock s peer c n initial machine stand other same inside front v spares
        small =
      let entries = drop n.machine c.log in
      let at : reach (dec n) ≡ n.machine = reach-dec n in
      let (s', machine', gone, run, known, v', grown, kept, term_same, replaced) =
        handle_append_entries-Applied apply clock s peer c.commit_index (dec n)
          (term_at c.log (dec n)) entries initial machine stand other
          (dec-consistent s.c.log c.log n front) v (omega (arith, length-drop n.machine c.log))
          spares in
      (
        s',
        machine',
        gone,
        rw (same, entries_from-drop c.log n inside) run,
        replace_from-agrees s.c.log c.log s'.c.log (record { machine = n.machine }) gone inside
            front (omega arith) (rw at at replaced),
        v',
      )
