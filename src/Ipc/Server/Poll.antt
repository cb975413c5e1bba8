-- ===== src/Ipc/Server/Poll.antt =====
-- What one client sees of the polls: its lines are those of its own bytes.
use mathlib.Core.Path.{subst}
use native.Mathlib.Decide.{ℕ_discrete}
use openhd_glide.Base.{
  sym, append-nil, ℕ, suc, ◌<◌, ◌≡◌, ◌≢◌, refl, ◌∙◌, Bool, false, List, [], ◌∷◌, ◌++◌, none, some,
  ◌==◌, ◌||◌, if◌then◌else◌, Bytes, arith, flatten,
}
use openhd_glide.Ipc.Lines.{drain_lines}
use openhd_glide.Ipc.Socket.{Incoming, append_chunks, append_chunks-flatten}
use openhd_glide.Ipc.Server.{
  Polled, Server, ServerEvent, ClientState, new_client, accept_all, tagged, read_clients,
  remove_client, remove_dead, poll, poll_listening, find_client,
}
use openhd_glide.Ipc.Server.Invariant.{Ascending, IsValid, accept_all-IsValid}

-- The lines of the events of one client.
abbrev pub events_of : ℕ → List ServerEvent → List Bytes
events_of id [] = []
events_of id (e ∷ es) = if e.client_id == id then e.line ∷ events_of id es else events_of id es

abbrev elem : ℕ → List ℕ → Bool
elem id [] = false
elem id (j ∷ js) = j == id || elem id js

events_of-append :
    (id : ℕ) (xs ys : List ServerEvent)
    → events_of id (xs ++ ys) ≡ events_of id xs ++ events_of id ys
events_of-append id [] ys = refl
events_of-append id (x ∷ xs) ys = ground (arith, events_of-append id xs ys)

events_of-tagged : (id : ℕ) (lines : List Bytes) → events_of id (tagged id lines) ≡ lines
events_of-tagged id [] = refl
events_of-tagged id (l ∷ ls) = ground (arith, events_of-tagged id ls)

events_of-tagged_ne : (id j : ℕ) (lines : List Bytes) → j ≢ id → events_of id (tagged j lines) ≡ []
events_of-tagged_ne id j [] h = refl
events_of-tagged_ne id j (l ∷ ls) h = ground (arith, events_of-tagged_ne id j ls h)

-- What `read_clients` does for the one client `c`.
abbrev pub drained : (ℕ → Incoming) → ClientState → List Bytes × Bytes
drained incoming c = drain_lines (append_chunks c.read_buffer (incoming c.fd).chunks)

module _ (incoming : ℕ → Incoming) (id : ℕ) where
  -- No client above `id` has its events, nor is it found there.
  events_of-above :
      (lo hi : ℕ) (cs : List ClientState)
      → id < lo
      → Ascending lo cs hi
      → (events_of id (read_clients incoming cs).events ≡ [])
        × (elem id (read_clients incoming cs).dead ≡ false)
  unfolding read_clients
  events_of-above lo hi [] h a = (refl, refl)
  events_of-above lo hi (c ∷ cs) h a =
      let (none_later, not_dead) = events_of-above (suc c.id) hi cs (omega arith) a.1 in
      let lines = (drained incoming c).0 in
      (
        events_of-append id (tagged c.id lines) (read_clients incoming cs).events
            ∙ rw (events_of-tagged_ne id c.id lines (omega arith), none_later),
        ground (arith, not_dead),
      )

  -- The client `c` among `cs`: its events, its state after the reads, and whether it ended.
  abbrev Serves : List ClientState → ClientState → Type 0
  Serves cs c =
      let r = read_clients incoming cs in
      (events_of id r.events ≡ (drained incoming c).0)
      × (find_client id r.clients ≡ some (record c { read_buffer = (drained incoming c).1 }))
      × (elem id r.dead ≡ (incoming c.fd).ended)

  Serves-hit :
      (lo hi : ℕ) (d : ClientState) (ds : List ClientState)
      → d.id ≡ id
      → Ascending lo (d ∷ ds) hi
      → Serves (d ∷ ds) d
  unfolding read_clients find_client
  Serves-hit lo hi d ds hit a =
      let (none_later, not_dead) = events_of-above (suc d.id) hi ds (omega arith) a.1 in
      let lines = (drained incoming d).0 in
      (
        events_of-append id (tagged d.id lines) (read_clients incoming ds).events
            ∙ rw (hit, events_of-tagged id lines, none_later) (append-nil lines),
        ground arith,
        ground (arith, not_dead),
      )

  Serves-miss :
      (d c : ClientState) (ds : List ClientState) → d.id ≢ id → Serves ds c → Serves (d ∷ ds) c
  unfolding read_clients find_client
  Serves-miss d c ds miss (events, state, ended) =
      let lines = (drained incoming d).0 in
      (
        events_of-append id (tagged d.id lines) (read_clients incoming ds).events
            ∙ rw (events_of-tagged_ne id d.id lines miss) events,
        ground (arith, state),
        ground (arith, ended),
      )

  read_clients-Serves :
      (lo hi : ℕ) (cs : List ClientState) (c : ClientState)
      → Ascending lo cs hi
      → find_client id cs ≡ some c
      → Serves cs c
  read_clients-Serves lo hi [] c a e = unfold find_client in cc e
  read_clients-Serves lo hi (d ∷ ds) c a e = elim (ℕ_discrete d.id id) [
    | yes hit ↦
        subst (Serves (d ∷ ds)) {x = d} {y = c} (unfold find_client in ground arith)
          (Serves-hit lo hi d ds hit a)
    | no miss ↦
        Serves-miss d c ds miss
          (read_clients-Serves (suc d.id) hi ds c a.1 (unfold find_client in ground arith))
  ]

find_client-append :
    (id : ℕ) (cs ds : List ClientState) (c : ClientState)
    → find_client id cs ≡ some c
    → find_client id (cs ++ ds) ≡ some c
unfolding find_client
find_client-append id [] ds c e = cc
find_client-append id (d ∷ cs) ds c e = ground (arith, find_client-append id cs ds c)

find_client-accept_all :
    (id : ℕ) (fds : List ℕ) (s : Server) (c : ClientState)
    → find_client id s.clients ≡ some c
    → find_client id (accept_all s fds).clients ≡ some c
unfolding accept_all
find_client-accept_all id [] s c e = e
find_client-accept_all id (fd ∷ fds) s c e =
    find_client-accept_all id fds _ c
      (find_client-append id s.clients (new_client s.next_client_id fd ∷ []) c e)

find_client-remove_client :
    (id j : ℕ) (cs : List ClientState)
    → find_client id (remove_client j cs).0 ≡ (if j == id then none else find_client id cs)
unfolding find_client remove_client
find_client-remove_client id j [] = ground arith
find_client-remove_client id j (c ∷ cs) = ground (arith, find_client-remove_client id j cs)

find_client-remove_dead :
    (id : ℕ) (ids : List ℕ) (cs : List ClientState)
    → find_client id (remove_dead ids cs).0 ≡ (if elem id ids then none else find_client id cs)
unfolding remove_dead
find_client-remove_dead id [] cs = refl
find_client-remove_dead id (j ∷ js) cs =
    ground (
      arith,
      find_client-remove_dead id js (remove_client j cs).0,
      find_client-remove_client id j cs,
    )

-- The events and the new state of the client `c` in a poll are those of its own bytes.
abbrev pub Heard : (ℕ → Incoming) → ClientState → Polled → Type 0
Heard incoming c p =
    let (lines, left) = drain_lines (c.read_buffer ++ flatten (incoming c.fd).chunks) in
    (events_of c.id p.events ≡ lines)
    × (find_client c.id p.server.clients
        ≡ (if (incoming c.fd).ended then none else some (record c { read_buffer = left })))

poll_listening-Heard :
    (s : Server) (n : ℕ) (accepted : List ℕ) (incoming : ℕ → Incoming) (c : ClientState)
    → IsValid s
    → find_client c.id s.clients ≡ some c
    → Heard incoming c (poll_listening (some n) s accepted incoming)
unfolding poll_listening
poll_listening-Heard s n accepted incoming c v e =
    let s' = accept_all s accepted in
    let v' = accept_all-IsValid accepted s v in
    let r = read_clients incoming s'.clients in
    let (events, state, ended) =
      read_clients-Serves incoming c.id 0 s'.next_client_id s'.clients c v'.ids
        (find_client-accept_all c.id accepted s c e) in
    rw (← append_chunks-flatten c.read_buffer (incoming c.fd).chunks)
      (events, find_client-remove_dead c.id r.dead r.clients ∙ rw (ended, state))

-- On a valid server that listens a poll gives a client that it has the lines of its own bytes, the
-- buffer first, in the order that they came, and nobody else's. The client then keeps the rest of
-- its bytes, or is gone if its stream ended.
pub poll-Heard :
    (s : Server) (n : ℕ) (accepted : List ℕ) (incoming : ℕ → Incoming) (c : ClientState)
    → s.listen_fd ≡ some n
    → IsValid s
    → find_client c.id s.clients ≡ some c
    → Heard incoming c (poll s accepted incoming)
unfolding poll
poll-Heard s n accepted incoming c l v e =
    subst (λ o. Heard incoming c (poll_listening o s accepted incoming)) (sym l)
      (poll_listening-Heard s n accepted incoming c v e)
