-- ===== src/Ipc/Server.antt =====
-- `Server` of src/common/ipc.cpp, its Linux branch. Descriptors that a call closes are part of its
-- result. Client ids do not wrap: 2^31 connections are out of reach.
pub mod Poll
pub mod Invariant
pub mod Sending
use openhd_glide.Base.{
  ℕ, suc, Bool, true, false, List, [], ◌∷◌, ◌++◌, map, Option, none, some, ◌==◌, if◌then◌else◌,
  Bytes,
}
use openhd_glide.Ipc.Lines.{drain_lines, line_payload}
use openhd_glide.Ipc.Socket.{Incoming, Transmit, sent_all, append_chunks}

pub record ServerEvent : Type 0 where
  pub client_id : ℕ
  pub line : Bytes

pub record ClientState : Type 0 where
  pub id : ℕ
  pub fd : ℕ
  pub read_buffer : Bytes

pub record Server : Type 0 where
  pub listen_fd : Option ℕ
  pub next_client_id : ℕ
  pub path : Bytes
  pub last_error : Bytes
  pub clients : List ClientState

abbrev pub fresh_server : Server
fresh_server = record {
  listen_fd = none;
  next_client_id = 1;
  path = [];
  last_error = [];
  clients = [];
}

-- `client_id` is the id `next_client_id_++`.
abbrev pub new_client : ℕ → ℕ → ClientState
new_client id fd = record { id = id; fd = fd; read_buffer = [] }

-- The next id is an `int` in the source: the model has no bound, and agrees with it as long as
-- fewer than 2 to the 31 less one connections are accepted. The accept loop, over the descriptors
-- that `accept` returns before it fails.
unfoldable pub accept_all : Server → List ℕ → Server
accept_all s [] = s
accept_all s (fd ∷ fds) =
    accept_all
      (record s {
        next_client_id = suc s.next_client_id;
        clients = s.clients ++ new_client s.next_client_id fd ∷ [];
      })
      fds

abbrev pub tagged : ℕ → List Bytes → List ServerEvent
tagged id = map λ line. record { client_id = id; line = line }

-- The loop over `clients_`: each client's reads, its lines, and the ids of those that ended.
pub record Read : Type 0 where
  pub clients : List ClientState
  pub events : List ServerEvent
  pub dead : List ℕ

unfoldable pub read_clients : (ℕ → Incoming) → List ClientState → Read
read_clients incoming [] = record { clients = []; events = []; dead = [] }
read_clients incoming (c ∷ cs) =
    let i = incoming c.fd in
    let (lines, left) = drain_lines (append_chunks c.read_buffer i.chunks) in
    let rest = read_clients incoming cs in
    record {
      clients = record c { read_buffer = left } ∷ rest.clients;
      events = tagged c.id lines ++ rest.events;
      dead = if i.ended then c.id ∷ rest.dead else rest.dead;
    }

-- `std::remove_if` with the predicate that closes what it removes: those kept, those closed.
unfoldable pub remove_client : ℕ → List ClientState → List ClientState × List ℕ
remove_client id [] = ([], [])
remove_client id (c ∷ cs) =
    let (kept, closed) = remove_client id cs in
    if c.id == id then (kept, c.fd ∷ closed) else (c ∷ kept, closed)

unfoldable pub remove_dead : List ℕ → List ClientState → List ClientState × List ℕ
remove_dead [] cs = (cs, [])
remove_dead (id ∷ ids) cs =
    let (kept, closed) = remove_client id cs in
    let (last, later) = remove_dead ids kept in (last, closed ++ later)

pub record Polled : Type 0 where
  pub server : Server
  pub events : List ServerEvent
  pub closed : List ℕ

-- `accepted` is what `accept` returns, `incoming` what `recv` returns on each descriptor. The first
-- argument is `listen_fd_`, which the early return tests.
unfoldable pub poll_listening : Option ℕ → Server → List ℕ → (ℕ → Incoming) → Polled
poll_listening none s accepted incoming = record { server = s; events = []; closed = [] }
poll_listening (some n) s accepted incoming =
    let s' = accept_all s accepted in
    let r = read_clients incoming s'.clients in
    let (kept, closed) = remove_dead r.dead r.clients in
    record { server = record s' { clients = kept }; events = r.events; closed = closed }

unfoldable pub poll : Server → List ℕ → (ℕ → Incoming) → Polled
unfolding poll_listening
poll s accepted incoming = poll_listening s.listen_fd s accepted incoming

unfoldable pub find_client : ℕ → List ClientState → Option ClientState
find_client id [] = none
find_client id (c ∷ cs) = if c.id == id then some c else find_client id cs

-- The descriptor and the bytes handed to it, if there is such a client, and the result.
unfoldable pub send_line : Transmit → Server → ℕ → Bytes → Option (ℕ × Bytes) × Bool
send_line transmit s client_id line = elim (find_client client_id s.clients) [
  | none ↦ (none, false)
  | some c ↦ (
    some (c.fd, line_payload line),
    sent_all (transmit c.fd (line_payload line)) (line_payload line),
  )
]

-- The loop of `broadcast_line` over the clients `cs`: what is handed to the sockets, in order.
unfoldable pub broadcast_loop : Transmit → Server → List ClientState → Bytes → List (ℕ × Bytes)
broadcast_loop transmit s [] line = []
broadcast_loop transmit s (c ∷ cs) line = elim (send_line transmit s c.id line).0 [
  | none ↦ broadcast_loop transmit s cs line
  | some sent ↦ sent ∷ broadcast_loop transmit s cs line
]

unfoldable pub broadcast_line : Transmit → Server → Bytes → List (ℕ × Bytes)
broadcast_line transmit s line = broadcast_loop transmit s s.clients line

unfoldable pub close : Server → Server × List ℕ
close s = (
  record s { listen_fd = none; clients = [] },
  map (λ c. c.fd) s.clients ++ elim s.listen_fd [ none ↦ [] | some n ↦ n ∷ [] ],
)

-- Which of the calls in `listen_on` fails, with its error text, or the descriptor that listens.
pub data Listening : Type 0 where
  no_socket : Bytes → Listening
  bind_failed listen_failed : ℕ → Bytes → Listening
  listens : ℕ → Listening

unfoldable pub listen_on : Server → Bytes → Listening → Server × Bool
unfolding close
listen_on s path (no_socket error) = (record (close s).0 { path = path; last_error = error }, false)
listen_on s path (bind_failed n error) =
    ((close (record (close s).0 { path = path; listen_fd = some n; last_error = error })).0, false)
listen_on s path (listen_failed n error) =
    ((close (record (close s).0 { path = path; listen_fd = some n; last_error = error })).0, false)
listen_on s path (listens n) = (record (close s).0 { path = path; listen_fd = some n }, true)
