-- ===== src/Ipc/Server/Invariant.antt =====
-- The clients of the server: their ids rise along the list and stay below the next id, and no read
-- buffer holds a whole line between two polls.
use openhd_glide.Base.{
  ℕ, suc, ◌+◌, ◌-◌, ◌^◌, ◌≤◌, ◌<◌, ◌≡◌, length, List, [], ◌∷◌, ◌++◌, All, All-append, Option, none,
  some, Bytes, arith,
}
use openhd_glide.Ipc.Lines.Framing.{HasNoNewline}
use openhd_glide.Ipc.Lines.Reads.{drain_lines-HasNoNewline}
use openhd_glide.Ipc.Socket.{Incoming, append_chunks}
use openhd_glide.Ipc.Server.{
  Server, ClientState, fresh_server, new_client, accept_all, read_clients, remove_client,
  remove_dead, poll, poll_listening, close, Listening, listen_on, no_socket, bind_failed,
  listen_failed, listens,
}

abbrev pub Ascending : ℕ → List ClientState → ℕ → Type 0
Ascending lo [] hi = lo ≤ hi
Ascending lo (c ∷ cs) hi = (lo ≤ c.id) × Ascending (suc c.id) cs hi

abbrev pub IsDrained : ClientState → Type 0
IsDrained c = HasNoNewline c.read_buffer

pub record IsValid (s : Server) : Type 0 where
  pub ids : Ascending 0 s.clients s.next_client_id
  pub drained : All IsDrained s.clients

pub fresh_server-IsValid : IsValid fresh_server
fresh_server-IsValid = record { ids = omega arith; drained = tt }

Ascending-le :
    (lo lo' hi : ℕ) (cs : List ClientState) → lo' ≤ lo → Ascending lo cs hi → Ascending lo' cs hi
Ascending-le lo lo' hi [] h a = omega arith
Ascending-le lo lo' hi (c ∷ cs) h a = (omega arith, a.1)

Ascending-new :
    (lo hi fd : ℕ) (cs : List ClientState)
    → Ascending lo cs hi
    → Ascending lo (cs ++ new_client hi fd ∷ []) (suc hi)
Ascending-new lo hi fd [] a = (a, omega arith)
Ascending-new lo hi fd (c ∷ cs) a = (a.0, Ascending-new (suc c.id) hi fd cs a.1)

pub accept_all-IsValid : (fds : List ℕ) (s : Server) → IsValid s → IsValid (accept_all s fds)
unfolding accept_all
accept_all-IsValid [] s v = v
accept_all-IsValid (fd ∷ fds) s v = accept_all-IsValid fds _ (record {
  ids = Ascending-new 0 s.next_client_id fd s.clients v.ids;
  drained = All-append IsDrained s.clients (new_client s.next_client_id fd ∷ []) v.drained (tt, tt);
})

read_clients-Ascending :
    (incoming : ℕ → Incoming) (lo hi : ℕ) (cs : List ClientState)
    → Ascending lo cs hi
    → Ascending lo (read_clients incoming cs).clients hi
unfolding read_clients
read_clients-Ascending incoming lo hi [] a = a
read_clients-Ascending incoming lo hi (c ∷ cs) a =
    (a.0, read_clients-Ascending incoming (suc c.id) hi cs a.1)

read_clients-IsDrained :
    (incoming : ℕ → Incoming) (cs : List ClientState)
    → All IsDrained (read_clients incoming cs).clients
unfolding read_clients
read_clients-IsDrained incoming [] = tt
read_clients-IsDrained incoming (c ∷ cs) = (
  drain_lines-HasNoNewline (append_chunks c.read_buffer (incoming c.fd).chunks),
  read_clients-IsDrained incoming cs,
)

remove_client-Ascending :
    (id lo hi : ℕ) (cs : List ClientState)
    → Ascending lo cs hi
    → Ascending lo (remove_client id cs).0 hi
unfolding remove_client
remove_client-Ascending id lo hi [] a = a
remove_client-Ascending id lo hi (c ∷ cs) a =
    let kept = remove_client-Ascending id (suc c.id) hi cs a.1 in
    ground (arith, kept, Ascending-le (suc c.id) lo hi (remove_client id cs).0)

remove_client-IsDrained :
    (id : ℕ) (cs : List ClientState) → All IsDrained cs → All IsDrained (remove_client id cs).0
unfolding remove_client
remove_client-IsDrained id [] a = a
remove_client-IsDrained id (c ∷ cs) a = ground (arith, remove_client-IsDrained id cs a.1)

remove_dead-kept :
    (ids : List ℕ) (hi : ℕ) (cs : List ClientState)
    → Ascending 0 cs hi
    → All IsDrained cs
    → Ascending 0 (remove_dead ids cs).0 hi × All IsDrained (remove_dead ids cs).0
unfolding remove_dead
remove_dead-kept [] hi cs a d = (a, d)
remove_dead-kept (id ∷ ids) hi cs a d =
    remove_dead-kept ids hi (remove_client id cs).0 (remove_client-Ascending id 0 hi cs a)
      (remove_client-IsDrained id cs d)

poll_listening-IsValid :
    (listen : Option ℕ) (s : Server) (accepted : List ℕ) (incoming : ℕ → Incoming)
    → IsValid s
    → IsValid (poll_listening listen s accepted incoming).server
unfolding poll_listening
poll_listening-IsValid none s accepted incoming v = v
poll_listening-IsValid (some n) s accepted incoming v =
    let s' = accept_all s accepted in
    let v' = accept_all-IsValid accepted s v in
    let r = read_clients incoming s'.clients in
    let (ids, drained) =
      remove_dead-kept r.dead s'.next_client_id r.clients
        (read_clients-Ascending incoming 0 s'.next_client_id s'.clients v'.ids)
        (read_clients-IsDrained incoming s'.clients) in
    record { ids = ids; drained = drained }

-- A poll keeps the invariant, whoever connects, sends and hangs up.
pub poll-IsValid :
    (s : Server) (accepted : List ℕ) (incoming : ℕ → Incoming)
    → IsValid s
    → IsValid (poll s accepted incoming).server
unfolding poll
poll-IsValid s = poll_listening-IsValid s.listen_fd s

pub close-IsValid : (s : Server) → IsValid (close s).0
unfolding close
close-IsValid s = record { ids = omega arith; drained = tt }

pub listen_on-IsValid : (s : Server) (path : Bytes) (l : Listening) → IsValid (listen_on s path l).0
unfolding listen_on close
listen_on-IsValid s path (no_socket error) = record { ids = omega arith; drained = tt }
listen_on-IsValid s path (bind_failed n error) = record { ids = omega arith; drained = tt }
listen_on-IsValid s path (listen_failed n error) = record { ids = omega arith; drained = tt }
listen_on-IsValid s path (listens n) = record { ids = omega arith; drained = tt }

-- One call on the server.
pub data Call : Type 0 where
  polls : List ℕ → (ℕ → Incoming) → Call
  listens_on : Bytes → Listening → Call
  closes : Call

abbrev pub step : Server → Call → Server
step s (polls accepted incoming) = (poll s accepted incoming).server
step s (listens_on path l) = (listen_on s path l).0
step s closes = (close s).0

abbrev pub run : Server → List Call → Server
run s [] = s
run s (c ∷ cs) = run (step s c) cs

step-IsValid : (s : Server) (c : Call) → IsValid s → IsValid (step s c)
step-IsValid s (polls accepted incoming) v = poll-IsValid s accepted incoming v
step-IsValid s (listens_on path l) v = listen_on-IsValid s path l
step-IsValid s closes v = close-IsValid s

run-IsValid : (s : Server) (cs : List Call) → IsValid s → IsValid (run s cs)
run-IsValid s [] v = v
run-IsValid s (c ∷ cs) v = run-IsValid (step s c) cs (step-IsValid s c v)

-- The connections that the calls accept.
abbrev pub accepted_by : Call → ℕ
accepted_by (polls accepted incoming) = length accepted
accepted_by (listens_on path l) = 0
accepted_by closes = 0

abbrev pub connections : List Call → ℕ
connections [] = 0
connections (c ∷ cs) = accepted_by c + connections cs

accept_all-next :
    (fds : List ℕ) (s : Server) → (accept_all s fds).next_client_id ≡ s.next_client_id + length fds
unfolding accept_all
accept_all-next [] s = omega arith
accept_all-next (fd ∷ fds) s =
    let later = accept_all-next fds (record s {
      next_client_id = suc s.next_client_id;
      clients = s.clients ++ new_client s.next_client_id fd ∷ [];
    }) in
    omega (arith, later)

poll_listening-next :
    (listen : Option ℕ) (s : Server) (accepted : List ℕ) (incoming : ℕ → Incoming)
    → (poll_listening listen s accepted incoming).server.next_client_id
      ≤ s.next_client_id + length accepted
unfolding poll_listening
poll_listening-next none s accepted incoming = omega arith
poll_listening-next (some n) s accepted incoming = omega (arith, accept_all-next accepted s)

step-next : (s : Server) (c : Call) → (step s c).next_client_id ≤ s.next_client_id + accepted_by c
unfolding poll close listen_on
step-next s (polls accepted incoming) = poll_listening-next s.listen_fd s accepted incoming
step-next s (listens_on path (no_socket error)) = omega arith
step-next s (listens_on path (bind_failed n error)) = omega arith
step-next s (listens_on path (listen_failed n error)) = omega arith
step-next s (listens_on path (listens n)) = omega arith
step-next s closes = omega arith

run-next :
    (s : Server) (cs : List Call) → (run s cs).next_client_id ≤ s.next_client_id + connections cs
run-next s [] = omega arith
run-next s (c ∷ cs) = omega (arith, run-next (step s c) cs, step-next s c)

-- After any calls from the start that accept fewer than 2 to the 31 less one connections in all,
-- the next client id is one that `int` holds, so that none has wrapped around. The client ids are
-- distinct and below it, and no read buffer holds a whole line.
pub run-fresh_server-IsValid :
    (cs : List Call)
    → connections cs < 2 ^ 31 - 1
    → let s = run fresh_server cs in IsValid s × (s.next_client_id < 2 ^ 31)
run-fresh_server-IsValid cs h =
    let next = run-next fresh_server cs in
    (run-IsValid fresh_server cs fresh_server-IsValid, omega (arith, next, h))
