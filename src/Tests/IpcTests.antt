-- ===== src/Tests/IpcTests.antt =====
-- src/common/ipc.cpp at concrete inputs.
use openhd_glide.Base.{
  ◌<◌, ◌^◌, ◌≡◌, refl, false, List, [], ◌∷◌, ◌++◌, some, none, Bytes, arith, codes,
}
use openhd_glide.Base.Int.{pos}
use openhd_glide.Ipc.Lines.{drain_lines, drain_loop, find_newline, strip_cr, line_payload}
use openhd_glide.Ipc.Lines.Reads.{no_cr-ends, IsLine}
use openhd_glide.Ipc.Socket.{Incoming}
use openhd_glide.Ipc.Client.{Client, connect_to, connected_on, fresh_client, poll_lines}
use openhd_glide.Ipc.Client.Session.{polls, polls-payloads, poll_lines-reconnect}
use openhd_glide.Ipc.Server.{
  Server, ClientState, find_client, poll, broadcast_line, fresh_server, listens,
}
use openhd_glide.Ipc.Server.Invariant.{IsValid, run, Call, run-fresh_server-IsValid}
use openhd_glide.Ipc.Server.Poll.{Heard, poll-Heard}
use openhd_glide.Ipc.Server.Sending.{broadcast_line-map}

abbrev hello : Bytes
hello = codes "ui hello"

hello-IsLine : IsLine hello
hello-IsLine = record { one_line = omega arith; no_cr = no_cr-ends hello refl }

abbrev payload : Bytes
payload = hello ++ b'\n' ∷ []

abbrev arrives : Bytes → Incoming
arrives bytes = record { chunks = bytes ∷ []; ended = false }

crlf_run : drain_lines (codes "a" ++ (13 ∷ 10 ∷ codes "b")) ≡ (codes "a" ∷ [], codes "b")
unfolding drain_lines drain_loop find_newline strip_cr
crlf_run = refl

polls-payloads_example :
    (polls
      (connect_to fresh_client (connected_on 4)).0
      (arrives (codes "ui he") ∷ arrives (codes "llo" ++ 10 ∷ []) ∷ [])).1
    ≡ hello ∷ []
polls-payloads_example =
    polls-payloads (hello ∷ []) (arrives (codes "ui he") ∷ arrives (codes "llo" ++ 10 ∷ []) ∷ []) 4
      (hello-IsLine, tt) (unfold line_payload in refl) (refl, tt)

abbrev stale_client : Client
stale_client = record { fd = none; read_buffer = codes "st" }

poll_lines-reconnect_example :
    (poll_lines (connect_to stale_client (connected_on 4)).0 (arrives (line_payload hello))).1
    ≡ (codes "st" ++ hello) ∷ []
poll_lines-reconnect_example =
    poll_lines-reconnect stale_client 4 hello (omega arith) hello-IsLine (λ e. cc)

abbrev two_clients : Server
two_clients = record fresh_server {
  listen_fd = some 3;
  next_client_id = 3;
  clients =
      record { id = 1; fd = 5; read_buffer = codes "u" }
      ∷ record { id = 2; fd = 6; read_buffer = [] }
      ∷ [];
}

two_clients-IsValid : IsValid two_clients
two_clients-IsValid = record { ids = omega arith; drained = omega arith }

abbrev first_client : ClientState
first_client = record { id = 1; fd = 5; read_buffer = codes "u" }

poll-Heard_example :
    Heard (λ fd. arrives payload) first_client (poll two_clients (9 ∷ []) (λ fd. arrives payload))
poll-Heard_example =
    poll-Heard two_clients 3 (9 ∷ []) (λ fd. arrives payload) first_client refl two_clients-IsValid
      (unfold find_client in refl)

broadcast_line-map_example :
    broadcast_line (λ fd bytes. pos 0) two_clients hello
    ≡ (5, line_payload hello) ∷ (6, line_payload hello) ∷ []
broadcast_line-map_example =
    broadcast_line-map (λ fd bytes. pos 0) two_clients hello two_clients-IsValid

abbrev history : List Call
history =
    Call.listens_on (codes "/tmp/s") (listens 3)
    ∷ Call.polls (5 ∷ 6 ∷ []) (λ fd. arrives payload)
    ∷ []

run-fresh_server-IsValid_example :
    let s = run fresh_server history in IsValid s × (s.next_client_id < 2 ^ 31)
run-fresh_server-IsValid_example = run-fresh_server-IsValid history (omega arith)
