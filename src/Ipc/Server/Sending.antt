-- ===== src/Ipc/Server/Sending.antt =====
-- `send_line` and `broadcast_line` of the server.
use openhd_glide.Base.{ℕ, suc, ◌<◌, ◌≡◌, refl, List, [], ◌∷◌, All, some, Bytes, arith, map, ap}
use openhd_glide.Ipc.Lines.{line_payload}
use openhd_glide.Ipc.Socket.{Transmit}
use openhd_glide.Ipc.Server.{
  Server, ClientState, find_client, send_line, broadcast_loop, broadcast_line,
}
use openhd_glide.Ipc.Server.Invariant.{Ascending, IsValid}

abbrev Finds : List ClientState → ClientState → Type 0
Finds cs c = find_client c.id cs ≡ some c

Above-Finds :
    (c : ClientState) (cs ds : List ClientState) (lo hi : ℕ)
    → c.id < lo
    → Ascending lo ds hi
    → All (Finds cs) ds
    → All (Finds (c ∷ cs)) ds
unfolding find_client
Above-Finds c cs [] lo hi h a f = tt
Above-Finds c cs (d ∷ ds) lo hi h a f =
    (ground arith, Above-Finds c cs ds (suc d.id) hi (omega arith) a.1 f.1)

-- Distinct ids: each client is the one that is found under its id.
pub Ascending-Finds : (cs : List ClientState) (lo hi : ℕ) → Ascending lo cs hi → All (Finds cs) cs
unfolding find_client
Ascending-Finds [] lo hi a = tt
Ascending-Finds (c ∷ cs) lo hi a = (
  ground arith,
  Above-Finds c cs cs (suc c.id) hi (omega arith) a.1 (Ascending-Finds cs (suc c.id) hi a.1),
)

broadcast_loop-map :
    (transmit : Transmit) (s : Server) (cs : List ClientState) (line : Bytes)
    → All (Finds s.clients) cs
    → broadcast_loop transmit s cs line ≡ map (λ c. (c.fd, line_payload line)) cs
unfolding broadcast_loop send_line
broadcast_loop-map transmit s [] line f = refl
broadcast_loop-map transmit s (c ∷ cs) line f =
    rw (f.0, broadcast_loop)
      (ap (◌∷◌ (c.fd, line_payload line)) (broadcast_loop-map transmit s cs line f.1))

-- A broadcast of a valid server hands the line to every client once, in the order of `clients_`,
-- each on its own socket, whatever becomes of the others.
pub broadcast_line-map :
    (transmit : Transmit) (s : Server) (line : Bytes)
    → IsValid s
    → broadcast_line transmit s line ≡ map (λ c. (c.fd, line_payload line)) s.clients
unfolding broadcast_line
broadcast_line-map transmit s line v =
    broadcast_loop-map transmit s s.clients line
      (Ascending-Finds s.clients 0 s.next_client_id v.ids)
