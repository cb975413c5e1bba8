-- ===== src/Network/Peers.antt =====
-- The list of peers has one entry for each address.
use openhd_glide.Base.{
  ℕ, ◌+◌, ◌≡◌, sym, subst, false, if_elim, List, [], ◌∷◌, All, ◌==◌, if◌then◌else◌, length, take,
  Bytes, same_bytes, arith,
}
use openhd_glide.Base.Same.{same_bytes→eq}
use openhd_glide.Mavlink.Text.{c_str}
use openhd_glide.Network.{
  Peer, DiscoveryOptions, DiscoveryService, fresh_service, stop, running, Opened, opened,
  socket_failed, bind_failed, after_open, start, start_scan, upsert, upsert_peer, sanitize_token,
  Fields, Reaction, ignore, answer, note, reaction_to, peer_of, react, fields_of, handle_packet,
  receive_all, close_scan, is_due, poll_state_lines,
}

abbrev IsOther : Bytes → Peer → Type 0
IsOther address peer = same_bytes address peer.address ≡ false

-- No two peers have the same address.
abbrev pub AreDistinct : List Peer → Type 0
AreDistinct [] = Unit
AreDistinct (peer ∷ peers) = All (IsOther peer.address) peers × AreDistinct peers

All-upsert :
    (P : Peer → Type 0) (peers : List Peer) (peer : Peer)
    → All P peers
    → P peer
    → All P (upsert peers peer)
unfolding upsert
All-upsert P [] peer h p = (p, tt)
All-upsert P (item ∷ items) peer h p =
    if_elim (All P) (same_bytes item.address peer.address) (λ e. (p, h.1))
      (λ e. (h.0, All-upsert P items peer h.1 p))

upsert-AreDistinct :
    (peers : List Peer) (peer : Peer) → AreDistinct peers → AreDistinct (upsert peers peer)
unfolding upsert
upsert-AreDistinct [] peer h = (tt, tt)
upsert-AreDistinct (item ∷ items) peer h =
    if_elim AreDistinct (same_bytes item.address peer.address)
      (λ e. (
        subst (λ (a : Bytes). All (IsOther a) items) (same_bytes→eq item.address peer.address e)
            h.0,
        h.1,
      ))
      (λ e. (All-upsert (IsOther item.address) items peer h.0 e, upsert-AreDistinct items peer h.1))

abbrev Result : DiscoveryService × List (Bytes × Bytes) → Type 0
Result r = AreDistinct r.0.peers

react-AreDistinct :
    (s : DiscoveryService) (fields : Fields) (sender : Bytes) (now : ℕ) (reaction : Reaction)
    → AreDistinct s.peers
    → AreDistinct (react s fields sender now reaction).0.peers
unfolding react upsert_peer
react-AreDistinct s fields sender now ignore h = h
react-AreDistinct s fields sender now answer h = h
react-AreDistinct s fields sender now note h =
    upsert-AreDistinct s.peers (peer_of fields sender now) h

handle_packet-AreDistinct :
    (s : DiscoveryService) (payload sender : Bytes) (local : List Bytes) (now : ℕ)
    → AreDistinct s.peers
    → AreDistinct (handle_packet s payload sender local now).0.peers
unfolding handle_packet
handle_packet-AreDistinct s payload sender local now h =
    if_elim Result (length sender == 0) (λ e. h)
      (λ e.
        react-AreDistinct s (fields_of payload) sender now
          (reaction_to (fields_of payload) sender local) h)

receive_all-AreDistinct :
    (s : DiscoveryService) (packets : List (Bytes × Bytes)) (local : List Bytes) (now : ℕ)
    → AreDistinct s.peers
    → AreDistinct (receive_all s packets local now).0.peers
unfolding receive_all
receive_all-AreDistinct s [] local now h = h
receive_all-AreDistinct s (([], sender) ∷ more) local now h = h
receive_all-AreDistinct s ((b ∷ bs, sender) ∷ more) local now h =
    receive_all-AreDistinct (handle_packet s (c_str (take 511 (b ∷ bs))) sender local now).0 more
      local now (handle_packet-AreDistinct s (c_str (take 511 (b ∷ bs))) sender local now h)

close_scan-peers : (s : DiscoveryService) (now : ℕ) → (close_scan s now).peers ≡ s.peers
unfolding close_scan
close_scan-peers s now = ground arith

poll_state_lines-AreDistinct :
    (s : DiscoveryService) (now interval : ℕ) (packets : List (Bytes × Bytes)) (local : List Bytes)
    → AreDistinct s.peers
    → AreDistinct (poll_state_lines s now interval packets local).service.peers
unfolding poll_state_lines
poll_state_lines-AreDistinct s now interval packets local h =
    let probing = if is_due s now then record s { next_probe = now + interval } else s in
    let begun : AreDistinct probing.peers =
      if_elim (λ (t : DiscoveryService). AreDistinct t.peers) (is_due s now) (λ e. h) (λ e. h) in
    let read = if running probing then receive_all probing packets local now else (probing, []) in
    let read_distinct : AreDistinct read.0.peers =
      if_elim Result (running probing)
        (λ e. receive_all-AreDistinct probing packets local now begun) (λ e. begun) in
    subst AreDistinct (sym (close_scan-peers read.0 now)) read_distinct

after_open-AreDistinct :
    (s : DiscoveryService) (outcome : Opened)
    → AreDistinct s.peers
    → AreDistinct (after_open s outcome).0.peers
unfolding after_open stop
after_open-AreDistinct s (opened fd) h = h
after_open-AreDistinct s (socket_failed error) h = h
after_open-AreDistinct s (bind_failed error) h = h

start-AreDistinct :
    (s : DiscoveryService) (options : DiscoveryOptions) (name : Bytes) (outcome : Opened)
    → AreDistinct s.peers
    → AreDistinct (start s options name outcome).0.peers
unfolding start stop
start-AreDistinct s options name outcome h =
    after_open-AreDistinct (record (stop s) { options = options; hostname = sanitize_token name })
      outcome h

stop-AreDistinct : (s : DiscoveryService) → AreDistinct s.peers → AreDistinct (stop s).peers
unfolding stop
stop-AreDistinct s h = h

start_scan-AreDistinct :
    (s : DiscoveryService) (now duration : ℕ)
    → AreDistinct s.peers
    → AreDistinct (start_scan s now duration).peers
unfolding start_scan
start_scan-AreDistinct s now duration h =
    if_elim (λ (t : DiscoveryService). AreDistinct t.peers) (running s) (λ e. tt) (λ e. h)

-- The services that the calls lead to, whatever the sockets and the clock answer.
pub data IsReached : DiscoveryService → Type 0 where
  at_first : IsReached fresh_service
  by_start :
      (s : DiscoveryService) (options : DiscoveryOptions) (name : Bytes) (outcome : Opened)
      → IsReached s
      → IsReached (start s options name outcome).0
  by_stop : (s : DiscoveryService) → IsReached s → IsReached (stop s)
  by_scan :
      (s : DiscoveryService) (now duration : ℕ)
      → IsReached s
      → IsReached (start_scan s now duration)
  by_poll :
      (s : DiscoveryService) (now interval : ℕ) (packets : List (Bytes × Bytes))
      (local : List Bytes)
      → IsReached s
      → IsReached (poll_state_lines s now interval packets local).service

-- Whatever calls are made and whatever packets arrive, from anyone and any number of times, the list
-- never has two peers of the same address.
pub IsReached-AreDistinct : (s : DiscoveryService) → IsReached s → AreDistinct s.peers
IsReached-AreDistinct _ at_first = tt
IsReached-AreDistinct _ (by_start s options name outcome r) =
    start-AreDistinct s options name outcome (IsReached-AreDistinct s r)
IsReached-AreDistinct _ (by_stop s r) = stop-AreDistinct s (IsReached-AreDistinct s r)
IsReached-AreDistinct _ (by_scan s now duration r) =
    start_scan-AreDistinct s now duration (IsReached-AreDistinct s r)
IsReached-AreDistinct _ (by_poll s now interval packets local r) =
    poll_state_lines-AreDistinct s now interval packets local (IsReached-AreDistinct s r)
