-- ===== src/Network.antt =====
-- src/common/network_discovery.cpp, its Linux branch: finding other stations on the network.
-- Sockets and interfaces are arguments. A time point is a number, 0 for `time_point {}`; the clock
-- is read once in a poll. The role of the options is not read, and is left out.
pub mod Peers
use openhd_glide.Base.{
  ℕ, ◌+◌, ◌-◌, ◌%◌, ◌^◌, Bool, true, false, not, ◌&&◌, ◌||◌, List, [], ◌∷◌, ◌++◌, map, Option, none,
  some, ltb, leb, ◌==◌, if◌then◌else◌, length, take, Bytes, codes, same_bytes,
}
use openhd_glide.Base.Int.{ℤ, pos, negsuc}
use openhd_glide.Mavlink.Text.{c_str}
use openhd_glide.Mavlink.Heartbeat.{to_string}
use openhd_glide.Mavlink.State.Reader.{open_reader, read_word, read_number, scan_unsigned, read_int}

pub record Peer : Type 0 where
  pub address : Bytes
  pub hostname : Bytes
  pub video_port : ℕ
  pub last_seen : ℕ

pub record DiscoveryOptions : Type 0 where
  pub discovery_udp_port : ℕ
  pub video_udp_port : ℕ

pub record DiscoveryService : Type 0 where
  pub fd : Option ℕ
  pub options : DiscoveryOptions
  pub hostname : Bytes
  pub last_error : Bytes
  pub peers : List Peer
  pub pending_lines : List Bytes
  pub scan_until : ℕ
  pub next_probe : ℕ

abbrev pub fresh_service : DiscoveryService
fresh_service = record {
  fd = none;
  options = record { discovery_udp_port = 5620; video_udp_port = 5600 };
  hostname = codes "glide";
  last_error = [];
  peers = [];
  pending_lines = [];
  scan_until = 0;
  next_probe = 0;
}

unfoldable pub sanitize_token : Bytes → Bytes
sanitize_token [] = []
sanitize_token (c ∷ cs) =
    (if c == 32 || c == 10 || c == 13 || c == 9 then b'_' else c) ∷ sanitize_token cs

unfoldable pub stop : DiscoveryService → DiscoveryService
stop s = record s { fd = none; scan_until = 0; next_probe = 0 }

unfoldable pub running : DiscoveryService → Bool
running s = elim s.fd [ none ↦ false | some fd ↦ true ]

-- What `socket` and `bind` return: the error number is a text.
pub data Opened : Type 0 where
  opened : ℕ → Opened
  socket_failed bind_failed : Bytes → Opened

unfoldable pub after_open : DiscoveryService → Opened → DiscoveryService × Bool
after_open s (opened fd) = (
  record s { fd = some fd; pending_lines = s.pending_lines ++ codes "state net idle" ∷ [] },
  true,
)
after_open s (socket_failed error) =
    (record s { last_error = codes "socket failed: " ++ error }, false)
after_open s (bind_failed error) =
    (stop (record s { last_error = codes "bind UDP discovery failed: " ++ error }), false)

-- `local_hostname` is what `gethostname` makes of the machine's name.
unfoldable pub start :
    DiscoveryService → DiscoveryOptions → Bytes → Opened → DiscoveryService × Bool
unfolding after_open
start s options local_hostname outcome =
    after_open (record (stop s) { options = options; hostname = sanitize_token local_hostname })
      outcome

unfoldable pub start_scan : DiscoveryService → ℕ → ℕ → DiscoveryService
start_scan s now duration =
    if running s
    then record s {
      peers = [];
      scan_until = now + duration;
      next_probe = 0;
      pending_lines = s.pending_lines ++ codes "state net scanning" ∷ [];
    }
    else s

abbrev discover_prefix : Bytes
discover_prefix = codes "OPENHD_GLIDE_DISCOVER"

abbrev here_prefix : Bytes
here_prefix = codes "OPENHD_GLIDE_HERE"

abbrev pub announcement : Bytes → DiscoveryService → Bytes
announcement prefix s =
    prefix ++ (codes " 1 " ++ (s.hostname ++ 32 ∷ to_string s.options.video_udp_port))

unfoldable pub probe : DiscoveryService → Bytes
probe s = announcement discover_prefix s

unfoldable pub reply : DiscoveryService → Bytes
reply s = announcement here_prefix s

-- The peer of the same address is replaced in its place; a new one comes last.
unfoldable pub upsert : List Peer → Peer → List Peer
upsert [] peer = peer ∷ []
upsert (item ∷ items) peer =
    if same_bytes item.address peer.address then peer ∷ items else item ∷ upsert items peer

unfoldable pub upsert_peer : DiscoveryService → Peer → DiscoveryService
upsert_peer s peer = record s {
  peers = upsert s.peers peer;
  pending_lines =
      s.pending_lines
      ++ (codes "state net peer "
          ++ (peer.address ++ 32 ∷ (peer.hostname ++ 32 ∷ to_string peer.video_port)))
        ∷ [];
}

abbrev is_one : ℤ → Bool
is_one (pos n) = n == 1
is_one (negsuc n) = false

unfoldable pub is_local : List Bytes → Bytes → Bool
is_local [] address = false
is_local (a ∷ more) address = same_bytes a address || is_local more address

abbrev name_or_glide : Bytes → Bytes
name_or_glide [] = codes "glide"
name_or_glide (c ∷ cs) = c ∷ cs

-- The fields of a packet: prefix, version, host name and port.
pub record Fields : Type 0 where
  pub prefix : Bytes
  pub version : ℤ
  pub hostname : Bytes
  pub video_port : ℕ

unfoldable pub fields_of : Bytes → Fields
fields_of payload =
    let (prefix, r1) = read_word (open_reader payload) in
    let (version, r2) = read_int (pos 0) r1 in
    let (hostname, r3) = read_word r2 in
    let (video_port, r4) = read_number (scan_unsigned 65536) 0 r3 in
    record { prefix = prefix; version = version; hostname = hostname; video_port = video_port }

-- What a packet causes: nothing, a reply, or a peer in the list.
pub data Reaction : Type 0 where
  ignore answer note : Reaction

unfoldable pub reaction_to : Fields → Bytes → List Bytes → Reaction
reaction_to fields sender local =
    if not (is_one fields.version)
    then ignore
    else if same_bytes fields.prefix discover_prefix
    then answer
    else if not (same_bytes fields.prefix here_prefix) || fields.video_port == 0
    then ignore
    else if is_local local sender
    then ignore
    else note

abbrev pub peer_of : Fields → Bytes → ℕ → Peer
peer_of fields sender now = record {
  address = sender;
  hostname = sanitize_token (name_or_glide fields.hostname);
  video_port = fields.video_port;
  last_seen = now;
}

-- The service and the replies that it sends, each with the address it goes to.
unfoldable pub react :
    DiscoveryService → Fields → Bytes → ℕ → Reaction → DiscoveryService × List (Bytes × Bytes)
react s fields sender now ignore = (s, [])
react s fields sender now answer = (s, (sender, reply s) ∷ [])
react s fields sender now note = (upsert_peer s (peer_of fields sender now), [])

unfoldable pub handle_packet :
    DiscoveryService → Bytes → Bytes → List Bytes → ℕ → DiscoveryService × List (Bytes × Bytes)
handle_packet s payload sender local now =
    if length sender == 0
    then (s, [])
    else react s (fields_of payload) sender now (reaction_to (fields_of payload) sender local)

-- The packets that `recvfrom` returns, with their senders: each is a C string in 512 bytes, and
-- an empty one ends the loop.
unfoldable pub receive_all :
    DiscoveryService
    → List (Bytes × Bytes)
    → List Bytes
    → ℕ
    → DiscoveryService × List (Bytes × Bytes)
receive_all s [] local now = (s, [])
receive_all s (([], sender) ∷ more) local now = (s, [])
receive_all s ((b ∷ bs, sender) ∷ more) local now =
    let (s', replies) = handle_packet s (c_str (take 511 (b ∷ bs))) sender local now in
    let (last, later) = receive_all s' more local now in (last, replies ++ later)

-- `probed` says that a probe is broadcast first.
pub record Polled : Type 0 where
  pub service : DiscoveryService
  pub probed : Bool
  pub replies : List (Bytes × Bytes)
  pub lines : List Bytes

unfoldable pub close_scan : DiscoveryService → ℕ → DiscoveryService
close_scan s now =
    if not (s.scan_until == 0) && leb s.scan_until now
    then record s {
      scan_until = 0;
      pending_lines =
          s.pending_lines ++ (codes "state net done " ++ to_string (length s.peers)) ∷ [];
    }
    else s

unfoldable pub is_due : DiscoveryService → ℕ → Bool
is_due s now = running s && not (s.scan_until == 0) && leb s.next_probe now

unfoldable pub poll_state_lines :
    DiscoveryService → ℕ → ℕ → List (Bytes × Bytes) → List Bytes → Polled
unfolding is_due
poll_state_lines s now interval packets local =
    let due = is_due s now in
    let probing = if due then record s { next_probe = now + interval } else s in
    let read = if running probing then receive_all probing packets local now else (probing, []) in
    let closed = close_scan read.0 now in
    record {
      service = record closed { pending_lines = [] };
      probed = due;
      replies = read.1;
      lines = closed.pending_lines;
    }

-- `run_ip_command` returns an error text, empty if the command succeeded.
unfoldable pub configure_point_to_point : (List Bytes → Bytes) → Bytes → Bytes → Bytes
configure_point_to_point run interface role =
    let cidr =
      if same_bytes role (codes "air") then codes "10.77.0.2/30" else codes "10.77.0.1/30" in
    let up = run (codes "link" ∷ codes "set" ∷ interface ∷ codes "up" ∷ []) in
    let flushed = run (codes "addr" ∷ codes "flush" ∷ codes "dev" ∷ interface ∷ []) in
    let added = run (codes "addr" ∷ codes "add" ∷ cidr ∷ codes "dev" ∷ interface ∷ []) in
    if length interface == 0
    then codes "missing interface name"
    else if not (length up == 0)
    then up
    else if not (length flushed == 0)
    then flushed
    else if not (length added == 0)
    then added
    else codes "ok " ++ (interface ++ 32 ∷ cidr)
