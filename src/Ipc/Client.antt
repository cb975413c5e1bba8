-- ===== src/Ipc/Client.antt =====
-- `Client` of src/common/ipc.cpp, its Linux branch.
pub mod Session
use openhd_glide.Base.{ℕ, Bool, true, false, List, [], Option, none, some, if◌then◌else◌, Bytes}
use openhd_glide.Ipc.Lines.{drain_lines, line_payload}
use openhd_glide.Ipc.Socket.{Incoming, Transmit, sent_all, append_chunks}

pub record Client : Type 0 where
  pub fd : Option ℕ
  pub read_buffer : Bytes

abbrev pub fresh_client : Client
fresh_client = record { fd = none; read_buffer = [] }

-- `socket` fails, `connect` fails on the new socket, or the socket is connected.
pub data Connecting : Type 0 where
  no_socket : Connecting
  refused connected_on : ℕ → Connecting

unfoldable pub close : Client → Client
close c = record c { fd = none }

unfoldable pub connected : Client → Bool
connected c = elim c.fd [ none ↦ false | some n ↦ true ]

unfoldable pub connect_to : Client → Connecting → Client × Bool
unfolding close
connect_to c no_socket = (close c, false)
connect_to c (refused n) = (close (record c { fd = some n }), false)
connect_to c (connected_on n) = (record (close c) { fd = some n }, true)

-- The bytes handed to the socket, if there is one, and the result.
unfoldable pub send_line : Transmit → Client → Bytes → Option Bytes × Bool
send_line transmit c line = elim c.fd [
  | none ↦ (none, false)
  | some n ↦
      (some (line_payload line), sent_all (transmit n (line_payload line)) (line_payload line))
]

unfoldable pub poll_lines : Client → Incoming → Client × List Bytes
unfolding close
poll_lines c incoming =
    let (lines, left) = drain_lines (append_chunks c.read_buffer incoming.chunks) in
    let open_client = record c { read_buffer = left } in
    elim c.fd [
      | none ↦ (c, [])
      | some n ↦ (if incoming.ended then close open_client else open_client, lines)
    ]
