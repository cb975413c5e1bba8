-- ===== src/Ipc/Lines.antt =====
-- `drain_lines` of src/common/ipc.cpp.
pub mod Framing
pub mod Reads
use openhd_glide.Base.{
  ℕ, zero, suc, Bool, List, [], ◌∷◌, ◌++◌, Option, none, some, ◌==◌, if◌then◌else◌, length, Bytes,
}

-- `buffer.find('\n')`, with the bytes before the newline and those behind it.
unfoldable pub find_newline : Bytes → Option (Bytes × Bytes)
find_newline [] = none
find_newline (c ∷ cs) =
    if c == b'\n'
    then some ([], cs)
    else elim (find_newline cs) [ none ↦ none | some (line, rest) ↦ some (c ∷ line, rest) ]

-- `if (!line.empty() && line.back() == '\r') line.pop_back()`.
unfoldable pub strip_cr : Bytes → Bytes
strip_cr [] = []
strip_cr (c ∷ []) = if c == b'\r' then [] else c ∷ []
strip_cr (c ∷ d ∷ cs) = c ∷ strip_cr (d ∷ cs)

-- The loop on fuel: each round takes a newline at least out of the buffer.
unfoldable pub drain_loop : ℕ → Bytes → List Bytes × Bytes
drain_loop zero buffer = ([], buffer)
drain_loop (suc fuel) buffer = elim (find_newline buffer) [
  | none ↦ ([], buffer)
  | some (line, rest) ↦ (strip_cr line ∷ (drain_loop fuel rest).0, (drain_loop fuel rest).1)
]

-- The lines, and the bytes left in the buffer.
unfoldable pub drain_lines : Bytes → List Bytes × Bytes
drain_lines buffer = drain_loop (length buffer) buffer

-- `line + '\n'`, the payload of `Client::send_line` and `Server::send_line`.
unfoldable pub line_payload : Bytes → Bytes
line_payload line = line ++ b'\n' ∷ []
