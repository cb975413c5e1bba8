-- ===== src/Ipc/Socket.antt =====
-- What the operating system answers to the calls of src/common/ipc.cpp. A descriptor is a number; the
-- value -1 is `none`.
use openhd_glide.Base.{
  ◌≡◌, sym, ◌∙◌, append-nil, append_assoc, flatten, ℕ, Bool, false, List, [], ◌∷◌, ◌++◌, length,
  ◌==◌, Bytes,
}
use openhd_glide.Base.Int.{ℤ, pos, negsuc}

-- The `recv` calls of one loop: the reads that return bytes, and whether the call that ends the
-- loop returns 0, the end of the stream, rather than an error.
pub record Incoming : Type 0 where
  pub chunks : List Bytes
  pub ended : Bool

-- What `send` returns for a descriptor and these bytes: the number sent, or -1.
abbrev pub Transmit : Type 0
Transmit = ℕ → Bytes → ℤ

-- `send(...) == static_cast<ssize_t>(payload.size())`.
unfoldable pub sent_all : ℤ → Bytes → Bool
sent_all (pos n) payload = n == length payload
sent_all (negsuc n) payload = false

-- `read_buffer.append(buffer, bytes)` for each read.
unfoldable pub append_chunks : Bytes → List Bytes → Bytes
append_chunks buffer [] = buffer
append_chunks buffer (chunk ∷ chunks) = append_chunks (buffer ++ chunk) chunks

pub append_chunks-flatten :
    (buffer : Bytes) (chunks : List Bytes) → append_chunks buffer chunks ≡ buffer ++ flatten chunks
unfolding append_chunks
append_chunks-flatten buffer [] = sym (append-nil buffer)
append_chunks-flatten buffer (chunk ∷ chunks) =
    append_chunks-flatten (buffer ++ chunk) chunks ∙ append_assoc buffer chunk (flatten chunks)
