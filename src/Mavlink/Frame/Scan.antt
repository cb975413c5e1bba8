-- ===== src/Mavlink/Frame/Scan.antt =====
-- Induction along the loops of `parse_datagram` and `parse_stream`.
use openhd_glide.Base.{
  ℕ, zero, suc, ◌≤◌, ◌≡◌, true, false, [], ◌∷◌, arith, length, drop, length-drop, Bytes, inl, inr,
  Bool-cases,
}
use openhd_glide.Mavlink.Frame.{is_magic, frame_len}
use openhd_glide.Mavlink.Frame.Head.{IsWhole, IsWhole-cases, frame_len-pos}

-- Induction along the loop: what holds at the end and at a byte that stops it, and is passed back
-- by a skipped byte and by a whole frame, holds of every sequence.
pub scan_rule {ℓ} :
    (P : Bytes → Type ℓ)
    → P []
    → ((b : ℕ) (tl : Bytes) → is_magic b ≡ false → P tl → P (b ∷ tl))
    → ((b : ℕ) (tl : Bytes) → is_magic b ≡ true → (IsWhole (b ∷ tl) → ⊥) → P (b ∷ tl))
    → ((b : ℕ) (tl : Bytes)
        → is_magic b ≡ true
        → IsWhole (b ∷ tl)
        → P (drop (frame_len (b ∷ tl)) (b ∷ tl))
        → P (b ∷ tl))
    → (k : ℕ) (bytes : Bytes) → length bytes ≤ k
    → P bytes
scan_rule P nil skip short frame k [] h = nil
scan_rule P nil skip short frame zero (b ∷ tl) h = elim h [ ]
scan_rule P nil skip short frame (suc k) (b ∷ tl) h = elim (Bool-cases (is_magic b)) [
  | inr m ↦ skip b tl m (scan_rule P nil skip short frame k tl (omega arith))
  | inl m ↦ elim (IsWhole-cases (b ∷ tl)) [
    | inr w ↦ short b tl m w
    | inl w ↦ frame b tl m w (
        scan_rule P nil skip short frame k (drop (frame_len (b ∷ tl)) (b ∷ tl))
          (omega (arith, frame_len-pos (b ∷ tl), length-drop (frame_len (b ∷ tl)) (b ∷ tl))))
  ]
]
