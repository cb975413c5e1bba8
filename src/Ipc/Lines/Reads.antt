-- ===== src/Ipc/Lines/Reads.antt =====
-- Lines over a connection: reads cut anywhere, and the round trip of `send_line`.
use openhd_glide.Base.{
  Bool, true, false, ◌==◌, All-append, ℕ, zero, suc, ◌<◌, ◌≡◌, ◌≢◌, refl, ap, ◌∙◌, inl, inr,
  Option-cases, List, [], ◌∷◌, ◌++◌, length, Bytes, arith, All, flatten, map, append_assoc,
}
use openhd_glide.Ipc.Lines.{find_newline, strip_cr, drain_lines, line_payload}
use openhd_glide.Ipc.Lines.Framing.{
  HasNoNewline, find_newline-none, find_newline-some, find_newline-shorter, drain_lines-done,
  drain_lines-line,
}

-- Induction over the lines of a buffer.
lines_rule {ℓ} :
    (P : Bytes → Type ℓ)
    → ((xs : Bytes) → HasNoNewline xs → P xs)
    → ((line rest : Bytes) → HasNoNewline line → P rest → P (line ++ b'\n' ∷ rest))
    → (k : ℕ) (xs : Bytes) → length xs < k
    → P xs
lines_rule P done line zero xs h = elim h [ ]
lines_rule P done line (suc k) xs h = elim (Option-cases (find_newline xs)) [
  | inl e ↦ done xs (find_newline-none xs e)
  | inr ((l, r), e) ↦
      let (split, one_line) = find_newline-some xs l r e in
      let less = find_newline-shorter xs l r e in
      rw split (line l r one_line (lines_rule P done line k r (omega arith)))
]

-- One read after another.
abbrev pub then_drain : List Bytes × Bytes → Bytes → List Bytes × Bytes
then_drain (lines, left) more =
    let (later, last) = drain_lines (left ++ more) in (lines ++ later, last)

-- Bytes that come later do not change the lines that came before.
pub drain_lines-append :
    (more xs : Bytes) → drain_lines (xs ++ more) ≡ then_drain (drain_lines xs) more
drain_lines-append more xs =
    lines_rule (λ xs. drain_lines (xs ++ more) ≡ then_drain (drain_lines xs) more)
      (λ xs h. rw (drain_lines-done xs h))
      (λ line rest h ih. rw (
        append_assoc line (b'\n' ∷ rest) more,
        drain_lines-line line (rest ++ more) h,
        drain_lines-line line rest h,
        ih,
      ))
      (suc (length xs)) xs (omega arith)

-- What is left holds no newline, so it is never a whole line.
pub drain_lines-HasNoNewline : (xs : Bytes) → HasNoNewline (drain_lines xs).1
drain_lines-HasNoNewline xs =
    lines_rule (λ xs. HasNoNewline (drain_lines xs).1) (λ xs h. rw (drain_lines-done xs h) h)
      (λ line rest h ih. rw (drain_lines-line line rest h) ih) (suc (length xs)) xs (omega arith)

-- A line that `send_line` delivers unchanged: it holds no newline and does not end in '\r'.
pub record IsLine (line : Bytes) : Type 0 where
  pub one_line : HasNoNewline line
  pub no_cr : (front' : Bytes) → line ≢ front' ++ b'\r' ∷ []

strip_cr-eq :
    (line : Bytes) → ((front' : Bytes) → line ≢ front' ++ b'\r' ∷ []) → strip_cr line ≡ line
unfolding strip_cr
strip_cr-eq [] h = refl
strip_cr-eq (c ∷ []) h = ground (arith, h [])
strip_cr-eq (c ∷ d ∷ cs) h =
    ap (◌∷◌ c) (strip_cr-eq (d ∷ cs) (λ front' e. h (c ∷ front') (ap (◌∷◌ c) e)))

pub drain_lines-line_payload :
    (line rest : Bytes)
    → IsLine line
    → drain_lines (line_payload line ++ rest) ≡ (line ∷ (drain_lines rest).0, (drain_lines rest).1)
unfolding line_payload
drain_lines-line_payload line rest h = rw (
  append_assoc line (b'\n' ∷ []) rest,
  drain_lines-line line rest h.one_line,
  strip_cr-eq line h.no_cr,
)

-- Sent lines come out as they were sent, in order, with nothing left over.
pub drain_lines-payloads :
    (lines : List Bytes)
    → All IsLine lines
    → drain_lines (flatten (map line_payload lines)) ≡ (lines, [])
drain_lines-payloads [] h = drain_lines-done [] tt
drain_lines-payloads (line ∷ lines) h =
    drain_lines-line_payload line (flatten (map line_payload lines)) h.0
    ∙ rw (drain_lines-payloads lines h.1)

append-eq-nil : (xs ys : Bytes) → xs ++ ys ≡ [] → ys ≡ []
append-eq-nil [] ys e = e
append-eq-nil (x ∷ xs) ys e = cc

no_cr-append :
    (xs line front' : Bytes)
    → line ≢ []
    → ((f : Bytes) → line ≢ f ++ b'\r' ∷ [])
    → xs ++ line ≢ front' ++ b'\r' ∷ []
no_cr-append [] line front' ne h e = h front' e
no_cr-append (x ∷ xs) line [] ne h e = ne (append-eq-nil xs line (cc))
no_cr-append (x ∷ xs) line (y ∷ front') ne h e = no_cr-append xs line front' ne h (cc)

-- Bytes with no newline in front of a line that is not empty make a line.
pub IsLine-append :
    (xs line : Bytes) → HasNoNewline xs → IsLine line → line ≢ [] → IsLine (xs ++ line)
IsLine-append xs line h l ne = record {
  one_line = All-append (λ c. c ≢ b'\n') xs line h l.one_line;
  no_cr = λ f. no_cr-append xs line f ne l.no_cr;
}

abbrev pub ends_in_cr : Bytes → Bool
ends_in_cr [] = false
ends_in_cr (c ∷ []) = c == b'\r'
ends_in_cr (c ∷ d ∷ cs) = ends_in_cr (d ∷ cs)

ends_in_cr-append : (f : Bytes) → ends_in_cr (f ++ b'\r' ∷ []) ≡ true
ends_in_cr-append [] = refl
ends_in_cr-append (c ∷ []) = refl
ends_in_cr-append (c ∷ d ∷ f) = ends_in_cr-append (d ∷ f)

-- The test decides the second half of `IsLine`.
pub no_cr-ends : (line : Bytes) → ends_in_cr line ≡ false → (f : Bytes) → line ≢ f ++ b'\r' ∷ []
no_cr-ends line h f e = cc (ends_in_cr-append f, ap ends_in_cr e)
