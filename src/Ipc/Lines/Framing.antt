-- ===== src/Ipc/Lines/Framing.antt =====
-- Framing: which lines come out of a sequence of reads.
use openhd_glide.Base.{
  ℕ, zero, suc, ◌+◌, ◌≤◌, ◌<◌, ◌≡◌, ◌≢◌, refl, sym, ap, ◌∙◌, inl, inr, Option-cases, [], ◌∷◌, ◌++◌,
  none, some, length, length-append, Bytes, arith, All,
}
use openhd_glide.Ipc.Lines.{find_newline, strip_cr, drain_loop, drain_lines}

-- The bytes hold no newline.
abbrev pub HasNoNewline : Bytes → Type 0
HasNoNewline = All (λ c. c ≢ b'\n')

pub find_newline-none : (xs : Bytes) → find_newline xs ≡ none → HasNoNewline xs
unfolding find_newline
find_newline-none [] h = tt
find_newline-none (c ∷ cs) h = ground (arith, find_newline-none cs)

pub none-find_newline : (xs : Bytes) → HasNoNewline xs → find_newline xs ≡ none
unfolding find_newline
none-find_newline [] h = refl
none-find_newline (c ∷ cs) h = ground (arith, none-find_newline cs)

pub find_newline-line :
    (line rest : Bytes)
    → HasNoNewline line
    → find_newline (line ++ b'\n' ∷ rest) ≡ some (line, rest)
unfolding find_newline
find_newline-line [] rest h = refl
find_newline-line (c ∷ cs) rest h = ground (arith, find_newline-line cs rest)

-- A newline that was found splits the bytes at the first newline.
pub find_newline-some :
    (xs line rest : Bytes)
    → find_newline xs ≡ some (line, rest)
    → (xs ≡ line ++ b'\n' ∷ rest) × HasNoNewline line
unfolding find_newline
find_newline-some [] line rest h = cc
find_newline-some (c ∷ cs) [] rest h = ground arith
find_newline-some (c ∷ cs) (d ∷ line) rest h = ground (arith, find_newline-some cs line rest)

drain_loop-none : (f : ℕ) (xs : Bytes) → find_newline xs ≡ none → drain_loop f xs ≡ ([], xs)
unfolding drain_loop
drain_loop-none zero xs e = refl
drain_loop-none (suc f) xs e = rw (e, drain_loop)

drain_loop-some :
    (f : ℕ) (xs line rest : Bytes)
    → find_newline xs ≡ some (line, rest)
    → drain_loop (suc f) xs ≡ (strip_cr line ∷ (drain_loop f rest).0, (drain_loop f rest).1)
unfolding drain_loop
drain_loop-some f xs line rest e = rw (e, drain_loop)

-- A line takes more room than what comes behind it.
pub find_newline-shorter :
    (xs line rest : Bytes) → find_newline xs ≡ some (line, rest) → length rest < length xs
find_newline-shorter xs line rest e =
    omega (arith, ap length (find_newline-some xs line rest e).0, length-append line (b'\n' ∷ rest))

-- Fuel beyond the length changes nothing.
drain_loop-fuel :
    (f g : ℕ) (xs : Bytes) → length xs ≤ f → length xs ≤ g → drain_loop f xs ≡ drain_loop g xs
drain_loop-fuel f g [] h k =
    drain_loop-none f [] (unfold find_newline in refl)
    ∙ sym (drain_loop-none g [] (unfold find_newline in refl))
drain_loop-fuel zero g (c ∷ cs) h k = elim h [ ]
drain_loop-fuel (suc f) zero (c ∷ cs) h k = elim k [ ]
drain_loop-fuel (suc f) (suc g) (c ∷ cs) h k = elim (Option-cases (find_newline (c ∷ cs))) [
  | inl e ↦ drain_loop-none (suc f) (c ∷ cs) e ∙ sym (drain_loop-none (suc g) (c ∷ cs) e)
  | inr ((line, rest), e) ↦
      let less = find_newline-shorter (c ∷ cs) line rest e in
      rw (
        drain_loop-some f (c ∷ cs) line rest e,
        drain_loop-some g (c ∷ cs) line rest e,
        drain_loop-fuel f g rest (omega arith) (omega arith),
      )
]

pub drain_lines-done : (xs : Bytes) → HasNoNewline xs → drain_lines xs ≡ ([], xs)
unfolding drain_lines
drain_lines-done xs h = drain_loop-none (length xs) xs (none-find_newline xs h)

-- A line that ends in a newline comes out first, and the rest is drained after it.
pub drain_lines-line :
    (line rest : Bytes)
    → HasNoNewline line
    → drain_lines (line ++ b'\n' ∷ rest)
      ≡ (strip_cr line ∷ (drain_lines rest).0, (drain_lines rest).1)
unfolding drain_lines
drain_lines-line line rest h =
    let n = length-append line (b'\n' ∷ rest) in
    let xs = line ++ b'\n' ∷ rest in
    let e : length xs ≡ suc (length line + length rest) = omega (arith, n) in
    rw e (
      drain_loop-some (length line + length rest) xs line rest (find_newline-line line rest h)
      ∙ rw (
          drain_loop-fuel (length line + length rest) (length rest) rest (omega arith)
            (omega arith)))
