-- ===== src/Mavlink/Decode/Numbers.antt =====
-- A number that `std::to_string` prints is read back by `std::istringstream`.
use openhd_glide.Base.{
  ℕ, zero, suc, ◌+◌, ◌*◌, ◌/◌, ◌%◌, ◌^◌, ◌≤◌, ◌<◌, ◌≡◌, refl, sym, ap, ◌∙◌, Bool, true, false, [],
  ◌∷◌, ◌++◌, ltb, if_elim, Bool-cases, inl, inr, Bytes, arith,
}
use openhd_glide.Base.Int.{ℤ, pos, negsuc}
use openhd_glide.Mavlink.Text.{is_space, skip_spaces}
use openhd_glide.Mavlink.Heartbeat.{digits_of, to_string}
use openhd_glide.Mavlink.Protocol.{int_to_string}
use openhd_glide.Mavlink.State.Reader.{
  Scanned, digits_run, int_value, scan_digits, scan_int, number_of, read_number, read_int,
}

digits_of-append :
    (fuel n : ℕ) (acc rest : Bytes) → digits_of fuel n acc ++ rest ≡ digits_of fuel n (acc ++ rest)
unfolding digits_of
digits_of-append zero n acc rest = refl
digits_of-append (suc fuel) n acc rest =
    let later = digits_of-append fuel (n / 10) ((b'0' + n % 10) ∷ acc) rest in ground (arith, later)

digits_run-digit :
    (m n : ℕ) (acc : Bytes)
    → digits_run m ((b'0' + n % 10) ∷ acc) ≡ digits_run (m * 10 + n % 10) acc
unfolding digits_run
digits_run-digit m n acc = ground arith

digits_run-digits_of :
    (fuel n : ℕ) (acc : Bytes)
    → n < 10 ^ fuel
    → digits_run 0 (digits_of fuel n acc) ≡ digits_run n acc
unfolding digits_of
digits_run-digits_of zero n acc h =
    let none : 0 ≡ n = omega (arith, h) in ap (λ (k : ℕ). digits_run k acc) none
digits_run-digits_of (suc fuel) n acc h = elim (Bool-cases (ltb n 10)) [
  | inl e ↦
      let same : 0 * 10 + n % 10 ≡ n = ground (arith, e) in
      rw e (digits_run-digit 0 n acc ∙ ap (λ (k : ℕ). digits_run k acc) same)
  | inr e ↦
      let same : n / 10 * 10 + n % 10 ≡ n = omega arith in
      rw e (
        digits_run-digits_of fuel (n / 10) ((b'0' + n % 10) ∷ acc) (omega (arith, h))
        ∙ digits_run-digit (n / 10) n acc
        ∙ ap (λ (k : ℕ). digits_run k acc) same)
]

-- A text whose first character is a digit.
record StartsDigit (text : Bytes) : Type 0 where
  first : ℕ
  others : Bytes
  splits : text ≡ first ∷ others
  from_0 : 48 ≤ first
  to_9 : first ≤ 57

digits_of-StartsDigit :
    (fuel n : ℕ) (acc : Bytes) → StartsDigit acc → StartsDigit (digits_of fuel n acc)
unfolding digits_of
digits_of-StartsDigit zero n acc s = s
digits_of-StartsDigit (suc fuel) n acc s =
    let put : StartsDigit ((b'0' + n % 10) ∷ acc) = record {
      first = b'0' + n % 10;
      others = acc;
      splits = refl;
      from_0 = omega arith;
      to_9 = omega arith;
    } in
    if_elim StartsDigit (ltb n 10) (λ e. put)
      (λ e. digits_of-StartsDigit fuel (n / 10) ((b'0' + n % 10) ∷ acc) put)

to_string-StartsDigit : (n : ℕ) (rest : Bytes) → StartsDigit (digits_of 20 n rest)
unfolding digits_of
to_string-StartsDigit n rest =
    let put : StartsDigit ((b'0' + n % 10) ∷ rest) = record {
      first = b'0' + n % 10;
      others = rest;
      splits = refl;
      from_0 = omega arith;
      to_9 = omega arith;
    } in
    if_elim StartsDigit (ltb n 10) (λ e. put)
      (λ e. digits_of-StartsDigit 19 (n / 10) ((b'0' + n % 10) ∷ rest) put)

-- Where a number ends: at the end of the line or at a space.
abbrev pub Ends : Bytes → Type 0
Ends [] = Unit
Ends (c ∷ cs) = c ≡ 32

digits_run-Ends : (n : ℕ) (rest : Bytes) → Ends rest → digits_run n rest ≡ (n, rest)
unfolding digits_run
digits_run-Ends n [] h = refl
digits_run-Ends n (c ∷ cs) h = ground (arith, h)

scan_digits-digit :
    (negative : Bool) (c : ℕ) (cs : Bytes)
    → 48 ≤ c
    → c ≤ 57
    → scan_digits negative (c ∷ cs) ≡ int_value negative (digits_run 0 (c ∷ cs))
unfolding scan_digits
scan_digits-digit negative c cs h k = ground (arith, h, k)

scan_digits-StartsDigit :
    (negative : Bool) (text : Bytes)
    → StartsDigit text
    → scan_digits negative text ≡ int_value negative (digits_run 0 text)
scan_digits-StartsDigit negative text s =
    rw s.splits (scan_digits-digit negative s.first s.others s.from_0 s.to_9)

scan_digits-number :
    (negative : Bool) (n : ℕ) (rest : Bytes)
    → n < 10 ^ 20
    → Ends rest
    → scan_digits negative (digits_of 20 n rest) ≡ int_value negative (n, rest)
scan_digits-number negative n rest h e =
    scan_digits-StartsDigit negative (digits_of 20 n rest) (to_string-StartsDigit n rest)
    ∙ ap (int_value negative) (digits_run-digits_of 20 n rest h ∙ digits_run-Ends n rest e)

scan_int-digit :
    (c : ℕ) (cs : Bytes) → 48 ≤ c → c ≤ 57 → scan_int (c ∷ cs) ≡ scan_digits false (c ∷ cs)
unfolding scan_int
scan_int-digit c cs h k = ground (arith, h, k)

scan_int-StartsDigit : (text : Bytes) → StartsDigit text → scan_int text ≡ scan_digits false text
scan_int-StartsDigit text s = rw s.splits (scan_int-digit s.first s.others s.from_0 s.to_9)

-- The range of an `int`.
abbrev pub IsInt : ℤ → Type 0
IsInt (pos n) = n < 2 ^ 31
IsInt (negsuc n) = n < 2 ^ 31

abbrev scanned : ℤ → Bytes → Scanned ℤ
scanned z rest = record { value = z; behind = rest; fails = false }

int_value-pos :
    (n : ℕ) (rest : Bytes) → n < 2 ^ 31 → int_value false (n, rest) ≡ scanned (pos n) rest
unfolding int_value
int_value-pos n rest h = ground (arith, h)

int_value-negsuc :
    (n : ℕ) (rest : Bytes) → n < 2 ^ 31 → int_value true (n + 1, rest) ≡ scanned (negsuc n) rest
unfolding int_value
int_value-negsuc n rest h = ground (arith, h)

scan_int-int_to_string :
    (z : ℤ) (rest : Bytes)
    → IsInt z
    → Ends rest
    → scan_int (int_to_string z ++ rest) ≡ scanned z rest
unfolding int_to_string to_string
scan_int-int_to_string (pos n) rest h e =
    ap scan_int (digits_of-append 20 n [] rest)
    ∙ scan_int-StartsDigit (digits_of 20 n rest) (to_string-StartsDigit n rest)
    ∙ scan_digits-number false n rest (omega (arith, h)) e
    ∙ int_value-pos n rest h
scan_int-int_to_string (negsuc n) rest h e =
    unfold scan_int in
    ap (scan_digits true) (digits_of-append 20 (n + 1) [] rest)
    ∙ scan_digits-number true (n + 1) rest (omega (arith, h)) e
    ∙ int_value-negsuc n rest h

-- A text whose first character is not a space.
record StartsWord (text : Bytes) : Type 0 where
  first : ℕ
  others : Bytes
  splits : text ≡ first ∷ others
  no_space : is_space first ≡ false

int_to_string-StartsWord : (z : ℤ) (rest : Bytes) → StartsWord (int_to_string z ++ rest)
unfolding int_to_string to_string is_space
int_to_string-StartsWord (negsuc n) rest = record {
  first = b'-';
  others = to_string (n + 1) ++ rest;
  splits = refl;
  no_space = refl;
}
int_to_string-StartsWord (pos n) rest =
    let s = to_string-StartsDigit n rest in
    record {
      first = s.first;
      others = s.others;
      splits = digits_of-append 20 n [] rest ∙ s.splits;
      no_space = ground (arith, s.from_0);
    }

skip_spaces-word : (c : ℕ) (cs : Bytes) → is_space c ≡ false → skip_spaces (32 ∷ (c ∷ cs)) ≡ c ∷ cs
unfolding skip_spaces
skip_spaces-word c cs h = rw h (unfold is_space in refl)

number_of-scanned :
    (text : Bytes) (old z : ℤ) (rest : Bytes)
    → StartsWord text
    → scan_int text ≡ scanned z rest
    → number_of scan_int old (skip_spaces (32 ∷ text)) ≡ (z, record { rest = rest; failed = false })
unfolding number_of
number_of-scanned text old z rest s e =
    let found : scan_int (s.first ∷ s.others) ≡ scanned z rest = ap scan_int (sym s.splits) ∙ e in
    rw s.splits (rw (skip_spaces-word s.first s.others s.no_space) (rw found refl))

-- A field that a line prints, read with `>>` into any variable: the number, and the rest of the line.
pub read_int-field :
    (old z : ℤ) (rest : Bytes)
    → IsInt z
    → Ends rest
    → read_int old (record { rest = 32 ∷ (int_to_string z ++ rest); failed = false })
      ≡ (z, record { rest = rest; failed = false })
unfolding read_number
read_int-field old z rest h e =
    number_of-scanned (int_to_string z ++ rest) old z rest (int_to_string-StartsWord z rest)
      (scan_int-int_to_string z rest h e)
