-- ===== src/Mavlink/State/Messages.antt =====
-- The messages of the snapshot: the last five, in order.
use openhd_glide.Base.{
  ℕ, zero, suc, ◌+◌, ◌-◌, ◌≤◌, ◌<◌, ◌≡◌, refl, sym, ap, subst, ◌∙◌, Bool, true, false, List, [],
  ◌∷◌, ◌++◌, length, length-append, length-drop, length-take, append-nil, append_assoc, flatten,
  map, take, drop, ltb, if◌then◌else◌, if_elim, Bytes, codes, same_bytes, arith,
}
use openhd_glide.Mavlink.State.{Snapshot, fresh_snapshot, put_at, shift_in, push_message}
use openhd_glide.Mavlink.State.Reader.{Reader, open_reader, read_word}
use openhd_glide.Mavlink.State.Keys.{Key, key_of}
use openhd_glide.Mavlink.State.Telemetry.{Floats}
use openhd_glide.Mavlink.State.Lines.{apply_key, dispatch, apply_ipc_line}
use openhd_glide.Mavlink.State.Percents.{apply_all}
use openhd_glide.Mavlink.State.Keeping.{message_of, Keeps, apply_key-push_message}

-- Five places, of which the first `message_count` are shown.
pub record HasFive (messages : List Bytes) (count : ℕ) : Type 0 where
  pub five : length messages ≡ 5
  pub in_range : count ≤ 5

abbrev pub shown : Snapshot → List Bytes
shown s = take s.message_count s.messages

abbrev pub last_five : List Bytes → List Bytes
last_five xs = drop (length xs - 5) xs

length-put_at :
    (k : ℕ) (message : Bytes) (ms : List Bytes) → length (put_at k message ms) ≡ length ms
unfolding put_at
length-put_at k message [] = refl
length-put_at zero message (m ∷ ms) = refl
length-put_at (suc k) message (m ∷ ms) = ap suc (length-put_at k message ms)

take-put_at :
    (k : ℕ) (message : Bytes) (ms : List Bytes)
    → k < length ms
    → take (suc k) (put_at k message ms) ≡ take k ms ++ message ∷ []
unfolding put_at
take-put_at k message [] h = ground (arith, h)
take-put_at zero message (m ∷ ms) h = refl
take-put_at (suc k) message (m ∷ ms) h = ap (◌∷◌ m) (take-put_at k message ms (omega (arith, h)))

take-all : (n : ℕ) (xs : List Bytes) → length xs ≤ n → take n xs ≡ xs
take-all zero [] h = refl
take-all zero (x ∷ xs) h = ground (arith, h)
take-all (suc n) [] h = refl
take-all (suc n) (x ∷ xs) h = ap (◌∷◌ x) (take-all n xs (omega (arith, h)))

-- The list of a message that is not empty.
abbrev some_message : Bytes → List Bytes
some_message [] = []
some_message (c ∷ cs) = (c ∷ cs) ∷ []

drop-append : (n : ℕ) (xs ys : List Bytes) → n ≤ length xs → drop n (xs ++ ys) ≡ drop n xs ++ ys
drop-append zero xs ys h = refl
drop-append (suc n) [] ys h = ground (arith, h)
drop-append (suc n) (x ∷ xs) ys h = drop-append n xs ys (omega (arith, h))

drop_nil : (n : ℕ) → drop {A = Bytes} n [] ≡ []
drop_nil zero = refl
drop_nil (suc n) = refl

drop-drop : (m n : ℕ) (xs : List Bytes) → drop m (drop n xs) ≡ drop (n + m) xs
drop-drop m zero xs = let same : m ≡ 0 + m = omega arith in ap (λ (k : ℕ). drop k xs) same
drop-drop m (suc n) [] = drop_nil m ∙ sym (drop_nil (suc n + m))
drop-drop m (suc n) (x ∷ xs) =
    let same : suc (n + m) ≡ suc n + m = omega arith in
    drop-drop m n xs ∙ ap (λ (k : ℕ). drop k (x ∷ xs)) same

-- Only the last five of a list matter for the last five of what it grows to.
last_five-append : (xs ys : List Bytes) → last_five (last_five xs ++ ys) ≡ last_five (xs ++ ys)
last_five-append xs ys =
    let cut = length xs - 5 in
    let grown = sym (drop-append cut xs ys (omega arith)) in
    let sizes : cut + (length (drop cut xs ++ ys) - 5) ≡ length (xs ++ ys) - 5 =
      omega (arith, length-append (drop cut xs) ys, length-append xs ys, length-drop cut xs) in
    ap (drop (length (drop cut xs ++ ys) - 5)) grown
    ∙ drop-drop (length (drop cut xs ++ ys) - 5) cut (xs ++ ys)
    ∙ ap (λ (n : ℕ). drop n (xs ++ ys)) sizes

last_five-short : (xs : List Bytes) → length xs ≤ 5 → xs ≡ last_five xs
last_five-short xs h =
    let none_cut : 0 ≡ length xs - 5 = omega (arith, h) in ap (λ (n : ℕ). drop n xs) none_cut

length-shown : (s : Snapshot) → HasFive s.messages s.message_count → length (shown s) ≤ 5
length-shown s w = omega (arith, length-take s.message_count s.messages, w.in_range)

shift_in-last_five :
    (message : Bytes) (ms : List Bytes)
    → length ms ≡ 5
    → shift_in message ms ≡ last_five (ms ++ message ∷ [])
unfolding shift_in
shift_in-last_five message [] e = ground (arith, e)
shift_in-last_five message (m ∷ ms) e =
    let one : 1 ≡ length (m ∷ (ms ++ message ∷ [])) - 5 =
      omega (arith, e, length-append ms (message ∷ [])) in
    ap (λ (n : ℕ). drop n (m ∷ (ms ++ message ∷ []))) one

length-shift_in :
    (message : Bytes) (ms : List Bytes) → length ms ≡ 5 → length (shift_in message ms) ≡ 5
unfolding shift_in
length-shift_in message [] e = ground (arith, e)
length-shift_in message (m ∷ ms) e = omega (arith, e, length-append ms (message ∷ []))

-- What the snapshot shows behind a message, and that it keeps its five places.
abbrev Shows : Snapshot → Snapshot → Bytes → Type 0
Shows s s' message =
    (shown s' ≡ last_five (shown s ++ some_message message)) × HasFive s'.messages s'.message_count

push_message-Shows :
    (s : Snapshot) (message : Bytes)
    → HasFive s.messages s.message_count
    → Shows s (push_message s message) message
unfolding push_message
push_message-Shows s [] w =
    (last_five-short (shown s) (length-shown s w) ∙ ap last_five (sym (append-nil (shown s))), w)
push_message-Shows s (c ∷ cs) w =
    if_elim (λ (s' : Snapshot). Shows s s' (c ∷ cs)) (ltb s.message_count (length s.messages))
      (λ e.
        let free : s.message_count < 5 = ground (arith, e, w.five) in
        let taken = take-put_at s.message_count (c ∷ cs) s.messages (ground (arith, e)) in
        let short : length (shown s ++ (c ∷ cs) ∷ []) ≤ 5 = omega (
          arith,
          free,
          length-append (shown s) ((c ∷ cs) ∷ []),
          length-take s.message_count s.messages,
        ) in
        (
          taken ∙ last_five-short (shown s ++ (c ∷ cs) ∷ []) short,
          record {
            five = length-put_at s.message_count (c ∷ cs) s.messages ∙ w.five;
            in_range = free;
          },
        ))
      (λ e.
        let full : s.message_count ≡ 5 = ground (arith, e, w.five, w.in_range) in
        let all = take-all s.message_count s.messages (omega (arith, full, w.five)) in
        let shifted = shift_in-last_five (c ∷ cs) s.messages w.five in
        let size = length-shift_in (c ∷ cs) s.messages w.five in
        (
          take-all s.message_count (shift_in (c ∷ cs) s.messages) (omega (arith, full, size))
              ∙ shifted
              ∙ ap (λ (xs : List Bytes). last_five (xs ++ (c ∷ cs) ∷ [])) (sym all),
          record { five = size; in_range = w.in_range },
        ))

-- The messages that a line brings: none or one.
unfoldable pub texts_of : Bytes → List Bytes
texts_of line =
    let (prefix, r) = read_word (open_reader line) in
    let (key, r') = read_word r in
    if same_bytes prefix (codes "mav") then some_message (message_of (key_of key) r') else []

Shows-Keeps :
    (s s' s'' : Snapshot) (message : Bytes)
    → Keeps s' s''
    → Shows s s' message
    → Shows s s'' message
Shows-Keeps s s' s'' message (same, count) (e, w) = (
  ap (λ (n : ℕ). take n s''.messages) count ∙ ap (take s'.message_count) same ∙ e,
  record { five = ap length same ∙ w.five; in_range = omega (arith, count, w.in_range) },
)

-- The run of a snapshot that showed the last five of `past`.
abbrev Continues : Snapshot → List Bytes → Type 0
Continues s past = (shown s ≡ last_five past) × HasFive s.messages s.message_count

dispatch-Continues :
    (f : Floats) (s : Snapshot) (is_mav : Bool) (k : Key) (r : Reader) (past : List Bytes)
    → Continues s past
    → Continues
        (dispatch f s is_mav k r).0
        (past ++ (if is_mav then some_message (message_of k r) else []))
unfolding dispatch
dispatch-Continues f s false k r past c = subst (Continues s) (sym (append-nil past)) c
dispatch-Continues f s true k r past (e, w) =
    let message = message_of k r in
    let pushed = push_message-Shows s message w in
    let (e', w') =
      Shows-Keeps s (push_message s message) (apply_key f s k r).0 message
        (apply_key-push_message f s k r) pushed in
    (
      e'
          ∙ ap (λ (xs : List Bytes). last_five (xs ++ some_message message)) e
          ∙ last_five-append past (some_message message),
      w',
    )

apply_all-Continues :
    (f : Floats) (s : Snapshot) (lines past : List Bytes)
    → Continues s past
    → Continues (apply_all f s lines) (past ++ flatten (map texts_of lines))
unfolding apply_all apply_ipc_line texts_of
apply_all-Continues f s [] past c = subst (Continues s) (sym (append-nil past)) c
apply_all-Continues f s (line ∷ lines) past c =
    let (prefix, r) = read_word (open_reader line) in
    let (key, r') = read_word r in
    let first = dispatch-Continues f s (same_bytes prefix (codes "mav")) (key_of key) r' past c in
    subst (Continues (apply_all f (apply_ipc_line f s line).0 lines))
      (append_assoc past (texts_of line) (flatten (map texts_of lines)))
      (apply_all-Continues f (apply_ipc_line f s line).0 lines (past ++ texts_of line) first)

-- After any lines the snapshot shows the last five of the messages that the lines brought, in their
-- order, with empty ones left out. It has five places, and shows no more than that.
pub apply_all-messages :
    (f : Floats) (lines : List Bytes)
    → let s = apply_all f fresh_snapshot lines in
      (take s.message_count s.messages ≡ last_five (flatten (map texts_of lines)))
      × HasFive s.messages s.message_count
apply_all-messages f lines =
    apply_all-Continues f fresh_snapshot lines []
      (refl, record { five = refl; in_range = omega arith })
