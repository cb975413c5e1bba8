-- ===== src/Base/Same.antt =====
-- When `same_bytes` holds.
use openhd_glide.Base.{
  ℕ, suc, ◌≡◌, ◌≢◌, refl, ap, ◌∙◌, Bool-cases, inl, inr, length, length-append, true, false, [],
  ◌∷◌, ◌++◌, Bytes, same_bytes, arith,
}

pub same_bytes_refl : (text : Bytes) → same_bytes text text ≡ true
unfolding same_bytes
same_bytes_refl [] = refl
same_bytes_refl (c ∷ cs) = ground (arith, same_bytes_refl cs)

pub same_bytes-prefix :
    (text left right : Bytes) → same_bytes (text ++ left) (text ++ right) ≡ same_bytes left right
unfolding same_bytes
same_bytes-prefix [] left right = refl
same_bytes-prefix (c ∷ cs) left right = ground (arith, same_bytes-prefix cs left right)

same_bytes-length : (left right : Bytes) → same_bytes left right ≡ true → length left ≡ length right
unfolding same_bytes
same_bytes-length [] [] h = refl
same_bytes-length [] (d ∷ right) h = cc h
same_bytes-length (c ∷ left) [] h = cc h
same_bytes-length (c ∷ left) (d ∷ right) h =
    ap suc (same_bytes-length left right (ground (arith, h)))

longer_differs : (left right : Bytes) → length left ≢ length right → same_bytes left right ≡ false
longer_differs left right n = ground (arith, n, same_bytes-length left right)

-- Texts that differ still do behind the same suffix.
pub same_bytes-suffix :
    (left right text : Bytes)
    → same_bytes left right ≡ false
    → same_bytes (left ++ text) (right ++ text) ≡ false
unfolding same_bytes
same_bytes-suffix [] [] text h = cc h
same_bytes-suffix [] (d ∷ right) text h =
    longer_differs text (d ∷ (right ++ text)) (omega (arith, length-append right text))
same_bytes-suffix (c ∷ left) [] text h =
    longer_differs (c ∷ (left ++ text)) text (omega (arith, length-append left text))
same_bytes-suffix (c ∷ left) (d ∷ right) text h = elim (Bool-cases (same_bytes left right)) [
  | inl e ↦ ground (arith, h, e)
  | inr e ↦ rw (same_bytes-suffix left right text e) refl
]

pub same_bytes→eq : (left right : Bytes) → same_bytes left right ≡ true → left ≡ right
unfolding same_bytes
same_bytes→eq [] [] h = refl
same_bytes→eq [] (d ∷ right) h = cc h
same_bytes→eq (c ∷ left) [] h = cc h
same_bytes→eq (c ∷ left) (d ∷ right) h =
    let head : c ≡ d = ground (arith, h) in
    let tail = same_bytes→eq left right (ground (arith, h)) in
    ap (◌∷◌ c) tail ∙ ap (λ (b : ℕ). b ∷ right) head
