-- ===== src/Platform/Cores/Ranking.antt =====
-- The sorted list of online cores: its members, its order, its distinct ids.
use openhd_glide.Base.{
  sym, ◌≡◌, ◌≢◌, true, false, List, [], ◌∷◌, All, arith, ◌⊎◌, inl, inr, Bool-cases,
}
use openhd_glide.Platform.Cores.{
  CpuCoreInfo, CoreAssignmentOptions, before, is_eligible, eligible_cores, insert, sort,
}

-- Some element has the property.
abbrev pub Any : {A : Type 0} → (A → Type 0) → List A → Type 0
Any P [] = ⊥
Any P (x ∷ xs) = P x ⊎ Any P xs

pub All-Any :
    {A : Type 0} (P Q : A → Type 0) (xs : List A)
    → ((x : A) → P x → Q x → ⊥)
    → All P xs
    → Any Q xs
    → ⊥
All-Any P Q (x ∷ xs) h (p, ps) (inl q) = h x p q
All-Any P Q (x ∷ xs) h (p, ps) (inr qs) = All-Any P Q xs h ps qs
All-Any P Q [] h ps q = q

module _ (P : CpuCoreInfo → Type 0) where
  insert-All : (c : CpuCoreInfo) (cs : List CpuCoreInfo) → P c → All P cs → All P (insert c cs)
  unfolding insert
  insert-All c [] p h = (p, tt)
  insert-All c (d ∷ ds) p h = elim (Bool-cases (before d c)) [
    | inl e ↦ rw e (h.0, insert-All c ds p h.1)
    | inr e ↦ rw e (p, h)
  ]

  pub sort-All : (cs : List CpuCoreInfo) → All P cs → All P (sort cs)
  unfolding sort
  sort-All [] h = tt
  sort-All (c ∷ cs) h = insert-All c (sort cs) h.0 (sort-All cs h.1)

  All-insert : (c : CpuCoreInfo) (cs : List CpuCoreInfo) → All P (insert c cs) → P c × All P cs
  unfolding insert
  All-insert c [] h = h
  All-insert c (d ∷ ds) h = elim (Bool-cases (before d c)) [
    | inl e ↦ let (p, rest) = rw e at h in let (q, qs) = All-insert c ds rest in (q, (p, qs))
    | inr e ↦ rw e at h
  ]

  -- What holds of the sorted cores holds of the cores.
  pub All-sort : (cs : List CpuCoreInfo) → All P (sort cs) → All P cs
  unfolding sort
  All-sort [] h = tt
  All-sort (c ∷ cs) h = let (p, rest) = All-insert c (sort cs) h in (p, All-sort cs rest)

  pub All-eligible_cores :
      (options : CoreAssignmentOptions) (cs : List CpuCoreInfo)
      → All P (eligible_cores options cs)
      → All (λ c. is_eligible options c ≡ true → P c) cs
  unfolding eligible_cores
  All-eligible_cores options [] h = tt
  All-eligible_cores options (c ∷ cs) h = elim (Bool-cases (is_eligible options c)) [
    | inl e ↦ let (p, rest) = rw e at h in (λ _. p, All-eligible_cores options cs rest)
    | inr e ↦ (λ t. cc, All-eligible_cores options cs (rw e at h))
  ]

  pub eligible_cores-All :
      (options : CoreAssignmentOptions) (cs : List CpuCoreInfo)
      → All (λ c. is_eligible options c ≡ true → P c) cs
      → All P (eligible_cores options cs)
  unfolding eligible_cores
  eligible_cores-All options [] h = tt
  eligible_cores-All options (c ∷ cs) h = elim (Bool-cases (is_eligible options c)) [
    | inl e ↦ rw e (h.0 e, eligible_cores-All options cs h.1)
    | inr e ↦ rw e (eligible_cores-All options cs h.1)
  ]

-- No later core comes before an earlier one.
abbrev pub IsSorted : List CpuCoreInfo → Type 0
IsSorted [] = Unit {0}
IsSorted (c ∷ cs) = All (λ d. before d c ≡ false) cs × IsSorted cs

before-asymm : (c d : CpuCoreInfo) → before d c ≡ true → before c d ≡ false
unfolding before
before-asymm c d h = ground arith

before_trans : (c d e : CpuCoreInfo) → before d c ≡ false → before e d ≡ false → before e c ≡ false
unfolding before
before_trans c d e h k = ground arith

All-trans :
    (c d : CpuCoreInfo) (cs : List CpuCoreInfo)
    → before d c ≡ false
    → All (λ e. before e d ≡ false) cs
    → All (λ e. before e c ≡ false) cs
All-trans c d [] h a = tt
All-trans c d (e ∷ es) h a = (before_trans c d e h a.0, All-trans c d es h a.1)

insert-IsSorted : (c : CpuCoreInfo) (cs : List CpuCoreInfo) → IsSorted cs → IsSorted (insert c cs)
unfolding insert
insert-IsSorted c [] s = (tt, tt)
insert-IsSorted c (d ∷ ds) s = elim (Bool-cases (before d c)) [
  | inl e ↦
      rw e (
        insert-All (λ x. before x d ≡ false) c ds (before-asymm c d e) s.0,
        insert-IsSorted c ds s.1,
      )
  | inr e ↦ rw e ((e, All-trans c d ds e s.0), s)
]

pub sort-IsSorted : (cs : List CpuCoreInfo) → IsSorted (sort cs)
unfolding sort
sort-IsSorted [] = tt
sort-IsSorted (c ∷ cs) = insert-IsSorted c (sort cs) (sort-IsSorted cs)

-- Each logical id stands for one core.
abbrev pub AreDistinct : List CpuCoreInfo → Type 0
AreDistinct [] = Unit {0}
AreDistinct (c ∷ cs) = All (λ d. d.logical_id ≢ c.logical_id) cs × AreDistinct cs

insert-AreDistinct :
    (c : CpuCoreInfo) (cs : List CpuCoreInfo)
    → All (λ d. d.logical_id ≢ c.logical_id) cs
    → AreDistinct cs
    → AreDistinct (insert c cs)
unfolding insert
insert-AreDistinct c [] h a = (tt, tt)
insert-AreDistinct c (d ∷ ds) h a = elim (Bool-cases (before d c)) [
  | inl e ↦ rw e (
    insert-All (λ x. x.logical_id ≢ d.logical_id) c ds (λ q. h.0 (sym q)) a.0,
    insert-AreDistinct c ds h.1 a.1,
  )
  | inr e ↦ rw e (h, a)
]

pub sort-AreDistinct : (cs : List CpuCoreInfo) → AreDistinct cs → AreDistinct (sort cs)
unfolding sort
sort-AreDistinct [] a = tt
sort-AreDistinct (c ∷ cs) a =
    insert-AreDistinct c (sort cs) (sort-All (λ d. d.logical_id ≢ c.logical_id) cs a.0)
      (sort-AreDistinct cs a.1)

All-weaken :
    (P : CpuCoreInfo → Type 0) (options : CoreAssignmentOptions) (cs : List CpuCoreInfo)
    → All P cs
    → All (λ c. is_eligible options c ≡ true → P c) cs
All-weaken P options [] h = tt
All-weaken P options (c ∷ cs) h = (λ _. h.0, All-weaken P options cs h.1)

pub eligible_cores-AreDistinct :
    (options : CoreAssignmentOptions) (cs : List CpuCoreInfo)
    → AreDistinct cs
    → AreDistinct (eligible_cores options cs)
unfolding eligible_cores
eligible_cores-AreDistinct options [] a = tt
eligible_cores-AreDistinct options (c ∷ cs) a = elim (Bool-cases (is_eligible options c)) [
  | inl e ↦ rw e (
    eligible_cores-All (λ d. d.logical_id ≢ c.logical_id) options cs (All-weaken _ options cs a.0),
    eligible_cores-AreDistinct options cs a.1,
  )
  | inr e ↦ rw e (eligible_cores-AreDistinct options cs a.1)
]
