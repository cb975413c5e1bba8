-- ===== src/Platform/Cores/Assignment.antt =====
-- What `assign_worker_cores` promises of its assignments.
use openhd_glide.Base.{
  ℕ, ◌≡◌, ◌≢◌, refl, true, false, List, [], ◌∷◌, All, All-mono, arith, inl, inr, Bool-cases,
}
use openhd_glide.Platform.Cores.{
  CpuCoreInfo, CpuTopology, CoreAssignmentOptions, is_eligible, eligible_cores, online_cores,
  assign_sorted, or_any_core, assign_worker_cores,
}
use openhd_glide.Platform.Cores.Ranking.{
  Any, All-Any, sort-All, All-sort, All-eligible_cores, eligible_cores-All,
}

-- The cores that the workers are given: `cores` after the fallback.
abbrev pub candidates : CpuTopology → CoreAssignmentOptions → List CpuCoreInfo
candidates topology options = or_any_core topology options (online_cores topology options)

pub or_any_core-All :
    (P : CpuCoreInfo → Type 0) (topology : CpuTopology) (options : CoreAssignmentOptions)
    (cs : List CpuCoreInfo)
    → All P cs
    → All P (online_cores topology (record { avoid_core0 = false }))
    → All P (or_any_core topology options cs)
unfolding or_any_core
or_any_core-All P topology options [] h k = elim (Bool-cases options.avoid_core0) [
  | inl e ↦ rw e k
  | inr e ↦ rw e tt
]
or_any_core-All P topology options (c ∷ cs) h k = h

assign_sorted-All :
    (R : ℕ → Type 0) (options : CoreAssignmentOptions) (cs : List CpuCoreInfo)
    → All (λ c. R c.logical_id) cs
    → All (λ a. R a.logical_core) (assign_sorted options cs)
unfolding assign_sorted
assign_sorted-All R options [] h = tt
assign_sorted-All R options (v ∷ []) h = (h.0, (h.0, (h.0, tt)))
assign_sorted-All R options (v ∷ f ∷ []) h = (h.0, (h.1.0, (h.1.0, tt)))
assign_sorted-All R options (v ∷ f ∷ u ∷ cs) h = (h.0, (h.1.0, (h.1.1.0, tt)))

-- The core with this id is one of `cs`, and it is online.
abbrev pub IsOnlineIn : List CpuCoreInfo → ℕ → Type 0
IsOnlineIn cs id = Any (λ c. (c.logical_id ≡ id) × (c.online ≡ true)) cs

All-IsOnlineIn :
    (cs : List CpuCoreInfo) → All (λ c. c.online ≡ true → IsOnlineIn cs c.logical_id) cs
All-IsOnlineIn [] = tt
All-IsOnlineIn (c ∷ cs) = (
  λ on. inl (refl, on),
  All-mono (λ d. d.online ≡ true → IsOnlineIn cs d.logical_id)
      (λ d. d.online ≡ true → IsOnlineIn (c ∷ cs) d.logical_id) cs (λ d h on. inr (h on))
      (All-IsOnlineIn cs),
)

is_eligible-online :
    (options : CoreAssignmentOptions) (c : CpuCoreInfo)
    → is_eligible options c ≡ true
    → c.online ≡ true
unfolding is_eligible
is_eligible-online options c h = ground arith

pub online_cores-All :
    (P : CpuCoreInfo → Type 0) (topology : CpuTopology) (options : CoreAssignmentOptions)
    → All (λ c. is_eligible options c ≡ true → P c) topology.cores
    → All P (online_cores topology options)
unfolding online_cores
online_cores-All P topology options h =
    sort-All P (eligible_cores options topology.cores)
      (eligible_cores-All P options topology.cores h)

pub All-online_cores :
    (P : CpuCoreInfo → Type 0) (topology : CpuTopology) (options : CoreAssignmentOptions)
    → All P (online_cores topology options)
    → All (λ c. is_eligible options c ≡ true → P c) topology.cores
unfolding online_cores
All-online_cores P topology options h =
    All-eligible_cores P options topology.cores
      (All-sort P (eligible_cores options topology.cores) h)

online_cores-IsOnlineIn :
    (topology : CpuTopology) (options : CoreAssignmentOptions)
    → All (λ c. IsOnlineIn topology.cores c.logical_id) (online_cores topology options)
online_cores-IsOnlineIn topology options =
    online_cores-All (λ c. IsOnlineIn topology.cores c.logical_id) topology options
      (All-mono (λ c. c.online ≡ true → IsOnlineIn topology.cores c.logical_id)
        (λ c. is_eligible options c ≡ true → IsOnlineIn topology.cores c.logical_id) topology.cores
        (λ c h e. h (is_eligible-online options c e)) (All-IsOnlineIn topology.cores))

-- Every worker is put on an online core of the topology.
pub assign_worker_cores-IsOnlineIn :
    (topology : CpuTopology) (options : CoreAssignmentOptions)
    → All (λ a. IsOnlineIn topology.cores a.logical_core) (assign_worker_cores topology options)
unfolding assign_worker_cores
assign_worker_cores-IsOnlineIn topology options =
    assign_sorted-All (IsOnlineIn topology.cores) options (candidates topology options) (
      or_any_core-All (λ c. IsOnlineIn topology.cores c.logical_id) topology options
        (online_cores topology options) (online_cores-IsOnlineIn topology options)
        (online_cores-IsOnlineIn topology (record { avoid_core0 = false })))

-- Some core can be used: the list of online cores is not empty.
pub online_cores-nonempty :
    (topology : CpuTopology) (options : CoreAssignmentOptions)
    → Any (λ c. is_eligible options c ≡ true) topology.cores
    → online_cores topology options ≢ []
online_cores-nonempty topology options some_core e =
    All-Any (λ c. is_eligible options c ≡ true → ⊥) (λ c. is_eligible options c ≡ true)
      topology.cores (λ c h k. h k) (All-online_cores (λ c. ⊥) topology options (rw e tt)) some_core

pub or_any_core_self :
    (topology : CpuTopology) (options : CoreAssignmentOptions) (cs : List CpuCoreInfo)
    → cs ≢ []
    → or_any_core topology options cs ≡ cs
unfolding or_any_core
or_any_core_self topology options [] h = absurd (h refl)
or_any_core_self topology options (c ∷ cs) h = refl

pub Any-mono :
    {A : Type 0} (P Q : A → Type 0) (xs : List A) → ((x : A) → P x → Q x) → Any P xs → Any Q xs
Any-mono P Q [] f h = h
Any-mono P Q (x ∷ xs) f (inl p) = inl (f x p)
Any-mono P Q (x ∷ xs) f (inr ps) = inr (Any-mono P Q xs f ps)

All-eligible :
    (options : CoreAssignmentOptions) (P : CpuCoreInfo → Type 0) (cs : List CpuCoreInfo)
    → ((c : CpuCoreInfo) → is_eligible options c ≡ true → P c)
    → All (λ c. is_eligible options c ≡ true → P c) cs
All-eligible options P [] f = tt
All-eligible options P (c ∷ cs) f = (f c, All-eligible options P cs f)

-- While OpenHD runs, core 0 is left to it: no worker is put there if any other core is online.
pub assign_worker_cores-avoid_core0 :
    (topology : CpuTopology) (options : CoreAssignmentOptions)
    → options.avoid_core0 ≡ true
    → Any (λ c. (c.online ≡ true) × (c.logical_id ≢ 0)) topology.cores
    → All (λ a. a.logical_core ≢ 0) (assign_worker_cores topology options)
unfolding assign_worker_cores
assign_worker_cores-avoid_core0 topology options avoid other =
    let usable =
      Any-mono (λ c. (c.online ≡ true) × (c.logical_id ≢ 0)) (λ c. is_eligible options c ≡ true)
        topology.cores (λ c h. unfold is_eligible in ground arith) other in
    let same =
      or_any_core_self topology options (online_cores topology options)
        (online_cores-nonempty topology options usable) in
    assign_sorted-All (λ id. id ≢ 0) options (candidates topology options)
      (rw same (
        online_cores-All (λ c. c.logical_id ≢ 0) topology options
          (All-eligible options (λ c. c.logical_id ≢ 0) topology.cores
            (λ c h. unfold is_eligible in ground arith))))
