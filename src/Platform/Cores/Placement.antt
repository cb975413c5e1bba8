-- ===== src/Platform/Cores/Placement.antt =====
-- Who shares a core with whom, and which worker has the fastest.
use openhd_glide.Base.{
  ℕ, ◌≤◌, ◌≡◌, ◌≢◌, refl, sym, ap, subst, Bool, true, false, ◌||◌, ◌==◌, List, [], ◌∷◌, All,
  All-mono, codes, arith, inl, inr, length, Bool-cases,
}
use openhd_glide.Platform.Cores.{
  CpuCoreInfo, CpuTopology, CoreAssignmentOptions, WorkerCoreAssignment, ranking_frequency, before,
  is_eligible, online_cores, assign_sorted, or_any_core, assign_worker_cores,
}
use openhd_glide.Platform.Cores.Ranking.{
  Any, IsSorted, sort-IsSorted, AreDistinct, sort-AreDistinct, eligible_cores-AreDistinct,
}
use openhd_glide.Platform.Cores.Assignment.{
  candidates, Any-mono, online_cores-All, online_cores-nonempty, All-online_cores, or_any_core_self,
}

abbrev pub member : ℕ → List ℕ → Bool
member id [] = false
member id (j ∷ js) = id == j || member id js

-- `shares_core` says of each worker whether one before it has the same core; `used` are theirs.
abbrev pub KnowsSharing : List ℕ → List WorkerCoreAssignment → Type 0
KnowsSharing used [] = Unit {0}
KnowsSharing used (a ∷ rest) =
    (a.shares_core ≡ member a.logical_core used) × KnowsSharing (a.logical_core ∷ used) rest

assign_sorted-KnowsSharing :
    (options : CoreAssignmentOptions) (cs : List CpuCoreInfo)
    → AreDistinct cs
    → KnowsSharing [] (assign_sorted options cs)
unfolding assign_sorted
assign_sorted-KnowsSharing options [] d = tt
assign_sorted-KnowsSharing options (v ∷ []) d = ground arith
assign_sorted-KnowsSharing options (v ∷ f ∷ []) d = ground arith
assign_sorted-KnowsSharing options (v ∷ f ∷ u ∷ cs) d = ground arith

online_cores-AreDistinct :
    (topology : CpuTopology) (options : CoreAssignmentOptions)
    → AreDistinct topology.cores
    → AreDistinct (online_cores topology options)
unfolding online_cores
online_cores-AreDistinct topology options d =
    sort-AreDistinct _ (eligible_cores-AreDistinct options topology.cores d)

candidates-AreDistinct :
    (topology : CpuTopology) (options : CoreAssignmentOptions) (cs : List CpuCoreInfo)
    → AreDistinct topology.cores
    → AreDistinct cs
    → AreDistinct (or_any_core topology options cs)
unfolding or_any_core
candidates-AreDistinct topology options [] d e = elim (Bool-cases options.avoid_core0) [
  | inl a ↦ rw a (online_cores-AreDistinct topology (record { avoid_core0 = false }) d)
  | inr a ↦ rw a tt
]
candidates-AreDistinct topology options (c ∷ cs) d e = e

-- The flag `shares_core` of a worker says whether one before it in the list has the same core, if
-- each logical id stands for one core. It says nothing of those behind it: the flag is not set on
-- the first worker of a core, also where a later one shares the core.
pub assign_worker_cores-KnowsSharing :
    (topology : CpuTopology) (options : CoreAssignmentOptions)
    → AreDistinct topology.cores
    → KnowsSharing [] (assign_worker_cores topology options)
unfolding assign_worker_cores
assign_worker_cores-KnowsSharing topology options d =
    assign_sorted-KnowsSharing options (candidates topology options)
      (candidates-AreDistinct topology options _ d (online_cores-AreDistinct topology options d))

-- glide-view has its core for itself.
abbrev pub IsIsolated : List WorkerCoreAssignment → Type 0
IsIsolated [] = ⊥
IsIsolated (view ∷ others) = All (λ a. a.logical_core ≢ view.logical_core) others

assign_sorted-IsIsolated :
    (options : CoreAssignmentOptions) (cs : List CpuCoreInfo)
    → AreDistinct cs
    → 2 ≤ length cs
    → IsIsolated (assign_sorted options cs)
unfolding assign_sorted
assign_sorted-IsIsolated options [] d h = absurd (omega arith)
assign_sorted-IsIsolated options (v ∷ []) d h = absurd (omega arith)
assign_sorted-IsIsolated options (v ∷ f ∷ []) d h = ground arith
assign_sorted-IsIsolated options (v ∷ f ∷ u ∷ cs) d h = ground arith

candidates-two :
    (topology : CpuTopology) (options : CoreAssignmentOptions) (cs : List CpuCoreInfo)
    → 2 ≤ length cs
    → 2 ≤ length (or_any_core topology options cs)
unfolding or_any_core
candidates-two topology options [] h = absurd (omega arith)
candidates-two topology options (c ∷ cs) h = h

-- With two usable cores or more no other worker runs on the core of glide-view, if each logical id
-- stands for one core.
pub assign_worker_cores-IsIsolated :
    (topology : CpuTopology) (options : CoreAssignmentOptions)
    → AreDistinct topology.cores
    → 2 ≤ length (online_cores topology options)
    → IsIsolated (assign_worker_cores topology options)
unfolding assign_worker_cores
assign_worker_cores-IsIsolated topology options d h =
    assign_sorted-IsIsolated options (candidates topology options)
      (candidates-AreDistinct topology options _ d (online_cores-AreDistinct topology options d))
      (candidates-two topology options (online_cores topology options) h)

-- No core that may be used is faster than `view`.
abbrev pub IsFastest : CpuTopology → CoreAssignmentOptions → CpuCoreInfo → Type 0
IsFastest topology options view =
    All (λ c. is_eligible options c ≡ true → ranking_frequency c ≤ ranking_frequency view)
      topology.cores

-- The first worker is glide-view, and its core is one of the topology that may be used and none of
-- these is faster.
abbrev pub HasFastest : CpuTopology → CoreAssignmentOptions → List WorkerCoreAssignment → Type 0
HasFastest topology options [] = ⊥
HasFastest topology options (a ∷ rest) =
    (a.worker_name ≡ codes "glide-view")
    × Any
        (λ view.
          (view.logical_id ≡ a.logical_core)
          × (is_eligible options view ≡ true)
          × IsFastest topology options view)
        topology.cores

-- The core `v` is one of the topology, and may be used.
abbrev IsCandidate : CpuTopology → CoreAssignmentOptions → CpuCoreInfo → Type 0
IsCandidate topology options v = Any (λ c. (c ≡ v) × (is_eligible options c ≡ true)) topology.cores

All-self :
    (options : CoreAssignmentOptions) (cs : List CpuCoreInfo)
    → All
        (λ c. is_eligible options c ≡ true → Any (λ d. (d ≡ c) × (is_eligible options d ≡ true)) cs)
        cs
All-self options [] = tt
All-self options (c ∷ cs) = (
  λ e. inl (refl, e),
  All-mono
      (λ d. is_eligible options d ≡ true → Any (λ x. (x ≡ d) × (is_eligible options x ≡ true)) cs)
      (λ d.
        is_eligible options d ≡ true → Any (λ x. (x ≡ d) × (is_eligible options x ≡ true)) (c ∷ cs))
      cs (λ d h e. inr (h e)) (All-self options cs),
)

IsCandidate-IsFastest :
    (topology : CpuTopology) (options : CoreAssignmentOptions) (v : CpuCoreInfo)
    → IsCandidate topology options v
    → IsFastest topology options v
    → Any
        (λ view.
          (view.logical_id ≡ v.logical_id)
          × (is_eligible options view ≡ true)
          × IsFastest topology options view)
        topology.cores
IsCandidate-IsFastest topology options v u f =
    Any-mono (λ c. (c ≡ v) × (is_eligible options c ≡ true))
      (λ view.
        (view.logical_id ≡ v.logical_id)
        × (is_eligible options view ≡ true)
        × IsFastest topology options view)
      topology.cores
      (λ c h. (
        ap (λ (x : CpuCoreInfo). x.logical_id) h.0,
        h.1,
        subst (IsFastest topology options) (sym h.0) f,
      ))
      u

assign_sorted-HasFastest :
    (topology : CpuTopology) (options : CoreAssignmentOptions) (cs : List CpuCoreInfo)
    → cs ≢ []
    → ((v : CpuCoreInfo) (rest : List CpuCoreInfo)
        → cs ≡ v ∷ rest
        → Any
            (λ view.
              (view.logical_id ≡ v.logical_id)
              × (is_eligible options view ≡ true)
              × IsFastest topology options view)
            topology.cores)
    → HasFastest topology options (assign_sorted options cs)
unfolding assign_sorted
assign_sorted-HasFastest topology options [] ne h = absurd (ne refl)
assign_sorted-HasFastest topology options (v ∷ []) ne h = (refl, h v [] refl)
assign_sorted-HasFastest topology options (v ∷ f ∷ []) ne h = (refl, h v (f ∷ []) refl)
assign_sorted-HasFastest topology options (v ∷ f ∷ u ∷ cs) ne h = (refl, h v (f ∷ u ∷ cs) refl)

slower :
    (v : CpuCoreInfo) (rest : List CpuCoreInfo)
    → IsSorted (v ∷ rest)
    → All (λ c. ranking_frequency c ≤ ranking_frequency v) (v ∷ rest)
slower v rest s = (
  omega arith,
  All-mono (λ c. before c v ≡ false) (λ c. ranking_frequency c ≤ ranking_frequency v) rest
      (λ c h. unfold before in ground arith) s.0,
)

online_cores-IsSorted :
    (topology : CpuTopology) (options : CoreAssignmentOptions)
    → IsSorted (online_cores topology options)
unfolding online_cores
online_cores-IsSorted topology options = sort-IsSorted _

-- If some core may be used, glide-view is first in the list, and its core is one of the topology
-- that may be used, with no faster one among these.
pub assign_worker_cores-HasFastest :
    (topology : CpuTopology) (options : CoreAssignmentOptions)
    → Any (λ c. is_eligible options c ≡ true) topology.cores
    → HasFastest topology options (assign_worker_cores topology options)
unfolding assign_worker_cores
assign_worker_cores-HasFastest topology options usable =
    let ne = online_cores-nonempty topology options usable in
    rw (or_any_core_self topology options (online_cores topology options) ne) (
      assign_sorted-HasFastest topology options (online_cores topology options) ne (λ v rest e.
        IsCandidate-IsFastest topology options v
          (rw e at (
            online_cores-All (IsCandidate topology options) topology options
              (All-self options topology.cores))).0
          (All-online_cores (λ c. ranking_frequency c ≤ ranking_frequency v) topology options
            (rw e (slower v rest (rw e at (online_cores-IsSorted topology options)))))))
