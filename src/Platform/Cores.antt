-- ===== src/Platform/Cores.antt =====
-- src/platform/core_assignment.cpp, and the data of src/platform/cpu_topology.hpp.
pub mod Ranking
pub mod Assignment
pub mod Placement
use openhd_glide.Base.{
  ℕ, Bool, true, false, not, ◌&&◌, List, [], ◌∷◌, Option, none, some, ltb, ◌==◌, if◌then◌else◌,
  Bytes, codes,
}

pub record CpuCoreInfo : Type 0 where
  pub logical_id : ℕ
  pub physical_package_id : Option ℕ
  pub core_id : Option ℕ
  pub current_frequency_khz : Option ℕ
  pub max_frequency_khz : Option ℕ
  pub online : Bool

pub record CpuTopology : Type 0 where
  pub cores : List CpuCoreInfo

pub record WorkerCoreAssignment : Type 0 where
  pub worker_name : Bytes
  pub logical_core : ℕ
  pub shares_core : Bool
  pub reason : Bytes

pub record CoreAssignmentOptions : Type 0 where
  pub avoid_core0 : Bool

unfoldable pub ranking_frequency : CpuCoreInfo → ℕ
ranking_frequency core = elim core.max_frequency_khz [
  | some f ↦ f
  | none ↦ elim core.current_frequency_khz [ some f ↦ f | none ↦ 0 ]
]

-- The comparator of the sort: the faster core first, then the lower id.
unfoldable pub before : CpuCoreInfo → CpuCoreInfo → Bool
unfolding ranking_frequency
before left right =
    if not (ranking_frequency left == ranking_frequency right)
    then ltb (ranking_frequency right) (ranking_frequency left)
    else ltb left.logical_id right.logical_id

unfoldable pub is_eligible : CoreAssignmentOptions → CpuCoreInfo → Bool
is_eligible options core = core.online && not (options.avoid_core0 && core.logical_id == 0)

unfoldable pub eligible_cores : CoreAssignmentOptions → List CpuCoreInfo → List CpuCoreInfo
eligible_cores options [] = []
eligible_cores options (core ∷ cores) =
    if is_eligible options core
    then core ∷ eligible_cores options cores
    else eligible_cores options cores

-- `std::sort`, as an insertion sort by the comparator.
unfoldable pub insert : CpuCoreInfo → List CpuCoreInfo → List CpuCoreInfo
insert core [] = core ∷ []
insert core (c ∷ cs) = if before c core then c ∷ insert core cs else core ∷ c ∷ cs

unfoldable pub sort : List CpuCoreInfo → List CpuCoreInfo
sort [] = []
sort (c ∷ cs) = insert c (sort cs)

unfoldable pub online_cores : CpuTopology → CoreAssignmentOptions → List CpuCoreInfo
online_cores topology options = sort (eligible_cores options topology.cores)

abbrev pub assignment : Bytes → ℕ → Bool → Bytes → WorkerCoreAssignment
assignment worker_name logical_core shares_core reason = record {
  worker_name = worker_name;
  logical_core = logical_core;
  shares_core = shares_core;
  reason = reason;
}

unfoldable pub view_assignment : CoreAssignmentOptions → ℕ → WorkerCoreAssignment
view_assignment options view_core = assignment (codes "glide-view") view_core false (
    if options.avoid_core0 && not (view_core == 0)
    then codes "highest priority worker on fastest online non-core0 because OpenHD is running"
    else codes "highest priority worker on fastest online core")

abbrev single_core : Bytes
single_core = codes "no non-view core available; single-core systems are not a target"

-- From the sorted cores on.
unfoldable pub assign_sorted : CoreAssignmentOptions → List CpuCoreInfo → List WorkerCoreAssignment
unfolding view_assignment
assign_sorted options [] = []
assign_sorted options (view ∷ []) =
    view_assignment options view.logical_id
    ∷ assignment (codes "glide-flow") view.logical_id true single_core
    ∷ assignment (codes "glide-ui") view.logical_id true single_core
    ∷ []
assign_sorted options (view ∷ flow ∷ []) =
    view_assignment options view.logical_id
    ∷ assignment (codes "glide-flow") flow.logical_id false
        (codes "second priority worker on next fastest online core")
    ∷ assignment (codes "glide-ui") flow.logical_id true (
        codes "only one non-view core available; sharing with glide-flow keeps glide-view isolated")
    ∷ []
assign_sorted options (view ∷ flow ∷ ui ∷ cores) =
    view_assignment options view.logical_id
    ∷ assignment (codes "glide-flow") flow.logical_id false
        (codes "second priority worker on next fastest online core")
    ∷ assignment (codes "glide-ui") ui.logical_id false
        (codes "lowest priority worker, but enough cores are available for a fast isolated core")
    ∷ []

-- `if (cores.empty() && options.avoid_core0)`: core 0 is used after all.
unfoldable pub or_any_core :
    CpuTopology → CoreAssignmentOptions → List CpuCoreInfo → List CpuCoreInfo
or_any_core topology options [] =
    if options.avoid_core0 then online_cores topology (record { avoid_core0 = false }) else []
or_any_core topology options (c ∷ cs) = c ∷ cs

unfoldable pub assign_worker_cores : CpuTopology → CoreAssignmentOptions → List WorkerCoreAssignment
unfolding or_any_core assign_sorted
assign_worker_cores topology options =
    assign_sorted options (or_any_core topology options (online_cores topology options))
