-- ===== src/Platform/Topology/Order.antt =====
-- The topology that the probe gives is never empty, and its cores stand in order.
use openhd_glide.Base.{ℕ, zero, suc, ◌*◌, ◌≤◌, List, [], ◌∷◌, All, Option, none, some, length}
use openhd_glide.Platform.Cores.{CpuCoreInfo, CpuTopology}
use openhd_glide.Platform.Topology.{Entry}

abbrev IsFrom : ℕ → CpuCoreInfo → Type 0
IsFrom id core = id ≤ core.logical_id

-- The ids do not fall.
abbrev pub IsInOrder : List CpuCoreInfo → Type 0
IsInOrder [] = Unit
IsInOrder (core ∷ cores) = All (IsFrom core.logical_id) cores × IsInOrder cores

-- A topology with a core at least, its cores in order.
abbrev pub IsUsable : Option CpuTopology → Type 0
IsUsable none = ⊥
IsUsable (some topology) = 1 ≤ length topology.cores × IsInOrder topology.cores

abbrev IsFound : Option (List CpuCoreInfo) → Type 0
IsFound none = ⊥
IsFound (some cores) = Unit

-- The power of ten.
abbrev ten_to : ℕ → ℕ
ten_to zero = 1
ten_to (suc k) = 10 * ten_to k

-- The name has twelve characters at most, so that no more than nine digits follow `cpu`.
abbrev pub HasShortName : Entry → Type 0
HasShortName entry = length entry.name ≤ 12
