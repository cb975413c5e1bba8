-- ===== src/Tests/PlatformTests.antt =====
-- src/platform/core_assignment.cpp at a concrete topology.
use openhd_glide.Base.{
  ℕ, ◌≡◌, ◌≢◌, refl, Bool, false, true, [], ◌∷◌, some, none, All, arith, map, inl, inr,
}
use openhd_glide.Platform.Cores.{
  CpuCoreInfo, CpuTopology, CoreAssignmentOptions, before, is_eligible, eligible_cores, insert,
  sort, online_cores, assign_worker_cores,
}
use openhd_glide.Platform.Cores.Assignment.{
  IsOnlineIn, assign_worker_cores-IsOnlineIn, assign_worker_cores-avoid_core0,
}
use openhd_glide.Platform.Cores.Placement.{
  KnowsSharing, IsIsolated, HasFastest, assign_worker_cores-KnowsSharing,
  assign_worker_cores-IsIsolated, assign_worker_cores-HasFastest,
}

abbrev core : ℕ → ℕ → Bool → CpuCoreInfo
core id khz online = record {
  logical_id = id;
  physical_package_id = some 0;
  core_id = none;
  current_frequency_khz = none;
  max_frequency_khz = some khz;
  online = online;
}

-- Two slow cores, two fast ones of which one is offline.
abbrev big_little : CpuTopology
big_little = record {
  cores = core 0 1800 true ∷ core 1 1800 true ∷ core 2 2400 false ∷ core 3 2400 true ∷ [];
}

abbrev beside_openhd : CoreAssignmentOptions
beside_openhd = record { avoid_core0 = true }

placed : map (λ a. a.logical_core) (assign_worker_cores big_little beside_openhd) ≡ 3 ∷ 1 ∷ 1 ∷ []
unfolding assign_worker_cores online_cores sort insert before eligible_cores is_eligible
placed = refl

assign_worker_cores-IsOnlineIn_example :
    All
      (λ a. IsOnlineIn big_little.cores a.logical_core)
      (assign_worker_cores big_little beside_openhd)
assign_worker_cores-IsOnlineIn_example = assign_worker_cores-IsOnlineIn big_little beside_openhd

assign_worker_cores-avoid_core0_example :
    All (λ a. a.logical_core ≢ 0) (assign_worker_cores big_little beside_openhd)
assign_worker_cores-avoid_core0_example =
    assign_worker_cores-avoid_core0 big_little beside_openhd refl (inr (inl (refl, (omega arith))))

assign_worker_cores-KnowsSharing_example :
    KnowsSharing [] (assign_worker_cores big_little beside_openhd)
assign_worker_cores-KnowsSharing_example =
    assign_worker_cores-KnowsSharing big_little beside_openhd (omega arith)

assign_worker_cores-IsIsolated_example : IsIsolated (assign_worker_cores big_little beside_openhd)
assign_worker_cores-IsIsolated_example =
    assign_worker_cores-IsIsolated big_little beside_openhd (omega arith)
      (unfold online_cores sort insert before eligible_cores is_eligible in omega arith)

assign_worker_cores-HasFastest_example :
    HasFastest big_little beside_openhd (assign_worker_cores big_little beside_openhd)
assign_worker_cores-HasFastest_example =
    assign_worker_cores-HasFastest big_little beside_openhd (unfold is_eligible in inr (inl refl))
