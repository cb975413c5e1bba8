-- ===== src/Platform/Topology.antt =====
-- src/platform/cpu_topology.cpp, its Linux branch. What /sys/devices/system/cpu holds is an
-- argument: the entries of the directory, none if it is absent, and the text of the files of each.
pub mod Order
use openhd_glide.Base.{
  ℕ, zero, suc, ◌+◌, ◌%◌, ◌^◌, Bool, true, false, not, ◌&&◌, ◌||◌, List, [], ◌∷◌, ◌++◌, Option,
  none, some, ltb, leb, ◌==◌, if◌then◌else◌, length, take, drop, Bytes, codes, same_bytes,
}
use openhd_glide.Mavlink.Heartbeat.{to_string}
use openhd_glide.Mavlink.State.Reader.{
  is_digit, digits_run, open_reader, read_number, scan_unsigned,
}
use openhd_glide.Platform.Cores.{CpuCoreInfo, CpuTopology}

pub record Entry : Type 0 where
  pub name : Bytes
  pub is_directory : Bool
  -- The text of a file below the directory, if it can be opened.
  pub file : Bytes → Option Bytes

unfoldable pub read_u64 : Bytes → Option ℕ
read_u64 text =
    let (value, r) = read_number (scan_unsigned (2 ^ 64)) 0 (open_reader text) in
    if r.failed then none else some value

unfoldable pub read_u64_file : Entry → Bytes → Option ℕ
read_u64_file entry path = elim (entry.file path) [ none ↦ none | some text ↦ read_u64 text ]

unfoldable pub read_uint_file : Entry → Bytes → Option ℕ
read_uint_file entry path = elim (read_u64_file entry path) [
  | none ↦ none
  | some value ↦ some (value % 2 ^ 32)
]

unfoldable pub all_digits : Bytes → Bool
all_digits [] = true
all_digits (c ∷ cs) = is_digit c && all_digits cs

unfoldable pub is_cpu_directory : Entry → Bool
is_cpu_directory entry =
    if not entry.is_directory
    then false
    else if leb (length entry.name) 3 || not (same_bytes (take 3 entry.name) (codes "cpu"))
    then false
    else all_digits (drop 3 entry.name)

abbrev pub cpu_number : Entry → ℕ
cpu_number entry = (digits_run 0 (drop 3 entry.name)).0

abbrev online_of : Option ℕ → Bool
online_of none = true
online_of (some value) = not (value == 0)

abbrev pub core_of : Entry → CpuCoreInfo
core_of entry = record {
  logical_id = cpu_number entry % 2 ^ 32;
  physical_package_id = read_uint_file entry (codes "topology/physical_package_id");
  core_id = read_uint_file entry (codes "topology/core_id");
  current_frequency_khz = read_u64_file entry (codes "cpufreq/scaling_cur_freq");
  max_frequency_khz = read_u64_file entry (codes "cpufreq/cpuinfo_max_freq");
  online = online_of (read_u64_file entry (codes "online"));
}

-- `none` where `std::stoul` throws. `ulong_size` is how many values `unsigned long` has: 2 to the
-- 32 or 2 to the 64, by the machine.
unfoldable pub probe_linux_cpu : ℕ → Entry → Option CpuCoreInfo
probe_linux_cpu ulong_size entry =
    if ltb (cpu_number entry) ulong_size then some (core_of entry) else none

abbrev pub and_core : Option CpuCoreInfo → Option (List CpuCoreInfo) → Option (List CpuCoreInfo)
and_core (some core) (some cores) = some (core ∷ cores)
and_core (some core) none = none
and_core none more = none

unfoldable pub probe_all : ℕ → List Entry → Option (List CpuCoreInfo)
probe_all ulong_size [] = some []
probe_all ulong_size (entry ∷ entries) =
    let more = probe_all ulong_size entries in
    if is_cpu_directory entry then and_core (probe_linux_cpu ulong_size entry) more else more

-- `std::sort`, as an insertion sort by the comparator.
unfoldable pub insert_by_id : CpuCoreInfo → List CpuCoreInfo → List CpuCoreInfo
insert_by_id core [] = core ∷ []
insert_by_id core (c ∷ cs) =
    if ltb c.logical_id core.logical_id then c ∷ insert_by_id core cs else core ∷ c ∷ cs

unfoldable pub sort_by_id : List CpuCoreInfo → List CpuCoreInfo
sort_by_id [] = []
sort_by_id (c ∷ cs) = insert_by_id c (sort_by_id cs)

abbrev pub unknown_core : ℕ → CpuCoreInfo
unknown_core id = record {
  logical_id = id;
  physical_package_id = none;
  core_id = none;
  current_frequency_khz = none;
  max_frequency_khz = none;
  online = true;
}

unfoldable pub cores_from : ℕ → ℕ → List CpuCoreInfo
cores_from id zero = []
cores_from id (suc count) = unknown_core id ∷ cores_from (id + 1) count

-- `concurrency` is what `hardware_concurrency` answers.
unfoldable pub fallback_topology : ℕ → CpuTopology
fallback_topology concurrency = record {
  cores = cores_from 0 (if leb concurrency 1 then 1 else concurrency);
}

abbrev pub or_fallback : ℕ → List CpuCoreInfo → CpuTopology
or_fallback concurrency [] = fallback_topology concurrency
or_fallback concurrency (c ∷ cs) = record { cores = c ∷ cs }

abbrev pub topology_of : ℕ → Option (List CpuCoreInfo) → Option CpuTopology
topology_of concurrency none = none
topology_of concurrency (some cores) = some (or_fallback concurrency (sort_by_id cores))

-- `entries` is `none` if the increment of the directory iterator throws before the end, and the
-- result is `none` for an exception.
unfoldable pub probe_cpu_topology : ℕ → Option (List Entry) → ℕ → Option CpuTopology
probe_cpu_topology ulong_size none concurrency = none
probe_cpu_topology ulong_size (some entries) concurrency =
    topology_of concurrency (probe_all ulong_size entries)

-- `print` prints the frequency in GHz with two digits.
unfoldable pub format_frequency : (ℕ → Bytes) → Option ℕ → Bytes
format_frequency print none = codes "unknown"
format_frequency print (some khz) = print khz ++ codes " GHz"

abbrev known : Option ℕ → Bytes
known none = codes "unknown"
known (some n) = to_string n

unfoldable pub describe_core : (ℕ → Bytes) → CpuCoreInfo → Bytes
describe_core print core =
    codes "  cpu"
    ++ (to_string core.logical_id
        ++ (codes " online="
            ++ ((if core.online then codes "yes" else codes "no")
                ++ (codes " package="
                    ++ (known core.physical_package_id
                        ++ (codes " core="
                            ++ (known core.core_id
                                ++ (codes " current="
                                    ++ (format_frequency print core.current_frequency_khz
                                        ++ (codes " max="
                                            ++ (format_frequency print core.max_frequency_khz
                                                ++ 10 ∷ [])))))))))))

unfoldable pub describe_cores : (ℕ → Bytes) → List CpuCoreInfo → Bytes
describe_cores print [] = []
describe_cores print (core ∷ cores) = describe_core print core ++ describe_cores print cores

unfoldable pub describe_cpu_topology : (ℕ → Bytes) → CpuTopology → Bytes
describe_cpu_topology print topology =
    codes "CPU topology: "
    ++ (to_string (length topology.cores)
        ++ (codes " logical core(s)\n" ++ describe_cores print topology.cores))
