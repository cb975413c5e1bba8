-- ===== src/Tests/TopologyTests.antt =====
-- src/platform/cpu_topology.cpp at a concrete directory.
use openhd_glide.Base.{
  [], ◌∷◌, Bytes, Option, none, some, same_bytes, if◌then◌else◌, codes, true, List,
}
use openhd_glide.Platform.Topology.{Entry}

abbrev files : Bytes → Option Bytes
files path =
    if same_bytes path (codes "cpufreq/cpuinfo_max_freq") then some (codes "1800000\n") else none

abbrev entry : Bytes → Entry
entry name = record { name = name; is_directory = true; file = files }

abbrev entries : List Entry
entries =
    entry (codes "cpu10")
    ∷ entry (codes "cpufreq")
    ∷ entry (codes "cpu2")
    ∷ entry (codes "cpu0")
    ∷ []
