-- ===== src/Tests.antt =====
-- The theorems at concrete inputs, and runs of the definitions.
mod MavlinkTests
mod IpcTests
mod PlatformTests
mod TopologyTests
mod VideoTests
mod CedarTests
mod StateTests
mod PollTests
mod ControlTests
mod NetworkTests
mod MjpegTests
mod CommandTests
