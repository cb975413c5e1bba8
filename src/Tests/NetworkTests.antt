-- ===== src/Tests/NetworkTests.antt =====
-- src/common/network_discovery.cpp at concrete inputs.
use openhd_glide.Base.{[], ◌∷◌, Bytes, codes}
use openhd_glide.Network.{
  DiscoveryService, DiscoveryOptions, fresh_service, opened, start, start_scan, poll_state_lines,
}
use openhd_glide.Network.Peers.{
  AreDistinct, IsReached, at_first, by_start, by_scan, by_poll, IsReached-AreDistinct,
}

abbrev defaults : DiscoveryOptions
defaults = record { discovery_udp_port = 5620; video_udp_port = 5600 }

abbrev started : DiscoveryService
started = (start fresh_service defaults (codes "station") (opened 4)).0

abbrev scanning : DiscoveryService
scanning = start_scan started 1000 2500

abbrev here : Bytes
here = codes "OPENHD_GLIDE_HERE 1 air 5600"

-- Two answers of one station and one of another.
abbrev heard : DiscoveryService
heard =
    (poll_state_lines scanning 1100 450
      ((here, codes "10.0.0.7") ∷ (here, codes "10.0.0.8") ∷ (here, codes "10.0.0.7") ∷ [])
      (codes "10.0.0.2" ∷ [])).service

heard-IsReached : IsReached heard
heard-IsReached =
    by_poll scanning 1100 450
      ((here, codes "10.0.0.7") ∷ (here, codes "10.0.0.8") ∷ (here, codes "10.0.0.7") ∷ [])
      (codes "10.0.0.2" ∷ [])
      (by_scan started 1000 2500
        (by_start fresh_service defaults (codes "station") (opened 4) at_first))

IsReached-AreDistinct_example : AreDistinct heard.peers
IsReached-AreDistinct_example = IsReached-AreDistinct heard heard-IsReached
