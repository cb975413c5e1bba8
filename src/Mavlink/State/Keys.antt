-- ===== src/Mavlink/State/Keys.antt =====
-- The keys and names that src/common/mavlink_state.cpp compares with: each chain of `if`s is a
-- function into the branches, since a key is compared with distinct texts.
use openhd_glide.Base.{◌||◌, Bytes, codes, same_bytes, if◌then◌else◌}

pub data Key : Type 0 where
  alive_key armed_key attitude_key position_key speed_key battery_key gps_key mode_key link_key
        openhd_key scan_key rc_key param_key status_key message_key unknown_key :
      Key

unfoldable pub key_of : Bytes → Key
key_of key =
    if same_bytes key (codes "alive")
    then alive_key
    else if same_bytes key (codes "armed")
    then armed_key
    else if same_bytes key (codes "attitude")
    then attitude_key
    else if same_bytes key (codes "position")
    then position_key
    else if same_bytes key (codes "speed")
    then speed_key
    else if same_bytes key (codes "battery")
    then battery_key
    else if same_bytes key (codes "gps")
    then gps_key
    else if same_bytes key (codes "mode")
    then mode_key
    else if same_bytes key (codes "link")
    then link_key
    else if same_bytes key (codes "openhd")
    then openhd_key
    else if same_bytes key (codes "scan")
    then scan_key
    else if same_bytes key (codes "rc")
    then rc_key
    else if same_bytes key (codes "param")
    then param_key
    else if same_bytes key (codes "status")
    then status_key
    else if same_bytes key (codes "message")
    then message_key
    else unknown_key

pub data Field : Type 0 where
  siyi_field resolution_field rotation_field recording_field wifi_mode_field hotspot_field
        frequency_field channel_width_field mcs_field tx_power_field version_field air_chipset_field
        ground_chipset_field camera_field unknown_field :
      Field

-- The branches that also test the target are `wifi_mode_field` and `hotspot_field`.
unfoldable pub field_of : Bytes → Field
field_of name =
    if same_bytes name (codes "SIYI_ACTIVE")
    then siyi_field
    else if same_bytes name (codes "RESOLUTION_FPS")
        || same_bytes name (codes "VIDEO_FORMAT")
        || same_bytes name (codes "CAMERA_FORMAT")
    then resolution_field
    else if same_bytes name (codes "ROTATION_FLIP")
        || same_bytes name (codes "ROTATION_DEG")
        || same_bytes name (codes "VIDEO_ROTATION")
    then rotation_field
    else if same_bytes name (codes "AIR_RECORDING_E")
        || same_bytes name (codes "RECORDING")
        || same_bytes name (codes "REC_ENABLED")
    then recording_field
    else if same_bytes name (codes "WIFI_MODE")
    then wifi_mode_field
    else if same_bytes name (codes "WIFI_HOTSPOT_E")
    then hotspot_field
    else if same_bytes name (codes "FREQ")
        || same_bytes name (codes "FREQUENCY")
        || same_bytes name (codes "FREQUENCY_MHZ")
        || same_bytes name (codes "WB_FREQUENCY")
    then frequency_field
    else if same_bytes name (codes "CHANNEL_WIDTH")
        || same_bytes name (codes "CHANNEL_WIDTH_MHZ")
        || same_bytes name (codes "WB_CHANNEL_WIDTH")
        || same_bytes name (codes "WB_CHANNEL_W")
        || same_bytes name (codes "BANDWIDTH")
    then channel_width_field
    else if same_bytes name (codes "MCS")
        || same_bytes name (codes "MCS_INDEX")
        || same_bytes name (codes "WB_MCS_INDEX")
    then mcs_field
    else if same_bytes name (codes "TX_POWER")
        || same_bytes name (codes "TX_POWER_MW")
        || same_bytes name (codes "WB_TX_POWER_MW")
    then tx_power_field
    else if same_bytes name (codes "OPENHD_VERSION") || same_bytes name (codes "VERSION")
    then version_field
    else if same_bytes name (codes "AIR_CHIPSET")
    then air_chipset_field
    else if same_bytes name (codes "GROUND_CHIPSET")
    then ground_chipset_field
    else if same_bytes name (codes "CAMERA") || same_bytes name (codes "CAMERA_TYPE")
    then camera_field
    else unknown_field

pub data Target : Type 0 where
  air_unit ground_unit fc_unit other_unit : Target

unfoldable pub target_of : Bytes → Target
target_of target =
    if same_bytes target (codes "air")
    then air_unit
    else if same_bytes target (codes "ground")
    then ground_unit
    else if same_bytes target (codes "fc")
    then fc_unit
    else other_unit

pub data Report : Type 0 where
  wifi_card wifi_link core other_report : Report

unfoldable pub report_of : Bytes → Report
report_of field =
    if same_bytes field (codes "wifi_card")
    then wifi_card
    else if same_bytes field (codes "wifi_link")
    then wifi_link
    else if same_bytes field (codes "core")
    then core
    else other_report

pub data Status : Type 0 where
  version_status ground_chipset_status air_chipset_status camera_status recording_status'
        other_status :
      Status

unfoldable pub status_of : Bytes → Status
status_of field =
    if same_bytes field (codes "openhd_version")
    then version_status
    else if same_bytes field (codes "ground_chipset")
    then ground_chipset_status
    else if same_bytes field (codes "air_chipset")
    then air_chipset_status
    else if same_bytes field (codes "camera")
    then camera_status
    else if same_bytes field (codes "recording")
    then recording_status'
    else other_status
