-- ===== src/Tests/StateTests.antt =====
-- src/common/mavlink_state.cpp and src/common/openhd_protocol.hpp at concrete inputs.
use openhd_glide.Base.{
  ◌≡◌, refl, true, List, [], ◌∷◌, ◌++◌, some, take, flatten, map, Bytes, codes, same_bytes,
}
use openhd_glide.Base.Int.{pos}
use openhd_glide.Mavlink.Protocol.{
  IdEntry, platform_ids, camera_ids, wifi_card_ids, find_name, is_new, ids_are_unique,
}
use openhd_glide.Mavlink.Protocol.Lookup.{find_name-entry}
use openhd_glide.Mavlink.Text.{is_space, skip_spaces, split_word}
use openhd_glide.Mavlink.State.Keys.{key_of, target_of}
use openhd_glide.Mavlink.State.{fresh_snapshot}
use openhd_glide.Mavlink.State.Reader.{read_word, read_number, scan_int, digits_run}
use openhd_glide.Mavlink.State.Telemetry.{Floats}
use openhd_glide.Mavlink.State.Lines.{
  apply_ipc_line, is_osd_telemetry_line, is_osd_key, is_alive_line,
}
use openhd_glide.Mavlink.State.Percents.{apply_all, IsBounded, apply_all-fresh_snapshot-IsBounded}
use openhd_glide.Mavlink.State.Osd.{is_osd_telemetry_line-taken}
use openhd_glide.Mavlink.State.Messages.{HasFive, last_five, texts_of, apply_all-messages}

platform_run : ids_are_unique platform_ids ≡ true
unfolding ids_are_unique is_new
platform_run = refl

camera_run : ids_are_unique camera_ids ≡ true
unfolding ids_are_unique is_new
camera_run = refl

wifi_card_run : ids_are_unique wifi_card_ids ≡ true
unfolding ids_are_unique is_new
wifi_card_run = refl

abbrev first_cards : List IdEntry
first_cards = take 2 wifi_card_ids

abbrev card : IdEntry
card = record { id = 2; key = codes "OPENHD_RTL_88X2CU"; name = codes "OPENHD_RTL_88X2CU" }

find_name-entry_example : find_name (first_cards ++ card ∷ []) (pos 2) ≡ some card.name
unfolding ids_are_unique is_new
find_name-entry_example = find_name-entry first_cards [] card refl

-- Numbers with a point are not read here.
abbrev whole : Floats
whole = record {
  scan_float = λ text. record { value = 0; behind = text; fails = true };
  scan_double = λ text. record { value = 0; behind = text; fails = true };
}

abbrev some_lines : List Bytes
some_lines =
    codes "mav scan 250"
    ∷ codes "mav openhd wifi_card -40 180 20 21 55"
    ∷ codes "mav message low battery"
    ∷ codes "mav link 5745 20 3 25"
    ∷ []

apply_all-fresh_snapshot-IsBounded_example : IsBounded (apply_all whole fresh_snapshot some_lines)
apply_all-fresh_snapshot-IsBounded_example = apply_all-fresh_snapshot-IsBounded whole some_lines

apply_all-messages_example :
    let s = apply_all whole fresh_snapshot some_lines in
    (take s.message_count s.messages ≡ last_five (flatten (map texts_of some_lines)))
    × HasFive s.messages s.message_count
apply_all-messages_example = apply_all-messages whole some_lines

is_osd_telemetry_line-taken_example :
    (apply_ipc_line whole fresh_snapshot (codes "mav alive fc 1")).1 ≡ true
unfolding is_osd_telemetry_line same_bytes read_word skip_spaces is_space split_word is_osd_key
    key_of is_alive_line read_number scan_int digits_run target_of
is_osd_telemetry_line-taken_example =
    is_osd_telemetry_line-taken whole fresh_snapshot (codes "mav alive fc 1") refl
