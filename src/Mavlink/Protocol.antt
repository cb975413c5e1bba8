-- ===== src/Mavlink/Protocol.antt =====
-- The tables of src/common/openhd_protocol.hpp, and the searches in them.
pub mod Lookup
use Prim.Native.String.{String}
use openhd_glide.Base.{
  ℕ, ◌+◌, Bool, true, false, not, ◌&&◌, ◌||◌, List, [], ◌∷◌, ◌++◌, Option, none, some, ◌==◌,
  if◌then◌else◌, Bytes, codes, arith,
}
use openhd_glide.Base.Int.{ℤ, pos, negsuc}
use openhd_glide.Mavlink.Heartbeat.{to_string}

pub record IdEntry : Type 0 where
  pub id : ℕ
  pub key : Bytes
  pub name : Bytes

abbrev entry : ℕ → String → String → IdEntry
entry id key name = record { id = id; key = codes key; name = codes name }

abbrev pub platform_ids : List IdEntry
platform_ids =
    entry 0 "X_PLATFORM_TYPE_UNKNOWN" "UNKNOWN"
    ∷ entry 1 "X_PLATFORM_TYPE_X86" "X86"
    ∷ entry 10 "X_PLATFORM_TYPE_RPI_OLD" "RPI<=3"
    ∷ entry 11 "X_PLATFORM_TYPE_RPI_4" "RPI 4"
    ∷ entry 12 "X_PLATFORM_TYPE_RPI_CM4" "RPI CM4"
    ∷ entry 13 "X_PLATFORM_TYPE_RPI_5" "RPI 5"
    ∷ entry 20 "X_PLATFORM_TYPE_ROCKCHIP_RK3566_RADXA_ZERO3W" "RADXA ZERO3W"
    ∷ entry 21 "X_PLATFORM_TYPE_ROCKCHIP_RK3588_RADXA_ROCK5_A" "RADXA RK3588S"
    ∷ entry 22 "X_PLATFORM_TYPE_ROCKCHIP_RK3588_RADXA_ROCK5_B" "RADXA RK3588"
    ∷ entry 23 "X_PLATFORM_TYPE_ROCKCHIP_RV1126" "RV1126"
    ∷ entry 24 "X_PLATFORM_TYPE_ROCKCHIP_RK3566_RADXA_CM3" "RADXA CM3"
    ∷ entry 25 "X_PLATFORM_TYPE_LUCKFOX_RV110X" "RV110X"
    ∷ entry 27 "X_PLATFORM_TYPE_LUCKFOX_LYRA" "ERR-UNDEFINED{27}"
    ∷ entry 28 "X_PLATFORM_TYPE_OPENHD_X21" "X21/RV1126(B)"
    ∷ entry 30 "X_PLATFORM_TYPE_ALWINNER_X20" "X20"
    ∷ entry 31 "X_PLATFORM_TYPE_ALWINNER_CUBIE_A7S" "ERR-UNDEFINED{31}"
    ∷ entry 32 "X_PLATFORM_TYPE_ALWINNER_CUBIE_A7Z" "A733"
    ∷ entry 36 "X_PLATFORM_TYPE_OPENIPC_SIGMASTAR_UNDEFINED" "OPENIPC SIGMASTAR"
    ∷ entry 40 "X_PLATFORM_TYPE_NVIDIA_XAVIER" "NVIDIA_XAVIER"
    ∷ entry 46 "X_PLATFORM_TYPE_QUALCOMM_QRB5165" "QUALCOMM_QRB5165"
    ∷ entry 47 "X_PLATFORM_TYPE_QUALCOMM_QCS405" "QUALCOMM_QCS405"
    ∷ entry 51 "X_PLATFORM_TYPE_ORQA" "ORQA"
    ∷ entry 52 "X_PLATFORM_TYPE_UVX_MOD" "UVX_MOD"
    ∷ entry 61 "X_PLATFORM_TYPE_NXP_IMX8" "NXP_IMX8"
    ∷ []

abbrev pub camera_ids : List IdEntry
camera_ids =
    entry 0 "X_CAM_TYPE_DUMMY_SW" "DUMMY"
    ∷ entry 2 "X_CAM_TYPE_EXTERNAL" "EXTERNAL"
    ∷ entry 3 "X_CAM_TYPE_EXTERNAL_IP" "EXTERNAL_IP"
    ∷ entry 4 "X_CAM_TYPE_DEVELOPMENT_FILESRC" "DEV_FILESRC"
    ∷ entry 10 "X_CAM_TYPE_USB_GENERIC" "USB"
    ∷ entry 11 "X_CAM_TYPE_USB_INFIRAY" "INFIRAY"
    ∷ entry 12 "X_CAM_TYPE_USB_INFIRAY_T2" "INFIRAY_T2"
    ∷ entry 13 "X_CAM_TYPE_USB_INFIRAY_X2" "INFIRAY_X2"
    ∷ entry 14 "X_CAM_TYPE_USB_INFIRAY_P2_PRO" "INFIRAY_P2_PRO"
    ∷ entry 15 "X_CAM_TYPE_USB_FLIR_VUE" "FLIR VUE"
    ∷ entry 16 "X_CAM_TYPE_USB_FLIR_BOSON" "FLIR BOSON"
    ∷ entry 20 "X_CAM_TYPE_RPI_MMAL_HDMI_TO_CSI" "MMAL_HDMI"
    ∷ entry 30 "X_CAM_TYPE_RPI_LIBCAMERA_RPIF_V1_OV5647" "RPIF_V1_OV5647"
    ∷ entry 31 "X_CAM_TYPE_RPI_LIBCAMERA_RPIF_V2_IMX219" "RPIF_V2_IMX219"
    ∷ entry 32 "X_CAM_TYPE_RPI_LIBCAMERA_RPIF_V3_IMX708" "RPIF_V3_IMX708"
    ∷ entry 33 "X_CAM_TYPE_RPI_LIBCAMERA_RPIF_HQ_IMX477" "RPIF_HQ_IMX477"
    ∷ entry 40 "X_CAM_TYPE_RPI_LIBCAMERA_ARDUCAM_SKYMASTERHDR_IMX708" "ARDUCAM_SKYMASTERHDR"
    ∷ entry 41 "X_CAM_TYPE_RPI_LIBCAMERA_ARDUCAM_SKYVISIONPRO_IMX519" "ARDUCAM_SKYVISIONPRO"
    ∷ entry 42 "X_CAM_TYPE_RPI_LIBCAMERA_ARDUCAM_IMX477M" "ARDUCAM_IMX477M"
    ∷ entry 43 "X_CAM_TYPE_RPI_LIBCAMERA_ARDUCAM_IMX462" "ARDUCAM_IMX462"
    ∷ entry 44 "X_CAM_TYPE_RPI_LIBCAMERA_ARDUCAM_IMX327" "ARDUCAM_IMX327"
    ∷ entry 45 "X_CAM_TYPE_RPI_LIBCAMERA_ARDUCAM_IMX290" "ARDUCAM_IMX290"
    ∷ entry 46 "X_CAM_TYPE_RPI_LIBCAMERA_ARDUCAM_IMX462_LOWLIGHT_MINI"
        "ARDUCAM_IMX462_LOWLIGHT_MINI"
    ∷ entry 47 "X_CAM_TYPE_RPI_LIBCAMERA_ARDUCAM_IMX662" "ARDUCAM_IMX662"
    ∷ entry 60 "X_CAM_TYPE_RPI_V4L2_VEYE_2MP" "VEYE_2MP"
    ∷ entry 61 "X_CAM_TYPE_RPI_V4L2_VEYE_CSIMX307" "VEYE_IMX307"
    ∷ entry 62 "X_CAM_TYPE_RPI_V4L2_VEYE_CSSC132" "VEYE_CSSC132"
    ∷ entry 63 "X_CAM_TYPE_RPI_V4L2_VEYE_MVCAM" "VEYE_MVCAM"
    ∷ entry 70 "X_CAM_TYPE_X20_HDZERO_GENERIC" "X20_HDZERO_GENERIC"
    ∷ entry 71 "X_CAM_TYPE_X20_HDZERO_RUNCAM_V1" "X20_HDZERO_RUNCAM_V1"
    ∷ entry 72 "X_CAM_TYPE_X20_HDZERO_RUNCAM_V2" "X20_HDZERO_RUNCAM_V2"
    ∷ entry 73 "X_CAM_TYPE_X20_HDZERO_RUNCAM_V3" "X20_HDZERO_RUNCAM_V3"
    ∷ entry 74 "X_CAM_TYPE_X20_HDZERO_RUNCAM_NANO_90" "X20_HDZERO_RUNCAM_NANO"
    ∷ entry 75 "X_CAM_TYPE_X20_OHD_Jaguar" "X20_OHD_Jaguar"
    ∷ entry 76 "X_CAM_TYPE_X21_OHD_Jaguar" "X21_OHD_Jaguar"
    ∷ entry 77 "X_CAM_TYPE_A733_IMX415" "A733_IMX415"
    ∷ entry 78 "X_CAM_TYPE_A733_IMX219" "A733_IMX219"
    ∷ entry 79 "X_CAM_TYPE_A733_IMX214" "A733_IMX214"
    ∷ entry 80 "X_CAM_TYPE_ROCK_5_HDMI_IN" "ROCK_5_HDMI_IN"
    ∷ entry 81 "X_CAM_TYPE_ROCK_5_OV5647" "ROCK_5_OV5647"
    ∷ entry 82 "X_CAM_TYPE_ROCK_5_IMX219" "ROCK_5_IMX219"
    ∷ entry 83 "X_CAM_TYPE_ROCK_5_IMX708" "ROCK_5_IMX708"
    ∷ entry 84 "X_CAM_TYPE_ROCK_5_IMX462" "ROCK_5_IMX462"
    ∷ entry 85 "X_CAM_TYPE_ROCK_5_IMX415" "ROCK_5_IMX415"
    ∷ entry 86 "X_CAM_TYPE_ROCK_5_IMX477" "ROCK_5_IMX415"
    ∷ entry 87 "X_CAM_TYPE_ROCK_5_IMX519" "ROCK_5_IMX415"
    ∷ entry 88 "X_CAM_TYPE_ROCK_5_OHD_Jaguar" "ROCK_5_OHD_Jaguar"
    ∷ entry 90 "X_CAM_TYPE_ROCK_3_HDMI_IN" "ROCK_3_HDMI_IN"
    ∷ entry 91 "X_CAM_TYPE_ROCK_3_OV5647" "ROCK_3_OV5647"
    ∷ entry 92 "X_CAM_TYPE_ROCK_3_IMX219" "ROCK_3_IMX219"
    ∷ entry 93 "X_CAM_TYPE_ROCK_3_IMX708" "ROCK_3_IMX708"
    ∷ entry 94 "X_CAM_TYPE_ROCK_3_IMX462" "ROCK_3_IMX462"
    ∷ entry 95 "X_CAM_TYPE_ROCK_3_IMX519" "ROCK_3_IMX519"
    ∷ entry 96 "X_CAM_TYPE_ROCK_3_OHD_Jaguar" "ROCK_3_OHD_Jaguar"
    ∷ entry 97 "X_CAM_TYPE_ROCK_3_VEYE" "ROCK_3_VEYE"
    ∷ entry 101 "X_CAM_TYPE_NVIDIA_XAVIER_IMX577" "XAVIER_IMX577"
    ∷ entry 110 "X_CAM_TYPE_OPENIPC_GENERIC" "OPENIPC_X"
    ∷ entry 120 "X_CAM_TYPE_QC_IMX577" "CORETRONIC IMX577"
    ∷ entry 121 "X_CAM_TYPE_QC_OV9282" "CORETRONIC OV9282"
    ∷ entry 122 "X_CAM_TYPE_ORQA_HORNET" "ORQA_HORNET"
    ∷ entry 123 "X_CAM_TYPE_ORQA_JAGUAR" "ORQA_JAGUAR"
    ∷ entry 124 "X_CAM_TYPE_ORQA_REKINDLE" "ORQA_REKINDLE"
    ∷ entry 125 "X_CAM_TYPE_ORQA_ORCA_DIGITAL_V2" "ORQA_ORCA_DIGITAL_V2"
    ∷ entry 130 "X_CAM_TYPE_NXP_IMX8_V4L2" "NXP_IMX8_V4L2"
    ∷ entry 131 "X_CAM_TYPE_NXP_IMX8_OS08A20" "NXP_IMX8_OS08A20"
    ∷ entry 140 "X_CAM_TYPE_ROCKCHIP_RV110X" "LUCKFOX_MIS5001"
    ∷ entry 141 "X_CAM_TYPE_ROCKCHIP_RV1126_CSI" "RV1126B_CSI"
    ∷ entry 142 "X_CAM_TYPE_ROCKCHIP_RV1126_TEST" "RV1126B_TEST"
    ∷ entry 255 "X_CAM_TYPE_DISABLED" "DISABLED"
    ∷ []

abbrev pub wifi_card_ids : List IdEntry
wifi_card_ids =
    entry 0 "OPENHD_RTL_88X2AU" "OPENHD_RTL_88X2AU"
    ∷ entry 1 "OPENHD_RTL_88X2BU" "OPENHD_RTL_88X2BU"
    ∷ entry 2 "OPENHD_RTL_88X2CU" "OPENHD_RTL_88X2CU"
    ∷ entry 3 "OPENHD_RTL_88X2EU" "OPENHD_RTL_88X2EU"
    ∷ entry 4 "RTL_88X2AU" "RTL_88X2AU"
    ∷ entry 5 "RTL_88X2BU" "RTL_88X2BU"
    ∷ entry 6 "ATHEROS" "ATHEROS"
    ∷ entry 7 "MT_7921u" "MT_7921u"
    ∷ entry 8 "RALINK" "RALINK"
    ∷ entry 9 "INTEL" "INTEL"
    ∷ entry 10 "BROADCOM" "BROADCOM"
    ∷ entry 11 "OPENHD_RTL_8852BU" "OPENHD_RTL_8852BU"
    ∷ entry 12 "OPENHD_EMULATED" "OPENHD_EMULATED"
    ∷ entry 13 "AIC" "AIC"
    ∷ entry 14 "QUALCOMM" "QUALCOMM"
    ∷ entry 15 "UNKNOWN" "UNKNOWN"
    ∷ entry 16 "ARTOSYN" "ARTOSYN"
    ∷ []

-- The first entry with the id.
unfoldable pub find_name : List IdEntry → ℤ → Option Bytes
find_name entries (negsuc n) = none
find_name [] (pos n) = none
find_name (e ∷ entries) (pos n) =
    let later = find_name entries (pos n) in if e.id == n then some e.name else later

-- `std::to_string` of an `int`.
unfoldable pub int_to_string : ℤ → Bytes
int_to_string (pos n) = to_string n
int_to_string (negsuc n) = b'-' ∷ to_string (n + 1)

unfoldable pub name_or : Bytes → Option Bytes → Bytes
name_or other none = other
name_or other (some name) = name

unfoldable pub camera_type_to_string : ℤ → Bytes
camera_type_to_string type =
    name_or (codes "UNKNOWN (" ++ (int_to_string type ++ codes ")")) (find_name camera_ids type)

unfoldable pub wifi_card_type_to_string : ℤ → Bytes
wifi_card_type_to_string type = name_or (codes "UNKNOWN") (find_name wifi_card_ids type)

-- No entry of the list has the id.
unfoldable pub is_new : ℕ → List IdEntry → Bool
is_new id [] = true
is_new id (e ∷ entries) = not (id == e.id) && is_new id entries

unfoldable pub ids_are_unique : List IdEntry → Bool
ids_are_unique [] = true
ids_are_unique (e ∷ entries) = is_new e.id entries && ids_are_unique entries
