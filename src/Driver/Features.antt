-- ===== src/Driver/Features.antt =====
-- windows/driver/Driver.c: `MtpEvtVhfGetFeature` and `MtpEvtVhfSetFeature`.
use touchpad.Base.{
  ℕ, ◌+◌, ◌%◌, ◌^◌, leb, ◌==◌, ◌&&◌, ◌||◌, if◌then◌else◌, Option, none, some, List, ◌∷◌, ◌++◌,
  get_or, set, drop,
}
use touchpad.Ioctl.{hid_max_contacts}
use touchpad.Driver.Types.{
  DeviceContext, report_id_mode, report_id_function, report_id_caps, report_id_certification,
  status_success, status_invalid_parameter,
}

-- `HID_XFER_PACKET`; `report_buffer` is `none` for a null pointer.
pub record HidXferPacket : Type 0 where
  pub report_buffer : Option (List ℕ)
  pub report_buffer_len : ℕ
  pub report_id : ℕ

-- The status that completes the operation, the report buffer as the call leaves it, and the context.
pub record FeatureResult : Type 0 where
  pub status : ℕ
  pub buffer : Option (List ℕ)
  pub context : DeviceContext

-- `g_MtpCertificationBlob` is the argument `blob`.
unfoldable pub fill_feature : List ℕ → ℕ → ℕ → List ℕ → ℕ × List ℕ
fill_feature blob report_id report_buffer_len buffer =
    if report_id == report_id_caps && leb 3 report_buffer_len
    then (status_success, set (set (set buffer 0 report_id_caps) 1 hid_max_contacts) 2 0)
    else if report_id == report_id_certification && leb 257 report_buffer_len
    then (status_success, report_id_certification ∷ (blob ++ drop 257 buffer))
    else (status_invalid_parameter, buffer)

-- The packet pointer may be null.
unfoldable pub get_feature : List ℕ → Option HidXferPacket → DeviceContext → FeatureResult
unfolding fill_feature
get_feature blob packet context =
    let counted : DeviceContext = record context {
      get_feature_count = (context.get_feature_count + 1) % 2 ^ 32;
    } in
    elim packet [
      | none ↦ record { status = status_invalid_parameter; buffer = none; context = counted }
      | some p ↦ elim p.report_buffer [
        | none ↦ record { status = status_invalid_parameter; buffer = none; context = counted }
        | some buffer ↦
            let (status, buffer') = fill_feature blob p.report_id p.report_buffer_len buffer in
            record { status = status; buffer = some buffer'; context = counted }
      ]
    ]

unfoldable pub store_feature : ℕ → ℕ → List ℕ → DeviceContext → ℕ × DeviceContext
store_feature report_id report_buffer_len buffer context =
    if leb 2 report_buffer_len && (report_id == report_id_mode || report_id == report_id_function)
    then (
      status_success,
      if report_id == report_id_mode
          then record context {
            input_mode = get_or buffer 1 0;
            set_feature_count = (context.set_feature_count + 1) % 2 ^ 32;
          }
          else record context {
            function_switch = get_or buffer 1 0;
            set_feature_count = (context.set_feature_count + 1) % 2 ^ 32;
          },
    )
    else (status_invalid_parameter, context)

unfoldable pub set_feature : Option HidXferPacket → DeviceContext → FeatureResult
unfolding store_feature
set_feature packet context = elim packet [
  | none ↦ record { status = status_invalid_parameter; buffer = none; context = context }
  | some p ↦ elim p.report_buffer [
    | none ↦ record { status = status_invalid_parameter; buffer = none; context = context }
    | some buffer ↦
        let (status, context') = store_feature p.report_id p.report_buffer_len buffer context in
        record { status = status; buffer = some buffer; context = context' }
  ]
]
