-- ===== src/Driver/Control.antt =====
-- windows/driver/Driver.c: `MtpEvtIoDeviceControl`, `MtpEvtDeviceAdd` and `MtpEvtDeviceCleanup`.
use touchpad.Base.{
  ℕ, ◌+◌, ◌*◌, ◌^◌, true, false, not, ◌==◌, ◌!=◌, ◌||◌, if◌then◌else◌, Option, none, some, List, [],
  ◌∷◌,
}
use touchpad.Ioctl.{IoctlFrame, IoctlStatus, ioctl_abi_version}
use touchpad.Driver.Types.{
  DeviceContext, PtpReport, nt_success, status_success, status_not_found,
  status_invalid_device_request, status_device_configuration_error, status_device_not_ready,
}
use touchpad.Driver.Submit.{submit_ioctl_frame}

-- `MTP_CTL_CODE(FILE_DEVICE_MTP_TOUCHPAD, ...)`: the four fields do not overlap.
abbrev pub ctl_code : ℕ → ℕ → ℕ → ℕ → ℕ
ctl_code device_type function method access =
    device_type * 2 ^ 16 + access * 2 ^ 14 + function * 2 ^ 2 + method

abbrev pub ioctl_mtp_submit_frame : ℕ
ioctl_mtp_submit_frame = ctl_code 0x8000 0x800 0 2

abbrev pub ioctl_mtp_query_status : ℕ
ioctl_mtp_query_status = ctl_code 0x8000 0x801 0 1

-- `sizeof(MTP_IOCTL_FRAME)`
abbrev pub sizeof_ioctl_frame : ℕ
sizeof_ioctl_frame = 56

-- What the framework's calls on the request return: the status of `WdfRequestRetrieveOutputBuffer`,
-- and the status of `WdfRequestRetrieveInputBuffer` with the frame in the buffer.
pub record Request : Type 0 where
  pub output_status : ℕ
  pub input_status : ℕ
  pub input : IoctlFrame

-- How the request was completed, the status record written to its output buffer, the context, and
-- the report that was submitted.
pub record Completion : Type 0 where
  pub status : ℕ
  pub output : Option IoctlStatus
  pub context : DeviceContext
  pub submitted : Option PtpReport

unfoldable pub status_record : DeviceContext → IoctlStatus
status_record context = record {
  abi_version = ioctl_abi_version;
  submit_count = context.submit_count;
  last_submit_status = context.last_submit_status;
  last_report_size = context.last_report_size;
  last_active_contact_count = context.last_active_contact_count;
  input_mode = context.input_mode;
  function_switch = context.function_switch;
  get_feature_count = context.get_feature_count;
  set_feature_count = context.set_feature_count;
}

module _ (vhf_submit : PtpReport → ℕ) where
  unfoldable pub evt_io_device_control : ℕ → ℕ → Request → DeviceContext → Completion
  unfolding status_record submit_ioctl_frame
  evt_io_device_control io_control_code input_length request context =
      if io_control_code == ioctl_mtp_query_status
      then record {
        status = request.output_status;
        output = if nt_success request.output_status then some (status_record context) else none;
        context = context;
        submitted = none;
      }
      else if io_control_code != ioctl_mtp_submit_frame || input_length != sizeof_ioctl_frame
      then record {
        status = status_invalid_device_request;
        output = none;
        context = context;
        submitted = none;
      }
      else if not (nt_success request.input_status)
      then record {
        status = request.input_status;
        output = none;
        context = context;
        submitted = none;
      }
      else let done = submit_ioctl_frame vhf_submit context request.input in
        record {
          status = done.status;
          output = none;
          context = done.context;
          submitted = done.submitted;
        }

-- The statuses that the framework's calls in `MtpEvtDeviceAdd` return, in their order.
pub record Platform : Type 0 where
  pub device_create : ℕ
  pub symbolic_link : ℕ
  pub lock_create : ℕ
  pub queue_create : ℕ
  pub vhf_create : ℕ
  pub vhf_start : ℕ

-- What the callback did to the virtual HID device, in order.
pub data VhfCall : Type 0 where
  vhf_create vhf_start vhf_delete : VhfCall

pub record Added : Type 0 where
  pub status : ℕ
  pub context : DeviceContext
  pub calls : List VhfCall

-- The context memory as the framework creates it, and as the callback initializes it.
abbrev pub zero_context : DeviceContext
zero_context = record {
  vhf_handle = false;
  last_scan_time = 0;
  submit_count = 0;
  last_submit_status = 0;
  last_report_size = 0;
  last_active_contact_count = 0;
  input_mode = 0;
  function_switch = 0;
  get_feature_count = 0;
  set_feature_count = 0;
}

abbrev pub initial_context : DeviceContext
initial_context = record zero_context { last_submit_status = status_not_found }

-- A failing `VhfCreate` sets no handle.
unfoldable pub evt_device_add : Platform → Added
evt_device_add p =
    if not (nt_success p.device_create)
    then record { status = p.device_create; context = zero_context; calls = [] }
    else if not (nt_success p.symbolic_link)
    then record { status = p.symbolic_link; context = zero_context; calls = [] }
    else if not (nt_success p.lock_create)
    then record { status = p.lock_create; context = initial_context; calls = [] }
    else if not (nt_success p.queue_create)
    then record { status = p.queue_create; context = initial_context; calls = [] }
    else if not (nt_success p.vhf_create)
    then record {
      status = status_device_configuration_error;
      context = initial_context;
      calls = vhf_create ∷ [];
    }
    else if not (nt_success p.vhf_start)
    then record {
      status = status_device_not_ready;
      context = initial_context;
      calls = vhf_create ∷ vhf_start ∷ vhf_delete ∷ [];
    }
    else record {
      status = status_success;
      context = record initial_context { vhf_handle = true };
      calls = vhf_create ∷ vhf_start ∷ [];
    }

-- What `WDF_DRIVER_CONFIG_INIT` sets of the configuration.
pub record DriverConfig : Type 0 where
  pub evt_driver_device_add : Platform → Added

-- `create` is `WdfDriverCreate`, which registers the callback for the devices to come.
unfoldable pub driver_entry : (DriverConfig → ℕ) → ℕ
driver_entry create = create (record { evt_driver_device_add = evt_device_add })

-- The context after the cleanup, and its calls.
unfoldable pub evt_device_cleanup : DeviceContext → DeviceContext × List VhfCall
evt_device_cleanup context =
    if context.vhf_handle
    then (record context { vhf_handle = false }, vhf_delete ∷ [])
    else (context, [])
