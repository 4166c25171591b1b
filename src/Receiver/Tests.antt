-- ===== src/Receiver/Tests.antt =====
-- Runs of the receiver's functions at concrete inputs.
use rf.Prelude.{◌*◌, ◌/◌, refl, true, false, none, some, [], ◌∷◌, length, Ends}
use rf.FixedPoint.{fixed_point}
use rf.Gpio.Defs.{initial_gpio_register}
use rf.Adc.Frames.{Adc}
use rf.Adc.Frames.Status.{status_ready}
use rf.Adc.Stream.Result.{accepted}
use rf.Prelude.{ok, ◌>>=◌}
use rf.Device.Calls.{Calls, Device, Endpoint, present, Bus}
use rf.Receiver.Opening.{System, open_receiver, close_receiver}
use rf.Receiver.Lifecycle.{IsNew, NotOpened, open_receiver_lem}
use rf.Receiver.Closing.{Over, open_close_receiver_lem}
use rf.Receiver.Defs.{Receiver, World, start_streaming}
use rf.Receiver.Defs.RfMode.{hf_mode}
use rf.Receiver.Starting.{Started, NotStarted, starts, start_streaming_lem}

-- Every call succeeds, and no transfer ends.
abbrev world : World
world = record {
  respond = λ log t. record { failed = false; received = [] };
  host = record {
    submit = λ log i. accepted;
    cancel = λ log i. accepted;
    pending = λ log. [];
    handling_fails = λ log. false;
    default_pending = λ log. [];
    default_handling_fails = λ log. false;
    bulk_fails = λ log n. false;
    bulk_bytes = λ log n. [];
  };
  alloc = λ log size. some (length log);
  endpoint = record { address = 0x81; max_packet_size = 1024; max_burst = 16 };
}

abbrev adc : Adc
adc = record {
  status = status_ready;
  random = 0;
  sample_rate = 64_000_000;
  frame_size = 16384;
  num_frames = 2;
  has_callback = true;
  frames = some (0 ∷ 1 ∷ []);
  active_transfers = 0;
}

abbrev receiver : Receiver fixed_point
receiver = record {
  rf_mode = hf_mode;
  gpio_register = initial_gpio_register;
  crystal_frequency = 27_000_000 * 131072;
  frequency_correction = 9_999_314 * 131072 / 10_000_000;
  adc = some adc;
  has_tuner = false;
  tuner = none;
  sample_rate = 64_000_000 * 131072;
  log = [];
  events = [];
  memory = [];
}

start_streaming_example :
    Ends
      (λ _. Started fixed_point world 0)
      (NotStarted fixed_point world 0)
      (start_streaming fixed_point world receiver)
unfolding starts
start_streaming_example = start_streaming_lem fixed_point world receiver (adc, refl)

abbrev bulk_endpoint : Endpoint
bulk_endpoint = record { attributes = 2; endpoint_address = 0x81; max_packet_size = 1024 }

abbrev streamer : Device
streamer = record {
  address = 200;
  id_vendor = 0x04b4;
  id_product = 0xf1;
  manufacturer = 1;
  product = 2;
  serial_number = 0;
}

-- One streamer with one endpoint.
abbrev bus : Bus
bus = record {
  init_fails = λ log c. false;
  device_list = λ log. some (streamer ∷ []);
  open_device = λ log d. some (length log);
  kernel_driver = λ log h. some 0;
  claim_fails = λ log h. false;
  load_fails = λ log h i. false;
  speed = λ log d. 4;
  active_config = λ log d. some (((bulk_endpoint ∷ []) ∷ []) ∷ []);
  companion = λ e. present 6 15;
  string_descriptor = λ log h i. some (65 ∷ 66 ∷ []);
}

abbrev untouched : System
untouched = record { calls = []; log = []; memory = [] }

open_receiver_example :
    Ends
      (IsNew fixed_point bus world untouched)
      (NotOpened fixed_point bus world untouched)
      (open_receiver fixed_point bus world (1 ∷ 1 ∷ 1 ∷ 1 ∷ []) 0 7 untouched)
open_receiver_example = open_receiver_lem fixed_point bus world (1 ∷ 1 ∷ 1 ∷ 1 ∷ []) 0 7 untouched

open_close_receiver_example :
    Ends
      (λ _ t. Over fixed_point bus world untouched t)
      (NotOpened fixed_point bus world untouched)
      ((open_receiver fixed_point bus world (1 ∷ 1 ∷ 1 ∷ 1 ∷ []) 0 7 >>= λ o t.
          ok tt (close_receiver fixed_point bus world o t.calls))
        untouched)
open_close_receiver_example =
    open_close_receiver_lem fixed_point bus world (1 ∷ 1 ∷ 1 ∷ 1 ∷ []) 0 7 untouched
