-- ===== src/Message/Build.antt =====
-- `message_state_builder_start`, `message_state_builder_add_device` and `message_state_builder_end`
-- of src/message.c. Between the first and the last the builder is the list of the devices so far.
use Prim.Native.String.{String}
use overwitch.Prelude.{ℕ, ◌-◌, ◌^◌, List, [], ◌∷◌, ◌++◌}
use overwitch.Numeric.{Doubles}
use overwitch.Device.Json.{Json}
use overwitch.Device.Search.{Device}
use overwitch.Resampler.State.{ResamplerStatus, error, stop, ready, boot, tune, run, retune, Report}
use overwitch.Message.Json.{Builder}

-- The value of a status as an `int`; that of an error is -1.
unfoldable pub int_of_status : ResamplerStatus → ℕ
int_of_status error = 2 ^ 32 - 1
int_of_status stop = 0
int_of_status ready = 1
int_of_status boot = 2
int_of_status tune = 3
int_of_status run = 4
int_of_status retune = 5

module _ (N : Doubles) (J : Json) (B : Builder J N.Double) where
  open N use {Double}
  open J use {Node}
  open B use {int, string, double, array, object}

  unfoldable pub state_builder_start : List Node
  state_builder_start = []

  unfoldable pub device_node : ℕ → String → Device → Report N → Node
  unfolding int_of_status
  device_node id overbridge_name device state = object (
      ("id", int id)
      ∷ ("name", string overbridge_name)
      ∷ ("device", string device.desc.name)
      ∷ ("bus", int device.bus)
      ∷ ("address", int device.address)
      ∷ ("status", int (int_of_status state.status))
      ∷ ("latencyO2H", double state.t_latency_o2h)
      ∷ ("latencyO2HMax", double state.t_latency_o2h_max)
      ∷ ("latencyO2HMin", double state.t_latency_o2h_min)
      ∷ ("latencyH2O", double state.t_latency_h2o)
      ∷ ("latencyH2OMax", double state.t_latency_h2o_max)
      ∷ ("latencyH2OMin", double state.t_latency_h2o_min)
      ∷ ("ratioO2H", double state.ratio_o2h)
      ∷ ("ratioH2O", double state.ratio_h2o)
      ∷ [])

  unfoldable pub state_builder_add_device : List Node → ℕ → String → Device → Report N → List Node
  unfolding device_node
  state_builder_add_device builder id overbridge_name device state =
      builder ++ device_node id overbridge_name device state ∷ []

  unfoldable pub state_builder_end : List Node → ℕ → ℕ → Double → Node
  state_builder_end builder samplerate buffer_size target_delay_ms = object (
      ("devices", array builder)
      ∷ ("sampleRate", int samplerate)
      ∷ ("bufferSize", int buffer_size)
      ∷ ("targetDelay", double target_delay_ms)
      ∷ [])
