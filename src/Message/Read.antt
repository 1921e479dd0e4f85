-- ===== src/Message/Read.antt =====
-- `message_state_reader_start`, `message_state_reader_get_device` and `message_state_reader_end` of
-- src/message.c, and `overwitch_device_new` of src/overwitch_device.c.
use Prim.Native.String.{String}
use overwitch.Prelude.{ℕ, ◌-◌, ◌^◌, ◌==◌, Bool, if◌then◌else◌, Option, none, some, ◌>>=◌}
use overwitch.Prelude.Words.{u8}
use overwitch.Numeric.{Doubles}
use overwitch.Device.Json.{Json}
use overwitch.Device.Reader.{label}
use overwitch.Message.Json.{Builder}

-- `struct _OverwitchDevice`; there is no status where `g_snprintf` got `NULL`.
pub record OverwitchDevice (Double : Type 0) : Type 0 where
  pub id : ℕ
  pub name : String
  pub device : String
  pub bus : ℕ
  pub address : ℕ
  pub status : Option String
  pub o2j_latency : String
  pub j2o_latency : String
  pub o2j_ratio : Double
  pub j2o_ratio : Double

-- `g_snprintf` with "%.1f [%.1f, %.1f] ms", the test `>= 0` on a double, and the translations.
pub record Display (Double : Type 0) : Type 0 where
  pub format : Double → Double → Double → String
  pub is_nonneg : Double → Bool
  pub translate : String → String

module _ {Double : Type 0} (D : Display Double) where
  open D use {format, is_nonneg, translate}

  -- At an `int`.
  unfoldable pub get_status_string : ℕ → Option String
  get_status_string status =
      if status == 2 ^ 32 - 1
      then some (translate "Error")
      else if status == 0
      then some (translate "Stopped")
      else if status == 1
      then some (translate "Ready")
      else if status == 2
      then some (translate "Booting")
      else if status == 3
      then some (translate "Tuning")
      else if status == 4
      then some (translate "Running")
      else if status == 5
      then some (translate "Retuning")
      else none

  unfoldable pub overwitch_device_new :
      ℕ
      → String
      → String
      → ℕ
      → ℕ
      → Option String
      → String
      → String
      → Double
      → Double
      → OverwitchDevice Double
  overwitch_device_new id name device bus address status o2j_latency j2o_latency o2j_ratio
        j2o_ratio =
      record {
        id = id;
        name = label name;
        device = label device;
        bus = u8 bus;
        address = u8 address;
        status = (do s ← status; some (label s));
        o2j_latency = label o2j_latency;
        j2o_latency = label j2o_latency;
        o2j_ratio = o2j_ratio;
        j2o_ratio = j2o_ratio;
      }

  -- The text of a latency, which is empty for none.
  unfoldable pub latency_text : Double → Double → Double → String
  latency_text now min max = if is_nonneg now then label (format now min max) else ""

module _ (N : Doubles) (J : Json) (B : Builder J N.Double) (D : Display N.Double) where
  open N use {Double}
  open J use {Node, read_member, is_array, count_elements, read_element, int_value, string_value}
  open B use {double_value}

  -- The member that the reader then stands at, and the number of devices.
  unfoldable pub state_reader_start : Node → Option (Node × ℕ)
  state_reader_start root = do
    devices ← read_member root "devices"
    if is_array devices then some (devices, count_elements devices) else none

  -- The members of a device, in the order in which they are read.
  unfoldable pub read_device : Node → Option (OverwitchDevice Double)
  unfolding get_status_string overwitch_device_new latency_text
  read_device node = do
    id ← read_member node "id"
    name ← read_member node "name"
    device_name ← read_member node "device"
    bus ← read_member node "bus"
    address ← read_member node "address"
    status ← read_member node "status"
    t_latency_o2h ← read_member node "latencyO2H"
    t_latency_o2h_max ← read_member node "latencyO2HMax"
    t_latency_o2h_min ← read_member node "latencyO2HMin"
    ratio_o2h ← read_member node "ratioO2H"
    t_latency_h2o ← read_member node "latencyH2O"
    t_latency_h2o_max ← read_member node "latencyH2OMax"
    t_latency_h2o_min ← read_member node "latencyH2OMin"
    ratio_h2o ← read_member node "ratioH2O"
    some (
        overwitch_device_new D (int_value id) (string_value name) (string_value device_name)
          (int_value bus) (int_value address) (get_status_string D (int_value status))
          (latency_text D (double_value t_latency_o2h) (double_value t_latency_o2h_min)
            (double_value t_latency_o2h_max))
          (latency_text D (double_value t_latency_h2o) (double_value t_latency_h2o_min)
            (double_value t_latency_h2o_max))
          (double_value ratio_o2h) (double_value ratio_h2o))

  unfoldable pub state_reader_get_device : Node → ℕ → Option (OverwitchDevice Double)
  unfolding read_device
  state_reader_get_device devices index = do node ← read_element devices index; read_device node

  -- What `message_state_reader_end` stores: nothing where a member is missing.
  pub record Server : Type 0 where
    pub samplerate : Option ℕ
    pub buffer_size : Option ℕ
    pub target_delay_ms : Option Double

  unfoldable pub state_reader_end : Node → Server
  state_reader_end root = record {
    samplerate = (do n ← read_member root "sampleRate"; some (int_value n));
    buffer_size = (do n ← read_member root "bufferSize"; some (int_value n));
    target_delay_ms = (do n ← read_member root "targetDelay"; some (double_value n));
  }
