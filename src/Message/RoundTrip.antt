-- ===== src/Message/RoundTrip.antt =====
-- What the graphical application reads of a message is what the service put into it.
use Prim.Native.String.{String}
use overwitch.Prelude.{
  ℕ, zero, suc, ◌%◌, ◌^◌, ◌<◌, ◌≡◌, refl, sym, ap, ◌∙◌, if◌then◌else◌, Option, some, ◌>>=◌, Runs,
  All, List, [], ◌∷◌, ◌++◌, append-nil, append_assoc, map, length, length-map, get_elem?, arith,
}
use overwitch.Numeric.{Doubles}
use overwitch.Device.Json.{Json}
use overwitch.Device.Reader.{label}
use overwitch.Device.Search.{Device}
use overwitch.Resampler.State.{ResamplerStatus, error, stop, ready, boot, tune, run, retune, Report}
use overwitch.Message.Json.{Builder, IsFaithful}
use overwitch.Message.Build.{
  int_of_status, device_node, state_builder_start, state_builder_add_device, state_builder_end,
}
use overwitch.Message.Read.{
  OverwitchDevice, Display, get_status_string, overwitch_device_new, latency_text,
  state_reader_start, read_device, state_reader_get_device, state_reader_end,
}

-- The names of the states.
abbrev pub status_name : ResamplerStatus → String
status_name error = "Error"
status_name stop = "Stopped"
status_name ready = "Ready"
status_name boot = "Booting"
status_name tune = "Tuning"
status_name run = "Running"
status_name retune = "Retuning"

int_of_status-lt : (s : ResamplerStatus) → int_of_status s < 2 ^ 32
unfolding int_of_status
int_of_status-lt error = omega arith
int_of_status-lt _ = omega arith

get_status_string-int_of_status :
    {Double : Type 0} (D : Display Double) (s : ResamplerStatus)
    → get_status_string D (int_of_status s) ≡ some (D.translate (status_name s))
unfolding get_status_string int_of_status
get_status_string-int_of_status D error = refl
get_status_string-int_of_status D stop = refl
get_status_string-int_of_status D ready = refl
get_status_string-int_of_status D boot = refl
get_status_string-int_of_status D tune = refl
get_status_string-int_of_status D run = refl
get_status_string-int_of_status D retune = refl

module _ (N : Doubles) where
  -- A client that runs, as the service describes it.
  pub record Entry : Type 0 where
    pub id : ℕ
    pub overbridge_name : String
    pub device : Device
    pub state : Report N

  -- The numbers are words of 32 bits.
  pub record InBounds (e : Entry) : Type 0 where
    pub id : e.id < 2 ^ 32
    pub bus : e.device.bus < 2 ^ 32
    pub address : e.device.address < 2 ^ 32

  module _ (D : Display N.Double) where
    abbrev latency : N.Double → N.Double → N.Double → String
    latency now min max = label (if D.is_nonneg now then label (D.format now min max) else "")

    -- What is shown of it.
    abbrev pub shown : Entry → OverwitchDevice N.Double
    shown e = record {
      id = e.id;
      name = label e.overbridge_name;
      device = label e.device.desc.name;
      bus = e.device.bus % 256;
      address = e.device.address % 256;
      status = some (label (D.translate (status_name e.state.status)));
      o2j_latency =
          latency e.state.t_latency_o2h e.state.t_latency_o2h_min e.state.t_latency_o2h_max;
      j2o_latency =
          latency e.state.t_latency_h2o e.state.t_latency_h2o_min e.state.t_latency_h2o_max;
      o2j_ratio = e.state.ratio_o2h;
      j2o_ratio = e.state.ratio_h2o;
    }

module _ (N : Doubles) (J : Json) (B : Builder J N.Double) (L : IsFaithful J N.Double B)
    (D : Display N.Double) where
  abbrev node_of : Entry N → J.Node
  node_of e = device_node N J B e.id e.overbridge_name e.device e.state

  read_device-device_node :
      (e : Entry N) → InBounds N e → read_device N J B D (node_of e) ≡ some (shown N D e)
  unfolding read_device device_node overwitch_device_new latency_text
  read_device-device_node e h = simp (
    L.read_member-object,
    L.string_value-string,
    L.double_value-double,
    L.int_value-int e.id h.id,
    L.int_value-int e.device.bus h.bus,
    L.int_value-int e.device.address h.address,
    L.int_value-int (int_of_status e.state.status) (int_of_status-lt e.state.status),
    get_status_string-int_of_status,
  )

  -- The calls of `handle_get_state`, for the clients in their order.
  abbrev add_each : List J.Node → List (Entry N) → List J.Node
  add_each builder [] = builder
  add_each builder (e ∷ es) =
      add_each (state_builder_add_device N J B builder e.id e.overbridge_name e.device e.state) es

  add_each-map :
      (builder : List J.Node) (es : List (Entry N))
      → add_each builder es ≡ builder ++ map node_of es
  unfolding state_builder_add_device
  add_each-map builder [] = sym (append-nil builder)
  add_each-map builder (e ∷ es) =
      add_each-map (builder ++ node_of e ∷ []) es
      ∙ append_assoc builder (node_of e ∷ []) (map node_of es)

  abbrev pub message : List (Entry N) → ℕ → ℕ → N.Double → J.Node
  message es samplerate buffer_size target_delay_ms =
      state_builder_end N J B (add_each (state_builder_start N J B) es) samplerate buffer_size
        target_delay_ms

  -- The device at an index, if there are so many.
  abbrev pub shown_at : List (Entry N) → ℕ → Option (OverwitchDevice N.Double)
  shown_at es i = get_elem? es i >>= λ e. some (shown N D e)

  get_elem?-read :
      (es : List (Entry N)) (i : ℕ)
      → All (InBounds N) es
      → (get_elem? (map node_of es) i >>= read_device N J B D) ≡ shown_at es i
  get_elem?-read [] i h = refl
  get_elem?-read (e ∷ es) zero h = read_device-device_node e h.0
  get_elem?-read (e ∷ es) (suc i) h = get_elem?-read es i h.1

  all_added : (es : List (Entry N)) → add_each (state_builder_start N J B) es ≡ map node_of es
  unfolding state_builder_start
  all_added es = add_each-map [] es

  at :
      (es : List (Entry N)) (i : ℕ)
      → All (InBounds N) es
      → state_reader_get_device N J B D (B.array (map node_of es)) i ≡ shown_at es i
  unfolding state_reader_get_device
  at es i h =
      ap (λ n. n >>= read_device N J B D) (L.read_element-array (map node_of es) i)
      ∙ get_elem?-read es i h

  ended :
      (ns : List J.Node) (samplerate buffer_size : ℕ) (delay : N.Double)
      → samplerate < 2 ^ 32
      → buffer_size < 2 ^ 32
      → state_reader_end N J B D (state_builder_end N J B ns samplerate buffer_size delay)
        ≡ record {
          samplerate = some samplerate;
          buffer_size = some buffer_size;
          target_delay_ms = some delay;
        }
  unfolding state_reader_end state_builder_end
  ended ns samplerate buffer_size delay s b = simp (
    L.read_member-object,
    L.double_value-double,
    L.int_value-int samplerate s,
    L.int_value-int buffer_size b,
  )

  -- What was read of a message.
  pub record IsRead (es : List (Entry N)) (samplerate buffer_size : ℕ) (delay : N.Double)
      (root : J.Node) (r : J.Node × ℕ) : Type 0 where
    pub count : r.1 ≡ length es
    pub devices : (i : ℕ) → state_reader_get_device N J B D r.0 i ≡ shown_at es i
    pub server : state_reader_end N J B D root ≡ record {
      samplerate = some samplerate;
      buffer_size = some buffer_size;
      target_delay_ms = some delay;
    }

  -- With a json-glib that reads what it builds, and numbers of 32 bits: the message that the service
  -- builds is accepted, it has as many devices as clients were added, the device at each index is
  -- the client at that index, with its texts cut to their sizes and its bus and address to a byte,
  -- there is none at any other index, and the three numbers of the server are read as they were.
  pub message-IsRead :
      (es : List (Entry N)) (samplerate buffer_size : ℕ) (delay : N.Double)
      → All (InBounds N) es
      → samplerate < 2 ^ 32
      → buffer_size < 2 ^ 32
      → Runs
          (state_reader_start N J B D (message es samplerate buffer_size delay))
          (IsRead es samplerate buffer_size delay (message es samplerate buffer_size delay))
  unfolding state_builder_end state_reader_start
  message-IsRead es samplerate buffer_size delay h s b = rw (all_added es) (
      simp (L.read_member-object, L.is_array-array, L.count_elements-array)
        (
          (B.array (map node_of es), length (map node_of es)),
          refl,
          record {
            count = length-map node_of es;
            devices = λ i. at es i h;
            server = ended (map node_of es) samplerate buffer_size delay s b;
          },
        ))
