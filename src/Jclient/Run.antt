-- ===== src/Jclient/Run.antt =====
-- `jclient_run` of src/jclient.c: what it asks of JACK and of the resampler, in order, and what it
-- returns. What these calls return is a parameter.
use overwitch.Prelude.{
  ℕ, zero, suc, ◌+◌, ◌*◌, ◌^◌, leb, Bool, true, false, not, ◌&&◌, if◌then◌else◌, Option, none, some,
  List, [], ◌∷◌, ◌++◌,
}
use overwitch.Engine.Status.{OwErr, generic_error}
use overwitch.Device.{DeviceDesc, inputs, outputs}

-- `JackPortIsOutput` and `JackPortIsInput`
pub data Direction : Type 0 where
  output input : Direction

-- The calls with an effect that has to be undone or waited for, in the order of the code.
pub data Call : Type 0 where
  open_client close_client : Call
  register_port : Direction → ℕ → Call
  create_ring free_ring : Direction → ℕ → Call
  start_resampler : ℕ → Call
  wait_resampler activate deactivate : Call

-- What the calls return: `true` is success. `start` is the error of `ow_resampler_start`, if any.
pub record Jack : Type 0 where
  pub opens : Bool
  pub sets_process : Bool
  pub sets_xrun : Bool
  pub sets_latency : Bool
  pub sets_buffer_size : Bool
  pub sets_sample_rate : Bool
  pub real_time_priority : ℕ
  pub registers : Direction → ℕ → Bool
  pub start : ℕ → Option OwErr
  pub activates : Bool

-- What `jclient_run` returns (`none` is `OW_OK`), and its calls.
abbrev pub Outcome : Type 0
Outcome = Option OwErr × List Call

-- `MAX_LATENCY`
abbrev pub max_latency : ℕ
max_latency = 8192 * 2

abbrev after : List Call → Outcome → Outcome
after calls (err, rest) = (err, calls ++ rest)

-- The code behind `cleanup_jack`, with the rings that there are.
unfoldable pub cleanup_jack : Option OwErr → List Call → Outcome
cleanup_jack err rings = (err, rings ++ close_client ∷ [])

-- A loop that registers the last `k` ports, from `i` on: whether all are registered, and the calls.
unfoldable pub register_ports : Jack → Direction → ℕ → ℕ → Bool × List Call
register_ports j dir zero i = (true, [])
register_ports j dir (suc k) i =
    let (all, calls) = register_ports j dir k (i + 1) in
    if j.registers dir i then (all, register_port dir i ∷ calls) else (false, [])

-- From `ow_resampler_start` on.
unfoldable pub run_resampler : Jack → ℕ → ℕ → ℕ → Outcome
unfolding cleanup_jack
run_resampler j priority o2h_size h2o_size =
    let rings = free_ring input h2o_size ∷ free_ring output o2h_size ∷ [] in
    elim (j.start priority) [
      | some e ↦ cleanup_jack (some e) rings
      | none ↦ after (start_resampler priority ∷ []) (
          if j.activates
          then after (activate ∷ wait_resampler ∷ deactivate ∷ []) (cleanup_jack none rings)
          else after (wait_resampler ∷ []) (cleanup_jack (some generic_error) rings))
    ]

-- From the registration of the ports on; `o2h_size` and `h2o_size` are the frame sizes.
unfoldable pub run_ports : Jack → DeviceDesc → ℕ → ℕ → ℕ → Outcome
unfolding cleanup_jack
run_ports j desc priority o2h_size h2o_size =
    let (all_out, out_calls) = register_ports j output (outputs desc) 0 in
    let (all_in, in_calls) = register_ports j input (inputs desc) 0 in
    let o2h_ring = max_latency * o2h_size in
    let h2o_ring = max_latency * h2o_size in
    after out_calls (
      if not all_out
      then cleanup_jack (some generic_error) []
      else after in_calls (
          if not all_in
          then cleanup_jack (some generic_error) []
          else after (create_ring output o2h_ring ∷ create_ring input h2o_ring ∷ [])
              (run_resampler j priority o2h_ring h2o_ring)))

-- A negative priority, as a pattern of an `int`, is replaced by the one of JACK.
abbrev pub priority_of : Jack → ℕ → ℕ
priority_of j priority = if leb (2 ^ 31) priority then j.real_time_priority else priority

unfoldable pub jclient_run : Jack → DeviceDesc → ℕ → ℕ → ℕ → Outcome
unfolding cleanup_jack
jclient_run j desc priority o2h_size h2o_size =
    if not j.opens
    then (some generic_error, [])
    else after (open_client ∷ []) (
        if not (j.sets_process && (j.sets_xrun && j.sets_latency))
        then cleanup_jack none []
        else if not (j.sets_buffer_size && j.sets_sample_rate)
        then cleanup_jack (some generic_error) []
        else run_ports j desc (priority_of j priority) o2h_size h2o_size)
