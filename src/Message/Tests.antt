-- ===== src/Message/Tests.antt =====
-- A message of one client, and the theorem at it.
use overwitch.Prelude.{ℕ, true, Runs, List, [], ◌∷◌, arith}
use overwitch.Numeric.Samples.{plain_doubles}
use overwitch.Device.{type_1}
use overwitch.Device.Search.{Device}
use overwitch.Resampler.State.{run, Report}
use overwitch.Message.Plain.{plain_json, plain_builder, plain-IsFaithful}
use overwitch.Message.Read.{Display, state_reader_start}
use overwitch.Message.RoundTrip.{Entry, message, IsRead, message-IsRead}

abbrev device : Device
device = record {
  desc = record {
    pid = 0x000c;
    name = "Digitakt";
    type = type_1;
    input_tracks = [];
    output_tracks = [];
  };
  vid = 0x1935;
  pid = 0x000c;
  bus = 1;
  address = 2;
}

abbrev report : Report plain_doubles
report = record {
  status = run;
  ratio_o2h = 1;
  ratio_h2o = 1;
  t_latency_o2h = 5;
  t_latency_o2h_min = 4;
  t_latency_o2h_max = 6;
  t_latency_h2o = 5;
  t_latency_h2o_min = 4;
  t_latency_h2o_max = 6;
  f_latency_o2h = 5;
  f_latency_o2h_min = 4;
  f_latency_o2h_max = 6;
  f_latency_h2o = 5;
  f_latency_h2o_min = 4;
  f_latency_h2o_max = 6;
}

abbrev entries : List (Entry plain_doubles)
entries = record { id = 0; overbridge_name = "Mine"; device = device; state = report } ∷ []

abbrev display : Display ℕ
display = record {
  format = λ now min max. "1.0 [1.0, 1.0] ms";
  is_nonneg = λ x. true;
  translate = λ s. s;
}

message-IsRead_example :
    Runs
      (state_reader_start plain_doubles plain_json plain_builder display (
        message plain_doubles plain_json plain_builder plain-IsFaithful display entries 48000 256
          3))
      (IsRead plain_doubles plain_json plain_builder plain-IsFaithful display entries 48000 256 3 (
        message plain_doubles plain_json plain_builder plain-IsFaithful display entries 48000 256
          3))
message-IsRead_example =
    message-IsRead plain_doubles plain_json plain_builder plain-IsFaithful display entries 48000 256
      3 (record { id = omega arith; bus = omega arith; address = omega arith }, tt) (omega arith)
      (omega arith)
