-- ===== src/Lib.antt =====
-- Overwitch connects Overbridge USB audio devices to JACK. A device and the host have clocks of
-- their own, so the program has two halves and a loop that relates them:
--   the engine (src/engine.c) exchanges USB transfers with the device in a thread of its own and
--   moves samples between them and two ring buffers;
--   the resampler (src/resampler.c) is called in every cycle of the host, converts between the ring
--   buffers and the buffers of the host, and owns the state machine that boots, tunes and runs;
--   the delay-locked loop (src/dll.c) is updated by both and gives the ratio of the conversions.
-- Around them are a JACK client (src/jclient.c) and the programs: overwitch-cli, overwitch-record,
-- overwitch-play, and overwitch-service with a pool of clients, whose state the graphical application
-- reads as JSON. This library models them as functions and states theorems about them.
--
--   Prelude      lists, options and words, tests on numbers, and the code that can fail
--   Numeric      float, double and libsamplerate's src_simple as parameters
--   Device       src/overwitch.c: the descriptions of devices, Json and Reader (their files), Reading
--                (what is accepted), Search (the list of devices and the search in it)
--   Dll          the delay-locked loop, src/dll.c
--   Engine       src/engine.c: Status and State (struct ow_engine), Sample and Blocks (the USB blocks),
--                Rings (the ring buffers, a parameter), Memory (ow_engine_init_mem), Input and
--                Output (the two transfer callbacks), Valid (their invariant), Frames and Publish
--                (what they do to the rings), Thread (run_audio), Start (ow_engine_start, and
--                what the thread and its callbacks use of a context) and Usb
--                (ow_engine_init_from_device: how it ends, in Refused, and what it gives back, in
--                Released)
--   Resampler    src/resampler.c: State (struct ow_resampler), Buffers (the readers), Audio
--                (ow_resampler_read_audio and ow_resampler_write_audio), Ratios
--                (ow_resampler_compute_ratios), Graph (its state machine) and Cycles (that it is
--                one), Trace (runs of it), Clearing, Room, Sizes, Queue, Conversions and Keeping
--                (the bounds of its buffers), Setup (ow_resampler_init_from_device and
--                ow_resampler_start) and Started (one after the other)
--   Jclient      src/jclient.c: Copies (between the frames of the resampler and the ports of JACK),
--                Process (jclient_process_cb) and Cycle (a whole cycle of the host), Run (jclient_run)
--                and Released (what it gives back and returns)
--   Arguments    Strtol (strtol of C), Parse (src/common.c) and Numbers (what it accepts), Options and
--                Mains (the options of src/main-cli.c, src/main-record.c and src/main-play.c), Counts,
--                Chosen, Runs and Bounds (when these programs run, and with which numbers)
--   Recorder     src/main-record.c: State (buffer_write and dump_buffer), Tracks and Write (what
--                buffer_write keeps), Threads (its two threads), Outputs (the channels of the file)
--   Player       src/main-play.c: buffer_read_space and buffer_read, Played (a read) and Reads (many)
--   Preferences  src/preferences.c, and Kept (what is saved is loaded)
--   Programs     run_record, run_play, run_jclient and rename_device: Calls (the order of their calls)
--                and Released (what they give back)
--   Service      src/main-service.c: Pool (the pool of clients and its operations), View and Rename
--                (the pool as a table of devices), Stops (stop and start)
--   Message      src/message.c: Json (the builder of json-glib, a parameter), Build, Read and RoundTrip
--
-- State is a record that a function takes and gives back. `none` is an access out of bounds, a
-- division by zero or, in the service, a join that does not return and, in the preferences, a strdup
-- of NULL; where calls are played on what is held, it is one that must not be made then. An error
-- code is a result of its own. A number is a natural number, and a word of 32 or 64 bits keeps its remainder. A float or a
-- double is a value of a type that is a parameter, with the operations that the code uses; no law of
-- arithmetic is assumed of them but that no double is below itself, and that a conversion to an integer
-- is one of its patterns. The ring buffers hold less than two gigabytes, which the code counts in an
-- int.
--
-- Loops run over the tracks, frames and blocks of lists, so no fuel is needed. A conversion of
-- libsamplerate is a tree of the requests that it makes, which is finite, as the call returns.
--
-- The thread of the engine is a relation between its place in the code and the status; each step is
-- one access under the lock, and the other threads may change the status between any two. What the
-- thread does to the latencies and the ring in between is left out there. The spin locks are not
-- modelled beyond that: a function of the resampler or a callback is one step. The two threads of
-- overwitch-record are a relation of the same kind. An operation of the service is one step, and a
-- client that is told to stop ends.
--
-- What a call of a library returns is an argument where the order of the calls is the model: in
-- jclient_run, in the courses of the programs, in the service, and in the initialisation of an engine.
--
-- Not modelled: the control transfers for the name of a device, the hotplug loop of libusb, the
-- latencies that JACK asks for, D-Bus, the handlers of signals and the graphical application.
pub mod Prelude
pub mod Numeric
pub mod Arguments
pub mod Device
pub mod Dll
pub mod Engine
pub mod Jclient
pub mod Message
pub mod Player
pub mod Preferences
pub mod Programs
pub mod Recorder
pub mod Resampler
pub mod Service
