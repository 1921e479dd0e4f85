-- ===== src/Jclient/Released.antt =====
-- What `jclient_run` of src/jclient.c takes, it gives back, and what it returns says whether the
-- client ran; but for the callbacks that JACK refuses.
use overwitch.Prelude.{allow, ℕ, ◌≡◌, Bool, true, false, not, ◌&&◌, ◌||◌, Option, none, some, arith}
use overwitch.Device.{DeviceDesc, inputs, outputs}
use overwitch.Jclient.Run.{
  output, input, Call, open_client, close_client, register_port, create_ring, free_ring,
  start_resampler, wait_resampler, activate, deactivate, Jack, register_ports, run_resampler,
  run_ports, priority_of, jclient_run,
}

abbrev pub is_none {ℓ} : {A : Type ℓ} → Option A → Bool
is_none none = true
is_none (some a) = false

-- What is taken and not yet given back.
pub record Held : Type 0 where
  pub client : Bool
  pub out_ring : Bool
  pub in_ring : Bool
  pub resampler : Bool
  pub active : Bool

abbrev pub nothing : Held
nothing = record {
  client = false;
  out_ring = false;
  in_ring = false;
  resampler = false;
  active = false;
}

-- A call; `none` where it takes what is held already, gives back what is not held, or uses or frees
-- what must not be used or freed then: ports and rings need the client, the resampler needs both
-- rings as long as it runs, and JACK calls a client that is active.
unfoldable pub hold : Held → Call → Option Held
hold h open_client = allow (not h.client) (record h { client = true })
hold h (register_port d i) = allow (h.client && not h.active) h
hold h (create_ring output n) = allow (h.client && not h.out_ring) (record h { out_ring = true })
hold h (create_ring input n) = allow (h.client && not h.in_ring) (record h { in_ring = true })
hold h (start_resampler p) =
    allow (h.out_ring && (h.in_ring && not h.resampler)) (record h { resampler = true })
hold h activate = allow (h.resampler && not h.active) (record h { active = true })
hold h wait_resampler = allow h.resampler (record h { resampler = false })
hold h deactivate = allow h.active (record h { active = false })
hold h (free_ring output n) =
    allow (h.out_ring && not (h.resampler || h.active)) (record h { out_ring = false })
hold h (free_ring input n) =
    allow (h.in_ring && not (h.resampler || h.active)) (record h { in_ring = false })
hold h close_client =
    allow (h.client && not (h.resampler || (h.active || (h.out_ring || h.in_ring))))
      (record h { client = false })

abbrev opened : Held
opened = record nothing { client = true }

-- Everything that the client asks for is done.
abbrev pub succeeds : Jack → DeviceDesc → ℕ → Bool
succeeds j desc priority =
    j.sets_buffer_size
    && (j.sets_sample_rate
        && ((register_ports j output (outputs desc) 0).0
            && ((register_ports j input (inputs desc) 0).0
                && (is_none (j.start (priority_of j priority)) && j.activates))))

run_ports-none :
    (j : Jack) (desc : DeviceDesc) (p m n : ℕ)
    → is_none (run_ports j desc p m n).0 ≡ (
        (register_ports j output (outputs desc) 0).0
        && ((register_ports j input (inputs desc) 0).0 && (is_none (j.start p) && j.activates)))
unfolding run_ports run_resampler
run_ports-none j desc p m n = ground arith

-- `jclient_run` returns `OW_OK` exactly if the client was opened, and either everything that it
-- asked for was done, or JACK refused one of the callbacks for a cycle, an xrun and the latencies.
jclient_run_ok :
    (j : Jack) (desc : DeviceDesc) (priority o2h_size h2o_size : ℕ)
    → is_none (jclient_run j desc priority o2h_size h2o_size).0 ≡ (
        j.opens
        && (not (j.sets_process && (j.sets_xrun && j.sets_latency)) || succeeds j desc priority))
unfolding jclient_run
jclient_run_ok j desc p m n = let r = run_ports-none j desc (priority_of j p) m n in ground arith
