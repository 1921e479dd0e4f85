-- ===== src/Engine/Start.antt =====
-- `ow_engine_start` of src/engine.c: the checks of the context and the start of the thread.
use overwitch.Prelude.{
  ℕ, ◌+◌, ◌≡◌, Bool, true, false, not, ◌&&◌, ◌||◌, List, [], ◌∷◌, ◌++◌, arith, if◌then◌else◌,
}
use overwitch.Engine.Status.{
  OwErr, OwResult, ok, err, generic_error, no_read_space, no_write_space, no_read, no_write,
  no_o2h_audio_buf, no_h2o_audio_buf, no_get_time,
}
use overwitch.Engine.State.{o2h_audio_option, h2o_audio_option, has_option}

-- `struct ow_context` as the caller fills it: which of its pointers are set, and its numbers.
pub record Context : Type 0 where
  pub write_space : Bool
  pub write : Bool
  pub read_space : Bool
  pub read : Bool
  pub get_time : Bool
  pub h2o_audio : Bool
  pub o2h_audio : Bool
  pub dll : Bool
  pub dll_overbridge_init : Bool
  pub dll_overbridge_update : Bool
  pub set_rt_priority : Bool
  pub priority : ℕ
  pub options : ℕ

abbrev pub default_rt_priority : ℕ
default_rt_priority = 20

infixl 5 ◌>>=◌ ◌>>◌
abbrev ◌>>=◌ : {A B : Type 0} → OwResult A → (A → OwResult B) → OwResult B
ok a >>= f = f a
err e >>= f = err e

abbrev ◌>>◌ : {B : Type 0} → OwResult (Unit {0}) → OwResult B → OwResult B
m >> k = m >>= λ _. k

-- `if (!pointer) return error;`
abbrev require : Bool → OwErr → OwResult (Unit {0})
require true e = ok tt
require false e = err e

-- The function that sets the priority of the thread, if the caller brings none.
abbrev with_rt_priority : Context → Context
with_rt_priority c =
    if c.set_rt_priority
    then c
    else record c { set_rt_priority = true; priority = default_rt_priority }

check_o2h : Context → OwResult Context
check_o2h c = do
  require c.read_space no_read_space
  require c.write_space no_write_space
  require c.write no_write
  require c.o2h_audio no_o2h_audio_buf
  ok (with_rt_priority c)

check_h2o : Context → OwResult Context
check_h2o c = do
  require c.read_space no_read_space
  require c.read no_read
  require c.h2o_audio no_h2o_audio_buf
  ok (with_rt_priority c)

-- The checks in their order; the context comes back with its priority set.
unfoldable pub check_context : Context → OwResult Context
unfolding check_o2h check_h2o
check_context c = do
  c' ← if has_option c.options o2h_audio_option then check_o2h c else ok c
  c'' ← if has_option c'.options h2o_audio_option then check_h2o c' else ok c'
  require (not c''.dll || c''.get_time) no_get_time
  ok c''

-- `ow_engine_start`: the priority of the new thread if it is set, or the error. Whether
-- `pthread_create` succeeds is an argument.
unfoldable pub start : Bool → Context → OwResult (Context × ℕ)
start created c = do c' ← check_context c; require created generic_error; ok (c', c'.priority + 1)

-- The pointers of a context.
pub data Pointer : Type 0 where
  write_space_fn write_fn read_space_fn read_fn get_time_fn h2o_ring o2h_ring : Pointer
  dll_init_fn dll_update_fn : Pointer

abbrev pub is_set : Context → Pointer → Bool
is_set c write_space_fn = c.write_space
is_set c write_fn = c.write
is_set c read_space_fn = c.read_space
is_set c read_fn = c.read
is_set c get_time_fn = c.get_time
is_set c h2o_ring = c.h2o_audio
is_set c o2h_ring = c.o2h_audio
is_set c dll_init_fn = c.dll_overbridge_init
is_set c dll_update_fn = c.dll_overbridge_update

-- What `run_audio` calls before its first transfer.
unfoldable pub thread_uses : Context → List Pointer
thread_uses c = if c.dll then dll_init_fn ∷ [] else []

-- What `cb_xfr_audio_in` uses, through `set_usb_input_data_blks`.
unfoldable pub input_uses : Context → List Pointer
input_uses c =
    if has_option c.options o2h_audio_option
    then (if c.dll then dll_update_fn ∷ get_time_fn ∷ [] else [])
      ++ write_space_fn ∷ o2h_ring ∷ write_fn ∷ read_space_fn ∷ []
    else []

-- What `cb_xfr_audio_out` uses, through `set_usb_output_data_blks`.
unfoldable pub output_uses : Context → List Pointer
output_uses c =
    if has_option c.options h2o_audio_option then read_space_fn ∷ h2o_ring ∷ read_fn ∷ [] else []

abbrev pub all_set : Context → List Pointer → Bool
all_set c [] = true
all_set c (p ∷ ps) = is_set c p && all_set c ps

abbrev pub is_ok : {A : Type 0} → OwResult A → Bool
is_ok (ok a) = true
is_ok (err x) = false

abbrev pub asks_audio : Context → Bool
asks_audio c = has_option c.options o2h_audio_option || has_option c.options h2o_audio_option

-- If a context either has no DLL, or has one with its two functions and audio from the device, then
-- the checks of `ow_engine_start` accept it exactly if every pointer is set that the start of the
-- thread and the two callbacks of the transfers use with its options.
pub check_context-uses :
    (c : Context)
    → (not c.dll
        || (has_option c.options o2h_audio_option
            && (c.dll_overbridge_init && c.dll_overbridge_update)))
      ≡ true
    → is_ok (check_context c) ≡ all_set c (thread_uses c ++ (input_uses c ++ output_uses c))
unfolding check_context thread_uses input_uses output_uses
check_context-uses c h = ground arith

-- With audio from the device only, nothing more is looked at than this, with a DLL too; but where
-- `run_audio` clears the ring to the device it uses `read` and `h2o_audio`, and
-- `ow_resampler_clear_buffers` uses `read`.
input_accepted :
    (c : Context)
    → has_option c.options o2h_audio_option ≡ true
    → has_option c.options h2o_audio_option ≡ false
    → all_set c (get_time_fn ∷ write_space_fn ∷ o2h_ring ∷ write_fn ∷ read_space_fn ∷ []) ≡ true
    → is_ok (check_context c) ≡ true
unfolding check_context
input_accepted c o h s = ground arith

-- A start that is accepted, with audio in one of the directions, has created its thread and has a
-- function for its priority; the thread gets the priority of the context plus one, or the default
-- plus one where the context had no such function.
start_priority :
    (created : Bool) (c c' : Context) (p : ℕ)
    → start created c ≡ ok (c', p)
    → asks_audio c ≡ true
    → (created ≡ true)
      × (c'.set_rt_priority ≡ true)
      × (p ≡ (if c.set_rt_priority then c.priority else default_rt_priority) + 1)
unfolding start check_context
start_priority created c c' p h a = ground arith
