-- ===== src/Services/VideoStream/Stream.antt =====
-- VideoStream, which looks for its worker in the global manager.
use with_boost.Common.{
  ℕ, Bool, true, false, not, ◌&&◌, Option, none, some, List, [], ◌∷◌, Text, text_eq, is_empty,
  if◌then◌else◌, ◌==◌, ltb,
}
use with_boost.Services.VideoStream.Manager.{
  VideoWorker, VideoManager, get_worker, get_worker_by_slot, slot_camera_id,
}

-- `slot_id` is `none` for a negative number; `worker` is the serial number of the worker, of which the `QPointer` is null
-- once it is deleted.
pub record VideoStream : Type 0 where
  pub slot_id : Option ℕ
  pub camera_id : Text
  pub worker : Option ℕ
  pub last_seq : ℕ
  pub is_listening : Bool

abbrev pub fresh_stream : VideoStream
fresh_stream = record {
  slot_id = none;
  camera_id = [];
  worker = none;
  last_seq = 0;
  is_listening = false;
}

unfoldable pub has_serial : ℕ → List VideoWorker → Bool
has_serial n [] = false
has_serial n (w ∷ ws) = if w.serial == n then true else has_serial n ws

-- What the `QPointer` reads.
unfoldable pub current : VideoManager → VideoStream → Option ℕ
unfolding has_serial
current m st = elim st.worker [
  | none ↦ none
  | some n ↦ if has_serial n m.workers then some n else none
]

abbrev pub serial_of : Option VideoWorker → Option ℕ
serial_of none = none
serial_of (some w) = some w.serial

abbrev pub by_camera : VideoManager → Text → Option ℕ
by_camera m id = if is_empty id then none else serial_of (get_worker m id)

unfoldable pub wanted : VideoManager → VideoStream → Option ℕ
unfolding get_worker get_worker_by_slot
wanted m st = elim st.slot_id [
  | none ↦ by_camera m st.camera_id
  | some slot ↦ elim (get_worker_by_slot m slot) [
    | none ↦ by_camera m st.camera_id
    | some w ↦ some w.serial
  ]
]

abbrev pub same_worker : Option ℕ → Option ℕ → Bool
same_worker none none = true
same_worker none (some b) = false
same_worker (some a) none = false
same_worker (some a) (some b) = a == b

abbrev pub is_missing : Option ℕ → Bool
is_missing none = true
is_missing (some n) = false

-- `none` for the manager stands for a null pointer.
unfoldable pub try_attach : Option VideoManager → VideoStream → VideoStream
unfolding wanted current
try_attach none st = st
try_attach (some m) st =
    let new = wanted m st in
    if same_worker new (current m st) then st else record st {
      worker = new;
      last_seq = 0;
      is_listening = if is_missing new then true else st.is_listening;
    }

abbrev pub same_slot : Option ℕ → Option ℕ → Bool
same_slot = same_worker

unfoldable pub set_slot_id : Option VideoManager → Option ℕ → VideoStream → VideoStream
unfolding try_attach
set_slot_id m slot st =
    if same_slot st.slot_id slot then st else try_attach m (record st { slot_id = slot })

unfoldable pub set_camera_id : Option VideoManager → Text → VideoStream → VideoStream
unfolding try_attach
set_camera_id m id st =
    if text_eq st.camera_id id then st else try_attach m (record st { camera_id = id })

unfoldable pub is_target : VideoManager → Text → VideoStream → Bool
unfolding slot_camera_id
is_target m id st = elim st.slot_id [
  | none ↦ text_eq st.camera_id id
  | some slot ↦ text_eq (slot_camera_id m slot) id
]

-- `workerRegistered` reaches a stream that listens for it.
unfoldable pub on_worker_registered : VideoManager → Text → VideoStream → VideoStream
unfolding is_target try_attach
on_worker_registered m id st =
    if st.is_listening && is_target m id st
    then try_attach (some m) (record st { is_listening = false })
    else st

-- The timer: the stream, and whether the last frame goes to the sink. `seq` and `is_valid` are of the worker.
unfoldable pub timer_event : VideoManager → Bool → ℕ → Bool → VideoStream → VideoStream × Bool
unfolding current
timer_event m has_sink seq is_valid st =
    let ready = not (is_missing (current m st)) && (has_sink && ltb st.last_seq seq) in
    if ready then (record st { last_seq = seq }, is_valid) else (st, false)
