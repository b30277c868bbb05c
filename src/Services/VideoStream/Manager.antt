-- ===== src/Services/VideoStream/Manager.antt =====
-- VideoManager and its workers.
use with_boost.Common.{
  ℕ, ℤ, pos, suc, Bool, true, false, ◌||◌, Option, none, some, List, [], ◌∷◌, ◌++◌, Text, text_eq,
  is_empty, map, if◌then◌else◌, ◌==◌,
}
use with_boost.Models.CameraModel.Entry.{SlotInfo}

pub record VideoWorker : Type 0 where
  pub serial : ℕ
  pub camera_id : Text
  pub connection_string : Text
  pub fps_limit : ℤ

-- The order of the maps plays no part; the newest entry of a slot is the first.
pub record VideoManager : Type 0 where
  pub workers : List VideoWorker
  pub slot_to_camera_id : List (ℕ × Text)
  pub next_serial : ℕ

pub data Effect : Type 0 where
  starts : Text → Text → ℤ → Effect
  stops : Text → Effect
  worker_registered : Text → Effect

unfoldable pub worker_of : Text → List VideoWorker → Option VideoWorker
worker_of id [] = none
worker_of id (w ∷ ws) = if text_eq w.camera_id id then some w else worker_of id ws

unfoldable pub get_worker : VideoManager → Text → Option VideoWorker
unfolding worker_of
get_worker m id = worker_of id m.workers

-- `slotToCameraId_.value`: the empty text where the slot is missing.
unfoldable pub camera_of_slot : ℕ → List (ℕ × Text) → Text
camera_of_slot slot [] = []
camera_of_slot slot (e ∷ es) = if e.0 == slot then e.1 else camera_of_slot slot es

unfoldable pub slot_camera_id : VideoManager → ℕ → Text
unfolding camera_of_slot
slot_camera_id m slot = camera_of_slot slot m.slot_to_camera_id

unfoldable pub get_worker_by_slot : VideoManager → ℕ → Option VideoWorker
unfolding get_worker slot_camera_id
get_worker_by_slot m slot = get_worker m (slot_camera_id m slot)

abbrev pub is_known : Option VideoWorker → Bool
is_known none = false
is_known (some w) = true

unfoldable pub start_stream : VideoWorker → List Effect
start_stream w =
    if is_empty w.connection_string
    then []
    else starts w.camera_id w.connection_string w.fps_limit ∷ []

abbrev pub fps_default : ℤ
fps_default = pos 30

-- The providers may be unset.
module _ (url_provider : Option (Text → Text)) (fps_provider : Option ℤ) where
  unfoldable pub configured : VideoWorker → VideoWorker
  configured w = record w {
    connection_string = elim url_provider [
      | none ↦ w.connection_string
      | some url ↦ url w.camera_id
    ];
    fps_limit = elim fps_provider [ none ↦ w.fps_limit | some fps ↦ fps ];
  }

  unfoldable pub add_worker : Text → VideoManager → VideoManager × List Effect
  unfolding configured start_stream
  add_worker id m =
      let w = configured (record {
        serial = m.next_serial;
        camera_id = id;
        connection_string = [];
        fps_limit = fps_default;
      }) in
      (
        record m { workers = m.workers ++ w ∷ []; next_serial = suc m.next_serial },
        start_stream w ++ worker_registered id ∷ [],
      )

  unfoldable pub register_camera_ids : List Text → VideoManager → VideoManager × List Effect
  unfolding get_worker add_worker
  register_camera_ids [] m = (m, [])
  register_camera_ids (id ∷ ids) m =
      let skip = is_empty id || is_known (get_worker m id) in
      let (m', out) = if skip then (m, []) else add_worker id m in
      let (m'', more) = register_camera_ids ids m' in (m'', out ++ more)

  abbrev pub slot_entries : List SlotInfo → List (ℕ × Text) → List (ℕ × Text)
  slot_entries [] es = es
  slot_entries (si ∷ sis) es = slot_entries sis ((si.slot_id, si.camera_id) ∷ es)

  unfoldable pub register_slots : List SlotInfo → VideoManager → VideoManager × List Effect
  unfolding register_camera_ids
  register_slots sis m =
      register_camera_ids (map (λ si. si.camera_id) sis)
        (record m { slot_to_camera_id = slot_entries sis [] })

  abbrev pub reconfigured : Text → List VideoWorker → List VideoWorker
  reconfigured id [] = []
  reconfigured id (w ∷ ws) =
      if text_eq w.camera_id id then configured w ∷ ws else w ∷ reconfigured id ws

  unfoldable pub restart_worker : Text → VideoManager → VideoManager × List Effect
  unfolding get_worker add_worker configured start_stream
  restart_worker id m = elim (get_worker m id) [
    | none ↦ if is_empty id then (m, []) else add_worker id m
    | some w ↦ (
      record m { workers = reconfigured id m.workers },
      stops id ∷ (start_stream (configured w) ++ worker_registered id ∷ []),
    )
  ]

unfoldable pub set_fps_limit : ℤ → VideoManager → VideoManager
set_fps_limit fps m = record m {
  workers = map {A = VideoWorker} (λ w. record w { fps_limit = fps }) m.workers;
}

unfoldable pub clear_all : VideoManager → VideoManager × List Effect
clear_all m =
    (record m { workers = []; slot_to_camera_id = [] }, map (λ w. stops w.camera_id) m.workers)
