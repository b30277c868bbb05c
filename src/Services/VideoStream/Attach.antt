-- ===== src/Services/VideoStream/Attach.antt =====
-- When a stream finds its worker.
use with_boost.Common.{
  ◌≡◌, refl, ap, ◌∙◌, Bool, ◌&&◌, if◌then◌else◌, true, false, some, Option-cases, inl, inr, List,
  [], ◌∷◌, Text, is_empty, text_eq,
}
use with_boost.Services.VideoStream.{
  VideoManager, VideoStream, fresh_stream, get_worker, serial_of, current, wanted, try_attach,
  set_camera_id, on_worker_registered, is_target,
}

-- The signals of the manager that reach a stream, each with the manager as it is then.
pub deliver : List (VideoManager × Text) → VideoStream → VideoStream
deliver [] st = st
deliver (e ∷ es) st = deliver es (on_worker_registered e.0 e.1 st)

skipped : (b t : Bool) (x y : VideoStream) → b ≡ false → (if b && t then x else y) ≡ y
skipped true t x y h = cc
skipped false t x y h = refl

deaf :
    (m : VideoManager) (id : Text) (st : VideoStream)
    → st.is_listening ≡ false
    → on_worker_registered m id st ≡ st
unfolding on_worker_registered
deaf m id st h = skipped st.is_listening (is_target m id st) _ st h

deliver-deaf :
    (signals : List (VideoManager × Text)) (st : VideoStream)
    → st.is_listening ≡ false
    → deliver signals st ≡ st
unfolding deliver
deliver-deaf [] st h = refl
deliver-deaf (e ∷ es) st h = ap (deliver es) (deaf e.0 e.1 st h) ∙ deliver-deaf es st h

attached :
    (m : VideoManager) (id : Text)
    → is_empty id ≡ false
    → set_camera_id (some m) id fresh_stream
      ≡ record fresh_stream { camera_id = id; worker = serial_of (get_worker m id) }
unfolding set_camera_id try_attach wanted current text_eq
attached m [] h = cc
attached m (b ∷ t) h = elim (Option-cases (get_worker m (b ∷ t))) [
  | inl e ↦ rw (set_camera_id, wanted, e) refl
  | inr (w, e) ↦ rw (set_camera_id, wanted, e) refl
]

-- A new stream is given a camera: its worker is the one that the camera has at this time. Where the camera has none yet,
-- the stream stays without one, whatever workers are registered later: it does not listen.
pub deliver-set_camera_id :
    (m : VideoManager) (id : Text) (signals : List (VideoManager × Text))
    → is_empty id ≡ false
    → deliver signals (set_camera_id (some m) id fresh_stream)
      ≡ record fresh_stream { camera_id = id; worker = serial_of (get_worker m id) }
deliver-set_camera_id m id signals h =
    ap (deliver signals) (attached m id h) ∙ deliver-deaf signals _ refl
