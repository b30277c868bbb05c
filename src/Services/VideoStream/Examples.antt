-- ===== src/Services/VideoStream/Examples.antt =====
-- A stream that is set before the worker of its camera is registered.
use with_boost.Common.{◌≡◌, refl, pos, some, [], ◌∷◌, codes}
use with_boost.Services.VideoStream.{
  VideoManager, fresh_stream, serial_of, get_worker, set_camera_id,
}
use with_boost.Services.VideoStream.Attach.{deliver, deliver-set_camera_id}

abbrev no_workers : VideoManager
no_workers = record { workers = []; slot_to_camera_id = []; next_serial = 0 }

abbrev one_worker : VideoManager
one_worker = record {
  workers =
      record {
        serial = 0;
        camera_id = codes "10.0.0.5/1";
        connection_string = codes "rtsp://10.0.0.5/1";
        fps_limit = pos 30;
      }
      ∷ [];
  slot_to_camera_id = [];
  next_serial = 1;
}

deliver-set_camera_id_example :
    deliver
      ((one_worker, codes "10.0.0.5/1") ∷ [])
      (set_camera_id (some no_workers) (codes "10.0.0.5/1") fresh_stream)
    ≡ record fresh_stream {
      camera_id = codes "10.0.0.5/1";
      worker = serial_of (get_worker no_workers (codes "10.0.0.5/1"));
    }
deliver-set_camera_id_example =
    deliver-set_camera_id no_workers (codes "10.0.0.5/1") ((one_worker, codes "10.0.0.5/1") ∷ [])
      refl
