-- ===== src/Models/AiImageModel/Examples.antt =====
-- Images of two cameras.
use with_boost.Common.{◌≡◌, ◌≤◌, ◌-◌, pos, List, [], ◌∷◌, Text, codes, length, drop}
use with_boost.Models.AiImageModel.{AiImageEvent, get_events_for_camera, max_events_per_camera}
use with_boost.Models.AiImageModel.Latest.{on_images, of_camera, on_images-last}

abbrev image : Text → AiImageEvent
image camera_id = record {
  camera_id = camera_id;
  device_name = [];
  track_id = pos 1;
  frame_index = pos 0;
  total_frames = pos 2;
  timestamp = pos 5;
  base64_image = [];
}

abbrev images : List AiImageEvent
images = image (codes "10.0.0.5/1") ∷ image (codes "10.0.0.6/1") ∷ image (codes "10.0.0.5/1") ∷ []

on_images-last_example :
    let all = of_camera (codes "10.0.0.5/1") images in
    (get_events_for_camera (on_images [] images) (codes "10.0.0.5/1")
      ≡ drop (length all - max_events_per_camera) all)
    × (length (get_events_for_camera (on_images [] images) (codes "10.0.0.5/1"))
        ≤ max_events_per_camera)
on_images-last_example = on_images-last (codes "10.0.0.5/1") images
