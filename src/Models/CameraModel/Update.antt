-- ===== src/Models/CameraModel/Update.antt =====
-- The snapshot by camera id, and the refresh of the rows that are there.
use mathlib.Core.Bool.{xor}
use with_boost.Common.{
  ℕ, suc, false, ◌&&◌, not, Option, none, some, List, [], ◌∷◌, ◌++◌, Text, text_eq, is_empty, ◌==◌,
  if◌then◌else◌,
}
use with_boost.Domain.Camera.{CameraData}
use with_boost.Models.CameraModel.Entry.{
  CameraEntry, Signal, data_changed, camera_online, Role, title_role, is_online_role,
  camera_type_role,
}

changed_signal : ℕ → List Role → List Signal
changed_signal i [] = []
changed_signal i (r ∷ rs) = data_changed i (r ∷ rs) ∷ []

module _ {R : Type 0} where
  -- `QHash::find` and `QHash::insert`.
  unfoldable pub find : Text → List (Text × CameraData R) → Option (CameraData R)
  find k [] = none
  find k ((j, v) ∷ table) = if text_eq j k then some v else find k table

  unfoldable pub insert :
      Text → CameraData R → List (Text × CameraData R) → List (Text × CameraData R)
  insert k v [] = (k, v) ∷ []
  insert k v ((j, w) ∷ table) = if text_eq j k then (k, v) ∷ table else (j, w) ∷ insert k v table

  -- The snapshot by camera id: the last of two equal ids stays, an empty id is skipped.
  unfoldable pub snapshot_by_cid :
      (Text → Text) → List (CameraData R) → List (Text × CameraData R) → List (Text × CameraData R)
  unfolding insert
  snapshot_by_cid from_std [] table = table
  snapshot_by_cid from_std (cam ∷ cams) table =
      snapshot_by_cid from_std cams
        (let cid = from_std cam.camera_id in if is_empty cid then table else insert cid cam table)

  -- The entry after a snapshot that has its camera.
  unfoldable pub refreshed : (Text → Text) → CameraData R → CameraEntry R → CameraEntry R
  refreshed from_std snap entry = record entry {
    is_online = snap.is_online;
    camera_type = from_std snap.camera_type;
    title = if entry.split_count == 1 then from_std snap.title else entry.title;
  }

  unfoldable pub refresh :
      (Text → Text) → List (Text × CameraData R) → CameraEntry R → CameraEntry R
  unfolding find refreshed
  refresh from_std by_cid entry = elim (find entry.camera_id by_cid) [
    | none ↦ record entry { is_online = false }
    | some snap ↦ refreshed from_std snap entry
  ]

  -- The roles in which the refresh changed the entry, in the order of the code.
  changed_roles : CameraEntry R → CameraEntry R → List Role
  changed_roles before after =
      (if xor before.is_online after.is_online then is_online_role ∷ [] else [])
      ++ ((if text_eq before.camera_type after.camera_type then [] else camera_type_role ∷ [])
          ++ (if text_eq before.title after.title then [] else title_role ∷ []))

  unfoldable pub refresh_signals :
      (Text → Text) → List (Text × CameraData R) → ℕ → List (CameraEntry R) → List Signal
  unfolding refresh changed_roles changed_signal
  refresh_signals from_std by_cid i [] = []
  refresh_signals from_std by_cid i (e ∷ es) =
      let e' = refresh from_std by_cid e in
      (if not e.is_online && e'.is_online then camera_online e.camera_id ∷ [] else [])
      ++ (changed_signal i (changed_roles e e') ++ refresh_signals from_std by_cid (suc i) es)
