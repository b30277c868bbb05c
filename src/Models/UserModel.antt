-- ===== src/Models/UserModel.antt =====
-- Qt/Back/Models/UserModel.hpp and UserModel.cpp, and the data of Src/Domain/User.hpp.
use with_boost.Common.{
  ℕ, ℤ, pos, suc, Bool, false, not, Option, none, some, List, [], ◌∷◌, Text, codes, text_eq,
  get_elem?, map, if◌then◌else◌,
}
use with_boost.Services.NetworkBridge.{QJson}

pub data UserRole : Type 0 where
  user admin pending : UserRole

pub record UserData : Type 0 where
  pub user_id : Text
  pub username : Text
  pub email : Text
  pub role : UserRole
  pub is_online : Bool
  pub last_login : ℤ
  pub ip_address : Text
  pub active_cameras : ℤ

-- `T` stands for `QDateTime`.
pub record UserEntry (T : Type 0) : Type 0 where
  pub user_id : Text
  pub username : Text
  pub email : Text
  pub role : Text
  pub is_online : Bool
  pub last_login : T
  pub ip_address : Text
  pub active_cameras : ℤ

-- `byId_` has the newest entry of a key first.
pub record UserModel (T : Type 0) : Type 0 where
  pub users : List (UserEntry T)
  pub by_id : List (Text × ℕ)

pub data Signal : Type 0 where
  model_reset count_changed : Signal

unfoldable pub find_index_by_user_id : List (Text × ℕ) → Text → Option ℕ
find_index_by_user_id [] id = none
find_index_by_user_id (e ∷ es) id = if text_eq e.0 id then some e.1 else find_index_by_user_id es id

module _ {T : Type 0} where
  unfoldable pub index_users : ℕ → List (UserEntry T) → List (Text × ℕ) → List (Text × ℕ)
  index_users i [] by_id = by_id
  index_users i (u ∷ us) by_id = index_users (suc i) us ((u.user_id, i) ∷ by_id)

  -- Both updates replace all users.
  unfoldable pub replaced : List (UserEntry T) → UserModel T × List Signal
  unfolding index_users
  replaced users =
      (record { users = users; by_id = index_users 0 users [] }, model_reset ∷ count_changed ∷ [])

  unfoldable pub clear_all : UserModel T → UserModel T × List Signal
  clear_all m = (record { users = []; by_id = [] }, model_reset ∷ count_changed ∷ [])

  abbrev pub user_at : List (UserEntry T) → Option ℕ → Option (UserEntry T)
  user_at users none = none
  user_at users (some i) = get_elem? users i

  unfoldable pub user_by_id : UserModel T → Text → Option (UserEntry T)
  unfolding find_index_by_user_id
  user_by_id m id = user_at m.users (find_index_by_user_id m.by_id id)

  unfoldable pub get_username_by_id : UserModel T → Text → Text
  unfolding user_by_id
  get_username_by_id m id = elim (user_by_id m id) [ none ↦ [] | some u ↦ u.username ]

  unfoldable pub is_user_admin : UserModel T → Text → Bool
  unfolding user_by_id
  is_user_admin m id = elim (user_by_id m id) [
    | none ↦ false
    | some u ↦ text_eq u.role (codes "admin")
  ]

  -- `from_std` is `QString::fromStdString`, `from_time` is `QDateTime::fromSecsSinceEpoch` of `to_time_t`.
  module _ (from_std : Text → Text) (from_time : ℤ → T) where
    abbrev pub role_text : UserRole → Text
    role_text admin = codes "admin"
    role_text user = codes "user"
    role_text pending = codes "user"

    unfoldable pub user_entry : UserData → UserEntry T
    user_entry data' = record {
      user_id = from_std data'.user_id;
      username = from_std data'.username;
      email = from_std data'.email;
      role = role_text data'.role;
      is_online = data'.is_online;
      last_login = from_time data'.last_login;
      ip_address = from_std data'.ip_address;
      active_cameras = data'.active_cameras;
    }

    unfoldable pub on_store_updated : List UserData → UserModel T → UserModel T × List Signal
    unfolding user_entry replaced
    on_store_updated snapshot m = replaced (map user_entry snapshot)

  -- `to_array` and `to_object` are those of QJsonValue; the two readers of times are `QDateTime::fromString` with each
  -- of the formats.
  module _ (j : QJson) (to_array : j.Value → Text → List j.Value) (to_object : j.Value → j.Value)
      (from_iso from_spaced : Text → T) (is_valid : T → Bool) where
    open j use {Value, from_json, is_object, to_bool, to_string}

    -- The name of a user that waits is its ID.
    unfoldable pub pending_entry : Value → UserEntry T
    pending_entry v =
        let u = to_object v in
        let created = to_string u (codes "created") in
        record {
          user_id = to_string u (codes "username");
          username = to_string u (codes "username");
          email = to_string u (codes "email");
          role = codes "pending";
          is_online = false;
          last_login =
              if is_valid (from_iso created) then from_iso created else from_spaced created;
          ip_address = [];
          active_cameras = pos 0;
        }

    unfoldable pub on_pending_list_received : Text → UserModel T → UserModel T × List Signal
    unfolding pending_entry replaced
    on_pending_list_received json m =
        let obj = from_json json in
        if not (is_object obj)
        then (m, [])
        else if not (to_bool obj (codes "success"))
        then (m, [])
        else replaced (map pending_entry (to_array obj (codes "users")))
