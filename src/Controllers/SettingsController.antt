-- ===== src/Controllers/SettingsController.antt =====
-- Qt/Back/Controllers/SettingsController.hpp and SettingsController.cpp. `QSettings` and what `load` finds in
-- Settings.json are arguments.
pub mod Sound
mod Examples
use with_boost.Common.{
  ◌≡◌, ℕ, zero, suc, ℤ, pos, negsuc, int_eq, Bool, true, false, not, ◌&&◌, ◌||◌, Option, none, some,
  List, [], ◌∷◌, ◌++◌, Text, codes, text_eq, is_empty, if◌then◌else◌,
}

pub record SettingsController : Type 0 where
  pub dark_mode : Bool
  pub alarm_sound : Bool
  pub default_grid : ℤ
  pub log_level : Text
  pub resolutions : List Text
  pub default_resolution : Text
  pub server_ip : Text
  pub fps : ℤ

pub data Signal : Type 0 where
  dark_mode_changed alarm_sound_changed default_grid_changed log_level_changed : Signal
  default_resolution_changed server_ip_changed fps_changed : Signal

abbrev pub initial : SettingsController
initial = record {
  dark_mode = true;
  alarm_sound = true;
  default_grid = pos 4;
  log_level = codes "INFO";
  resolutions = [];
  default_resolution = [];
  server_ip = codes "192.168.0.58";
  fps = pos 30;
}

abbrev same_bool : Bool → Bool → Bool
same_bool true b = b
same_bool false b = not b

unfoldable pub set_dark_mode : Bool → SettingsController → SettingsController × List Signal
set_dark_mode v s =
    if same_bool s.dark_mode v
    then (s, [])
    else (record s { dark_mode = v }, dark_mode_changed ∷ [])

unfoldable pub set_alarm_sound : Bool → SettingsController → SettingsController × List Signal
set_alarm_sound v s =
    if same_bool s.alarm_sound v
    then (s, [])
    else (record s { alarm_sound = v }, alarm_sound_changed ∷ [])

unfoldable pub set_default_grid : ℤ → SettingsController → SettingsController × List Signal
set_default_grid v s =
    if int_eq s.default_grid v
    then (s, [])
    else (record s { default_grid = v }, default_grid_changed ∷ [])

unfoldable pub set_log_level : Text → SettingsController → SettingsController × List Signal
set_log_level v s =
    if text_eq s.log_level v then (s, []) else (record s { log_level = v }, log_level_changed ∷ [])

unfoldable pub set_default_resolution : Text → SettingsController → SettingsController × List Signal
set_default_resolution v s =
    if text_eq s.default_resolution v
    then (s, [])
    else (record s { default_resolution = v }, default_resolution_changed ∷ [])

-- What a `QVariant` is made of here.
pub data StoredValue : Type 0 where
  truth : Bool → StoredValue
  whole : ℤ → StoredValue
  words : Text → StoredValue

-- `QSettings`, whose state is all that it holds, and the conversions of what it gives back: a value that was set is read
-- back by its conversion, whatever form it was kept in, and leaves the values of other keys.
pub record QSettings : Type 1 where
  pub State : Type 0
  pub set_value : Text → StoredValue → State → State
  pub value : Text → StoredValue → State → StoredValue
  pub to_bool : StoredValue → Bool
  pub to_int : StoredValue → ℤ
  pub to_text : StoredValue → Text
  pub truth_back :
      (key : Text) (or : StoredValue) (b : Bool) (st : State)
      → to_bool (value key or (set_value key (truth b) st)) ≡ b
  pub whole_back :
      (key : Text) (or : StoredValue) (n : ℤ) (st : State)
      → to_int (value key or (set_value key (whole n) st)) ≡ n
  pub words_back :
      (key : Text) (or : StoredValue) (t : Text) (st : State)
      → to_text (value key or (set_value key (words t) st)) ≡ t
  pub other_kept :
      (key key' : Text) (or v : StoredValue) (st : State)
      → text_eq key key' ≡ false
      → value key or (set_value key' v st) ≡ value key or st

-- The members of Settings.json that are there, the number of frames as `toString().toInt()` reads it.
pub record File : Type 0 where
  pub server_ip : Option Text
  pub fps : Option ℤ
  pub resolutions : Option (List Text)

abbrev pub is_positive : ℤ → Bool
is_positive (pos zero) = false
is_positive (pos (suc n)) = true
is_positive (negsuc n) = false

unfoldable pub read_file : File → SettingsController → SettingsController × List Signal
read_file f s = (
  record s {
    server_ip = elim f.server_ip [ none ↦ s.server_ip | some ip ↦ ip ];
    fps = elim f.fps [ none ↦ s.fps | some n ↦ if is_positive n then n else pos 30 ];
    resolutions = elim f.resolutions [ none ↦ s.resolutions | some rs ↦ rs ];
  },
  elim f.server_ip as (λ o. List Signal) [ none ↦ [] | some ip ↦ server_ip_changed ∷ [] ]
      ++ elim f.fps as (λ o. List Signal) [ none ↦ [] | some n ↦ fps_changed ∷ [] ],
)

unfoldable pub has_resolution : Text → List Text → Bool
has_resolution r [] = false
has_resolution r (x ∷ xs) = text_eq x r || has_resolution r xs

abbrev pub first_or : Text → List Text → Text
first_or r [] = r
first_or r (x ∷ xs) = x

module _ (q : QSettings) where
  open q use {State, set_value, value, to_bool, to_int, to_text}

  unfoldable pub save : SettingsController → State → State
  save s st = set_value (codes "ui/logLevel") (words s.log_level) (
      set_value (codes "ui/defaultGrid") (whole s.default_grid) (
        set_value (codes "ui/alarmSound") (truth s.alarm_sound)
          (set_value (codes "ui/darkMode") (truth s.dark_mode) st)))

  unfoldable pub with_resolution : State → SettingsController → SettingsController
  unfolding has_resolution
  with_resolution st s =
      let or = words (first_or (codes "192.168.0.58") s.resolutions) in
      let r = to_text (value (codes "ui/defaultResolution") or st) in
      record s {
        default_resolution = if has_resolution r s.resolutions then r else first_or r s.resolutions;
      }

  -- `none` for a file that cannot be opened or is no object.
  unfoldable pub load : State → Option File → SettingsController → SettingsController × List Signal
  unfolding read_file with_resolution
  load st file s =
      let basic = record s {
        dark_mode = to_bool (value (codes "ui/darkMode") (truth false) st);
        alarm_sound = to_bool (value (codes "ui/alarmSound") (truth true) st);
        default_grid = to_int (value (codes "ui/defaultGrid") (whole (pos 4)) st);
        log_level = to_text (value (codes "ui/logLevel") (words (codes "INFO")) st);
      } in
      let read : SettingsController × List Signal = elim file [
        | none ↦ (basic, [])
        | some f ↦ read_file f basic
      ] in
      (with_resolution st read.0, read.1)
