-- ===== src/Controllers/SettingsController/Examples.antt =====
-- A change of all settings, saved and loaded again, in settings that are a list of entries, the newest first.
use with_boost.Common.{
  ◌≡◌, refl, ℤ, pos, Bool, false, Option, none, some, List, [], ◌∷◌, ap, Text, codes, text_eq,
  text_eq_refl, if◌then◌else◌,
}
use with_boost.Controllers.SettingsController.{
  SettingsController, initial, StoredValue, truth, whole, words, QSettings, File, save, load,
}
use with_boost.Controllers.SettingsController.Sound.{load-save}

abbrev find : Text → StoredValue → List (Text × StoredValue) → StoredValue
find key or [] = or
find key or (e ∷ st) = let rest = find key or st in if text_eq key e.0 then e.1 else rest

abbrev bool_of : StoredValue → Bool
bool_of (truth b) = b
bool_of (whole n) = false
bool_of (words t) = false

abbrev int_of : StoredValue → ℤ
int_of (truth b) = pos 0
int_of (whole n) = n
int_of (words t) = pos 0

abbrev text_of : StoredValue → Text
text_of (truth b) = []
text_of (whole n) = []
text_of (words t) = t

find_set :
    (key : Text) (or v : StoredValue) (st : List (Text × StoredValue))
    → find key or ((key, v) ∷ st) ≡ v
find_set key or v st = rw (text_eq_refl key) refl

find_other :
    (key key' : Text) (or v : StoredValue) (st : List (Text × StoredValue))
    → text_eq key key' ≡ false
    → find key or ((key', v) ∷ st) ≡ find key or st
find_other key key' or v st h = rw h refl

abbrev entries : QSettings
entries = record {
  State = List (Text × StoredValue);
  set_value = λ key v st. (key, v) ∷ st;
  value = find;
  to_bool = bool_of;
  to_int = int_of;
  to_text = text_of;
  truth_back = λ key or b st. ap bool_of (find_set key or (truth b) st);
  whole_back = λ key or n st. ap int_of (find_set key or (whole n) st);
  words_back = λ key or t st. ap text_of (find_set key or (words t) st);
  other_kept = find_other;
}

abbrev changed : SettingsController
changed = record initial {
  dark_mode = false;
  default_grid = pos 9;
  log_level = codes "DEBUG";
  default_resolution = codes "1280x720";
}

-- A grid of two, from an earlier run.
abbrev stored : List (Text × StoredValue)
stored = (codes "ui/defaultGrid", whole (pos 2)) ∷ []

abbrev file : Option File
file = some (record {
  server_ip = none;
  fps = some (pos 30);
  resolutions = some (codes "1600x900" ∷ codes "1280x720" ∷ []);
})

-- Where nothing is stored the defaults of `load` hold, not those of a new controller.
default_mode :
    let s' = (load entries stored file initial).0 in
    (s'.dark_mode ≡ false) × (s'.default_grid ≡ pos 2) × (s'.log_level ≡ codes "INFO")
unfolding load text_eq
default_mode = (refl, refl, refl)

load-save_example :
    let s' = (load entries (save entries changed stored) file initial).0 in
    (s'.dark_mode ≡ changed.dark_mode)
    × (s'.alarm_sound ≡ changed.alarm_sound)
    × (s'.default_grid ≡ changed.default_grid)
    × (s'.log_level ≡ changed.log_level)
    × (s'.default_resolution ≡ (load entries stored file initial).0.default_resolution)
load-save_example = load-save entries changed initial stored file
