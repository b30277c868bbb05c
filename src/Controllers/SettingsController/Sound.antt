-- ===== src/Controllers/SettingsController/Sound.antt =====
-- What a load leaves, and what of a save it brings back.
use with_boost.Common.{
  zero, suc, ℤ, pos, negsuc, ◌≡◌, refl, Bool, true, false, ◌||◌, Option, none, some, List, [], ◌∷◌,
  Text, codes, text_eq, text_eq_refl, is_empty, if◌then◌else◌, ap, ◌∙◌,
}
use with_boost.Controllers.SettingsController.{
  SettingsController, StoredValue, truth, whole, words, QSettings, File, save, load, read_file,
  with_resolution, has_resolution, first_or, is_positive,
}

kept_positive :
    (o : Option ℤ) (n : ℤ)
    → is_positive n ≡ true
    → is_positive (elim o [ none ↦ n | some m ↦ if is_positive m then m else pos 30 ]) ≡ true
kept_positive none n h = h
kept_positive (some (pos zero)) n h = refl
kept_positive (some (pos (suc m))) n h = refl
kept_positive (some (negsuc m)) n h = refl

pick :
    (b : Bool) (r x : Text) (xs : List Text)
    → has_resolution r (x ∷ xs) ≡ b
    → has_resolution (if b then r else x) (x ∷ xs) ≡ true
unfolding has_resolution
pick true r x xs h = h
pick false r x xs h = rw (text_eq_refl x) refl

chosen :
    (r : Text) (rs : List Text)
    → (is_empty rs || has_resolution (if has_resolution r rs then r else first_or r rs) rs) ≡ true
chosen r [] = refl
chosen r (x ∷ xs) = pick (has_resolution r (x ∷ xs)) r x xs refl

module _ (q : QSettings) where
  open q use {State, value, to_bool, to_int, to_text}

  -- The number of frames is positive before a load: whatever is stored and whatever the file has, it is positive after it,
  -- and the default resolution is one of the resolutions, where there are any.
  pub load-IsSound :
      (st : State) (file : Option File) (s : SettingsController)
      → is_positive s.fps ≡ true
      → let s' = (load q st file s).0 in
        (is_positive s'.fps ≡ true)
        × ((is_empty s'.resolutions || has_resolution s'.default_resolution s'.resolutions) ≡ true)
  unfolding load read_file with_resolution
  load-IsSound st none s h = (h, chosen _ s.resolutions)
  load-IsSound st (some f) s h = (kept_positive f.fps s.fps h, chosen _ _)

  first_kept :
      (s : SettingsController) (st : State)
      → to_bool (value (codes "ui/darkMode") (truth false) (save q s st)) ≡ s.dark_mode
  unfolding save text_eq
  first_kept s st =
      ap to_bool
        (q.other_kept _ _ _ _ _ refl ∙ q.other_kept _ _ _ _ _ refl ∙ q.other_kept _ _ _ _ _ refl)
      ∙ q.truth_back _ _ s.dark_mode st

  second_kept :
      (s : SettingsController) (st : State)
      → to_bool (value (codes "ui/alarmSound") (truth true) (save q s st)) ≡ s.alarm_sound
  unfolding save text_eq
  second_kept s st =
      ap to_bool (q.other_kept _ _ _ _ _ refl ∙ q.other_kept _ _ _ _ _ refl)
      ∙ q.truth_back _ _ s.alarm_sound _

  third_kept :
      (s : SettingsController) (st : State)
      → to_int (value (codes "ui/defaultGrid") (whole (pos 4)) (save q s st)) ≡ s.default_grid
  unfolding save text_eq
  third_kept s st = ap to_int (q.other_kept _ _ _ _ _ refl) ∙ q.whole_back _ _ s.default_grid _

  resolution_unsaved :
      (s : SettingsController) (st : State) (or : StoredValue)
      → value (codes "ui/defaultResolution") or (save q s st)
        ≡ value (codes "ui/defaultResolution") or st
  unfolding save text_eq
  resolution_unsaved s st or =
      q.other_kept _ _ _ _ _ refl
      ∙ q.other_kept _ _ _ _ _ refl
      ∙ q.other_kept _ _ _ _ _ refl
      ∙ q.other_kept _ _ _ _ _ refl

  resolution_kept :
      (s : SettingsController) (st : State) (s' : SettingsController)
      → (with_resolution q (save q s st) s').default_resolution
        ≡ (with_resolution q st s').default_resolution
  unfolding with_resolution
  resolution_kept s st s' =
      ap
        (λ v.
          if has_resolution (to_text v) s'.resolutions
          then to_text v
          else first_or (to_text v) s'.resolutions)
        (resolution_unsaved s st (words (first_or (codes "192.168.0.58") s'.resolutions)))

  -- What a save sets under its keys a load reads back under those keys: the mode, the sound, the grid and the level are
  -- those that were saved, whatever was stored and whatever the file has; the default resolution is the
  -- one that the load would have given without the save, so a change of it is lost. `QSettings` gives
  -- back by its conversion what was set under a key, and keeps the values of other keys.
  pub load-save :
      (s start : SettingsController) (old : State) (file : Option File)
      → let s' = (load q (save q s old) file start).0 in
        (s'.dark_mode ≡ s.dark_mode)
        × (s'.alarm_sound ≡ s.alarm_sound)
        × (s'.default_grid ≡ s.default_grid)
        × (s'.log_level ≡ s.log_level)
        × (s'.default_resolution ≡ (load q old file start).0.default_resolution)
  unfolding load save read_file with_resolution
  load-save s start old none = (
    first_kept s old,
    second_kept s old,
    third_kept s old,
    q.words_back _ _ s.log_level _,
    resolution_kept s old start,
  )
  load-save s start old (some f) = (
    first_kept s old,
    second_kept s old,
    third_kept s old,
    q.words_back _ _ s.log_level _,
    resolution_kept s old (read_file f start).0,
  )
