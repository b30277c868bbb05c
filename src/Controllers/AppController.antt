-- ===== src/Controllers/AppController.antt =====
-- Qt/Back/Controllers/AppController.hpp and AppController.cpp: pages and camera windows. A window is a number, and a
-- `QPointer` whose window is deleted reads as null: `is_alive` tells.
use with_boost.Common.{
  ℕ, Bool, not, ◌||◌, List, [], ◌∷◌, ◌++◌, Text, codes, text_eq, ◌==◌, contains, if◌then◌else◌,
}

pub record AppController : Type 0 where
  pub current_page : Text
  pub camera_windows : List ℕ

pub data Signal : Type 0 where
  current_page_changed logout_requested option_dialog_requested : Signal
  navigate_to : Text → Signal
  window_closed : ℕ → Signal

unfoldable pub navigate : Text → AppController → AppController × List Signal
navigate page s =
    if text_eq s.current_page page
    then (s, [])
    else (record s { current_page = page }, current_page_changed ∷ navigate_to page ∷ [])

unfoldable pub open_option_dialog : AppController → AppController × List Signal
open_option_dialog s = (s, option_dialog_requested ∷ [])

module _ (is_alive : ℕ → Bool) where
  abbrev pub alive_ones : List ℕ → List ℕ
  alive_ones [] = []
  alive_ones (w ∷ ws) = if is_alive w then w ∷ alive_ones ws else alive_ones ws

  -- A window that is there already is not added again.
  unfoldable pub register_camera_window : ℕ → AppController → AppController
  register_camera_window win s =
      if contains win (alive_ones s.camera_windows)
      then s
      else record s { camera_windows = s.camera_windows ++ win ∷ [] }

  abbrev pub without : ℕ → List ℕ → List ℕ
  without win [] = []
  without win (w ∷ ws) =
      if (w == win) || not (is_alive w) then without win ws else w ∷ without win ws

  unfoldable pub unregister_camera_window : ℕ → AppController → AppController
  unregister_camera_window win s = record s { camera_windows = without win s.camera_windows }

  abbrev pub closed : List ℕ → List Signal
  closed [] = []
  closed (w ∷ ws) = window_closed w ∷ closed ws

  unfoldable pub close_all_camera_windows : AppController → AppController × List Signal
  close_all_camera_windows s =
      (record s { camera_windows = [] }, closed (alive_ones s.camera_windows))

  unfoldable pub logout : AppController → AppController × List Signal
  unfolding close_all_camera_windows navigate
  logout s =
      let (s', out) = close_all_camera_windows s in
      let (s'', more) = navigate (codes "Login") s' in (s'', out ++ (logout_requested ∷ more))

  unfoldable pub shutdown : AppController → AppController × List Signal
  unfolding close_all_camera_windows
  shutdown s = close_all_camera_windows s
