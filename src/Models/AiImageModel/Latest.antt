-- ===== src/Models/AiImageModel/Latest.antt =====
-- Which events each camera has.
use mathlib.Core.List.{append_assoc, append-nil}
use with_boost.Common.{
  ◌≡◌, ◌≤◌, ◌-◌, refl, sym, ap, ◌∙◌, true, false, Bool-cases, inl, inr, List, [], ◌∷◌, ◌++◌, Text,
  text_eq, text_eq→eq, subst, if◌then◌else◌, IsSorted, change_at-IsSorted, lookup, lookup-change_at,
  length, drop, arith, ◌⊎◌,
}
use with_boost.Domain.Device.{trim}
use with_boost.Domain.Device.History.{length-trim, trim-drop, trim-short, trim-append}
use with_boost.Models.AiImageModel.{
  AiImageEvent, Events, append_event, on_image_received_base64, get_events_for_camera,
  max_events_per_camera,
}

pub on_images : Events → List AiImageEvent → Events
on_images events [] = events
on_images events (ev ∷ evs) = on_images (on_image_received_base64 ev events).0 evs

-- The events of one camera.
pub of_camera : Text → List AiImageEvent → List AiImageEvent
of_camera key [] = []
of_camera key (ev ∷ evs) =
    if text_eq ev.camera_id key then ev ∷ of_camera key evs else of_camera key evs

on_image-IsSorted :
    (ev : AiImageEvent) (events : Events)
    → IsSorted events
    → IsSorted (on_image_received_base64 ev events).0
unfolding on_image_received_base64
on_image-IsSorted ev events h = change_at-IsSorted [] ev.camera_id (append_event ev) events h

after_one :
    (key : Text) (ev : AiImageEvent) (events : Events)
    → IsSorted events
    → get_events_for_camera (on_image_received_base64 ev events).0 key ≡ (
        if text_eq ev.camera_id key
        then append_event ev (get_events_for_camera events key)
        else get_events_for_camera events key)
unfolding on_image_received_base64 get_events_for_camera
after_one key ev events h =
    lookup-change_at [] key ev.camera_id (append_event ev) events h
    ∙ agree (Bool-cases (text_eq ev.camera_id key))
  where
    agree :
        (text_eq ev.camera_id key ≡ true) ⊎ (text_eq ev.camera_id key ≡ false)
        → (if text_eq ev.camera_id key
            then append_event ev (lookup [] ev.camera_id events)
            else lookup [] key events)
          ≡ (if text_eq ev.camera_id key
              then append_event ev (lookup [] key events)
              else lookup [] key events)
    agree (inl q) =
        rw q (ap (λ t. append_event ev (lookup [] t events)) (text_eq→eq ev.camera_id key q))
    agree (inr q) = rw q refl

on_images-trim :
    (key : Text) (evs : List AiImageEvent) (events : Events)
    → IsSorted events
    → length (get_events_for_camera events key) ≤ max_events_per_camera
    → get_events_for_camera (on_images events evs) key
      ≡ trim max_events_per_camera (get_events_for_camera events key ++ of_camera key evs)
unfolding on_images of_camera
on_images-trim key [] events s h =
    let old = get_events_for_camera events key in
    sym (ap (trim max_events_per_camera) (append-nil old) ∙ trim-short max_events_per_camera old h)
on_images-trim key (ev ∷ evs) events s h =
    go (Bool-cases (text_eq ev.camera_id key)) (after_one key ev events s) (
      on_images-trim key evs (on_image_received_base64 ev events).0 (on_image-IsSorted ev events s))
  where
    old : List AiImageEvent
    old = get_events_for_camera events key

    now : List AiImageEvent
    now = get_events_for_camera (on_image_received_base64 ev events).0 key

    go :
        (text_eq ev.camera_id key ≡ true) ⊎ (text_eq ev.camera_id key ≡ false)
        → now ≡ (if text_eq ev.camera_id key then append_event ev old else old)
        → (length now ≤ max_events_per_camera
            → get_events_for_camera (on_images (on_image_received_base64 ev events).0 evs) key
              ≡ trim max_events_per_camera (now ++ of_camera key evs))
        → get_events_for_camera (on_images (on_image_received_base64 ev events).0 evs) key
          ≡ trim max_events_per_camera (
              old
              ++ (if text_eq ev.camera_id key then ev ∷ of_camera key evs else of_camera key evs))
    go (inl q) e ih =
        let e' : now ≡ append_event ev old =
          subst (λ b. now ≡ (if b then append_event ev old else old)) q e in
        let short : length now ≤ max_events_per_camera =
          subst (λ n. length n ≤ max_events_per_camera) (sym e')
            (length-trim max_events_per_camera (old ++ ev ∷ [])) in
        rw q (
          ih short
          ∙ ap (λ n. trim max_events_per_camera (n ++ of_camera key evs)) e'
          ∙ trim-append max_events_per_camera (old ++ ev ∷ []) (of_camera key evs)
          ∙ ap (trim max_events_per_camera) (append_assoc old (ev ∷ []) (of_camera key evs)))
    go (inr q) e ih =
        let e' : now ≡ old = subst (λ b. now ≡ (if b then append_event ev old else old)) q e in
        rw q (
          ih (subst (λ n. length n ≤ max_events_per_camera) (sym e') h)
          ∙ ap (λ n. trim max_events_per_camera (n ++ of_camera key evs)) e')

-- After any series of images from an empty model: the events that a camera has are the last 20 of the series that
-- name it, in their order, and never more than 20.
pub on_images-last :
    (key : Text) (evs : List AiImageEvent)
    → let all = of_camera key evs in
      (get_events_for_camera (on_images [] evs) key ≡ drop (length all - max_events_per_camera) all)
      × (length (get_events_for_camera (on_images [] evs) key) ≤ max_events_per_camera)
unfolding get_events_for_camera
on_images-last key evs =
    let all = of_camera key evs in
    let trimmed = on_images-trim key evs [] tt (omega arith) in
    (
      trimmed ∙ trim-drop max_events_per_camera all,
      subst (λ n. length n ≤ max_events_per_camera) (sym trimmed)
          (length-trim max_events_per_camera all),
    )
