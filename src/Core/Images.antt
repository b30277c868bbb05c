-- ===== src/Core/Images.antt =====
-- What the cameras get of an image that several of them match.
use mathlib.Core.List.{map}
use with_boost.Common.{
  ◌≡◌, refl, ap, true, Option, some, List, [], ◌∷◌, ◌++◌, Text, codes, is_empty, All, drop, take, ℤ,
}
use with_boost.Domain.Json.{Json}
use with_boost.Domain.Camera.{snapshot}
use with_boost.Models.AiImageModel.{AiImageEvent}
use with_boost.Core.{Store, matching, ip_of, described, image_posts, on_image}

module _ (j : Json) (value_long : j.Value → Text → Option ℤ)
    (from_std to_base64 : Text → Text) where
  open j use {parse}

  rest-IsEmpty :
      (ev : AiImageEvent) (ids : List Text)
      → All
          (λ e. is_empty e.base64_image ≡ true)
          (image_posts j value_long from_std to_base64 ev [] ids)
  unfolding image_posts
  rest-IsEmpty ev [] = tt
  rest-IsEmpty ev (id ∷ ids) = (refl, rest-IsEmpty ev ids)

  posts-cameras :
      (ev : AiImageEvent) (base64 : Text) (ids : List Text)
      → map (λ e. e.camera_id) (image_posts j value_long from_std to_base64 ev base64 ids)
        ≡ map from_std ids
  unfolding image_posts
  posts-cameras ev base64 [] = refl
  posts-cameras ev base64 (id ∷ ids) = ap (◌∷◌ (from_std id)) (posts-cameras ev [] ids)

  -- An image has an IP and what describes it, and a camera matches the IP: for each of the cameras that match, in
  -- their order, one event is posted; the event of the first one has the image, and the events of all
  -- others have none.
  pub on_image-first :
      (s : Store j) (jpeg json ip first : Text) (others : List Text) (ev : AiImageEvent)
      → ip_of j (parse json) ≡ some ip
      → described j value_long from_std to_base64 (parse json) ≡ some ev
      → matching ip (snapshot s) ≡ first ∷ others
      → let posts = on_image j value_long from_std to_base64 s jpeg json in
        (map (λ e. e.camera_id) posts ≡ map from_std (first ∷ others))
        × (map (λ e. e.base64_image) (take 1 posts)
            ≡ (codes "data:image/jpeg;base64," ++ to_base64 jpeg) ∷ [])
        × All (λ e. is_empty e.base64_image ≡ true) (drop 1 posts)
  unfolding on_image image_posts
  on_image-first s jpeg json ip first others ev h k m =
      rw (on_image, h, k, m)
        (ap (◌∷◌ (from_std first)) (posts-cameras ev [] others), refl, rest-IsEmpty ev others)
