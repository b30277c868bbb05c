-- ===== src/Services/NetworkBridge/Body.antt =====
-- The bodies of the messages: `buildJson` and the methods that only send.
use with_boost.Common.{
  ℕ, Bool, true, ◌&&◌, List, [], ◌∷◌, ◌++◌, Text, codes, is_empty, if◌then◌else◌,
}
use with_boost.Network.Protocol.{type_code, login, assign}

pub data Effect : Type 0 where
  connects : Text → Text → Text → Effect
  disconnects : Effect
  sends : ℕ → Text → Effect
  timer_started : Effect

-- One member: `"key":"value"`.
unfoldable pub member : Text → Text → Text
member k v = b'"' ∷ (k ++ (codes "\":\"" ++ (v ++ codes "\"")))

-- The loop over the pairs; `first` says that none was written yet.
unfoldable pub members : Bool → List (Text × Text) → Text
unfolding member
members first [] = []
members first ((k, v) ∷ pairs) =
    let rest = members (first && is_empty v) pairs in
    let comma = if first then [] else codes "," in
    if is_empty v then rest else comma ++ (member k v ++ rest)

unfoldable pub build_json : List (Text × Text) → Text
unfolding members
build_json pairs = b'{' ∷ (members true pairs ++ codes "}")

module _ (to_std : Text → Text) where
  unfoldable pub connect_to_server : Text → Text → Text → Effect
  connect_to_server host port purpose = connects (to_std host) (to_std port) purpose

  unfoldable pub disconnect : Effect
  disconnect = disconnects

  unfoldable pub send_login : Text → Text → Effect
  unfolding build_json type_code
  send_login id pw =
      sends (type_code login) (build_json ((codes "id", to_std id) ∷ (codes "pw", to_std pw) ∷ []))

  unfoldable pub send_signup : Text → Text → Text → Effect
  unfolding build_json type_code
  send_signup id email pw = sends (type_code assign) (
      build_json (
        (codes "action", codes "register")
        ∷ (codes "id", to_std id)
        ∷ (codes "email", to_std email)
        ∷ (codes "pw", to_std pw)
        ∷ []))

  unfoldable pub send_list_pending : Effect
  unfolding type_code
  send_list_pending = sends (type_code assign) (codes "{\"action\":\"list_pending\"}")

  unfoldable pub send_approve : Text → Effect
  unfolding build_json type_code
  send_approve target_id =
      sends (type_code assign) (
        build_json ((codes "action", codes "approve") ∷ (codes "target_id", to_std target_id) ∷ []))
