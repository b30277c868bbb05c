-- ===== src/Controllers/AuthController/Session.antt =====
-- The login and the signup controller: their state, their calls of the bridge and their signals.
use with_boost.Common.{
  Bool, true, false, ◌&&◌, ◌||◌, not, List, [], ◌∷◌, ◌++◌, Text, codes, if◌then◌else◌, is_empty,
}

pub record AuthController : Type 0 where
  pub has_bridge : Bool
  pub host : Text
  pub port : Text
  pub is_loading : Bool
  pub is_error : Bool
  pub error_message : Text

pub data Effect : Type 0 where
  is_loading_changed is_error_changed error_message_changed : Effect
  state_changed username_changed login_success logout_requested : Effect
  signup_success : Text → Effect
  connects_to_server : Text → Text → Text → Effect
  disconnects : Effect
  sends_login : Text → Text → Effect
  sends_signup : Text → Text → Text → Effect

abbrev same_bool : Bool → Bool → Bool
same_bool true b = b
same_bool false b = not b

unfoldable pub set_loading : Bool → AuthController → AuthController × List Effect
set_loading v c =
    if same_bool c.is_loading v
    then (c, [])
    else (record c { is_loading = v }, is_loading_changed ∷ [])

abbrev error_signals : List Effect
error_signals = is_error_changed ∷ error_message_changed ∷ []

unfoldable pub set_error : Text → AuthController → AuthController × List Effect
set_error msg c = (record c { is_error = true; error_message = msg }, error_signals)

unfoldable pub clear_error : AuthController → AuthController × List Effect
clear_error c = (record c { is_error = false; error_message = [] }, error_signals)

abbrev pub with_bridge : AuthController → List Effect → List Effect
with_bridge c out = if c.has_bridge then out else []

pub record LoginController : Type 0 where
  pub auth : AuthController
  pub state : Text
  pub username : Text
  pub pending_id : Text
  pub pending_password : Text

unfoldable pub login_on_connected : LoginController → LoginController × List Effect
login_on_connected c =
    if c.auth.has_bridge && not (is_empty c.pending_id)
    then (
      record c { pending_id = []; pending_password = [] },
      sends_login c.pending_id c.pending_password ∷ [],
    )
    else (c, [])

-- `is_connected` is the answer of `bridge_->isConnected()`.
unfoldable pub login : Bool → Text → Text → LoginController → LoginController × List Effect
unfolding set_error clear_error set_loading login_on_connected
login is_connected id password c =
    let (refused, errors) = set_error (codes "ID and Password cannot be empty") c.auth in
    let (cleared, clears) = clear_error c.auth in
    let (loading, loads) = set_loading true cleared in
    let waiting = record c { auth = loading; pending_id = id; pending_password = password } in
    let (sent, sends) = login_on_connected waiting in
    let connects = connects_to_server c.auth.host c.auth.port (codes "login") in
    if is_empty id || is_empty password
    then (record c { auth = refused }, errors)
    else if not c.auth.has_bridge
    then (waiting, clears ++ loads)
    else if is_connected
    then (sent, (clears ++ loads) ++ sends)
    else (waiting, (clears ++ loads) ++ connects ∷ [])

unfoldable pub handle_login_success : Text → Text → LoginController → LoginController × List Effect
unfolding set_loading
handle_login_success state username c =
    let (auth, loads) = set_loading false c.auth in
    (
      record c { auth = auth; state = state; username = username },
      loads ++ state_changed ∷ username_changed ∷ login_success ∷ [],
    )

unfoldable pub handle_login_failed : Text → LoginController → LoginController × List Effect
unfolding set_loading set_error
handle_login_failed error c =
    let (stopped, loads) = set_loading false c.auth in
    let (auth, errors) = set_error error stopped in
    (record c { auth = auth }, (loads ++ with_bridge c.auth (disconnects ∷ [])) ++ errors)

unfoldable pub logout : LoginController → LoginController × List Effect
unfolding set_loading clear_error
logout c =
    let (stopped, loads) = set_loading false c.auth in
    let (auth, clears) = clear_error stopped in
    (
      record c { auth = auth; state = []; username = []; pending_id = []; pending_password = [] },
      with_bridge c.auth (disconnects ∷ [])
          ++ state_changed ∷ username_changed ∷ (loads ++ clears)
          ++ logout_requested ∷ [],
    )

pub record SignupController : Type 0 where
  pub auth : AuthController
  pub pending_id : Text
  pub pending_email : Text
  pub pending_password : Text

unfoldable pub signup_on_connected : SignupController → SignupController × List Effect
signup_on_connected c =
    if c.auth.has_bridge && not (is_empty c.pending_id)
    then (
      record c { pending_id = []; pending_email = []; pending_password = [] },
      sends_signup c.pending_id c.pending_email c.pending_password ∷ [],
    )
    else (c, [])

unfoldable pub signup :
    Bool → Text → Text → Text → SignupController → SignupController × List Effect
unfolding set_error clear_error set_loading signup_on_connected
signup is_connected id email password c =
    let (refused, errors) = set_error (codes "모든 항목을 입력해야 합니다.") c.auth in
    let (cleared, clears) = clear_error c.auth in
    let (loading, loads) = set_loading true cleared in
    let waiting = record c {
      auth = loading;
      pending_id = id;
      pending_email = email;
      pending_password = password;
    } in
    let (sent, sends) = signup_on_connected waiting in
    let connects = connects_to_server c.auth.host c.auth.port (codes "signup") in
    if is_empty id || is_empty email || is_empty password
    then (record c { auth = refused }, errors)
    else if not c.auth.has_bridge
    then (waiting, clears ++ loads)
    else if is_connected
    then (sent, (clears ++ loads) ++ sends)
    else (waiting, (clears ++ loads) ++ connects ∷ [])

unfoldable pub handle_signup_success : Text → SignupController → SignupController × List Effect
unfolding set_loading
handle_signup_success message c =
    let (auth, loads) = set_loading false c.auth in
    (
      record c { auth = auth },
      (loads ++ with_bridge c.auth (disconnects ∷ [])) ++ signup_success message ∷ [],
    )

unfoldable pub handle_signup_failed : Text → SignupController → SignupController × List Effect
unfolding set_loading set_error
handle_signup_failed error c =
    let (stopped, loads) = set_loading false c.auth in
    let (auth, errors) = set_error error stopped in
    (record c { auth = auth }, (loads ++ with_bridge c.auth (disconnects ∷ [])) ++ errors)
