-- ===== src/Controllers/AuthController/Sends.antt =====
-- What a login controller sends.
use mathlib.Core.List.{append_assoc, append-nil}
use with_boost.Common.Parts.{
  IsPart, none_kept, all_kept, behind, after_same, before_same, IsPart-trans,
}
use with_boost.Common.{
  ◌≡◌, refl, sym, ap, ◌∙◌, subst, Bool, true, false, Bool-cases, inl, inr, List, [], ◌∷◌, ◌++◌,
  Text, codes, if◌then◌else◌, is_empty, not, ◌||◌, arith,
}
use with_boost.Controllers.AuthController.{
  AuthController, LoginController, Effect, sends_login, is_error_changed, error_message_changed,
  state_changed, username_changed, login_success, logout_requested, connects_to_server, disconnects,
  with_bridge, login, login_on_connected, handle_login_success, handle_login_failed, logout,
  set_loading, set_error, clear_error,
}

-- The calls of a login controller, from QML and from its bridge.
pub data Event : Type 0 where
  logs_in : Bool → Text → Text → Event
  connected : Event
  succeeds : Text → Text → Event
  fails : Text → Event
  logs_out : Event

pub step : LoginController → Event → LoginController × List Effect
step c (logs_in is_connected id password) = login is_connected id password c
step c connected = login_on_connected c
step c (succeeds state username) = handle_login_success state username c
step c (fails error) = handle_login_failed error c
step c logs_out = logout c

pub run : LoginController → List Event → LoginController × List Effect
run c [] = (c, [])
run c (e ∷ es) = let (c', out) = step c e in let (c'', more) = run c' es in (c'', out ++ more)

pub sends : List Effect → List (Text × Text)
sends [] = []
sends (sends_login id password ∷ out) = (id, password) ∷ sends out
sends (other ∷ out) = sends out

-- The credentials of the logins, in their order; a login without an ID or a password does not count.
pub logins : List Event → List (Text × Text)
logins [] = []
logins (logs_in b id password ∷ es) =
    if is_empty id || is_empty password then logins es else (id, password) ∷ logins es
logins (other ∷ es) = logins es

pub waiting : LoginController → List (Text × Text)
waiting c = if is_empty c.pending_id then [] else (c.pending_id, c.pending_password) ∷ []

sends-append : (xs ys : List Effect) → sends (xs ++ ys) ≡ sends xs ++ sends ys
unfolding sends
sends-append [] ys = refl
sends-append (x ∷ xs) ys = ground (arith, sends-append xs ys)

sends-set_loading : (v : Bool) (c : AuthController) → sends (set_loading v c).1 ≡ []
unfolding sends set_loading
sends-set_loading v c = ground arith

sends-with_bridge : (c : AuthController) → sends (with_bridge c (disconnects ∷ [])) ≡ []
unfolding sends
sends-with_bridge c = ground arith

sends-opening :
    (c : AuthController) → sends ((clear_error c).1 ++ (set_loading true (clear_error c).0).1) ≡ []
unfolding clear_error sends
sends-opening c = sends-set_loading true (clear_error c).0

login-refused :
    (b : Bool) (id password : Text) (c : LoginController)
    → (is_empty id || is_empty password) ≡ true
    → let (c', out) = login b id password c in sends out ++ waiting c' ≡ waiting c
unfolding login sends waiting set_error
login-refused b id password c e = rw e refl

on_connected-same :
    (c : LoginController)
    → let (c', out) = login_on_connected c in sends out ++ waiting c' ≡ waiting c
unfolding login_on_connected sends waiting
on_connected-same c = elim (Bool-cases (is_empty c.pending_id)) [
  | inl e ↦ rw e (ground arith)
  | inr e ↦ rw e (ground arith)
]

-- A controller that waits with these credentials.
waiting-filled :
    (c : LoginController) (id password : Text)
    → is_empty id ≡ false
    → waiting (record c { pending_id = id; pending_password = password }) ≡ (id, password) ∷ []
unfolding waiting
waiting-filled c id password n = rw n refl

abbrev waiting_on : AuthController → Text → Text → LoginController → LoginController
waiting_on auth id password c = record c {
  auth = auth;
  pending_id = id;
  pending_password = password;
}

login-accepted :
    (b : Bool) (id password : Text) (c : LoginController)
    → (is_empty id || is_empty password) ≡ false
    → let (c', out) = login b id password c in sends out ++ waiting c' ≡ (id, password) ∷ []
unfolding login sends
login-accepted b id password c e = rw e (now c.auth.has_bridge b)
  where
    loading : AuthController
    loading = (set_loading true (clear_error c.auth).0).0

    opening : List Effect
    opening = (clear_error c.auth).1 ++ (set_loading true (clear_error c.auth).0).1

    held : LoginController
    held = waiting_on loading id password c

    filled : waiting held ≡ (id, password) ∷ []
    filled = waiting-filled (record c { auth = loading }) id password (ground arith)

    connects : List Effect
    connects = connects_to_server c.auth.host c.auth.port (codes "login") ∷ []

    answer : Bool → Bool → LoginController × List Effect
    answer h b =
        if not h
        then (held, opening)
        else if b
        then ((login_on_connected held).0, opening ++ (login_on_connected held).1)
        else (held, opening ++ connects)

    now : (h b : Bool) → sends (answer h b).1 ++ waiting (answer h b).0 ≡ (id, password) ∷ []
    now false b = rw (sends-opening c.auth) filled
    now true true =
        rw (sends-append opening (login_on_connected held).1, sends-opening c.auth)
          (on_connected-same held ∙ filled)
    now true false = rw (sends-append opening connects, sends-opening c.auth) filled

succeeds-same :
    (state username : Text) (c : LoginController)
    → let (c', out) = handle_login_success state username c in sends out ++ waiting c' ≡ waiting c
unfolding handle_login_success sends waiting
succeeds-same state username c =
    let signals = state_changed ∷ username_changed ∷ login_success ∷ [] in
    rw (sends-append (set_loading false c.auth).1 signals, sends-set_loading false c.auth) refl

fails-same :
    (error : Text) (c : LoginController)
    → let (c', out) = handle_login_failed error c in sends out ++ waiting c' ≡ waiting c
unfolding handle_login_failed set_error sends waiting
fails-same error c =
    let loads = (set_loading false c.auth).1 in
    let ends = with_bridge c.auth (disconnects ∷ []) in
    rw
      (
        sends-append (loads ++ ends) (is_error_changed ∷ error_message_changed ∷ []),
        sends-append loads ends,
        sends-set_loading false c.auth,
        sends-with_bridge c.auth,
      )
      refl

logout-nothing : (c : LoginController) → let (c', out) = logout c in sends out ++ waiting c' ≡ []
unfolding logout clear_error sends waiting
logout-nothing c =
    let loads = (set_loading false c.auth).1 in
    let ends = with_bridge c.auth (disconnects ∷ []) in
    let clears = is_error_changed ∷ error_message_changed ∷ [] in
    let signals = state_changed ∷ username_changed ∷ (loads ++ clears) in
    rw
      (
        sends-append (ends ++ signals) (logout_requested ∷ []),
        sends-append ends signals,
        sends-with_bridge c.auth,
        sends-append loads clears,
        sends-set_loading false c.auth,
      )
      refl

-- One step: what it sends and what then waits are a part of what waited and, if it is a login, its
-- credentials.
step-IsPart :
    (c : LoginController) (e : Event)
    → let (c', out) = step c e in IsPart (sends out ++ waiting c') (waiting c ++ logins (e ∷ []))
unfolding step logins
step-IsPart c (logs_in b id password) = elim (Bool-cases (is_empty id || is_empty password)) [
  | inl e ↦ rw (e, append-nil (waiting c), login-refused b id password c e) (all_kept (waiting c))
  | inr e ↦
      rw (e, login-accepted b id password c e) (behind (waiting c) (all_kept ((id, password) ∷ [])))
]
step-IsPart c connected = rw (append-nil (waiting c), on_connected-same c) (all_kept (waiting c))
step-IsPart c (succeeds state username) =
    rw (append-nil (waiting c), succeeds-same state username c) (all_kept (waiting c))
step-IsPart c (fails error) = rw (append-nil (waiting c), fails-same error c) (all_kept (waiting c))
step-IsPart c logs_out = rw (logout-nothing c) (none_kept (waiting c ++ []))

logins-cons : (e : Event) (es : List Event) → logins (e ∷ es) ≡ logins (e ∷ []) ++ logins es
unfolding logins
logins-cons (logs_in b id password) es = elim (Bool-cases (is_empty id || is_empty password)) [
  | inl e ↦ rw e refl
  | inr e ↦ rw e refl
]
logins-cons connected es = refl
logins-cons (succeeds state username) es = refl
logins-cons (fails error) es = refl
logins-cons logs_out es = refl

start-IsPart : (c : LoginController) → IsPart (sends [] ++ waiting c) (waiting c ++ logins [])
unfolding sends logins
start-IsPart c = rw (append-nil (waiting c)) (all_kept (waiting c))

-- Over any sequence of logins, logouts and answers of the bridge: the credentials that a login controller
-- sends, and behind them those that it still holds, are, in their order, some of those that it held at
-- the start and of those of the logins with an ID and a password. So each login is sent at most
-- once, and nothing is sent but what a login gave.
pub run-IsPart :
    (c : LoginController) (es : List Event)
    → let (c', out) = run c es in IsPart (sends out ++ waiting c') (waiting c ++ logins es)
unfolding run
run-IsPart c [] = start-IsPart c
run-IsPart c (e ∷ es) =
    let (c', out) = step c e in
    let (c'', more) = run c' es in
    let rest = after_same (sends out) (run-IsPart c' es) in
    let first = before_same (logins es) (step-IsPart c e) in
    let joined : IsPart (sends out ++ (sends more ++ waiting c'')) (waiting c ++ logins (e ∷ es)) =
      IsPart-trans
        (subst (IsPart (sends out ++ (waiting c' ++ logins es)))
          (append_assoc (waiting c) (logins (e ∷ [])) (logins es)
            ∙ ap (λ l. waiting c ++ l) (sym (logins-cons e es)))
          (subst (λ l. IsPart l ((waiting c ++ logins (e ∷ [])) ++ logins es))
            (append_assoc (sends out) (waiting c') (logins es)) first))
        rest in
    rw (sends-append out more, append_assoc (sends out) (sends more) (waiting c'')) joined
