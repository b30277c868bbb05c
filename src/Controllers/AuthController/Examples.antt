-- ===== src/Controllers/AuthController/Examples.antt =====
-- A login before the connection stands, a second one, and a logout.
use with_boost.Common.{true, false, List, [], ◌∷◌, ◌++◌, codes}
use with_boost.Common.Parts.{IsPart}
use with_boost.Controllers.AuthController.{LoginController}
use with_boost.Controllers.AuthController.Sends.{
  Event, logs_in, connected, fails, logs_out, run, sends, waiting, logins, run-IsPart,
}

abbrev signed_out : LoginController
signed_out = record {
  auth = record {
    has_bridge = true;
    host = codes "10.0.0.1";
    port = codes "9000";
    is_loading = false;
    is_error = false;
    error_message = [];
  };
  state = [];
  username = [];
  pending_id = [];
  pending_password = [];
}

abbrev calls : List Event
calls =
    logs_in false (codes "ann") (codes "a")
    ∷ logs_in false (codes "bob") (codes "b")
    ∷ connected
    ∷ connected
    ∷ fails (codes "no")
    ∷ logs_in true (codes "bob") []
    ∷ logs_out
    ∷ []

run-IsPart_example :
    let (c, out) = run signed_out calls in
    IsPart (sends out ++ waiting c) (waiting signed_out ++ logins calls)
run-IsPart_example = run-IsPart signed_out calls
