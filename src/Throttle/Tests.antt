-- ===== src/Throttle/Tests.antt =====
-- Three wrong passwords of one user, and a login.
use selfremote.Common.{
  ℕ, ◌≡◌, List, ◌*◌, ◌^◌, refl, Bool, true, false, String, str_eq, [], ◌∷◌, if◌then◌else◌,
}
use selfremote.Engine.Heap.{lookup, insert, remove}
use selfremote.Throttle.{login_limiter, new_ip_limiter, recent, allowed, note_try, reset}
use selfremote.Throttle.Login.{
  Account, Found, user, unknown, Limits, Form, login, IsLoggedIn, login-IsLoggedIn,
}
use selfremote.Throttle.Guesses.{Try, wrong_guesses}

abbrev ann : Account
ann = record { name = "ann"; password_hash = "hash"; totp_enabled = true; totp_secret = "GEZDGNBV" }

abbrev by_name : String → Found
by_name name = if str_eq name "ann" then user ann else unknown

abbrev verify_password : String → String → Bool
verify_password hash password = str_eq password "correct horse"

abbrev verify_totp : String → String → Bool
verify_totp secret code = str_eq code "123456"

abbrev limits : Limits
limits = record { users = login_limiter; sources = new_ip_limiter 30 (900 * 10 ^ 9) }

abbrev form : Form
form = record {
  username = "ann";
  password = "correct horse";
  code = "123456";
  source = "login:203.0.113.9";
}

login-IsLoggedIn_example :
    IsLoggedIn by_name verify_password verify_totp (λ u code. false) (λ u. true) limits form 7 ann
unfolding login allowed lookup recent
login-IsLoggedIn_example =
    login-IsLoggedIn by_name verify_password verify_totp (λ u code. false) (λ u. true) limits form 7
      ann refl

-- A try of ann's at a time, with a password, from one address.
abbrev try_at : ℕ → String → Try
try_at now password = record {
  at = now;
  form = record form { password = password };
  user_by_name = by_name;
  verify_password = verify_password;
  verify_totp = verify_totp;
  try_recovery = λ u code. false;
  create_session = λ u. true;
}

-- Two wrong guesses, a login, and six wrong guesses, the last of which is refused.
abbrev posts : List Try
posts =
    try_at 1 "a"
    ∷ try_at 2 "b"
    ∷ try_at 3 "correct horse"
    ∷ try_at 4 "c"
    ∷ try_at 5 "d"
    ∷ try_at 6 "e"
    ∷ try_at 7 "f"
    ∷ try_at 8 "g"
    ∷ try_at 9 "h"
    ∷ []

five_wrong : wrong_guesses "ann" [] limits posts ≡ 4 ∷ 5 ∷ 6 ∷ 7 ∷ 8 ∷ []
unfolding wrong_guesses login allowed note_try reset lookup insert remove recent
five_wrong = refl
