-- ===== src/Throttle/Guesses.antt =====
-- How many wrong guesses of a user's password and code the login (internal/webapp/auth.go,
-- `handleLoginPost`) lets through.
use selfremote.Common.{ℕ, ◌≤◌, Bool, String, str_eq, List, [], ◌∷◌, ◌++◌, if◌then◌else◌}
use selfremote.Throttle.Login.{
  Account, Found, Outcome, throttled, internal_error, wrong_password, code_missing, wrong_code,
  logged_in, Limits, Form, login,
}
use selfremote.Throttle.Window.{IsKept}

-- One post of the login form, at its time, and what the database, the two libraries and the store of
-- sessions answer to it.
pub record Try : Type 0 where
  pub at : ℕ
  pub form : Form
  pub user_by_name : String → Found
  pub verify_password : String → String → Bool
  pub verify_totp : String → String → Bool
  pub try_recovery : Account → String → Bool
  pub create_session : Account → Bool

abbrev pub answer : Limits → Try → Limits × Outcome
answer l t =
    login t.user_by_name t.verify_password t.verify_totp t.try_recovery t.create_session l t.form
      t.at

-- Wrong guesses are collected until the user name is through or an error ends the try.
abbrev pub noted : List ℕ → ℕ → Outcome → List ℕ
noted past now throttled = past
noted past now code_missing = past
noted past now wrong_password = past ++ (now ∷ [])
noted past now wrong_code = past ++ (now ∷ [])
noted past now internal_error = []
noted past now (logged_in u) = []

-- The times of the wrong guesses for a user name since the last login of it, over posts of any forms.
unfoldable pub wrong_guesses : String → List ℕ → Limits → List Try → List ℕ
wrong_guesses name past l [] = past
wrong_guesses name past l (t ∷ tries) =
    let (l', out) = answer l t in
    wrong_guesses name (if str_eq t.form.username name then noted past t.at out else past) l' tries

-- The times are in order, from `last` on.
abbrev pub InOrder : ℕ → List Try → Type 0
InOrder last [] = Unit
InOrder last (t ∷ tries) = (last ≤ t.at) × InOrder t.at tries

abbrev pub last_of : ℕ → List Try → ℕ
last_of last [] = last
last_of last (t ∷ tries) = last_of t.at tries

module _ (window most : ℕ) (name : String) (t : Try) (past : List ℕ) where
  -- The limit by user names after an answer, with the guesses that are then to account for.
  abbrev IsNoted : Limits × Outcome → Type 0
  IsNoted r =
      IsKept window most name t.at
        (if str_eq t.form.username name then noted past t.at r.1 else past) r.0.users
