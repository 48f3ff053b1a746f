-- ===== src/Throttle/Login.antt =====
-- The login of the web control plane (internal/webapp/auth.go, `handleLoginPost`), up to the cookie.
use selfremote.Common.{
  ℕ, ◌≡◌, ◌⊎◌, inl, inr, refl, subst, Bool, true, false, not, ◌||◌, String, str_eq, if◌then◌else◌,
  arith, Bool-cases,
}
use selfremote.Throttle.{Throttle, allowed, note_try, reset}

pub record Account : Type 0 where
  pub name : String
  pub password_hash : String
  pub totp_enabled : Bool
  pub totp_secret : String

-- What the database says of a user name: an error, no such user, or the user.
pub data Found : Type 0 where
  broken unknown : Found
  user : Account → Found

pub data Outcome : Type 0 where
  throttled internal_error wrong_password code_missing wrong_code : Outcome
  logged_in : Account → Outcome

-- The two limits: by user name and by source.
pub record Limits : Type 0 where
  pub users : Throttle
  pub sources : Throttle

-- What a browser sent, the name and the code without blanks around them; `source` is the key of the
-- client's address.
pub record Form : Type 0 where
  pub username : String
  pub password : String
  pub code : String
  pub source : String

-- `record` of both limits.
abbrev note_both : Limits → Form → ℕ → Limits
note_both l f now = record {
  users = note_try l.users f.username now;
  sources = note_try l.sources f.source now;
}

module _ (user_by_name : String → Found) (verify_password verify_totp : String → String → Bool)
    (try_recovery : Account → String → Bool) (create_session : Account → Bool) where
  abbrev pub open_session : Limits → Form → Account → Limits × Outcome
  open_session l f u = (
    record l { users = reset l.users f.username },
    if create_session u then logged_in u else internal_error,
  )

  -- The second step of an account that has one.
  abbrev pub check_code : Limits → Form → ℕ → Account → Limits × Outcome
  check_code l f now u =
      if not u.totp_enabled
      then open_session l f u
      else if str_eq f.code ""
      then (l, code_missing)
      else if verify_totp u.totp_secret f.code || try_recovery u f.code
      then open_session l f u
      else (note_both l f now, wrong_code)

  abbrev pub check_password : Limits → Form → ℕ → Found → Limits × Outcome
  check_password l f now broken = (l, internal_error)
  check_password l f now unknown = (note_both l f now, wrong_password)
  check_password l f now (user u) =
      if verify_password u.password_hash f.password
      then check_code l f now u
      else (note_both l f now, wrong_password)

  -- `handleLoginPost`
  unfoldable pub login : Limits → Form → ℕ → Limits × Outcome
  login l f now =
      let (sources, ip_ok) = allowed l.sources f.source now in
      let (users, user_ok) = allowed l.users f.username now in
      if not ip_ok
      then (record l { sources = sources }, throttled)
      else if not user_ok
      then (record { users = users; sources = note_try sources f.source now }, throttled)
      else check_password (record { users = users; sources = sources }) f now
          (user_by_name f.username)

  -- Why a login succeeds.
  pub record IsLoggedIn (l : Limits) (f : Form) (now : ℕ) (u : Account) : Type 0 where
    pub within_source : (allowed l.sources f.source now).1 ≡ true
    pub within_user : (allowed l.users f.username now).1 ≡ true
    pub known : user_by_name f.username ≡ user u
    pub password : verify_password u.password_hash f.password ≡ true
    pub code :
        (u.totp_enabled ≡ false)
        ⊎ ((str_eq f.code "" ≡ false)
            × (verify_totp u.totp_secret f.code || try_recovery u f.code ≡ true))

  check_code_lem :
      (l : Limits) (f : Form) (now : ℕ) (a u : Account)
      → (check_code l f now a).1 ≡ logged_in u
      → (a ≡ u)
        × ((a.totp_enabled ≡ false)
            ⊎ ((str_eq f.code "" ≡ false)
                × (verify_totp a.totp_secret f.code || try_recovery a f.code ≡ true)))
  check_code_lem l f now a u e = elim (Bool-cases a.totp_enabled) [
    | inr single ↦ (ground (arith, e, single), inl single)
    | inl double ↦ elim (Bool-cases (str_eq f.code "")) [
      | inl blank ↦ absurd (ground (arith, e, double, blank))
      | inr given ↦ elim (Bool-cases (verify_totp a.totp_secret f.code || try_recovery a f.code)) [
        | inr wrong ↦ absurd (ground (arith, e, double, given, wrong))
        | inl right ↦ (ground (arith, e, double, given, right), inr (given, right))
      ]
    ]
  ]

  check_password_lem :
      (l l' : Limits) (f : Form) (now : ℕ) (found : Found) (u : Account)
      → user_by_name f.username ≡ found
      → (allowed l.sources f.source now).1 ≡ true
      → (allowed l.users f.username now).1 ≡ true
      → (check_password l' f now found).1 ≡ logged_in u
      → IsLoggedIn l f now u
  check_password_lem l l' f now broken u known s n e = cc
  check_password_lem l l' f now unknown u known s n e = cc
  check_password_lem l l' f now (user a) u known s n e =
      elim (Bool-cases (verify_password a.password_hash f.password)) [
        | inr wrong ↦ absurd (ground (arith, e, wrong))
        | inl right ↦
            let (same, code) = check_code_lem l' f now a u (ground (arith, e, right)) in
            subst (IsLoggedIn l f now) same (record {
              within_source = s;
              within_user = n;
              known = known;
              password = right;
              code = code;
            })
      ]

-- Who is logged in is the user of the name that was given, with the right password and, where the
-- account has a second step, a code that is not blank and right; and neither the name nor the
-- source is over its limit.
pub login-IsLoggedIn :
    (user_by_name : String → Found) (verify_password verify_totp : String → String → Bool)
    (try_recovery : Account → String → Bool) (create_session : Account → Bool) (l : Limits)
    (f : Form) (now : ℕ) (u : Account)
    → (login user_by_name verify_password verify_totp try_recovery create_session l f now).1
      ≡ logged_in u
    → IsLoggedIn user_by_name verify_password verify_totp try_recovery create_session l f now u
unfolding login
login-IsLoggedIn user_by_name verify_password verify_totp try_recovery create_session l f now u e =
    elim (Bool-cases (allowed l.sources f.source now).1) [
      | inr over ↦ absurd (ground (arith, e, over))
      | inl s ↦ elim (Bool-cases (allowed l.users f.username now).1) [
        | inr over ↦ absurd (ground (arith, e, s, over))
        | inl n ↦
            check_password_lem user_by_name verify_password verify_totp try_recovery create_session
              l
              (record {
                users = (allowed l.users f.username now).0;
                sources = (allowed l.sources f.source now).0;
              })
              f now (user_by_name f.username) u refl s n (ground (arith, e, s, n))
      ]
    ]
