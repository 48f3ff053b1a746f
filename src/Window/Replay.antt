-- ===== src/Window/Replay.antt =====
-- The window against the plain history of committed nonces.
use selfremote.Common.{
  ℕ, ◌+◌, ◌-◌, ◌*◌, ◌%◌, ◌^◌, ◌≤◌, ◌<◌, ◌≡◌, refl, Bool, true, false, not, List, [], ◌∷◌, Option,
  arith, ltb, leb, if◌then◌else◌, member, bit, bit-bit_or, bit_and-pow, bit-shift, bit-mod, bit-one,
  max,
}
use native.Mathlib.Nat.{one-le-pow, pow-le-pow_right}
use native.Mathlib.Decide.{dec_le}
use selfremote.Window.{
  Arrival, RecvWindow, new_window, shl64, acceptable, commit, try_session, receive,
}

-- No number stands twice in the list.
abbrev pub IsDistinct : List ℕ → Type 0
IsDistinct [] = Unit
IsDistinct (n ∷ ns) = (member n ns ≡ false) × IsDistinct ns

-- The window after the nonces of `history`, the latest first, were committed.
unfoldable pub after : List ℕ → RecvWindow
after [] = new_window
after (n ∷ ns) = commit (after ns) n

abbrev pub highest_of : List ℕ → ℕ
highest_of [] = 0
highest_of (n ∷ ns) = max n (highest_of ns)

-- The window's promise: a nonce above everything seen, or one of the last 64 and unseen.
abbrev pub is_below : ℕ → List ℕ → ℕ → Bool
is_below top h n = if ltb top n then true else if leb 64 (top - n) then false else not (member n h)

abbrev pub is_new : List ℕ → ℕ → Bool
is_new [] n = true
is_new (m ∷ ms) n = is_below (highest_of (m ∷ ms)) (m ∷ ms) n

-- Digit `age` of the bitmap, as the history determines it.
abbrev mark : List ℕ → ℕ → ℕ
mark h age = if leb age (highest_of h) then (if member (highest_of h - age) h then 1 else 0) else 0

record Tracks (w : RecvWindow) (h : List ℕ) : Type 0 where
  top : w.highest ≡ highest_of h
  digits : (age : ℕ) → age < 64 → bit w.bitmap age ≡ mark h age

bit-shl64 : (x s k : ℕ) → k < 64 → bit (shl64 x s) k ≡ (if ltb k s then 0 else bit x (k - s))
bit-shl64 x s k h = ground (arith, bit-mod 64 (x * 2 ^ s) k, bit-shift s x k)

one_shifted : (s : ℕ) → s < 64 → shl64 1 s ≡ 2 ^ s
one_shifted s h =
    let small : 2 ^ s ≤ 2 ^ 63 =
      pow-le-pow_right {n = 2} (omega arith) {i = s} {j = 63} (omega arith) in
    omega arith

member_bound : (a : ℕ) (h : List ℕ) → member a h ≡ true → a ≤ highest_of h
member_bound a [] m = cc
member_bound a (x ∷ h) m = ground (arith, member_bound a h)

module _ (w : RecvWindow) (h : List ℕ) (n : ℕ) (ready : w.init ≡ true) (t : Tracks w h) where
  Tracks-commit_above :
      (age : ℕ) → age < 64 → w.highest < n → bit (commit w n).bitmap age ≡ mark (n ∷ h) age
  unfolding commit
  Tracks-commit_above age small above = ground (
    arith,
    t.top,
    t.digits (age - (n - w.highest)),
    bit-bit_or (shl64 w.bitmap (n - w.highest)) 1 age,
    bit-shl64 w.bitmap (n - w.highest) age small,
    bit-one age,
    member_bound (n - age) h,
  )

  Tracks-commit_inside :
      (age : ℕ) → age < 64 → n ≤ w.highest → bit (commit w n).bitmap age ≡ mark (n ∷ h) age
  unfolding commit
  Tracks-commit_inside age small inside = ground (
    arith,
    t.top,
    t.digits age,
    bit-bit_or w.bitmap (shl64 1 (w.highest - n)) age,
    bit-shl64 1 (w.highest - n) age small,
    bit-one (age - (w.highest - n)),
  )

module _ (w : RecvWindow) (h : List ℕ) (n : ℕ) (ready : w.init ≡ true) (t : Tracks w h) where
  commit_ready : (commit w n).init ≡ true
  unfolding commit
  commit_ready = ground (arith, ready)

  commit_top : (commit w n).highest ≡ highest_of (n ∷ h)
  unfolding commit
  commit_top = ground (arith, t.top)

  commit_digits : (age : ℕ) → age < 64 → bit (commit w n).bitmap age ≡ mark (n ∷ h) age
  commit_digits age small = elim (dec_le n w.highest) [
    | yes le ↦ Tracks-commit_inside w h n ready t age small le
    | no gt ↦ Tracks-commit_above w h n ready t age small (omega arith)
  ]

  acceptable_tracked : acceptable w n ≡ is_below (highest_of h) h n
  unfolding acceptable
  acceptable_tracked = ground (
    arith,
    t.top,
    t.digits (w.highest - n),
    bit_and-pow (w.highest - n) w.bitmap,
    one_shifted (w.highest - n),
    one-le-pow (w.highest - n) 2 (omega arith),
  )

first_digits : (n age : ℕ) → age < 64 → bit (commit new_window n).bitmap age ≡ mark (n ∷ []) age
unfolding commit
first_digits n age small = ground (arith, bit-one age)

first_top : (n : ℕ) → (commit new_window n).highest ≡ highest_of (n ∷ [])
unfolding commit
first_top n = ground arith

after_ready : (n : ℕ) (h : List ℕ) → ((after (n ∷ h)).init ≡ true) × Tracks (after (n ∷ h)) (n ∷ h)
unfolding after
after_ready n [] = (unfold commit in refl, record { top = first_top n; digits = first_digits n })
after_ready n (m ∷ h) =
    let (ready, t) = after_ready m h in
    (
      commit_ready (after (m ∷ h)) (m ∷ h) n ready t,
      record {
        top = commit_top (after (m ∷ h)) (m ∷ h) n ready t;
        digits = commit_digits (after (m ∷ h)) (m ∷ h) n ready t;
      },
    )

-- After any commits of nonces, in any order and with repeats, the window accepts a nonce exactly
-- when it is above every committed one, or less than 64 below the highest and not yet committed.
pub acceptable-is_new : (history : List ℕ) (n : ℕ) → acceptable (after history) n ≡ is_new history n
unfolding after
acceptable-is_new [] n = unfold acceptable in refl
acceptable-is_new (m ∷ h) n =
    let (ready, t) = after_ready m h in acceptable_tracked (after (m ∷ h)) (m ∷ h) n ready t

-- A nonce of the history is refused.
old_refused : (history : List ℕ) (n : ℕ) → member n history ≡ true → is_new history n ≡ false
old_refused [] n h = cc
old_refused (m ∷ ms) n h = ground (arith, member_bound n (m ∷ ms))

module _ (decrypt : ℕ → List ℕ → Option (List ℕ)) where
  -- A nonce of the history never comes out of the receiver again.
  old_not_received :
      (history : List ℕ) (count : ℕ) (stream : List Arrival) (n : ℕ)
      → member n history ≡ true
      → member n (receive decrypt (record { window = after history; recv_count = count }) stream)
        ≡ false
  unfolding receive try_session after
  old_not_received history count [] n h = refl
  old_not_received history count (m ∷ stream) n h = ground (
    arith,
    acceptable-is_new history m.nonce,
    old_refused history m.nonce,
    old_not_received history count stream n,
    old_not_received (m.nonce ∷ history) ((count + 1) % 2 ^ 64) stream n,
  )

  after-IsDistinct :
      (history : List ℕ) (count : ℕ) (stream : List Arrival)
      → IsDistinct (receive decrypt (record { window = after history; recv_count = count }) stream)
  unfolding receive try_session after
  after-IsDistinct history count [] = tt
  after-IsDistinct history count (m ∷ stream) = ground (
    arith,
    after-IsDistinct history count stream,
    after-IsDistinct (m.nonce ∷ history) ((count + 1) % 2 ^ 64) stream,
    old_not_received (m.nonce ∷ history) ((count + 1) % 2 ^ 64) stream m.nonce,
  )

  -- Whatever frames arrive under whatever nonces, forged, replayed or out of order, and whatever the
  -- cipher makes of each frame under its nonce, a fresh receiver accepts no nonce twice.
  pub receive-IsDistinct :
      (stream : List Arrival)
      → IsDistinct (receive decrypt (record { window = new_window; recv_count = 0 }) stream)
  receive-IsDistinct stream = unfold after in after-IsDistinct [] 0 stream
