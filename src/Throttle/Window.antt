-- ===== src/Throttle/Window.antt =====
-- What the throttle has on record for a key, against a list of tries that it let through.
use selfremote.Common.{
  ℕ, ◌+◌, ◌≤◌, ◌<◌, ◌≡◌, refl, sym, ◌∙◌, ap, Bool, true, false, String, str_eq, List, [], ◌∷◌, ◌++◌,
  if◌then◌else◌, length, length-append, arith, Bool-cases, inl, inr,
}
use selfremote.Engine.Heap.{insert}
use selfremote.Engine.Names.{lookup-insert, lookup-remove, str_eq_sound}
use selfremote.Throttle.{Throttle, recent, or_empty, tries_of, allowed, note_try, reset}

module _ (window : ℕ) where
  recent-append :
      (now t : ℕ) (ts : List ℕ)
      → recent window now (ts ++ (t ∷ [])) ≡ recent window now ts ++ recent window now (t ∷ [])
  unfolding recent
  recent-append now t [] = refl
  recent-append now t (x ∷ ts) = ground (arith, recent-append now t ts)

  recent-recent :
      (now later : ℕ) (ts : List ℕ)
      → now ≤ later
      → recent window later (recent window now ts) ≡ recent window later ts
  unfolding recent
  recent-recent now later [] h = refl
  recent-recent now later (x ∷ ts) h = ground (arith, h, recent-recent now later ts h)

  length-recent :
      (now later : ℕ) (ts : List ℕ)
      → now ≤ later
      → length (recent window later ts) ≤ length (recent window now ts)
  unfolding recent
  length-recent now later [] h = omega arith
  length-recent now later (x ∷ ts) h = ground (arith, h, length-recent now later ts h)

length-recent_one : (window now t : ℕ) → length (recent window now (t ∷ [])) ≤ 1
unfolding recent
length-recent_one window now t = ground arith

-- From `last` on, of the tries that are recorded for the key there are at least as many recent ones as
-- of those of `past`, and of the latter no more than the limit.
pub record IsKept (window most : ℕ) (key : String) (last : ℕ) (past : List ℕ) (l : Throttle)
    : Type 0 where
  same_window : l.window ≡ window
  same_most : l.most ≡ most
  stored :
      (now : ℕ)
      → last ≤ now
      → length (recent window now past) ≤ length (recent window now (tries_of l key))
  pub few : (now : ℕ) → last ≤ now → length (recent window now past) ≤ most

tries_of-insert :
    (l : Throttle) (k key : String) (ts : List ℕ)
    → tries_of (record l { tries = insert str_eq k ts l.tries }) key
      ≡ (if str_eq k key then ts else tries_of l key)
tries_of-insert l k key ts =
    ap or_empty (lookup-insert key k ts l.tries) ∙ elim (Bool-cases (str_eq k key)) [
      | inl same ↦ ground (arith, same)
      | inr other ↦ ground (arith, other)
    ]

tries_of-reset :
    (l : Throttle) (k key : String)
    → tries_of (reset l k) key ≡ (if str_eq k key then [] else tries_of l key)
unfolding reset
tries_of-reset l k key =
    ap or_empty (lookup-remove key k l.tries) ∙ elim (Bool-cases (str_eq k key)) [
      | inl same ↦ ground (arith, same)
      | inr other ↦ ground (arith, other)
    ]

length-recent_append :
    (window now t : ℕ) (ts : List ℕ)
    → length (recent window now (ts ++ (t ∷ [])))
      ≡ length (recent window now ts) + length (recent window now (t ∷ []))
length-recent_append window now t ts =
    ap length (recent-append window now t ts)
    ∙ length-append (recent window now ts) (recent window now (t ∷ []))

module _ (window most : ℕ) (key : String) where
  -- A later time, and fewer tries to account for.
  pub later-IsKept :
      (last t : ℕ) (past : List ℕ) (l : Throttle)
      → last ≤ t
      → IsKept window most key last past l
      → IsKept window most key t past l
  later-IsKept last t past l order h = record {
    same_window = h.same_window;
    same_most = h.same_most;
    stored = λ now later. h.stored now (omega (arith, order, later));
    few = λ now later. h.few now (omega (arith, order, later));
  }

  pub none-IsKept :
      (last : ℕ) (l : Throttle)
      → l.window ≡ window
      → l.most ≡ most
      → IsKept window most key last [] l
  unfolding recent
  none-IsKept last l same_window same_most = record {
    same_window = same_window;
    same_most = same_most;
    stored = λ now later. omega arith;
    few = λ now later. omega arith;
  }

  pub forget-IsKept :
      (last : ℕ) (past : List ℕ) (l : Throttle) (b : Bool)
      → IsKept window most key last past l
      → IsKept window most key last (if b then [] else past) l
  forget-IsKept last past l true h = none-IsKept last l h.same_window h.same_most
  forget-IsKept last past l false h = h

  -- Whoever asks, what is recent of the key's tries stays.
  pub allowed-IsKept :
      (k : String) (t : ℕ) (past : List ℕ) (l : Throttle)
      → IsKept window most key t past l
      → IsKept window most key t past (allowed l k t).0
  unfolding allowed
  allowed-IsKept k t past l h = record {
    same_window = h.same_window;
    same_most = h.same_most;
    stored = λ now later.
        let kept = recent l.window t (tries_of l k) in
        let there = tries_of-insert l k key kept in
        elim (Bool-cases (str_eq k key)) [
          | inl same ↦
              let name = str_eq_sound k key same in
              let now_kept : tries_of (allowed l k t).0 key ≡ recent window t (tries_of l key) =
                there
                ∙ (ap (λ b. if b then kept else tries_of l key) same
                    ∙ (ap (λ x. recent l.window t (tries_of l x)) name
                        ∙ ap (λ w. recent w t (tries_of l key)) h.same_window)) in
              omega (
                arith,
                h.stored now later,
                ap (λ ts. length (recent window now ts)) now_kept,
                ap length (recent-recent window t now (tries_of l key) later),
              )
          | inr other ↦
              let same : tries_of (allowed l k t).0 key ≡ tries_of l key =
                there ∙ ap (λ b. if b then kept else tries_of l key) other in
              omega (arith, h.stored now later, ap (λ ts. length (recent window now ts)) same)
        ];
    few = h.few;
  }

  pub reset-IsKept :
      (k : String) (t : ℕ) (past : List ℕ) (l : Throttle)
      → IsKept window most key t past l
      → IsKept window most key t (if str_eq k key then [] else past) (reset l k)
  unfolding reset recent
  reset-IsKept k t past l h = elim (Bool-cases (str_eq k key)) [
    | inl same ↦ rw same (none-IsKept t (reset l k) h.same_window h.same_most)
    | inr other ↦ rw other (record {
      same_window = h.same_window;
      same_most = h.same_most;
      stored = λ now later.
          let same : tries_of (reset l k) key ≡ tries_of l key =
            tries_of-reset l k key ∙ ap (λ b. if b then [] else tries_of l key) other in
          omega (arith, h.stored now later, ap (λ ts. length (recent window now ts)) same);
      few = h.few;
    })
  ]

  -- A wrong guess that was let through is recorded, and still among the most.
  pub wrong-IsKept :
      (k : String) (t : ℕ) (past : List ℕ) (l : Throttle)
      → IsKept window most key t past l
      → (str_eq k key ≡ true → length (recent window t (tries_of l key)) < most)
      → IsKept window most key t (if str_eq k key then past ++ (t ∷ []) else past) (note_try l k t)
  unfolding note_try
  wrong-IsKept k t past l h below = elim (Bool-cases (str_eq k key)) [
    | inl same ↦ rw same (record {
      same_window = h.same_window;
      same_most = h.same_most;
      stored = λ now later.
          let noted : tries_of (note_try l k t) key ≡ tries_of l key ++ (t ∷ []) =
            tries_of-insert l k key (tries_of l k ++ (t ∷ []))
            ∙ (ap (λ b. if b then tries_of l k ++ (t ∷ []) else tries_of l key) same
                ∙ ap (λ x. tries_of l x ++ (t ∷ [])) (str_eq_sound k key same)) in
          omega (
            arith,
            h.stored now later,
            ap (λ ts. length (recent window now ts)) noted,
            length-recent_append window now t past,
            length-recent_append window now t (tries_of l key),
          );
      few = λ now later. omega (
        arith,
        length-recent window t now (past ++ (t ∷ [])) later,
        length-recent_append window t t past,
        length-recent_one window t t,
        h.stored t (omega arith),
        below same,
      );
    })
    | inr other ↦ rw other (record {
      same_window = h.same_window;
      same_most = h.same_most;
      stored = λ now later.
          let same : tries_of (note_try l k t) key ≡ tries_of l key =
            tries_of-insert l k key (tries_of l k ++ (t ∷ []))
            ∙ ap (λ b. if b then tries_of l k ++ (t ∷ []) else tries_of l key) other in
          omega (arith, h.stored now later, ap (λ ts. length (recent window now ts)) same);
      few = h.few;
    })
  ]

  -- What `allowed` has promised to a recorded try.
  pub below :
      (k : String) (t : ℕ) (past : List ℕ) (l : Throttle)
      → IsKept window most key t past l
      → (allowed l k t).1 ≡ true
      → str_eq k key ≡ true
      → length (recent window t (tries_of (allowed l k t).0 key)) < most
  unfolding allowed
  below k t past l h ok same =
      let name = str_eq_sound k key same in
      let kept = recent l.window t (tries_of l k) in
      let there : recent window t (tries_of (allowed l k t).0 key) ≡ kept =
        ap (recent window t)
          (tries_of-insert l k key kept ∙ ap (λ b. if b then kept else tries_of l key) same)
        ∙ (ap (λ w. recent w t kept) (sym h.same_window)
            ∙ recent-recent l.window t t (tries_of l k) (omega arith)) in
      ground (arith, ok, ap length there, h.same_most)
