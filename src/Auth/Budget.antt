-- ===== src/Auth/Budget.antt =====
-- The budget of failed sign-ins.
use wms_secret_backend.Prelude.{
  ℕ, suc, ◌+◌, ◌-◌, ◌≤◌, ◌<◌, max, ◌≡◌, refl, ap, ◌∙◌, inl, inr, true, false, Option, none, some,
  String, List, [], ◌∷◌, length, sum_of, arith, ltb, leb, ◌==◌, if◌then◌else◌, Bool-cases,
}
use wms_secret_backend.Auth.Throttle.{
  or_zero, fails, Redis, IsRedis, working, ThrottleState, key, open_state, blocked_state,
  show_blocked, get_throttle_state, register_failure, clear,
}

module _ {S : Type 0} (r : Redis S) (pass : ℕ → S → S) (max_attempts window : ℕ) where
  abbrev pub fail : S → String → S × ℕ
  fail s id = register_failure r max_attempts (suc window) working s id

  abbrev pub show : S → String → S × ThrottleState
  show s id = get_throttle_state r max_attempts (suc window) working s id

  -- A failure after each of the pauses.
  abbrev pub fail_after : List ℕ → S → String → S
  fail_after [] s id = s
  fail_after (p ∷ ps) s id = fail_after ps (fail (pass p s) id).0 id

module _ {S : Type 0} (r : Redis S) (pass : ℕ → S → S) (laws : IsRedis r pass)
    (max_attempts window : ℕ) (id : String) where
  -- A counter that shows `n` failures and lives for `t` seconds.
  abbrev Counts : ℕ → ℕ → S → Type 0
  Counts n t s = (r.get s (key id) ≡ some n) × (r.ttl s (key id) ≡ some t)

  fail-count :
      (s : S)
      → (fail r pass max_attempts window s id).1
        ≡ max_attempts - suc (fails r max_attempts window s id)
  unfolding register_failure
  fail-count s = ap (λ n. max 0 (max_attempts - n)) (laws.incr_count s (key id)) ∙ omega arith

  first-Counts :
      (s : S)
      → r.get s (key id) ≡ none
      → Counts 1 (suc window) (fail r pass max_attempts window s id).0
  unfolding register_failure
  first-Counts s e =
      let count : (r.incr s (key id)).1 ≡ 1 =
        laws.incr_count s (key id) ∙ ap (λ o. suc (or_zero o)) e in
      let got : r.get (r.incr s (key id)).0 (key id) ≡ some 1 =
        laws.incr_get s (key id) ∙ ap some count in
      rw count (
        laws.expire_get (r.incr s (key id)).0 (key id) window ∙ got,
        laws.expire_ttl (r.incr s (key id)).0 (key id) 1 window got,
      )

  next-Counts :
      (s : S) (n t : ℕ)
      → Counts (suc n) t s
      → Counts (suc (suc n)) t (fail r pass max_attempts window s id).0
  unfolding register_failure
  next-Counts s n t (g, e) =
      let count : (r.incr s (key id)).1 ≡ suc (suc n) =
        laws.incr_count s (key id) ∙ ap (λ o. suc (or_zero o)) g in
      let other : ((r.incr s (key id)).1 == 1) ≡ false = rw count (ground arith) in
      rw other (laws.incr_get s (key id) ∙ ap some count, laws.incr_ttl s (key id) (suc n) g ∙ e)

  pass-Counts : (s : S) (n t p : ℕ) → p < t → Counts n t s → Counts n (t - p) (pass p s)
  pass-Counts s n t p l (g, e) =
      let alive : ltb p t ≡ true = ground arith in
      (laws.pass_get s (key id) p t e ∙ rw alive g, laws.pass_ttl s (key id) p t e l)

  fail_after-Counts :
      (ps : List ℕ) (s : S) (n t : ℕ)
      → sum_of (λ p. p) ps < t
      → Counts (suc n) t s
      → Counts
          (length ps + suc n)
          (t - sum_of (λ p. p) ps)
          (fail_after r pass max_attempts window ps s id)
  fail_after-Counts [] s n t l c =
      let count : suc n ≡ 0 + suc n = omega arith in
      let time : t ≡ t - 0 = omega arith in (c.0 ∙ ap some count, c.1 ∙ ap some time)
  fail_after-Counts (p ∷ ps) s n t l c =
      let next =
        next-Counts (pass p s) n (t - p) (pass-Counts s (suc n) t p (omega (arith, l)) c) in
      let rest = fail_after-Counts ps _ (suc n) (t - p) (omega (arith, l)) next in
      let count : length ps + suc (suc n) ≡ suc (length ps) + suc n = omega arith in
      let time : t - p - sum_of (λ p. p) ps ≡ t - (p + sum_of (λ p. p) ps) = omega arith in
      (rest.0 ∙ ap some count, rest.1 ∙ ap some time)

  -- Whether sign-in is blocked, and the attempts left, follow from the count of failures.
  show-fails :
      (s : S)
      → ((show r pass max_attempts window s id).1.blocked
          ≡ leb max_attempts (fails r max_attempts (suc window) s id))
        × ((show r pass max_attempts window s id).1.left
            ≡ max_attempts - fails r max_attempts (suc window) s id)
  unfolding get_throttle_state show_blocked
  show-fails s = by (r.ttl s (key id)) (fails r max_attempts (suc window) s id)
    where
      by :
          (o : Option ℕ) (n : ℕ)
          → let shown : S × ThrottleState =
              (if ltb n max_attempts
                then (s, open_state (max_attempts - n))
                else (elim o as (λ _. S × ThrottleState) [
                  | some wait ↦ (s, blocked_state wait)
                  | none ↦ (r.expire s (key id) (suc window), blocked_state (suc window))
                ])) in
            (shown.1.blocked ≡ leb max_attempts n) × (shown.1.left ≡ max_attempts - n)
      by none n = ground arith
      by (some wait) n = ground arith

  -- The failures that still count, `q` seconds after the last one.
  counted :
      (ps : List ℕ) (q : ℕ) (s : S)
      → r.get s (key id) ≡ none
      → sum_of (λ p. p) ps ≤ window
      → let s' =
          fail_after r pass max_attempts window ps (fail r pass max_attempts window s id).0 id in
        fails r max_attempts (suc window) (pass q s') id
        ≡ (if leb (sum_of (λ p. p) ps + q) window then suc (length ps) else 0)
  counted ps q s e l =
      let c =
        fail_after-Counts ps (fail r pass max_attempts window s id).0 0 (suc window)
          (omega (arith, l)) (first-Counts s e) in
      ap or_zero (laws.pass_get _ (key id) q _ c.1) ∙ by (sum_of (λ p. p) ps) (length ps) l c.0
    where
      by :
          {o : Option ℕ} (m n : ℕ)
          → m ≤ window
          → o ≡ some (n + 1)
          → or_zero (if ltb q (suc window - m) then o else none)
            ≡ (if leb (m + q) window then suc n else 0)
      by m n l e = rw e (elim (Bool-cases (ltb q (suc window - m))) [
        | inl t ↦
            let u : leb (m + q) window ≡ true = ground (arith, t, l) in rw (t, u) (omega arith)
        | inr t ↦ let u : leb (m + q) window ≡ false = ground (arith, t, l) in rw (t, u) refl
      ])

-- With a server that keeps to what Redis documents and a window of at least a second: after a sign-in
-- that succeeds, sign-ins fail, and all of them within the window that the first opens. As long as the
-- window is open, sign-in is blocked exactly when at least the number of attempts allowed have failed,
-- and the attempts shown as left, and those that the next failure answers with, are that number less
-- the failures; once the window has passed, all of the failures are forgotten.
pub get_throttle_state-fail_after :
    {S : Type 0} (r : Redis S) (pass : ℕ → S → S) (laws : IsRedis r pass) (max_attempts window : ℕ)
    (ps : List ℕ) (q : ℕ) (s : S) (id : String)
    → sum_of (λ p. p) ps ≤ window
    → let first =
        register_failure r max_attempts
          (suc window)
          working
          (clear r max_attempts (suc window) working s id)
          id in
      let s' = pass q (fail_after r pass max_attempts window ps first.0 id) in
      let shown = (get_throttle_state r max_attempts (suc window) working s' id).1 in
      let n = if leb (sum_of (λ p. p) ps + q) window then suc (length ps) else 0 in
      (shown.blocked ≡ leb max_attempts n)
      × (shown.left ≡ max_attempts - n)
      × ((register_failure r max_attempts (suc window) working s' id).1 ≡ max_attempts - suc n)
unfolding clear
get_throttle_state-fail_after r pass laws max_attempts window ps q s id l =
    let cleared = r.delete s (key id) in
    let first = fail r pass max_attempts window cleared id in
    let s' = pass q (fail_after r pass max_attempts window ps first.0 id) in
    let count =
      counted r pass laws max_attempts window id ps q cleared (laws.delete_get s (key id)) l in
    let shown = show-fails r pass laws max_attempts window id s' in
    (
      shown.0 ∙ ap (leb max_attempts) count,
      shown.1 ∙ ap (λ n. max_attempts - n) count,
      fail-count r pass laws max_attempts window id s' ∙ ap (λ n. max_attempts - suc n) count,
    )

-- Where at least one attempt is allowed and whatever the store holds, a counter that blocks a sign-in has a time to live once the block has
-- been shown, and it is the time shown: nobody stays locked out for ever.
get_throttle_state-expires :
    {S : Type 0} (r : Redis S) (pass : ℕ → S → S) (laws : IsRedis r pass) (max_attempts window : ℕ)
    (s : S) (id : String)
    → (get_throttle_state r (suc max_attempts) (suc window) working s id).1.blocked ≡ true
    → r.ttl (get_throttle_state r (suc max_attempts) (suc window) working s id).0 (key id)
      ≡ some (get_throttle_state r (suc max_attempts) (suc window) working s id).1.wait
unfolding get_throttle_state show_blocked
get_throttle_state-expires {S} r pass laws max_attempts window s id =
    by (r.get s (key id)) (r.ttl s (key id)) refl refl
  where
    late :
        (g o : Option ℕ)
        → r.get s (key id) ≡ g
        → r.ttl s (key id) ≡ o
        → ltb (or_zero g) (suc max_attempts) ≡ false
        → let x : S × ThrottleState = (elim o as (λ _. S × ThrottleState) [
          | some wait ↦ (s, blocked_state wait)
          | none ↦ (r.expire s (key id) (suc window), blocked_state (suc window))
        ]) in
          r.ttl x.0 (key id) ≡ some x.1.wait
    late none o p q e = absurd (ground arith)
    late (some m) none p q e = laws.expire_ttl s (key id) m window p
    late (some m) (some wait) p q e = q

    by :
        (g o : Option ℕ)
        → r.get s (key id) ≡ g
        → r.ttl s (key id) ≡ o
        → let x : S × ThrottleState =
            (if ltb (or_zero g) (suc max_attempts)
              then (s, open_state (suc max_attempts - or_zero g))
              else (elim o as (λ _. S × ThrottleState) [
                | some wait ↦ (s, blocked_state wait)
                | none ↦ (r.expire s (key id) (suc window), blocked_state (suc window))
              ])) in
          x.1.blocked ≡ true → r.ttl x.0 (key id) ≡ some x.1.wait
    by g o p q = elim (Bool-cases (ltb (or_zero g) (suc max_attempts))) [
      | inl e ↦ rw e (λ h. absurd (ground arith))
      | inr e ↦ rw e (λ h. late g o p q e)
    ]
