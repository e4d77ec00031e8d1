-- ===== src/Auth/Throttle.antt =====
-- app/domains/auth/throttle.py: how many sign-ins of a staff number may fail. The key-value server is
-- an interface.
use Prim.Native.String.{◌++◌ as cat}
use wms_secret_backend.Prelude.{
  ℕ, zero, suc, ◌-◌, ◌<◌, max, ◌≡◌, Bool, true, false, Option, none, some, String, ltb, ◌==◌,
  if◌then◌else◌,
}

abbrev pub or_zero : Option ℕ → ℕ
or_zero none = 0
or_zero (some n) = n

-- The commands of Redis that the code uses, on a counter: GET, INCR, EXPIRE, TTL (`none` where the
-- answer is negative) and DEL.
pub record Redis (S : Type 0) : Type 0 where
  pub get : S → String → Option ℕ
  pub incr : S → String → S × ℕ
  pub expire : S → String → ℕ → S
  pub ttl : S → String → Option ℕ
  pub delete : S → String → S

-- What Redis documents of them: INCR counts from 0 and keeps the time to live, EXPIRE sets the time
-- of a key that is there and keeps its value, DEL removes a key; and as seconds pass, `pass n`, the time
-- to live runs down, and a key is gone when it has.
pub record IsRedis {S : Type 0} (r : Redis S) (pass : ℕ → S → S) : Type 0 where
  pub incr_count : (s : S) (k : String) → (r.incr s k).1 ≡ suc (or_zero (r.get s k))
  pub incr_get : (s : S) (k : String) → r.get (r.incr s k).0 k ≡ some (r.incr s k).1
  pub incr_ttl :
      (s : S) (k : String) (n : ℕ) → r.get s k ≡ some n → r.ttl (r.incr s k).0 k ≡ r.ttl s k
  pub expire_get : (s : S) (k : String) (n : ℕ) → r.get (r.expire s k (suc n)) k ≡ r.get s k
  pub expire_ttl :
      (s : S) (k : String) (m n : ℕ)
      → r.get s k ≡ some m
      → r.ttl (r.expire s k (suc n)) k ≡ some (suc n)
  pub delete_get : (s : S) (k : String) → r.get (r.delete s k) k ≡ none
  pub pass_get :
      (s : S) (k : String) (n t : ℕ)
      → r.ttl s k ≡ some t
      → r.get (pass n s) k ≡ (if ltb n t then r.get s k else none)
  pub pass_ttl :
      (s : S) (k : String) (n t : ℕ)
      → r.ttl s k ≡ some t
      → n < t
      → r.ttl (pass n s) k ≡ some (t - n)

-- No client can be made; or so many commands are answered, and the next one raises; or the server
-- answers.
pub data Connection : Type 0 where
  no_client working : Connection
  breaks_after : ℕ → Connection

-- Whether sign-in is blocked, the attempts left, and the seconds until it is open again.
pub record ThrottleState : Type 0 where
  pub blocked : Bool
  pub left : ℕ
  pub wait : ℕ

abbrev pub key : String → String
key employee_id = cat "auth:fail:" employee_id

abbrev pub open_state : ℕ → ThrottleState
open_state left = record { blocked = false; left = left; wait = 0 }

abbrev pub blocked_state : ℕ → ThrottleState
blocked_state wait = record { blocked = true; left = 0; wait = wait }

-- `max_attempts` and `window` are LOGIN_FAIL_MAX_ATTEMPTS and LOGIN_FAIL_WINDOW_SECONDS.
module _ {S : Type 0} (r : Redis S) (max_attempts window : ℕ) where
  -- A counter without a time to live gets one, so that it blocks nobody for ever.
  unfoldable pub show_blocked : S → String → S × ThrottleState
  show_blocked s k = elim (r.ttl s k) [
    | some wait ↦ (s, blocked_state wait)
    | none ↦ (r.expire s k window, blocked_state window)
  ]

  -- Where the server breaks behind the first command, after so many commands more.
  abbrev show_broken : ℕ → S → String → S × ThrottleState
  show_broken zero s k = (s, open_state max_attempts)
  show_broken (suc zero) s k = elim (r.ttl s k) [
    | some wait ↦ (s, blocked_state wait)
    | none ↦ (s, open_state max_attempts)
  ]
  show_broken (suc (suc n)) s k = show_blocked s k

  abbrev pub fails : S → String → ℕ
  fails s id = or_zero (r.get s (key id))

  unfoldable pub get_throttle_state : Connection → S → String → S × ThrottleState
  unfolding show_blocked
  get_throttle_state no_client s id = (s, open_state max_attempts)
  get_throttle_state (breaks_after zero) s id = (s, open_state max_attempts)
  get_throttle_state (breaks_after (suc n)) s id =
      if ltb (fails s id) max_attempts
      then (s, open_state (max_attempts - fails s id))
      else show_broken n s (key id)
  get_throttle_state working s id =
      if ltb (fails s id) max_attempts
      then (s, open_state (max_attempts - fails s id))
      else show_blocked s (key id)

  -- Only the first failure sets the time to live. Where the server breaks between the two commands, the
  -- counter is left without one.
  unfoldable pub register_failure : Connection → S → String → S × ℕ
  register_failure no_client s id = (s, max_attempts)
  register_failure (breaks_after zero) s id = (s, max_attempts)
  register_failure (breaks_after (suc zero)) s id =
      let (s', fails) = r.incr s (key id) in
      (s', if fails == 1 then max_attempts else max 0 (max_attempts - fails))
  register_failure (breaks_after (suc (suc n))) s id =
      let (s', fails) = r.incr s (key id) in
      (if fails == 1 then r.expire s' (key id) window else s', max 0 (max_attempts - fails))
  register_failure working s id =
      let (s', fails) = r.incr s (key id) in
      (if fails == 1 then r.expire s' (key id) window else s', max 0 (max_attempts - fails))

  unfoldable pub clear : Connection → S → String → S
  clear no_client s id = s
  clear (breaks_after zero) s id = s
  clear (breaks_after (suc n)) s id = r.delete s (key id)
  clear working s id = r.delete s (key id)
