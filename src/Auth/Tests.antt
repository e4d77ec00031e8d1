-- ===== src/Auth/Tests.antt =====
-- A server as a function of keys, and passwords, and the theorems applied to them.
use text.Mathlib.Text.{◌==◌ as str_eq}
use text.Mathlib.TextEquality.{eq_iff}
use mathlib.Core.Option.{some-injective}
use wms_secret_backend.Prelude.{
  ℕ, suc, ◌+◌, ◌-◌, ◌<◌, ◌≡◌, refl, Bool, true, false, arith, ltb, sum_of, Option, none, some, [],
  ◌∷◌, String, leb, if◌then◌else◌,
}
use wms_secret_backend.Auth.Password.{
  Text, has_sequential_run, validate_password, scan_all, scan_runs, count_character_classes,
}
use wms_secret_backend.Auth.Throttle.{
  or_zero, Redis, IsRedis, working, breaks_after, get_throttle_state, register_failure, clear,
  show_blocked,
}
use wms_secret_backend.Auth.Budget.{fail_after, get_throttle_state-fail_after}

abbrev Entry : Type 0
Entry = Option (ℕ × Option ℕ)

abbrev Store : Type 0
Store = String → Entry

abbrev set : Store → String → Entry → Store
set s k v = λ j. if str_eq j k then v else s j

abbrev value : Entry → Option ℕ
value none = none
value (some (n, t)) = some n

abbrev time : Entry → Option ℕ
time none = none
time (some (n, t)) = t

abbrev timed : ℕ → Entry → Entry
timed n none = none
timed n (some (m, t)) = some (m, some n)

abbrev server : Redis Store
server = record {
  get = λ s k. value (s k);
  incr = λ s k.
      (set s k (some (suc (or_zero (value (s k))), time (s k))), suc (or_zero (value (s k))));
  expire = λ s k n. set s k (timed n (s k));
  ttl = λ s k. time (s k);
  delete = λ s k. set s k none;
}

-- What is left of an entry as seconds pass.
abbrev aged : ℕ → Entry → Entry
aged n none = none
aged n (some (m, none)) = some (m, none)
aged n (some (m, some t)) = if ltb n t then some (m, some (t - n)) else none

abbrev pass : ℕ → Store → Store
pass n s = λ k. aged n (s k)

set_same : (s : Store) (k : String) (v : Entry) → set s k v k ≡ v
set_same s k v = rw ((eq_iff k k).1 refl) refl

server-IsRedis : IsRedis server pass
server-IsRedis = record {
  incr_count = λ s k. refl;
  incr_get = λ s k. rw (set_same s k (some (suc (or_zero (value (s k))), time (s k)))) refl;
  incr_ttl = λ s k n h. rw (set_same s k (some (suc (or_zero (value (s k))), time (s k)))) refl;
  expire_get = λ s k n. rw (set_same s k (timed (suc n) (s k))) (kept n (s k));
  expire_ttl = λ s k m n h. rw (set_same s k (timed (suc n) (s k))) (given m n (s k) h);
  delete_get = λ s k. rw (set_same s k none) refl;
  pass_get = λ s k n t h. aged_value n t (s k) h;
  pass_ttl = λ s k n t h l. aged_time n t (s k) h l;
}
  where
    kept : (n : ℕ) (e : Entry) → value (timed (suc n) e) ≡ value e
    kept n none = refl
    kept n (some e) = refl

    given : (m n : ℕ) (e : Entry) → value e ≡ some m → time (timed (suc n) e) ≡ some (suc n)
    given m n none h = cc
    given m n (some e) h = refl

    aged_value :
        (n t : ℕ) (e : Entry)
        → time e ≡ some t
        → value (aged n e) ≡ (if ltb n t then value e else none)
    aged_value n t none h = absurd (cc)
    aged_value n t (some (m, none)) h = absurd (cc)
    aged_value n t (some (m, some u)) h =
        let same : u ≡ t = some-injective _ _ h in rw same (by m (t - n) (ltb n t))
      where
        by :
            (m t : ℕ) (b : Bool)
            → value (if b then some (m, some t) else none) ≡ (if b then some m else none)
        by m t true = refl
        by m t false = refl

    aged_time : (n t : ℕ) (e : Entry) → time e ≡ some t → n < t → time (aged n e) ≡ some (t - n)
    aged_time n t none h l = absurd (cc)
    aged_time n t (some (m, none)) h l = absurd (cc)
    aged_time n t (some (m, some u)) h l =
        let same : u ≡ t = some-injective _ _ h in
        let alive : ltb n t ≡ true = ground arith in rw (same, alive) refl

abbrev empty : Store
empty k = none

-- A counter that a crash has left without a time to live.
abbrev stuck : Store
stuck = set empty "auth:fail:WM1" (some (9, none))

-- Four failures within 100 seconds, and then a look after 200 seconds more, or 201: the window has
-- passed.
get_throttle_state-fail_after_example :
    let first =
      register_failure server 5 300 working (clear server 5 300 working empty "WM1") "WM1" in
    let s' = pass 200 (fail_after server pass 5 299 (10 ∷ 40 ∷ 49 ∷ []) first.0 "WM1") in
    let shown = (get_throttle_state server 5 300 working s' "WM1").1 in
    let n : ℕ = if leb (sum_of (λ p. p) (10 ∷ 40 ∷ 49 ∷ []) + 200) 299 then 4 else 0 in
    (shown.blocked ≡ leb 5 n)
    × (shown.left ≡ 5 - n)
    × ((register_failure server 5 300 working s' "WM1").1 ≡ 5 - suc n)
get_throttle_state-fail_after_example =
    get_throttle_state-fail_after server pass server-IsRedis 5 299 (10 ∷ 40 ∷ 49 ∷ []) 200 empty
      "WM1" (omega arith)

still_open :
    (get_throttle_state server 5 300 working
      (pass 201 (
        fail_after server pass 5 299
          (10 ∷ 40 ∷ 49 ∷ [])
          (register_failure server 5 300 working empty "WM1").0
          "WM1"))
      "WM1").1.left
    ≡ 5
unfolding get_throttle_state register_failure
still_open = refl

-- Where the server breaks between the two commands of the first failure, the counter never expires.
no_time :
    server.ttl (register_failure server 5 300 (breaks_after 1) empty "WM1").0 "auth:fail:WM1" ≡ none
unfolding register_failure
no_time = refl

stuck_blocked : (get_throttle_state server 5 300 working stuck "WM1").1.blocked ≡ true
unfolding get_throttle_state show_blocked
stuck_blocked = refl

-- "abc12345!"
abbrev with_run : Text
with_run = 97 ∷ 98 ∷ 99 ∷ 49 ∷ 50 ∷ 51 ∷ 52 ∷ 53 ∷ 33 ∷ []

run_found : has_sequential_run with_run ≡ true
unfolding has_sequential_run scan_all scan_runs
run_found = refl

-- "aZ9!bY8?"
abbrev good : Text
good = 97 ∷ 90 ∷ 57 ∷ 33 ∷ 98 ∷ 89 ∷ 56 ∷ 63 ∷ []

good_passes : validate_password good (some (87 ∷ 77 ∷ 49 ∷ [])) none ≡ []
unfolding validate_password has_sequential_run scan_all scan_runs count_character_classes
good_passes = refl
