-- ===== src/Override/Served.antt =====
-- What a request that decides several books promises to note, and the requests that it can carry out.
use wms_secret_backend.Prelude.{
  ℕ, ◌+◌, ◌≡◌, refl, ap, ◌∙◌, sym, Bool, true, false, not, ◌&&◌, ◌||◌, Option, none, some, List, [],
  ◌∷◌, ◌++◌, map, append-nil, append_assoc, String, arith, length, filter_by, length-append,
  filter_by-append,
}
use wms_secret_backend.Stock.Assign.{present}
use wms_secret_backend.Worker.{find_job}
use wms_secret_backend.Override.Session.{
  HitlOverrideRequest, AdminAuditLog, Session, Placing, placed, refused, Step, goes, fails,
}
use wms_secret_backend.Override.Submit.{Verdict, approves, rejects, rechecks, unknown, verdict_of}

-- The session goes on, with this property.
abbrev pub Goes : (Session → Type 0) → Step → Type 0
Goes P (goes s) = P s
Goes P (fails f s) = ⊥

pub Goes-mono :
    (P Q : Session → Type 0) → ((s : Session) → P s → Q s) → (st : Step) → Goes P st → Goes Q st
Goes-mono P Q f (goes s) h = f s h
Goes-mono P Q f (fails e s) h = h

abbrev pub is_some {ℓ} : {A : Type ℓ} → Option A → Bool
is_some none = false
is_some (some a) = true

abbrev pub is_known : ℕ → Session → Bool
is_known k s = is_some (find_job k s.live.world.jobs)

abbrev pub is_refused : Placing → Bool
is_refused refused = true
is_refused _ = false

abbrev pub is_placed : Placing → Bool
is_placed placed = true
is_placed _ = false

-- The verdict can be carried out: an approval has a grade of its own, and the session is not lost.
abbrev pub is_done : Placing → Option String → Verdict → Bool
is_done p grade approves = is_refused p || is_placed p && is_some grade
is_done p grade rejects = is_refused p || is_placed p
is_done p grade rechecks = true
is_done p grade unknown = false

abbrev pub fine_ticket : (ℕ → Bool) → HitlOverrideRequest → Placing → Option ℕ → Bool
fine_ticket known r p none = false
fine_ticket known r p (some k) =
    not (known k) || is_done p (present r.target_grade) (verdict_of r.decision)

-- The ticket is a key, and the verdict on a job that is there can be carried out.
abbrev pub is_fine : (ℕ → Bool) → HitlOverrideRequest × Placing → Bool
is_fine known (r, p) = fine_ticket known r p r.ticket_id

abbrev pub known_ticket : (ℕ → Bool) → Option ℕ → Bool
known_ticket known none = false
known_ticket known (some k) = known k

-- The requests for jobs that are there.
abbrev pub handled : (ℕ → Bool) → List (HitlOverrideRequest × Placing) → List HitlOverrideRequest
handled known items = filter_by (λ r. known_ticket known r.ticket_id) (map (λ i. i.0) items)

abbrev pub key_or_zero : Option ℕ → ℕ
key_or_zero none = 0
key_or_zero (some k) = k

abbrev pub ticket : HitlOverrideRequest → ℕ
ticket r = key_or_zero r.ticket_id

abbrev pub same_verdict : Verdict → Verdict → Bool
same_verdict approves approves = true
same_verdict rejects rejects = true
same_verdict rechecks rechecks = true
same_verdict _ _ = false

-- The tickets with a verdict.
abbrev pub chosen : Verdict → List HitlOverrideRequest → List ℕ
chosen v rs = map ticket (filter_by (λ r. same_verdict v (verdict_of r.decision)) rs)

abbrev pub note : HitlOverrideRequest → ℕ × String
note r = (ticket r, r.decision)

abbrev pub noted : AdminAuditLog → ℕ × String
noted a = (a.target_id, a.action)

-- What a session has after these requests.
pub record IsServed (rs : List HitlOverrideRequest) (s s' : Session) : Type 0 where
  pub same : (k : ℕ) → is_known k s' ≡ is_known k s
  pub audited : map noted s'.live.audits ≡ map noted s.live.audits ++ map note rs
  pub approvals : s'.approved_ids ≡ s.approved_ids ++ chosen approves rs
  pub rejections : s'.rejected_ids ≡ s.rejected_ids ++ chosen rejects rs
  pub rechecks : map (λ x. x.0) s'.sent ≡ map (λ x. x.0) s.sent ++ chosen rechecks rs
  pub count : s'.processed ≡ s.processed + length rs
  pub wanted : s'.live.world.wanted ≡ s.live.world.wanted

pub map-append {ℓ κ} :
    {A : Type ℓ} {B : Type κ} (f : A → B) (xs ys : List A) → map f (xs ++ ys) ≡ map f xs ++ map f ys
map-append f [] ys = refl
map-append f (x ∷ xs) ys = ap (λ zs. f x ∷ zs) (map-append f xs ys)

chosen-append :
    (v : Verdict) (rs rs' : List HitlOverrideRequest)
    → chosen v (rs ++ rs') ≡ chosen v rs ++ chosen v rs'
chosen-append v rs rs' =
    ap (map ticket) (filter_by-append (λ r. same_verdict v (verdict_of r.decision)) rs rs')
    ∙ map-append ticket (filter_by (λ r. same_verdict v (verdict_of r.decision)) rs) _

-- Two additions to a list in turn.
joined {ℓ} :
    {A : Type ℓ} (a b c x y xy : List A) → c ≡ b ++ y → b ≡ a ++ x → xy ≡ x ++ y → c ≡ a ++ xy
joined a b c x y xy p q e = p ∙ ap (λ z. z ++ y) q ∙ append_assoc a x y ∙ ap (λ z. a ++ z) (sym e)

pub IsServed-trans :
    (rs rs' : List HitlOverrideRequest) (s s' s'' : Session)
    → IsServed rs s s'
    → IsServed rs' s' s''
    → IsServed (rs ++ rs') s s''
IsServed-trans rs rs' s s' s'' h h' = record {
  same = λ k. h'.same k ∙ h.same k;
  audited = joined _ _ _ _ _ _ h'.audited h.audited (map-append note rs rs');
  approvals = joined _ _ _ _ _ _ h'.approvals h.approvals (chosen-append approves rs rs');
  rejections = joined _ _ _ _ _ _ h'.rejections h.rejections (chosen-append rejects rs rs');
  rechecks = joined _ _ _ _ _ _ h'.rechecks h.rechecks (chosen-append rechecks rs rs');
  count = let one = h.count in let two = h'.count in omega (arith, length-append rs rs');
  wanted = h'.wanted ∙ h.wanted;
}

pub IsServed-nil : (s : Session) → IsServed [] s s
IsServed-nil s = record {
  same = λ k. refl;
  audited = sym (append-nil _);
  approvals = sym (append-nil _);
  rejections = sym (append-nil _);
  rechecks = sym (append-nil _);
  count = omega arith;
  wanted = refl;
}
