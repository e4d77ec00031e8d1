-- ===== src/Override/Batch.antt =====
-- A request that decides several books: what it notes, and whom it asks for more.
use mathlib.Core.Path.{subst}
use wms_secret_backend.Prelude.{
  ℕ, ◌≡◌, refl, ap, ◌∙◌, sym, Bool, true, false, ◌&&◌, Option, none, some, List, [], ◌∷◌, ◌++◌, map,
  arith, length, All,
}
use wms_secret_backend.Returns.{ReturnJob}
use wms_secret_backend.Worker.{find_job}
use wms_secret_backend.Override.Session.{
  HitlOverrideRequest, Tables, Session, Desk, Placing, Step, goes, fails, Failure, bad_request,
}
use wms_secret_backend.Override.Submit.{
  error, edited, Verdict, approves, rejects, rechecks, unknown, verdict_of, decide, record_decision,
  on_job, on_ticket, on_item, run_items, opened, closed, success, Outcome, submit_hitl_override,
}
use wms_secret_backend.Override.Served.{
  Goes, Goes-mono, is_some, is_known, is_fine, handled, chosen, note, noted, IsServed,
  IsServed-trans, IsServed-nil,
}
use wms_secret_backend.Override.Noted.{Agrees, on_item-IsServed}

module _ (d : Desk) (known : ℕ → Bool) where
  handled-cons :
      (i : HitlOverrideRequest × Placing) (is : List (HitlOverrideRequest × Placing))
      → handled known (i ∷ is) ≡ handled known (i ∷ []) ++ handled known is
  handled-cons i is = ground arith

  step-IsServed :
      (i : HitlOverrideRequest × Placing) (is : List (HitlOverrideRequest × Placing)) (s : Session)
      (st : Step)
      → Agrees d known s
      → Goes (IsServed (handled known (i ∷ [])) s) st
      → ((s' : Session)
          → Agrees d known s'
          → Goes (IsServed (handled known is) s') (run_items d is s'))
      → Goes
          (IsServed (handled known (i ∷ is)) s)
          (elim st [ fails f s' ↦ fails f s' | goes s' ↦ run_items d is s' ])
  step-IsServed i is s (fails f s') agrees h rest = h
  step-IsServed i is s (goes s') agrees h rest =
      subst (λ rs. Goes (IsServed rs s) (run_items d is s')) (sym (handled-cons i is))
        (Goes-mono _ _ (λ s'' h'. IsServed-trans _ _ s s' s'' h h') (run_items d is s')
          (rest s' (λ k. h.same k ∙ agrees k)))

  run_items-IsServed :
      (is : List (HitlOverrideRequest × Placing)) (s : Session)
      → Agrees d known s
      → All (λ i. is_fine known i ≡ true) is
      → Goes (IsServed (handled known is) s) (run_items d is s)
  unfolding run_items
  run_items-IsServed [] s agrees h = IsServed-nil s
  run_items-IsServed ((r, p) ∷ is) s agrees h =
      step-IsServed (r, p) is s (on_item d (r, p) s) agrees
        (on_item-IsServed d known r p s agrees h.0)
        (λ s' agrees'. run_items-IsServed is s' agrees' h.1)

-- What a request leaves that could be carried out in full: the answer counts the requests for jobs
-- that are there, each has a row for the audit, in order; the inspections are those asked for, the
-- certificates those of the approved jobs and the proposals those of the rejected ones.
pub record IsCarriedOut (rs : List HitlOverrideRequest) (t : Tables) (out : Outcome) : Type 0 where
  reply : out.reply ≡ success (length rs)
  audited : map noted out.tables.audits ≡ map noted t.audits ++ map note rs
  inspections : map (λ x. x.0) out.inspections ≡ chosen rechecks rs
  certificates : out.certificates ≡ chosen approves rs
  proposals : out.tables.world.wanted ≡ t.world.wanted ++ chosen rejects rs

closed-IsCarriedOut :
    (rs : List HitlOverrideRequest) (t : Tables) (st : Step)
    → Goes (IsServed rs (opened t)) st
    → IsCarriedOut rs t (closed st)
closed-IsCarriedOut rs t (fails f s) h = absurd h
closed-IsCarriedOut rs t (goes s) h = record {
  reply = ap success (let count = h.count in omega arith);
  audited = h.audited;
  inspections = h.rechecks;
  certificates = h.approvals;
  proposals =
      ap (λ ks. ks ++ s.rejected_ids) h.wanted ∙ ap (λ ks. t.world.wanted ++ ks) h.rejections;
}

-- The jobs that are there before a request.
abbrev pub known_in : Tables → ℕ → Bool
known_in t k = is_known k (opened t)

-- A request is carried out in full if each of its tickets is a key, each verdict on a job that is
-- there is known, an approval has a grade of its own, and no place of a book costs the session: each
-- of its items whose job is there gets one row for the audit, in the order of the request, and the
-- queues get exactly the jobs to inspect, the approved ones and the rejected ones, once for each such
-- item. Tickets without a job are passed over.
pub submit_hitl_override-IsCarriedOut :
    (d : Desk) (items : List (HitlOverrideRequest × Placing)) (t : Tables)
    → All (λ i. is_fine (known_in t) i ≡ true) items
    → IsCarriedOut (handled (known_in t) items) t (submit_hitl_override d items t)
unfolding submit_hitl_override
submit_hitl_override-IsCarriedOut d items t h =
    closed-IsCarriedOut _ t (run_items d items (opened t))
      (run_items-IsServed d (known_in t) items (opened t) (λ k. refl) h)

abbrev IsFailed : Failure → Step → Type 0
IsFailed f (fails g s) = g ≡ f
IsFailed f (goes s) = ⊥

abbrev is_unknown : Verdict → Bool
is_unknown unknown = true
is_unknown _ = false

abbrev bad_ticket : (ℕ → Bool) → HitlOverrideRequest → Option ℕ → Bool
bad_ticket known r none = true
bad_ticket known r (some k) = known k && is_unknown (verdict_of r.decision)

-- The ticket is no key, or the decision on a job that is there is unknown.
abbrev pub is_bad : (ℕ → Bool) → HitlOverrideRequest × Placing → Bool
is_bad known (r, p) = bad_ticket known r r.ticket_id

module _ (d : Desk) (known : ℕ → Bool) where
  unknown-IsFailed :
      (r : HitlOverrideRequest) (p : Placing) (j : ReturnJob) (s : Session) (v : Verdict)
      → is_unknown v ≡ true
      → IsFailed bad_request (
          record_decision r j.status
            (edited r.edits j)
            (decide d p r j.status v (edited r.edits j) s))
  unfolding decide record_decision
  unknown-IsFailed r p j s unknown h = refl
  unknown-IsFailed r p j s approves h = absurd (cc)
  unknown-IsFailed r p j s rejects h = absurd (cc)
  unknown-IsFailed r p j s rechecks h = absurd (cc)

  job-IsFailed :
      (r : HitlOverrideRequest) (p : Placing) (s : Session) (o : Option ReturnJob)
      → (is_some o && is_unknown (verdict_of r.decision)) ≡ true
      → IsFailed bad_request (on_job d p r o s)
  job-IsFailed r p s none h = absurd (cc)
  job-IsFailed r p s (some j) h = unknown-IsFailed r p j s (verdict_of r.decision) h

  ticket-IsFailed :
      (r : HitlOverrideRequest) (p : Placing) (s : Session) (o : Option ℕ)
      → Agrees d known s
      → bad_ticket known r o ≡ true
      → IsFailed bad_request (on_ticket d p r o s)
  ticket-IsFailed r p s none agrees h = refl
  ticket-IsFailed r p s (some k) agrees h =
      job-IsFailed r p s (find_job k s.live.world.jobs)
        (ap (λ b. b && is_unknown (verdict_of r.decision)) (agrees k) ∙ h)

  first-IsFailed :
      (is : List (HitlOverrideRequest × Placing)) (st : Step)
      → IsFailed bad_request st
      → IsFailed bad_request (elim st [ fails f s' ↦ fails f s' | goes s' ↦ run_items d is s' ])
  first-IsFailed is (fails f s) h = h
  first-IsFailed is (goes s) h = absurd h

  later-IsFailed :
      (rs : List HitlOverrideRequest) (is : List (HitlOverrideRequest × Placing)) (s : Session)
      (st : Step)
      → Agrees d known s
      → Goes (IsServed rs s) st
      → ((s' : Session) → Agrees d known s' → IsFailed bad_request (run_items d is s'))
      → IsFailed bad_request (elim st [ fails f s' ↦ fails f s' | goes s' ↦ run_items d is s' ])
  later-IsFailed rs is s (fails f s') agrees h rest = absurd h
  later-IsFailed rs is s (goes s') agrees h rest = rest s' (λ k. h.same k ∙ agrees k)

  run_items-IsFailed :
      (before after : List (HitlOverrideRequest × Placing)) (i : HitlOverrideRequest × Placing)
      (s : Session)
      → Agrees d known s
      → All (λ i. is_fine known i ≡ true) before
      → is_bad known i ≡ true
      → IsFailed bad_request (run_items d (before ++ i ∷ after) s)
  unfolding run_items on_item
  run_items-IsFailed [] after (r, p) s agrees h bad =
      first-IsFailed after (on_ticket d p r r.ticket_id s)
        (ticket-IsFailed r p s r.ticket_id agrees bad)
  run_items-IsFailed ((r, p) ∷ before) after i s agrees h bad =
      later-IsFailed _ (before ++ i ∷ after) s (on_item d (r, p) s) agrees
        (on_item-IsServed d known r p s agrees h.0)
        (λ s' agrees'. run_items-IsFailed before after i s' agrees' h.1 bad)

closed-error :
    (f : Failure) (st : Step)
    → IsFailed f st
    → ((closed st).reply ≡ error f) × ((closed st).certificates ≡ [])
closed-error f (fails g s) h = (ap error h, refl)
closed-error f (goes s) h = absurd h

-- If the requests before it can be carried out, the first with a ticket that is no key, or with an
-- unknown decision on a job that is there, ends the whole request with an error, and no certificate is
-- asked for, not even for the books that were approved before it.
pub submit_hitl_override-error :
    (d : Desk) (before after : List (HitlOverrideRequest × Placing))
    (i : HitlOverrideRequest × Placing) (t : Tables)
    → All (λ i. is_fine (known_in t) i ≡ true) before
    → is_bad (known_in t) i ≡ true
    → let out = submit_hitl_override d (before ++ i ∷ after) t in
      (out.reply ≡ error bad_request) × (out.certificates ≡ [])
unfolding submit_hitl_override
submit_hitl_override-error d before after i t h bad =
    closed-error bad_request (run_items d (before ++ i ∷ after) (opened t))
      (run_items-IsFailed d (known_in t) before after i (opened t) (λ k. refl) h bad)
