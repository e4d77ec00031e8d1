-- ===== src/Override/Noted.antt =====
-- What one decision of a person notes.
use mathlib.Core.Path.{subst}
use wms_secret_backend.Prelude.{
  ℕ, ◌≡◌, refl, ap, ◌∙◌, sym, Bool, true, false, not, ◌||◌, Option, none, some, List, [], ◌∷◌, ◌++◌,
  map, append-nil, String, arith, if◌then◌else◌,
}
use wms_secret_backend.Stock.Assign.{Assignment, present}
use wms_secret_backend.Returns.{JobStatus, ReturnJob}
use wms_secret_backend.Worker.{find_job, set_job}
use wms_secret_backend.Override.Session.{
  HitlOverrideRequest, Session, Desk, Placing, placed, refused, broken, Step, goes, fails, place,
}
use wms_secret_backend.Override.Submit.{
  or_suggested, edited, approve, reject, recheck, Verdict, approves, rejects, rechecks, unknown,
  verdict_of, decide, commented, record_decision, on_job, on_ticket, on_item,
}
use wms_secret_backend.Override.Rows.{found_id, edited_id}
use wms_secret_backend.Override.Served.{
  Goes, is_some, is_known, is_done, fine_ticket, is_fine, known_ticket, key_or_zero, handled,
  ticket, same_verdict, chosen, noted, IsServed, map-append, IsServed-nil,
}

-- The sessions differ at most in the stock and in the rows of the jobs that are there.
record IsLike (s s' : Session) : Type 0 where
  pub same : (k : ℕ) → is_known k s' ≡ is_known k s
  pub audits : s'.live.audits ≡ s.live.audits
  pub approvals : s'.approved_ids ≡ s.approved_ids
  pub rejections : s'.rejected_ids ≡ s.rejected_ids
  pub sent : s'.sent ≡ s.sent
  pub count : s'.processed ≡ s.processed
  pub wanted : s'.live.world.wanted ≡ s.live.world.wanted

IsLike-refl : (s : Session) → IsLike s s
IsLike-refl s = record {
  same = λ k. refl;
  audits = refl;
  approvals = refl;
  rejections = refl;
  sent = refl;
  count = refl;
  wanted = refl;
}

place-IsLike :
    (p : Placing) (grade suggested : Option String) (a : String → Assignment) (s : Session)
    → (is_done p grade approves ≡ true)
    → Goes (IsLike s) (place p (or_suggested grade suggested) a s)
unfolding place
place-IsLike refused grade suggested a s e = IsLike-refl s
place-IsLike broken grade suggested a s e = absurd (cc)
place-IsLike placed none suggested a s e = absurd (cc)
place-IsLike placed (some g) suggested a s e = record {
  same = λ k. refl;
  audits = refl;
  approvals = refl;
  rejections = refl;
  sent = refl;
  count = refl;
  wanted = refl;
}

known-set_job :
    (f : ReturnJob → ReturnJob) (k' : ℕ)
    → ((j : ReturnJob) → j.id ≡ k' → (f j).id ≡ j.id)
    → (k : ℕ) (js : List ReturnJob)
    → is_some (find_job k (set_job k' f js)) ≡ is_some (find_job k js)
known-set_job f k' same k [] = refl
known-set_job f k' same k (j ∷ js) = ground (arith, same j, known-set_job f k' same k js)

-- The decision is taken and not yet noted.
record IsMarked (r : HitlOverrideRequest) (s s' : Session) : Type 0 where
  pub same : (k : ℕ) → is_known k s' ≡ is_known k s
  pub audits : s'.live.audits ≡ s.live.audits
  pub approvals : s'.approved_ids ≡ s.approved_ids ++ chosen approves (r ∷ [])
  pub rejections : s'.rejected_ids ≡ s.rejected_ids ++ chosen rejects (r ∷ [])
  pub sent : map (λ x. x.0) s'.sent ≡ map (λ x. x.0) s.sent ++ chosen rechecks (r ∷ [])
  pub count : s'.processed ≡ s.processed
  pub wanted : s'.live.world.wanted ≡ s.live.world.wanted

module _ (r : HitlOverrideRequest) (previous : JobStatus) (j : ReturnJob) (key : j.id ≡ ticket r)
    (s : Session) where
  record_decision-IsServed :
      (s1 : Session) (st : Step)
      → IsMarked r s s1
      → Goes (IsLike s1) st
      → Goes (IsServed (r ∷ []) s) (record_decision r previous j st)
  unfolding record_decision
  record_decision-IsServed s1 (fails f s2) m l = absurd l
  record_decision-IsServed s1 (goes s2) m l = record {
    same = λ k.
        known-set_job (commented r) j.id (λ i e. refl) k s2.live.world.jobs ∙ l.same k ∙ m.same k;
    audited =
        map-append noted s2.live.audits _
        ∙ ap (λ xs. map noted xs ++ (j.id, r.decision) ∷ []) (l.audits ∙ m.audits)
        ∙ ap (λ k. map noted s.live.audits ++ (k, r.decision) ∷ []) key;
    approvals = l.approvals ∙ m.approvals;
    rejections = l.rejections ∙ m.rejections;
    rechecks = ap (map (λ x. x.0)) l.sent ∙ m.sent;
    count = let one = l.count in let two = m.count in omega arith;
    wanted = l.wanted ∙ m.wanted;
  }

  -- The ticket is chosen by its own verdict alone.
  joins :
      (v w : Verdict) (ks : List ℕ)
      → verdict_of r.decision ≡ v
      → same_verdict w v ≡ true
      → ks ++ j.id ∷ [] ≡ ks ++ chosen w (r ∷ [])
  joins v w ks e h = rw (e, h) (ap (λ k. ks ++ k ∷ []) key)

  leaves :
      (v w : Verdict) (ks : List ℕ)
      → verdict_of r.decision ≡ v
      → same_verdict w v ≡ false
      → ks ≡ ks ++ chosen w (r ∷ [])
  leaves v w ks e h = rw (e, h) (sym (append-nil ks))

  module _ (d : Desk) (p : Placing) where
    decide-IsServed :
        (v : Verdict)
        → verdict_of r.decision ≡ v
        → is_done p (present r.target_grade) v ≡ true
        → Goes (IsServed (r ∷ []) s) (record_decision r previous j (decide d p r previous v j s))
    unfolding decide approve reject recheck
    decide-IsServed unknown e h = absurd (cc)
    decide-IsServed approves e h =
        record_decision-IsServed _ _
          (record {
            same = λ k. known-set_job _ j.id (λ i q. sym q) k s.live.world.jobs;
            audits = refl;
            approvals = joins approves approves s.approved_ids e refl;
            rejections = leaves approves rejects s.rejected_ids e refl;
            sent = leaves approves rechecks _ e refl;
            count = refl;
            wanted = refl;
          })
          (place-IsLike p (present r.target_grade) j.agent_logs.suggested_grade _ _ h)
    decide-IsServed rejects e h =
        record_decision-IsServed _ _
          (record {
            same = λ k. known-set_job _ j.id (λ i q. sym q) k s.live.world.jobs;
            audits = refl;
            approvals = leaves rejects approves s.approved_ids e refl;
            rejections = joins rejects rejects s.rejected_ids e refl;
            sent = leaves rejects rechecks _ e refl;
            count = refl;
            wanted = refl;
          })
          (place-IsLike p (some "REJECT") none _ _ (ground (arith, h)))
    decide-IsServed rechecks e h =
        record_decision-IsServed _ _
          (record {
            same = λ k. known-set_job _ j.id (λ i q. sym q) k s.live.world.jobs;
            audits = refl;
            approvals = leaves rechecks approves s.approved_ids e refl;
            rejections = leaves rechecks rejects s.rejected_ids e refl;
            sent = map-append (λ x. x.0) s.sent _ ∙ joins rechecks rechecks _ e refl;
            count = refl;
            wanted = refl;
          })
          (IsLike-refl _)

module _ (d : Desk) (known : ℕ → Bool) where
  -- The jobs that are there.
  abbrev pub Agrees : Session → Type 0
  Agrees s = (k : ℕ) → is_known k s ≡ known k

  module _ (r : HitlOverrideRequest) (p : Placing) (s : Session) (agrees : Agrees s) where
    abbrev pub one : List HitlOverrideRequest
    one = handled known ((r, p) ∷ [])

    found-IsServed :
        (k : ℕ) (o : Option ReturnJob)
        → r.ticket_id ≡ some k
        → find_job k s.live.world.jobs ≡ o
        → fine_ticket known r p (some k) ≡ true
        → Goes (IsServed one s) (on_job d p r o s)
    found-IsServed k none t e h =
        let absent : known k ≡ false = sym (agrees k) ∙ ap is_some e in
        subst (λ rs. IsServed rs s s)
          (sym (
            ap (λ o. if known_ticket known o then r ∷ [] else []) t
            ∙ ap (λ b. if b then r ∷ [] else []) absent))
          (IsServed-nil s)
    found-IsServed k (some j) t e h =
        let there : known k ≡ true = sym (agrees k) ∙ ap is_some e in
        let key : (edited r.edits j).id ≡ ticket r =
          edited_id r.edits j ∙ found_id k s.live.world.jobs j e ∙ sym (ap key_or_zero t) in
        let can =
          ap (λ b. not b || is_done p (present r.target_grade) (verdict_of r.decision)) (sym there)
          ∙ h in
        subst (λ rs. Goes (IsServed rs s) (on_job d p r (some j) s))
          (sym (
            ap (λ o. if known_ticket known o then r ∷ [] else []) t
            ∙ ap (λ b. if b then r ∷ [] else []) there))
          (decide-IsServed r j.status (edited r.edits j) key s d p (verdict_of r.decision) refl can)

    ticket-IsServed :
        (o : Option ℕ)
        → r.ticket_id ≡ o
        → fine_ticket known r p o ≡ true
        → Goes (IsServed one s) (on_ticket d p r o s)
    ticket-IsServed none t h = absurd (cc)
    ticket-IsServed (some k) t h = found-IsServed k (find_job k s.live.world.jobs) t refl h

    pub on_item-IsServed : is_fine known (r, p) ≡ true → Goes (IsServed one s) (on_item d (r, p) s)
    unfolding on_item
    on_item-IsServed h = ticket-IsServed r.ticket_id refl h
