-- ===== src/Picking/Restores.antt =====
-- The removal of an instruction that nobody has accepted undoes its issue.
use mathlib.Core.Path.{subst}
use wms_secret_backend.Prelude.{
  ==_refl, ℕ, ◌≡◌, refl, sym, ap, ◌∙◌, Bool, true, false, not, ◌&&◌, Option, none, some, List, [],
  ◌∷◌, ◌++◌, map, arith, ◌==◌, filter_by, filter_by-append, filter_by-nil, filter_by_self,
  append-nil, All, All-mono,
}
use text.Mathlib.Text.{◌==◌ as str_eq}
use wms_secret_backend.Picking.{PickingInstruction, PickingInstructionItem, Session}
use wms_secret_backend.Picking.Allocate.{Work, allocate_order_items}
use wms_secret_backend.Picking.Instruct.{
  is_of, instruction_for, issue, create_picking_instruction, release, undo, drop_instruction,
  delete_picking_instruction, ref_type,
}
use wms_secret_backend.Picking.Locks.{Allocates}
use wms_secret_backend.Picking.Taken.{allocate_order_items-Allocates}
use wms_secret_backend.Picking.Rest.{rest, allocate_order_items-rest}
use wms_secret_backend.Picking.Release.{
  unlock, release-rest, release-items, keyed_lines, takes-keyed, used-keyed, takes-Free,
  unlock-locks, own_keys,
}
use wms_secret_backend.Picking.Same.{Same, Same-trans, purge-Same}
use wms_secret_backend.Picking.Keys.{HasKeys}

-- The tables that the removal of an instruction is to leave as they were.
-- Nothing refers to the key of a new instruction.
pub record IsFresh (key : ℕ) (s : Session) : Type 0 where
  pub instructions : All (λ i. not (i.id == key) ≡ true) s.instructions
  pub lines : All (λ it. is_of key it.instruction_id ≡ false) s.lines
  pub notes : All (λ n. not (str_eq n.0 ref_type && (n.1 == key)) ≡ true) s.notes

kept :
    {A : Type 0} (p : A → Bool) (xs ys : List A)
    → All (λ x. p x ≡ true) xs
    → All (λ y. p y ≡ false) ys
    → filter_by p (xs ++ ys) ≡ xs
kept p xs ys h k =
    filter_by-append p xs ys ∙ rw (filter_by_self p xs h, filter_by-nil p ys k) (append-nil xs)

keyed_self :
    (key : ℕ) (its : List PickingInstructionItem)
    → All (λ it. is_of key it.instruction_id ≡ true) (keyed_lines key its)
keyed_self key [] = tt
keyed_self key (it ∷ its) = (ground arith, keyed_self key its)

own_lines :
    (key : ℕ) (ls its : List PickingInstructionItem)
    → All (λ it. is_of key it.instruction_id ≡ false) ls
    → filter_by (λ it. is_of key it.instruction_id) (ls ++ keyed_lines key its)
      ≡ keyed_lines key its
own_lines key ls its h =
    filter_by-append (λ it. is_of key it.instruction_id) ls (keyed_lines key its)
    ∙ rw
        (
          filter_by-nil (λ (it : PickingInstructionItem). is_of key it.instruction_id) ls h,
          filter_by_self (λ (it : PickingInstructionItem). is_of key it.instruction_id)
              (keyed_lines key its) (keyed_self key its),
        )
        refl

module _ (day key order_id : ℕ) (s : Session) (keyed : HasKeys s.used_items)
    (fresh : IsFresh key s) where
  abbrev work : Work
  work = allocate_order_items s order_id

  abbrev issued : Session
  issued = issue day key order_id work

  abbrev instruction : PickingInstruction
  instruction = instruction_for day key order_id work

  work-rest : rest work.session ≡ rest s
  work-rest = allocate_order_items-rest s order_id

  work-Allocates : Allocates s.used_items work
  work-Allocates = allocate_order_items-Allocates s order_id keyed

  abbrev own : List PickingInstructionItem
  own = keyed_lines key work.draft

  old_lines : work.session.lines ≡ s.lines
  old_lines = ap (λ (s : Session). s.lines) work-rest

  found : filter_by (λ it. is_of key it.instruction_id) issued.lines ≡ own
  unfolding issue
  found =
      own_lines key work.session.lines work.draft
        (subst (All (λ it. is_of key it.instruction_id ≡ false)) (sym old_lines) fresh.lines)

  undone : (undo instruction issued).used_items ≡ s.used_items
  unfolding issue
  undone =
      ap (λ ls. (release ls issued).used_items) found
      ∙ release-items own issued (used-keyed s.used_items key work.draft work-Allocates.lines)
      ∙ ap (map (unlock own)) work-Allocates.items
      ∙ unlock-locks work.draft own s.used_items (λ k. takes-keyed k key work.draft)
          (own_keys work.draft s.used_items
            (λ k. takes-Free s.used_items k work.draft work-Allocates.lines))

  undo-rest :
      ((undo instruction issued).instructions ≡ issued.instructions)
      × ((undo instruction issued).lines ≡ issued.lines)
      × ((undo instruction issued).notes ≡ issued.notes)
  undo-rest =
      let p = release-rest (filter_by (λ it. is_of key it.instruction_id) issued.lines) issued in
      (
        ap (λ (s : Session). s.instructions) p,
        ap (λ (s : Session). s.lines) p,
        ap (λ (s : Session). s.notes) p,
      )

  dropped : Same s (drop_instruction instruction (undo instruction issued))
  unfolding issue
  dropped = record {
    used_items = undone;
    instructions =
        ap (filter_by (λ j. not (j.id == key))) (undo-rest.0)
        ∙ kept (λ j. not (j.id == key)) work.session.instructions (instruction ∷ [])
            (subst (All (λ j. not (j.id == key) ≡ true)) (sym old_instructions) fresh.instructions)
            (ap not (==_refl key), tt)
        ∙ old_instructions;
    lines =
        ap (filter_by (λ it. not (is_of key it.instruction_id))) (undo-rest.1)
        ∙ kept (λ it. not (is_of key it.instruction_id)) work.session.lines own
            (All-mono (λ it. is_of key it.instruction_id ≡ false)
              (λ it. not (is_of key it.instruction_id) ≡ true) (λ it e. rw e refl)
              work.session.lines
              (subst (All (λ it. is_of key it.instruction_id ≡ false)) (sym old_lines) fresh.lines))
            (All-mono (λ it. is_of key it.instruction_id ≡ true)
              (λ it. not (is_of key it.instruction_id) ≡ false) (λ it e. rw e refl) own
              (keyed_self key work.draft))
        ∙ old_lines;
    notes =
        ap (filter_by (λ n. not (str_eq n.0 ref_type && (n.1 == key)))) (undo-rest.2)
        ∙ kept (λ n. not (str_eq n.0 ref_type && (n.1 == key))) work.session.notes
            ((ref_type, key) ∷ [])
            (subst (All (λ n. not (str_eq n.0 ref_type && (n.1 == key)) ≡ true)) (sym old_notes)
              fresh.notes)
            (ap not (==_refl key), tt)
        ∙ old_notes;
  }
    where
      old_instructions : work.session.instructions ≡ s.instructions
      old_instructions = ap (λ (s : Session). s.instructions) work-rest

      old_notes : work.session.notes ≡ s.notes
      old_notes = ap (λ (s : Session). s.notes) work-rest

  deleted : Same s (delete_picking_instruction instruction issued).0
  unfolding delete_picking_instruction
  deleted =
      Same-trans s (drop_instruction instruction (undo instruction issued)) _ dropped
        (purge-Same order_id (drop_instruction instruction (undo instruction issued)))

-- Where no two used books have the same key and the key of the new instruction is fresh: once an
-- instruction is issued and then removed before anybody accepts it, every used book has the status
-- that it had, and the instructions, their lines and the notifications are as before.
pub delete_picking_instruction-create :
    (day key order_id : ℕ) (s s' : Session)
    → HasKeys s.used_items
    → IsFresh key s
    → create_picking_instruction day key order_id s ≡ some s'
    → Same s
        (delete_picking_instruction
          (instruction_for day key order_id (allocate_order_items s order_id))
          s').0
unfolding create_picking_instruction
delete_picking_instruction-create day key order_id s s' keyed fresh e =
    by (allocate_order_items s order_id).draft e
  where
    made : Session
    made = issue day key order_id (allocate_order_items s order_id)

    by :
        (ls : List PickingInstructionItem)
        → elim ls as (λ _. Option Session) [ [] ↦ none | _ ∷ _ ↦ some made ] ≡ some s'
        → Same s
            (delete_picking_instruction
              (instruction_for day key order_id (allocate_order_items s order_id))
              s').0
    by [] e = cc
    by (_ ∷ _) e =
        subst
          (λ s'.
            Same s
              (delete_picking_instruction
                (instruction_for day key order_id (allocate_order_items s order_id)) s').0)
          (let q : made ≡ s' = ground arith in q) (deleted day key order_id s keyed fresh)
