-- ===== src/Picking/Same.antt =====
-- The tables that the removal of an instruction is to leave as they were.
use wms_secret_backend.Prelude.{
  ℕ, ◌≡◌, refl, ◌∙◌, Bool, true, false, Option, none, some, if◌then◌else◌,
}
use wms_secret_backend.Picking.{Order, Session, get_by}
use wms_secret_backend.Picking.Instruct.{purge_order_if_orphaned, stands_alone, delete_order}

pub record Same (s r : Session) : Type 0 where
  pub used_items : r.used_items ≡ s.used_items
  pub instructions : r.instructions ≡ s.instructions
  pub lines : r.lines ≡ s.lines
  pub notes : r.notes ≡ s.notes

pub purge-Same : (order_id : ℕ) (s : Session) → Same s (purge_order_if_orphaned order_id s).0
unfolding purge_order_if_orphaned
purge-Same order_id s = by (get_by (λ o. o.id) order_id s.orders)
  where
    same : Same s s
    same = record { used_items = refl; instructions = refl; lines = refl; notes = refl }

    purged :
        (alone : Bool)
        → let r : Session × Bool =
            (if alone then (delete_order order_id s, true) else (s, false)) in
          Same s r.0
    purged true = record { used_items = refl; instructions = refl; lines = refl; notes = refl }
    purged false = same

    by :
        (o : Option Order)
        → Same s
            (elim o as (λ _. Session × Bool) [
              | none ↦ (s, false)
              | some o ↦ if stands_alone s o then (delete_order order_id s, true) else (s, false)
            ]).0
    by none = same
    by (some o) = purged (stands_alone s o)

pub Same-trans : (a b c : Session) → Same a b → Same b c → Same a c
Same-trans a b c h k = record {
  used_items = k.used_items ∙ h.used_items;
  instructions = k.instructions ∙ h.instructions;
  lines = k.lines ∙ h.lines;
  notes = k.notes ∙ h.notes;
}
