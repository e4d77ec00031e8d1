-- ===== src/Picking/Rest.antt =====
-- What an allocation leaves alone: every table but the used books.
use wms_secret_backend.Prelude.{
  ℕ, zero, suc, max, ◌≡◌, refl, ◌∙◌, Option, none, some, List, [], ◌∷◌, ◌==◌, filter_by,
}
use wms_secret_backend.Picking.{Book, InventoryUsedItem, OrderItem, Session, get_by}
use wms_secret_backend.Picking.Allocate.{
  Work, used_rows, claim, take_used, take_new, allocate_item, allocate_items, allocate_order_items,
}

-- A session but for the used books.
abbrev pub rest : Session → Session
rest s = record s { used_items = [] }

take_used-rest :
    (b : Book) (oi : OrderItem) (us : List InventoryUsedItem) (n : ℕ) (w : Work)
    → rest (take_used b oi us n w).1.session ≡ rest w.session
unfolding take_used claim
take_used-rest b oi [] n w = refl
take_used-rest b oi (u ∷ us) zero w = refl
take_used-rest b oi (u ∷ us) (suc n) w = take_used-rest b oi us n (claim b oi u w)

take_new-rest :
    (b : Book) (oi : OrderItem) (n : ℕ) (w : Work)
    → rest (take_new b oi (n, w)).session ≡ rest w.session
unfolding take_new
take_new-rest b oi zero w = refl
take_new-rest b oi (suc n) w = refl

allocate_item-rest :
    (oi : OrderItem) (w : Work) → rest (allocate_item oi w).session ≡ rest w.session
unfolding allocate_item
allocate_item-rest oi w = by (get_by (λ b. b.id) oi.book_id w.session.books)
  where
    by :
        (o : Option Book)
        → rest
            (elim o as (λ _. Work) [
              | none ↦ w
              | some b ↦
                  take_new b oi (take_used b oi (used_rows w.session b oi) (max 1 oi.quantity) w)
            ]).session
          ≡ rest w.session
    by none = refl
    by (some b) =
        let r = take_used b oi (used_rows w.session b oi) (max 1 oi.quantity) w in
        take_new-rest b oi r.0 r.1
        ∙ take_used-rest b oi (used_rows w.session b oi) (max 1 oi.quantity) w

allocate_items-rest :
    (ois : List OrderItem) (w : Work) → rest (allocate_items ois w).session ≡ rest w.session
unfolding allocate_items
allocate_items-rest [] w = refl
allocate_items-rest (oi ∷ ois) w =
    allocate_items-rest ois (allocate_item oi w) ∙ allocate_item-rest oi w

pub allocate_order_items-rest :
    (s : Session) (order_id : ℕ) → rest (allocate_order_items s order_id).session ≡ rest s
unfolding allocate_order_items
allocate_order_items-rest s order_id =
    allocate_items-rest (filter_by (λ oi. oi.order_id == order_id) s.order_items)
      (record { session = s; draft = []; shortages = [] })
