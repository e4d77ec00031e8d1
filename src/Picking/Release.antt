-- ===== src/Picking/Release.antt =====
-- What the release of used books gives back.
use wms_secret_backend.Prelude.{
  ==_refl, ℕ, ◌≡◌, refl, sym, ap, ◌∙◌, inl, inr, Bool, true, false, ◌||◌, Option, none, some, List,
  [], ◌∷◌, map, arith, ◌==◌, if◌then◌else◌, All, Bool-cases,
}
use wms_secret_backend.Picking.{
  ItemStatus, in_stock, allocated, shipped, is_in_stock, InventoryUsedItem, PickingInstructionItem,
  Session, mark_item, set_item,
}
use wms_secret_backend.Picking.Instruct.{is_of, is_used, release}
use wms_secret_backend.Picking.Rest.{rest}
use wms_secret_backend.Picking.Locks.{takes, lock, Free, Takes}

-- The used books once those that the lines take are given back.
abbrev pub unlock : List PickingInstructionItem → InventoryUsedItem → InventoryUsedItem
unlock its u = if takes u.id its then mark_item in_stock u else u

unfoldable pub All-Used : List PickingInstructionItem → Type 0
All-Used its =
    All (λ it. (k : ℕ) → is_of k it.used_item_id ≡ true → is_used it.stock_type ≡ true) its

-- One round of the loop that gives the used books back.
abbrev given : Option ℕ → Bool → Session → Session
given none t s = s
given (some k) true s = record s { used_items = set_item in_stock k s.used_items }
given (some k) false s = s

release-given :
    (it : PickingInstructionItem) (its : List PickingInstructionItem) (s : Session)
    → release (it ∷ its) s ≡ release its (given it.used_item_id (is_used it.stock_type) s)
unfolding release
release-given it its s = by it.used_item_id (is_used it.stock_type)
  where
    by :
        (o : Option ℕ) (t : Bool)
        → (elim o as (λ _. Session) [
          | none ↦ release its s
          | some k ↦
              release its
                (if t then record s { used_items = set_item in_stock k s.used_items } else s)
        ])
          ≡ release its (given o t s)
    by none t = refl
    by (some k) true = refl
    by (some k) false = refl

given-rest : (o : Option ℕ) (t : Bool) (s : Session) → rest (given o t s) ≡ rest s
given-rest none t s = refl
given-rest (some k) true s = refl
given-rest (some k) false s = refl

pub release-rest : (its : List PickingInstructionItem) (s : Session) → rest (release its s) ≡ rest s
unfolding release
release-rest [] s = refl
release-rest (it ∷ its) s =
    ap rest (release-given it its s)
    ∙ release-rest its (given it.used_item_id (is_used it.stock_type) s)
    ∙ given-rest it.used_item_id (is_used it.stock_type) s

eq_comm : (a b : ℕ) → (a == b) ≡ (b == a)
eq_comm a b = ground arith

unlock_step :
    (k : ℕ) (its : List PickingInstructionItem) (u : InventoryUsedItem)
    → unlock its (if u.id == k then mark_item in_stock u else u)
      ≡ (if (k == u.id) || takes u.id its then mark_item in_stock u else u)
unlock_step k its u = elim (Bool-cases (u.id == k)) [
  | inl q ↦ rw (q, eq_comm k u.id ∙ q) (by (takes u.id its))
  | inr q ↦ rw (q, eq_comm k u.id ∙ q) refl
]
  where
    by :
        (t : Bool)
        → (if t then mark_item in_stock (mark_item in_stock u) else mark_item in_stock u)
          ≡ mark_item in_stock u
    by true = refl
    by false = refl

given-unlock :
    (it : PickingInstructionItem) (its : List PickingInstructionItem) (s : Session)
    → ((k : ℕ) → is_of k it.used_item_id ≡ true → is_used it.stock_type ≡ true)
    → map (unlock its) (given it.used_item_id (is_used it.stock_type) s).used_items
      ≡ map (unlock (it ∷ its)) s.used_items
given-unlock it its s h = by it.used_item_id (is_used it.stock_type) h s.used_items
  where
    by :
        (o : Option ℕ) (t : Bool)
        → ((k : ℕ) → is_of k o ≡ true → t ≡ true)
        → (us : List InventoryUsedItem)
        → map (unlock its) (given o t (record s { used_items = us })).used_items
          ≡ map (λ u. if is_of u.id o || takes u.id its then mark_item in_stock u else u) us
    by none t h us = refl
    by (some k) false h us = absurd (ne (h k (==_refl k)))
      where
        ne : false ≡ true → ⊥
        ne e = ground arith
    by (some k) true h [] = refl
    by (some k) true h (u ∷ us) = λ i. unlock_step k its u i ∷ by (some k) true h us i

unlock_nil : (us : List InventoryUsedItem) → us ≡ map (unlock []) us
unlock_nil [] = refl
unlock_nil (u ∷ us) = λ i. u ∷ unlock_nil us i

pub release-items :
    (its : List PickingInstructionItem) (s : Session)
    → All-Used its
    → (release its s).used_items ≡ map (unlock its) s.used_items
unfolding release All-Used
release-items [] s h = unlock_nil s.used_items
release-items (it ∷ its) s h =
    ap (λ (s : Session). s.used_items) (release-given it its s)
    ∙ release-items its (given it.used_item_id (is_used it.stock_type) s) h.1
    ∙ given-unlock it its s h.0

-- The lines with the key of their instruction, as `create_picking_instruction` stores them.
abbrev pub keyed_lines : ℕ → List PickingInstructionItem → List PickingInstructionItem
keyed_lines key its =
    map (λ (it : PickingInstructionItem). record it { instruction_id = some key }) its

pub takes-keyed :
    (k key : ℕ) (its : List PickingInstructionItem) → takes k (keyed_lines key its) ≡ takes k its
takes-keyed k key [] = refl
takes-keyed k key (it ∷ its) = ap (λ t. is_of k it.used_item_id || t) (takes-keyed k key its)

pub used-keyed :
    (before : List InventoryUsedItem) (key : ℕ) (its : List PickingInstructionItem)
    → All (Takes before) its
    → All-Used (keyed_lines key its)
unfolding All-Used
used-keyed before key [] h = tt
used-keyed before key (it ∷ its) h = (λ k e. (h.0 k e).0, used-keyed before key its h.1)

pub takes-Free :
    (us : List InventoryUsedItem) (k : ℕ) (its : List PickingInstructionItem)
    → All (Takes us) its
    → takes k its ≡ true
    → Free us k
takes-Free us k [] h e = absurd (ground arith)
takes-Free us k (it ∷ its) h e = elim (Bool-cases (is_of k it.used_item_id)) [
  | inl q ↦ (h.0 k q).1
  | inr q ↦ takes-Free us k its h.1 (rw q at e)
]

status_of : (x : ItemStatus) → is_in_stock x ≡ true → x ≡ in_stock
status_of in_stock e = refl
status_of allocated e = absurd (ground arith)
status_of shipped e = absurd (ground arith)

-- A book that was in stock, taken and given back.
unlock-lock :
    (its its' : List PickingInstructionItem) (u : InventoryUsedItem)
    → takes u.id its' ≡ takes u.id its
    → (takes u.id its ≡ true → is_in_stock u.item_status ≡ true)
    → unlock its' (lock its u) ≡ u
unlock-lock its its' u e h = elim (Bool-cases (takes u.id its)) [
  | inl q ↦ rw (q, e ∙ q) (λ i. record u { item_status = sym (status_of u.item_status (h q)) i })
  | inr q ↦ rw (q, e ∙ q) refl
]

pub unlock-locks :
    (its its' : List PickingInstructionItem) (us : List InventoryUsedItem)
    → ((k : ℕ) → takes k its' ≡ takes k its)
    → All (λ u. takes u.id its ≡ true → is_in_stock u.item_status ≡ true) us
    → map (unlock its') (map (lock its) us) ≡ us
unlock-locks its its' [] e h = refl
unlock-locks its its' (u ∷ us) e h =
    λ i. unlock-lock its its' u (e u.id) h.0 i ∷ unlock-locks its its' us e h.1 i

pub own_keys :
    (its : List PickingInstructionItem) (us : List InventoryUsedItem)
    → ((k : ℕ) → takes k its ≡ true → Free us k)
    → All (λ u. takes u.id its ≡ true → is_in_stock u.item_status ≡ true) us
own_keys its [] h = tt
own_keys its (u ∷ us) h = (λ e. (h u.id e).0 (==_refl u.id), own_keys its us (λ k e. (h k e).1))
