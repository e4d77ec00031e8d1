-- ===== src/Stock/Placed.antt =====
-- Where a book lies after its inspection.
use mathlib.Core.Path.{subst}
use mathlib.Core.Option.{some-injective}
use text.Mathlib.TextPositions.{eq_refl}
use wms_secret_backend.Prelude.{
  ℕ, ◌≡◌, refl, ◌∙◌, ap, inl, inr, true, false, Option, none, some, List, [], ◌∷◌, arith, ◌==◌,
  ==_iff, if◌then◌else◌, Bool-cases,
}
use wms_secret_backend.Picking.{Book}
use wms_secret_backend.Picking.Slots.{Slot}
use wms_secret_backend.Stock.{Label, InventoryUsedItem, Location, Store, get_or_create_location}
use wms_secret_backend.Stock.Labels.{digits_eq, is_taken_by}
use wms_secret_backend.Stock.Rows.{
  first_by-holds, first_by-append, IsTagged, has_at, get_or_create_location-IsTagged,
}
use wms_secret_backend.Stock.Assign.{
  Assignment, Place, find_by_id, item_book, rack_slot, new_item, inspected, awaits_person,
  is_refused, holding, quarantine, place_of, put_row, put_at, assign_known, assign_new, find_item,
  assign_item, assign_rack_location_after_inspection,
}

-- What is promised of a book with this label: only a label that is known can be held for a person or
-- go into quarantine.
abbrev pub promised : Assignment → Option InventoryUsedItem → List Book → Place
promised a none books = record {
  slot = rack_slot a.final_grade (find_by_id a.book_id books);
  grade = a.final_grade;
  status = a.final_status;
}
promised a (some u) books =
    let rack = rack_slot a.final_grade (find_by_id u.book_id books) in
    let held = awaits_person a.final_status in
    let refused = is_refused a.final_grade in
    record {
      slot = if held then holding else if refused then quarantine else rack;
      grade = if held then "PENDING" else if refused then "REJECT" else a.final_grade;
      status = if held then "HITL_PENDING" else if refused then "REJECTED" else a.final_status;
    }

pub record IsPlaced (a : Assignment) (p : Place) (item : InventoryUsedItem) (s : Store)
    : Type 0 where
  pub found : find_item a.lpn_barcode s.used_items ≡ some item
  pub place : has_at item.location_id p.slot s.locations ≡ true
  pub grade : item.condition_grade ≡ p.grade
  pub status : item.item_status ≡ p.status
  pub score : item.ubci_score ≡ a.ubci_score
  pub source : item.inspection_source ≡ some a.inspection_source
  pub tagged : IsTagged s.locations

digits_eq_self : (ds : List ℕ) → digits_eq ds ds ≡ true
digits_eq_self [] = refl
digits_eq_self (d ∷ ds) = ground (arith, digits_eq_self ds)

is_taken_by_self : (l : Label) (u : InventoryUsedItem) → u.lpn_barcode ≡ l → is_taken_by l u ≡ true
is_taken_by_self l u e = rw (e, eq_refl l.zone, digits_eq_self l.digits) (ground arith)

module _ (l : Label) (u' : InventoryUsedItem) (mine : is_taken_by l u' ≡ true) where
  find_item-put_row :
      (us : List InventoryUsedItem) (u : InventoryUsedItem)
      → find_item l us ≡ some u
      → u.id ≡ u'.id
      → find_item l (put_row u' us) ≡ some u'
  find_item-put_row [] u e k = cc
  find_item-put_row (v ∷ vs) u e k = elim (Bool-cases (v.id == u'.id)) [
    | inl t ↦ rw (t, mine) refl
    | inr f ↦ elim (Bool-cases (is_taken_by l v)) [
      | inl t ↦ absurd (other t f)
      | inr g ↦ rw (f, g) (find_item-put_row vs u (rw g at e) k)
    ]
  ]
    where
      other : is_taken_by l v ≡ true → (v.id == u'.id) ≡ false → ⊥
      other t f =
          let q : v ≡ u = some-injective _ _ (rw t at e) in
          let q' : v.id ≡ u'.id = ap (λ w. w.id) q ∙ k in absurd (cc ((==_iff v.id u'.id).1 q'))

place_of-promised :
    (a : Assignment) (u : InventoryUsedItem) (books : List Book)
    → place_of a (find_by_id u.book_id books) ≡ promised a (some u) books
unfolding place_of
place_of-promised a u books = ground arith

used_items-get : (p : Slot) (s : Store) → (get_or_create_location p s).1.used_items ≡ s.used_items
unfolding get_or_create_location
used_items-get p s = ground arith

books-get : (p : Slot) (s : Store) → (get_or_create_location p s).1.books ≡ s.books
unfolding get_or_create_location
books-get p s = ground arith

assign_new-IsPlaced :
    (a : Assignment) (location : Location) (p : Slot) (s : Store)
    → find_item a.lpn_barcode s.used_items ≡ none
    → has_at location.id p s.locations ≡ true
    → IsTagged s.locations
    → IsPlaced a
        (record { slot = p; grade = a.final_grade; status = a.final_status })
        (assign_new a location s).0
        (assign_new a location s).1
unfolding assign_new
assign_new-IsPlaced a location p s free at t = record {
  found =
      first_by-append (is_taken_by a.lpn_barcode) s.used_items
        (new_item a s.next_id location.id s.books) free
        (is_taken_by_self a.lpn_barcode (new_item a s.next_id location.id s.books) refl);
  place = at;
  grade = refl;
  status = refl;
  score = refl;
  source = refl;
  tagged = t;
}

put_at-IsPlaced :
    (a : Assignment) (u : InventoryUsedItem) (p : Place) (s : Store)
    → find_item a.lpn_barcode s.used_items ≡ some u
    → IsTagged s.locations
    → let (location, s') = get_or_create_location p.slot s in
      let item = put_at p location.id (inspected a u) in
      IsPlaced a p item (record s' { used_items = put_row item s'.used_items })
put_at-IsPlaced a u p s e t =
    let (location, s') = get_or_create_location p.slot s in
    let item = put_at p location.id (inspected a u) in
    let (at, _, tags) = get_or_create_location-IsTagged p.slot s t in
    let mine : is_taken_by a.lpn_barcode item ≡ true =
      first_by-holds (is_taken_by a.lpn_barcode) s.used_items u e in
    record {
      found =
          find_item-put_row a.lpn_barcode item mine s'.used_items u (rw (used_items-get p.slot s) e)
            refl;
      place = at;
      grade = refl;
      status = refl;
      score = refl;
      source = refl;
      tagged = tags;
    }

assign_known-IsPlaced :
    (a : Assignment) (u : InventoryUsedItem) (s : Store)
    → find_item a.lpn_barcode s.used_items ≡ some u
    → IsTagged s.locations
    → IsPlaced a (promised a (some u) s.books) (assign_known a u s).0 (assign_known a u s).1
unfolding assign_known
assign_known-IsPlaced a u s e t =
    subst (λ p. IsPlaced a p (assign_known a u s).0 (assign_known a u s).1)
      (place_of-promised a u s.books)
      (put_at-IsPlaced a u (place_of a (find_by_id u.book_id s.books)) s e t)

assign_item-IsPlaced :
    (a : Assignment) (s : Store) (o : Option InventoryUsedItem)
    → find_item a.lpn_barcode s.used_items ≡ o
    → IsTagged s.locations
    → let (location, s') =
        get_or_create_location (rack_slot a.final_grade (item_book o a.book_id s.books)) s in
      let (item, s'') = assign_item a location s' o in IsPlaced a (promised a o s.books) item s''
assign_item-IsPlaced a s none e t =
    let p = rack_slot a.final_grade (find_by_id a.book_id s.books) in
    let (at, _, tags) = get_or_create_location-IsTagged p s t in
    assign_new-IsPlaced a (get_or_create_location p s).0 p (get_or_create_location p s).1
      (rw (used_items-get p s) e) at tags
assign_item-IsPlaced a s (some u) e t =
    let p = rack_slot a.final_grade (find_by_id u.book_id s.books) in
    let (_, _, tags) = get_or_create_location-IsTagged p s t in
    let s' = (get_or_create_location p s).1 in
    subst
      (λ books.
        IsPlaced a (promised a (some u) books) (assign_known a u s').0 (assign_known a u s').1)
      (books-get p s) (assign_known-IsPlaced a u s' (rw (used_items-get p s) e) tags)

-- After an inspection the label leads to a book with the new score and the source of the judgement, at
-- the place, and with the grade and the status, that are promised: a known label that awaits a person
-- at Z-1-1, a refused one at E-1-1, and all else at the place for its grade, category and size.
pub assign_rack_location_after_inspection-IsPlaced :
    (a : Assignment) (s : Store)
    → IsTagged s.locations
    → let (item, s') = assign_rack_location_after_inspection a s in
      IsPlaced a (promised a (find_item a.lpn_barcode s.used_items) s.books) item s'
unfolding assign_rack_location_after_inspection
assign_rack_location_after_inspection-IsPlaced a s t =
    assign_item-IsPlaced a s (find_item a.lpn_barcode s.used_items) refl t
