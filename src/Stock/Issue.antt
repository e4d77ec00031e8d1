-- ===== src/Stock/Issue.antt =====
-- When `generate_lpn` issues a label, and when it never does again.
use wms_secret_backend.Prelude.{
  ℕ, zero, suc, ◌+◌, ◌<◌, ◌≤◌, ◌≡◌, inl, inr, refl, ◌∙◌, Bool, true, false, Option, some, List, [],
  ◌∷◌, ◌++◌, String, arith, ◌==◌, ==_iff, any, any-append, All, All-append, Bool-cases,
}
use wms_secret_backend.Picking.{Book}
use wms_secret_backend.Picking.Slots.{Slot}
use wms_secret_backend.Stock.{Label, InventoryUsedItem, Store, get_or_create_location}
use wms_secret_backend.Stock.Labels.{
  has_prefix, next_label, is_taken_by, LpnResult, issued, failed, attempts, max_retry, label_book,
  buffer, generate_lpn, find_book, zone_code, with_rivals,
}
use wms_secret_backend.Stock.Fresh.{IsNumbered, Numbered, next_label-fresh}

clash : {b : Bool} → b ≡ false → b ≡ true → ⊥
clash e f = cc

-- No label of the day and the zone.
abbrev pub Quiet : ℕ → String → List InventoryUsedItem → Type 0
Quiet day zone us = All (λ u. has_prefix day zone u ≡ false) us

abbrev pub IsIssued : Book → ℕ → String → LpnResult → Type 0
IsIssued book day zone (failed e) = ⊥
IsIssued book day zone (issued u b) =
    (b ≡ book)
    × (u.book_id ≡ some book.id)
    × (u.lpn_barcode.day ≡ day)
    × (u.lpn_barcode.zone ≡ zone)
    × (u.item_status ≡ "PENDING_INSPECTION")

next_label_parts :
    (day : ℕ) (zone : String) (us : List InventoryUsedItem)
    → ((next_label day zone us).day ≡ day) × ((next_label day zone us).zone ≡ zone)
unfolding next_label
next_label_parts day zone us = (refl, refl)

no_rival :
    (l : Label) (us : List InventoryUsedItem)
    → Quiet l.day l.zone us
    → any (is_taken_by l) us ≡ false
no_rival l [] h = refl
no_rival l (u ∷ us) h = let rest = no_rival l us h.1 in let here = h.0 in ground arith

free_of_rivals :
    (day : ℕ) (zone : String) (us rs : List InventoryUsedItem)
    → Numbered day zone us
    → Quiet day zone rs
    → any (is_taken_by (next_label day zone us)) (us ++ rs) ≡ false
free_of_rivals day zone us rs h q =
    let l = next_label day zone us in
    let (d, z) = next_label_parts day zone us in
    let old = next_label-fresh day zone us h in
    let new = no_rival l rs (rw (d, z) q) in any-append (is_taken_by l) us rs ∙ rw (old, new) refl

module _ (rivals : ℕ → List InventoryUsedItem) (book : Book) (location : ℕ) (worker : Option String)
    (day : ℕ) (zone : String) where
  attempts-suc :
      (left n : ℕ) (s : Store)
      → let label = next_label day zone s.used_items in
        let seen = with_rivals rivals n s in
        (any (is_taken_by label) (s.used_items ++ rivals n) ≡ true
          → attempts rivals book location worker day zone (suc left) n s
            ≡ attempts rivals book location worker day zone left (suc n) seen)
        × (any (is_taken_by label) (s.used_items ++ rivals n) ≡ false
            → IsIssued book day zone
                (attempts rivals book location worker day zone (suc left) n s).0)
  unfolding attempts
  attempts-suc left n s = ((λ e. rw e refl), (λ e. rw e (refl, refl, of_day.0, of_day.1, refl)))
    where
      of_day :
          ((next_label day zone s.used_items).day ≡ day)
          × ((next_label day zone s.used_items).zone ≡ zone)
      of_day = next_label_parts day zone s.used_items

  attempts-IsIssued :
      (left n m : ℕ) (s : Store)
      → n ≤ m
      → m < n + left
      → Quiet day zone (rivals m)
      → ((k : ℕ) → Numbered day zone (rivals k))
      → Numbered day zone s.used_items
      → IsIssued book day zone (attempts rivals book location worker day zone left n s).0
  attempts-IsIssued zero n m s le lt q r h = absurd (omega arith)
  attempts-IsIssued (suc left) n m s le lt q r h =
      let e = attempts-suc left n s in
      let all = s.used_items ++ rivals n in
      elim (Bool-cases (any (is_taken_by (next_label day zone s.used_items)) all)) [
        | inr free ↦ e.1 free
        | inl taken ↦ elim (Bool-cases (n == m)) [
          | inl same ↦
              let k : n ≡ m = (==_iff n m).0 same in
              absurd (clash (free_of_rivals day zone s.used_items (rivals n) h (rw k q)) taken)
          | inr other ↦ rw (e.0 taken) (
              attempts-IsIssued left (suc n) m (with_rivals rivals n s) (ground arith) (omega arith)
                q r
                (All-append (λ u. has_prefix day zone u ≡ true → IsNumbered u.lpn_barcode.digits)
                  s.used_items (rivals n) h (r n)))
        ]
      ]

used_items-get_or_create :
    (p : Slot) (s : Store) → (get_or_create_location p s).1.used_items ≡ s.used_items
unfolding get_or_create_location
used_items-get_or_create p s = ground arith

module _ (rivals : ℕ → List InventoryUsedItem) (book_id : Option ℕ)
    (isbn wanted worker : Option String) (day : ℕ) (s : Store) (book : Book) (zone : String)
    (found : find_book book_id isbn s.books ≡ some (some book))
    (known : zone_code wanted ≡ some zone) where
  pub generate_lpn_lem :
      (P : LpnResult → Type 0)
      → ((k : ℕ) (s' : Store)
          → s'.used_items ≡ s.used_items
          → P (attempts rivals book k worker day zone max_retry 0 s').0)
      → P (generate_lpn rivals book_id isbn wanted worker day s).0
  unfolding generate_lpn
  generate_lpn_lem P f =
      rw (found, label_book, known) (f _ _ (used_items-get_or_create (buffer zone) s))

  -- A label for the book, of the day and the zone that is asked for, is issued whenever the numbers of
  -- that day and zone have three digits and one of the five attempts meets no other request for them.
  pub generate_lpn-IsIssued :
      (m : ℕ)
      → m < max_retry
      → Quiet day zone (rivals m)
      → ((k : ℕ) → Numbered day zone (rivals k))
      → Numbered day zone s.used_items
      → IsIssued book day zone (generate_lpn rivals book_id isbn wanted worker day s).0
  generate_lpn-IsIssued m lt q r h = generate_lpn_lem (IsIssued book day zone) λ k s' e.
      attempts-IsIssued rivals book k worker day zone max_retry 0 m s' (omega arith) lt q r (rw e h)
