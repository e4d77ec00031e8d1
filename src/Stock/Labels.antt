-- ===== src/Stock/Labels.antt =====
-- The labels of used books: `generate_next_lpn_barcode` and `generate_lpn` of
-- app/domains/inventory/service.py.
use Prim.Native.Char.{code}
use wms_secret_backend.Prelude.{
  ℕ, zero, suc, ◌+◌, ◌*◌, ◌/◌, ◌%◌, Bool, true, false, ◌&&◌, ◌||◌, Option, none, some, List, [],
  ◌∷◌, ◌++◌, String, ltb, ◌==◌, if◌then◌else◌, any,
}
use wms_secret_backend.Prelude.Texts.{strip, nonempty_or}
use text.Mathlib.Text.{◌==◌ as str_eq}
use wms_secret_backend.Picking.{Book}
use wms_secret_backend.Picking.Slots.{Slot}
use wms_secret_backend.Stock.{Label, InventoryUsedItem, Store, first_by, get_or_create_location}

-- `upper()` of a character, as far as it can give one of the zones.
abbrev lpn_zone : ℕ → Option String
lpn_zone c =
    if c == 65 || c == 97
    then some "A"
    else if c == 66 || c == 98
    then some "B"
    else if c == 67 || c == 99
    then some "C"
    else if c == 68 || c == 100
    then some "D"
    else if c == 69 || c == 101
    then some "E"
    else none

unfoldable pub last_code : String → Option ℕ
last_code String.[] = none
last_code (String.◌∷◌ c s) = elim (last_code s) [ some d ↦ some d | none ↦ some (code c) ]

abbrev or_live : Option String → String
or_live none = "A"
or_live (some zone) = nonempty_or "A" zone

-- The last letter of the zone that is asked for, or `none` if it is not in `LPN_ZONES`.
unfoldable pub zone_code : Option String → Option String
unfolding strip last_code
zone_code zone = elim (last_code (strip (or_live zone))) [ none ↦ none | some c ↦ lpn_zone c ]

-- Decimal digits, with no leading zero; `n` is fuel enough.
unfoldable pub decimal : ℕ → ℕ → List ℕ
decimal zero n = []
decimal (suc fuel) n =
    let rest = decimal fuel (n / 10) in if n == 0 then [] else rest ++ n % 10 ∷ []

-- `{n:03d}`.
unfoldable pub pad3 : ℕ → List ℕ
unfolding decimal
pad3 n = decimal n (n / 1000) ++ (n / 100 % 10) ∷ (n / 10 % 10) ∷ (n % 10) ∷ []

-- `int(text[-3:])`.
abbrev pub last3 : List ℕ → ℕ
last3 (a ∷ b ∷ c ∷ d ∷ ds) = last3 (b ∷ c ∷ d ∷ ds)
last3 (a ∷ b ∷ c ∷ []) = a * 100 + b * 10 + c
last3 (a ∷ b ∷ []) = a * 10 + b
last3 (a ∷ []) = a
last3 [] = 0

-- The order of texts, on the digits.
abbrev pub digits_lt : List ℕ → List ℕ → Bool
digits_lt xs [] = false
digits_lt [] (y ∷ ys) = true
digits_lt (x ∷ xs) (y ∷ ys) = ltb x y || x == y && digits_lt xs ys

abbrev pub has_prefix : ℕ → String → InventoryUsedItem → Bool
has_prefix day zone u = u.lpn_barcode.day == day && str_eq u.lpn_barcode.zone zone

abbrev pub later : List ℕ → Option (List ℕ) → Option (List ℕ)
later ds none = some ds
later ds (some es) = if digits_lt ds es then some es else some ds

-- The digits of the last label in the order of texts.
unfoldable pub last_label : ℕ → String → List InventoryUsedItem → Option (List ℕ)
last_label day zone [] = none
last_label day zone (u ∷ us) =
    let rest = last_label day zone us in
    if has_prefix day zone u then later u.lpn_barcode.digits rest else rest

abbrev pub next_seq : Option (List ℕ) → ℕ
next_seq none = 1
next_seq (some ds) = last3 ds + 1

unfoldable pub next_label : ℕ → String → List InventoryUsedItem → Label
unfolding last_label pad3
next_label day zone us = record {
  day = day;
  zone = zone;
  digits = pad3 (next_seq (last_label day zone us));
}

abbrev or_else {ℓ} : {A : Type ℓ} → A → Option A → A
or_else a none = a
or_else a (some b) = b

unfoldable pub generate_next_lpn_barcode : ℕ → Option String → List InventoryUsedItem → Label
unfolding next_label
generate_next_lpn_barcode day zone us = next_label day (or_else "A" (zone_code zone)) us

abbrev pub digits_eq : List ℕ → List ℕ → Bool
digits_eq [] [] = true
digits_eq (x ∷ xs) (y ∷ ys) = x == y && digits_eq xs ys
digits_eq _ _ = false

-- The test of the UNIQUE constraint for one row.
abbrev pub is_taken_by : Label → InventoryUsedItem → Bool
is_taken_by l u =
    u.lpn_barcode.day == l.day
    && str_eq u.lpn_barcode.zone l.zone
    && digits_eq u.lpn_barcode.digits l.digits

abbrev pub max_retry : ℕ
max_retry = 5

pub data LpnError : Type 0 where
  no_book_given book_not_found zone_not_known numbers_contended : LpnError

pub data LpnResult : Type 0 where
  issued : InventoryUsedItem → Book → LpnResult
  failed : LpnError → LpnResult

abbrev pub stripped : Option String → Option String
unfolding strip
stripped none = none
stripped (some w) = let t = strip w in if str_eq t "" then none else some t

abbrev pub prelabelled : Book → ℕ → Option String → Label → ℕ → InventoryUsedItem
prelabelled book location worker label k = record {
  id = k;
  book_id = some book.id;
  location_id = location;
  lpn_barcode = label;
  ubci_score = none;
  condition_grade = "PENDING";
  item_status = "PENDING_INSPECTION";
  source_job_id = none;
  certificate_url = none;
  inspection_source = none;
  inspected_by = none;
  prelabel_worker_id = stripped worker;
}

-- What other requests commit between the query and the insertion of attempt n.
abbrev pub with_rivals : (ℕ → List InventoryUsedItem) → ℕ → Store → Store
with_rivals rivals n s = record s { used_items = s.used_items ++ rivals n }

abbrev pub insert_item : Book → ℕ → Option String → Label → Store → InventoryUsedItem × Store
insert_item book location worker label s =
    let new_item = prelabelled book location worker label s.next_id in
    (new_item, record s { next_id = s.next_id + 1; used_items = s.used_items ++ new_item ∷ [] })

module _ (rivals : ℕ → List InventoryUsedItem) (book : Book) (location : ℕ) (worker : Option String)
    (day : ℕ) (zone : String) where
  -- The attempts that are left, and the number of the next one.
  unfoldable pub attempts : ℕ → ℕ → Store → LpnResult × Store
  unfolding next_label
  attempts zero n s = (failed numbers_contended, s)
  attempts (suc left) n s =
      let label = next_label day zone s.used_items in
      let seen = with_rivals rivals n s in
      let again = attempts left (suc n) seen in
      let (new_item, done) = insert_item book location worker label seen in
      if any (is_taken_by label) seen.used_items then again else (issued new_item book, done)

abbrev pub find_book : Option ℕ → Option String → List Book → Option (Option Book)
find_book (some k) isbn books = some (first_by (λ b. b.id == k) books)
find_book none (some isbn) books =
    if str_eq isbn "" then none else some (first_by (λ b. str_eq b.isbn isbn) books)
find_book none none books = none

abbrev pub buffer : String → Slot
buffer zone = record { zone = zone; rack = "0"; shelf = "0" }

-- `some (some book)` is a book found, `none` that no key was given.
unfoldable pub label_book :
    (ℕ → List InventoryUsedItem)
    → Option String
    → ℕ
    → Option String
    → Store
    → Option (Option Book)
    → LpnResult × Store
unfolding attempts zone_code get_or_create_location
label_book rivals worker day asked s none = (failed no_book_given, s)
label_book rivals worker day asked s (some none) = (failed book_not_found, s)
label_book rivals worker day asked s (some (some book)) = elim (zone_code asked) [
  | none ↦ (failed zone_not_known, s)
  | some code ↦
      let (buffer_loc, s') = get_or_create_location (buffer code) s in
      attempts rivals book buffer_loc.id worker day code max_retry 0 s'
]

unfoldable pub generate_lpn :
    (ℕ → List InventoryUsedItem)
    → Option ℕ
    → Option String
    → Option String
    → Option String
    → ℕ
    → Store
    → LpnResult × Store
unfolding label_book
generate_lpn rivals book_id isbn zone worker day s =
    label_book rivals worker day zone s (find_book book_id isbn s.books)
