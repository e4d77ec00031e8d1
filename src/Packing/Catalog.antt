-- ===== src/Packing/Catalog.antt =====
-- The box catalog of app/core/constants.py: lengths in millimetres and weights in tenths of a
-- kilogram, scaled to the units of Geometry.
use wms_secret_backend.Prelude.{ℕ, ◌*◌, String, List, [], ◌∷◌}
use wms_secret_backend.Geometry.{Box}

abbrev sized : String → String → String → ℕ → ℕ → ℕ → ℕ → Box
sized id category name length width height tenths = record {
  id = id;
  category = category;
  name = name;
  length = length * 1_000_000;
  width = width * 1_000_000;
  height = height * 1_000_000;
  max_weight_kg = tenths * 100_000;
}

abbrev pub first_box : Box
first_box = sized "BOOK-S1" "BOOK_SLIM" "도서슬림 소형 1호" 250 150 50 20

-- The box of the largest volume.
abbrev pub master_carton : Box
master_carton = sized "STD-08" "STANDARD" "일반택배 8호 (마스터 카톤)" 650 500 500 350

abbrev pub other_boxes : List Box
other_boxes =
    sized "BOOK-S2" "BOOK_SLIM" "도서슬림 소형 2호" 250 150 60 30
    ∷ sized "BOOK-M1" "BOOK_SLIM" "도서슬림 중형 1호" 300 200 70 40
    ∷ sized "BOOK-M2" "BOOK_SLIM" "도서슬림 중형 2호" 300 200 90 50
    ∷ sized "BOOK-L1" "BOOK_SLIM" "도서슬림 대형 1호" 350 250 100 70
    ∷ sized "BOOK-L2" "BOOK_SLIM" "도서슬림 대형 2호" 350 250 140 85
    ∷ sized "BOOK-XL1" "BOOK_SLIM" "도서슬림 특대형 1호" 400 300 160 100
    ∷ sized "BOOK-XL2" "BOOK_SLIM" "도서슬림 특대형 2호" 400 300 200 120
    ∷ sized "STD-01" "STANDARD" "일반택배 1호 (소형)" 220 190 90 50
    ∷ sized "STD-02" "STANDARD" "일반택배 2호 (중소형)" 270 180 150 70
    ∷ sized "STD-03" "STANDARD" "일반택배 3호 (중형)" 340 250 210 100
    ∷ sized "STD-04" "STANDARD" "일반택배 4호 (대형)" 410 310 280 150
    ∷ sized "STD-05" "STANDARD" "일반택배 5호 (특대형 1호)" 480 380 340 200
    ∷ sized "STD-06" "STANDARD" "일반택배 6호 (특대형 2호)" 530 410 400 250
    ∷ sized "STD-07" "STANDARD" "일반택배 7호 (초대형 점포용)" 600 450 450 300
    ∷ master_carton
    ∷ []

abbrev pub box_catalog : List Box
box_catalog = first_box ∷ other_boxes
