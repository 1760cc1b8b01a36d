-- ===== src/Core/Tags.antt =====
-- crates/truefix-core/src/tags.rs: standard tag numbers and their classification, and the
-- `section_of` of codec/decode.rs.
use truefix.Base.{
  ℕ, ◌≡◌, refl, Bool, [], ◌∷◌, Option, none, some, List, contains, ◌==◌, if◌then◌else◌,
}

abbrev pub soh : ℕ
soh = 0x01

abbrev pub begin_string : ℕ
begin_string = 8

abbrev pub body_length : ℕ
body_length = 9

abbrev pub msg_type : ℕ
msg_type = 35

abbrev pub check_sum : ℕ
check_sum = 10

abbrev header_tags : List ℕ
header_tags =
    8 ∷ 9 ∷ 35 ∷ 49 ∷ 56 ∷ 115 ∷ 128 ∷ 90 ∷ 91 ∷ 34 ∷ 50 ∷ 142 ∷ 57 ∷ 143 ∷ 116 ∷ 144 ∷ 129 ∷ 145
    ∷ 43 ∷ 97 ∷ 52 ∷ 122 ∷ 212 ∷ 213 ∷ 347 ∷ 369 ∷ 370 ∷ 627 ∷ 628 ∷ 629 ∷ 630 ∷ 1128 ∷ 1129 ∷ 1130
    ∷ 1156 ∷ 1351 ∷ 1352 ∷ 1353 ∷ 1354 ∷ 1355 ∷ []

abbrev trailer_tags : List ℕ
trailer_tags = 93 ∷ 89 ∷ 10 ∷ []

unfoldable pub is_header : ℕ → Bool
unfolding contains
is_header tag = contains header_tags tag

unfoldable pub is_trailer : ℕ → Bool
unfolding contains
is_trailer tag = contains trailer_tags tag

-- The length tags with the data tag that each governs.
abbrev data_fields : List (ℕ × ℕ)
data_fields =
    (90, 91)
    ∷ (95, 96)
    ∷ (212, 213)
    ∷ (348, 349)
    ∷ (350, 351)
    ∷ (352, 353)
    ∷ (354, 355)
    ∷ (356, 357)
    ∷ (358, 359)
    ∷ (360, 361)
    ∷ (362, 363)
    ∷ (364, 365)
    ∷ (93, 89)
    ∷ (445, 446)
    ∷ (618, 619)
    ∷ (621, 622)
    ∷ (1359, 1360)
    ∷ (1397, 1398)
    ∷ (1468, 1469)
    ∷ []

find_pair : ℕ → List (ℕ × ℕ) → Option ℕ
find_pair tag [] = none
find_pair tag ((len_tag, data_tag) ∷ ps) =
    if len_tag == tag then some data_tag else find_pair tag ps

unfoldable pub data_field_for_length : ℕ → Option ℕ
unfolding find_pair
data_field_for_length tag = find_pair tag data_fields

-- The wire section that a tag belongs to: header, body, trailer.
unfoldable pub section_of : ℕ → ℕ
section_of tag = if is_trailer tag then 2 else if is_header tag then 0 else 1

signature : data_field_for_length 93 ≡ some 89
unfolding data_field_for_length
signature = refl
