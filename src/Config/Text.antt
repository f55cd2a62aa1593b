-- ===== src/Config/Text.antt =====
-- The text helpers of RuntimeConfig.cpp, over bytes, with the parts of the C++ library that they
-- call: std::isspace, std::getline, std::atoi and ::tolower in the C locale.
pub mod Trim
pub mod Csv
use carts.Base.{
  ℕ, ◌+◌, ◌-◌, ◌*◌, Bool, true, false, ◌&&◌, ◌||◌, List, [], ◌∷◌, map, leb, ◌==◌, if◌then◌else◌,
}
use carts.Base.Int.{ℤ, pos, negsuc, sub_ℕ}
use carts.Config.{Bytes, codes}

unfoldable pub is_space : ℕ → Bool
is_space c = c == 32 || (leb 9 c && leb c 13)

unfoldable pub bytes_eq : Bytes → Bytes → Bool
bytes_eq [] [] = true
bytes_eq [] (y ∷ ys) = false
bytes_eq (x ∷ xs) [] = false
bytes_eq (x ∷ xs) (y ∷ ys) = x == y && bytes_eq xs ys

-- `trim` moves one index forward past the white space, and one back from the end.
unfoldable pub trim_front : Bytes → Bytes
trim_front [] = []
trim_front (c ∷ cs) = if is_space c then trim_front cs else c ∷ cs

keep_back : ℕ → Bytes → Bytes
keep_back c [] = if is_space c then [] else c ∷ []
keep_back c (d ∷ ds) = c ∷ d ∷ ds

unfoldable pub trim_back : Bytes → Bytes
unfolding keep_back
trim_back [] = []
trim_back (c ∷ cs) = keep_back c (trim_back cs)

unfoldable pub trim : Bytes → Bytes
trim s = trim_back (trim_front s)

-- Reads with std::getline until the stream fails: a delimiter ends an item, and what follows the
-- last delimiter is an item unless it is empty.
cons_item : ℕ → List Bytes → List Bytes
cons_item c [] = (c ∷ []) ∷ []
cons_item c (item ∷ items) = (c ∷ item) ∷ items

unfoldable pub get_lines : ℕ → Bytes → List Bytes
unfolding cons_item
get_lines delimiter [] = []
get_lines delimiter (c ∷ cs) =
    let rest = get_lines delimiter cs in if c == delimiter then [] ∷ rest else cons_item c rest

-- splitCSV with the items that were read
csv_or_whole : Bytes → List Bytes → List Bytes
csv_or_whole [] [] = []
csv_or_whole (c ∷ cs) [] = trim (c ∷ cs) ∷ []
csv_or_whole s (item ∷ items) = item ∷ items

unfoldable pub split_csv : Bytes → List Bytes
unfolding csv_or_whole
split_csv s = csv_or_whole s (map trim (get_lines b',' s))

unfoldable pub is_digit : ℕ → Bool
is_digit c = leb b'0' c && leb c b'9'

unfoldable pub digits_value : ℕ → Bytes → ℕ
digits_value acc [] = acc
digits_value acc (c ∷ cs) =
    let rest = digits_value (acc * 10 + (c - b'0')) cs in if is_digit c then rest else acc

-- A sign, or none, and digits.
signed_value : Bytes → ℤ
signed_value [] = pos 0
signed_value (c ∷ cs) =
    if c == b'-'
    then sub_ℕ 0 (digits_value 0 cs)
    else if c == b'+'
    then pos (digits_value 0 cs)
    else pos (digits_value 0 (c ∷ cs))

unfoldable pub atoi : Bytes → ℤ
unfolding signed_value
atoi s = signed_value (trim_front s)

unfoldable pub parse_int : Bytes → ℤ → ℤ
parse_int [] default_value = default_value
parse_int (c ∷ cs) default_value = atoi (c ∷ cs)

to_lower : ℕ → ℕ
to_lower c = if leb b'A' c && leb c b'Z' then c + 32 else c

unfoldable pub parse_bool : Bytes → Bool → Bool
unfolding to_lower
parse_bool [] default_value = default_value
parse_bool (c ∷ cs) default_value =
    let lower = map to_lower (c ∷ cs) in
    bytes_eq lower (codes "1")
    || bytes_eq lower (codes "true")
    || bytes_eq lower (codes "yes")
    || bytes_eq lower (codes "on")
