-- ===== src/Config/Text/Csv.antt =====
-- `splitCSV` takes apart what commas join.
use carts.Base.{ℕ, false, List, [], ◌∷◌, ◌++◌, map, All, ◌==◌, ◌≡◌, ◌≢◌, refl, ◌∙◌, ap, arith}
use carts.Config.{Bytes}
use carts.Config.Text.{get_lines, split_csv, trim}

-- The items with the delimiter between them.
abbrev pub join : ℕ → List Bytes → Bytes
join d [] = []
join d (x ∷ []) = x
join d (x ∷ y ∷ ys) = x ++ (d ∷ join d (y ∷ ys))

abbrev pub Without : ℕ → Bytes → Type 0
Without d s = All (λ c. (c == d) ≡ false) s

-- The last of the items is not empty.
abbrev pub LastNonempty : List Bytes → Type 0
LastNonempty [] = Unit
LastNonempty (x ∷ []) = x ≢ []
LastNonempty (x ∷ y ∷ ys) = LastNonempty (y ∷ ys)

get_lines_item :
    (d : ℕ) (x rest : Bytes) → Without d x → get_lines d (x ++ (d ∷ rest)) ≡ x ∷ get_lines d rest
unfolding get_lines
get_lines_item d [] rest h = ground arith
get_lines_item d (c ∷ cs) rest (hc, h) = rw (hc, get_lines_item d cs rest h)

get_lines_last : (d c : ℕ) (cs : Bytes) → Without d (c ∷ cs) → get_lines d (c ∷ cs) ≡ (c ∷ cs) ∷ []
unfolding get_lines
get_lines_last d c [] (hc, h) = rw hc
get_lines_last d c (b ∷ bs) (hc, h) = rw (hc, get_lines_last d b bs h)

pub get_lines-join :
    (d : ℕ) (xs : List Bytes) → All (Without d) xs → LastNonempty xs → get_lines d (join d xs) ≡ xs
get_lines-join d [] h last = unfold get_lines in refl
get_lines-join d ([] ∷ []) h last = absurd (last refl)
get_lines-join d ((c ∷ cs) ∷ []) (h, _) last = get_lines_last d c cs h
get_lines-join d (x ∷ y ∷ ys) (hx, h) last =
    get_lines_item d x (join d (y ∷ ys)) hx ∙ ap (λ t. x ∷ t) (get_lines-join d (y ∷ ys) h last)

-- Splitting the join of items without a comma, the last of them not empty, gives the items
-- trimmed.
pub split_csv-join :
    (xs : List Bytes)
    → All (Without b',') xs
    → LastNonempty xs
    → split_csv (join b',' xs) ≡ map trim xs
unfolding split_csv
split_csv-join [] h last = unfold get_lines in refl
split_csv-join (x ∷ xs) h last = rw (get_lines-join b',' (x ∷ xs) h last) refl
