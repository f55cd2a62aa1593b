-- ===== src/Config/Text/Trim.antt =====
-- `trim` cuts the white space at both ends and nothing else.
use carts.Base.{true, false, [], ◌∷◌, ◌++◌, All, ◌≡◌, refl, ◌∙◌, ap, Bool-cases, inl, inr}
use carts.Config.{Bytes}
use carts.Config.Text.{is_space, trim_front, keep_back, trim_back, trim}

abbrev pub Spaces : Bytes → Type 0
Spaces s = All (λ c. is_space c ≡ true) s

-- The text is empty or begins with a byte that is no white space.
abbrev pub BeginsTight : Bytes → Type 0
BeginsTight [] = Unit
BeginsTight (c ∷ cs) = is_space c ≡ false

-- The text is empty or ends with a byte that is no white space.
abbrev pub EndsTight : Bytes → Type 0
EndsTight [] = Unit
EndsTight (c ∷ []) = is_space c ≡ false
EndsTight (c ∷ d ∷ ds) = EndsTight (d ∷ ds)

trim_front_split :
    (s : Bytes)
    → (pre : Bytes) × (Spaces pre) × (s ≡ pre ++ trim_front s) × BeginsTight (trim_front s)
unfolding trim_front
trim_front_split [] = ([], tt, refl, tt)
trim_front_split (c ∷ cs) = elim (Bool-cases (is_space c)) [
  | inl e ↦
      let (pre, spaces, split, tight) = trim_front_split cs in
      rw e (c ∷ pre, (e, spaces), ap (λ t. c ∷ t) split, tight)
  | inr e ↦ rw e ([], tt, refl, e)
]

trim_back_split :
    (s : Bytes)
    → (post : Bytes) × (Spaces post) × (s ≡ trim_back s ++ post) × EndsTight (trim_back s)
unfolding trim_back
trim_back_split [] = ([], tt, refl, tt)
trim_back_split (c ∷ cs) =
    let (post, spaces, split, tight) = trim_back_split cs in
    go (trim_back cs) post spaces split tight
  where
    go :
        (kept post : Bytes)
        → Spaces post
        → cs ≡ kept ++ post
        → EndsTight kept
        → (post' : Bytes) × (Spaces post')
          × (c ∷ cs ≡ keep_back c kept ++ post')
          × EndsTight (keep_back c kept)
    go [] post spaces split tight = elim (Bool-cases (is_space c)) [
      | inl e ↦ rw (e, keep_back) (c ∷ post, (e, spaces), ap (λ t. c ∷ t) split, tt)
      | inr e ↦ rw (e, keep_back) (post, spaces, ap (λ t. c ∷ t) split, e)
    ]
    go (d ∷ ds) post spaces split tight = (post, spaces, ap (λ t. c ∷ t) split, tight)

BeginsTight-trim_back : (s : Bytes) → BeginsTight s → BeginsTight (trim_back s)
unfolding trim_back
BeginsTight-trim_back [] h = tt
BeginsTight-trim_back (c ∷ cs) h = go (trim_back cs)
  where
    go : (kept : Bytes) → BeginsTight (keep_back c kept)
    go [] = rw (h, keep_back) h
    go (d ∷ ds) = h

-- A text is white space, then its trimmed form, then white space; and the trimmed form neither
-- begins nor ends with white space.
pub trim_split :
    (s : Bytes)
    → (pre post : Bytes) × Spaces pre
      × Spaces post
      × (s ≡ pre ++ (trim s ++ post))
      × BeginsTight (trim s)
      × EndsTight (trim s)
unfolding trim
trim_split s =
    let (pre, hp, split, begins) = trim_front_split s in
    let (post, hq, split', ends) = trim_back_split (trim_front s) in
    (
      pre,
      post,
      hp,
      hq,
      split ∙ ap (λ t. pre ++ t) split',
      BeginsTight-trim_back (trim_front s) begins,
      ends,
    )
