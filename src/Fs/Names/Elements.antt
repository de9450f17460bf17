-- ===== src/Fs/Names/Elements.antt =====
-- Lab/code/fs.c: `skipelem` against the list of a path's elements.
use xmu_learning_os.Base.{
  Bytes, List, Option, [], ap, arith, false, get_or, if_both, if◌then◌else◌, inl, inr, leb, length,
  length-take, none, put_bytes, put_bytes_above, put_bytes_inside, refl, some, suc, sym, take,
  update, zero, ℕ, ◌-◌, ◌<◌, ◌==◌, ◌∙◌, ◌∷◌, ◌≡◌, ◌≤◌, ◌⊎◌,
}
use xmu_learning_os.Fs.{dirsiz}
use xmu_learning_os.Fs.Names.{
  after_element, copy_element, element, is_nil, skip_slashes, skipelem, slash,
}
use mathlib.Core.Path.{subst}

-- The elements of a path, without empty ones, by one pass from the right: `word` is the element
-- that the character in front belongs to.
unfoldable pub split : List ℕ → List ℕ × List (List ℕ)
split [] = ([], [])
split (c ∷ cs) =
    let (word, rest) = split cs in
    if c == slash then ([], if is_nil word then rest else word ∷ rest) else (c ∷ word, rest)

unfoldable pub elements : List ℕ → List (List ℕ)
unfolding split
elements path = let (word, rest) = split path in if is_nil word then rest else word ∷ rest

element-split : (p : List ℕ) → (split p).0 ≡ element p
unfolding split element
element-split [] = refl
element-split (c ∷ cs) = ground (arith, element-split cs)

elements-skip_slashes : (p : List ℕ) → elements (skip_slashes p) ≡ elements p
unfolding elements split skip_slashes
elements-skip_slashes [] = refl
elements-skip_slashes (c ∷ cs) = ground (arith, elements-skip_slashes cs)

elements-after_element : (p : List ℕ) → elements (after_element p) ≡ (split p).1
unfolding elements split after_element
elements-after_element [] = refl
elements-after_element (c ∷ cs) = ground (arith, elements-after_element cs)

skip_slashes-head :
    (p : List ℕ) (c : ℕ) (cs : List ℕ) → skip_slashes p ≡ c ∷ cs → (c == slash) ≡ false
unfolding skip_slashes
skip_slashes-head [] c cs e = ground (arith, e)
skip_slashes-head (d ∷ ds) c cs e = ground (arith, skip_slashes-head ds c cs)

length-skip_slashes : (p : List ℕ) → length (skip_slashes p) ≤ length p
unfolding skip_slashes
length-skip_slashes [] = omega arith
length-skip_slashes (c ∷ cs) = ground (arith, length-skip_slashes cs)

length-after_element : (p : List ℕ) → length (after_element p) ≤ length p
unfolding after_element
length-after_element [] = omega arith
length-after_element (c ∷ cs) = ground (arith, length-after_element cs)

skip_slashes_twice : (p : List ℕ) → skip_slashes (skip_slashes p) ≡ skip_slashes p
unfolding skip_slashes
skip_slashes_twice [] = refl
skip_slashes_twice (c ∷ cs) = ground (arith, skip_slashes_twice cs)

elements-split_head :
    (c : ℕ) (cs : List ℕ)
    → (c == slash) ≡ false
    → elements (c ∷ cs) ≡ element (c ∷ cs) ∷ elements (after_element (c ∷ cs))
unfolding elements split element after_element
elements-split_head c cs h = ground (arith, h, element-split cs, elements-after_element cs)

elements_nil : elements [] ≡ []
unfolding elements split
elements_nil = refl

shorter :
    (c : ℕ) (cs : List ℕ) → (c == slash) ≡ false → length (after_element (c ∷ cs)) < length (c ∷ cs)
unfolding after_element
shorter c cs h = ground (arith, length-after_element cs)

skipelem_empty : (p : List ℕ) (name : Bytes) → skip_slashes p ≡ [] → skipelem p name ≡ none
unfolding skipelem
skipelem_empty p name e = rw (skipelem, e)

skipelem_first :
    (p : List ℕ) (name : Bytes) (c : ℕ) (cs : List ℕ)
    → skip_slashes p ≡ c ∷ cs
    → skipelem p name
      ≡ some (skip_slashes (after_element (c ∷ cs)), copy_element name (element (c ∷ cs)))
unfolding skipelem
skipelem_first p name c cs e = rw (skipelem, e)

List-cases : (p : List ℕ) → (p ≡ []) ⊎ ((c : ℕ) × (cs : List ℕ) × (p ≡ c ∷ cs))
List-cases [] = inl refl
List-cases (c ∷ cs) = inr (c, cs, refl)

-- The buffer of `DIRSIZ` bytes has the element, cut to its size, a NUL after a shorter one, and
-- otherwise what it had; no byte outside the buffer is written.
unfoldable pub IsNamed : List ℕ → Bytes → Bytes → Type 0
IsNamed e name name' =
    ((k : ℕ) → k < dirsiz → k < length e → name' k ≡ get_or e k 0)
    × (length e < dirsiz → name' (length e) ≡ 0)
    × ((k : ℕ) → (dirsiz ≤ k) ⊎ (length e < k) → name' k ≡ name k)

get_or-take : (n k : ℕ) (e : List ℕ) → k < n → get_or (take n e) k 0 ≡ get_or e k 0
get_or-take zero k e h = absurd (omega arith)
get_or-take (suc n) k [] h = refl
get_or-take (suc n) zero (c ∷ e) h = refl
get_or-take (suc n) (suc k) (c ∷ e) h = get_or-take n k e (omega arith)

-- An element that fills the buffer, and one that leaves room for a NUL.
cut :
    (name : Bytes) (e : List ℕ)
    → dirsiz ≤ length e
    → IsNamed e name (put_bytes name 0 (take dirsiz e))
unfolding IsNamed
cut name e h =
    let l = length-take dirsiz e h in
    (
      λ k a b.
          let start : k - 0 ≡ k = omega arith in
          put_bytes_inside name 0 (take dirsiz e) k (omega arith) (omega (arith, l))
          ∙ ap (λ x. get_or (take dirsiz e) x 0) start
          ∙ get_or-take dirsiz k e a,
      λ a. absurd (omega arith),
      λ k o. elim o [
        | inl a ↦ put_bytes_above name 0 (take dirsiz e) k (omega (arith, l))
        | inr a ↦ put_bytes_above name 0 (take dirsiz e) k (omega (arith, l))
      ],
    )

ended :
    (name : Bytes) (e : List ℕ)
    → length e < dirsiz
    → IsNamed e name (update (put_bytes name 0 e) (length e) 0)
unfolding IsNamed
ended name e h = (
  λ k a b. ground (arith, put_bytes_inside name 0 e k (omega arith) (omega arith)),
  λ a. ground arith,
  λ k o. elim o [
    | inl a ↦ ground (arith, put_bytes_above name 0 e k (omega arith))
    | inr a ↦ ground (arith, put_bytes_above name 0 e k (omega arith))
  ],
)

copy_element-IsNamed : (name : Bytes) (e : List ℕ) → IsNamed e name (copy_element name e)
unfolding copy_element
copy_element-IsNamed name e =
    if_both (IsNamed e name) (leb dirsiz (length e)) (put_bytes name 0 (take dirsiz e))
      (update (put_bytes name 0 e) (length e) 0) (λ t. cut name e (ground arith))
      (λ f. ended name e (ground arith))

-- What `skipelem` does to the list of a path's elements.
unfoldable pub Skipped : List ℕ → Bytes → Option (List ℕ × Bytes) → Type 0
Skipped p name none = elements p ≡ []
Skipped p name (some (rest, name')) =
    (e : List ℕ) × (elements p ≡ e ∷ elements rest)
    × IsNamed e name name'
    × (skip_slashes rest ≡ rest)
    × (length rest < length p)

-- `skipelem` returns 0 where the path has no elements. Else the buffer has the first element, cut to
-- `DIRSIZ` bytes or ended by a NUL, and no byte after that changes; and the elements of the path that
-- it returns, which is shorter and has no leading slash, are the others.
pub skipelem_lem : (p : List ℕ) (name : Bytes) → Skipped p name (skipelem p name)
unfolding Skipped
skipelem_lem p name = elim (List-cases (skip_slashes p)) [
  | inl e ↦
      subst (Skipped p name) (sym (skipelem_empty p name e))
        (sym (elements-skip_slashes p) ∙ ap elements e ∙ elements_nil)
  | inr (c, cs, e) ↦
      (let h = skip_slashes-head p c cs e in
        subst (Skipped p name) (sym (skipelem_first p name c cs e)) (
          element (c ∷ cs),
          (sym (elements-skip_slashes p)
              ∙ ap elements e
              ∙ elements-split_head c cs h
              ∙ ap (λ r. element (c ∷ cs) ∷ r)
                  (sym (elements-skip_slashes (after_element (c ∷ cs))))),
          copy_element-IsNamed name (element (c ∷ cs)),
          skip_slashes_twice (after_element (c ∷ cs)),
          omega (
            arith,
            length-skip_slashes (after_element (c ∷ cs)),
            shorter c cs h,
            length-skip_slashes p,
            ap length e,
          ),
        ))
]

pub skipelem-some :
    (p : List ℕ) (name : Bytes) (rest : List ℕ) (name' : Bytes)
    → skipelem p name ≡ some (rest, name')
    → Skipped p name (some (rest, name'))
skipelem-some p name rest name' e = subst (Skipped p name) e (skipelem_lem p name)
