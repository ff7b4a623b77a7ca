-- ===== src/Demand/Affiliate/Text.antt =====
-- Texts that are cut at a character and put together again: `indexOf` with `slice`, `split` and
-- `join` of packages/core/src/demand/affiliate/amazon.ts.
use adgate.Prelude.{
  ℕ, ◌≡◌, refl, ap, ◌∙◌, Bool, true, false, ◌&&◌, not, List, [], ◌∷◌, ◌++◌, arith, if◌then◌else◌,
  eqb, all, filter,
}

-- What comes before the first `c`.
abbrev pub before : ℕ → List ℕ → List ℕ
before c [] = []
before c (x ∷ xs) = if eqb x c then [] else x ∷ before c xs

-- From the first `c` on.
abbrev pub from : ℕ → List ℕ → List ℕ
from c [] = []
from c (x ∷ xs) = if eqb x c then x ∷ xs else from c xs

abbrev tail_of : List ℕ → List ℕ
tail_of [] = []
tail_of (x ∷ xs) = xs

-- After the first `c`.
abbrev pub after : ℕ → List ℕ → List ℕ
after c xs = tail_of (from c xs)

abbrev pub push_first : ℕ → List (List ℕ) → List (List ℕ)
push_first x [] = (x ∷ []) ∷ []
push_first x (piece ∷ pieces) = (x ∷ piece) ∷ pieces

-- `text.split(c)`
abbrev pub split_on : ℕ → List ℕ → List (List ℕ)
split_on c [] = [] ∷ []
split_on c (x ∷ xs) = let rest = split_on c xs in if eqb x c then [] ∷ rest else push_first x rest

-- `pieces.join(c)`
abbrev pub join_with : ℕ → List (List ℕ) → List ℕ
join_with c [] = []
join_with c (piece ∷ []) = piece
join_with c (piece ∷ next ∷ pieces) = piece ++ c ∷ join_with c (next ∷ pieces)

-- No character of the text is `c`.
abbrev pub lacks : ℕ → List ℕ → Bool
lacks c text = all (λ x. not (eqb x c)) text

pub lacks-append : (c : ℕ) (xs ys : List ℕ) → lacks c (xs ++ ys) ≡ (lacks c xs && lacks c ys)
lacks-append c [] ys = refl
lacks-append c (x ∷ xs) ys = ground (arith, lacks-append c xs ys)

pub before-lacks : (c : ℕ) (text : List ℕ) → lacks c (before c text) ≡ true
before-lacks c [] = refl
before-lacks c (x ∷ xs) = ground (arith, before-lacks c xs)

pub before_lacking :
    (c d : ℕ) (text : List ℕ) → lacks d text ≡ true → lacks d (before c text) ≡ true
before_lacking c d [] h = refl
before_lacking c d (x ∷ xs) h = ground (arith, before_lacking c d xs)

pub after_lacking : (c d : ℕ) (text : List ℕ) → lacks d text ≡ true → lacks d (after c text) ≡ true
after_lacking c d [] h = refl
after_lacking c d (x ∷ xs) h = ground (arith, after_lacking c d xs)

-- A text without `c` before the rest ends where a rest that starts with `c` begins.
pub before-append :
    (c : ℕ) (front rest : List ℕ) → lacks c front ≡ true → before c (front ++ c ∷ rest) ≡ front
before-append c [] rest h = ground arith
before-append c (x ∷ front) rest h = ground (arith, before-append c front rest)

pub from-append :
    (c : ℕ) (front rest : List ℕ) → lacks c front ≡ true → from c (front ++ rest) ≡ from c rest
from-append c [] rest h = refl
from-append c (x ∷ front) rest h = ground (arith, from-append c front rest)

pub before_whole : (c : ℕ) (text : List ℕ) → lacks c text ≡ true → before c text ≡ text
before_whole c [] h = refl
before_whole c (x ∷ xs) h = ground (arith, before_whole c xs)

pub from-from : (c : ℕ) (text : List ℕ) → from c (from c text) ≡ from c text
from-from c [] = refl
from-from c (x ∷ xs) = ground (arith, from-from c xs)

pub before-from : (c : ℕ) (text : List ℕ) → before c (from c text) ≡ []
before-from c [] = refl
before-from c (x ∷ xs) = ground (arith, before-from c xs)

split_lacking : (c : ℕ) (piece : List ℕ) → lacks c piece ≡ true → split_on c piece ≡ piece ∷ []
split_lacking c [] h = refl
split_lacking c (x ∷ piece) h = ground (arith, split_lacking c piece)

split-append :
    (c : ℕ) (piece rest : List ℕ)
    → lacks c piece ≡ true
    → split_on c (piece ++ c ∷ rest) ≡ piece ∷ split_on c rest
split-append c [] rest h = ground arith
split-append c (x ∷ piece) rest h = ground (arith, split-append c piece rest)

-- Pieces that are joined are read back by a split, if none of them holds the separator.
pub split-join :
    (c : ℕ) (piece : List ℕ) (pieces : List (List ℕ))
    → all (lacks c) (piece ∷ pieces) ≡ true
    → split_on c (join_with c (piece ∷ pieces)) ≡ piece ∷ pieces
split-join c piece [] h = split_lacking c piece (ground arith)
split-join c piece (next ∷ pieces) h =
    split-append c piece (join_with c (next ∷ pieces)) (ground arith)
    ∙ ap (λ rest. piece ∷ rest) (split-join c next pieces (ground arith))

pub split-lacks : (c : ℕ) (text : List ℕ) → all (lacks c) (split_on c text) ≡ true
split-lacks c [] = refl
split-lacks c (x ∷ xs) = step (split_on c xs) (split-lacks c xs)
  where
    step :
        (rest : List (List ℕ))
        → all (lacks c) rest ≡ true
        → all (lacks c) (if eqb x c then [] ∷ rest else push_first x rest) ≡ true
    step [] h = ground arith
    step (piece ∷ rest) h = ground arith

pub split_lacking_other :
    (c d : ℕ) (text : List ℕ) → lacks d text ≡ true → all (lacks d) (split_on c text) ≡ true
split_lacking_other c d [] h = refl
split_lacking_other c d (x ∷ xs) h =
    step (split_on c xs) (split_lacking_other c d xs (ground arith))
  where
    step :
        (rest : List (List ℕ))
        → all (lacks d) rest ≡ true
        → all (lacks d) (if eqb x c then [] ∷ rest else push_first x rest) ≡ true
    step [] k = ground arith
    step (piece ∷ rest) k = ground arith

pub join-lacks :
    (c d : ℕ) (pieces : List (List ℕ))
    → eqb c d ≡ false
    → all (lacks d) pieces ≡ true
    → lacks d (join_with c pieces) ≡ true
join-lacks c d [] e h = refl
join-lacks c d (piece ∷ []) e h = ground arith
join-lacks c d (piece ∷ next ∷ pieces) e h = ground (
  arith,
  lacks-append d piece (c ∷ join_with c (next ∷ pieces)),
  join-lacks c d (next ∷ pieces) e,
)

pub before_past :
    (c : ℕ) (front rest : List ℕ)
    → lacks c front ≡ true
    → before c (front ++ rest) ≡ front ++ before c rest
before_past c [] rest h = refl
before_past c (x ∷ front) rest h = ground (arith, before_past c front rest)

-- The pieces of a list that pass a test lack what all its pieces lack.
pub filter-lacks :
    (c : ℕ) (p : List ℕ → Bool) (pieces : List (List ℕ))
    → all (lacks c) pieces ≡ true
    → all (lacks c) (filter p pieces) ≡ true
filter-lacks c p [] h = refl
filter-lacks c p (piece ∷ pieces) h = ground (arith, filter-lacks c p pieces)

pub all-append :
    (q : List ℕ → Bool) (xs ys : List (List ℕ)) → all q (xs ++ ys) ≡ (all q xs && all q ys)
all-append q [] ys = refl
all-append q (x ∷ xs) ys = ground (arith, all-append q xs ys)

pub after-append :
    (c : ℕ) (front rest : List ℕ) → lacks c front ≡ true → after c (front ++ c ∷ rest) ≡ rest
after-append c [] rest h = ground arith
after-append c (x ∷ front) rest h = ground (arith, after-append c front rest)

-- What all characters of a text pass, all of its parts pass.
module _ (p : ℕ → Bool) where
  pub before-all : (c : ℕ) (text : List ℕ) → all p text ≡ true → all p (before c text) ≡ true
  before-all c [] h = refl
  before-all c (x ∷ xs) h = ground (arith, before-all c xs)

  pub from-all : (c : ℕ) (text : List ℕ) → all p text ≡ true → all p (from c text) ≡ true
  from-all c [] h = refl
  from-all c (x ∷ xs) h = ground (arith, from-all c xs)

  tail-all : (text : List ℕ) → all p text ≡ true → all p (tail_of text) ≡ true
  tail-all [] h = refl
  tail-all (x ∷ xs) h = ground arith

  pub after-all : (c : ℕ) (text : List ℕ) → all p text ≡ true → all p (after c text) ≡ true
  after-all c text h = tail-all (from c text) (from-all c text h)

  pub chars-append : (xs ys : List ℕ) → all p (xs ++ ys) ≡ (all p xs && all p ys)
  chars-append [] ys = refl
  chars-append (x ∷ xs) ys = ground (arith, chars-append xs ys)

  pub split-all : (c : ℕ) (text : List ℕ) → all p text ≡ true → all (all p) (split_on c text) ≡ true
  split-all c [] h = refl
  split-all c (x ∷ xs) h = step (split_on c xs) (split-all c xs (ground arith))
    where
      step :
          (rest : List (List ℕ))
          → all (all p) rest ≡ true
          → all (all p) (if eqb x c then [] ∷ rest else push_first x rest) ≡ true
      step [] k = ground arith
      step (piece ∷ rest) k = ground arith

  pub join-all :
      (c : ℕ) (pieces : List (List ℕ))
      → p c ≡ true
      → all (all p) pieces ≡ true
      → all p (join_with c pieces) ≡ true
  join-all c [] e h = refl
  join-all c (piece ∷ []) e h = ground arith
  join-all c (piece ∷ next ∷ pieces) e h =
      ground
        (arith, chars-append piece (c ∷ join_with c (next ∷ pieces)), join-all c (next ∷ pieces) e)

  pub filter-all :
      (q : List ℕ → Bool) (pieces : List (List ℕ))
      → all (all p) pieces ≡ true
      → all (all p) (filter q pieces) ≡ true
  filter-all q [] h = refl
  filter-all q (piece ∷ pieces) h = ground (arith, filter-all q pieces)
