-- ===== src/Python/Text/Laws.antt =====
-- Laws of the text operations.
use connextion_z_luna.Prelude.{
  ℕ, Bool, true, false, ◌≡◌, refl, ap, ◌∙◌, none, some, List, [], ◌∷◌, ◌++◌, any, arith,
}
use connextion_z_luna.Python.Text.{
  has, starts_with, split, join, last_split, rpartition, remove_from, remove, lstrip_by, rstrip_by,
  strip_by,
}

pub split-one : (sep : ℕ) (s : List ℕ) → has sep s ≡ false → split sep s ≡ s ∷ []
unfolding split
split-one sep [] h = refl
split-one sep (c ∷ s) h = ground (arith, split-one sep s)

pub split-append :
    (sep : ℕ) (s t : List ℕ) → has sep s ≡ false → split sep (s ++ sep ∷ t) ≡ s ∷ split sep t
unfolding split
split-append sep [] t h = ground arith
split-append sep (c ∷ s) t h = ground (arith, split-append sep s t)

-- The parts of a join are the parts, if none holds the separator.
pub split-join :
    (sep : ℕ) (part : List ℕ) (parts : List (List ℕ))
    → has sep part ≡ false
    → any (has sep) parts ≡ false
    → split sep (join sep (part ∷ parts)) ≡ part ∷ parts
unfolding join
split-join sep part [] h k = split-one sep part h
split-join sep part (next ∷ parts) h k =
    split-append sep part (join sep (next ∷ parts)) h
    ∙ ap (λ ps. part ∷ ps) (split-join sep next parts (ground arith) (ground arith))

last_split-none : (sep : ℕ) (s : List ℕ) → has sep s ≡ false → last_split sep s ≡ none
unfolding last_split
last_split-none sep [] h = refl
last_split-none sep (c ∷ s) h = ground (arith, last_split-none sep s)

last_split-append :
    (sep : ℕ) (s t : List ℕ) → has sep t ≡ false → last_split sep (s ++ sep ∷ t) ≡ some (s, t)
unfolding last_split
last_split-append sep [] t h = ground (arith, last_split-none sep t)
last_split-append sep (c ∷ s) t h = ground (arith, last_split-append sep s t)

pub rpartition-append :
    (sep : ℕ) (s t : List ℕ) → has sep t ≡ false → rpartition sep (s ++ sep ∷ t) ≡ (s, t)
unfolding rpartition
rpartition-append sep s t h = rw (last_split-append sep s t h, rpartition)

starts_with-has :
    (c : ℕ) (word s : List ℕ) → starts_with word s ≡ true → has c word ≡ true → has c s ≡ true
starts_with-has c [] s h k = absurd cc
starts_with-has c (p ∷ word) [] h k = absurd cc
starts_with-has c (p ∷ word) (d ∷ s) h k = ground (arith, starts_with-has c word s)

-- Nothing is removed from a text without a character of the word.
pub remove-absent :
    (c : ℕ) (word s : List ℕ) → has c word ≡ true → has c s ≡ false → remove word s ≡ s
unfolding remove remove_from
remove-absent c word [] h k = refl
remove-absent c word (d ∷ s) h k =
    ground (arith, starts_with-has c word (d ∷ s), remove-absent c word s)

module _ (test : ℕ → Bool) where
  lstrip_by-clean : (s : List ℕ) → any test s ≡ false → lstrip_by test s ≡ s
  unfolding lstrip_by
  lstrip_by-clean [] h = refl
  lstrip_by-clean (c ∷ s) h = ground arith

  rstrip_by-clean : (s : List ℕ) → any test s ≡ false → rstrip_by test s ≡ s
  unfolding rstrip_by
  rstrip_by-clean [] h = refl
  rstrip_by-clean (c ∷ []) h = ground arith
  rstrip_by-clean (c ∷ d ∷ s) h = ground (arith, rstrip_by-clean (d ∷ s))

  pub strip_by-clean : (s : List ℕ) → any test s ≡ false → strip_by test s ≡ s
  unfolding strip_by
  strip_by-clean s h = rw (lstrip_by-clean s h) (rstrip_by-clean s h)
