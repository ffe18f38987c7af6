-- ===== src/Python/Text.antt =====
-- `str.split`, `str.rpartition`, `str.join` and their like, over code points.
pub mod Laws
use connextion_z_luna.Prelude.{
  ℕ, zero, suc, Bool, true, false, not, ◌&&◌, ◌==◌, ◌-◌, Option, none, some, List, [], ◌∷◌, ◌++◌,
  any, length, if◌then◌else◌,
}

-- `c in s`, for one character.
abbrev pub has : ℕ → List ℕ → Bool
has c s = any (λ d. d == c) s

abbrev pub same_text : List ℕ → List ℕ → Bool
same_text [] [] = true
same_text (a ∷ s) (b ∷ t) = a == b && same_text s t
same_text _ _ = false

abbrev pub starts_with : List ℕ → List ℕ → Bool
starts_with [] s = true
starts_with (p ∷ ps) [] = false
starts_with (p ∷ ps) (c ∷ s) = p == c && starts_with ps s

-- A character before the first part.
abbrev pub on_first : ℕ → List (List ℕ) → List (List ℕ)
on_first c [] = (c ∷ []) ∷ []
on_first c (part ∷ parts) = (c ∷ part) ∷ parts

-- `s.split(sep)`, for one character.
unfoldable pub split : ℕ → List ℕ → List (List ℕ)
split sep [] = [] ∷ []
split sep (c ∷ s) = let parts = split sep s in if c == sep then [] ∷ parts else on_first c parts

-- `sep.join(parts)`.
unfoldable pub join : ℕ → List (List ℕ) → List ℕ
join sep [] = []
join sep (part ∷ []) = part
join sep (part ∷ next ∷ parts) = part ++ sep ∷ join sep (next ∷ parts)

abbrev or_here : ℕ → ℕ → List ℕ → Option (List ℕ × List ℕ) → Option (List ℕ × List ℕ)
or_here sep c s none = if c == sep then some ([], s) else none
or_here sep c s (some (before, after)) = some (c ∷ before, after)

-- The parts before and after the last separator.
unfoldable pub last_split : ℕ → List ℕ → Option (List ℕ × List ℕ)
last_split sep [] = none
last_split sep (c ∷ s) = or_here sep c s (last_split sep s)

-- `s.rpartition(sep)` without its middle.
unfoldable pub rpartition : ℕ → List ℕ → List ℕ × List ℕ
unfolding last_split
rpartition sep s = elim (last_split sep s) [ none ↦ ([], s) | some parts ↦ parts ]

-- `s.replace(word, "")`; `skip` characters of an occurrence are still to be left out.
unfoldable pub remove_from : List ℕ → ℕ → List ℕ → List ℕ
remove_from word skip [] = []
remove_from word (suc skip) (c ∷ s) = remove_from word skip s
remove_from word zero (c ∷ s) = elim (starts_with word (c ∷ s)) [
  | true ↦ remove_from word (length word - 1) s
  | false ↦ c ∷ remove_from word zero s
]

unfoldable pub remove : List ℕ → List ℕ → List ℕ
unfolding remove_from
remove word s = remove_from word 0 s

unfoldable pub lstrip_by : (ℕ → Bool) → List ℕ → List ℕ
lstrip_by test [] = []
lstrip_by test (c ∷ s) = if test c then lstrip_by test s else c ∷ s

abbrev unless_blank : (ℕ → Bool) → ℕ → List ℕ → List ℕ
unless_blank test c [] = if test c then [] else c ∷ []
unless_blank test c (d ∷ s) = c ∷ d ∷ s

unfoldable pub rstrip_by : (ℕ → Bool) → List ℕ → List ℕ
rstrip_by test [] = []
rstrip_by test (c ∷ s) = unless_blank test c (rstrip_by test s)

-- `s.strip(characters)`.
unfoldable pub strip_by : (ℕ → Bool) → List ℕ → List ℕ
unfolding lstrip_by rstrip_by
strip_by test s = rstrip_by test (lstrip_by test s)
