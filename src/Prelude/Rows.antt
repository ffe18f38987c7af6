-- ===== src/Prelude/Rows.antt =====
-- Rows of a table under a key: where a row is found, and what a write by its key changes.
use Prim.Native.Nat.{ℕ, ◌+◌}
use mathlib.Core.Path.{◌≡◌, refl, ap, subst}
use mathlib.Core.Logic.{inl, inr}
use mathlib.Core.Bool.{Bool, true, false, not, ◌&&◌, ◌||◌}
use mathlib.Core.Option.{some}
use mathlib.Core.List.{List, [], ◌∷◌, ◌++◌, map}
use native.Mathlib.Omega.{arith}
use connextion_z_luna.Prelude.Tests.{◌==◌, if◌then◌else◌, Bool-cases}
use connextion_z_luna.Prelude.Lists.{any, find, filter, count, contains, count_distinct}

module _ {A : Type 0} where
  pub any-middle :
      (test : A → Bool) (xs : List A) (y : A) (ys : List A)
      → any test (xs ++ y ∷ ys) ≡ false
      → test y ≡ false
  any-middle test [] y ys h = ground arith
  any-middle test (x ∷ xs) y ys h = any-middle test xs y ys (ground arith)

  pub count-append :
      (test : A → Bool) (xs ys : List A) → count test (xs ++ ys) ≡ count test xs + count test ys
  count-append test [] ys = omega arith
  count-append test (x ∷ xs) ys = ground (arith, count-append test xs ys)

  pub filter-append :
      (test : A → Bool) (xs ys : List A) → filter test (xs ++ ys) ≡ filter test xs ++ filter test ys
  filter-append test [] ys = refl
  filter-append test (x ∷ xs) ys = elim (Bool-cases (test x)) [
    | inl hit ↦ rw hit (ap (λ l. x ∷ l) (filter-append test xs ys))
    | inr miss ↦ rw miss (filter-append test xs ys)
  ]

==_intro : (a b : ℕ) → a ≡ b → (a == b) ≡ true
==_intro a b h = ground arith

module _ {A : Type 0} (key : A → ℕ) where
  abbrev pub has_key : ℕ → List A → Bool
  has_key k rows = any (λ r. key r == k) rows

  -- No two rows have one key.
  abbrev pub unique : List A → Bool
  unique [] = true
  unique (r ∷ rows) = not (has_key (key r) rows) && unique rows

  -- The write of a row by its key.
  abbrev pub write : A → List A → List A
  write r rows = map (λ q. if key q == key r then r else q) rows

  -- Where a row stands, alone with its key.
  pub record IsLocated (row : A) (rows : List A) : Type 0 where
    pub before : List A
    pub after : List A
    pub split : rows ≡ before ++ row ∷ after
    pub not_before : has_key (key row) before ≡ false
    pub not_after : has_key (key row) after ≡ false

  locate_here :
      (row x : A) (rows : List A) → x ≡ row → unique (x ∷ rows) ≡ true → IsLocated row (x ∷ rows)
  locate_here row x rows same u = record {
    before = [];
    after = rows;
    split = ap (λ r. r ∷ rows) same;
    not_before = refl;
    not_after = subst (λ r. has_key (key r) rows ≡ false) same (ground arith);
  }

  locate_later :
      (row x : A) (rows : List A)
      → unique (x ∷ rows) ≡ true
      → IsLocated row rows
      → IsLocated row (x ∷ rows)
  locate_later row x rows u l =
      let apart =
        any-middle (λ r. key r == key x) l.before row l.after
          (subst (λ rs. has_key (key x) rs ≡ false) l.split (ground arith)) in
      record {
        before = x ∷ l.before;
        after = l.after;
        split = ap (λ rs. x ∷ rs) l.split;
        not_before = ground (arith, l.not_before);
        not_after = l.not_after;
      }

  pub find-IsLocated :
      (test : A → Bool) (rows : List A) (row : A)
      → unique rows ≡ true
      → find test rows ≡ some row
      → IsLocated row rows
  find-IsLocated test [] row u h = absurd cc
  find-IsLocated test (x ∷ rows) row u h = elim (Bool-cases (test x)) [
    | inl hit ↦ locate_here row x rows (same (rw hit at h)) u
    | inr miss ↦
        locate_later row x rows u (find-IsLocated test rows row (ground arith) (rw miss at h))
  ]
    where
      same : some x ≡ some row → x ≡ row
      same e = cc

  write_nowhere : (r : A) (rows : List A) → has_key (key r) rows ≡ false → write r rows ≡ rows
  write_nowhere r [] h = refl
  write_nowhere r (x ∷ rows) h = elim (Bool-cases (key x == key r)) [
    | inl hit ↦ absurd (ground arith)
    | inr miss ↦ rw miss (ap (λ rs. x ∷ rs) (write_nowhere r rows (ground arith)))
  ]

  -- A write at a key that stands once changes that row only.
  pub write-middle :
      (r row : A) (before after : List A)
      → key row ≡ key r
      → has_key (key r) before ≡ false
      → has_key (key r) after ≡ false
      → write r (before ++ row ∷ after) ≡ before ++ r ∷ after
  write-middle r row [] after e b a =
      rw (==_intro (key row) (key r) e) (ap (λ rs. r ∷ rs) (write_nowhere r after a))
  write-middle r row (x ∷ before) after e b a = elim (Bool-cases (key x == key r)) [
    | inl hit ↦ absurd (ground arith)
    | inr miss ↦ rw miss (ap (λ rs. x ∷ rs) (write-middle r row before after e (ground arith) a))
  ]

-- `len(set(...))` with one identifier more.
pub contains-middle :
    (n : ℕ) (ms : List ℕ) (m : ℕ) (ks : List ℕ)
    → contains (ms ++ m ∷ ks) n ≡ (m == n || contains (ms ++ ks) n)
contains-middle n [] m ks = refl
contains-middle n (k ∷ ms) m ks = ground (arith, contains-middle n ms m ks)

pub count_distinct-middle :
    (ms : List ℕ) (m : ℕ) (ks : List ℕ)
    → count_distinct (ms ++ m ∷ ks)
      ≡ count_distinct (ms ++ ks) + (if contains (ms ++ ks) m then 0 else 1)
count_distinct-middle [] m ks = ground arith
count_distinct-middle (k ∷ ms) m ks =
    ground (arith, contains-middle k ms m ks, count_distinct-middle ms m ks)

module _ {A : Type 0} (key : A → ℕ) where
  has_key-snoc :
      (k : ℕ) (rows : List A) (r : A)
      → any (λ q. key q == k) (rows ++ r ∷ []) ≡ (any (λ q. key q == k) rows || key r == k)
  has_key-snoc k [] r = ground arith
  has_key-snoc k (x ∷ rows) r = ground (arith, has_key-snoc k rows r)

  pub unique-snoc :
      (rows : List A) (r : A)
      → unique key rows ≡ true
      → any (λ q. key q == key r) rows ≡ false
      → unique key (rows ++ r ∷ []) ≡ true
  unique-snoc [] r u h = refl
  unique-snoc (x ∷ rows) r u h = ground (arith, has_key-snoc (key x) rows r, unique-snoc rows r)

module _ {A : Type 0} (key : A → ℕ) (f : A → A) (same : (a : A) → key (f a) ≡ key a) where
  has_key-map :
      (k : ℕ) (rows : List A) → any (λ q. key q == k) (map f rows) ≡ any (λ q. key q == k) rows
  has_key-map k [] = refl
  has_key-map k (x ∷ rows) = rw (same x, has_key-map k rows)

  -- A change that keeps the keys keeps them different.
  pub unique-map : (rows : List A) → unique key (map f rows) ≡ unique key rows
  unique-map [] = refl
  unique-map (x ∷ rows) = rw (same x, has_key-map (key x) rows, unique-map rows)
