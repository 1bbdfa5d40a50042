-- ===== src/Api/DeepCopy/Readings.antt =====
-- What a value in memory reads as, and the addresses that it is read from.
use yet_another_mysql_operat.Prelude.{
  ◌≡◌, refl, ap, ◌≤◌, ◌<◌, List, [], ◌∷◌, ◌++◌, Option, none, some, arith,
}
use mathlib.Core.Option.{map}
use yet_another_mysql_operat.Prelude.Assoc.{Distinct}
use yet_another_mysql_operat.Api.{MysqlConf}
use yet_another_mysql_operat.Api.DeepCopy.Structs.{Address, Memory}

abbrev pub All : {A : Type 0} → (A → Type 0) → List A → Type 0
All P [] = Unit
All P (x ∷ xs) = P x × All P xs

module _ {A : Type 0} where
  pub everywhere-All : (P : A → Type 0) (xs : List A) → ((x : A) → P x) → All P xs
  everywhere-All P [] f = tt
  everywhere-All P (x ∷ xs) f = (f x, everywhere-All P xs f)

  pub All-map : (P Q : A → Type 0) (xs : List A) → ((x : A) → P x → Q x) → All P xs → All Q xs
  All-map P Q [] f h = tt
  All-map P Q (x ∷ xs) f (p, ps) = (f x p, All-map P Q xs f ps)

  pub All-join : (P : A → Type 0) (xs ys : List A) → All P xs → All P ys → All P (xs ++ ys)
  All-join P [] ys h k = k
  All-join P (x ∷ xs) ys (p, ps) k = (p, All-join P xs ys ps k)

  pub All-split : (P : A → Type 0) (xs ys : List A) → All P (xs ++ ys) → All P xs × All P ys
  All-split P [] ys h = (tt, h)
  All-split P (x ∷ xs) ys (p, ps) = let (l, r) = All-split P xs ys ps in ((p, l), r)

abbrev pub Below : Address → List Address → Type 0
Below n ps = All (λ p. p < n) ps

module _ {C : Type 0} where
  -- The two memories hold the same at these addresses.
  abbrev pub Agree : List Address → Memory C → Memory C → Type 0
  Agree ps m m' = All (λ p. m'.at p ≡ m.at p) ps

  -- Addresses are taken, none is given back, and no cell in use is written.
  pub record Later (m m' : Memory C) : Type 0 where
    pub grows : m.next ≤ m'.next
    pub kept : (p : Address) → p < m.next → m'.at p ≡ m.at p

-- A way to read values: what a value reads as, the addresses that it is read from, which are in use
-- for a valid one, and that it depends on no other address.
pub record Reading (C A V : Type 0) : Type 1 where
  pub view : Memory C → A → V
  pub refs : Memory C → A → List Address
  pub Valid : Memory C → A → Type 0
  pub below : (m : Memory C) (a : A) → Valid m a → Below m.next (refs m a)
  pub stable :
      (m m' : Memory C) (a : A)
      → Valid m a
      → m.next ≤ m'.next
      → Agree (refs m a) m m'
      → (view m' a ≡ view m a) × (refs m' a ≡ refs m a) × Valid m' a

module _ {C : Type 0} where
  pub Later-Agree :
      (m m' : Memory C) (ps : List Address) → Later m m' → Below m.next ps → Agree ps m m'
  Later-Agree m m' ps l h = All-map _ _ ps l.kept h

  pub Later-trans : (m n o : Memory C) → Later m n → Later n o → Later m o
  Later-trans m n o a b =
      let g = a.grows in
      let g' = b.grows in
      record { grows = omega arith; kept = λ p lt. rw (b.kept p (omega arith)) (a.kept p lt) }

  abbrev pub plain : {A : Type 0} → Reading C A A
  plain = record {
    view = λ m a. a;
    refs = λ m a. [];
    Valid = λ m a. Unit;
    below = λ m a v. tt;
    stable = λ m m' a v g h. (refl, refl, tt);
  }

  abbrev pub entries : Reading C MysqlConf MysqlConf
  entries = record {
    view = λ m a. a;
    refs = λ m a. [];
    Valid = λ m a. Distinct a;
    below = λ m a v. tt;
    stable = λ m m' a v g h. (refl, refl, v);
  }

  module _ {A V : Type 0} (r : Reading C A V) where
    -- A pointer reads as what it points to.
    abbrev pub pointer : (C → A) → Reading C Address V
    pointer get = record {
      view = λ m p. r.view m (get (m.at p));
      refs = λ m p. p ∷ r.refs m (get (m.at p));
      Valid = λ m p. (p < m.next) × r.Valid m (get (m.at p));
      below = λ m p (lt, v). (lt, r.below m (get (m.at p)) v);
      stable = λ m m' p (lt, v) g (same, h).
          let (a, b, c) = r.stable m m' (get (m.at p)) v g h in
          (rw (same, a) refl, rw (same, b) refl, (omega arith, rw same c));
    }

    abbrev pub null_refs : Memory C → Option A → List Address
    null_refs m none = []
    null_refs m (some a) = r.refs m a

    abbrev pub NullOr : Memory C → Option A → Type 0
    NullOr m none = Unit
    NullOr m (some a) = r.Valid m a

    pub null-Below : (m : Memory C) (o : Option A) → NullOr m o → Below m.next (null_refs m o)
    null-Below m none v = tt
    null-Below m (some a) v = r.below m a v

    pub null_stable :
        (m m' : Memory C) (o : Option A)
        → NullOr m o
        → m.next ≤ m'.next
        → Agree (null_refs m o) m m'
        → (map (r.view m') o ≡ map (r.view m) o) × (null_refs m' o ≡ null_refs m o) × NullOr m' o
    null_stable m m' none v g h = (refl, refl, tt)
    null_stable m m' (some a) v g h = let (x, y, z) = r.stable m m' a v g h in (ap some x, y, z)

    abbrev pub nullable : Reading C (Option A) (Option V)
    nullable = record {
      view = λ m. map (r.view m);
      refs = null_refs;
      Valid = NullOr;
      below = null-Below;
      stable = null_stable;
    }

    abbrev pub each_view : Memory C → List A → List V
    each_view m [] = []
    each_view m (a ∷ xs) = r.view m a ∷ each_view m xs

    abbrev pub each_refs : Memory C → List A → List Address
    each_refs m [] = []
    each_refs m (a ∷ xs) = r.refs m a ++ each_refs m xs

    pub each-Below :
        (m : Memory C) (xs : List A) → All (r.Valid m) xs → Below m.next (each_refs m xs)
    each-Below m [] v = tt
    each-Below m (a ∷ xs) (v, w) =
        All-join _ (r.refs m a) (each_refs m xs) (r.below m a v) (each-Below m xs w)

    pub each_stable :
        (m m' : Memory C) (xs : List A)
        → All (r.Valid m) xs
        → m.next ≤ m'.next
        → Agree (each_refs m xs) m m'
        → (each_view m' xs ≡ each_view m xs)
          × (each_refs m' xs ≡ each_refs m xs)
          × All (r.Valid m') xs
    each_stable m m' [] v g h = (refl, refl, tt)
    each_stable m m' (a ∷ xs) (v, w) g h =
        let (k, ks) = All-split _ (r.refs m a) (each_refs m xs) h in
        let (x, y, z) = r.stable m m' a v g k in
        let (x', y', z') = each_stable m m' xs w g ks in (rw (x, x') refl, rw (y, y') refl, (z, z'))

    abbrev pub each : Reading C (List A) (List V)
    each = record {
      view = each_view;
      refs = each_refs;
      Valid = λ m. All (r.Valid m);
      below = each-Below;
      stable = each_stable;
    }

  module _ {A V B W : Type 0} (r : Reading C A V) (s : Reading C B W) where
    abbrev pub both : Reading C (A × B) (V × W)
    both = record {
      view = λ m (a, b). (r.view m a, s.view m b);
      refs = λ m (a, b). r.refs m a ++ s.refs m b;
      Valid = λ m (a, b). r.Valid m a × s.Valid m b;
      below =
          λ m (a, b) (v, w). All-join _ (r.refs m a) (s.refs m b) (r.below m a v) (s.below m b w);
      stable = λ m m' (a, b) (v, w) g h.
          let (h₁, h₂) = All-split _ (r.refs m a) (s.refs m b) h in
          let (x, y, z) = r.stable m m' a v g h₁ in
          let (x', y', z') = s.stable m m' b w g h₂ in (rw (x, x') refl, rw (y, y') refl, (z, z'));
    }

  -- The same values, taken apart and put together in another way.
  abbrev pub via : {A V B W : Type 0} → (B → A) → (V → B → W) → Reading C A V → Reading C B W
  via f g r = record {
    view = λ m b. g (r.view m (f b)) b;
    refs = λ m b. r.refs m (f b);
    Valid = λ m b. r.Valid m (f b);
    below = λ m b. r.below m (f b);
    stable = λ m m' b v l h. let (x, y, z) = r.stable m m' (f b) v l h in (ap (λ w. g w b) x, y, z);
  }
