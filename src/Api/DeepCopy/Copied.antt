-- ===== src/Api/DeepCopy/Copied.antt =====
-- The copies that the actions make: they read the same, from addresses that were not in use before.
use yet_another_mysql_operat.Prelude.{
  true, false, ◌≡◌, refl, ap, suc, ◌≤◌, ◌<◌, ◌==◌, List, none, some, arith,
}
use yet_another_mysql_operat.Prelude.Assoc.{get}
use yet_another_mysql_operat.Api.DeepCopy.{new_copy, unless_nil}
use yet_another_mysql_operat.Api.DeepCopy.Structs.{Address, Memory, Action, write}
use yet_another_mysql_operat.Api.DeepCopy.Readings.{
  All, everywhere-All, All-map, All-join, Later, Later-Agree, Later-trans, Reading, pointer,
  nullable, both, via,
}

abbrev pub Within : Address → Address → List Address → Type 0
Within lo hi ps = All (λ p. (lo ≤ p) × (p < hi)) ps

pub same_address : (q : Address) → (q == q) ≡ true
same_address q = ground arith

pub later_address : (p q : Address) → q < p → (p == q) ≡ false
later_address p q lt = ground arith

pub earlier_address : (p q : Address) → p < q → (p == q) ≡ false
earlier_address p q lt = ground arith

module _ {C : Type 0} where
  pub record Copied {A V : Type 0} (r : Reading C A V) (m : Memory C) (a : A) (x : A × Memory C)
      : Type 0 where
    pub later : Later m x.1
    pub fresh : Within m.next x.1.next (r.refs x.1 x.0)
    pub same : r.view x.1 x.0 ≡ r.view m a
    pub valid : r.Valid x.1 x.0

  abbrev pub Copies : {A V : Type 0} → Reading C A V → (A → Action C A) → Type 0
  Copies {A} r f = (m : Memory C) (a : A) → r.Valid m a → Copied r m a (f a m)

  pub Later-refl : (m : Memory C) → Later m m
  Later-refl m = record { grows = omega arith; kept = λ p lt. refl }

  module _ {A V B W : Type 0} (r : Reading C A V) (s : Reading C B W) where
    -- One copy after the other
    abbrev pub in_turn : (A → Action C A) → (B → Action C B) → A × B → Action C (A × B)
    in_turn f g (a, b) m = let x = f a m in let y = g b x.1 in ((x.0, y.0), y.1)

    pub both-Copied :
        (m : Memory C) (a : A) (b : B) (x : A × Memory C) (y : B × Memory C)
        → s.Valid m b
        → Copied r m a x
        → (s.Valid x.1 b → Copied s x.1 b y)
        → Copied (both r s) m (a, b) ((x.0, y.0), y.1)
    both-Copied m a b x y vb cx next =
        let (bv, br, bb) =
          s.stable m x.1 b vb cx.later.grows
            (Later-Agree m x.1 (s.refs m b) cx.later (s.below m b vb)) in
        let cy = next bb in
        let (av, ar, aa) =
          r.stable x.1 y.1 x.0 cx.valid cy.later.grows
            (Later-Agree x.1 y.1 (r.refs x.1 x.0) cy.later (r.below x.1 x.0 cx.valid)) in
        let g₁ = cx.later.grows in
        let g₂ = cy.later.grows in
        record {
          later = Later-trans m x.1 y.1 cx.later cy.later;
          fresh =
              All-join _ (r.refs y.1 x.0) (s.refs y.1 y.0)
                (rw ar (All-map _ _ (r.refs x.1 x.0) (λ p (lo, hi). (lo, omega arith)) cx.fresh))
                (All-map _ _ (s.refs y.1 y.0) (λ p (lo, hi). (omega arith, hi)) cy.fresh);
          same = rw (av, cx.same, cy.same, bv) refl;
          valid = (aa, cy.valid);
        }

    pub in_turn-Copies :
        (f : A → Action C A) (g : B → Action C B)
        → Copies r f
        → Copies s g
        → Copies (both r s) (in_turn f g)
    in_turn-Copies f g cf cg m (a, b) (va, vb) =
        let x = f a m in both-Copied m a b x (g b x.1) vb (cf m a va) (cg x.1 b)

  pub via-Copied :
      {A V B W : Type 0} (r : Reading C A V) (f : B → A) (g : V → B → W) (m : Memory C) (b : B)
      (x : B × Memory C)
      → Copied r m (f b) (f x.0, x.1)
      → ((w : V) → g w x.0 ≡ g w b)
      → Copied (via f g r) m b x
  via-Copied r f g m b x c keeps = record {
    later = c.later;
    fresh = c.fresh;
    same = rw (c.same, keeps (r.view m (f b))) refl;
    valid = c.valid;
  }

  module _ {A V : Type 0} (r : Reading C A V) (f : A → Action C A) (c : Copies r f) where
    pub unless_nil-Copies : Copies (nullable r) (unless_nil f)
    unfolding unless_nil
    unless_nil-Copies m none v = record {
      later = Later-refl m;
      fresh = tt;
      same = refl;
      valid = tt;
    }
    unless_nil-Copies m (some a) v =
        let k = c m a v in
        record { later = k.later; fresh = k.fresh; same = ap some k.same; valid = k.valid }

    pub new_copy-Copies :
        (get : C → A) (set : A → C → C)
        → ((a : A) (c : C) → get (set a c) ≡ a)
        → Copies (pointer r get) (new_copy get set f)
    unfolding new_copy write
    new_copy-Copies get set back m p (lt, v) =
        let q = m.next in
        let m₁ = record m { next = suc q } in
        let a = get (m.at p) in
        let (v₁, r₁, a₁) =
          r.stable m m₁ a v (omega arith) (everywhere-All _ (r.refs m a) (λ x. refl)) in
        let x = f a m₁ in
        let k = c m₁ a a₁ in
        let m₂ = write q (set x.0 (x.1.at q)) x.1 in
        let (v₂, r₂, a₂) = r.stable x.1 m₂ x.0 k.valid (omega arith) (
          All-map _ _ (r.refs x.1 x.0) (λ y (lo, hi). rw (later_address y q (omega arith)) refl)
            k.fresh) in
        let g = k.later.grows in
        record {
          later = record {
            grows = omega arith;
            kept = λ y below. rw (earlier_address y q below, k.later.kept y (omega arith)) refl;
          };
          fresh = (
            (omega arith, omega arith),
            rw (same_address q, back x.0 (x.1.at q), r₂)
                (All-map _ _ (r.refs x.1 x.0) (λ y (lo, hi). (omega arith, hi)) k.fresh),
          );
          same = rw (same_address q, back x.0 (x.1.at q), v₂, k.same, v₁) refl;
          valid = (omega arith, rw (same_address q, back x.0 (x.1.at q)) a₂);
        }
