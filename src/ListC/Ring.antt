-- ===== src/ListC/Ring.antt =====
-- A list as the sequence of its nodes, and what the operations do to it.
use os_advanced_course.Base.{
  ℕ, ◌≡◌, ◌≢◌, refl, true, false, ◌||◌, List, [], ◌∷◌, ◌==◌, has, arith, ◌++◌, has-append, panic,
  ◌↔◌, Returns, ok,
}
use os_advanced_course.ListC.{Nodes, lst_push, lst_remove, lst_empty, lst_init, lst_pop}

-- The links lead from `a` through the nodes `xs` to `b`, and back.
abbrev pub Seg : Nodes → ℕ → List ℕ → ℕ → Type 0
Seg m a [] b = (m.next a ≡ b) × (m.prev b ≡ a)
Seg m a (x ∷ xs) b = (m.next a ≡ x) × (m.prev x ≡ a) × Seg m x xs b

abbrev pub Distinct : List ℕ → Type 0
Distinct [] = Unit
Distinct (x ∷ xs) = (has x xs ≡ false) × Distinct xs

-- The list with the head `l` has the nodes `xs`, which are distinct.
pub record IsRing (m : Nodes) (l : ℕ) (xs : List ℕ) : Type 0 where
  pub seg : Seg m l xs l
  pub apart : has l xs ≡ false
  pub distinct : Distinct xs

-- A segment keeps its links where its own fields keep their values.
Seg-frame :
    (m m' : Nodes) (a : ℕ) (xs : List ℕ) (b : ℕ)
    → ((q : ℕ) → ((q == a) || has q xs) ≡ true → m'.next q ≡ m.next q)
    → ((q : ℕ) → (has q xs || (q == b)) ≡ true → m'.prev q ≡ m.prev q)
    → Seg m a xs b
    → Seg m' a xs b
Seg-frame m m' a [] b hn hp s = (ground (arith, hn a), ground (arith, hp b))
Seg-frame m m' a (x ∷ xs) b hn hp s = (
  ground (arith, hn a),
  ground (arith, hp x),
  Seg-frame m m' x xs b (λ q h. hn q (ground arith)) (λ q h. hp q (ground arith)) s.2,
)

-- lst_push() of a node that is not in the list puts it in front.
pub lst_push-IsRing :
    (m : Nodes) (l p : ℕ) (xs : List ℕ)
    → IsRing m l xs
    → p ≢ l
    → has p xs ≡ false
    → IsRing (lst_push l p m) l (p ∷ xs)
unfolding lst_push
lst_push-IsRing m l p [] r ne out = record {
  seg = (ground arith, ground (arith, r.seg), (ground (arith, r.seg), ground (arith, r.seg)));
  apart = ground arith;
  distinct = (refl, tt);
}
lst_push-IsRing m l p (x ∷ xs) r ne out = record {
  seg = (
    ground arith,
    ground (arith, r.seg),
    (
      ground (arith, r.seg),
      ground (arith, r.seg, r.apart),
      Seg-frame m _ x xs l (λ q h. ground (arith, r.apart, r.distinct, r.seg))
          (λ q h. ground (arith, r.apart, r.distinct, r.seg)) r.seg.2,
    ),
  );
  apart = ground (arith, r.apart);
  distinct = (out, r.distinct);
}

prev-mem :
    (m : Nodes) (a : ℕ) (ys : List ℕ) (e : ℕ)
    → Seg m a ys e
    → ((m.prev e == a) || has (m.prev e) ys) ≡ true
prev-mem m a [] e s = ground arith
prev-mem m a (y ∷ ys) e s = ground (arith, prev-mem m y ys e s.2)

pub next-mem :
    (m : Nodes) (e : ℕ) (zs : List ℕ) (b : ℕ)
    → Seg m e zs b
    → (has (m.next e) zs || (m.next e == b)) ≡ true
next-mem m e [] b s = ground arith
next-mem m e (z ∷ zs) b s = ground arith

pub Seg-split :
    (m : Nodes) (a : ℕ) (ys : List ℕ) (e : ℕ) (zs : List ℕ) (b : ℕ)
    → Seg m a (ys ++ e ∷ zs) b
    → Seg m a ys e × Seg m e zs b
Seg-split m a [] e zs b s = ((s.0, s.1), s.2)
Seg-split m a (y ∷ ys) e zs b s =
    let rest = Seg-split m y ys e zs b s.2 in ((s.0, s.1, rest.0), rest.1)

-- Taking out `e` joins the two segments that it lies between.
unlink :
    (m : Nodes) (a : ℕ) (ys : List ℕ) (e : ℕ) (zs : List ℕ) (b : ℕ)
    → Seg m a ys e
    → Seg m e zs b
    → Distinct (ys ++ e ∷ zs)
    → has a (ys ++ e ∷ zs) ≡ false
    → has b (ys ++ e ∷ zs) ≡ false
    → Seg (lst_remove e m) a (ys ++ zs) b
unfolding lst_remove
unlink m a [] e [] b s t d ha hb = (ground arith, ground arith)
unlink m a [] e (z ∷ zs) b s t d ha hb = (
  ground arith,
  ground arith,
  Seg-frame m _ z zs b (λ q h. ground arith) (λ q h. ground arith) t.2,
)
unlink m a (y ∷ ys) e zs b s t d ha hb = (
  ground (arith, prev-mem m y ys e s.2, has-append a ys (e ∷ zs)),
  ground (arith, next-mem m e zs b t, has-append y ys (e ∷ zs)),
  unlink m y ys e zs b s.2 t d.1 d.0 (ground arith),
)

Distinct-remove :
    (ys : List ℕ) (e : ℕ) (zs : List ℕ) → Distinct (ys ++ e ∷ zs) → Distinct (ys ++ zs)
Distinct-remove [] e zs d = d.1
Distinct-remove (y ∷ ys) e zs d =
    (ground (arith, has-append y ys (e ∷ zs), has-append y ys zs), Distinct-remove ys e zs d.1)

-- lst_remove() takes a node out, wherever it stands, and keeps the order of the others.
pub lst_remove-IsRing :
    (m : Nodes) (l e : ℕ) (ys zs : List ℕ)
    → IsRing m l (ys ++ e ∷ zs)
    → IsRing (lst_remove e m) l (ys ++ zs)
lst_remove-IsRing m l e ys zs r =
    let parts = Seg-split m l ys e zs l r.seg in
    record {
      seg = unlink m l ys e zs l parts.0 parts.1 r.distinct r.apart r.apart;
      apart = ground (arith, has-append l ys (e ∷ zs), has-append l ys zs, r.apart);
      distinct = Distinct-remove ys e zs r.distinct;
    }

-- lst_empty() tells whether the list has nodes.
pub lst_empty_iff :
    (m : Nodes) (l : ℕ) (xs : List ℕ) → IsRing m l xs → (lst_empty l m ≡ true) ↔ (xs ≡ [])
unfolding lst_empty
lst_empty_iff m l [] r = (λ h. refl, λ h. ground (arith, r.seg))
lst_empty_iff m l (x ∷ xs) r = (λ h. absurd (ground (arith, r.seg, r.apart)), λ h. cc)

lst_pop-eq :
    (m : Nodes) (l x : ℕ) (xs : List ℕ) → IsRing m l (x ∷ xs) → lst_pop l m ≡ ok x (lst_remove x m)
unfolding lst_pop
lst_pop-eq m l x xs r = ground (arith, r.seg, r.apart)

-- lst_pop() panics on an empty list, and otherwise returns the first node and leaves the others.
pub lst_pop_cases :
    (m : Nodes) (l : ℕ)
    → (IsRing m l [] → lst_pop l m ≡ panic)
      × ((x : ℕ) (xs : List ℕ)
          → IsRing m l (x ∷ xs)
          → Returns (lst_pop l m) (λ r t. (r ≡ x) × IsRing t l xs))
unfolding lst_pop
lst_pop_cases m l = (
  λ r. ground (arith, r.seg),
  λ x xs r. rw (lst_pop-eq m l x xs r) (refl, lst_remove-IsRing m l x [] xs r),
)

-- lst_init() makes a list without nodes.
pub lst_init-IsRing : (m : Nodes) (l : ℕ) → IsRing (lst_init l m) l []
unfolding lst_init
lst_init-IsRing m l = record { seg = (ground arith, ground arith); apart = refl; distinct = tt }
