-- ===== src/Client/Factory/Starting.antt =====
-- What `Start` starts.
use sso_operator.Base.{
  ℕ, ◌≡◌, refl, ◌⊎◌, inl, inr, Bool, true, false, ◌||◌, none, some, List, [], ◌∷◌, ◌++◌, arith,
  Bool-cases, if◌then◌else◌, subst,
}
use sso_operator.Base.Text.{Str, same, same_iff, same_refl}
use sso_operator.Base.Dict.{lookup, put, lookup-put, lookup-append, NodupKeys}
use sso_operator.Client.Library.{Library}
use sso_operator.Client.Factory.{TypeMap, is_started, start_each, Factory, start, informer_for}
use sso_operator.Client.Factory.Operations.{Op, asks, starts, run}

is_started-put :
    (t u : Str) (m : TypeMap Bool)
    → is_started u (put t true m) ≡ (if same t u then true else is_started u m)
unfolding is_started
is_started-put t u m = ground (arith, lookup-put t u true m)

module _ {Informer : Type 0} where
  -- What the calls that started these informers have done to the marks: a mark stays, and each type
  -- among them had none and has one, and is there once.
  pub record Launch (before after : TypeMap Bool) (runs : TypeMap Informer) : Type 0 where
    pub stays : (t : Str) → (is_started t before ≡ false) ⊎ (is_started t after ≡ true)
    pub marked :
        (t : Str)
        → (lookup t runs ≡ none) ⊎ ((is_started t before ≡ false) × (is_started t after ≡ true))
    pub once : NodupKeys runs

  Launch-nil : (m : TypeMap Bool) → Launch m m []
  unfolding lookup
  Launch-nil m = record {
    stays = λ t. ground (arith, Bool-cases (is_started t m));
    marked = λ t. inl refl;
    once = tt;
  }

  -- A type that is not marked, and then what starts the others.
  Launch-cons :
      (t : Str) (i : Informer) (before after : TypeMap Bool) (runs : TypeMap Informer)
      → is_started t before ≡ false
      → Launch (put t true before) after runs
      → Launch before after ((t, i) ∷ runs)
  unfolding lookup
  Launch-cons t i before after runs new l = record {
    stays = λ u. ground (arith, is_started-put t u before, l.stays u);
    marked = λ u. elim (Bool-cases (same t u)) [
      | inl e ↦
          inr (ground (arith, same_iff t u), ground (arith, is_started-put t u before, l.stays u))
      | inr e ↦ elim (l.marked u) [
        | inl absent ↦ inl (ground arith)
        | inr (p, q) ↦ inr (ground (arith, is_started-put t u before), q)
      ]
    ];
    once = (
      elim (l.marked t) [
        | inl absent ↦ absent
        | inr (p, q) ↦ absurd (ground (arith, is_started-put t t before, same_refl t))
      ],
      l.once,
    );
  }

  start_each-Launch :
      (informers : TypeMap Informer) (before : TypeMap Bool)
      → Launch before (start_each informers before).0 (start_each informers before).1
  unfolding start_each
  start_each-Launch [] before = Launch-nil before
  start_each-Launch ((t, i) ∷ informers) before =
      go (is_started t before) refl (start_each-Launch informers before)
        (start_each-Launch informers (put t true before))
    where
      go :
          (b : Bool)
          → is_started t before ≡ b
          → Launch before (start_each informers before).0 (start_each informers before).1
          → Launch
              (put t true before)
              (start_each informers (put t true before)).0
              (start_each informers (put t true before)).1
          → Launch before
              (start_each ((t, i) ∷ informers) before).0
              (start_each ((t, i) ∷ informers) before).1
      go true e old new = rw e old
      go false e old new = rw e (Launch-cons t i before _ _ e new)

  NodupKeys-append :
      (before between : TypeMap Bool) (runs later : TypeMap Informer)
      → ((t : Str) → (lookup t runs ≡ none) ⊎ (is_started t between ≡ true))
      → ((t : Str) → (lookup t later ≡ none) ⊎ (is_started t between ≡ false))
      → NodupKeys runs
      → NodupKeys later
      → NodupKeys (runs ++ later)
  unfolding lookup
  NodupKeys-append before between [] later h k n m = m
  NodupKeys-append before between ((t, i) ∷ runs) later h k n m = (
    ground (arith, lookup-append t runs later, h t, k t, same_refl t),
    NodupKeys-append before between runs later (λ u. tail u) k n.1 m,
  )
    where
      tail : (u : Str) → (lookup u runs ≡ none) ⊎ (is_started u between ≡ true)
      tail u = ground (arith, h u)

  Launch-append :
      (before between after : TypeMap Bool) (runs later : TypeMap Informer)
      → Launch before between runs
      → Launch between after later
      → Launch before after (runs ++ later)
  Launch-append before between after runs later l m = record {
    stays = λ t. ground (arith, l.stays t, m.stays t);
    marked = λ t.
        ground (arith, lookup-append t runs later, l.marked t, m.marked t, l.stays t, m.stays t);
    once =
        NodupKeys-append before between runs later
          (λ t. elim (l.marked t) [ inl e ↦ inl e | inr (p, q) ↦ inr q ])
          (λ t. elim (m.marked t) [ inl e ↦ inl e | inr (p, q) ↦ inr p ]) l.once m.once;
  }

module _ (L : Library) where
  open L use {Clientset, Informer}

  informer_for-started :
      (t : Str) (new_func : Clientset → ℕ → Informer) (f : Factory L)
      → (informer_for L t new_func f).1.started_informers ≡ f.started_informers
  unfolding informer_for
  informer_for-started t new_func f = ground arith

  -- Over any sequence of calls, whatever order the map of informers is walked in: the marks of the
  -- started types stay, each informer whose `Run` is started had no mark before and has one after,
  -- and no type is started twice.
  pub run-Launch :
      (ops : List (Op L)) (f : Factory L)
      → Launch f.started_informers (run L ops f).0.started_informers (run L ops f).1
  unfolding run start
  run-Launch [] f = Launch-nil f.started_informers
  run-Launch (asks t new_func ∷ ops) f =
      subst
        (λ m.
          Launch m (run L ops (informer_for L t new_func f).1).0.started_informers
            (run L ops (informer_for L t new_func f).1).1)
        (informer_for-started t new_func f) (run-Launch ops (informer_for L t new_func f).1)
  run-Launch (starts order ∷ ops) f =
      Launch-append _ _ _ _ _ (start_each-Launch (order f.informers) f.started_informers)
        (run-Launch ops (start L (order f.informers) f).0)

  start_each_lem :
      (t : Str) (informers : TypeMap Informer) (before : TypeMap Bool)
      → NodupKeys informers
      → (lookup t (start_each informers before).1
          ≡ (if is_started t before then none else lookup t informers))
        × (is_started t (start_each informers before).0
            ≡ (is_started t before || (elim (lookup t informers) [ none ↦ false | some i ↦ true ])))
  unfolding start_each lookup
  start_each_lem t [] before n = ground arith
  start_each_lem t ((u, i) ∷ informers) before (absent, n) = ground (
    arith,
    same_iff u t,
    is_started-put u t before,
    start_each_lem t informers (if is_started u before then before else put u true before) n,
  )

  -- `Start`, where `range` gives each informer of the map once: it starts the informers that have
  -- no mark and no others, and afterwards the types with a mark are those that had one and those of
  -- the map.
  pub start_lem :
      (f : Factory L) (ranged : TypeMap Informer) (t : Str)
      → NodupKeys ranged
      → lookup t ranged ≡ lookup t f.informers
      → (lookup t (start L ranged f).1
          ≡ (if is_started t f.started_informers then none else lookup t f.informers))
        × (is_started t (start L ranged f).0.started_informers ≡ (
            is_started t f.started_informers
            || (elim (lookup t f.informers) [ none ↦ false | some i ↦ true ])))
  unfolding start
  start_lem f ranged t n e =
      subst
        (λ x.
          (lookup t (start L ranged f).1 ≡ (if is_started t f.started_informers then none else x))
          × (is_started t (start L ranged f).0.started_informers
              ≡ (is_started t f.started_informers || (elim x [ none ↦ false | some i ↦ true ]))))
        e (start_each_lem t ranged f.started_informers n)
