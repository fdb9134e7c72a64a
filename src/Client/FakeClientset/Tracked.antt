-- ===== src/Client/FakeClientset/Tracked.antt =====
-- What the fake clientset gives of the objects that it was made with.
use sso_operator.Base.{◌≡◌, refl, sym, ap, subst, inl, inr, Option, none, some, List, [], ◌∷◌, IsIn}
use sso_operator.Base.Text.{Str, str}
use sso_operator.Base.Run.{Error, Outcome, ok, err, panic, ◌>>◌}
use sso_operator.Api.{Sso}
use sso_operator.Api.Scheme.{Schemes, clientset_scheme}
use sso_operator.Client.Rest.{Rest}
use sso_operator.Client.Fake.{
  Object, Testing, FakeSsos, zero_sso, ssos_group_resource, get_action, fake_get,
}
use sso_operator.Client.FakeClientset.{
  Tracking, FakeClientset, fake_jenkins_v1_of, fake_ssos_of, add_result, add_all, with_tracker,
  new_simple_clientset,
}

module _ {Server : Type 0} {R : Rest Server} {T : Testing R} {L : Schemes} (K : Tracking T L) where
  open K use {Tracker}

  -- The resources that a tracker has, by namespace and name.
  abbrev pub TrackerView : Type 0
  TrackerView = Tracker → Str → Str → Option Sso

  abbrev pub reacting : Tracker → T.Fixture
  reacting o = K.add_reactor (str "*") (str "*") (K.object_reaction o) K.zero_fixture

  -- What the tracker and its reaction are documented to do: an object is added once, under its
  -- namespace and name, and a get finds it.
  pub record Tracks (stored : TrackerView) : Type 0 where
    pub adds :
        (x : Sso) (o o' : Tracker)
        → K.add (Object.an_sso x) o ≡ (none, o')
        → stored o' x.meta.namespace x.meta.name ≡ some x
    pub keeps :
        (x : Object) (y : Sso) (o o' : Tracker) (ns name : Str)
        → K.add x o ≡ (none, o')
        → stored o ns name ≡ some y
        → stored o' ns name ≡ some y
    pub reacts :
        (x : Sso) (o : Tracker) (ns name : Str)
        → stored o ns name ≡ some x
        → (T.invokes
            (T.new_get_action ssos_group_resource ns name)
            (Object.an_sso zero_sso)
            (reacting o)).0
          ≡ (some (Object.an_sso x), none)

  module _ (stored : TrackerView) (laws : Tracks stored) where
    -- An object that was added, and the rest of the loop.
    add_all-ok :
        (x : Object) (objects : List Object) (o o' : Tracker)
        → add_all K (x ∷ objects) o ≡ (ok tt, o')
        → (u : Tracker) × (K.add x o ≡ (none, u)) × (add_all K objects u ≡ (ok tt, o'))
    unfolding add_all add_result
    add_all-ok x objects o o' h = go (K.add x o).0 (K.add x o).1 refl h
      where
        go :
            (r : Option Error) (u : Tracker)
            → K.add x o ≡ (r, u)
            → ((λ (s : Tracker). add_result K (r, u) o) >> add_all K objects) o ≡ (ok tt, o')
            → (v : Tracker) × (K.add x o ≡ (none, v)) × (add_all K objects v ≡ (ok tt, o'))
        go none u e k = (u, e, k)
        go (some x') u e k = cc

    add_all-keeps :
        (objects : List Object) (x : Sso) (o o' : Tracker) (ns name : Str)
        → add_all K objects o ≡ (ok tt, o')
        → stored o ns name ≡ some x
        → stored o' ns name ≡ some x
    unfolding add_all
    add_all-keeps [] x o o' ns name h s = subst (λ u. stored u ns name ≡ some x) (ap (λ z. z.1) h) s
    add_all-keeps (y ∷ objects) x o o' ns name h s =
        let (u, e, k) = add_all-ok y objects o o' h in
        add_all-keeps objects x u o' ns name k (laws.keeps y x o u ns name e s)

    add_all-stored :
        (objects : List Object) (x : Sso) (o o' : Tracker)
        → add_all K objects o ≡ (ok tt, o')
        → IsIn (Object.an_sso x) objects
        → stored o' x.meta.namespace x.meta.name ≡ some x
    add_all-stored [] x o o' h i = absurd i
    add_all-stored (y ∷ objects) x o o' h i =
        let (u, e, k) = add_all-ok y objects o o' h in
        elim i [
          | inl p ↦
              add_all-keeps objects x u o' x.meta.namespace x.meta.name k
                (laws.adds x o u (subst (λ z. K.add z o ≡ (none, u)) p e))
          | inr there ↦ add_all-stored objects x u o' k there
        ]

    with_tracker-ok :
        (r : Outcome (Unit {0})) (o : Tracker) (c : FakeClientset) (f : T.Fixture)
        → with_tracker K (r, o) ≡ ok (c, f)
        → (r ≡ ok tt) × (f ≡ reacting o)
    unfolding with_tracker
    with_tracker-ok (ok u) o c f h = (refl, cc)
    with_tracker-ok (err e) o c f h = cc
    with_tracker-ok panic o c f h = cc

    as_found :
        (c : FakeSsos T) (name : Str) (options : R.GetOptions) (f : T.Fixture) (x : Sso)
        → (T.invokes (get_action T c name) (Object.an_sso zero_sso) f).0
          ≡ (some (Object.an_sso x), none)
        → (fake_get T c name options f).0 ≡ ok (some x, none)
    unfolding fake_get
    as_found c name options f x h = rw h refl

    -- Where the tracker and its reaction do what `Tracks` says: if the fake clientset of some objects
    -- is made, with no panic, then its client of a namespace gets each SSO resource of the objects
    -- that has this namespace, by its name, unchanged and with no error.
    pub fake_get-new_simple_clientset :
        (objects : List Object) (x : Sso) (c : FakeClientset) (f : T.Fixture)
        (options : R.GetOptions)
        → new_simple_clientset K objects ≡ ok (c, f)
        → IsIn (Object.an_sso x) objects
        → (fake_get T
            (fake_ssos_of T (fake_jenkins_v1_of c) x.meta.namespace)
            x.meta.name
            options
            f).0
          ≡ ok (some x, none)
    unfolding new_simple_clientset fake_ssos_of get_action
    fake_get-new_simple_clientset objects x c f options h i =
        let o : Tracker = K.new_tracker (clientset_scheme L) in
        let run = add_all K objects o in
        let (e, q) = with_tracker-ok run.0 run.1 c f h in
        as_found _ x.meta.name options f x (
          subst
            (λ u.
              (T.invokes (T.new_get_action ssos_group_resource x.meta.namespace x.meta.name)
                (Object.an_sso zero_sso) u).0
              ≡ (some (Object.an_sso x), none))
            (sym q)
            (laws.reacts x run.1 x.meta.namespace x.meta.name
              (add_all-stored objects x o run.1 (ap (λ r. (r, run.1)) e) i)))
