-- ===== src/Tests/Tracked.antt =====
-- A small object tracker behind the fake clientset.
use sso_operator.Base.{
  ◌≡◌, refl, arith, Bool, true, ◌&&◌, inl, inr, Bool-cases, Option, none, some, List, [], ◌∷◌,
  find_first, ap, sym,
}
use sso_operator.Base.Text.{Str, str, same, same_iff}
use sso_operator.Base.Run.{Error, fault, reply, ok, panic}
use sso_operator.Api.{Sso}
use sso_operator.Api.Scheme.{Schemes}
use sso_operator.Client.Rest.{Rest}
use sso_operator.Client.Fake.{Object, Testing, zero_sso, fake_get}
use sso_operator.Client.FakeClientset.{
  Tracking, new_simple_clientset, fake_ssos_of, fake_jenkins_v1_of, add_all, with_tracker,
}
use sso_operator.Client.FakeClientset.Tracked.{Tracks, fake_get-new_simple_clientset}
use sso_operator.Tests.Rests.{rest_listing}
use sso_operator.Tests.Values.{web_sso, initialized_web}

abbrev rest : Rest (List Sso)
rest = rest_listing (λ s. s)

abbrev is_at : Str → Str → Sso → Bool
is_at ns name x = same x.meta.namespace ns && same x.meta.name name

abbrev found_at : List Sso → Str → Str → Option Sso
found_at o ns name = find_first (is_at ns name) o

-- A get of a namespace and a name, or another action.
abbrev GetAction : Type 0
GetAction = Option (Str × Str)

abbrev as_object : Option Sso → Option Object × Option Error
as_object none = (none, some (fault (str "NotFound") []))
as_object (some x) = (some (Object.an_sso x), none)

abbrev invoked : GetAction → Object → List Sso → (Option Object × Option Error) × List Sso
invoked none d s = ((some d, none), s)
invoked (some (ns, name)) d s = (as_object (found_at s ns name), s)

abbrev tracked : Testing rest
tracked = record {
  Fixture = List Sso;
  Action = GetAction;
  new_get_action = λ r n name. some (n, name);
  new_list_action = λ r k n o. none;
  new_watch_action = λ r n o. none;
  new_create_action = λ r n x. none;
  new_update_action = λ r n x. none;
  new_delete_action = λ r n name. none;
  new_delete_collection_action = λ r n o. none;
  new_patch_subresource_action = λ r n name d subs. none;
  invokes = invoked;
  invokes_watch = λ a s. (reply tt, s);
  Selector = Unit;
  label_of = λ o. none;
  everything = tt;
  matches = λ l m. true;
}

-- Schemes with nothing in them.
abbrev schemes : Schemes
schemes = record {
  Scheme = Unit;
  new_scheme = tt;
  add_known_types = λ v types s. s;
  add_to_group_version = λ v s. s;
  Sdk = Unit;
  add_to_sdk_scheme = λ f s. s;
  built = λ fs s. (ok tt, s);
}

abbrev put_new : Option Sso → Sso → List Sso → Option Error × List Sso
put_new none x o = (none, x ∷ o)
put_new (some y) x o = (some (fault (str "AlreadyExists") []), o)

abbrev add_object : Object → List Sso → Option Error × List Sso
add_object (Object.an_sso x) o = put_new (found_at o x.meta.namespace x.meta.name) x o
add_object (Object.an_sso_list l) o = (none, o)
add_object (Object.another_object k) o = (none, o)

abbrev tracking : Tracking tracked schemes
tracking = record {
  Tracker = List Sso;
  new_tracker = λ s. [];
  add = add_object;
  Reaction = List Sso;
  object_reaction = λ o. o;
  zero_fixture = [];
  add_reactor = λ verb resource o s. o;
}

put_new-ok :
    (q : Option Sso) (x : Sso) (o o' : List Sso)
    → put_new q x o ≡ (none, o')
    → (q ≡ none) × (o' ≡ x ∷ o)
put_new-ok none x o o' h = (refl, ground arith)
put_new-ok (some y) x o o' h = absurd (ground arith)

tracking_laws : Tracks tracking found_at
tracking_laws = record { adds = adds; keeps = keeps; reacts = reacts }
  where
    adds :
        (x : Sso) (o o' : List Sso)
        → add_object (Object.an_sso x) o ≡ (none, o')
        → found_at o' x.meta.namespace x.meta.name ≡ some x
    adds x o o' h =
        let (_, e) = put_new-ok (found_at o x.meta.namespace x.meta.name) x o o' h in
        rw e (
          ground
            (arith, same_iff x.meta.namespace x.meta.namespace, same_iff x.meta.name x.meta.name))

    here :
        (x : Sso) (ns name : Str)
        → is_at ns name x ≡ true
        → (x.meta.namespace ≡ ns) × (x.meta.name ≡ name)
    here x ns name p =
        (ground (arith, same_iff x.meta.namespace ns), ground (arith, same_iff x.meta.name name))

    clash :
        (x y : Sso) (o : List Sso) (ns name : Str)
        → is_at ns name x ≡ true
        → found_at o x.meta.namespace x.meta.name ≡ none
        → found_at o ns name ≡ some y
        → ⊥
    clash x y o ns name p new s =
        let (e, f) = here x ns name p in
        cc (ap (λ z. found_at o z x.meta.name) e, ap (λ z. found_at o ns z) f)

    keeps :
        (x : Object) (y : Sso) (o o' : List Sso) (ns name : Str)
        → add_object x o ≡ (none, o')
        → found_at o ns name ≡ some y
        → found_at o' ns name ≡ some y
    keeps (Object.an_sso x) y o o' ns name h s =
        let (new, e) = put_new-ok (found_at o x.meta.namespace x.meta.name) x o o' h in
        rw e (elim (Bool-cases (is_at ns name x)) [
          | inl p ↦ absurd (clash x y o ns name p new s)
          | inr p ↦ ground (arith, p, s)
        ])
    keeps (Object.an_sso_list l) y o o' ns name h s = rw (sym (ap (λ z. z.1) h)) s
    keeps (Object.another_object k) y o o' ns name h s = rw (sym (ap (λ z. z.1) h)) s

    reacts :
        (x : Sso) (o : List Sso) (ns name : Str)
        → found_at o ns name ≡ some x
        → (invoked (some (ns, name)) (Object.an_sso zero_sso) o).0 ≡ (some (Object.an_sso x), none)
    reacts x o ns name h = rw h refl

abbrev objects : List Object
objects = Object.an_sso web_sso ∷ Object.another_object (str "ConfigMap") ∷ []

made : new_simple_clientset tracking objects ≡ ok (record { discovery = record {} }, web_sso ∷ [])
unfolding new_simple_clientset add_all with_tracker
made = refl

-- Two resources of one name.
made_twice :
    new_simple_clientset tracking (Object.an_sso web_sso ∷ Object.an_sso initialized_web ∷ [])
    ≡ panic
unfolding new_simple_clientset add_all with_tracker str
made_twice = refl

fake_get-new_simple_clientset_example :
    (fake_get tracked
      (fake_ssos_of tracked
        (fake_jenkins_v1_of (record { discovery = record {} }))
        web_sso.meta.namespace)
      web_sso.meta.name
      tt
      (web_sso ∷ [])).0
    ≡ ok (some web_sso, none)
fake_get-new_simple_clientset_example =
    fake_get-new_simple_clientset tracking found_at tracking_laws objects web_sso
      (record { discovery = record {} }) (web_sso ∷ []) tt made (inl refl)
