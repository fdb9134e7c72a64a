-- ===== src/Client/Fake/Selection.antt =====
-- Which resources a listing of the fake client gives.
use sso_operator.Base.{◌≡◌, ◌↔◌, true, Option, none, some, List, [], ◌∷◌, IsIn, arith}
use sso_operator.Base.Run.{Error, Outcome, ok, err, panic}
use sso_operator.Api.{Sso, SsoList}
use sso_operator.Client.Rest.{Rest}
use sso_operator.Client.Fake.{
  Object, Testing, zero_sso_list, FakeSsos, list_action, select, fake_list, label_or_everything,
}

-- The resources of an answer.
abbrev pub listed : Outcome (Option SsoList × Option Error) → List Sso
listed (ok (some l, e)) = l.items
listed (ok (none, e)) = []
listed (err e) = []
listed panic = []

module _ {Server : Type 0} {R : Rest Server} (T : Testing R) where
  open T use {Fixture, Selector}

  IsIn-select :
      (label : Selector) (x : Sso) (xs : List Sso)
      → IsIn x (select T label xs) ↔ (IsIn x xs × (T.matches label x.meta.labels ≡ true))
  unfolding select
  IsIn-select label x [] = ground arith
  IsIn-select label x (y ∷ ys) = ground (arith, IsIn-select label x ys)

  -- Where the fixture answers a list to the action of a listing: the fake client gives the resources
  -- of that list whose labels are matched by the label selector of the options, or by
  -- `labels.Everything()` if they have none, and no others.
  pub fake_list-IsIn :
      (c : FakeSsos T) (opts : R.ListOptions) (s s' : Fixture) (l : SsoList) (e : Option Error)
      (x : Sso)
      → T.invokes (list_action T c opts) (Object.an_sso_list zero_sso_list) s
        ≡ ((some (Object.an_sso_list l), e), s')
      → let chosen : Selector = elim (T.label_of opts) [
        | none ↦ T.everything
        | some label ↦ label
      ] in
        IsIn x (listed (fake_list T c opts s).0)
        ↔ (IsIn x l.items × (T.matches chosen x.meta.labels ≡ true))
  unfolding fake_list
  fake_list-IsIn c opts s s' l e x a = rw a (IsIn-select (label_or_everything T opts) x l.items)
