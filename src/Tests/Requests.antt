-- ===== src/Tests/Requests.antt =====
-- The typed client and the fake one where a request is its address.
use sso_operator.Base.{◌≡◌, refl, ◌↔◌, Bool, true, false, List, [], ◌∷◌, Option, none, some, IsIn}
use sso_operator.Base.Text.{Str, str}
use sso_operator.Base.Run.{reply}
use sso_operator.Objects.{StrMap}
use sso_operator.Api.{Sso}
use sso_operator.Client.Rest.{Rest}
use sso_operator.Client.Typed.{new_ssos}
use sso_operator.Client.Typed.Addresses.{
  Verb, gets, posts, puts, deletes, patches, Address, Addressed, Recorded,
}
use sso_operator.Client.Typed.Agreement.{patch, request_of, action_of, request_of-action_of}
use sso_operator.Client.Fake.{
  GroupVersion, an_sso_list, Testing, zero_sso_list, fake_list, list_action,
}
use sso_operator.Client.Fake.Selection.{listed, fake_list-IsIn}
use sso_operator.Tests.Rests.{path_join, rest_listing}
use sso_operator.Tests.Values.{web_sso}

abbrev has_labels : Bool → StrMap → Bool
has_labels true labels = true
has_labels false [] = true
has_labels false (l ∷ labels) = false

abbrev rest : Rest (List Sso)
rest = rest_listing (λ s. s)

abbrev rest_addressed : Addressed rest path_join
rest_addressed = record {
  address = λ q. q;
  of_get = λ c. refl;
  of_post = λ c. refl;
  of_put = λ c. refl;
  of_delete = λ c. refl;
  of_patch = λ c pt. refl;
  of_namespace = λ q n e. refl;
  of_resource = λ q r e. refl;
  of_sub_resource = λ q subs e. refl;
  of_name = λ q n e f. refl;
  of_get_params = λ q o. refl;
  of_list_params = λ q o. refl;
  of_sso_body = λ q x. refl;
  of_delete_body = λ q o. refl;
  of_data_body = λ q d. refl;
}

abbrev at : Verb → Str → GroupVersion → Option Str → Str → Address
at v n r name sub = record {
  verb = v;
  namespace = n;
  resource = r.subject;
  name = name;
  sub_resource = sub;
}

-- A fixture that answers every action with its resources; the selector is a label that is there.
abbrev fixture : Testing rest
fixture = record {
  Fixture = List Sso;
  Action = Address;
  new_get_action = λ r n name. at gets n r (some name) [];
  new_list_action = λ r k n o. at gets n r none [];
  new_watch_action = λ r n o. at gets n r none [];
  new_create_action = λ r n x. at posts n r none [];
  new_update_action = λ r n x. at puts n r (some x.meta.name) [];
  new_delete_action = λ r n name. at deletes n r (some name) [];
  new_delete_collection_action = λ r n o. at deletes n r none [];
  new_patch_subresource_action = λ r n name d subs. at patches n r (some name) (path_join subs);
  invokes = λ a o s. ((some (an_sso_list (record zero_sso_list { items = s })), none), s);
  invokes_watch = λ a s. (reply tt, s);
  Selector = Bool;
  label_of = λ o. some o;
  everything = true;
  matches = has_labels;
}

abbrev fixture_recorded : Recorded fixture path_join
fixture_recorded = record {
  recorded = λ a. a;
  of_get_action = λ r n name. refl;
  of_list_action = λ r k n o. refl;
  of_watch_action = λ r n o. refl;
  of_create_action = λ r n x. refl;
  of_update_action = λ r n x. refl;
  of_delete_action = λ r n name. refl;
  of_delete_collection_action = λ r n o. refl;
  of_patch_action = λ r n name d subs. refl;
}

request_of-action_of_example :
    request_of rest
      (new_ssos rest (record { rest_client = tt }) (str "dev"))
      (patch (str "web") tt [] (str "status" ∷ []))
    ≡ action_of fixture (record { ns = str "dev" }) (patch (str "web") tt [] (str "status" ∷ []))
unfolding str
request_of-action_of_example =
    request_of-action_of rest_addressed fixture fixture_recorded (record { rest_client = tt })
      (str "dev") (patch (str "web") tt [] (str "status" ∷ [])) refl

fake_list-IsIn_example :
    IsIn web_sso (listed (fake_list fixture (record { ns = str "dev" }) true (web_sso ∷ [])).0)
    ↔ (IsIn web_sso (web_sso ∷ []) × (has_labels true web_sso.meta.labels ≡ true))
unfolding list_action
fake_list-IsIn_example =
    fake_list-IsIn fixture (record { ns = str "dev" }) true (web_sso ∷ []) (web_sso ∷ [])
      (record zero_sso_list { items = web_sso ∷ [] }) none web_sso refl
