-- ===== src/Client/Typed/Agreement.antt =====
-- The requests of the typed client beside the actions of the fake one.
use sso_operator.Base.{◌≡◌, refl, sym, ◌∙◌, Bool, true, false, not, List, [], ◌∷◌, Option}
use sso_operator.Base.Text.{Str, is_empty}
use sso_operator.Api.{Sso}
use sso_operator.Client.Rest.{Rest}
use sso_operator.Client.Typed.{
  SsoClient, JenkinsV1Client, new_ssos, get_request, list_request, watch_request, create_request,
  update_request, delete_request, delete_collection_request, patch_request,
}
use sso_operator.Client.Fake.{
  Testing, FakeSsos, get_action, list_action, watch_action, create_action, update_action,
  delete_action, delete_collection_action, patch_action,
}
use sso_operator.Client.Typed.Addresses.{
  gets, posts, puts, deletes, patches, Addressed, Recorded, address-ssos, address-name,
  address-sub_resource,
}

module _ {Server : Type 0} (R : Rest Server) where
  -- The methods of `SSOInterface`.
  pub data Method : Type 0 where
    get : Str → R.GetOptions → Method
    list : R.ListOptions → Method
    watch : R.ListOptions → Method
    create : Sso → Method
    update : Sso → Method
    delete : Str → Option R.DeleteOptions → Method
    delete_collection : Option R.DeleteOptions → R.ListOptions → Method
    patch : Str → R.PatchType → Str → List Str → Method

  unfoldable pub request_of : SsoClient R → Method → R.Request
  unfolding get_request list_request watch_request create_request update_request delete_request
      delete_collection_request patch_request
  request_of c (get name o) = get_request R c name o
  request_of c (list o) = list_request R c o
  request_of c (watch o) = watch_request R c o
  request_of c (create x) = create_request R c x
  request_of c (update x) = update_request R c x
  request_of c (delete name o) = delete_request R c name o
  request_of c (delete_collection o l) = delete_collection_request R c o l
  request_of c (patch name pt d subs) = patch_request R c name pt d subs

  -- The name that a method gives to its request is not empty.
  abbrev pub is_filled : Method → Bool
  is_filled (get name o) = not (is_empty name)
  is_filled (list o) = true
  is_filled (watch o) = true
  is_filled (create x) = true
  is_filled (update x) = not (is_empty x.meta.name)
  is_filled (delete name o) = not (is_empty name)
  is_filled (delete_collection o l) = true
  is_filled (patch name pt d subs) = not (is_empty name)

module _ {Server : Type 0} {R : Rest Server} (T : Testing R) where
  unfoldable pub action_of : FakeSsos T → Method R → T.Action
  unfolding get_action list_action watch_action create_action update_action delete_action
      delete_collection_action patch_action
  action_of c (get name o) = get_action T c name
  action_of c (list o) = list_action T c o
  action_of c (watch o) = watch_action T c o
  action_of c (create x) = create_action T c x
  action_of c (update x) = update_action T c x
  action_of c (delete name o) = delete_action T c name
  action_of c (delete_collection o l) = delete_collection_action T c l
  action_of c (patch name pt d subs) = patch_action T c name d subs

not_empty : (s : Str) → not (is_empty s) ≡ true → is_empty s ≡ false
not_empty [] h = cc
not_empty (x ∷ xs) h = refl

module _ {Server : Type 0} {R : Rest Server} {join : List Str → Str} (W : Addressed R join)
    (T : Testing R) (V : Recorded T join) where
  -- For every method of the interface of SSO resources that gives a name which is not empty, where it
  -- gives one: the request of the typed client of a namespace and the action of the fake client of
  -- that namespace have the same verb, namespace, resource, name and subresource.
  pub request_of-action_of :
      (c : JenkinsV1Client R) (namespace : Str) (m : Method R)
      → is_filled R m ≡ true
      → W.address (request_of R (new_ssos R c namespace) m)
        ≡ V.recorded (action_of T (record { ns = namespace }) m)
  unfolding new_ssos request_of action_of
  request_of-action_of c n (get name o) h =
      W.of_get_params _ o
      ∙ address-name W gets _ n name [] (address-ssos W gets _ n (W.of_get _)) (not_empty name h)
      ∙ sym (V.of_get_action _ n name)
  request_of-action_of c n (list o) h =
      W.of_list_params _ o ∙ address-ssos W gets _ n (W.of_get _) ∙ sym (V.of_list_action _ _ n o)
  request_of-action_of c n (watch o) h =
      W.of_list_params _ _ ∙ address-ssos W gets _ n (W.of_get _) ∙ sym (V.of_watch_action _ n o)
  request_of-action_of c n (create x) h =
      W.of_sso_body _ x ∙ address-ssos W posts _ n (W.of_post _) ∙ sym (V.of_create_action _ n x)
  request_of-action_of c n (update x) h =
      W.of_sso_body _ x
      ∙ address-name W puts _ n x.meta.name [] (address-ssos W puts _ n (W.of_put _))
          (not_empty x.meta.name h)
      ∙ sym (V.of_update_action _ n x)
  request_of-action_of c n (delete name o) h =
      W.of_delete_body _ o
      ∙ address-name W deletes _ n name [] (address-ssos W deletes _ n (W.of_delete _))
          (not_empty name h)
      ∙ sym (V.of_delete_action _ n name)
  request_of-action_of c n (delete_collection o l) h =
      W.of_delete_body _ o
      ∙ W.of_list_params _ l
      ∙ address-ssos W deletes _ n (W.of_delete _)
      ∙ sym (V.of_delete_collection_action _ n l)
  request_of-action_of c n (patch name pt d subs) h =
      W.of_data_body _ d
      ∙ address-name W patches _ n name (join subs)
          (address-sub_resource W patches _ n subs (address-ssos W patches _ n (W.of_patch _ pt)))
          (not_empty name h)
      ∙ sym (V.of_patch_action _ n name d subs)
