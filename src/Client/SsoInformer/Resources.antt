-- ===== src/Client/SsoInformer/Resources.antt =====
-- `ForResource` and the informers that the factory shares.
use sso_operator.Base.{◌≡◌, List, ◌++◌, if◌then◌else◌, arith}
use sso_operator.Base.Text.{str}
use sso_operator.Base.Run.{message, ok, err}
use sso_operator.Client.Library.{Library}
use sso_operator.Client.Factory.{Factory}
use sso_operator.Client.Factory.Operations.{Op, run}
use sso_operator.Client.Factory.Sharing.{informer_for_shared}
use sso_operator.Client.SsoInformer.{
  GroupVersionResource, same_resource, ssos_resource, sso_type, jenkins_sso_informer, for_resource,
  informer,
}

module _ (L : Library) where
  jenkins_sso_informer_shared :
      (f : Factory L) (ops : List (Op L))
      → jenkins_sso_informer L (run L ops (jenkins_sso_informer L f).1).0
        ≡ ((jenkins_sso_informer L f).0, (run L ops (jenkins_sso_informer L f).1).0)
  unfolding jenkins_sso_informer informer
  jenkins_sso_informer_shared f ops = informer_for_shared L sso_type _ _ f ops

  -- Once `Jenkins().V1().SSOs().Informer()` has given an informer, then after any further calls of
  -- the factory `ForResource` gives that informer for the resource ssos of jenkins.io/v1 and changes
  -- nothing, and for any other resource it is an error and changes nothing.
  pub for_resource-jenkins_sso_informer :
      (r : GroupVersionResource) (f : Factory L) (ops : List (Op L))
      → for_resource L r (run L ops (jenkins_sso_informer L f).1).0 ≡ (
        (if same_resource r ssos_resource
            then ok (record {
              informer = (jenkins_sso_informer L f).0;
              group = r.group;
              resource = r.resource;
            })
            else err (
                message
                  (str "no informer found for " ++ L.show_resource r.group r.version r.resource))),
        (run L ops (jenkins_sso_informer L f).1).0,
      )
  unfolding for_resource
  for_resource-jenkins_sso_informer r f ops = ground (arith, jenkins_sso_informer_shared f ops)
