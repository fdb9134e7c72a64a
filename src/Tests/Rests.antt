-- ===== src/Tests/Rests.antt =====
-- A REST client whose requests are their addresses.
use sso_operator.Base.{true, false, Bool, List, [], ◌∷◌, ◌++◌, none, some}
use sso_operator.Base.Text.{Str}
use sso_operator.Base.Run.{reply}
use sso_operator.Api.{Sso}
use sso_operator.Client.Rest.{Rest}
use sso_operator.Client.Typed.Addresses.{gets, posts, puts, deletes, patches, Address, blank}
use sso_operator.Client.Fake.{zero_sso, zero_sso_list}

-- `path.Join` of parts without a slash.
abbrev pub path_join : List Str → Str
path_join [] = []
path_join (s ∷ []) = s
path_join (s ∷ t ∷ more) = s ++ (b'/' ∷ path_join (t ∷ more))

-- The server lists the same resources whatever it is asked.
abbrev pub rest_listing : {S : Type 0} → (S → List Sso) → Rest S
rest_listing ssos = record {
  RestClient = Unit;
  Request = Address;
  GetOptions = Unit;
  ListOptions = Bool;
  DeleteOptions = Unit;
  PatchType = Unit;
  Watch = Unit;
  get = λ c. blank gets;
  post = λ c. blank posts;
  put = λ c. blank puts;
  delete = λ c. blank deletes;
  patch = λ c pt. blank patches;
  namespace = λ q n. record q { namespace = n };
  resource = λ q r. record q { resource = r };
  sub_resource = λ q subs. record q { sub_resource = path_join subs };
  name = λ q n. record q { name = some n };
  get_params = λ q o. q;
  list_params = λ q o. q;
  sso_body = λ q x. q;
  delete_body = λ q o. q;
  data_body = λ q d. q;
  into_sso = λ q s. (reply zero_sso, s);
  into_list = λ q s. (reply (record zero_sso_list { items = ssos s }), s);
  error_of = λ q s. (reply tt, s);
  watch = λ q s. (reply tt, s);
  no_list_options = true;
  watching = λ o. o;
  RateLimiter = Unit;
  Config = Unit;
  rate_limiter = λ c. none;
  has_qps = λ c. false;
  token_bucket = λ c. tt;
  with_rate_limiter = λ c l. c;
  with_group_version = λ c g v. c;
  with_api_path = λ c p. c;
  with_serializer = λ c. c;
  user_agent = λ c. [];
  with_user_agent = λ c a. c;
  default_user_agent = [];
  Discovery = Unit;
  rest_client_for = λ c s. (reply tt, s);
  discovery_for_config = λ c s. (reply tt, s);
  discovery_for_config_or_die = λ c s. (some tt, s);
  discovery_of = λ c. tt;
}
