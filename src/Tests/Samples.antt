-- ===== src/Tests/Samples.antt =====
-- A small Boost to run the networking library on: a verb is a method, a URI is parsed to what stands
-- from its third slash on, errors are numbers.
use the_game.Base.{
  ℕ, ◌-◌, refl, Bool, true, false, List, [], ◌∷◌, Option, none, some, Text, codes, nat_beq,
  if◌then◌else◌, list_eq, nat_eq,
}
use the_game.Networking.Boost.{Boost, Responds, Status, Endpoint}
use the_game.Networking.Http.Method.{
  HttpMethod, unknown, get, post, put, delete, patch, method_eq, Verbs, Distinct,
}
use the_game.Networking.NetUtils.{Acceptors}

pub methods-Distinct : Distinct (get ∷ post ∷ put ∷ delete ∷ patch ∷ unknown ∷ [])
methods-Distinct = (
  ((λ e. cc), ((λ e. cc), ((λ e. cc), ((λ e. cc), ((λ e. cc), tt))))),
  (
    ((λ e. cc), ((λ e. cc), ((λ e. cc), ((λ e. cc), tt)))),
    (
      ((λ e. cc), ((λ e. cc), ((λ e. cc), tt))),
      (((λ e. cc), ((λ e. cc), tt)), (((λ e. cc), tt), (tt, tt))),
    ),
  ),
)

abbrev pub verbs : Verbs
verbs = record {
  Verb = HttpMethod;
  eq = method_eq;
  verb_get = get;
  verb_post = post;
  verb_put = put;
  verb_delete = delete;
  verb_patch = patch;
  verb_unknown = unknown;
  distinct = methods-Distinct;
}

pub record SampleRequest : Type 0 where
  pub verb : HttpMethod
  pub target : Text
  pub upgrade : Bool
  pub body : Text

pub record SampleResponse : Type 0 where
  pub status : Status
  pub keep_alive : Bool
  pub body : Text

abbrev from_slash : ℕ → Text → Option Text
from_slash n [] = none
from_slash n (c ∷ cs) =
    if nat_beq c b'/'
    then (if nat_beq n 0 then some (c ∷ cs) else from_slash (n - 1) cs)
    else from_slash n cs

abbrev pub boost : Boost
boost = record {
  verbs = verbs;
  Error = ℕ;
  message = λ e. [];
  printed = λ e. [];
  is_end_of_stream = λ e. nat_beq e 2;
  is_closed = λ e. nat_beq e 1;
  Request = SampleRequest;
  method = λ (r : SampleRequest). r.verb;
  target = λ (r : SampleRequest). r.target;
  version = λ r. 11;
  request_keep_alive = λ r. true;
  body = λ (r : SampleRequest). r.body;
  field_at = λ name r. some (codes "key");
  is_upgrade = λ (r : SampleRequest). r.upgrade;
  Response = SampleResponse;
  make_response = λ s v. record { status = s; keep_alive = false; body = [] };
  set_keep_alive = λ k (r : SampleResponse). record r { keep_alive = k };
  set_field = λ n v r. r;
  set_result = λ s (r : SampleResponse). record r { status = s };
  set_body = λ t (r : SampleResponse). record r { body = t };
  prepare_payload = λ r. r;
  moved_from = λ (r : SampleResponse). record r { body = [] };
  keep_alive = λ (r : SampleResponse). r.keep_alive;
  result = λ (r : SampleResponse). r.status;
  response_body = λ (r : SampleResponse). r.body;
  Url = Text;
  parse_uri = from_slash 2;
  path = λ url. url;
  query = λ url. [];
  encoded_params = λ url.
      record { key = codes "a"; value = codes "1"; has_value = true }
      ∷ record { key = codes "a"; value = codes "2"; has_value = true }
      ∷ record { key = codes "delay"; value = codes "5"; has_value = true }
      ∷ [];
  parse_query_accepts = λ t. true;
}

pub boost-Responds : Responds boost
boost-Responds = record {
  keep_alive-set = λ k r. refl;
  keep_alive-field = λ n v r. refl;
  keep_alive-result = λ s r. refl;
  keep_alive-body = λ t r. refl;
  result-set = λ s r. refl;
  result-body = λ t r. refl;
  result-prepared = λ r. refl;
  body-set = λ t r. refl;
  body-prepared = λ r. refl;
  keep_alive-prepared = λ r. refl;
}

-- An acceptor is the list of the calls made on it; the third one fails.
abbrev pub acceptors : Acceptors boost Endpoint
acceptors = record {
  Acceptor = List ℕ;
  open_for = λ e a. (none, 1 ∷ a);
  reuse_address = λ a. (none, 2 ∷ a);
  bind = λ e a. (some 7, 3 ∷ a);
  listen = λ a. (none, 4 ∷ a);
  close = λ a. [];
}

abbrev pub endpoint : Endpoint
endpoint = record { address = codes "h"; port = 80 }

abbrev pub get_request : Text → SampleRequest
get_request target = record { verb = get; target = target; upgrade = false; body = [] }

abbrev pub upgrade_request : Text → SampleRequest
upgrade_request target = record { verb = get; target = target; upgrade = true; body = [] }
