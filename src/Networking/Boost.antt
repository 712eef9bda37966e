-- ===== src/Networking/Boost.antt =====
-- What the networking library takes from Boost.Asio, Boost.Beast and Boost.URL: types that stay
-- abstract and the operations that the source calls on them. `Responds` states what Beast documents
-- of the fields of a response.
use the_game.Base.{ℕ, ◌≡◌, Bool, Option, List, Text}
use the_game.Networking.Http.Method.{Verbs}

pub data Status : Type 0 where
  ok not_found : Status

-- A query parameter as `encoded_params` yields it: still percent-encoded.
pub record QueryParam : Type 0 where
  pub key : Text
  pub value : Text
  pub has_value : Bool

pub record Endpoint : Type 0 where
  pub address : Text
  pub port : ℕ

pub record Boost : Type 1 where
  pub verbs : Verbs
  -- The `error_code`s that stand for a failure; `none` is the one of success.
  pub Error : Type 0
  pub message : Option Error → Text
  pub printed : Option Error → Text
  pub is_end_of_stream : Error → Bool
  pub is_closed : Error → Bool
  -- `http::request<string_body>`
  pub Request : Type 0
  pub method : Request → verbs.Verb
  pub target : Request → Text
  pub version : Request → ℕ
  pub request_keep_alive : Request → Bool
  pub body : Request → Text
  pub field_at : Text → Request → Option Text
  pub is_upgrade : Request → Bool
  -- `http::response<string_body>`
  pub Response : Type 0
  pub make_response : Status → ℕ → Response
  pub set_keep_alive : Bool → Response → Response
  pub set_field : Text → Text → Response → Response
  pub set_result : Status → Response → Response
  pub set_body : Text → Response → Response
  pub prepare_payload : Response → Response
  -- What a response is after it has been moved from.
  pub moved_from : Response → Response
  pub keep_alive : Response → Bool
  pub result : Response → Status
  pub response_body : Response → Text
  -- `parse_uri`, and a parsed `url`
  pub Url : Type 0
  pub parse_uri : Text → Option Url
  pub path : Url → Text
  pub query : Url → Text
  pub encoded_params : Url → List QueryParam
  pub parse_query_accepts : Text → Bool

-- The getters of a response return what was set last, and `prepare_payload` changes only the fields
-- that describe the payload.
pub record Responds (b : Boost) : Type 0 where
  pub keep_alive-set : (k : Bool) (r : b.Response) → b.keep_alive (b.set_keep_alive k r) ≡ k
  pub keep_alive-field :
      (n v : Text) (r : b.Response) → b.keep_alive (b.set_field n v r) ≡ b.keep_alive r
  pub keep_alive-result :
      (s : Status) (r : b.Response) → b.keep_alive (b.set_result s r) ≡ b.keep_alive r
  pub keep_alive-body : (t : Text) (r : b.Response) → b.keep_alive (b.set_body t r) ≡ b.keep_alive r
  pub result-set : (s : Status) (r : b.Response) → b.result (b.set_result s r) ≡ s
  pub result-body : (t : Text) (r : b.Response) → b.result (b.set_body t r) ≡ b.result r
  pub result-prepared : (r : b.Response) → b.result (b.prepare_payload r) ≡ b.result r
  pub body-set : (t : Text) (r : b.Response) → b.response_body (b.set_body t r) ≡ t
  pub body-prepared : (r : b.Response) → b.response_body (b.prepare_payload r) ≡ b.response_body r
  pub keep_alive-prepared : (r : b.Response) → b.keep_alive (b.prepare_payload r) ≡ b.keep_alive r
