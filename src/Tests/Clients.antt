-- ===== src/Tests/Clients.antt =====
-- Servers with no client and with one.
use the_game.Base.{find, arith, ℕ, ◌≡◌, refl, true, [], ◌∷◌, some, Text, codes, nat_eq, list_eq}
use the_game.Networking.Websocket.{WsSession}
use the_game.Apps.Connections.{Server}
use the_game.Apps.Connections.Registry.{IsConsistent}
use the_game.Apps.Connections.Registry.{IsLive}
use the_game.Base.{list_beq_iff}
use the_game.Networking.Http.Method.{method_eq}
use the_game.Tests.Samples.{boost, endpoint, SampleRequest, upgrade_request}

abbrev pub no_game : Server boost
no_game = record {
  next_id = 0;
  sessions = [];
  logged = [];
  close_frames = [];
  app = record { ctxs = []; state = []; timers = [] };
}

-- A client that has been accepted and reads.
abbrev pub client : WsSession SampleRequest
client = record {
  ctx = record {
    remote_endpoint = some endpoint;
    local_endpoint = some endpoint;
    uuid = codes "key";
    ws_session = some 0;
    target = codes "/";
  };
  request = upgrade_request (codes "/");
  buffer = [];
  write_buf = [];
  text = true;
  is_open = true;
  accepting = 0;
  reading = 1;
  writing = [];
  held = 0;
  frames = [];
}

abbrev pub one_client : Server boost
one_client = record {
  next_id = 1;
  sessions = (0, client) ∷ [];
  logged = [];
  close_frames = [];
  app = record { ctxs = (codes "key", 0) ∷ []; state = codes "s"; timers = [] };
}

pub one_client-alive : find 0 one_client.sessions ≡ some client
unfolding find
one_client-alive = refl

pub one_client-kept : find (codes "key") one_client.app.ctxs ≡ some 0
unfolding find
one_client-kept = refl

one_client_only :
    (id : ℕ) (s : WsSession SampleRequest)
    → find id one_client.sessions ≡ some s
    → (id ≡ 0) × (s ≡ client)
unfolding find
one_client_only id s h = ground arith

one_pointer_only :
    (uuid : Text) (id : ℕ)
    → find uuid one_client.app.ctxs ≡ some id
    → (uuid ≡ codes "key") × (id ≡ 0)
unfolding find
one_pointer_only uuid id h = ground (arith, list_beq_iff (codes "key") uuid)

client-IsLive : IsLive boost one_client (codes "key") 0
client-IsLive = record {
  session = client;
  alive = one_client-alive;
  named = refl;
  lockable = refl;
  reads = omega arith;
}

pub one_client-IsConsistent : IsConsistent boost one_client
one_client-IsConsistent = record {
  live = λ uuid id h.
      let (is_key, is_zero) = one_pointer_only uuid id h in rw (is_key, is_zero) client-IsLive;
  sound = record {
    fresh = λ id s h. let (is_zero, _) = one_client_only id s h in rw is_zero (omega arith);
    one_wait = λ id s h. let (_, is_client) = one_client_only id s h in rw is_client (omega arith);
    opened = λ id s h p.
        let (is_zero, is_client) = one_client_only id s h in rw (is_zero, is_client) refl;
  };
}
