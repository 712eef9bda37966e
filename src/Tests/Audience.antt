-- ===== src/Tests/Audience.antt =====
-- The clients of the simple game, and what they hear.
use the_game.Base.{
  List, Option, ℕ, ◌≡◌, refl, ◌⊎◌, inl, inr, true, false, [], ◌∷◌, ◌++◌, none, some, Text, codes,
  find, nat_eq, list_eq, nat_beq, list_beq_iff, nat_beq_iff, ok, arith, if◌then◌else◌, Bool-cases,
}
use the_game.Networking.Boost.{Status}
use the_game.Networking.Http.Method.{post}
use the_game.Networking.Websocket.{WsSession}
use the_game.Apps.Connections.{Server}
use the_game.Apps.Connections.Registry.{IsLive}
use the_game.Apps.Connections.Events as Sockets
use the_game.Apps.SimpleGame.{set_state, delay_of, line_feed}
use the_game.Apps.SimpleGame.Ready.{IsReady}
use the_game.Apps.SimpleGame.Listed.{is_listed}
use the_game.Apps.SimpleGame.Reaching.{informed, timers_for}
use the_game.Apps.SimpleGame.Delivery.{set_state-Delivers}
use the_game.Apps.SimpleGame.SharedKey.{shared_key_lem, set_states, last_state}
use the_game.Tests.Clients.{client, one_client, one_client-IsConsistent}
use the_game.Networking.Http.Query.{Params}
use the_game.Tests.Samples.{SampleRequest, boost, SampleResponse}

one_client-IsReady : IsReady boost one_client
unfolding find
one_client-IsReady = record {
  consistent = one_client-IsConsistent;
  keyed = (refl, tt);
  timed = λ id h. absurd (omega (arith, h));
}

abbrev post_request : SampleRequest
post_request = record {
  verb = post;
  target = codes "/test/set_state";
  upgrade = false;
  body = codes "new";
}

abbrev response : SampleResponse
response = record { status = Status.ok; keep_alive = true; body = [] }

set_state-Delivers_example :
    (st : Server boost) × (set_state boost post_request none response one_client
      ≡ ok
          (record response { body = codes "Setting state to: " ++ (line_feed ++ codes "new") }, st))
    × IsReady boost st
    × (st.app.state ≡ codes "new")
    × (st.app.ctxs ≡ one_client.app.ctxs)
    × (st.app.timers ≡ [] ++ timers_for (delay_of none) one_client.app.ctxs)
    × ((id : ℕ) (s : WsSession SampleRequest)
        → find id one_client.sessions ≡ some s
        → find id st.sessions
          ≡ some (
              if is_listed id one_client.app.ctxs
              then informed boost (delay_of none) (codes "new") s
              else s))
set_state-Delivers_example =
    set_state-Delivers boost post_request none response one_client one_client-IsReady

-- A second client with the same key.
abbrev second_client : WsSession SampleRequest
second_client = record client { ctx = record client.ctx { ws_session = some 1 } }

abbrev two_clients : Server boost
two_clients = record {
  next_id = 2;
  sessions = (0, client) ∷ (1, second_client) ∷ [];
  logged = [];
  close_frames = [];
  app = record { ctxs = (codes "key", 1) ∷ []; state = codes "s"; timers = [] };
}

two_clients_only :
    (id : ℕ) (s : WsSession SampleRequest)
    → find id two_clients.sessions ≡ some s
    → ((id ≡ 0) × (s ≡ client)) ⊎ ((id ≡ 1) × (s ≡ second_client))
unfolding find
two_clients_only id s h = elim (Bool-cases (nat_beq 0 id)) [
  | inl first ↦ inl (ground (arith, first, nat_beq_iff 0 id), ground (arith, first, h))
  | inr later ↦ elim (Bool-cases (nat_beq 1 id)) [
    | inl second ↦ inr (ground (arith, second, nat_beq_iff 1 id), ground (arith, later, second, h))
    | inr neither ↦ absurd (ground (arith, later, neither, h))
  ]
]

one_entry_only :
    (uuid : Text) (id : ℕ)
    → find uuid two_clients.app.ctxs ≡ some id
    → (uuid ≡ codes "key") × (id ≡ 1)
unfolding find
one_entry_only uuid id h = ground (arith, list_beq_iff (codes "key") uuid)

second-alive : find 1 two_clients.sessions ≡ some second_client
unfolding find
second-alive = refl

first-alive : find 0 two_clients.sessions ≡ some client
unfolding find
first-alive = refl

second-IsLive : IsLive boost two_clients (codes "key") 1
second-IsLive = record {
  session = second_client;
  alive = second-alive;
  named = refl;
  lockable = refl;
  reads = omega arith;
}

two_clients-IsReady : IsReady boost two_clients
unfolding find
two_clients-IsReady = record {
  consistent = record {
    live = λ uuid id h.
        let (is_key, is_one) = one_entry_only uuid id h in rw (is_key, is_one) second-IsLive;
    sound = record {
      fresh = λ id s h. elim (two_clients_only id s h) [
        | inl (at, same) ↦ omega (arith, at)
        | inr (at, same) ↦ omega (arith, at)
      ];
      one_wait = λ id s h. elim (two_clients_only id s h) [
        | inl (at, same) ↦ rw same (omega arith)
        | inr (at, same) ↦ rw same (omega arith)
      ];
      opened = λ id s h p. elim (two_clients_only id s h) [
        | inl (at, same) ↦ rw (at, same) refl
        | inr (at, same) ↦ rw (at, same) refl
      ];
    };
  };
  keyed = (refl, tt);
  timed = λ id h. absurd (omega (arith, h));
}

abbrev two_states : List (SampleRequest × Option Params × SampleResponse)
two_states = (post_request, none, response) ∷ (post_request, none, response) ∷ []

shared_key_lem_example :
    (st1 : Server boost) × (st2 : Server boost) × (Sockets.step boost
        (Sockets.Event.read_failed 0 1)
        two_clients
      ≡ ok st1)
    × IsReady boost st1
    × (find second_client.ctx.uuid st1.app.ctxs ≡ none)
    × (find 1 st1.sessions ≡ some second_client)
    × (set_states boost two_states st1 ≡ ok st2)
    × (st2.app.state ≡ last_state boost two_states st1.app.state)
    × (st2.app.ctxs ≡ st1.app.ctxs)
    × (find 1 st2.sessions ≡ some second_client)
shared_key_lem_example =
    shared_key_lem boost 0 1 1 client second_client two_clients (omega arith) first-alive
      second-alive refl two_clients-IsReady (client, first-alive, omega arith, refl) two_states
