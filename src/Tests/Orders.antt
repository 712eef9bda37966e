-- ===== src/Tests/Orders.antt =====
-- Two clients, each under its key, and the two orders of the map.
use mathlib.Core.List.{Permᴰ}
use the_game.Base.{
  true, ℕ, ◌≡◌, refl, ◌⊎◌, inl, inr, [], ◌∷◌, some, Text, codes, find, nat_eq, list_eq, nat_beq,
  list_beq_iff, nat_beq_iff, ok, arith, Bool-cases, ◌==◌,
}
use the_game.Networking.Boost.{Status}
use the_game.Networking.Websocket.{WsSession}
use the_game.Apps.Connections.{Server, set_ctxs}
use the_game.Apps.Connections.Registry.{IsLive}
use the_game.Apps.SimpleGame.{set_state}
use the_game.Apps.SimpleGame.Ready.{IsReady}
use the_game.Apps.SimpleGame.AnyOrder.{set_state-permuted}
use the_game.Tests.Clients.{client}
use the_game.Tests.Programs.{post_request}
use the_game.Tests.Samples.{boost, SampleResponse, SampleRequest}

abbrev other_client : WsSession SampleRequest
other_client = record client {
  ctx = record client.ctx { ws_session = some 1; uuid = codes "other" };
}

abbrev two_keys : Server boost
two_keys = record {
  next_id = 2;
  sessions = (0, client) ∷ (1, other_client) ∷ [];
  logged = [];
  close_frames = [];
  app = record {
    ctxs = (codes "key", 0) ∷ (codes "other", 1) ∷ [];
    state = codes "s";
    timers = [];
  };
}

sessions_only :
    (id : ℕ) (s : WsSession SampleRequest)
    → find id two_keys.sessions ≡ some s
    → ((id ≡ 0) × (s ≡ client)) ⊎ ((id ≡ 1) × (s ≡ other_client))
unfolding find
sessions_only id s h = elim (Bool-cases (nat_beq 0 id)) [
  | inl first ↦ inl (ground (arith, first, nat_beq_iff 0 id), ground (arith, first, h))
  | inr later ↦ elim (Bool-cases (nat_beq 1 id)) [
    | inl second ↦ inr (ground (arith, second, nat_beq_iff 1 id), ground (arith, later, second, h))
    | inr neither ↦ absurd (ground (arith, later, neither, h))
  ]
]

entries_only :
    (uuid : Text) (id : ℕ)
    → find uuid two_keys.app.ctxs ≡ some id
    → ((uuid ≡ codes "key") × (id ≡ 0)) ⊎ ((uuid ≡ codes "other") × (id ≡ 1))
unfolding find
entries_only uuid id h = elim (Bool-cases (codes "key" == uuid)) [
  | inl first ↦
      inl (ground (arith, first, list_beq_iff (codes "key") uuid), ground (arith, first, h))
  | inr later ↦
      inr (ground (arith, later, h, list_beq_iff (codes "other") uuid), ground (arith, later, h))
]

key-IsLive : IsLive boost two_keys (codes "key") 0
unfolding find
key-IsLive = record {
  session = client;
  alive = refl;
  named = refl;
  lockable = refl;
  reads = omega arith;
}

other-IsLive : IsLive boost two_keys (codes "other") 1
unfolding find
other-IsLive = record {
  session = other_client;
  alive = refl;
  named = refl;
  lockable = refl;
  reads = omega arith;
}

two_keys-IsReady : IsReady boost two_keys
unfolding find
two_keys-IsReady = record {
  consistent = record {
    live = λ uuid id h. elim (entries_only uuid id h) [
      | inl (is_key, is_id) ↦ rw (is_key, is_id) key-IsLive
      | inr (is_key, is_id) ↦ rw (is_key, is_id) other-IsLive
    ];
    sound = record {
      fresh = λ id s h. elim (sessions_only id s h) [
        | inl (at, same) ↦ omega (arith, at)
        | inr (at, same) ↦ omega (arith, at)
      ];
      one_wait = λ id s h. elim (sessions_only id s h) [
        | inl (at, same) ↦ rw same (omega arith)
        | inr (at, same) ↦ rw same (omega arith)
      ];
      opened = λ id s h p. elim (sessions_only id s h) [
        | inl (at, same) ↦ rw (at, same) refl
        | inr (at, same) ↦ rw (at, same) refl
      ];
    };
  };
  keyed = (refl, (refl, tt));
  timed = λ id h. absurd (omega (arith, h));
}

abbrev response : SampleResponse
response = record { status = Status.ok; keep_alive = true; body = [] }

set_state-permuted_example :
    (res : SampleResponse) × (st1 : Server boost) × (st2 : Server boost) × (set_state boost
        post_request
        (some ((codes "delay", codes "5") ∷ []))
        response
        two_keys
      ≡ ok (res, st1))
    × (set_state boost post_request
          (some ((codes "delay", codes "5") ∷ []))
          response
          (set_ctxs boost ((codes "other", 1) ∷ (codes "key", 0) ∷ []) two_keys)
        ≡ ok (res, st2))
    × (st2.app.state ≡ st1.app.state)
    × ((id : ℕ) → find id st2.sessions ≡ find id st1.sessions)
    × Permᴰ st1.app.timers st2.app.timers
set_state-permuted_example =
    set_state-permuted boost post_request (some ((codes "delay", codes "5") ∷ [])) response two_keys
      ((codes "other", 1) ∷ (codes "key", 0) ∷ []) two_keys-IsReady (Permᴰ.swap refl refl)
