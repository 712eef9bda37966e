-- ===== src/Apps/Program/Unserved.antt =====
-- HTTP sessions whose route manager is null, as those of the server of apps/simple_server/main.cpp
-- are, and which completions there can be.
use the_game.Base.{
  ℕ, ◌≤◌, ◌≡◌, ◌⊎◌, refl, subst, inl, inr, Bool, true, false, ◌||◌, List, [], ◌∷◌, none, some, Dict,
  find, assign, erase, find-assign, find-erase, nat_eq, nat_beq, length, fault, Fault,
  empty_optional, null_pointer, arith, Bool-cases, Option-cases,
}
use the_game.Networking.Boost.{Boost}
use the_game.Networking.Http.Session.{HttpSession, uri_of, on_read, on_read_error}
use the_game.Networking.Http.Session.Flight as HttpFlight
use the_game.Apps.Connections.{Server, Timer}
use the_game.Apps.Connections.Events as Sockets
use the_game.Apps.Listeners.{Handler}
use the_game.Apps.SimpleGame.{timer_at}
use the_game.Networking.Websocket.{WsSession}
use the_game.Apps.Program.{
  Connection, Program, is_idle, settle, Completion, accept_done, http, socket, timer,
}

module _ (b : Boost) where
  -- The operation that completes is in flight.
  abbrev pub IsInFlight : HttpFlight.Event b → HttpSession b (Handler b) (Server b) → Type 0
  IsInFlight (HttpFlight.Event.read_failed e) s = 1 ≤ length s.reading
  IsInFlight (HttpFlight.Event.read_done request) s = 1 ≤ length s.reading
  IsInFlight (HttpFlight.Event.write_done ec) s = 1 ≤ length s.writing

  abbrev pub IsAlive : ℕ → Program b → Type 0
  IsAlive id p = (s : WsSession b.Request) × (find id p.server.sessions ≡ some s)

  -- Websocket sessions are made by the requests that lead to them, and not by an event of their own.
  abbrev pub IsPending : Completion b → Program b → Type 0
  IsPending (accept_done ec ends) p = Unit {0}
  IsPending (http k e) p =
      (c : Connection b) × (find k p.connections ≡ some c) × IsInFlight e c.session
  IsPending (socket (Sockets.Event.upgraded request remote local)) p = ⊥
  IsPending (socket (Sockets.Event.accepted id ec)) p = IsAlive id p
  IsPending (socket (Sockets.Event.received id got_text message)) p = IsAlive id p
  IsPending (socket (Sockets.Event.read_failed id e)) p = IsAlive id p
  IsPending (socket (Sockets.Event.sent id ec bytes)) p = IsAlive id p
  IsPending (timer k) p = (t : Timer) × (timer_at k p.server.app.timers ≡ some t)

  abbrev pub is_request : Completion b → Bool
  is_request (accept_done ec ends) = false
  is_request (http k (HttpFlight.Event.read_failed e)) = false
  is_request (http k (HttpFlight.Event.read_done request)) = true
  is_request (http k (HttpFlight.Event.write_done ec)) = false
  is_request (socket e) = false
  is_request (timer k) = false

  -- Some HTTP session has read a request.
  abbrev pub has_request : List (Completion b) → Bool
  has_request [] = false
  has_request (c ∷ cs) = is_request c || has_request cs

  abbrev pub IsNullAccess : Fault → Type 0
  IsNullAccess f = (f ≡ empty_optional) ⊎ (f ≡ null_pointer)

  -- A session that has no routes to ask, and has answered nothing.
  abbrev pub IsBlank : HttpSession b (Handler b) (Server b) → Type 0
  IsBlank s = (s.route_manager ≡ none) × (s.response ≡ none) × (s.writing ≡ []) × (s.launched ≡ [])

  pub blank_faults :
      (request : b.Request) (s : HttpSession b (Handler b) (Server b))
      → s.route_manager ≡ none
      → s.response ≡ none
      → (f : Fault) × (on_read b request s ≡ fault f) × IsNullAccess f
  unfolding on_read
  blank_faults request s null none_yet = elim (Option-cases (uri_of b request s)) [
    | inl bad ↦ (empty_optional, ground arith, inl refl)
    | inr (url, parsed) ↦ (null_pointer, ground arith, inr refl)
  ]

  abbrev pub AreBlank : Dict ℕ (Connection b) → Type 0
  AreBlank m = (k : ℕ) (c : Connection b) → find k m ≡ some c → IsBlank c.session

  erase-AreBlank : (k : ℕ) (m : Dict ℕ (Connection b)) → AreBlank m → AreBlank (erase k m)
  erase-AreBlank k m h j d found = h j d (ground (arith, find-erase k j m, found))

  pub assign-AreBlank :
      (k : ℕ) (c : Connection b) (m : Dict ℕ (Connection b))
      → IsBlank c.session
      → AreBlank m
      → AreBlank (assign k c m)
  assign-AreBlank k c m new h j d found = elim (Bool-cases (nat_beq k j)) [
    | inl here ↦
        let same : c ≡ d = ground (arith, find-assign k j c m, found, here) in
        subst (λ (x : Connection b). IsBlank x.session) same new
    | inr other ↦ h j d (ground (arith, find-assign k j c m, found, other))
  ]

  pub settle-AreBlank :
      (k : ℕ) (c : Connection b) (s : HttpSession b (Handler b) (Server b)) (p : Program b)
      → IsBlank s
      → AreBlank p.connections
      → AreBlank (settle b k c s p).connections × ((settle b k c s p).server ≡ s.app)
  unfolding settle
  settle-AreBlank k c s p blank h = (
    elim (Bool-cases (is_idle b s)) [
      | inl idle ↦ rw idle (erase-AreBlank k p.connections h)
      | inr busy ↦ rw busy (
          assign-AreBlank k (record c { session = record s { launched = [] } }) p.connections
            (blank.0, blank.1, blank.2, refl) h)
    ],
    rw blank.3 refl,
  )

  pub failed_IsBlank :
      (e : b.Error) (s : HttpSession b (Handler b) (Server b))
      → IsBlank s
      → IsBlank (on_read_error b e s) × ((on_read_error b e s).app ≡ s.app)
  unfolding on_read_error
  failed_IsBlank e s blank = ground arith
