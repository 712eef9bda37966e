-- ===== src/Apps/Program/Happenings.antt =====
-- One connection in a run of a whole server (apps/simple_game/beast.cpp and apps/simple_server): what
-- its HTTP session sees of the run is the list of its own completions.
pub mod Following
use the_game.Base.{
  ◌<◌, List, [], ◌∷◌, ◌++◌, ok, fault, ℕ, Option, none, some, find, nat_eq, nat_beq, if◌then◌else◌,
  ◌≡◌,
}
use the_game.Networking.Boost.{Boost, Endpoint}
use the_game.Networking.NetUtils.{Acceptors}
use the_game.Networking.Listener.{Listener}
use the_game.Networking.Http.Session.{HttpSession}
use the_game.Networking.Http.Session.Flight as HttpFlight
use the_game.Apps.Connections.{Server}
use the_game.Apps.Listeners.{Routes, Handler}
use the_game.Apps.Program.{Connection, Program, Completion, accept_done, http, socket, timer, step}

module _ (b : Boost) where
  -- The completion, with the listener's members by then, if it is of the connection `k`.
  abbrev pub own : ℕ → Completion b → Server b → List (HttpFlight.Event b × Server b)
  own k (accept_done ec ends) st = []
  own k (http j e) st = if nat_beq j k then (e, st) ∷ [] else []
  own k (socket e) st = []
  own k (timer j) st = []

  -- The completions of the connection `k` in a run.
  unfoldable pub happenings :
      (ac : Acceptors b Endpoint)
      → Option (Routes b)
      → ℕ
      → List (Completion b)
      → Listener b ac (Program b)
      → List (HttpFlight.Event b × Server b)
  unfolding step
  happenings ac routes k [] l = []
  happenings ac routes k (c ∷ cs) l =
      own k c l.app.server
      ++ elim (step b ac routes c l) [ ok l1 ↦ happenings ac routes k cs l1 | fault f ↦ [] ]

  -- The responses of the connection `k` that are being written.
  abbrev pub in_flight : ℕ → Program b → List b.Response
  in_flight k p = elim (find k p.connections) [ none ↦ [] | some c ↦ c.session.writing ]

  -- The connection's session is `s`; or it has been destroyed, and nothing was in flight by then.
  pub data Follows (k : ℕ) (s : HttpSession b (Handler b) (Server b)) (p : Program b) : Type 0 where
    alive : (c : Connection b) → find k p.connections ≡ some c → c.session ≡ s → Follows k s p
    gone : find k p.connections ≡ none → s.writing ≡ [] → Follows k s p

  -- And its number has been given out.
  abbrev pub Tracks : ℕ → HttpSession b (Handler b) (Server b) → Program b → Type 0
  Tracks k s p = Follows k s p × (k < p.next)
