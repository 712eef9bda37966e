-- ===== src/Apps/Connections/Continuing.antt =====
-- Handlers of apps/ after which the map of contexts is as it was, and every session that is open was
-- open before and none closes its stream: the HTTP callbacks, the timers, and an upgrade.
use the_game.Base.{arith, ℕ, ◌≡◌, refl, ◌∙◌, some, find, nat_eq, list_eq}
use the_game.Networking.Boost.{Boost, Endpoint}
use the_game.Networking.Websocket.Session.{run}
use the_game.Networking.Websocket.{WsSession, put_session}
use the_game.Apps.Connections.{Server}
use the_game.Apps.Connections.Quiet.{
  Quietly, same-Quietly, Quietly-trans, run-Quietly, put_as-Quietly,
}
use the_game.Apps.Connections.Opens.{IsComplete, Follows, put-Follows, run-Follows}

module _ (b : Boost) where
  pub record Continues (st st' : Server b) : Type 0 where
    pub follows : Follows b st st'
    pub ctxs : st'.app.ctxs ≡ st.app.ctxs
    pub quietly : Quietly b st st'

  -- The same sessions, and the same map.
  pub same-Continues :
      (st st' : Server b)
      → st'.sessions ≡ st.sessions
      → st'.app.ctxs ≡ st.app.ctxs
      → st'.close_frames ≡ st.close_frames
      → Continues st st'
  same-Continues st st' p q r = record {
    follows = record {
      before = λ id t alive reads. record {
        session = t;
        alive = rw p at alive;
        reads = reads;
        named = refl;
      };
    };
    ctxs = q;
    quietly = same-Quietly b p r;
  }

  pub Continues-trans :
      {st st1 st2 : Server b} → Continues st st1 → Continues st1 st2 → Continues st st2
  Continues-trans c d = record {
    follows = record {
      before = λ id t alive reads.
          let w = d.follows.before id t alive reads in
          let v = c.follows.before id w.session w.alive w.reads in
          record {
            session = v.session;
            alive = v.alive;
            reads = v.reads;
            named = v.named ∙ w.named;
          };
    };
    ctxs = d.ctxs ∙ c.ctxs;
    quietly = Quietly-trans b c.quietly d.quietly;
  }

  pub Continues-IsComplete :
      {st st' : Server b} → Continues st st' → IsComplete b st → IsComplete b st'
  Continues-IsComplete c k id t alive reads =
      let w = c.follows.before id t alive reads in
      rw (c.ctxs, ← w.named) (k id w.session w.alive w.reads)

  pub run-Continues :
      (request : b.Request) (remote local : Endpoint) (st : Server b)
      → Continues st (run b request remote local st)
  unfolding run put_session
  run-Continues request remote local st = record {
    follows = run-Follows b request remote local st;
    ctxs = refl;
    quietly = run-Quietly b request remote local st;
  }

  -- A session is put back, with the uuid that it had, as open as it was, reading as much
  -- and with as much in its buffer.
  pub put-Continues :
      (id : ℕ) (s s' : WsSession b.Request) (st : Server b)
      → find id st.sessions ≡ some s
      → s'.ctx.uuid ≡ s.ctx.uuid
      → s'.is_open ≡ s.is_open
      → s'.reading ≡ s.reading
      → s'.buffer ≡ s.buffer
      → Continues st (put_session id s' st)
  unfolding put_session
  put-Continues id s s' st alive named as_open as_much as_full = record {
    follows = put-Follows b id s s' st alive named (λ reads. omega (arith, reads, as_much));
    ctxs = refl;
    quietly = put_as-Quietly b id s s' st alive as_open as_much as_full;
  }
