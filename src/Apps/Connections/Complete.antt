-- ===== src/Apps/Connections/Complete.antt =====
-- That the map of contexts of apps/ keeps every client that is connected, while no two have the same
-- key.
use the_game.Base.{
  list_tail, false, ℕ, ◌-◌, ◌≡◌, refl, sym, subst, ◌∙◌, Bool, Option, none, some, Text, codes, find,
  nat_eq, list_eq, Result, ok, arith, if◌then◌else◌, ok_injective,
}
use the_game.Networking.Boost.{Boost}
use the_game.Networking.Websocket.{WsSession, put_session, release, written}
use the_game.Networking.Websocket.Session.{log, on_accept, on_write}
use the_game.Apps.Connections.{Server}
use the_game.Apps.Connections.Registry.{IsConsistent}
use the_game.Apps.Connections.Upkeep.{accept_result}
use the_game.Apps.Connections.Departing.{close_result}
use the_game.Apps.Connections.Echo.{echoed, message_result}
use the_game.Apps.Connections.Events.{
  Event, upgraded, accepted, received, read_failed, sent, step, IsRegular, refused_result,
  not_sent_result, sent_result,
}
use the_game.Apps.Connections.Effects.{Change, stays, joins, leaves, Effect}
use the_game.Apps.Connections.Changes.{change_of, joining, leaving}
use the_game.Apps.Connections.Opens.{
  IsFresh, IsComplete, Opens, Opens-IsComplete, Follows-Opens, release-Follows, put-Follows,
  run-Follows, log-Follows, joined-Opens, left-Opens,
}

module _ (b : Boost) where
  -- The step returns, and opens no more than this.
  abbrev Has : Change → Server b → Result (Server b) → Type 0
  Has c st r = (st' : Server b) × (r ≡ ok st') × Opens b c st st'

  module _ (st : Server b) (c : IsConsistent b st) (k : IsComplete b st) where
    reported-Opens :
        (id : ℕ) (s s' : WsSession b.Request) (ec : Option b.Error) (what : Text)
        → find id st.sessions ≡ some s
        → s'.ctx.uuid ≡ s.ctx.uuid
        → s'.reading ≡ s.reading
        → Opens b stays st (release id (log b ec what (put_session id s' st)))
    reported-Opens id s s' ec what alive named same = Follows-Opens b (
        release-Follows b id (
          log-Follows b ec what
            (put-Follows b id s s' st alive named (λ h. omega (arith, same, h)))))

    accepted-Has :
        (id : ℕ) (ec : Option b.Error)
        → IsRegular b (accepted id ec) st
        → Has (change_of b (accepted id ec) st) st (step b (accepted id ec) st)
    unfolding step change_of on_accept
    accepted-Has id (some e) (s, alive, _, _) =
        let s1 = record s { accepting = s.accepting - 1 } in
        (
          _,
          refused_result b id s st alive e,
          reported-Opens id s s1 (some e) (codes "on accept") alive refl refl,
        )
    accepted-Has id none (s, alive, waits, (key, field)) =
        let joins_now : joining b id (find id st.sessions) ≡ joins key id =
          ground (arith, alive, field) in
        rw joins_now (
          _,
          accept_result b id key s st c alive waits field,
          joined-Opens b id key s st c alive waits,
        )

    closed-Has :
        (id : ℕ) (e : b.Error)
        → IsRegular b (read_failed id e) st
        → Has (change_of b (read_failed id e) st) st (step b (read_failed id e) st)
    unfolding step change_of
    closed-Has id e (s, alive, reads, end) =
        let leaves_now : (if b.is_closed e then leaving b (find id st.sessions) else stays)
            ≡ leaves s.ctx.uuid =
          ground (arith, alive, end) in
        rw leaves_now
          (_, close_result b id s st c alive e end, left-Opens b id s st c alive e end reads k)

    received-Has :
        (id : ℕ) (got_text : Bool) (message : Text)
        → IsRegular b (received id got_text message) st
        → Has stays st (step b (received id got_text message) st)
    unfolding step
    received-Has id got_text message (s, alive, reads) = (
      put_session id (echoed b got_text message s) st,
      message_result b id s st alive (c.sound.opened id s alive reads) got_text message,
      Follows-Opens b (put-Follows b id s (echoed b got_text message s) st alive refl (λ h. reads)),
    )

    sent-Has :
        (id : ℕ) (ec : Option b.Error) (bytes : ℕ)
        → IsRegular b (sent id ec bytes) st
        → Has stays st (step b (sent id ec bytes) st)
    unfolding step on_write written
    sent-Has id (some e) bytes (s, alive, _) =
        let s1 = record s { writing = list_tail s.writing; is_open = false } in
        (
          _,
          not_sent_result b id s st alive e bytes,
          reported-Opens id s s1 (some e) (codes "on write") alive refl refl,
        )
    sent-Has id none bytes (s, alive, _) = (
      release id (put_session id (written bytes s) st),
      sent_result b id s st alive bytes,
      Follows-Opens b
          (release-Follows b id (put-Follows b id s (written bytes s) st alive refl (λ h. h))),
    )

    step-Opens : (e : Event b) → IsRegular b e st → Has (change_of b e st) st (step b e st)
    unfolding step change_of
    step-Opens (upgraded request remote local) _ =
        (_, refl, Follows-Opens b (run-Follows b request remote local st))
    step-Opens (accepted id ec) r = accepted-Has id ec r
    step-Opens (received id got_text message) r = received-Has id got_text message r
    step-Opens (read_failed id e) r = closed-Has id e r
    step-Opens (sent id ec bytes) r = sent-Has id ec bytes r

    -- A step that is known to return, with its effect on the map.
    pub step-IsComplete :
        (e : Event b) (st' : Server b)
        → IsRegular b e st
        → IsFresh (change_of b e st) st.app.ctxs
        → step b e st ≡ ok st'
        → Effect b (change_of b e st) st st'
        → IsComplete b st'
    step-IsComplete e st' regular fresh ran effect =
        let (st1, ran1, opens) = step-Opens e regular in
        let same : st1 ≡ st' = ok_injective (sym ran1 ∙ ran) in
        Opens-IsComplete b (change_of b e st) st st'
          (subst (Opens b (change_of b e st) st) same opens) effect fresh k
