-- ===== src/Networking/Websocket/Sending.antt =====
-- What a client is sent by `Send`, `Write` and `OnWrite` of networking/websocket.
use the_game.Base.{
  ◌≡◌, sym, ap, ◌∙◌, List, [], ◌∷◌, ◌++◌, append_assoc, append-nil, Text, length, drop-length,
  drop_past, drop-length_append, arith, length-append,
}
use the_game.Networking.Websocket.{WsSession, append_and_write, written}

module _ {Request : Type 0} where
  -- Nothing is in flight and nothing is left to send.
  pub record IsQuiet (s : WsSession Request) : Type 0 where
    pub idle : s.writing ≡ []
    pub empty : s.write_buf ≡ []

  -- Messages sent one after the other, each when the write before it has completed.
  unfoldable pub send_in_turn : List Text → WsSession Request → WsSession Request
  send_in_turn [] s = s
  send_in_turn (m ∷ ms) s = send_in_turn ms (written (length m) (append_and_write m s))

  one_write :
      (m : Text) (s : WsSession Request)
      → IsQuiet s
      → written (length m) (append_and_write m s) ≡ record s { frames = s.frames ++ m ∷ [] }
  unfolding written append_and_write
  one_write m s q = ground (arith, q.idle, q.empty, drop-length m)

  -- On a session where nothing is in flight, messages that are sent one after the other, each when
  -- the write before it has completed, reach the client as they are, in order, and leave the session
  -- with nothing in flight, nothing left in its buffer, and all else as it was.
  pub send_in_turn_lem :
      (ms : List Text) (s : WsSession Request)
      → IsQuiet s
      → send_in_turn ms s ≡ record s { frames = s.frames ++ ms }
  unfolding send_in_turn
  send_in_turn_lem [] s q = ap (λ fs. record s { frames = fs }) (sym (append-nil s.frames))
  send_in_turn_lem (m ∷ ms) s q = rw (one_write m s q) (
      send_in_turn_lem ms (record s { frames = s.frames ++ m ∷ [] })
        (record { idle = q.idle; empty = q.empty })
      ∙ ap (λ fs. record s { frames = fs }) (append_assoc s.frames (m ∷ []) ms))

  -- A message that is sent while the write of another is in flight: the buffer still holds the other
  -- message, and the client is sent that one again in front of the new one. When both writes have
  -- completed, the session is quiet.
  pub send_overlapping :
      (m n : Text) (s : WsSession Request)
      → IsQuiet s
      → let t = append_and_write n (append_and_write m s) in
        (t.frames ≡ s.frames ++ m ∷ (m ++ n) ∷ [])
        × IsQuiet (written (length (m ++ n)) (written (length m) t))
  unfolding append_and_write written
  send_overlapping m n s q = (
    ground (arith, q.empty, append_assoc s.frames (m ∷ []) ((m ++ n) ∷ [])),
    record {
      idle = ground (arith, q.idle);
      empty = ground (
        arith,
        q.empty,
        drop-length_append m n,
        length-append m n,
        drop_past (length (m ++ n)) n,
      );
    },
  )
