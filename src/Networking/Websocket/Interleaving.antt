-- ===== src/Networking/Websocket/Interleaving.antt =====
-- Sends and write completions of networking/websocket in any order: when a client is sent what the
-- application sends.
use the_game.Base.{
  ◌≡◌, refl, sym, ap, ◌∙◌, ◌↔◌, List, [], ◌∷◌, ◌++◌, append_assoc, append-nil, length-append,
  append_cancel_left, head-eq_of_cons-eq, tail-eq_of_cons-eq, Text, length, drop-length, arith, All,
}
use the_game.Networking.Websocket.{WsSession, append_and_write, written}
use the_game.Networking.Websocket.Sending.{IsQuiet}

-- The application sends a message; or the oldest write in flight, if there is one, completes with all
-- of its bytes.
pub data WriteEvent : Type 0 where
  sends : Text → WriteEvent
  completes : WriteEvent

-- What the application sends.
abbrev pub messages : List WriteEvent → List Text
messages [] = []
messages (sends m ∷ es) = m ∷ messages es
messages (completes ∷ es) = messages es

module _ {Request : Type 0} where
  abbrev pub complete_write : List Text → WsSession Request → WsSession Request
  complete_write [] s = s
  complete_write (w ∷ ws) s = written (length w) s

  unfoldable pub write_step : WriteEvent → WsSession Request → WsSession Request
  unfolding append_and_write written
  write_step (sends m) s = append_and_write m s
  write_step completes s = complete_write s.writing s

  unfoldable pub write_all : List WriteEvent → WsSession Request → WsSession Request
  unfolding write_step
  write_all [] s = s
  write_all (e ∷ es) s = write_all es (write_step e s)

  -- Nothing is in flight whenever a message is sent.
  abbrev pub SendsAlone : List WriteEvent → WsSession Request → Type 0
  SendsAlone [] s = Unit
  SendsAlone (sends m ∷ es) s = (s.writing ≡ []) × SendsAlone es (write_step (sends m) s)
  SendsAlone (completes ∷ es) s = SendsAlone es (write_step completes s)

  -- The frames that the client is sent from here on.
  abbrev frames_of : List WriteEvent → WsSession Request → List Text
  frames_of [] s = []
  frames_of (sends m ∷ es) s = (s.write_buf ++ m) ∷ frames_of es (write_step (sends m) s)
  frames_of (completes ∷ es) s = frames_of es (write_step completes s)

  write_all-frames :
      (es : List WriteEvent) (s : WsSession Request)
      → (write_all es s).frames ≡ s.frames ++ frames_of es s
  unfolding write_all append_and_write written
  write_all-frames [] s = sym (append-nil s.frames)
  write_all-frames (sends m ∷ es) s =
      write_all-frames es (append_and_write m s)
      ∙ append_assoc s.frames ((s.write_buf ++ m) ∷ []) (frames_of es (append_and_write m s))
  write_all-frames (completes ∷ es) s =
      write_all-frames es (write_step completes s)
      ∙ ap (λ fs. fs ++ frames_of es (write_step completes s)) (same s.writing)
    where
      same : (ws : List Text) → (complete_write ws s).frames ≡ s.frames
      same [] = refl
      same (w ∷ ws) = refl

  -- At most one write is in flight, and the buffer holds what it writes.
  data IsAlone (s : WsSession Request) : Type 0 where
    quiet : s.writing ≡ [] → s.write_buf ≡ [] → IsAlone s
    one : (w : Text) → ¬ (w ≡ []) → s.writing ≡ w ∷ [] → s.write_buf ≡ w → IsAlone s

  complete_write-IsAlone :
      (ws : List Text) (s : WsSession Request)
      → s.writing ≡ ws
      → IsAlone s
      → IsAlone (complete_write ws s)
  unfolding written
  complete_write-IsAlone [] s idle a = a
  complete_write-IsAlone (w ∷ ws) s waits (quiet idle empty) = absurd (cc (sym waits ∙ idle))
  complete_write-IsAlone (w ∷ ws) s waits (one v some_text only holds) =
      let same : w ∷ ws ≡ v ∷ [] = sym waits ∙ only in
      quiet (rw waits (tail-eq_of_cons-eq same))
        (rw (holds, head-eq_of_cons-eq same) (drop-length v))

  completes-IsAlone : (s : WsSession Request) → IsAlone s → IsAlone (write_step completes s)
  unfolding write_step
  completes-IsAlone s a = complete_write-IsAlone s.writing s refl a

  sends-IsAlone :
      (m : Text) (s : WsSession Request)
      → ¬ (m ≡ [])
      → s.writing ≡ []
      → s.write_buf ≡ []
      → IsAlone (write_step (sends m) s)
  unfolding write_step append_and_write
  sends-IsAlone m s some_text idle empty = one m some_text (rw (idle, empty) refl) (rw empty refl)

  frames_of_iff :
      (es : List WriteEvent) (s : WsSession Request)
      → All (λ m. ¬ (m ≡ [])) (messages es)
      → IsAlone s
      → (frames_of es s ≡ messages es) ↔ SendsAlone es s
  frames_of_iff [] s h a = ((λ _. tt), (λ _. refl))
  frames_of_iff (completes ∷ es) s h a =
      frames_of_iff es (write_step completes s) h (completes-IsAlone s a)
  frames_of_iff (sends m ∷ es) s (some_text, h) (quiet idle empty) =
      let rest =
        frames_of_iff es (write_step (sends m) s) h (sends-IsAlone m s some_text idle empty) in
      (
        (λ same. (idle, rest.0 (tail-eq_of_cons-eq same))),
        (λ (_, alone).
            ap (λ buf. (buf ++ m) ∷ frames_of es (write_step (sends m) s)) empty
            ∙ ap (◌∷◌ m) (rest.1 alone)),
      )
  frames_of_iff (sends m ∷ es) s h (one w some_text waits holds) = (
    (λ same. absurd (longer w m some_text (rw holds at (head-eq_of_cons-eq same)))),
    (λ (idle, _). absurd (cc (sym waits ∙ idle))),
  )
    where
      longer : (w m : Text) → ¬ (w ≡ []) → ¬ (w ++ m ≡ m)
      longer [] m some_text same = some_text refl
      longer (x ∷ w) m some_text same = omega (arith, ap length same, length-append (x ∷ w) m)

  -- Messages that are not empty are sent on a session that has nothing in flight and nothing left in its
  -- buffer, and writes complete in between, in any order: the client is sent the messages as they are
  -- and nothing else exactly if no message is sent while a write is in flight.
  pub write_all-frames_iff :
      (es : List WriteEvent) (s : WsSession Request)
      → IsQuiet s
      → All (λ m. ¬ (m ≡ [])) (messages es)
      → ((write_all es s).frames ≡ s.frames ++ messages es) ↔ SendsAlone es s
  write_all-frames_iff es s q some_texts =
      let iff = frames_of_iff es s some_texts (quiet q.idle q.empty) in
      (
        (λ same. iff.0 (
            append_cancel_left s.frames (frames_of es s) (messages es)
              (sym (write_all-frames es s) ∙ same))),
        (λ alone. write_all-frames es s ∙ ap (◌++◌ s.frames) (iff.1 alone)),
      )
