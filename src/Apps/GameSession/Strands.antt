-- ===== src/Apps/GameSession/Strands.antt =====
-- The two strands of apps/simple_server/game_session.hpp against a game that does everything at once.
use the_game.Base.{
  ℕ, ◌≡◌, refl, sym, ap, ◌∙◌, List, [], ◌∷◌, ◌++◌, append-nil, append_assoc, arith, Bool-cases, inl,
  inr, ◌⊎◌,
}
use the_game.Apps.GameSession.{
  CommandTask, process, joined, left, PlayerTask, adding, removing, broadcasting, GameSession,
  contains, erase_first, post_command, post_player, do_player, run_player, run_command, Call,
  commanded, added, removed, announced, call, Event, called, player_runs, command_runs, on_command,
  add_player, remove_player, broadcast_message, step, run_all, new_game,
}
use the_game.Apps.GameSession.Table.{
  Table, notices_of, commands_of, empty_table, apply, apply_all, calls_of, table_of,
}

pub strand-cases {ℓ} :
    {A : Type ℓ} (xs : List A) → (xs ≡ []) ⊎ ((x : A) × (ys : List A) × (xs ≡ x ∷ ys))
strand-cases [] = inl refl
strand-cases (x ∷ xs) = inr (x, xs, refl)

module _ {Command : Type 0} where
  abbrev call_of : PlayerTask Command → Call Command
  call_of (adding p) = added p
  call_of (removing p) = removed p
  call_of (broadcasting message except) = announced message except

  abbrev apply_tasks : List (PlayerTask Command) → Table Command → Table Command
  apply_tasks [] t = t
  apply_tasks (k ∷ ks) t = apply_tasks ks (apply (call_of k) t)

  -- What will have taken effect when both strands have run.
  abbrev outcome : GameSession Command → Table Command
  outcome g = apply_tasks g.player_strand (table_of g)

  notices-append :
      (ts us : List (CommandTask Command)) → notices_of (ts ++ us) ≡ notices_of ts ++ notices_of us
  notices-append [] us = refl
  notices-append (process c sender ∷ ts) us = notices-append ts us
  notices-append (joined p ∷ ts) us = rw (notices-append ts us) refl
  notices-append (left p ∷ ts) us = rw (notices-append ts us) refl

  commands-append :
      (ts us : List (CommandTask Command))
      → commands_of (ts ++ us) ≡ commands_of ts ++ commands_of us
  commands-append [] us = refl
  commands-append (process c sender ∷ ts) us = rw (commands-append ts us) refl
  commands-append (joined p ∷ ts) us = commands-append ts us
  commands-append (left p ∷ ts) us = commands-append ts us

  apply_tasks-snoc :
      (ks : List (PlayerTask Command)) (k : PlayerTask Command) (t : Table Command)
      → apply_tasks (ks ++ k ∷ []) t ≡ apply (call_of k) (apply_tasks ks t)
  apply_tasks-snoc [] k t = refl
  apply_tasks-snoc (j ∷ ks) k t = apply_tasks-snoc ks k (apply (call_of j) t)

  apply-commanded :
      (k : PlayerTask Command) (c : Command) (sender : ℕ) (t : Table Command)
      → apply (call_of k) (apply (commanded c sender) t)
        ≡ apply (commanded c sender) (apply (call_of k) t)
  apply-commanded (adding p) c sender t = refl
  apply-commanded (removing p) c sender t = ground arith
  apply-commanded (broadcasting message except) c sender t = refl

  apply_tasks-commanded :
      (ks : List (PlayerTask Command)) (c : Command) (sender : ℕ) (t : Table Command)
      → apply_tasks ks (apply (commanded c sender) t)
        ≡ apply (commanded c sender) (apply_tasks ks t)
  apply_tasks-commanded [] c sender t = refl
  apply_tasks-commanded (k ∷ ks) c sender t =
      ap (apply_tasks ks) (apply-commanded k c sender t)
      ∙ apply_tasks-commanded ks c sender (apply (call_of k) t)

  notices-later :
      (ts us vs : List (CommandTask Command))
      → notices_of (ts ++ (us ++ vs)) ≡ notices_of (ts ++ us) ++ notices_of vs
  notices-later ts us vs =
      ap notices_of (sym (append_assoc ts us vs)) ∙ notices-append (ts ++ us) vs

  commands-later :
      (ts us vs : List (CommandTask Command))
      → commands_of (ts ++ (us ++ vs)) ≡ commands_of (ts ++ us) ++ commands_of vs
  commands-later ts us vs =
      ap commands_of (sym (append_assoc ts us vs)) ∙ commands-append (ts ++ us) vs

  -- A task of the command strand that is posted shows in the table at once.
  table_of-post :
      (k : CommandTask Command) (g : GameSession Command)
      → table_of (post_command k g) ≡ record (table_of g) {
        notices = (table_of g).notices ++ notices_of (k ∷ []);
        commands = (table_of g).commands ++ commands_of (k ∷ []);
      }
  unfolding post_command
  table_of-post k g =
      rw
        (
          notices-later g.told g.command_strand (k ∷ []),
          commands-later g.told g.command_strand (k ∷ []),
        )
        refl

  table_of-do_player :
      (k : PlayerTask Command) (g : GameSession Command)
      → table_of (do_player k g) ≡ apply (call_of k) (table_of g)
  unfolding do_player
  table_of-do_player (adding p) g =
      table_of-post (joined p) (record g { players = g.players ++ p ∷ [] }) ∙ rw append-nil refl
  table_of-do_player (removing p) g = elim (Bool-cases (contains p g.players)) [
    | inl here ↦ rw here (
        ap (λ (t : Table Command). record t { players = erase_first p g.players })
          (table_of-post (left p) g)
        ∙ rw append-nil refl)
    | inr absent ↦ rw absent refl
  ]
  table_of-do_player (broadcasting message except) g = refl

  outcome-call :
      (c : Call Command) (g : GameSession Command) → outcome (call c g) ≡ apply c (outcome g)
  unfolding call on_command add_player remove_player broadcast_message post_player
  outcome-call (commanded c sender) g =
      ap (apply_tasks g.player_strand) (table_of-post (process c sender) g ∙ rw append-nil refl)
      ∙ apply_tasks-commanded g.player_strand c sender (table_of g)
  outcome-call (added p) g = apply_tasks-snoc g.player_strand (adding p) (table_of g)
  outcome-call (removed p) g = apply_tasks-snoc g.player_strand (removing p) (table_of g)
  outcome-call (announced message except) g =
      apply_tasks-snoc g.player_strand (broadcasting message except) (table_of g)

  pub player_strand-do_player :
      (k : PlayerTask Command) (g : GameSession Command)
      → (do_player k g).player_strand ≡ g.player_strand
  unfolding do_player post_command
  player_strand-do_player (adding p) g = refl
  player_strand-do_player (removing p) g = ground arith
  player_strand-do_player (broadcasting message except) g = refl

  outcome-run_player : (g : GameSession Command) → outcome (run_player g) ≡ outcome g
  unfolding run_player
  outcome-run_player g = elim (strand-cases g.player_strand) [
    | inl idle ↦ let same : run_player g ≡ g = ground (arith, idle) in rw same refl
    | inr (k, ks, busy) ↦
        let rest = record g { player_strand = ks } in
        let ran : run_player g ≡ do_player k rest = ground (arith, busy) in
        ap outcome ran ∙ rw (player_strand-do_player k rest, table_of-do_player k rest, busy) refl
  ]

  outcome-run_command : (g : GameSession Command) → outcome (run_command g) ≡ outcome g
  unfolding run_command
  outcome-run_command g = elim (strand-cases g.command_strand) [
    | inl idle ↦ let same : run_command g ≡ g = ground (arith, idle) in rw same refl
    | inr (k, ks, busy) ↦
        let ran : run_command g ≡ record g { command_strand = ks; told = g.told ++ k ∷ [] } =
          ground (arith, busy) in
        ap outcome ran ∙ rw (append_assoc g.told (k ∷ []) ks, busy) refl
  ]

  outcome-run_all :
      (es : List (Event Command)) (g : GameSession Command)
      → outcome (run_all es g) ≡ apply_all (calls_of es) (outcome g)
  unfolding step
  outcome-run_all [] g = refl
  outcome-run_all (called c ∷ es) g =
      outcome-run_all es (call c g) ∙ ap (apply_all (calls_of es)) (outcome-call c g)
  outcome-run_all (player_runs ∷ es) g =
      outcome-run_all es (run_player g) ∙ ap (apply_all (calls_of es)) (outcome-run_player g)
  outcome-run_all (command_runs ∷ es) g =
      outcome-run_all es (run_command g) ∙ ap (apply_all (calls_of es)) (outcome-run_command g)

  -- However the calls and the two strands interleave: when both strands have nothing left to run, the
  -- players, the messages each was sent, the joins and departures the game's logic was told and the commands
  -- it was told are those of a game in which every call takes effect at once, in the order of the
  -- calls.
  pub run_all_lem :
      (es : List (Event Command))
      → (run_all es new_game).player_strand ≡ []
      → (run_all es new_game).command_strand ≡ []
      → let g = run_all es new_game in
        let t = apply_all (calls_of es) empty_table in
        (g.players ≡ t.players)
        × (g.sent ≡ t.sent)
        × (notices_of g.told ≡ t.notices)
        × (commands_of g.told ≡ t.commands)
  run_all_lem es idle_player idle_command =
      let g = run_all es new_game in
      let reached : outcome g ≡ apply_all (calls_of es) empty_table = outcome-run_all es new_game in
      let settled : table_of g ≡ apply_all (calls_of es) empty_table = rw idle_player at reached in
      let told : g.told ++ g.command_strand ≡ g.told = rw idle_command (append-nil g.told) in
      (
        ap (λ (t : Table Command). t.players) settled,
        ap (λ (t : Table Command). t.sent) settled,
        rw told at (ap (λ (t : Table Command). t.notices) settled),
        rw told at (ap (λ (t : Table Command). t.commands) settled),
      )
