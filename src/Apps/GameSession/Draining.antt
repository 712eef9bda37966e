-- ===== src/Apps/GameSession/Draining.antt =====
-- That the strands of apps/simple_server/game_session.hpp come to rest.
use the_game.Base.{◌≡◌, refl, ◌∙◌, ap, List, [], ◌∷◌, arith}
use the_game.Apps.GameSession.{
  CommandTask, PlayerTask, GameSession, do_player, run_player, run_command, Event, player_runs,
  command_runs, step, run_all,
}
use the_game.Apps.GameSession.Strands.{player_strand-do_player}
use the_game.Apps.GameSession.Table.{calls_of}

module _ {Command : Type 0} where
  -- Runs of the strands, without a call, that leave both empty.
  abbrev pub Drains : GameSession Command → Type 0
  Drains g =
      (es : List (Event Command)) × (calls_of es ≡ [])
      × ((run_all es g).player_strand ≡ [])
      × ((run_all es g).command_strand ≡ [])

  drain_commands :
      (ks : List (CommandTask Command)) (g : GameSession Command)
      → g.command_strand ≡ ks
      → g.player_strand ≡ []
      → Drains g
  unfolding step run_command
  drain_commands [] g no_command no_player = ([], refl, no_player, no_command)
  drain_commands (k ∷ ks) g busy idle =
      let (es, quiet, no_player, no_command) =
        drain_commands ks (run_command g) (ground (arith, busy)) (ground (arith, busy, idle)) in
      (command_runs ∷ es, quiet, no_player, no_command)

  drain_players :
      (ks : List (PlayerTask Command)) (g : GameSession Command) → g.player_strand ≡ ks → Drains g
  unfolding step run_player
  drain_players [] g idle = drain_commands g.command_strand g refl idle
  drain_players (k ∷ ks) g busy =
      let rest = record g { player_strand = ks } in
      let ran : run_player g ≡ do_player k rest = ground (arith, busy) in
      let (es, quiet, no_player, no_command) =
        drain_players ks (run_player g) (
          ap (λ (x : GameSession Command). x.player_strand) ran ∙ player_strand-do_player k rest) in
      (player_runs ∷ es, quiet, no_player, no_command)

  -- From any state of the session, running the strands finitely often, without further calls, leaves
  -- nothing to run on either.
  pub drain_lem : (g : GameSession Command) → Drains g
  drain_lem g = drain_players g.player_strand g refl
