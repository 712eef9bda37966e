-- ===== src/Apps/GameSession.antt =====
-- `GameSession` of apps/simple_server/game_session.hpp: a strand for the list of players and one for
-- the game's logic. A strand is the list of what was posted on it and has not run, oldest first; the
-- two run independently. A player's controller is its address, and none that is added is null; `PlayerControllerPtr{nullptr}` as
-- the exception of a broadcast is `none`. The virtual functions do nothing here: what they are called with is
-- kept in `told`, and what `SendMessage` is called with in `sent`.
pub mod Table
pub mod Strands
pub mod Draining
use the_game.Base.{
  ℕ, Bool, true, false, List, [], ◌∷◌, ◌++◌, Option, none, some, Text, nat_beq, if◌then◌else◌,
}

module _ (Command : Type 0) where
  -- What is posted on `command_strand_`.
  pub data CommandTask : Type 0 where
    process : Command → ℕ → CommandTask
    joined left : ℕ → CommandTask

  -- What is posted on `player_strand_`.
  pub data PlayerTask : Type 0 where
    adding removing : ℕ → PlayerTask
    broadcasting : Text → Option ℕ → PlayerTask

  pub record GameSession : Type 0 where
    pub command_strand : List CommandTask
    pub player_strand : List PlayerTask
    pub players : List ℕ
    pub told : List CommandTask
    pub sent : List (ℕ × Text)

  -- A call of a member function.
  pub data Call : Type 0 where
    commanded : Command → ℕ → Call
    added removed : ℕ → Call
    announced : Text → Option ℕ → Call

  -- What happens: a call, from any thread, or one of the strands runs a task.
  pub data Event : Type 0 where
    called : Call → Event
    player_runs command_runs : Event

abbrev pub contains : ℕ → List ℕ → Bool
contains p [] = false
contains p (q ∷ qs) = if nat_beq q p then true else contains p qs

-- `erase` at what `find` found.
abbrev pub erase_first : ℕ → List ℕ → List ℕ
erase_first p [] = []
erase_first p (q ∷ qs) = if nat_beq q p then qs else q ∷ erase_first p qs

abbrev pub is_excepted : Option ℕ → ℕ → Bool
is_excepted none p = false
is_excepted (some q) p = nat_beq q p

-- The loop of `BroadcastMessage`.
unfoldable pub deliveries : Text → Option ℕ → List ℕ → List (ℕ × Text)
deliveries message except [] = []
deliveries message except (p ∷ ps) =
    if is_excepted except p
    then deliveries message except ps
    else (p, message) ∷ deliveries message except ps

module _ {Command : Type 0} where
  abbrev pub new_game : GameSession Command
  new_game = record { command_strand = []; player_strand = []; players = []; told = []; sent = [] }

  unfoldable pub post_command : CommandTask Command → GameSession Command → GameSession Command
  post_command t g = record g { command_strand = g.command_strand ++ t ∷ [] }

  unfoldable pub post_player : PlayerTask Command → GameSession Command → GameSession Command
  post_player t g = record g { player_strand = g.player_strand ++ t ∷ [] }

  unfoldable pub on_command : Command → ℕ → GameSession Command → GameSession Command
  unfolding post_command
  on_command command sender g = post_command (process command sender) g

  unfoldable pub add_player : ℕ → GameSession Command → GameSession Command
  unfolding post_player
  add_player player g = post_player (adding player) g

  unfoldable pub remove_player : ℕ → GameSession Command → GameSession Command
  unfolding post_player
  remove_player player g = post_player (removing player) g

  unfoldable pub broadcast_message : Text → Option ℕ → GameSession Command → GameSession Command
  unfolding post_player
  broadcast_message message except g = post_player (broadcasting message except) g

  -- What a task of the player strand does.
  unfoldable pub do_player : PlayerTask Command → GameSession Command → GameSession Command
  unfolding post_command deliveries
  do_player (adding player) g =
      post_command (joined player) (record g { players = g.players ++ player ∷ [] })
  do_player (removing player) g =
      if contains player g.players
      then record (post_command (left player) g) { players = erase_first player g.players }
      else g
  do_player (broadcasting message except) g = record g {
    sent = g.sent ++ deliveries message except g.players;
  }

  -- A strand runs its oldest task, if it has one.
  unfoldable pub run_player : GameSession Command → GameSession Command
  unfolding do_player
  run_player g = elim g.player_strand [
    | [] ↦ g
    | t ∷ ts ↦ do_player t (record g { player_strand = ts })
  ]

  unfoldable pub run_command : GameSession Command → GameSession Command
  run_command g = elim g.command_strand [
    | [] ↦ g
    | t ∷ ts ↦ record g { command_strand = ts; told = g.told ++ t ∷ [] }
  ]

  unfoldable pub call : Call Command → GameSession Command → GameSession Command
  unfolding on_command add_player remove_player broadcast_message
  call (commanded command sender) g = on_command command sender g
  call (added player) g = add_player player g
  call (removed player) g = remove_player player g
  call (announced message except) g = broadcast_message message except g

  unfoldable pub step : Event Command → GameSession Command → GameSession Command
  unfolding call run_player run_command
  step (called c) g = call c g
  step player_runs g = run_player g
  step command_runs g = run_command g

  abbrev pub run_all : List (Event Command) → GameSession Command → GameSession Command
  run_all [] g = g
  run_all (e ∷ es) g = run_all es (step e g)
