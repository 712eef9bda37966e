-- ===== src/Apps/GameSession/Table.antt =====
-- A game that does everything at once, against which the strands of
-- apps/simple_server/game_session.hpp are held.
use the_game.Base.{ℕ, Bool, true, false, List, [], ◌∷◌, ◌++◌, Text, if◌then◌else◌}
use the_game.Apps.GameSession.{
  CommandTask, process, joined, left, GameSession, contains, erase_first, deliveries, Call,
  commanded, added, removed, announced, Event, called, player_runs, command_runs,
}

module _ (Command : Type 0) where
  -- The game without strands: the players, the messages they were sent, and what the game's logic
  -- was told.
  pub record Table : Type 0 where
    pub players : List ℕ
    pub sent : List (ℕ × Text)
    pub notices : List (Bool × ℕ)
    pub commands : List (Command × ℕ)

module _ {Command : Type 0} where
  -- Whether a player joined (`true`) or left.
  abbrev pub notices_of : List (CommandTask Command) → List (Bool × ℕ)
  notices_of [] = []
  notices_of (process c sender ∷ ts) = notices_of ts
  notices_of (joined p ∷ ts) = (true, p) ∷ notices_of ts
  notices_of (left p ∷ ts) = (false, p) ∷ notices_of ts

  abbrev pub commands_of : List (CommandTask Command) → List (Command × ℕ)
  commands_of [] = []
  commands_of (process c sender ∷ ts) = (c, sender) ∷ commands_of ts
  commands_of (joined p ∷ ts) = commands_of ts
  commands_of (left p ∷ ts) = commands_of ts

  abbrev pub empty_table : Table Command
  empty_table = record { players = []; sent = []; notices = []; commands = [] }

  -- A call takes effect.
  abbrev pub apply : Call Command → Table Command → Table Command
  apply (commanded c sender) t = record t { commands = t.commands ++ (c, sender) ∷ [] }
  apply (added p) t = record t {
    players = t.players ++ p ∷ [];
    notices = t.notices ++ (true, p) ∷ [];
  }
  apply (removed p) t =
      if contains p t.players
      then record t { players = erase_first p t.players; notices = t.notices ++ (false, p) ∷ [] }
      else t
  apply (announced message except) t = record t {
    sent = t.sent ++ deliveries message except t.players;
  }

  abbrev pub apply_all : List (Call Command) → Table Command → Table Command
  apply_all [] t = t
  apply_all (c ∷ cs) t = apply_all cs (apply c t)

  abbrev pub calls_of : List (Event Command) → List (Call Command)
  calls_of [] = []
  calls_of (called c ∷ es) = c ∷ calls_of es
  calls_of (player_runs ∷ es) = calls_of es
  calls_of (command_runs ∷ es) = calls_of es

  -- What has taken effect, with what the game's logic is still to be told.
  abbrev pub table_of : GameSession Command → Table Command
  table_of g = record {
    players = g.players;
    sent = g.sent;
    notices = notices_of (g.told ++ g.command_strand);
    commands = commands_of (g.told ++ g.command_strand);
  }
