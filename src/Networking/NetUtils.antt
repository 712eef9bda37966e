-- ===== src/Networking/NetUtils.antt =====
-- networking/net_utils.hpp: `Fail` and `InitializeAcceptor`. The text that goes to the error stream
-- is a result; the acceptor is Boost's, with the four calls that are made on it.
use the_game.Base.{
  ◌≡◌, refl, Bool, true, false, Option, none, some, List, [], ◌∷◌, ◌++◌, Text, codes,
}
use the_game.Networking.Boost.{Boost}

module _ (b : Boost) where
  unfoldable pub fail : Option b.Error → Text → Text
  fail ec what =
      what ++ (codes ": " ++ (b.message ec ++ (codes " ec: " ++ (b.printed ec ++ (10 ∷ [])))))

-- `acceptor::open`, `set_option`, `bind` and `listen`: the error, if any, and the acceptor.
pub record Acceptors (b : Boost) (E : Type 0) : Type 1 where
  pub Acceptor : Type 0
  pub open_for : E → Acceptor → Option b.Error × Acceptor
  pub reuse_address : Acceptor → Option b.Error × Acceptor
  pub bind : E → Acceptor → Option b.Error × Acceptor
  pub listen : Acceptor → Option b.Error × Acceptor
  pub close : Acceptor → Acceptor

module _ (b : Boost) {E : Type 0} (ac : Acceptors b E) where
  open ac use {Acceptor, open_for, reuse_address, bind, listen}

  -- The function's result, the last value of `ec`, the acceptor and what was logged.
  pub record Initialized : Type 0 where
    pub done : Bool
    pub ec : Option b.Error
    pub acceptor : Acceptor
    pub logged : List Text

  -- One call and the test of `ec` behind it.
  unfoldable pub stage : Text → (Option b.Error × Acceptor) → (Acceptor → Initialized) → Initialized
  stage what (some e, a) next = record {
    done = false;
    ec = some e;
    acceptor = a;
    logged = fail b (some e) what ∷ [];
  }
  stage what (none, a) next = next a

  unfoldable pub initialize_acceptor : E → Acceptor → Initialized
  unfolding stage
  initialize_acceptor endpoint a0 = stage (codes "open") (open_for endpoint a0) λ a1.
      stage (codes "set_option") (reuse_address a1) λ a2.
        stage (codes "bind") (bind endpoint a2) λ a3.
          stage (codes "listen") (listen a3)
            λ a4. record { done = true; ec = none; acceptor = a4; logged = [] }

  abbrev Call : Type 0
  Call = Text × (Acceptor → Option b.Error × Acceptor)

  -- Calls made one after the other, each on the acceptor that the one before it leaves, up to the
  -- first that fails: that one is named in the log, and no later one is made.
  pub data Runs : List Call → Acceptor → Initialized → Type 0 where
    finished :
        (a : Acceptor) → Runs [] a (record { done = true; ec = none; acceptor = a; logged = [] })
    failed :
        {a a' : Acceptor} {e : b.Error} {what : Text} {op : Acceptor → Option b.Error × Acceptor}
        {rest : List Call}
        → op a ≡ (some e, a')
        → Runs ((what, op) ∷ rest) a (record {
          done = false;
          ec = some e;
          acceptor = a';
          logged = fail b (some e) what ∷ [];
        })
    succeeded :
        {a a' : Acceptor} {what : Text} {op : Acceptor → Option b.Error × Acceptor}
        {rest : List Call} {r : Initialized}
        → op a ≡ (none, a')
        → Runs rest a' r
        → Runs ((what, op) ∷ rest) a r

  stage-Runs :
      (what : Text) (op : Acceptor → Option b.Error × Acceptor) (a : Acceptor) (rest : List Call)
      (next : Acceptor → Initialized)
      → ((a' : Acceptor) → Runs rest a' (next a'))
      → Runs ((what, op) ∷ rest) a (stage what (op a) next)
  unfolding stage
  stage-Runs what op a rest next h = by_result (op a) refl
    where
      by_result :
          (r : Option b.Error × Acceptor)
          → op a ≡ r
          → Runs ((what, op) ∷ rest) a (stage what r next)
      by_result (some e, a') p = failed p
      by_result (none, a') p = succeeded p (h a')

  abbrev pub acceptor_calls : E → List Call
  acceptor_calls endpoint =
      (codes "open", open_for endpoint)
      ∷ (codes "set_option", reuse_address)
      ∷ (codes "bind", bind endpoint)
      ∷ (codes "listen", listen)
      ∷ []

  -- `InitializeAcceptor` opens the acceptor, allows the reuse of its address, binds it and listens,
  -- in this order; it stops at the first failure, which it names in the log and leaves in `ec`, and
  -- returns true, with `ec` clear, exactly when none of the four calls fails.
  pub initialize_acceptor-Runs :
      (endpoint : E) (a : Acceptor)
      → Runs (acceptor_calls endpoint) a (initialize_acceptor endpoint a)
  unfolding initialize_acceptor
  initialize_acceptor-Runs endpoint a = stage-Runs (codes "open") (open_for endpoint) a _ _ λ a1.
      stage-Runs (codes "set_option") reuse_address a1 _ _ λ a2.
        stage-Runs (codes "bind") (bind endpoint) a2 _ _
          λ a3. stage-Runs (codes "listen") listen a3 _ _ finished
