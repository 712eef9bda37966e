-- ===== src/Apps/SimpleGame/AnyOrder.antt =====
-- The order in which apps/simple_game/beast.cpp walks its unordered map of contexts, and what the
-- clients hear of it.
use mathlib.Core.List.{Permᴰ}
use mathlib.Core.List.Permᴰ
use the_game.Base.{
  Option-cases, inl, inr, ℕ, ◌≡◌, refl, sym, subst, ◌∙◌, ap, ◌∷◌, ◌++◌, Option, none, some, Text,
  Dict, find, nat_eq, list_eq, list_beq_iff, ok, arith, IsKeyed,
}
use the_game.Networking.Boost.{Boost}
use the_game.Networking.Http.Query.{Params}
use the_game.Apps.Ports.{ℤ}
use the_game.Apps.Connections.{Server, Timer, set_ctxs}
use the_game.Apps.Connections.Upkeep.{IsSound-same, IsLive-same}
use the_game.Apps.SimpleGame.{delay_of, set_state, set_game_state}
use the_game.Apps.SimpleGame.Ready.{IsReady}
use the_game.Apps.SimpleGame.Listed.{is_listed}
use the_game.Apps.SimpleGame.Reaching.{timers_for}
use the_game.Apps.SimpleGame.Delivery.{Delivers, set_state_result}

-- Under one entry for each key, a map with the entries of another finds what it does.
abbrev Finds : Dict Text ℕ → Dict Text ℕ → Type 0
Finds m m' = IsKeyed m' × ((k : Text) → find k m' ≡ find k m)

Finds-swapped :
    (a b : Text × ℕ) (m : Dict Text ℕ) → IsKeyed (a ∷ b ∷ m) → Finds (a ∷ b ∷ m) (b ∷ a ∷ m)
unfolding find
Finds-swapped a b m (absent, (absent2, h)) = (
  (ground (arith, absent, list_beq_iff a.0 b.0, list_beq_iff b.0 a.0), (ground (arith, absent), h)),
  λ k. ground (arith, absent, list_beq_iff a.0 k, list_beq_iff b.0 k, list_beq_iff b.0 a.0),
)

-- The same entries in another order.
IsKeyed-permuted : {m m' : Dict Text ℕ} → Permᴰ m m' → IsKeyed m → Finds m m'
unfolding find
IsKeyed-permuted Permᴰ.nil h = (tt, λ k. refl)
IsKeyed-permuted (Permᴰ.cons e d) (absent, h) =
    let (keyed, same) = IsKeyed-permuted d h in
    ((rw (← e) (same _ ∙ absent), keyed), λ k. rw (← e, same k) refl)
IsKeyed-permuted (Permᴰ.swap {a} {b} {b' = b'} {l = m} e f) h =
    subst (λ (x : Text × ℕ). Finds (a ∷ b ∷ m) (x ∷ b' ∷ m)) f
      (subst (λ (y : Text × ℕ). Finds (a ∷ b ∷ m) (b ∷ y ∷ m)) e (Finds-swapped a b m h))
IsKeyed-permuted (Permᴰ.trans d d') h =
    let (keyed, same) = IsKeyed-permuted d h in
    let (keyed', same') = IsKeyed-permuted d' keyed in (keyed', λ k. same' k ∙ same k)

is_listed-permuted : {m m' : Dict Text ℕ} (id : ℕ) → Permᴰ m m' → is_listed id m' ≡ is_listed id m
is_listed-permuted id Permᴰ.nil = refl
is_listed-permuted id (Permᴰ.cons e d) = rw (← e, is_listed-permuted id d) refl
is_listed-permuted id (Permᴰ.swap {a} {b} {l = m} e f) = rw (← e, ← f) (ground arith)
is_listed-permuted id (Permᴰ.trans d d') = is_listed-permuted id d' ∙ is_listed-permuted id d

entry_timer : ℤ → Text × ℕ → Timer
entry_timer secs e = record { session = e.1; seconds = secs }

timers_for-permuted :
    {m m' : Dict Text ℕ} (delay : Option ℤ)
    → Permᴰ m m'
    → Permᴰ (timers_for delay m) (timers_for delay m')
unfolding entry_timer
timers_for-permuted none d = Permᴰ.nil
timers_for-permuted (some secs) Permᴰ.nil = Permᴰ.nil
timers_for-permuted (some secs) (Permᴰ.cons e d) =
    Permᴰ.cons (ap (entry_timer secs) e) (timers_for-permuted (some secs) d)
timers_for-permuted (some secs) (Permᴰ.swap e f) =
    Permᴰ.swap (ap (entry_timer secs) e) (ap (entry_timer secs) f)
timers_for-permuted (some secs) (Permᴰ.trans d d') =
    Permᴰ.trans (timers_for-permuted (some secs) d) (timers_for-permuted (some secs) d')

module _ (b : Boost) where
  set_ctxs-IsReady :
      (m : Dict Text ℕ) (st : Server b)
      → Permᴰ st.app.ctxs m
      → IsReady b st
      → IsReady b (set_ctxs b m st)
  unfolding set_ctxs
  set_ctxs-IsReady m st d r =
      let (keyed, same) = IsKeyed-permuted d r.keyed in
      record {
        consistent = record {
          live = λ uuid id h. IsLive-same b refl (r.consistent.live uuid id (sym (same uuid) ∙ h));
          sound = IsSound-same b refl refl r.consistent.sound;
        };
        keyed = keyed;
        timed = r.timed;
      }

  -- What an address leads to, from what it led to before.
  told-same :
      {delay : Option ℤ} {m m' : Dict Text ℕ} {st st1 st' st2 : Server b}
      → Delivers b delay m st st1
      → Delivers b delay m' st' st2
      → Permᴰ m m'
      → st'.sessions ≡ st.sessions
      → st'.app.state ≡ st.app.state
      → (id : ℕ) → find id st2.sessions ≡ find id st1.sessions
  told-same {st = st} d1 d2 p same state id = elim (Option-cases (find id st.sessions)) [
    | inl absent ↦ d2.gone id (rw same absent) ∙ sym (d1.gone id absent)
    | inr (s, alive) ↦
        d2.sessions id s (rw same alive)
        ∙ rw (is_listed-permuted id p, state) refl
        ∙ sym (d1.sessions id s alive)
  ]

  -- The game is ready, and the state is set, once with the map of contexts as it is and once with
  -- the same entries in another order, in which the loop over the map then walks. Both times `set_state` returns,
  -- with the same answer and the same state, with every address leading to a session in the same condition
  -- or to none, and with the same timers, if in another order.
  pub set_state-permuted :
      (req : b.Request) (params : Option Params) (res : b.Response) (st : Server b)
      (m : Dict Text ℕ)
      → IsReady b st
      → Permᴰ st.app.ctxs m
      → (res' : b.Response) × (st1 : Server b) × (st2 : Server b) × (set_state b req params res st
          ≡ ok (res', st1))
        × (set_state b req params res (set_ctxs b m st) ≡ ok (res', st2))
        × (st2.app.state ≡ st1.app.state)
        × ((id : ℕ) → find id st2.sessions ≡ find id st1.sessions)
        × Permᴰ st1.app.timers st2.app.timers
  unfolding set_ctxs set_game_state
  set_state-permuted req params res st m r p =
      let (st1, ran1, d1) = set_state_result b req params res st r in
      let (st2, ran2, d2) =
        set_state_result b req params res (set_ctxs b m st) (set_ctxs-IsReady m st p r) in
      (
        _,
        st1,
        st2,
        ran1,
        ran2,
        d2.state ∙ sym d1.state,
        told-same d1 d2 p refl refl,
        subst (λ ts. Permᴰ ts st2.app.timers) (sym d1.timers)
            (subst (Permᴰ (st.app.timers ++ timers_for (delay_of params) st.app.ctxs))
              (sym d2.timers)
              (Permᴰ.append_left st.app.timers (timers_for-permuted (delay_of params) p))),
      )
