-- ===== src/Visit/Apart.antt =====
-- What libs/visit/visitable.hpp does to an instance, against the members that its properties name.
use the_game.Base.{◌≡◌, refl, sym, ◌∙◌, none, some, Option-cases, inl, inr, arith}
use the_game.Visit.{Members, Visitor, Outcome, accept}
use the_game.Visit.Properties.{
  Property, Visitable, no_properties, with_value, with_nested, accept_instance, members,
}

-- What is written is read back.
abbrev pub IsMember : {C M : Type 0} → Property C M → Type 0
IsMember {C} {M} p = (m : M) (c : C) → p.get (p.set m c) ≡ m

module _ {T : Type 0} where
  -- Writing the member does not change what the other properties read.
  abbrev pub IsAside : {C M : Type 0} → Property C M → Visitable T C → Type 0
  IsAside p no_properties = Unit
  IsAside {C} {M} p (with_value q ps) =
      ((m : M) (c : C) → q.get (p.set m c) ≡ q.get c) × IsAside p ps
  IsAside {C} {M} p (with_nested q inner ps) =
      ((m : M) (c : C) → q.get (p.set m c) ≡ q.get c) × IsAside p ps

  -- Writing the members of the properties does not change what this one reads.
  abbrev pub IsLeft : {C M : Type 0} → Property C M → Visitable T C → Type 0
  IsLeft p no_properties = Unit
  IsLeft {C} p (with_value q ps) = ((x : T) (c : C) → p.get (q.set x c) ≡ p.get c) × IsLeft p ps
  IsLeft {C} p (with_nested {M = N} q inner ps) =
      ((n : N) (c : C) → p.get (q.set n c) ≡ p.get c) × IsLeft p ps

  -- The properties name different members, and so do those of the nested ones.
  abbrev pub AreApart : {C : Type 0} → Visitable T C → Type 0
  AreApart no_properties = Unit
  AreApart (with_value p ps) = IsMember p × IsAside p ps × IsLeft p ps × AreApart ps
  AreApart (with_nested p inner ps) =
      IsMember p × IsAside p ps × IsLeft p ps × AreApart inner × AreApart ps

  members-set :
      {C M : Type 0} (p : Property C M) (ps : Visitable T C) (m : M) (c : C)
      → IsAside p ps
      → members ps (p.set m c) ≡ members ps c
  members-set p no_properties m c h = refl
  members-set p (with_value q ps) m c (same, h) = rw (same m c, members-set p ps m c h) refl
  members-set p (with_nested q inner ps) m c (same, h) = rw (same m c, members-set p ps m c h) refl

module _ {T S : Type 0} (v : Visitor T S) where
  -- The members, the visitor and what was thrown are as for the members alone.
  record Agrees {C : Type 0} (ps : Visitable T C) (o : Outcome C S) (t : Outcome (Members T) S)
      : Type 0 where
    after : members ps o.instance_after ≡ t.instance_after
    state : o.state ≡ t.state
    thrown : o.thrown ≡ t.thrown

  get-accept_instance :
      {C M : Type 0} (p : Property C M) (ps : Visitable T C) (c : C) (s : S)
      → IsLeft p ps
      → p.get (accept_instance v ps c s).instance_after ≡ p.get c
  unfolding accept_instance
  get-accept_instance p no_properties c s h = refl
  get-accept_instance p (with_value q ps) c s (same, h) =
      let (x, s1) = v.visit q.name (q.get c) s in
      get-accept_instance p ps (q.set x c) s1 h ∙ same x c
  get-accept_instance p (with_nested q inner ps) c s (same, h) =
      elim (Option-cases v.visit_nested) [
        | inl lacks ↦ ground (arith, lacks)
        | inr (f, has) ↦
            let o = accept_instance v inner (q.get c) (f q.name s) in
            elim (Option-cases o.thrown) [
              | inr (what, threw) ↦ ground (arith, has, threw, same o.instance_after c)
              | inl fine ↦ elim (Option-cases v.exit_nested) [
                | inl lacks ↦ ground (arith, has, fine, lacks, same o.instance_after c)
                | inr (g, has_exit) ↦
                    let c' = q.set o.instance_after c in
                    let rest = get-accept_instance p ps c' (g q.name o.state) h in
                    ground (arith, has, fine, has_exit, rest, same o.instance_after c)
              ]
            ]
      ]

  accept_instance-Agrees :
      {C : Type 0} (ps : Visitable T C) (c : C) (s : S)
      → AreApart ps
      → Agrees ps (accept_instance v ps c s) (accept v (members ps c) s)
  unfolding accept_instance accept
  accept_instance-Agrees no_properties c s h = record { after = refl; state = refl; thrown = refl }
  accept_instance-Agrees (with_value p ps) c s (same, aside, is_left, h) =
      let (x, s1) = v.visit p.name (p.get c) s in
      let rest = accept_instance-Agrees ps (p.set x c) s1 h in
      let others = members-set p ps x c aside in
      record {
        after =
            ground (
              arith,
              get-accept_instance p ps (p.set x c) s1 is_left,
              same x c,
              rest.after,
              others,
            );
        state = rw others at rest.state;
        thrown = rw others at rest.thrown;
      }
  accept_instance-Agrees (with_nested p inner ps) c s (same, aside, is_left, h, h') =
      elim (Option-cases v.visit_nested) [
        | inl lacks ↦ record {
          after = ground (arith, lacks);
          state = ground (arith, lacks);
          thrown = ground (arith, lacks);
        }
        | inr (f, has) ↦
            let o = accept_instance v inner (p.get c) (f p.name s) in
            let t = accept v (members inner (p.get c)) (f p.name s) in
            let within_it = accept_instance-Agrees inner (p.get c) (f p.name s) h in
            let c' = p.set o.instance_after c in
            let read_back = same o.instance_after c in
            let others = members-set p ps o.instance_after c aside in
            elim (Option-cases o.thrown) [
              | inr (what, threw) ↦
                  let threw_too : t.thrown ≡ some what = sym within_it.thrown ∙ threw in
                  record {
                    after =
                        ground (arith, has, threw, threw_too, read_back, others, within_it.after);
                    state = ground (arith, has, threw, threw_too, within_it.state);
                    thrown = ground (arith, has, threw, threw_too);
                  }
              | inl fine ↦
                  let fine_too : t.thrown ≡ none = sym within_it.thrown ∙ fine in
                  elim (Option-cases v.exit_nested) [
                    | inl lacks ↦ record {
                      after =
                          ground
                            (arith, has, fine, fine_too, lacks, read_back, others, within_it.after);
                      state = ground (arith, has, fine, fine_too, lacks, within_it.state);
                      thrown = ground (arith, has, fine, fine_too, lacks);
                    }
                    | inr (g, has_exit) ↦
                        let rest = accept_instance-Agrees ps c' (g p.name o.state) h' in
                        let kept = get-accept_instance p ps c' (g p.name o.state) is_left in
                        record {
                          after = ground (
                            arith, has, fine, fine_too, has_exit, read_back, others,
                            within_it.after, within_it.state, rest.after, kept,
                          );
                          state = ground (
                            arith, has, fine, fine_too, has_exit, others, within_it.state,
                            rest.state,
                          );
                          thrown = ground (
                            arith, has, fine, fine_too, has_exit, others, within_it.state,
                            rest.thrown,
                          );
                        }
                  ]
            ]
      ]

  -- `accept` of a `Visitable` whose properties name different members of the instance, as those of
  -- the nested ones do: the members that the properties name, the visitor and what was thrown are
  -- afterwards what the visit of these members alone, one after the other, makes of them; and
  -- whatever is read from the instance and lies apart from these members is as it was.
  pub accept_instance_lem :
      {C : Type 0} (ps : Visitable T C) (c : C) (s : S)
      → AreApart ps
      → let o = accept_instance v ps c s in
        let t = accept v (members ps c) s in
        (members ps o.instance_after ≡ t.instance_after)
        × (o.state ≡ t.state)
        × (o.thrown ≡ t.thrown)
        × ((M : Type 0) (p : Property C M) → IsLeft p ps → p.get o.instance_after ≡ p.get c)
  accept_instance_lem ps c s h =
      let same = accept_instance-Agrees ps c s h in
      (same.after, same.state, same.thrown, λ M p left. get-accept_instance p ps c s left)
