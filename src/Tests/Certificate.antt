-- ===== src/Tests/Certificate.antt =====
-- The chain of engine/cert/manifest.ts for a goal whose first step was taken back.
use alive_next.Prelude.{String, false, none, some, List, [], ◌∷◌, refl}
use alive_next.Trajectory.{Side, src, tgt, Effect, step, revert, check, alive2}
use alive_next.Goals.Types.{Goal, Status}
use alive_next.Certificate.{
  Step, checked, Held, made_by, make_all, make, back_to, first, chain_of, chain_from, take_step,
  made_at, step_of, step_as,
}
use alive_next.Certificate.Chain.{IsChain, chain_of-IsChain}

abbrev to : String → Side → Effect
to h side = step (record {
  gid = "g1";
  side = side;
  to = h;
  how = check;
  by = none;
  rules = none;
  invocation = none;
  window = none;
})

abbrev effects : List Effect
effects = to "h2" src ∷ revert "g1" src "hs" ∷ to "h3" tgt ∷ to "h2" src ∷ []

abbrev goal : Goal
goal = record {
  id = "g1";
  parent = none;
  role = none;
  made = record { callee = none; detach = none; slots = none; src_alone = false };
  src = record { history = "hs" ∷ "h2" ∷ [] };
  tgt = record { history = "ht" ∷ "h3" ∷ [] };
  status = Status.proved;
  children = [];
}

abbrev held : Held
held = record {
  on_src = record { hash = "hs"; by = none } ∷ record { hash = "h2"; by = some 3 } ∷ [];
  on_tgt = record { hash = "ht"; by = none } ∷ record { hash = "h3"; by = some 2 } ∷ [];
}

abbrev steps : List Step
steps = checked tgt (some "ht") "h3" alive2 ∷ checked src (some "hs") "h2" alive2 ∷ []

chain_of-IsChain_example : IsChain (some "hs", some "ht") steps (some "h2", some "h3")
unfolding made_by make_all make back_to first chain_of chain_from take_step made_at step_of step_as
chain_of-IsChain_example = chain_of-IsChain goal effects held steps refl refl refl refl
