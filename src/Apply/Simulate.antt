-- ===== src/Apply/Simulate.antt =====
-- What a simulated run does.
use mathlib.Core.Bool.{true≢false}
use renameutils.Common.{
  ℕ, Bool, true, false, not, ◌||◌, List, [], ◌∷◌, ◌≡◌, refl, ◌∙◌, Bool-cases, inl, inr, Bytes, ap,
  sym,
}
use renameutils.Apply.{
  System, is_planned, is_some, Applying, attempt, finish, apply_each, apply_plan,
}

module _ {World : Type 0} (system : System World) (command : Bytes) where
  apply_each_simulated :
      (is : List ℕ) (s : Applying World)
      → ((apply_each system command true is s).1.world ≡ s.world)
        × ((apply_each system command true is s).1.fail ≡ s.fail)
  unfolding apply_each attempt finish
  apply_each_simulated [] s = (refl, refl)
  apply_each_simulated (i ∷ is) s =
      elim (Bool-cases (not (is_planned (s.specs i).status) || is_some (s.specs i).prev_spec)) [
        | inl skipped ↦ rw (apply_each, skipped) (apply_each_simulated is s)
        | inr due ↦ rw (apply_each, due) (apply_each_simulated is (finish system command true s i))
      ]

-- A simulated run runs no command, so the world stays as it is, whatever the plan and the commands;
-- and it succeeds where the changes of directory do and nothing had failed before.
pub apply_plan-simulate :
    {World : Type 0} (system : System World) (command : Bytes) (enters leaves : Bool) (is : List ℕ)
    (s : Applying World)
    → s.fail ≡ false
    → ((apply_plan system command true enters leaves is s).2.world ≡ s.world)
      × (enters ≡ true
          → leaves ≡ true
          → (apply_plan system command true enters leaves is s).0 ≡ true)
unfolding apply_plan
apply_plan-simulate system command enters leaves [] s ok = (refl, λ a b. refl)
apply_plan-simulate system command true true (i ∷ is) s ok =
    let r = apply_each_simulated system command (i ∷ is) s in (r.0, λ a b. ap not (r.1 ∙ ok))
apply_plan-simulate system command true false (i ∷ is) s ok =
    ((apply_each_simulated system command (i ∷ is) s).0, λ a b. absurd (true≢false (sym b)))
apply_plan-simulate system command false leaves (i ∷ is) s ok =
    (refl, λ a b. absurd (true≢false (sym a)))
