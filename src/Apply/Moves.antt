-- ===== src/Apply/Moves.antt =====
-- A safe plan is done to its end.
use renameutils.Common.{
  ℕ, true, false, not, List, [], ◌∷◌, Option, none, some, ◌≡◌, refl, ap, ◌∙◌, arith, ==_iff, Bytes,
}
use renameutils.Plan.{FileSpec}
use renameutils.Plan.Files.{FileSet, moved, final, Safe}
use renameutils.Apply.{
  exited, System, is_planned, set_next, set_prev, free_file_spec, Applying, perform_command,
  attempt, finish, apply_each, apply_plan,
}

-- What `mv -- old new` does where `old` exists and `new` does not, for what exists in a world.
pub record MovesFiles {World : Type 0} (system : System World) (command : Bytes)
    (files : World → FileSet) : Type 0 where
  pub succeeds :
      (w : World) (old new : Bytes)
      → files w old ≡ true
      → files w new ≡ false
      → (system.run w command old new).0 ≡ exited 0
  pub renames :
      (w : World) (old new : Bytes)
      → files w old ≡ true
      → files w new ≡ false
      → files (system.run w command old new).1 ≡ moved (files w) old new

-- Every spec is planned, and waits for none by the time its turn comes.
unfoldable pub Unblocked : (ℕ → FileSpec) → List ℕ → Type 0
Unblocked specs [] = Unit
Unblocked specs (i ∷ is) =
    (is_planned (specs i).status ≡ true)
    × ((specs i).prev_spec ≡ none)
    × Unblocked (free_file_spec specs i) is

set_next-names :
    (specs : ℕ → FileSpec) (o next : Option ℕ) (j : ℕ)
    → ((set_next specs o next j).old_name ≡ (specs j).old_name)
      × ((set_next specs o next j).new_name ≡ (specs j).new_name)
set_next-names specs none next j = (refl, refl)
set_next-names specs (some i) next j = (ground (arith, ==_iff j i), ground (arith, ==_iff j i))

set_prev-names :
    (specs : ℕ → FileSpec) (o prev : Option ℕ) (j : ℕ)
    → ((set_prev specs o prev j).old_name ≡ (specs j).old_name)
      × ((set_prev specs o prev j).new_name ≡ (specs j).new_name)
set_prev-names specs none prev j = (refl, refl)
set_prev-names specs (some i) prev j = (ground (arith, ==_iff j i), ground (arith, ==_iff j i))

free-names :
    (specs : ℕ → FileSpec) (i j : ℕ)
    → ((free_file_spec specs i j).old_name ≡ (specs j).old_name)
      × ((free_file_spec specs i j).new_name ≡ (specs j).new_name)
unfolding free_file_spec
free-names specs i j =
    let specs' = set_next specs (specs i).prev_spec (specs i).next_spec in
    let first = set_next-names specs (specs i).prev_spec (specs i).next_spec j in
    let second = set_prev-names specs' (specs' i).next_spec (specs' i).prev_spec j in
    (second.0 ∙ first.0, second.1 ∙ first.1)

abbrev Named : (ℕ → Bytes) → (ℕ → Bytes) → (ℕ → FileSpec) → Type 0
Named old new specs = (j : ℕ) → ((specs j).old_name ≡ old j) × ((specs j).new_name ≡ new j)

module _ {World : Type 0} (system : System World) (command : Bytes) (files : World → FileSet)
    (m : MovesFiles system command files) where
  abbrev after_run : Applying World → ℕ → World
  after_run s i = (system.run s.world command (s.specs i).old_name (s.specs i).new_name).1

  abbrev after_step : Applying World → ℕ → Applying World
  after_step s i = finish system command false (record s { world = after_run s i }) i

  -- The loop at a spec that is planned, waits for none, and is done by its command.
  apply_step :
      (i : ℕ) (is : List ℕ) (s : Applying World)
      → is_planned (s.specs i).status ≡ true
      → (s.specs i).prev_spec ≡ none
      → (system.run s.world command (s.specs i).old_name (s.specs i).new_name).0 ≡ exited 0
      → apply_each system command false (i ∷ is) s
        ≡ apply_each system command false is (after_step s i)
  unfolding apply_each attempt perform_command
  apply_step i is s planned unblocked done =
      rw (apply_each, planned, unblocked, attempt, perform_command, done) refl

  apply_each-Safe :
      (old new : ℕ → Bytes) (is : List ℕ) (s : Applying World)
      → Named old new s.specs
      → Unblocked s.specs is
      → Safe old new (files s.world) is
      → ((apply_each system command false is s).0 ≡ [])
        × (files (apply_each system command false is s).1.world ≡ final old new (files s.world) is)
        × ((apply_each system command false is s).1.fail ≡ s.fail)
  unfolding apply_each finish Unblocked Safe final
  apply_each-Safe old new [] s named u safe = (refl, refl, refl)
  apply_each-Safe old new (i ∷ is) s named (planned, free, u) (there, gone, safe) =
      let there' : files s.world (s.specs i).old_name ≡ true = rw (named i).0 there in
      let gone' : files s.world (s.specs i).new_name ≡ false = rw (named i).1 gone in
      let done = m.succeeds s.world (s.specs i).old_name (s.specs i).new_name there' gone' in
      let renamed = m.renames s.world (s.specs i).old_name (s.specs i).new_name there' gone' in
      let renamed' : files (after_run s i) ≡ moved (files s.world) (old i) (new i) =
        renamed
        ∙ ap (λ x. moved (files s.world) x (s.specs i).new_name) (named i).0
        ∙ ap (λ x. moved (files s.world) (old i) x) (named i).1 in
      let later : Named old new (free_file_spec s.specs i) =
        λ j. let n = free-names s.specs i j in (n.0 ∙ (named j).0, n.1 ∙ (named j).1) in
      let ih = apply_each-Safe old new is (after_step s i) later u (rw renamed' safe) in
      rw (apply_step i is s planned free done)
        (ih.0, ih.1 ∙ ap (λ f. final old new f is) renamed', ih.2)

-- Where the command renames a file whose destination is free, and both changes of directory succeed, a
-- safe plan in which every spec is planned and waits for none when its turn comes is done to its end,
-- unless it is simulated: `apply_plan` succeeds if nothing had failed before, leaves no spec in `ok`,
-- and what exists afterwards is what the renames make of it.
pub apply_plan-Safe :
    {World : Type 0} (system : System World) (command : Bytes) (files : World → FileSet)
    (is : List ℕ) (s : Applying World)
    → MovesFiles system command files
    → s.fail ≡ false
    → Unblocked s.specs is
    → Safe (λ j. (s.specs j).old_name) (λ j. (s.specs j).new_name) (files s.world) is
    → ((apply_plan system command false true true is s).0 ≡ true)
      × ((apply_plan system command false true true is s).1 ≡ [])
      × (files (apply_plan system command false true true is s).2.world
          ≡ final (λ j. (s.specs j).old_name) (λ j. (s.specs j).new_name) (files s.world) is)
unfolding apply_plan final
apply_plan-Safe system command files [] s m ok u safe = (refl, refl, refl)
apply_plan-Safe system command files (i ∷ is) s m ok u safe =
    let r =
      apply_each-Safe system command files m (λ j. (s.specs j).old_name) (λ j. (s.specs j).new_name)
        (i ∷ is) s (λ j. (refl, refl)) u safe in
    (ap not (r.2 ∙ ok), r.0, r.1)
