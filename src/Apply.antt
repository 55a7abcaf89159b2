-- ===== src/Apply.antt =====
-- src/apply.c: the renames of a plan are done, one command after the other; and `free_file_spec` of
-- src/list.c, which tells the spec that waits for one.
--
-- The commands and the file system are a `System`. A freed spec is a number that is in no list.
pub mod Moves
pub mod Simulate
mod Tests
use renameutils.Common.{
  ℕ, zero, suc, Bool, true, false, not, ◌||◌, List, [], ◌∷◌, Option, none, some, ◌==◌,
  if◌then◌else◌, Bytes, codes,
}
use renameutils.Plan.{FileSpec, Status, apply, circular, write_spec}

-- What a command came to: no process, no status, or the status.
pub data Outcome : Type 0 where
  no_process : Outcome
  unwaited : Outcome
  signaled : ℕ → Outcome
  stopped : ℕ → Outcome
  exited : ℕ → Outcome

pub record System (World : Type 0) : Type 0 where
  -- The command, and its two arguments after `--`.
  pub run : World → Bytes → Bytes → Bytes → Outcome × World

-- `perform_command`, and `wait_child_and_check_status` where there is a child.
abbrev pub check_status : Outcome → Bool
check_status (exited zero) = true
check_status _ = false

unfoldable pub command_name : Option Bytes → Bool → Bytes
command_name (some force_command) is_qmv = force_command
command_name none true = codes "mv"
command_name none false = codes "cp"

abbrev pub is_planned : Status → Bool
is_planned apply = true
is_planned circular = true
is_planned _ = false

abbrev pub is_some {ℓ} : {A : Type ℓ} → Option A → Bool
is_some none = false
is_some (some a) = true

-- `llist_remove`
abbrev pub llist_remove : List ℕ → ℕ → List ℕ
llist_remove [] i = []
llist_remove (k ∷ ks) i = if k == i then ks else k ∷ llist_remove ks i

-- The writes through `prev_spec` and `next_spec`, which may be null.
abbrev pub set_next : (ℕ → FileSpec) → Option ℕ → Option ℕ → ℕ → FileSpec
set_next specs none next = specs
set_next specs (some i) next = write_spec specs i (record (specs i) { next_spec = next })

abbrev pub set_prev : (ℕ → FileSpec) → Option ℕ → Option ℕ → ℕ → FileSpec
set_prev specs none prev = specs
set_prev specs (some i) prev = write_spec specs i (record (specs i) { prev_spec = prev })

unfoldable pub free_file_spec : (ℕ → FileSpec) → ℕ → ℕ → FileSpec
free_file_spec specs i =
    let specs' = set_next specs (specs i).prev_spec (specs i).next_spec in
    set_prev specs' (specs' i).next_spec (specs' i).prev_spec

pub record Applying (World : Type 0) : Type 0 where
  pub world : World
  pub specs : ℕ → FileSpec
  pub work_files : List ℕ
  pub fail : Bool

module _ {World : Type 0} (system : System World) (command : Bytes) (simulate : Bool) where
  unfoldable pub perform_command : World → FileSpec → Bool × World
  perform_command world spec =
      let (outcome, world') = system.run world command spec.old_name spec.new_name in
      (check_status outcome, world')

  -- `simulate || perform_command(spec)`
  unfoldable pub attempt : World → FileSpec → Bool × World
  attempt world spec = if simulate then (true, world) else perform_command world spec

  -- The removal of a spec that is done.
  unfoldable pub finish : Applying World → ℕ → Applying World
  finish s i = record s {
    specs = free_file_spec s.specs i;
    work_files = llist_remove s.work_files i;
  }

  -- The loop: what is left of `plan->ok`, and the state.
  unfoldable pub apply_each : List ℕ → Applying World → List ℕ × Applying World
  apply_each [] s = ([], s)
  apply_each (i ∷ is) s =
      let spec = s.specs i in
      let (done, world') = attempt s.world spec in
      let (kept, kept_state) = apply_each is s in
      let (after, after_state) = apply_each is (finish (record s { world = world' }) i) in
      let (failed, failed_state) = apply_each is (record s { world = world'; fail = true }) in
      if not (is_planned spec.status) || is_some spec.prev_spec
      then (i ∷ kept, kept_state)
      else if done
      then (after, after_state)
      else (i ∷ failed, failed_state)

-- `enters` and `leaves` are the results of `cwd_to_work_directory` and `cwd_from_work_directory`.
unfoldable pub apply_plan :
    {World : Type 0}
    → System World
    → Bytes
    → Bool
    → Bool
    → Bool
    → List ℕ
    → Applying World
    → Bool × List ℕ × Applying World
apply_plan system command simulate enters leaves [] s = (true, [], s)
apply_plan system command simulate enters leaves (i ∷ is) s =
    let (ok, s') = apply_each system command simulate (i ∷ is) s in
    if enters then (if leaves then not s'.fail else false, ok, s') else (false, i ∷ is, s)
