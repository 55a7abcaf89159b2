-- ===== src/Plan/Resolve/Whole.antt =====
-- `make_plan` of qmv as a whole, and `apply_plan` on what it makes.
use renameutils.Common.{
  ℕ, ◌+◌, ◌<◌, Bool, true, false, List, [], some, ◌≡◌, ◌≢◌, refl, sym, ap, ◌∙◌, arith, Bytes,
}
use renameutils.Dictionary.{Dictionary}
use renameutils.Plan.{Planning, is_unchecked, exists_here, common_scans, apply_unchecked}
use renameutils.Plan.Narrow.{In, IsUnchecked, Narrows, Narrows-trans}
use renameutils.Plan.Scans.{no_change_scan-differ}
use renameutils.Plan.Files.{FileSet, Safe}
use renameutils.Apply.{System, Applying, apply_plan}
use renameutils.Apply.Moves.{MovesFiles, Unblocked, apply_plan-Safe}
use renameutils.Plan.Chained.{Chained-Unblocked}
use renameutils.Plan.Sort.{topologic_sort}
use renameutils.Plan.Invariant.{Ready, NoDup}
use renameutils.Plan.Safety.{Inv, sort-Inv}
use renameutils.Plan.Fresh.{common_scans-ok, common_scans-Narrows, common_scans-Ready}
use renameutils.Plan.Resolve.{
  Resolving, temporary_name, names_maps, cross_reference_resolve, make_rename_plan,
}
use renameutils.Plan.Resolve.Idle.{Idle, common_scans-Idle}
use renameutils.Plan.Resolve.Names.{names_maps-Both, is_taken_free}
use renameutils.Plan.Resolve.Sound.{IsSound, Safe-same, Grows, Grows-trans}
use renameutils.Plan.Resolve.Added.{Resolvable}
use renameutils.Plan.Resolve.Step.{Vacant}
use renameutils.Plan.Resolve.Each.{resolve_each, apply_unchecked-closed}

-- A rename's temporary name: one of the first `limit` is neither a file nor a new name.
abbrev pub HasRoom : (Bytes → Bool) → Bytes → ℕ → List ℕ → Planning → Type 0
HasRoom file_exists work_directory limit renames p =
    (j : ℕ)
    → In j renames
    → (n : ℕ) × (n < limit)
      × (exists_here file_exists work_directory (temporary_name (p.specs j).old_name (n + 1))
          ≡ false)
      × ((k : ℕ)
          → In k renames
          → (p.specs k).new_name ≢ temporary_name (p.specs j).old_name (n + 1))

-- What `make_plan` is given the first time.
pub record First (renames : List ℕ) (r : Resolving) : Type 0 where
  pub fresh_ok : r.planning.ok ≡ []
  pub waiting : (j : ℕ) → In j renames → IsUnchecked r.planning j
  pub once : NoDup renames
  pub distinct :
      (j k : ℕ)
      → In j renames
      → In k renames
      → (r.planning.specs j).old_name ≡ (r.planning.specs k).old_name
      → j ≡ k
  pub idle : Idle r.planning
  pub allocated : (j : ℕ) → In j renames → j < r.fresh

module _ (dict : Dictionary) (file_exists : Bytes → Bool) (work_directory : Bytes) (limit : ℕ)
    (renames : List ℕ) (r : Resolving) (first : First renames r)
    (room : HasRoom file_exists work_directory limit renames r.planning) where
  abbrev here : FileSet
  here = exists_here file_exists work_directory

  abbrev scanned : Planning
  scanned = common_scans dict file_exists work_directory renames r.planning

  ready : Ready here renames scanned
  ready = common_scans-Ready dict file_exists work_directory renames r.planning first.distinct

  scanned_differ :
      (j : ℕ)
      → In j renames
      → IsUnchecked scanned j
      → (scanned.specs j).old_name ≢ (scanned.specs j).new_name
  unfolding common_scans
  scanned_differ j h u = no_change_scan-differ renames _ j h u

  abbrev sorted : Planning
  sorted = (topologic_sort dict file_exists work_directory renames scanned).1.planning

  abbrev r₁ : Resolving
  r₁ = record r { planning = sorted }

  inv :
      Inv dict here renames scanned ready
        (topologic_sort dict file_exists work_directory renames scanned).1.available
        sorted
  inv =
      sort-Inv dict here renames scanned ready file_exists work_directory (λ n. refl)
        (common_scans-ok dict file_exists work_directory renames r.planning first.waiting
          ∙ first.fresh_ok)
        first.once

  -- The sorted plan has the names that were asked for.
  narrows : Narrows r.planning sorted
  narrows =
      Narrows-trans (common_scans-Narrows dict file_exists work_directory renames r.planning)
        inv.narrows

  sorted-IsSound : IsSound here r₁
  sorted-IsSound =
      let idle = common_scans-Idle dict file_exists work_directory renames r.planning first.idle in
      let links = inv.links idle in
      record {
        safe =
            Safe-same (λ j. (scanned.specs j).old_name) (λ j. (scanned.specs j).new_name)
              (λ j. (sorted.specs j).old_name) (λ j. (sorted.specs j).new_name) here sorted.ok
              (λ j h. inv.narrows.old_same j) (λ j h. inv.narrows.new_same j) inv.safe;
        chained = links.chained;
        closed = links.closed;
        small = λ j h. first.allocated j (inv.listed j h);
      }

  abbrev maps : dict.Map × dict.Map
  maps = names_maps dict renames sorted

  sorted-Resolvable : Resolvable dict here renames maps.0 r₁
  sorted-Resolvable =
      let ready' = ready in
      let n = inv.narrows in
      record {
        ready = record {
          old_there = λ j h u. ap here (n.old_same j) ∙ ready'.old_there j h (n.still j u);
          old_distinct = λ j k h h' u u' e.
              ready'.old_distinct j k h h' (n.still j u) (n.still k u')
                (sym (n.old_same j) ∙ e ∙ n.old_same k);
          new_distinct = λ j k h h' u u' e.
              ready'.new_distinct j k h h' (n.still j u) (n.still k u')
                (sym (n.new_same j) ∙ e ∙ n.new_same k);
        };
        differ =
            λ j h u e. scanned_differ j h (n.still j u) (sym (n.old_same j) ∙ e ∙ n.new_same j);
        small = first.allocated;
        source = (names_maps-Both dict renames sorted).0;
      }

  room₁ :
      (j : ℕ)
      → In j renames
      → Vacant dict file_exists work_directory renames maps.0 maps.1 limit
          (r₁.planning.specs j).old_name
  room₁ j h =
      let (n, less, gone, unused) = room j h in
      (
        n,
        less,
        rw (narrows.old_same j) (
            is_taken_free dict renames sorted file_exists work_directory
              (temporary_name (r.planning.specs j).old_name (n + 1)) gone
              (λ k g e. unused k g (sym (narrows.new_same k) ∙ e))),
      )

  plan_of :
      (r₂ : Resolving)
      → cross_reference_resolve dict file_exists work_directory limit renames r₁ ≡ some r₂
      → make_rename_plan dict file_exists work_directory limit renames r
        ≡ some (record r₂ { planning = apply_unchecked renames r₂.planning })
  unfolding make_rename_plan
  plan_of r₂ e = rw (make_rename_plan, e) refl

  grows₁ : Grows r r₁
  grows₁ = record {
    fresh_more = omega arith;
    old_same = λ j h. narrows.old_same j;
    new_same = λ j h. narrows.new_same j;
    still = λ j h. narrows.still j;
  }

  -- The plan that is made.
  pub planned :
      (r' : Resolving) × (make_rename_plan dict file_exists work_directory limit renames r
        ≡ some r')
      × IsSound here r'
      × Grows r r'
      × ((j : ℕ) → In j renames → is_unchecked (r'.planning.specs j).status ≡ false)
  unfolding cross_reference_resolve
  planned =
      let (r₂, e, s, g, closed) =
        resolve_each dict file_exists work_directory renames maps.0 maps.1 limit renames r₁
          (λ j h. h) sorted-IsSound sorted-Resolvable room₁ in
      let same = apply_unchecked-closed renames r₂.planning closed in
      let e' = plan_of r₂ e ∙ ap (λ p. some (record r₂ { planning = p })) same in
      (r₂, e', s, Grows-trans grows₁ g, closed)

-- The plan that qmv makes for the first time is safe as a whole, circular renames included: a plan is
-- made, its renames, done in the order of `ok` on the files that exist, each find their source and
-- nothing at their destination, none is held back by its links when its turn comes, and no spec of
-- the list is left unchecked. Before, `ok` is empty, every spec is unchecked, waits for none and is
-- listed once, and the old names differ; and of the names tried as a spec's temporary name, one is
-- neither that of a file nor a new name of the list.
pub make_rename_plan-Safe :
    (dict : Dictionary) (file_exists : Bytes → Bool) (work_directory : Bytes) (limit : ℕ)
    (renames : List ℕ) (r : Resolving)
    → First renames r
    → HasRoom file_exists work_directory limit renames r.planning
    → (r' : Resolving) × (make_rename_plan dict file_exists work_directory limit renames r
        ≡ some r')
      × Safe
          (λ j. (r'.planning.specs j).old_name)
          (λ j. (r'.planning.specs j).new_name)
          (exists_here file_exists work_directory)
          r'.planning.ok
      × Unblocked r'.planning.specs r'.planning.ok
      × ((j : ℕ) → In j renames → is_unchecked (r'.planning.specs j).status ≡ false)
make_rename_plan-Safe dict file_exists work_directory limit renames r first room =
    let (r', e, s, g, closed) =
      planned dict file_exists work_directory limit renames r first room in
    (r', e, s.safe, Chained-Unblocked r'.planning.specs r'.planning.ok s.chained, closed)

-- qmv's plan is done to its end. Where the specs are as above, the command moves a file whose
-- destination is free, the files are those that the plan was made for, nothing has failed before, both
-- changes of directory succeed and the run is not simulated: a plan is made, `apply_plan` succeeds on
-- it, and leaves nothing of it.
pub make_rename_plan-apply_plan :
    {World : Type 0} (system : System World) (command : Bytes) (files : World → FileSet)
    (world : World) (work_files : List ℕ) (dict : Dictionary) (file_exists : Bytes → Bool)
    (work_directory : Bytes) (limit : ℕ) (renames : List ℕ) (r : Resolving)
    → MovesFiles system command files
    → files world ≡ exists_here file_exists work_directory
    → First renames r
    → HasRoom file_exists work_directory limit renames r.planning
    → (r' : Resolving) × (make_rename_plan dict file_exists work_directory limit renames r
        ≡ some r')
      × ((apply_plan system command false true true r'.planning.ok (record {
        world = world;
        specs = r'.planning.specs;
        work_files = work_files;
        fail = false;
      })).0
          ≡ true)
      × ((apply_plan system command false true true r'.planning.ok (record {
        world = world;
        specs = r'.planning.specs;
        work_files = work_files;
        fail = false;
      })).1
          ≡ [])
make_rename_plan-apply_plan system command files world work_files dict file_exists work_directory
      limit renames r moves same first room =
    let (r', e, safe, unblocked, closed) =
      make_rename_plan-Safe dict file_exists work_directory limit renames r first room in
    let s : Applying _ = record {
      world = world;
      specs = r'.planning.specs;
      work_files = work_files;
      fail = false;
    } in
    let done =
      apply_plan-Safe system command files r'.planning.ok s moves refl unblocked (rw same safe) in
    (r', e, done.0, done.1)
