-- ===== src/LList/Links.antt =====
-- Writes to the links at the ends of a segment, and what they leave alone.
use renameutils.Common.{
  ℕ, [], ◌∷◌, Option, none, some, ◌≡◌, ◌≢◌, inl, inr, refl, ◌∙◌, arith, ==_iff,
}
use renameutils.LList.{Ptr, LNode, Memory, write, set_next, set_previous, free}
use renameutils.LList.Segments.{Cells, At, At-same, Apart, head_or, last_or, Nodes, Nodes-frame}

-- `m'` differs from `m` at most at the cells.
pub record Within (cs : Cells) (m m' : Memory) : Type 0 where
  pub outside : (b : ℕ) → (At b cs → ⊥) → m'.nodes b ≡ m.nodes b
  pub unused_same : m'.unused ≡ m.unused

pub write_self : (m : Memory) (a : ℕ) (c : Option LNode) → (write m a c).nodes a ≡ c
write_self m a c = ground (arith, ==_iff a a)

pub write_other :
    (m : Memory) (a : ℕ) (c : Option LNode) (b : ℕ) → b ≢ a → (write m a c).nodes b ≡ m.nodes b
write_other m a c b n = ground (arith, ==_iff b a)

pub set_next_ok :
    (m : Memory) (a : ℕ) (n : LNode) (q : Ptr)
    → m.nodes a ≡ some n
    → set_next m (some a) q ≡ some (write m a (some (record n { next = q })))
unfolding set_next
set_next_ok m a n q e = rw e refl

pub set_previous_ok :
    (m : Memory) (a : ℕ) (n : LNode) (q : Ptr)
    → m.nodes a ≡ some n
    → set_previous m (some a) q ≡ some (write m a (some (record n { previous = q })))
unfolding set_previous
set_previous_ok m a n q e = rw e refl

pub free_ok :
    (m : Memory) (a : ℕ) (n : LNode) → m.nodes a ≡ some n → free m (some a) ≡ some (write m a none)
unfolding free
free_ok m a n e = rw e refl

-- The last cell of a segment is given another successor.
pub set_next_last :
    (m : Memory) (prev stop stop' : Ptr) (a d : ℕ) (cs : Cells)
    → Nodes m.nodes prev stop ((a, d) ∷ cs)
    → Apart ((a, d) ∷ cs)
    → (m' : Memory) × (set_next m (last_or cs (some a)) stop' ≡ some m')
      × Nodes m'.nodes prev stop' ((a, d) ∷ cs)
      × Within ((a, d) ∷ cs) m m'
set_next_last m prev stop stop' a d [] (e, n) p = (
  write m a (some (record { datum = d; next = stop'; previous = prev })),
  set_next_ok m a (record { datum = d; next = stop; previous = prev }) stop' e,
  (write_self m a (some (record { datum = d; next = stop'; previous = prev })), tt),
  record { outside = λ b h. write_other m a _ b (λ e. h (inl e)); unused_same = refl },
)
set_next_last m prev stop stop' a d ((a', d') ∷ cs) (e, n) (off, p) =
    let (m', e', n', w) = set_next_last m (some a) stop stop' a' d' cs n p in
    (
      m',
      e',
      (w.outside a off ∙ e, n'),
      record { outside = λ b h. w.outside b (λ g. h (inr g)); unused_same = w.unused_same },
    )

-- The first cell of a segment is given another predecessor.
pub set_previous_first :
    (m : Memory) (prev prev' stop : Ptr) (a d : ℕ) (cs : Cells)
    → Nodes m.nodes prev stop ((a, d) ∷ cs)
    → Apart ((a, d) ∷ cs)
    → (m' : Memory) × (set_previous m (some a) prev' ≡ some m')
      × Nodes m'.nodes prev' stop ((a, d) ∷ cs)
      × Within ((a, d) ∷ cs) m m'
set_previous_first m prev prev' stop a d cs (e, n) (off, p) =
    let node : LNode = record { datum = d; next = head_or cs stop; previous = prev' } in
    (
      write m a (some node),
      set_previous_ok m a (record { datum = d; next = head_or cs stop; previous = prev }) prev' e,
      (
        write_self m a (some node),
        Nodes-frame m.nodes (write m a (some node)).nodes (some a) stop cs
            (λ b h. write_other m a (some node) b (λ same. off (At-same cs same h))) n,
      ),
      record {
        outside = λ b h. write_other m a (some node) b (λ e. h (inl e));
        unused_same = refl;
      },
    )
