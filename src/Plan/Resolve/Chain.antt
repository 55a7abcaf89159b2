-- ===== src/Plan/Resolve/Chain.antt =====
-- Chains of renames from new names to old, as the search for circular sets follows them.
use renameutils.Common.{
  ℕ, suc, List, [], ◌∷◌, Option, some, ◌≡◌, ◌≢◌, inl, inr, refl, sym, ap, ◌∙◌, arith, ==_iff, Bytes,
  length, ◌≤◌, ◌<◌, ◌==◌, if◌then◌else◌, same_some, Bool-cases,
}
use renameutils.Plan.Narrow.{In}
use renameutils.Plan.Invariant.{NoDup}

abbrev without : ℕ → List ℕ → List ℕ
without v [] = []
without v (k ∷ ks) = if k == v then ks else k ∷ without v ks

length-without : (v : ℕ) (ks : List ℕ) → In v ks → suc (length (without v ks)) ≡ length ks
length-without v [] h = absurd h
length-without v (k ∷ ks) h = elim (Bool-cases (k == v)) [
  | inl at ↦ rw at refl
  | inr off ↦
      let h' : In v ks = ground (arith, ==_iff k v) in rw off (ap suc (length-without v ks h'))
]

In-without : (v w : ℕ) (ks : List ℕ) → w ≢ v → In w ks → In w (without v ks)
In-without v w [] n h = h
In-without v w (k ∷ ks) n h = elim (Bool-cases (k == v)) [
  | inl at ↦ let g : In w ks = ground (arith, ==_iff k v) in rw at g
  | inr off ↦ rw off (elim h [ inl e ↦ inl e | inr g ↦ inr (In-without v w ks n g) ])
]

-- Numbers of a list that are listed once each are no more than the list has.
pub NoDup-length :
    (vs ks : List ℕ) → NoDup vs → ((j : ℕ) → In j vs → In j ks) → length vs ≤ length ks
NoDup-length [] ks nd sub = ground arith
NoDup-length (v ∷ vs) ks nd sub =
    let e = length-without v ks (sub v (inl refl)) in
    let rest =
      NoDup-length vs (without v ks) nd.1
        (λ j h. In-without v j ks (λ at. nd.0 (rw at at h)) (sub j (inr h))) in
    ground (arith, e, rest)

module _ (look : Bytes → Option ℕ) (new : ℕ → Bytes) (Open : ℕ → Type 0) (s1 : ℕ) where
  -- From `s2`, over the specs of the list, back to `s1`.
  abbrev pub Chain : ℕ → List ℕ → Type 0
  Chain s2 [] = look (new s2) ≡ some s1
  Chain s2 (k ∷ ks) = (look (new s2) ≡ some k) × Open k × (k ≢ s1) × Chain k ks

  Chain-unique : (s2 : ℕ) (ks ls : List ℕ) → Chain s2 ks → Chain s2 ls → ks ≡ ls
  Chain-unique s2 [] [] c d = refl
  Chain-unique s2 [] (l ∷ ls) c (e, open', n, d) = absurd (n (sym (same_some (sym c ∙ e))))
  Chain-unique s2 (k ∷ ks) [] (e, open', n, c) d = absurd (n (sym (same_some (sym d ∙ e))))
  Chain-unique s2 (k ∷ ks) (l ∷ ls) (e, open', n, c) (e', open'', n', d) =
      let same = same_some (sym e ∙ e') in
      ap (λ t. k ∷ t) (Chain-unique k ks ls c (rw same d)) ∙ ap (λ t. t ∷ ls) same

  Chain-later :
      (s2 : ℕ) (ks : List ℕ) (j : ℕ)
      → Chain s2 ks
      → In j ks
      → (ls : List ℕ) × Chain j ls × (length ls < length ks)
  Chain-later s2 [] j c h = absurd h
  Chain-later s2 (k ∷ ks) j (e, open', n, c) (inl at) = (ks, rw at c, ground arith)
  Chain-later s2 (k ∷ ks) j (e, open', n, c) (inr h) =
      let (ls, d, less) = Chain-later k ks j c h in (ls, d, ground (arith, less))

  pub Chain-off : (s2 : ℕ) (ks : List ℕ) → Chain s2 ks → In s2 ks → ⊥
  Chain-off s2 ks c h =
      let (ls, d, less) = Chain-later s2 ks s2 c h in
      let e = ap length (Chain-unique s2 ks ls c d) in ground (arith, e, less)

  -- A chain visits no spec twice.
  pub Chain-NoDup : (s2 : ℕ) (ks : List ℕ) → Chain s2 ks → NoDup ks
  Chain-NoDup s2 [] c = tt
  Chain-NoDup s2 (k ∷ ks) (e, open', n, c) = (Chain-off k ks c, Chain-NoDup k ks c)

  pub Chain-Open : (s2 : ℕ) (ks : List ℕ) (j : ℕ) → Chain s2 ks → In j ks → Open j
  Chain-Open s2 [] j c h = absurd h
  Chain-Open s2 (k ∷ ks) j (e, open', n, c) (inl at) = rw at open'
  Chain-Open s2 (k ∷ ks) j (e, open', n, c) (inr h) = Chain-Open k ks j c h

  pub Chain-start : (s2 : ℕ) (ks : List ℕ) → Chain s2 ks → In s1 ks → ⊥
  Chain-start s2 [] c h = h
  Chain-start s2 (k ∷ ks) (e, open', n, c) (inl at) = n (sym at)
  Chain-start s2 (k ∷ ks) (e, open', n, c) (inr h) = Chain-start k ks c h

pub Chain-same :
    (look : Bytes → Option ℕ) (new new' : ℕ → Bytes) (Open Open' : ℕ → Type 0) (s1 : ℕ)
    → ((j : ℕ) → new' j ≡ new j)
    → ((j : ℕ) → Open j → Open' j)
    → (s2 : ℕ) (ks : List ℕ) → Chain look new Open s1 s2 ks
    → Chain look new' Open' s1 s2 ks
Chain-same look new new' Open Open' s1 a b s2 [] c = ap look (a s2) ∙ c
Chain-same look new new' Open Open' s1 a b s2 (k ∷ ks) (e, o, n, c) =
    (ap look (a s2) ∙ e, b k o, n, Chain-same look new new' Open Open' s1 a b k ks c)
