-- ===== src/LList/Segments.antt =====
-- The nodes of a list, one after the other: their addresses and data, and what a memory must hold.
use renameutils.Common.{
  ℕ, ◌<◌, List, [], ◌∷◌, ◌++◌, Option, none, some, ◌≡◌, ◌⊎◌, inl, inr, refl, ◌∙◌, length,
}
use renameutils.LList.{Ptr, LNode, LList, Memory}

-- Addresses with their data.
abbrev pub Cells : Type 0
Cells = List (ℕ × ℕ)

abbrev pub data_of : Cells → List ℕ
data_of [] = []
data_of ((a, d) ∷ cs) = d ∷ data_of cs

abbrev pub At : ℕ → Cells → Type 0
At b [] = ⊥
At b ((a, d) ∷ cs) = (b ≡ a) ⊎ At b cs

abbrev pub Apart : Cells → Type 0
Apart [] = Unit
Apart ((a, d) ∷ cs) = (At a cs → ⊥) × Apart cs

abbrev pub head_or : Cells → Ptr → Ptr
head_or [] p = p
head_or ((a, d) ∷ cs) p = some a

abbrev pub last_or : Cells → Ptr → Ptr
last_or [] p = p
last_or ((a, d) ∷ cs) p = last_or cs (some a)

-- From behind `prev` to before `stop`, the links lead over the cells in both directions.
abbrev pub Nodes : (ℕ → Option LNode) → Ptr → Ptr → Cells → Type 0
Nodes h prev stop [] = Unit
Nodes h prev stop ((a, d) ∷ cs) =
    (h a ≡ some (record { datum = d; next = head_or cs stop; previous = prev }))
    × Nodes h (some a) stop cs

pub record Represents (m : Memory) (l : LList) (cs : Cells) : Type 0 where
  pub first_is : l.first ≡ head_or cs none
  pub last_is : l.last ≡ last_or cs none
  pub size_is : l.size ≡ length cs
  pub nodes : Nodes m.nodes none none cs
  pub apart : Apart cs
  pub used : (b : ℕ) → At b cs → b < m.unused

pub Nodes-frame :
    (h h' : ℕ → Option LNode) (prev stop : Ptr) (cs : Cells)
    → ((b : ℕ) → At b cs → h' b ≡ h b)
    → Nodes h prev stop cs
    → Nodes h' prev stop cs
Nodes-frame h h' prev stop [] same n = tt
Nodes-frame h h' prev stop ((a, d) ∷ cs) same (e, n) =
    (same a (inl refl) ∙ e, Nodes-frame h h' (some a) stop cs (λ b g. same b (inr g)) n)

pub head_or-append : (xs ys : Cells) (p : Ptr) → head_or (xs ++ ys) p ≡ head_or xs (head_or ys p)
head_or-append [] ys p = refl
head_or-append ((a, d) ∷ xs) ys p = refl

pub last_or-append : (xs ys : Cells) (p : Ptr) → last_or (xs ++ ys) p ≡ last_or ys (last_or xs p)
last_or-append [] ys p = refl
last_or-append ((a, d) ∷ xs) ys p = last_or-append xs ys (some a)

pub Nodes-append :
    (h : ℕ → Option LNode) (prev stop : Ptr) (xs ys : Cells)
    → Nodes h prev (head_or ys stop) xs
    → Nodes h (last_or xs prev) stop ys
    → Nodes h prev stop (xs ++ ys)
Nodes-append h prev stop [] ys n n' = n'
Nodes-append h prev stop ((a, d) ∷ xs) ys (e, n) n' =
    (rw (head_or-append xs ys stop) e, Nodes-append h (some a) stop xs ys n n')

pub Nodes-split :
    (h : ℕ → Option LNode) (prev stop : Ptr) (xs ys : Cells)
    → Nodes h prev stop (xs ++ ys)
    → Nodes h prev (head_or ys stop) xs × Nodes h (last_or xs prev) stop ys
Nodes-split h prev stop [] ys n = (tt, n)
Nodes-split h prev stop ((a, d) ∷ xs) ys (e, n) =
    let (n', n'') = Nodes-split h (some a) stop xs ys n in
    ((rw (head_or-append xs ys stop) at e, n'), n'')

pub At-same : {a b : ℕ} (cs : Cells) → b ≡ a → At b cs → At a cs
At-same cs e h = rw e at h

pub At-left : (b : ℕ) (xs ys : Cells) → At b xs → At b (xs ++ ys)
At-left b [] ys h = absurd h
At-left b ((a, d) ∷ xs) ys (inl e) = inl e
At-left b ((a, d) ∷ xs) ys (inr h) = inr (At-left b xs ys h)

pub At-right : (b : ℕ) (xs ys : Cells) → At b ys → At b (xs ++ ys)
At-right b [] ys h = h
At-right b ((a, d) ∷ xs) ys h = inr (At-right b xs ys h)

pub At-append : (b : ℕ) (xs ys : Cells) → At b (xs ++ ys) → At b xs ⊎ At b ys
At-append b [] ys h = inr h
At-append b ((a, d) ∷ xs) ys (inl e) = inl (inl e)
At-append b ((a, d) ∷ xs) ys (inr h) = elim (At-append b xs ys h) [
  | inl g ↦ inl (inr g)
  | inr g ↦ inr g
]

pub Apart-split :
    (xs ys : Cells) → Apart (xs ++ ys) → Apart xs × Apart ys × ((b : ℕ) → At b xs → At b ys → ⊥)
Apart-split [] ys p = (tt, p, λ b h g. h)
Apart-split ((a, d) ∷ xs) ys (off, p) =
    let (px, py, dis) = Apart-split xs ys p in
    (
      (λ h. off (At-left a xs ys h), px),
      py,
      λ b h g. elim h [ inl e ↦ off (At-right a xs ys (At-same ys e g)) | inr h' ↦ dis b h' g ],
    )

pub Apart-append :
    (xs ys : Cells) → Apart xs → Apart ys → ((b : ℕ) → At b xs → At b ys → ⊥) → Apart (xs ++ ys)
Apart-append [] ys px py dis = py
Apart-append ((a, d) ∷ xs) ys (off, px) py dis = (
  λ h. elim (At-append a xs ys h) [ inl g ↦ off g | inr g ↦ dis a (inl refl) g ],
  Apart-append xs ys px py (λ b h. dis b (inr h)),
)

-- The last of a list that is not empty.
pub last_or-some :
    (a d : ℕ) (cs : Cells) (p : Ptr)
    → (b : ℕ) × (last_or ((a, d) ∷ cs) p ≡ some b) × At b ((a, d) ∷ cs)
last_or-some a d [] p = (a, refl, inl refl)
last_or-some a d ((a', d') ∷ cs) p = let (b, e, h) = last_or-some a' d' cs (some a) in (b, e, inr h)
