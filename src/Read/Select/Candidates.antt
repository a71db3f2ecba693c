-- ===== src/Read/Select/Candidates.antt =====
-- The lists of candidates: the newest generation, and what removing it leaves.
use arcadia_tio_rs.Base.{
  ℕ, ◌≤◌, ◌<◌, ◌≡◌, ◌⊎◌, inl, inr, refl, sym, arith, List, [], ◌∷◌, length, Bool, true, false, not,
  ◌==◌, ◌&&◌, max, Option, some, none, Bool-cases, if-cases, if_true, if_false, ==→eq, eq→==,
  and-eq_true, or-eq_true, or-eq_false, ap, ◌∙◌, not-true,
}
use mathlib.Core.List.Memᴰ
use mathlib.Core.List.{Memᴰ}
use arcadia_tio_rs.BodyRef
use arcadia_tio_rs.BodyRef.{OcbBodyRefV2}
use arcadia_tio_rs.Read.Select.{
  OcbRootCandidateV2, max_generation, find_generation, remove_first, retain_other, conflicting,
}

and_not-false : (a b : Bool) → (a && not b) ≡ false → a ≡ true → b ≡ true
and_not-false a b h t = ground arith

max_other : (a b g : ℕ) → max a b ≡ g → (a == g) ≡ false → b ≡ g
max_other a b g h other = ground arith

-- A candidate list is empty, or has a newest generation.
unfoldable pub IsNewest : List OcbRootCandidateV2 → Option ℕ → Type 0
IsNewest candidates none = candidates ≡ []
IsNewest candidates (some g) = (c : OcbRootCandidateV2) → Memᴰ c candidates → c.slot.generation ≤ g

IsNewest-cons :
    (c : OcbRootCandidateV2) (candidates : List OcbRootCandidateV2) (found : Option ℕ)
    → max_generation candidates ≡ found
    → IsNewest candidates found
    → IsNewest (c ∷ candidates) (max_generation (c ∷ candidates))
unfolding max_generation IsNewest
IsNewest-cons c candidates none found rest = rw found (
    rw rest λ d m. elim (Memᴰ.cases_cons m) [
      | inl same ↦ rw same (omega arith)
      | inr other ↦ absurd (Memᴰ.not-nil other)
    ])
IsNewest-cons c candidates (some g) found rest = rw found λ d m. elim (Memᴰ.cases_cons m) [
  | inl same ↦ rw same (omega arith)
  | inr other ↦ omega (arith, rest d other)
]

pub max_generation-IsNewest :
    (candidates : List OcbRootCandidateV2) → IsNewest candidates (max_generation candidates)
unfolding max_generation IsNewest
max_generation-IsNewest [] = refl
max_generation-IsNewest (c ∷ candidates) =
    IsNewest-cons c candidates (max_generation candidates) refl (max_generation-IsNewest candidates)

-- A candidate of the generation looked for, the first one.
some-injective : {A : Type 0} {a b : A} → some a ≡ some b → a ≡ b
some-injective h = cc

pub find_generation-Memᴰ :
    (g : ℕ) (candidates : List OcbRootCandidateV2) {c : OcbRootCandidateV2}
    → find_generation g candidates ≡ some c
    → Memᴰ c candidates × (c.slot.generation ≡ g)
unfolding find_generation
find_generation-Memᴰ g [] h = absurd (cc h)
find_generation-Memᴰ g (x ∷ candidates) {c = c} h =
    elim (if-cases (x.slot.generation == g) (some x) (find_generation g candidates) h) [
      | inl (same, found) ↦
          let e : c ≡ x = sym (some-injective found) in (Memᴰ.head e, rw e (==→eq _ _ same))
      | inr (_, found) ↦
          let (member, generation) = find_generation-Memᴰ g candidates found in
          (Memᴰ.tail member, generation)
    ]

-- One step of the two removals.
module _ (g : ℕ) (x : OcbRootCandidateV2) (candidates : List OcbRootCandidateV2) where
  retain_other-same :
      (x.slot.generation == g) ≡ true → retain_other g (x ∷ candidates) ≡ retain_other g candidates
  unfolding retain_other
  retain_other-same same = if_true _ _ _ same

  retain_other-keeps :
      (x.slot.generation == g) ≡ false
      → retain_other g (x ∷ candidates) ≡ x ∷ retain_other g candidates
  unfolding retain_other
  retain_other-keeps other = if_false _ _ _ other

  remove_first-same : (x.slot.generation == g) ≡ true → remove_first g (x ∷ candidates) ≡ candidates
  unfolding remove_first
  remove_first-same same = if_true _ _ _ same

  remove_first-keeps :
      (x.slot.generation == g) ≡ false
      → remove_first g (x ∷ candidates) ≡ x ∷ remove_first g candidates
  unfolding remove_first
  remove_first-keeps other = if_false _ _ _ other

-- Taking one candidate out first changes nothing where its whole generation goes.
pub retain_other-remove_first :
    (g : ℕ) (candidates : List OcbRootCandidateV2)
    → retain_other g (remove_first g candidates) ≡ retain_other g candidates
unfolding retain_other remove_first
retain_other-remove_first g [] = refl
retain_other-remove_first g (x ∷ candidates) = elim (Bool-cases (x.slot.generation == g)) [
  | inl same ↦
      rw (remove_first-same g x candidates same) (sym (retain_other-same g x candidates same))
  | inr other ↦ rw (remove_first-keeps g x candidates other) (
      rw (retain_other-keeps g x (remove_first g candidates) other) (
        rw (retain_other-keeps g x candidates other)
          (rw (retain_other-remove_first g candidates) refl)))
]

pub retain_other-Memᴰ :
    (g : ℕ) (candidates : List OcbRootCandidateV2) (c : OcbRootCandidateV2)
    → Memᴰ c (retain_other g candidates)
    → Memᴰ c candidates × ((c.slot.generation == g) ≡ false)
unfolding retain_other
retain_other-Memᴰ g [] c m = absurd (Memᴰ.not-nil m)
retain_other-Memᴰ g (x ∷ candidates) c m = elim (Bool-cases (x.slot.generation == g)) [
  | inl same ↦
      let (member, other) =
        retain_other-Memᴰ g candidates c (rw (retain_other-same g x candidates same) at m) in
      (Memᴰ.tail member, other)
  | inr other ↦ elim (Memᴰ.cases_cons (rw (retain_other-keeps g x candidates other) at m)) [
    | inl e ↦ (Memᴰ.head e, rw e other)
    | inr rest ↦
        let (member, differs) = retain_other-Memᴰ g candidates c rest in (Memᴰ.tail member, differs)
  ]
]

-- A candidate of another generation stays.
pub Memᴰ-retain_other :
    (g : ℕ) (candidates : List OcbRootCandidateV2) (c : OcbRootCandidateV2)
    → Memᴰ c candidates
    → (c.slot.generation ≡ g) ⊎ Memᴰ c (retain_other g candidates)
Memᴰ-retain_other g [] c m = absurd (Memᴰ.not-nil m)
Memᴰ-retain_other g (x ∷ candidates) c m = elim (Bool-cases (x.slot.generation == g)) [
  | inl same ↦ rw (retain_other-same g x candidates same) (elim (Memᴰ.cases_cons m) [
    | inl e ↦ inl (rw e (==→eq _ _ same))
    | inr rest ↦ Memᴰ-retain_other g candidates c rest
  ])
  | inr other ↦ rw (retain_other-keeps g x candidates other) (elim (Memᴰ.cases_cons m) [
    | inl e ↦ inr (Memᴰ.head e)
    | inr rest ↦ elim (Memᴰ-retain_other g candidates c rest) [
      | inl equal ↦ inl equal
      | inr kept ↦ inr (Memᴰ.tail kept)
    ]
  ])
]

retain_other-le :
    (g : ℕ) (candidates : List OcbRootCandidateV2)
    → length (retain_other g candidates) ≤ length candidates
unfolding retain_other
retain_other-le g [] = omega arith
retain_other-le g (x ∷ candidates) = elim (Bool-cases (x.slot.generation == g)) [
  | inl same ↦
      rw (retain_other-same g x candidates same) (omega (arith, retain_other-le g candidates))
  | inr other ↦
      rw (retain_other-keeps g x candidates other) (omega (arith, retain_other-le g candidates))
]

-- A removal of a generation that is there makes the list shorter.
pub retain_other-lt :
    (g : ℕ) (candidates : List OcbRootCandidateV2) (c : OcbRootCandidateV2)
    → Memᴰ c candidates
    → c.slot.generation ≡ g
    → length (retain_other g candidates) < length candidates
retain_other-lt g [] c m e = absurd (Memᴰ.not-nil m)
retain_other-lt g (x ∷ candidates) c m e = elim (Bool-cases (x.slot.generation == g)) [
  | inl same ↦
      rw (retain_other-same g x candidates same) (omega (arith, retain_other-le g candidates))
  | inr other ↦ elim (Memᴰ.cases_cons m) [
    | inl equal ↦ absurd (cc (other, eq→== x.slot.generation g (rw (← equal) e)))
    | inr rest ↦
        rw (retain_other-keeps g x candidates other)
          (omega (arith, retain_other-lt g candidates c rest e))
  ]
]

-- Two candidates of one generation with different roots.
unfoldable pub Conflicted : List OcbRootCandidateV2 → ℕ → Type 0
Conflicted candidates g =
    (a : OcbRootCandidateV2) × (b : OcbRootCandidateV2) × Memᴰ a candidates
    × Memᴰ b candidates
    × (a.slot.generation ≡ g)
    × (b.slot.generation ≡ g)
    × (BodyRef.eq a.slot.root_ref b.slot.root_ref ≡ false)

pub conflicting-Memᴰ :
    (g : ℕ) (first : OcbBodyRefV2) (candidates : List OcbRootCandidateV2)
    → conflicting g first candidates ≡ true
    → (a : OcbRootCandidateV2) × Memᴰ a candidates
      × (a.slot.generation ≡ g)
      × (BodyRef.eq a.slot.root_ref first ≡ false)
unfolding conflicting
conflicting-Memᴰ g first [] h = absurd (cc h)
conflicting-Memᴰ g first (x ∷ candidates) h =
    elim (or-eq_true (x.slot.generation == g && not (BodyRef.eq x.slot.root_ref first)) _ h) [
      | inl here ↦
          let (same, differs) = and-eq_true (x.slot.generation == g) _ here in
          (x, Memᴰ.head refl, ==→eq _ _ same, not-true _ differs)
      | inr later ↦
          let (a, member, generation, differs) = conflicting-Memᴰ g first candidates later in
          (a, Memᴰ.tail member, generation, differs)
    ]

pub conflicting_none :
    (g : ℕ) (first : OcbBodyRefV2) (candidates : List OcbRootCandidateV2)
    → conflicting g first candidates ≡ false
    → (d : OcbRootCandidateV2) → Memᴰ d candidates
    → d.slot.generation ≡ g
    → BodyRef.eq d.slot.root_ref first ≡ true
unfolding conflicting
conflicting_none g first [] h d m e = absurd (Memᴰ.not-nil m)
conflicting_none g first (x ∷ candidates) h d m e =
    let (here, later) =
      or-eq_false (x.slot.generation == g && not (BodyRef.eq x.slot.root_ref first)) _ h in
    elim (Memᴰ.cases_cons m) [
      | inl same ↦ rw same (and_not-false _ _ here (eq→== _ _ (rw (← same) e)))
      | inr rest ↦ conflicting_none g first candidates later d rest e
    ]

-- The newest generation has a candidate.
newest_found_cons :
    (x : OcbRootCandidateV2) (candidates : List OcbRootCandidateV2) (found : Option ℕ)
    → max_generation candidates ≡ found
    → ((g : ℕ)
        → found ≡ some g
        → (c : OcbRootCandidateV2) × (find_generation g candidates ≡ some c))
    → (g : ℕ) → max_generation (x ∷ candidates) ≡ some g
    → (c : OcbRootCandidateV2) × (find_generation g (x ∷ candidates) ≡ some c)
unfolding max_generation find_generation
newest_found_cons x candidates none found rest g h =
    let e : x.slot.generation ≡ g = some-injective (rw found at h) in
    (x, if_true _ _ _ (eq→== _ _ e))
newest_found_cons x candidates (some newest) found rest g h =
    let e : max x.slot.generation newest ≡ g = some-injective (rw found at h) in
    elim (Bool-cases (x.slot.generation == g)) [
      | inl same ↦ (x, if_true _ _ _ same)
      | inr other ↦
          let older : newest ≡ g = max_other _ _ _ e other in
          let (c, there) = rest g (ap some older) in (c, if_false _ _ _ other ∙ there)
    ]

pub newest_found :
    (candidates : List OcbRootCandidateV2) (g : ℕ)
    → max_generation candidates ≡ some g
    → (c : OcbRootCandidateV2) × (find_generation g candidates ≡ some c)
unfolding max_generation
newest_found [] g h = absurd (cc h)
newest_found (x ∷ candidates) g h =
    newest_found_cons x candidates (max_generation candidates) refl (newest_found candidates) g h
