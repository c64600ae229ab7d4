-- ===== src/Routing/Ranking.antt =====
-- The order of the ranking: no candidate is ranked behind one that it comes before.
use orvexa.Base.{◌∷◌, List, All, ◌≡◌, inl, Bool-cases, true, false, ◌⊎◌, inr, arith, All-map, In}
use orvexa.Routing.{insert_ranked, rank, Candidate, ranks_before}
use mathlib.Core.List.{[]}

-- No candidate of the list comes before `c`.
abbrev pub IsFirst : Candidate → List Candidate → Type 0
IsFirst c = All (λ d. ranks_before d c ≡ false)

abbrev pub IsRanked : List Candidate → Type 0
IsRanked [] = Unit
IsRanked (c ∷ rest) = IsFirst c rest × IsRanked rest

ranks_before_trans :
    (c d e : Candidate)
    → ranks_before c d ≡ false
    → ranks_before d e ≡ false
    → ranks_before c e ≡ false
ranks_before_trans c d e h k = ground arith

ranks_before_asym : (c d : Candidate) → ranks_before c d ≡ true → ranks_before d c ≡ false
ranks_before_asym c d h = ground arith

IsFirst-insert_ranked :
    (d c : Candidate) (rest : List Candidate)
    → ranks_before c d ≡ false
    → IsFirst d rest
    → IsFirst d (insert_ranked c rest)
unfolding insert_ranked
IsFirst-insert_ranked d c [] h k = (h, tt)
IsFirst-insert_ranked d c (e ∷ rest) h k = elim (Bool-cases (ranks_before e c)) [
  | inl on ↦ rw on (k.0, IsFirst-insert_ranked d c rest h k.1)
  | inr here ↦ rw here (h, (k.0, k.1))
]

insert_ranked-IsRanked :
    (c : Candidate) (rest : List Candidate) → IsRanked rest → IsRanked (insert_ranked c rest)
unfolding insert_ranked
insert_ranked-IsRanked c [] h = (tt, tt)
insert_ranked-IsRanked c (d ∷ rest) h = elim (Bool-cases (ranks_before d c)) [
  | inl on ↦ rw on (
    IsFirst-insert_ranked d c rest (ranks_before_asym d c on) h.0,
    insert_ranked-IsRanked c rest h.1,
  )
  | inr here ↦
      rw here ((here, All-map _ _ (λ e k. ranks_before_trans e d c k here) rest h.0), (h.0, h.1))
]

pub rank-IsRanked : (cs : List Candidate) → IsRanked (rank cs)
unfolding rank
rank-IsRanked [] = tt
rank-IsRanked (c ∷ rest) = insert_ranked-IsRanked c (rank rest) (rank-IsRanked rest)

-- The ranking holds what the list holds.
All-insert_ranked {κ} :
    (P : Candidate → Type κ) (c : Candidate) (rest : List Candidate)
    → All P (insert_ranked c rest)
    → P c × All P rest
unfolding insert_ranked
All-insert_ranked P c [] h = (h.0, tt)
All-insert_ranked P c (d ∷ rest) h = elim (Bool-cases (ranks_before d c)) [
  | inl on ↦ let (k, ks) = rw on at h in let (p, ps) = All-insert_ranked P c rest ks in (p, (k, ps))
  | inr here ↦ rw here at h
]

pub All-rank {κ} : (P : Candidate → Type κ) (cs : List Candidate) → All P (rank cs) → All P cs
unfolding rank
All-rank P [] h = tt
All-rank P (c ∷ rest) h =
    let (p, ps) = All-insert_ranked P c (rank rest) h in (p, All-rank P rest ps)

In-insert_ranked :
    (b c : Candidate) (rest : List Candidate) → In b (insert_ranked c rest) → (b ≡ c) ⊎ In b rest
unfolding insert_ranked
In-insert_ranked b c [] h = h
In-insert_ranked b c (d ∷ rest) h = elim (Bool-cases (ranks_before d c)) [
  | inl on ↦ elim (rw on at h) [
    | inl is_d ↦ inr (inl is_d)
    | inr k ↦ elim (In-insert_ranked b c rest k) [ inl e ↦ inl e | inr m ↦ inr (inr m) ]
  ]
  | inr here ↦ rw here at h
]

pub In-rank : (b : Candidate) (cs : List Candidate) → In b (rank cs) → In b cs
unfolding rank
In-rank b [] h = h
In-rank b (c ∷ rest) h = elim (In-insert_ranked b c (rank rest) h) [
  | inl e ↦ inl e
  | inr m ↦ inr (In-rank b rest m)
]
