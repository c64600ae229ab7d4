-- ===== src/Routing/Skills.antt =====
-- When a candidate matches as many skills as the request lists.
-- No skill stands twice in the list.
use orvexa.Routing.{distinct, insert_text, sort_texts, matched, has, before_text}
use orvexa.Base.{
  Bool, List, String, All, length, select, ◌≡◌, ◌≤◌, ◌↔◌, true, suc, arith, ◌∷◌, false, Bool-cases,
  ◌∙◌, ap, inl, refl, inr,
}
use mathlib.Core.List.{[]}

abbrev pub IsDistinct : List String → Type 0
IsDistinct [] = Unit
IsDistinct (s ∷ rest) = (has s rest ≡ false) × IsDistinct rest

length-insert_text : (s : String) (ts : List String) → length (insert_text s ts) ≡ suc (length ts)
unfolding insert_text
length-insert_text s [] = refl
length-insert_text s (t ∷ ts) = elim (Bool-cases (before_text s t)) [
  | inl first ↦ rw first refl
  | inr later ↦ rw (later, length-insert_text s ts) refl
]

pub length-sort_texts : (ts : List String) → length (sort_texts ts) ≡ length ts
unfolding sort_texts
length-sort_texts [] = refl
length-sort_texts (t ∷ ts) = length-insert_text t (sort_texts ts) ∙ ap suc (length-sort_texts ts)

select_all {ℓ} :
    {A : Type ℓ} (p : A → Bool) (xs : List A) → All (λ x. p x ≡ true) xs → select p xs ≡ xs
select_all p [] h = refl
select_all p (x ∷ xs) h = rw h.0 (ap (◌∷◌ x) (select_all p xs h.1))

length-select-le {ℓ} : {A : Type ℓ} (p : A → Bool) (xs : List A) → length (select p xs) ≤ length xs
length-select-le p [] = omega arith
length-select-le p (x ∷ xs) = ground (arith, length-select-le p xs)

All_of_length {ℓ} :
    {A : Type ℓ} (p : A → Bool) (xs : List A)
    → length xs ≤ length (select p xs)
    → All (λ x. p x ≡ true) xs
All_of_length p [] h = tt
All_of_length p (x ∷ xs) h = elim (Bool-cases (p x)) [
  | inl yes_it ↦ (yes_it, All_of_length p xs (omega (arith, rw yes_it at h)))
  | inr no_it ↦ absurd (omega (arith, length-select-le p xs, rw no_it at h))
]

distinct_id : (ts : List String) → IsDistinct ts → distinct ts ≡ ts
unfolding distinct
distinct_id [] h = refl
distinct_id (t ∷ ts) h = rw (distinct_id ts h.1, h.0) refl

length-distinct-le : (ts : List String) → length (distinct ts) ≤ length ts
unfolding distinct
length-distinct-le [] = omega arith
length-distinct-le (t ∷ ts) = ground (arith, length-distinct-le ts)

IsDistinct-of_length : (ts : List String) → length ts ≤ length (distinct ts) → IsDistinct ts
unfolding distinct
IsDistinct-of_length [] h = tt
IsDistinct-of_length (t ∷ ts) h = elim (Bool-cases (has t (distinct ts))) [
  | inl twice ↦ absurd (omega (arith, length-distinct-le ts, rw twice at h))
  | inr once ↦
      let rest = IsDistinct-of_length ts (omega (arith, rw once at h)) in
      (rw (distinct_id ts rest) at once, rest)
]

-- A list of skills is matched in full exactly when each is had and none stands twice.
pub matched_iff :
    (required skills : List String)
    → (length required ≤ length (matched required skills))
      ↔ (All (λ s. has s skills ≡ true) required × IsDistinct required)
unfolding matched
matched_iff required skills = (full, back)
  where
    had : String → Bool
    had s = has s skills

    full :
        length required ≤ length (distinct (select had required))
        → All (λ s. has s skills ≡ true) required × IsDistinct required
    full h =
        let all =
          All_of_length had required (omega (arith, length-distinct-le (select had required))) in
        (all, IsDistinct-of_length required (rw (select_all had required all) at h))

    back :
        All (λ s. has s skills ≡ true) required × IsDistinct required
        → length required ≤ length (distinct (select had required))
    back (all, once) = rw (select_all had required all, distinct_id required once) (omega arith)
