-- ===== src/Agents/Queues.antt =====
-- What Create of internal/queues/service.go commits, and that its skills are a set.
use orvexa.Base.{
  ◌∷◌, ℕ, List, String, All, ◌≡◌, Bool-cases, In, ◌++◌, true, any, str_eq, Bool, inl, ◌⊎◌, sym,
  false, append-nil, inr, subst, All-map, ◌||◌, arith, refl, ◌∙◌, append_assoc,
}
use orvexa.Agents.{
  Store, Queue, QueueInput, create_queue, queue_of, insert_needs, dedupe, is_between, same_queue,
}
use text.Mathlib.TextPositions.{eq_refl}
use orvexa.Database.{World}
use mathlib.Core.List.{[]}
use orvexa.Database.Rules.{
  Post, pure-Post, guard_then, fresh_then, Post-map, begin_then, bind-Post, commit_then,
}
use orvexa.Database.Inserting.{tx_insert_then}

-- No text stands twice.
abbrev pub IsOnce : List String → Type 0
IsOnce [] = Unit
IsOnce (s ∷ ss) = All (λ j. str_eq j s ≡ false) ss × IsOnce ss

unseen : (seen xs : List String) → All (λ j. any (str_eq j) seen ≡ false) (dedupe seen xs)
unfolding dedupe
unseen seen [] = tt
unseen seen (s ∷ xs) = elim (Bool-cases (any (str_eq s) seen)) [
  | inl again ↦ rw again (unseen seen xs)
  | inr new ↦
      rw new
        (new, All-map _ _ (λ j h. ground (arith, h)) (dedupe (s ∷ seen) xs) (unseen (s ∷ seen) xs))
]

dedupe-IsOnce : (seen xs : List String) → IsOnce (dedupe seen xs)
unfolding dedupe
dedupe-IsOnce seen [] = tt
dedupe-IsOnce seen (s ∷ xs) = elim (Bool-cases (any (str_eq s) seen)) [
  | inl again ↦ rw again (dedupe-IsOnce seen xs)
  | inr new ↦ rw new (
    All-map _ _ (λ j h. ground (arith, h)) (dedupe (s ∷ seen) xs) (unseen (s ∷ seen) xs),
    dedupe-IsOnce (s ∷ seen) xs,
  )
]

kept :
    (seen xs : List String) (s : String)
    → In s xs
    → (any (str_eq s) seen ≡ true) ⊎ (any (str_eq s) (dedupe seen xs) ≡ true)
unfolding dedupe
kept seen [] s m = absurd m
kept seen (x ∷ xs) s (inl same) = elim (Bool-cases (any (str_eq x) seen)) [
  | inl again ↦ inl (subst (λ y. any (str_eq y) seen ≡ true) (sym same) again)
  | inr new ↦ inr (
      rw new (
        subst (λ y. (str_eq y x || any (str_eq y) (dedupe (x ∷ seen) xs)) ≡ true) (sym same)
          (rw (eq_refl x) refl)))
]
kept seen (x ∷ xs) s (inr later) = elim (Bool-cases (any (str_eq x) seen)) [
  | inl again ↦ rw again (kept seen xs s later)
  | inr new ↦ rw new (elim (kept (x ∷ seen) xs s later) [
    | inl early ↦ elim (Bool-cases (str_eq s x)) [
      | inl same ↦ inr (rw same refl)
      | inr other ↦ inl (rw other at early)
    ]
    | inr found ↦ inr (ground (arith, found))
  ])
]

abbrev pub need_rows : ℕ → List String → List (ℕ × String)
need_rows id [] = []
need_rows id (k ∷ ks) = (id, k) ∷ need_rows id ks

record Needed (id : ℕ) (ks : List String) (w v : World Store) : Type 0 where
  pub db : v.db ≡ w.db
  pub agents : v.tx.agents ≡ w.tx.agents
  pub queues : v.tx.queues ≡ w.tx.queues
  pub queue_skills : v.tx.queue_skills ≡ w.tx.queue_skills ++ need_rows id ks
  pub agent_skills : v.tx.agent_skills ≡ w.tx.agent_skills
  pub named : All (λ k. str_eq k "" ≡ false) ks

insert_needs-Post :
    (id : ℕ) (ks : List String) (w : World Store)
    → Post (λ _ v. Needed id ks w v) (λ e v. v.db ≡ w.db) (insert_needs id ks w)
unfolding insert_needs
insert_needs-Post id [] w = pure-Post _ _ (record {
  db = refl;
  agents = refl;
  queues = refl;
  queue_skills = sym (append-nil w.tx.queue_skills);
  agent_skills = refl;
  named = tt;
})
insert_needs-Post id (k ∷ ks) w = guard_then _ _ _ _ refl λ named.
    tx_insert_then _ _ _ _ _ _ refl (λ taken. refl)
      λ free.
        Post-map
          (λ _ v t. record {
            db = t.db;
            agents = t.agents;
            queues = t.queues;
            queue_skills =
                t.queue_skills ∙ append_assoc w.tx.queue_skills ((id, k) ∷ []) (need_rows id ks);
            agent_skills = t.agent_skills;
            named = (ground (arith, named), t.named);
          })
          (λ e v same. same) (insert_needs-Post id ks _)

pub record CreatesQueue (tenant : ℕ) (input : QueueInput) (w : World Store) (q : Queue) (s : Store)
    : Type 0 where
  pub queue : q ≡ queue_of tenant w.next_id input
  pub priority : is_between 1 10 q.priority ≡ true
  pub sla_seconds : is_between 5 3600 q.sla_seconds ≡ true
  pub once : IsOnce q.skills
  pub named : All (λ k. str_eq k "" ≡ false) q.skills
  pub all : (k : String) → In k input.skills → any (str_eq k) q.skills ≡ true
  pub is_new : any (same_queue q) w.db.queues ≡ false
  pub queues : s.queues ≡ w.db.queues ++ (record q { skills = [] }) ∷ []
  pub queue_skills : s.queue_skills ≡ w.db.queue_skills ++ need_rows w.next_id q.skills
  pub agents : (s.agents ≡ w.db.agents) × (s.agent_skills ≡ w.db.agent_skills)

-- A queue is created with a priority from 1 to 10 and 5 to 3600 seconds, which are 5 and 60 where
-- the request says 0, and its name is new in the tenant; each listed skill has a name and is
-- committed with the queue once. Any error has committed nothing.
pub create_queue-Post :
    (tenant : ℕ) (input : QueueInput) (w : World Store)
    → Post
        (λ q v. CreatesQueue tenant input w q v.db)
        (λ e v. v.db ≡ w.db)
        (create_queue tenant input w)
unfolding create_queue queue_of
create_queue-Post tenant input w = guard_then _ _ _ _ refl λ _. guard_then _ _ _ _ refl λ priority.
    guard_then _ _ _ _ refl λ sla. fresh_then _ _ (
      begin_then _ _ _ refl (
        tx_insert_then _ _ _ _ _ _ refl (λ taken. refl)
          λ is_new. bind-Post _ _ _ (
            Post-map
              (λ _ v t. commit_then _ _ _ t.db (
                pure-Post _ _ (record {
                  queue = refl;
                  priority = priority;
                  sla_seconds = sla;
                  once = dedupe-IsOnce [] input.skills;
                  named = t.named;
                  all = λ k m. found (kept [] input.skills k m);
                  is_new = is_new;
                  queues = t.queues;
                  queue_skills = t.queue_skills;
                  agents = (t.agents, t.agent_skills);
                })))
              (λ e v same. same) (insert_needs-Post w.next_id (dedupe [] input.skills) _))))
  where
    found : {b : Bool} → (false ≡ true) ⊎ (b ≡ true) → b ≡ true
    found (inl never) = cc
    found (inr here) = here
