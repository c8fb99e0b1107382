-- ===== src/Runtime/Graph/Labels.antt =====
-- The labels of `DependencyGraph` in src/runtime.rs against its edges.
use salsa.Base.{
  ℕ, ◌≡◌, ◌≢◌, refl, sym, ◌∙◌, subst, ap, ◌⊎◌, inl, inr, Option, none, some, List, [], ◌∷◌, ◌++◌,
  if_pos, if_neg, ℕ_discrete, arith,
}
use salsa.Key.{DatabaseKey, DatabaseKey-discrete}
use salsa.Runtime.Graph.{Graph, set_edge, set_label, insert_edge, remove_all, remove_edge}
use salsa.Runtime.Graph.Acyclic.{Ends, running, waiting, IsAcyclic}

abbrev pub Listed : ℕ → List ℕ → Type 0
Listed x [] = ⊥
Listed x (y ∷ ys) = (x ≡ y) ⊎ Listed x ys

abbrev pub IsDistinct : List ℕ → Type 0
IsDistinct [] = Unit {0}
IsDistinct (x ∷ xs) = (¬ Listed x xs) × IsDistinct xs

-- `owner` tells which runtime computes a query. A runtime is in a label exactly if it waits.
pub record IsLabelled (owner : DatabaseKey → ℕ) (g : Graph) : Type 0 where
  pub waits :
      (key : DatabaseKey) (from : ℕ) → Listed from (g.labels key) → g.edges from ≡ some (owner key)
  pub named :
      (from to : ℕ) → g.edges from ≡ some to → (key : DatabaseKey) × Listed from (g.labels key)
  pub distinct : (key : DatabaseKey) → IsDistinct (g.labels key)
  pub once :
      (key key' : DatabaseKey) (from : ℕ)
      → Listed from (g.labels key)
      → Listed from (g.labels key')
      → key ≡ key'

-- What `remove_all` leaves: no edge from the runtimes of the list, and the others as before.
pub record IsCleared (ids : List ℕ) (before after : ℕ → Option ℕ) : Type 0 where
  pub gone : (p : ℕ) → Listed p ids → after p ≡ none
  pub kept : (p : ℕ) → ¬ Listed p ids → after p ≡ before p

remove_all_lem :
    (ids : List ℕ) (to : ℕ) (edges : ℕ → Option ℕ)
    → IsDistinct ids
    → ((p : ℕ) → Listed p ids → edges p ≡ some to)
    → (after : ℕ → Option ℕ) × (remove_all ids to edges ≡ some after) × IsCleared ids edges after
unfolding remove_all
remove_all_lem [] to edges d h =
    (edges, refl, record { gone = λ p l. elim l [ ]; kept = λ p n. refl })
remove_all_lem (from ∷ ids) to edges d h =
    let others : (p : ℕ) → Listed p ids → set_edge edges from none p ≡ some to = λ p l.
      if_neg (ℕ_discrete p from) (λ e. d.0 (subst (λ t. Listed t ids) e l)) _ _ ∙ h p (inr l) in
    let (after, run, c) = remove_all_lem ids to (set_edge edges from none) d.1 others in
    (
      after,
      ground (arith, h from (inl refl)),
      record {
        gone = λ p l. elim l [
          | inl e ↦
              c.kept p (λ m. d.0 (subst (λ t. Listed t ids) e m)) ∙ if_pos (ℕ_discrete p from) e _ _
          | inr m ↦ c.gone p m
        ];
        kept = λ p n. c.kept p (λ l. n (inr l)) ∙ if_neg (ℕ_discrete p from) (λ e. n (inl e)) _ _;
      },
    )

Listed-cases : (x : ℕ) (xs : List ℕ) → Listed x xs ⊎ (¬ Listed x xs)
Listed-cases x [] = inr (λ l. l)
Listed-cases x (y ∷ ys) = elim (ℕ_discrete x y) [
  | yes e ↦ inl (inl e)
  | no n ↦ (elim (Listed-cases x ys) [
    | inl l ↦ inl (inr l)
    | inr m ↦ inr (λ l. elim l [ inl e ↦ n e | inr k ↦ m k ])
  ])
]

cleared-Ends :
    (ids : List ℕ) (before after : ℕ → Option ℕ)
    → IsCleared ids before after
    → (p : ℕ) → Ends before p
    → Ends after p
cleared-Ends ids before after c p (running e) = elim (Listed-cases p ids) [
  | inl l ↦ running (c.gone p l)
  | inr n ↦ running (c.kept p n ∙ e)
]
cleared-Ends ids before after c p (waiting q e rest) = elim (Listed-cases p ids) [
  | inl l ↦ running (c.gone p l)
  | inr n ↦ waiting q (c.kept p n ∙ e) (cleared-Ends ids before after c q rest)
]

-- A label of the graph after a change of one label, taken apart.
label_cases :
    (labels : DatabaseKey → List ℕ) (key : DatabaseKey) (ids : List ℕ) (k : DatabaseKey) (p : ℕ)
    → Listed p (set_label labels key ids k)
    → ((k ≡ key) × Listed p ids) ⊎ ((k ≢ key) × Listed p (labels k))
label_cases labels key ids k p l = elim (DatabaseKey-discrete k key) [
  | yes e ↦ inl (e, subst (Listed p) (if_pos (DatabaseKey-discrete k key) e _ _) l)
  | no n ↦ inr (n, subst (Listed p) (if_neg (DatabaseKey-discrete k key) n _ _) l)
]

IsDistinct-set_label :
    (labels : DatabaseKey → List ℕ) (key : DatabaseKey) (ids : List ℕ)
    → IsDistinct ids
    → ((k : DatabaseKey) → IsDistinct (labels k))
    → (k : DatabaseKey) → IsDistinct (set_label labels key ids k)
IsDistinct-set_label labels key ids d h k = elim (DatabaseKey-discrete k key) [
  | yes e ↦ subst IsDistinct (sym (if_pos (DatabaseKey-discrete k key) e _ _)) d
  | no n ↦ subst IsDistinct (sym (if_neg (DatabaseKey-discrete k key) n _ _)) (h k)
]

relabel :
    (labels : DatabaseKey → List ℕ) (key : DatabaseKey) (ids : List ℕ) (k : DatabaseKey) (p : ℕ)
    → (k ≡ key → Listed p ids)
    → Listed p (labels k)
    → Listed p (set_label labels key ids k)
relabel labels key ids k p h l = elim (DatabaseKey-discrete k key) [
  | yes e ↦ subst (Listed p) (sym (if_pos (DatabaseKey-discrete k key) e _ _)) (h e)
  | no n ↦ subst (Listed p) (sym (if_neg (DatabaseKey-discrete k key) n _ _)) l
]

Listed-append : (p from : ℕ) (ids : List ℕ) → Listed p ids → Listed p (ids ++ from ∷ [])
Listed-append p from [] l = elim l [ ]
Listed-append p from (x ∷ xs) (inl e) = inl e
Listed-append p from (x ∷ xs) (inr l) = inr (Listed-append p from xs l)

Listed-append_last : (from : ℕ) (ids : List ℕ) → Listed from (ids ++ from ∷ [])
Listed-append_last from [] = inl refl
Listed-append_last from (x ∷ xs) = inr (Listed-append_last from xs)

module _ (owner : DatabaseKey → ℕ) (g : Graph) (v : IsLabelled owner g) (key : DatabaseKey) where
  cleared-IsLabelled :
      (after : ℕ → Option ℕ)
      → IsCleared (g.labels key) g.edges after
      → IsLabelled owner (record { edges = after; labels = set_label g.labels key [] })
  cleared-IsLabelled after c = record {
    waits = λ k p l. elim (label_cases g.labels key [] k p l) [
      | inl (e, none') ↦ elim none' [ ]
      | inr (n, m) ↦ c.kept p (λ o. n (v.once k key p m o)) ∙ v.waits k p m
    ];
    named = λ p to e.
        let waiting_for : g.edges p ≡ some to = sym (c.kept p (λ l. cc (c.gone p l, e))) ∙ e in
        let (k, l) = v.named p to waiting_for in
        (
          k,
          relabel g.labels key [] k p
              (λ same. absurd (cc (c.gone p (subst (λ t. Listed p (g.labels t)) same l), e))) l,
        );
    distinct = IsDistinct-set_label g.labels key [] tt v.distinct;
    once = λ k k' p l l'. elim (label_cases g.labels key [] k p l) [
      | inl (e, none') ↦ elim none' [ ]
      | inr (n, m) ↦ (elim (label_cases g.labels key [] k' p l') [
        | inl (e', none'') ↦ elim none'' [ ]
        | inr (n', m') ↦ v.once k k' p m m'
      ])
    ];
  }

  -- When the runtime that computes a query ends it, `remove_edge` does not panic. It takes the
  -- edges of exactly the runtimes that waited for the query, and keeps the labels right and the
  -- graph acyclic.
  pub remove_edge_lem :
      IsAcyclic g
      → (g' : Graph) × (remove_edge g key (owner key) ≡ some g')
        × IsCleared (g.labels key) g.edges g'.edges
        × IsLabelled owner g'
        × IsAcyclic g'
  unfolding remove_edge
  remove_edge_lem acyclic =
      let (after, run, c) =
        remove_all_lem (g.labels key) (owner key) g.edges (v.distinct key) (v.waits key) in
      (
        record { edges = after; labels = set_label g.labels key [] },
        rw (run, remove_edge),
        c,
        cleared-IsLabelled after c,
        λ p. cleared-Ends (g.labels key) g.edges after c p (acyclic p),
      )

  Listed-snoc :
      (p from : ℕ) (ids : List ℕ) → Listed p (ids ++ from ∷ []) → Listed p ids ⊎ (p ≡ from)
  Listed-snoc p from [] (inl e) = inr e
  Listed-snoc p from [] (inr l) = elim l [ ]
  Listed-snoc p from (x ∷ xs) (inl e) = inl (inl e)
  Listed-snoc p from (x ∷ xs) (inr l) = elim (Listed-snoc p from xs l) [
    | inl m ↦ inl (inr m)
    | inr e ↦ inr e
  ]

  IsDistinct-snoc :
      (from : ℕ) (ids : List ℕ) → ¬ Listed from ids → IsDistinct ids → IsDistinct (ids ++ from ∷ [])
  IsDistinct-snoc from [] n d = (λ l. l, tt)
  IsDistinct-snoc from (x ∷ xs) n d = (
    λ l. elim (Listed-snoc x from xs l) [ inl m ↦ d.0 m | inr e ↦ n (inl (sym e)) ],
    IsDistinct-snoc from xs (λ l. n (inr l)) d.1,
  )

  -- A runtime that begins to wait for the owner of a query keeps the labels right.
  pub insert_edge-IsLabelled :
      (from : ℕ) → g.edges from ≡ none → IsLabelled owner (insert_edge g from key (owner key))
  unfolding insert_edge
  insert_edge-IsLabelled from free = record {
    waits = λ k p l. elim (label_cases g.labels key (g.labels key ++ from ∷ []) k p l) [
      | inl (e, m) ↦ (elim (Listed-snoc p from (g.labels key) m) [
        | inl o ↦
            if_neg (ℕ_discrete p from) (fresh key p o) _ _
            ∙ v.waits key p o
            ∙ ap (λ t. some (owner t)) (sym e)
        | inr same ↦ if_pos (ℕ_discrete p from) same _ _ ∙ ap (λ t. some (owner t)) (sym e)
      ])
      | inr (n, m) ↦ if_neg (ℕ_discrete p from) (fresh k p m) _ _ ∙ v.waits k p m
    ];
    named = λ p to e. elim (ℕ_discrete p from) [
      | yes same ↦ (
        key,
        subst (Listed p) (sym (if_pos (DatabaseKey-discrete key key) refl _ _)) (
            subst (λ t. Listed t (g.labels key ++ from ∷ [])) (sym same)
              (Listed-append_last from (g.labels key))),
      )
      | no other ↦
          let (k, l) = v.named p to (sym (if_neg (ℕ_discrete p from) other _ _) ∙ e) in
          (
            k,
            relabel g.labels key (g.labels key ++ from ∷ []) k p
                (λ same.
                  Listed-append p from (g.labels key) (subst (λ t. Listed p (g.labels t)) same l))
                l,
          )
    ];
    distinct =
        IsDistinct-set_label g.labels key (g.labels key ++ from ∷ [])
          (IsDistinct-snoc from (g.labels key) (λ l. fresh key from l refl) (v.distinct key))
          v.distinct;
    once = λ k k' p l l'. elim (label_cases g.labels key (g.labels key ++ from ∷ []) k p l) [
      | inl (e, m) ↦ (elim (label_cases g.labels key (g.labels key ++ from ∷ []) k' p l') [
        | inl (e', m') ↦ e ∙ sym e'
        | inr (n', m') ↦ (elim (Listed-snoc p from (g.labels key) m) [
          | inl o ↦ e ∙ v.once key k' p o m'
          | inr same ↦ absurd (fresh k' p m' same)
        ])
      ])
      | inr (n, m) ↦ (elim (label_cases g.labels key (g.labels key ++ from ∷ []) k' p l') [
        | inl (e', m') ↦ (elim (Listed-snoc p from (g.labels key) m') [
          | inl o ↦ v.once k key p m o ∙ sym e'
          | inr same ↦ absurd (fresh k p m same)
        ])
        | inr (n', m') ↦ v.once k k' p m m'
      ])
    ];
  }
    where
      fresh : (k : DatabaseKey) (p : ℕ) → Listed p (g.labels k) → p ≢ from
      fresh k p l e = cc (v.waits k p l, ap g.edges e, free)
