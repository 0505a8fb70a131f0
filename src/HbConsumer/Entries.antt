-- ===== src/HbConsumer/Entries.antt =====
-- CO_HBconsumer.c: which entries of object 0x1016 are accepted, and what they configure.
use canopen_node.Driver.{ReturnError, error_no, error_illegal_argument, RxFilter}
use canopen_node.HbConsumer.{Node, Consumer}
use canopen_node.HbConsumer.Valid.{IsValid}
use canopen_node.HbConsumer.Config.{
  node_id_of, time_of, empty_node, node_at, configured, monitored_node_config, is_duplicate,
  init_entry, init_entries, init, find_node, get_idx_by_node_id,
}
use canopen_node.Prelude.{
  ℕ, zero, suc, ◌+◌, ◌<◌, ◌≤◌, ◌≡◌, ◌≢◌, refl, ◌∙◌, List, [], ◌∷◌, Bool, true, false, ◌&&◌, Option,
  none, some, leb, ◌==◌, ◌/=◌, get_or, arith, length, All, All-set, ◌⊎◌, inl, inr, Bool-cases, ap,
  if_intro,
}

-- Another entry of the object dictionary is in use for the same node.
abbrev pub Clashes : Consumer → ℕ → ℕ → ℕ → Type 0
Clashes c idx node_id j =
    let value = get_or c.hb_cons_time j 0 in
    (j ≢ idx) × (time_of value ≢ 0) × (node_id_of value ≡ node_id)

is_duplicate_none :
    (times : List ℕ) (idx node_id n i j : ℕ)
    → is_duplicate times idx node_id n i ≡ false
    → i ≤ j
    → j < i + n
    → j ≢ idx
    → time_of (get_or times j 0) ≢ 0
    → node_id_of (get_or times j 0) ≢ node_id
unfolding is_duplicate
is_duplicate_none times idx node_id zero i j h a b = absurd (omega arith)
is_duplicate_none times idx node_id (suc n) i j h a b = elim (Bool-cases (i == j)) [
  | inl e ↦ λ k t q. ground (arith, ap (λ m. get_or times m 0) {x = i} {y = j})
  | inr e ↦
      is_duplicate_none times idx node_id n (i + 1) j (ground arith) (ground arith) (omega arith)
]

is_duplicate_some :
    (times : List ℕ) (idx node_id n i : ℕ)
    → is_duplicate times idx node_id n i ≡ true
    → (j : ℕ) × (j < i + n)
      × (j ≢ idx)
      × (time_of (get_or times j 0) ≢ 0)
      × (node_id_of (get_or times j 0) ≡ node_id)
unfolding is_duplicate
is_duplicate_some times idx node_id zero i h = absurd (cc)
is_duplicate_some times idx node_id (suc n) i h =
    elim (Bool-cases (is_duplicate times idx node_id n (i + 1))) [
      | inl e ↦
          let (j, a, b, t, q) = is_duplicate_some times idx node_id n (i + 1) e in
          (j, omega arith, b, t, q)
      | inr e ↦ (i, omega arith, ground arith, ground arith, ground arith)
    ]

unused_cases :
    (node_id time : ℕ) {P : Type 0}
    → ((time /= 0) && (node_id /= 0)) ≡ false
    → (node_id ≡ 0) ⊎ ((time ≡ 0) ⊎ P)
unused_cases node_id time h = elim (Bool-cases (node_id == 0)) [
  | inl e ↦ inl (ground arith)
  | inr e ↦ inr (inl (ground arith))
]

-- An entry for a node with a time is refused exactly if another entry of the object dictionary has
-- a time for the same node; the consumer is then unchanged. Every other entry is accepted.
pub init_entry_refused :
    (c : Consumer) (idx node_id time : ℕ)
    → (((init_entry c idx node_id time).0 ≡ error_no)
        × ((node_id ≡ 0)
            ⊎ ((time ≡ 0)
                ⊎ ((j : ℕ) → j < c.number_of_monitored_nodes → ¬ Clashes c idx node_id j))))
      ⊎ ((init_entry c idx node_id time ≡ (error_illegal_argument, c, none))
          × (node_id ≢ 0)
          × (time ≢ 0)
          × ((j : ℕ) × (j < c.number_of_monitored_nodes) × Clashes c idx node_id j))
unfolding init_entry
init_entry_refused c idx node_id time = elim (Bool-cases ((time /= 0) && (node_id /= 0))) [
  | inl used ↦
      elim (Bool-cases (is_duplicate c.hb_cons_time idx node_id c.number_of_monitored_nodes 0)) [
        | inl e ↦
            let (j, a, b, t, q) =
              is_duplicate_some c.hb_cons_time idx node_id c.number_of_monitored_nodes 0 e in
            inr (ground arith, ground arith, ground arith, (j, omega arith, (b, t, q)))
        | inr e ↦ inl (
          ground arith,
          inr (
              inr (λ j l k.
                is_duplicate_none c.hb_cons_time idx node_id c.number_of_monitored_nodes 0 j e
                  (omega arith) (omega arith) k.0 k.1 k.2)),
        )
      ]
  | inr unused ↦ inl (ground arith, unused_cases node_id time unused)
]

-- The nodes stay well formed, and the number of entries the same.
pub init_entry-IsValid :
    (c : Consumer) (idx node_id time : ℕ)
    → All IsValid c.monitored_nodes
    → All IsValid (init_entry c idx node_id time).1.monitored_nodes
unfolding init_entry
init_entry-IsValid c idx node_id time v =
    if_intro {A = ReturnError × Consumer × Option RxFilter} (λ r. All IsValid r.1.monitored_nodes)
      ((time /= 0)
        && (node_id /= 0)
        && is_duplicate c.hb_cons_time idx node_id c.number_of_monitored_nodes 0)
      v configures
  where
    node : IsValid (configured (node_at c idx) node_id time)
    node = ground arith

    configures : All IsValid (monitored_node_config c idx node_id time).0.monitored_nodes
    configures =
        if_intro {A = Consumer × Option RxFilter} (λ r. All IsValid r.0.monitored_nodes)
          (leb c.number_of_monitored_nodes idx) v
          (All-set IsValid c.monitored_nodes idx (configured (node_at c idx) node_id time) v node)

init_entries-IsValid :
    (n i : ℕ) (c : Consumer)
    → All IsValid c.monitored_nodes
    → All IsValid (init_entries n i c).monitored_nodes
unfolding init_entries
init_entries-IsValid zero i c v = v
init_entries-IsValid (suc n) i c v =
    let value = get_or c.hb_cons_time i 0 in
    init_entries-IsValid n (i + 1) (init_entry c i (node_id_of value) (time_of value)).1
      (init_entry-IsValid c i (node_id_of value) (time_of value) v)

-- `CO_HBconsumer_init` leaves every node well formed, if the array of nodes that it is given is.
pub init-IsValid :
    (pointers : Bool) (c0 : Consumer) (times : List ℕ) (nodes : List Node) (number rx_idx : ℕ)
    → All IsValid c0.monitored_nodes
    → All IsValid nodes
    → All IsValid (init pointers c0 times nodes number rx_idx).1.monitored_nodes
unfolding init
init-IsValid true c0 times nodes number rx_idx v w = init_entries-IsValid number 0 _ w
init-IsValid false c0 times nodes number rx_idx v w = v

-- The index that is found for a node id is that of the first node with this id, and none is found
-- exactly if no node has it.
find_node_lem :
    (nodes : List Node) (i node_id : ℕ)
    → ((find_node nodes i node_id ≡ none)
        × ((j : ℕ) → j < length nodes → (get_or nodes j empty_node).node_id ≢ node_id))
      ⊎ ((j : ℕ) × (find_node nodes i node_id ≡ some (i + j))
          × (j < length nodes)
          × ((get_or nodes j empty_node).node_id ≡ node_id)
          × ((k : ℕ) → k < j → (get_or nodes k empty_node).node_id ≢ node_id))
unfolding find_node
find_node_lem [] i node_id = inl (refl, λ j h. absurd (omega arith))
find_node_lem (node ∷ nodes) i node_id = elim (Bool-cases (node.node_id == node_id)) [
  | inl e ↦ inr (0, ground arith, omega arith, ground arith, λ k h. absurd (omega arith))
  | inr e ↦ elim (find_node_lem nodes (i + 1) node_id) [
    | inl (a, b) ↦ inl (ground arith, before (length nodes) e b)
    | inr (j, a, b, q, f) ↦ inr (suc j, ground arith, omega arith, q, before j e f)
  ]
]
  where
    before :
        (n : ℕ)
        → (node.node_id == node_id) ≡ false
        → ((k : ℕ) → k < n → (get_or nodes k empty_node).node_id ≢ node_id)
        → (k : ℕ) → k < suc n
        → (get_or (node ∷ nodes) k empty_node).node_id ≢ node_id
    before n e f zero h = ground arith
    before n e f (suc k) h = f k (omega arith)

-- `CO_HBconsumer_getIdxByNodeId` gives the index of the first node with the node id, and -1 exactly
-- if no node has it.
pub get_idx_by_node_id_lem :
    (c : Consumer) (node_id : ℕ)
    → ((get_idx_by_node_id c node_id ≡ none)
        × ((j : ℕ) → j < length c.monitored_nodes → (node_at c j).node_id ≢ node_id))
      ⊎ ((j : ℕ) × (get_idx_by_node_id c node_id ≡ some j)
          × (j < length c.monitored_nodes)
          × ((node_at c j).node_id ≡ node_id)
          × ((k : ℕ) → k < j → (node_at c k).node_id ≢ node_id))
unfolding get_idx_by_node_id
get_idx_by_node_id_lem c node_id = elim (find_node_lem c.monitored_nodes 0 node_id) [
  | inl (a, b) ↦ inl (a, b)
  | inr (j, a, b, q, f) ↦ inr (j, a ∙ ap some (omega arith), b, q, f)
]
