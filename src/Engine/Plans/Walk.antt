-- ===== src/Engine/Plans/Walk.antt =====
-- internal/engine/postgres.go: what the walk over a plan collects.
use queryforge.Prelude.{
  ℕ, suc, ◌≡◌, refl, sym, ap, ◌∙◌, inl, inr, Bool, true, false, ◌++◌, append-nil, append_assoc,
  Option, some, List, [], ◌∷◌, Bytes, codes, bytes_eq, map, keep, Bool-cases, if◌then◌else◌,
}
use queryforge.Prelude.Float.{FloatOps}
use queryforge.Engine.{Plan, Outcome, done, fault}
use queryforge.Engine.Plans.{
  Json, array, object, Items, nil, cons, Fields, end, entry, get, node_type, relation, is_seq_scan,
  Walked, visit, walk_plans, walk_value, walk_items, walk_child, walk_node,
}
use queryforge.Engine.Plans.Document.{plan_of, plan_node, nothing_walked, plan_document, parse_plan}

module _ {F : Type 0} where
  -- The nodes under "Plans", each in front of those under it.
  unfoldable mutual
    unfolding bytes_eq

    pub below : Fields F → List (Fields F)
    below end = []
    below (entry k v fs) = elim (bytes_eq k (codes "Plans")) [
      | true ↦ in_value v
      | false ↦ below fs
    ]

    pub in_value : Json F → List (Fields F)
    in_value (array xs) = in_items xs
    in_value v = []

    pub in_items : Items F → List (Fields F)
    in_items nil = []
    in_items (cons v xs) = in_child v ++ in_items xs

    pub in_child : Json F → List (Fields F)
    in_child (object fs) = fs ∷ below fs
    in_child v = []

  -- The nodes of a plan.
  abbrev pub nodes_of : Fields F → List (Fields F)
  nodes_of root = root ∷ below root

  abbrev pub types_of : List (Fields F) → List Bytes
  types_of ns = map node_type ns

  abbrev pub scans_of : List (Fields F) → List Bytes
  scans_of ns = map relation (keep is_seq_scan ns)

  scans_of-append : (ns ms : List (Fields F)) → scans_of (ns ++ ms) ≡ scans_of ns ++ scans_of ms
  scans_of-append [] ms = refl
  scans_of-append (n ∷ ns) ms = elim (Bool-cases (is_seq_scan n)) [
    | inl t ↦ rw (t, scans_of-append ns ms)
    | inr t ↦ rw (t, scans_of-append ns ms)
  ]

  types_of-append : (ns ms : List (Fields F)) → types_of (ns ++ ms) ≡ types_of ns ++ types_of ms
  types_of-append [] ms = refl
  types_of-append (n ∷ ns) ms = ap (λ xs. node_type n ∷ xs) (types_of-append ns ms)

done_injective : {A : Type 0} (x y : A) → ◌≡◌ {A = Outcome A} (done x) (done y) → y ≡ x
done_injective x y h = cc

scanned :
    {F : Type 0} (b : Bool) (fs : Fields F) (names : List Bytes)
    → (if b then names ++ relation fs ∷ [] else names)
      ≡ names ++ map relation (if b then fs ∷ [] else [])
scanned true fs names = refl
scanned false fs names = sym (append-nil names)

module _ {F : Type 0} (fl : FloatOps F) (fixed : ℕ → F → Bytes) (shown : Json F → Bytes) where
  -- What a walk over these nodes adds.
  abbrev Follows : List (Fields F) → Walked fl fixed shown → Walked fl fixed shown → Type 0
  Follows ns w w' =
      (w'.node_types ≡ w.node_types ++ types_of ns)
      × (w'.seq_scan_tables ≡ w.seq_scan_tables ++ scans_of ns)

  stays : (w : Walked fl fixed shown) → Follows [] w w
  stays w = (sym (append-nil w.node_types), sym (append-nil w.seq_scan_tables))

  goes_on :
      (ns ms : List (Fields F)) (u v w : Walked fl fixed shown)
      → Follows ns u v
      → Follows ms v w
      → Follows (ns ++ ms) u w
  goes_on ns ms u v w h k = (
    k.0
        ∙ (ap (λ x. x ++ types_of ms) h.0
            ∙ (append_assoc u.node_types (types_of ns) (types_of ms)
                ∙ ap (λ x. u.node_types ++ x) (sym (types_of-append ns ms)))),
    k.1
        ∙ (ap (λ x. x ++ scans_of ms) h.1
            ∙ (append_assoc u.seq_scan_tables (scans_of ns) (scans_of ms)
                ∙ ap (λ x. u.seq_scan_tables ++ x) (sym (scans_of-append ns ms)))),
  )

  visit-Follows :
      (d : ℕ) (fs : Fields F) (w : Walked fl fixed shown)
      → Follows (fs ∷ []) w (visit fl fixed shown d fs w)
  visit-Follows d fs w = (refl, scanned (is_seq_scan fs) fs w.seq_scan_tables)

  either :
      (b : Bool) (ns ms : List (Fields F)) (w x y : Walked fl fixed shown)
      → Follows ns w x
      → Follows ms w y
      → Follows (elim b [ true ↦ ns | false ↦ ms ]) w (elim b [ true ↦ x | false ↦ y ])
  either true ns ms w x y h k = h
  either false ns ms w x y h k = k

  mutual
    unfolding walk_plans below bytes_eq

    plans-Follows :
        (d : ℕ) (fs : Fields F) (w : Walked fl fixed shown)
        → Follows (below fs) w (walk_plans fl fixed shown d fs w)
    plans-Follows d end w = stays w
    plans-Follows d (entry k v fs) w =
        either (bytes_eq k (codes "Plans")) (in_value v) (below fs) w
          (walk_value fl fixed shown d v w) (walk_plans fl fixed shown d fs w) (value-Follows d v w)
          (plans-Follows d fs w)

    value-Follows :
        (d : ℕ) (v : Json F) (w : Walked fl fixed shown)
        → Follows (in_value v) w (walk_value fl fixed shown d v w)
    value-Follows d (array xs) w = items-Follows d xs w
    value-Follows d v w = stays w

    items-Follows :
        (d : ℕ) (xs : Items F) (w : Walked fl fixed shown)
        → Follows (in_items xs) w (walk_items fl fixed shown d xs w)
    items-Follows d nil w = stays w
    items-Follows d (cons v xs) w =
        let w' = walk_child fl fixed shown d v w in
        goes_on (in_child v) (in_items xs) w w' (walk_items fl fixed shown d xs w')
          (child-Follows d v w) (items-Follows d xs w')

    child-Follows :
        (d : ℕ) (v : Json F) (w : Walked fl fixed shown)
        → Follows (in_child v) w (walk_child fl fixed shown d v w)
    child-Follows d (object fs) w =
        let w' = visit fl fixed shown (suc d) fs w in
        goes_on (fs ∷ []) (below fs) w w' (walk_plans fl fixed shown (suc d) fs w')
          (visit-Follows (suc d) fs w) (plans-Follows (suc d) fs w')
    child-Follows d v w = stays w

  root-Follows :
      (fs : Fields F) (w : Walked fl fixed shown)
      → Follows (nodes_of fs) w (walk_node fl fixed shown 0 fs w)
  unfolding walk_node
  root-Follows fs w =
      let w' = visit fl fixed shown 0 fs w in
      goes_on (fs ∷ []) (below fs) w w' (walk_plans fl fixed shown 0 fs w') (visit-Follows 0 fs w)
        (plans-Follows 0 fs w')

  node-found :
      (raw : Bytes) (o : Option (Json F)) {p : Plan F}
      → plan_node fl fixed shown raw o ≡ done p
      → (root : Fields F) × (o ≡ some (object root)) × (p ≡ plan_of fl fixed shown raw root)
  node-found raw (some (object root)) h = (root, refl, done_injective _ _ h)
  node-found raw o h = absurd (cc)

  document-Collects :
      (raw : Bytes) (o : Outcome (List (Fields F))) {p : Plan F}
      → plan_document fl fixed shown raw o ≡ done p
      → (doc : Fields F) × (docs : List (Fields F)) × (root : Fields F) × (o ≡ done (doc ∷ docs))
        × (get (codes "Plan") doc ≡ some (object root))
        × (p ≡ plan_of fl fixed shown raw root)
  document-Collects raw (fault e) h = absurd (cc)
  document-Collects raw (done []) h = absurd (cc)
  document-Collects raw (done (doc ∷ docs)) {p} h =
      let (root, e, q) = node-found raw (get (codes "Plan") doc) {p = p} h in
      (doc, docs, root, refl, e, q)

  module _ (unmarshal : Bytes → Outcome (List (Fields F))) where
    -- A plan that parsePlan answers is that of the first document's node "Plan": its node types are
    -- those of the nodes under it, each node in front of the nodes under it, and its tables are those
    -- of the sequential scans among these nodes that name a relation, in the same order.
    pub parse_plan-Collects :
        (raw : Bytes) {p : Plan F}
        → parse_plan fl fixed shown unmarshal raw ≡ done p
        → (doc : Fields F) × (docs : List (Fields F)) × (root : Fields F) × (unmarshal raw
            ≡ done (doc ∷ docs))
          × (get (codes "Plan") doc ≡ some (object root))
          × (p.node_types ≡ types_of (nodes_of root))
          × (p.seq_scan_tables ≡ scans_of (nodes_of root))
    unfolding parse_plan
    parse_plan-Collects raw {p} h =
        let (doc, docs, root, e, k, q) = document-Collects raw (unmarshal raw) {p = p} h in
        let w = root-Follows root (nothing_walked fl fixed shown) in
        (
          doc,
          docs,
          root,
          e,
          k,
          ap (λ (x : Plan F). x.node_types) q ∙ w.0,
          ap (λ (x : Plan F). x.seq_scan_tables) q ∙ w.1,
        )
