-- ===== src/Xds/SnapshotManager/Distribute.antt =====
-- What the loop that sets a snapshot for every node leaves in the cache.
use mathlib.Core.List.{Memᴰ}
use flexds.Prelude.{◌≡◌, ◌≢◌, ◌⊎◌, ◌∙◌, refl, inl, inr, none, List, [], ◌∷◌, All}
use flexds.Results.{ok}
use flexds.Strings.{Text}
use flexds.Strings.Equality.{Text-cases, ==_iff}
use flexds.Xds.Resources.{Snapshot}
use flexds.Xds.Cache.{SnapshotCache, CacheLaws, IsReliable}
use flexds.Xds.SnapshotManager.{reference_key, set_nodes, distribute}

module _ {S : Type 0} (cache : SnapshotCache S) where
  -- The nodes that a push reaches: the reference, and the nodes that the cache knows then.
  abbrev pub IsTarget : Snapshot → S → Text → Type 0
  IsTarget snap s node =
      (node ≡ reference_key)
      ⊎ Memᴰ node (cache.get_status_keys (cache.set_snapshot reference_key snap s).0)

module _ {S : Type 0} (cache : SnapshotCache S) (laws : CacheLaws cache) where
  open cache use {set_snapshot, get_snapshot, get_status_keys}

  -- Setting one node's snapshot keeps every node that holds it already.
  set_snapshot_keeps :
      (node other : Text) (snap : Snapshot) (s : S)
      → (set_snapshot other snap s).1 ≡ none
      → get_snapshot node s ≡ ok snap
      → get_snapshot node (set_snapshot other snap s).0 ≡ ok snap
  set_snapshot_keeps node other snap s no_error h = elim (Text-cases other node) [
    | inl e ↦ rw (← e) (laws.get-set_self other snap s no_error)
    | inr e ↦ laws.get-set_other other node snap s (λ p. cc ((==_iff other node).1 p, e)) ∙ h
  ]

  set_nodes_other :
      (snap : Snapshot) (node : Text) (nodes : List Text) (s : S)
      → All (λ n. n ≢ node) nodes
      → get_snapshot node (set_nodes cache snap nodes s) ≡ get_snapshot node s
  unfolding set_nodes
  set_nodes_other snap node [] s h = refl
  set_nodes_other snap node (n ∷ nodes) s (ne, h) =
      set_nodes_other snap node nodes (set_snapshot n snap s).0 h
      ∙ laws.get-set_other n node snap s ne

  keys-set_nodes :
      (snap : Snapshot) (nodes : List Text) (s : S)
      → get_status_keys (set_nodes cache snap nodes s) ≡ get_status_keys s
  unfolding set_nodes
  keys-set_nodes snap [] s = refl
  keys-set_nodes snap (n ∷ nodes) s =
      keys-set_nodes snap nodes (set_snapshot n snap s).0 ∙ laws.keys-set n snap s

  -- A push does not change which nodes the cache knows.
  pub keys-distribute :
      (snap : Snapshot) (s : S) → get_status_keys (distribute cache snap s) ≡ get_status_keys s
  unfolding distribute
  keys-distribute snap s =
      keys-set_nodes snap (get_status_keys (set_snapshot reference_key snap s).0)
        (set_snapshot reference_key snap s).0
      ∙ laws.keys-set reference_key snap s

  module _ (reliable : IsReliable cache) where
    set_nodes_keeps :
        (snap : Snapshot) (node : Text) (nodes : List Text) (s : S)
        → get_snapshot node s ≡ ok snap
        → get_snapshot node (set_nodes cache snap nodes s) ≡ ok snap
    unfolding set_nodes
    set_nodes_keeps snap node [] s h = h
    set_nodes_keeps snap node (n ∷ nodes) s h =
        set_nodes_keeps snap node nodes (set_snapshot n snap s).0
          (set_snapshot_keeps node n snap s (reliable.sets n snap s) h)

    set_nodes_reaches :
        (snap : Snapshot) (node : Text) (nodes : List Text) (s : S)
        → Memᴰ node nodes
        → get_snapshot node (set_nodes cache snap nodes s) ≡ ok snap
    unfolding set_nodes
    set_nodes_reaches snap node [] s m = elim m [ ]
    set_nodes_reaches snap node (n ∷ nodes) s (Memᴰ.head e) =
        set_nodes_keeps snap node nodes (set_snapshot n snap s).0
          (rw e (laws.get-set_self n snap s (reliable.sets n snap s)))
    set_nodes_reaches snap node (n ∷ nodes) s (Memᴰ.tail m) =
        set_nodes_reaches snap node nodes (set_snapshot n snap s).0 m

    -- Every target of a push holds its snapshot afterwards.
    pub distribute_reaches :
        (snap : Snapshot) (node : Text) (s : S)
        → IsTarget cache snap s node
        → get_snapshot node (distribute cache snap s) ≡ ok snap
    unfolding distribute
    distribute_reaches snap node s (inl e) =
        set_nodes_keeps snap node (get_status_keys (set_snapshot reference_key snap s).0)
          (set_snapshot reference_key snap s).0
          (rw e (laws.get-set_self reference_key snap s (reliable.sets reference_key snap s)))
    distribute_reaches snap node s (inr m) = set_nodes_reaches snap node _ _ m

  -- No other node's snapshot changes, also where the cache reports errors.
  pub distribute_other :
      (snap : Snapshot) (node : Text) (s : S)
      → reference_key ≢ node
      → All (λ n. n ≢ node) (get_status_keys (set_snapshot reference_key snap s).0)
      → get_snapshot node (distribute cache snap s) ≡ get_snapshot node s
  unfolding distribute
  distribute_other snap node s ne h =
      set_nodes_other snap node _ _ h ∙ laws.get-set_other reference_key node snap s ne
