-- ===== src/Xds/Cache.antt =====
-- The snapshot cache of go-control-plane (`cachev3.SnapshotCache`), a library that the program only
-- calls: its operations, what the program relies on of them, and a cache that meets it.
use flexds.Prelude.{◌≡◌, ◌≢◌, refl, Bool, true, Option, none, some, List}
use flexds.Results.{Result, ok, err}
use flexds.Strings.{Text, codes}
use flexds.Strings.Equality.{==_refl, ==-ne}
use flexds.Dict.{Dict, lookup, insert}
use flexds.Dict.Laws.{lookup-insert}
use flexds.Xds.Resources.{Resources, Snapshot}

-- An `error` of a library, by its message.
abbrev pub Error : Type 0
Error = Text

-- `accepts version resources`: cachev3.NewSnapshot returns no error. The state `S` of the cache is
-- passed on explicitly.
pub record SnapshotCache (S : Type 0) : Type 0 where
  pub accepts : Text → Resources → Bool
  pub set_snapshot : Text → Snapshot → S → S × Option Error
  pub get_snapshot : Text → S → Result Error Snapshot
  pub get_status_keys : S → List Text

-- A snapshot that is set without an error is the node's, and no other node's changes. The nodes
-- that the cache knows come from their streams: setting a snapshot does not change them.
pub record CacheLaws {S : Type 0} (cache : SnapshotCache S) : Type 0 where
  pub get-set_self :
      (node : Text) (snap : Snapshot) (s : S)
      → (cache.set_snapshot node snap s).1 ≡ none
      → cache.get_snapshot node (cache.set_snapshot node snap s).0 ≡ ok snap
  pub get-set_other :
      (node other : Text) (snap : Snapshot) (s : S)
      → node ≢ other
      → cache.get_snapshot other (cache.set_snapshot node snap s).0 ≡ cache.get_snapshot other s
  pub keys-set :
      (node : Text) (snap : Snapshot) (s : S)
      → cache.get_status_keys (cache.set_snapshot node snap s).0 ≡ cache.get_status_keys s

-- SetSnapshot and NewSnapshot do not fail.
pub record IsReliable {S : Type 0} (cache : SnapshotCache S) : Type 0 where
  pub sets : (node : Text) (snap : Snapshot) (s : S) → (cache.set_snapshot node snap s).1 ≡ none
  pub creates : (version : Text) (resources : Resources) → cache.accepts version resources ≡ true

-- Snapshots by node, and the nodes with an open stream.
pub record MemoryState : Type 0 where
  pub snapshots : Dict Snapshot
  pub streams : List Text

abbrev pub found : Option Snapshot → Result Error Snapshot
found none = err (codes "no snapshot found")
found (some snap) = ok snap

abbrev pub memory_cache : SnapshotCache MemoryState
memory_cache = record {
  accepts = λ version resources. true;
  set_snapshot = λ node snap s. (record s { snapshots = insert node snap s.snapshots }, none);
  get_snapshot = λ node s. found (lookup node s.snapshots);
  get_status_keys = λ s. s.streams;
}

pub memory_cache-CacheLaws : CacheLaws memory_cache
memory_cache-CacheLaws = record {
  get-set_self = λ node snap s h. simp (lookup-insert, ==_refl);
  get-set_other = λ node other snap s h. rw (lookup-insert, ==-ne node other h);
  keys-set = λ node snap s. refl;
}

pub memory_cache-IsReliable : IsReliable memory_cache
memory_cache-IsReliable = record { sets = λ node snap s. refl; creates = λ version resources. refl }
