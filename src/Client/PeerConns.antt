-- ===== src/Client/PeerConns.antt =====
-- client/connmanager.go: callers that want a connection to the same peer share one attempt. An attempt is an
-- object on a heap, and dialling is given by how it ends.
pub mod Shared
use gosoulseek.Prelude.{ℕ, suc, Bool, true, false, if◌then◌else◌}
use gosoulseek.Prelude.{Bytes, List, [], ◌∷◌, Option, none, some}
use gosoulseek.Client.KeyMap.{load, store, delete, nat_key, bytes_key}
use gosoulseek.Client.Errors.{TransferError}

-- What a caller gets: a connection or an error.
pub data Dialled : Type 0 where
  connected : ℕ → Dialled
  refused : TransferError → Dialled

-- `outcome` is `none` until it is set, and `ready` says that the channel is closed.
pub record PendingConn : Type 0 where
  pub username : Bytes
  pub outcome : Option Dialled
  pub ready : Bool

-- `conns` and `pending` are the maps of the manager.
pub record ConnPool : Type 0 where
  pub conns : List (Bytes × ℕ)
  pub pending : List (Bytes × ℕ)
  pub attempts : List (ℕ × PendingConn)
  pub next : ℕ

unfoldable pub new_pool : ConnPool
new_pool = record { conns = []; pending = []; attempts = []; next = 0 }

-- How a call goes on: with a connection that is cached, waiting for an attempt, or dialling for one.
pub data Asked : Type 0 where
  cached : ℕ → Asked
  awaits : ℕ → Asked
  dials : ℕ → Asked

-- `getOrCreateSlow` up to the attempt, one critical section.
unfoldable pub get_or_create_slow : Bytes → ConnPool → Asked × ConnPool
get_or_create_slow username s = elim (load username s.conns) [
  | some conn ↦ (cached conn, s)
  | none ↦ elim (load username s.pending) [
    | some a ↦ (awaits a, s)
    | none ↦
        let p : PendingConn = record { username = username; outcome = none; ready = false } in
        (
          dials s.next,
          record s {
            pending = store username s.next s.pending;
            attempts = store s.next p s.attempts;
            next = suc s.next;
          },
        )
  ]
]

-- `GetOrCreateEx`: the fast path looks at the cache as it was at first.
unfoldable pub get_or_create_ex : List (Bytes × ℕ) → Bytes → ConnPool → Asked × ConnPool
unfolding get_or_create_slow
get_or_create_ex seen username s = elim (load username seen) [
  | some conn ↦ (cached conn, s)
  | none ↦ get_or_create_slow username s
]

-- What is cached after an attempt.
unfoldable pub cache_dialled : Bytes → Dialled → List (Bytes × ℕ) → List (Bytes × ℕ)
cache_dialled username (connected conn) m = store username conn m
cache_dialled username (refused e) m = m

-- The attempt has ended: its outcome is stored, one critical section.
unfoldable pub store_outcome : ℕ → Dialled → ConnPool → ConnPool
unfolding cache_dialled
store_outcome a d s = elim (load a s.attempts) [
  | none ↦ s
  | some p ↦ record s {
    conns = cache_dialled p.username d s.conns;
    pending = delete p.username s.pending;
    attempts = store a (record p { outcome = some d }) s.attempts;
  }
]

-- `close(p.ready)`; `none` is the panic of a second close.
unfoldable pub close_ready : ℕ → ConnPool → Option ConnPool
close_ready a s = elim (load a s.attempts) [
  | none ↦ some s
  | some p ↦
      if p.ready
      then none
      else some (record s { attempts = store a (record p { ready = true }) s.attempts })
]

-- `waitForPending` while its context lasts: `none` while it waits.
unfoldable pub wait_for_pending : ℕ → ConnPool → Option Dialled
wait_for_pending a s = elim (load a s.attempts) [
  | none ↦ none
  | some p ↦ if p.ready then p.outcome else none
]
