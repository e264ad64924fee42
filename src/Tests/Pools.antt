-- ===== src/Tests/Pools.antt =====
-- The attempts of client/connmanager.go to connect to one peer.
use gosoulseek.Prelude.{ℕ, ◌≡◌, refl, true, false, Bytes, [], ◌∷◌, none, some}
use gosoulseek.Client.KeyMap.{load, store, nat_key, bytes_key}
use gosoulseek.Client.PeerConns.{
  connected, PendingConn, ConnPool, new_pool, awaits, get_or_create_slow, store_outcome,
}
use gosoulseek.Client.PeerConns.Shared.{asked, Pooled, at_first, after, attempts_shared}

abbrev ann : Bytes
ann = b'a' ∷ []

-- An attempt to connect to a peer is under way.
abbrev dialling : PendingConn
dialling = record { username = ann; outcome = none; ready = false }

abbrev one_attempt : ConnPool
one_attempt = (get_or_create_slow ann new_pool).1

one_attempt-Pooled : Pooled one_attempt
one_attempt-Pooled = after new_pool one_attempt at_first (asked ann new_pool)

under_way : load 0 one_attempt.attempts ≡ some dialling
unfolding get_or_create_slow new_pool load store
under_way = refl

attempts_shared_example :
    (load ann one_attempt.conns ≡ none
      → get_or_create_slow ann one_attempt ≡ (awaits 0, one_attempt))
    × ((b : ℕ) (q : PendingConn)
        → load b one_attempt.attempts ≡ some q
        → q.outcome ≡ none
        → q.username ≡ ann
        → b ≡ 0)
attempts_shared_example = attempts_shared one_attempt 0 dialling one_attempt-Pooled under_way refl

-- It has led to the connection 7, and its callers are told.
abbrev stored : ConnPool
stored = store_outcome 0 (connected 7) one_attempt

abbrev told : ConnPool
told = record stored {
  attempts =
      store 0 (record dialling { outcome = some (connected 7); ready = true }) stored.attempts;
}

-- Later somebody asks again.
abbrev later : ConnPool
later = (get_or_create_slow ann told).1
