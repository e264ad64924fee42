-- ===== src/Client/Queue/Positions.antt =====
-- The queue of client/queue.go is first in, first out, and its positions count from 1.
use gosoulseek.Prelude.{◌∙◌, ℕ, ◌+◌, ◌%◌, ◌^◌, ◌<◌, ◌≡◌, ◌≢◌, refl, ap, sym, arith, ◌==◌}
use gosoulseek.Prelude.{
  true, false, Bytes, bytes_eq_refl, List, [], ◌∷◌, ◌++◌, length, length-append, append_assoc, All,
}
use gosoulseek.Client.Queue.{
  QueueEntry, QueueManager, enqueue_upload, remove_token, dequeue_upload, is_for, find_position,
  get_position, len,
}

-- No entry is for the file.
abbrev pub Absent : Bytes → Bytes → List QueueEntry → Type 0
Absent u f = All (λ e. is_for u f e ≡ false)

-- No entry has the token.
abbrev pub IsFresh : ℕ → List QueueEntry → Type 0
IsFresh t = All (λ e. (e.token == t) ≡ false)

-- The tokens of the entries differ.
abbrev pub DistinctTokens : List QueueEntry → Type 0
DistinctTokens [] = Unit {0}
DistinctTokens (e ∷ es) = IsFresh e.token es × DistinctTokens es

find_position-split :
    (u f : Bytes) (i : ℕ) (before : List QueueEntry) (e : QueueEntry) (after : List QueueEntry)
    → Absent u f before
    → is_for u f e ≡ true
    → find_position u f i (before ++ (e ∷ after)) ≡ (i + length before + 1) % 2 ^ 32
unfolding find_position
find_position-split u f i [] e after a h = ground arith
find_position-split u f i (b ∷ bs) e after (hb, a) h =
    rw (hb, find_position-split u f (i + 1) bs e after a h) (ap (λ n. n % 2 ^ 32) (omega arith))

find_position-Absent :
    (u f : Bytes) (i : ℕ) (es : List QueueEntry) → Absent u f es → find_position u f i es ≡ 0
unfolding find_position
find_position-Absent u f i [] a = refl
find_position-Absent u f i (e ∷ es) (h, a) = rw (h, find_position-Absent u f (i + 1) es a)

-- Where a queue is split at the first entry for a file, the entry's position is the number of entries
-- before it plus one, below 2^32 entries; and a file that is not queued has position 0.
pub get_position_split :
    (q : QueueManager) (u f g : Bytes) (before : List QueueEntry) (e : QueueEntry)
    (after : List QueueEntry)
    → q.queue ≡ before ++ (e ∷ after)
    → Absent u f before
    → is_for u f e ≡ true
    → Absent u g q.queue
    → length q.queue < 2 ^ 32
    → (get_position u f q ≡ length before + 1) × (get_position u g q ≡ 0)
unfolding get_position
get_position_split q u f g before e after split a h absent small = (
  rw (split, find_position-split u f 0 before e after a h)
      (omega (arith, ap length split, length-append before (e ∷ after))),
  find_position-Absent u g 0 q.queue absent,
)

find_position-append :
    (u f : Bytes) (i : ℕ) (es more : List QueueEntry)
    → find_position u f i es ≢ 0
    → find_position u f i (es ++ more) ≡ find_position u f i es
unfolding find_position
find_position-append u f i [] more h = absurd (h refl)
find_position-append u f i (e ∷ es) more h =
    ground (arith, find_position-append u f (i + 1) es more)

-- The place of a new upload: the one that is returned, and the one that is looked up.
pub enqueue_upload-get_position :
    (now t : ℕ) (u f : Bytes) (q : QueueManager)
    → Absent u f q.queue
    → length q.queue + 1 < 2 ^ 32
    → let (q', p) = enqueue_upload now u f t q in
      (p ≡ length q.queue + 1) × (get_position u f q' ≡ length q.queue + 1)
unfolding enqueue_upload get_position
enqueue_upload-get_position now t u f q absent small =
    let new : QueueEntry = record { username = u; filename = f; token = t; queued_at = now } in
    let hit : is_for u f new ≡ true = ground (arith, bytes_eq_refl u, bytes_eq_refl f) in
    (
      omega (arith, length-append q.queue (new ∷ [])),
      rw (find_position-split u f 0 q.queue new [] absent hit) (omega arith),
    )

-- A new upload, of a file that is not queued yet, goes to the end: the position that is returned is
-- the one that is looked up later, and every other queued file keeps its position (below 2^32 entries).
pub enqueue_upload_fifo :
    (now t : ℕ) (u f v g : Bytes) (q : QueueManager)
    → Absent u f q.queue
    → length q.queue + 1 < 2 ^ 32
    → get_position v g q ≢ 0
    → let (q', p) = enqueue_upload now u f t q in
      (p ≡ len q + 1)
      × (get_position u f q' ≡ p)
      × (get_position v g q' ≡ get_position v g q)
      × (len q' ≡ len q + 1)
unfolding enqueue_upload get_position len
enqueue_upload_fifo now t u f v g q absent small queued =
    let new : QueueEntry = record { username = u; filename = f; token = t; queued_at = now } in
    let (placed, found) = enqueue_upload-get_position now t u f q absent small in
    (
      placed,
      found ∙ sym placed,
      find_position-append v g 0 q.queue (new ∷ []) queued,
      omega (arith, length-append q.queue (new ∷ [])),
    )

remove_token-split :
    (t : ℕ) (before : List QueueEntry) (e : QueueEntry) (after : List QueueEntry)
    → IsFresh t before
    → (e.token == t) ≡ true
    → remove_token t (before ++ (e ∷ after)) ≡ before ++ after
unfolding remove_token
remove_token-split t [] e after h hit = rw hit
remove_token-split t (b ∷ bs) e after (hb, h) hit = rw (hb, remove_token-split t bs e after h hit)

Absent-append :
    (u f : Bytes) (xs ys : List QueueEntry) → Absent u f xs → Absent u f ys → Absent u f (xs ++ ys)
Absent-append u f [] ys h k = k
Absent-append u f (x ∷ xs) ys (hx, h) k = (hx, Absent-append u f xs ys h k)

Absent-left : (u f : Bytes) (xs ys : List QueueEntry) → Absent u f (xs ++ ys) → Absent u f xs
Absent-left u f [] ys h = tt
Absent-left u f (x ∷ xs) ys (hx, h) = (hx, Absent-left u f xs ys h)

Absent-right : (u f : Bytes) (xs ys : List QueueEntry) → Absent u f (xs ++ ys) → Absent u f ys
Absent-right u f [] ys h = h
Absent-right u f (x ∷ xs) ys (hx, h) = Absent-right u f xs ys h

-- Taking the first upload with a token out of the queue moves every file whose first entry is
-- behind it up by one place, below 2^32 entries.
pub dequeue_upload_moves_up :
    (q : QueueManager) (t : ℕ) (before : List QueueEntry) (e : QueueEntry)
    (between : List QueueEntry) (d : QueueEntry) (after : List QueueEntry) (v g : Bytes)
    → q.queue ≡ before ++ (e ∷ (between ++ (d ∷ after)))
    → IsFresh t before
    → e.token ≡ t
    → Absent v g (before ++ (e ∷ between))
    → is_for v g d ≡ true
    → length q.queue < 2 ^ 32
    → get_position v g q ≡ get_position v g (dequeue_upload t q) + 1
unfolding get_position dequeue_upload
dequeue_upload_moves_up q t before e between d after v g split fresh hit absent for_d small =
    let gone = remove_token-split t before e (between ++ (d ∷ after)) fresh (ground arith) in
    rw (split, gone, stays, moved)
      (omega (
        arith,
        ap length split,
        length-append before (e ∷ (between ++ (d ∷ after))),
        length-append between (d ∷ after),
        length-append before (e ∷ between),
        length-append before between,
      ))
  where
    without : Absent v g (before ++ between)
    without =
        Absent-append v g before between (Absent-left v g before (e ∷ between) absent)
          (Absent-right v g before (e ∷ between) absent).1

    stays :
        find_position v g 0 (before ++ (e ∷ (between ++ (d ∷ after))))
        ≡ (0 + length (before ++ (e ∷ between)) + 1) % 2 ^ 32
    stays =
        rw (sym (append_assoc before (e ∷ between) (d ∷ after)))
          (find_position-split v g 0 (before ++ (e ∷ between)) d after absent for_d)

    moved :
        find_position v g 0 (before ++ (between ++ (d ∷ after)))
        ≡ (0 + length (before ++ between) + 1) % 2 ^ 32
    moved =
        rw (sym (append_assoc before between (d ∷ after)))
          (find_position-split v g 0 (before ++ between) d after without for_d)
