-- ===== src/Client/Queue.antt =====
-- client/queue.go: the queue of uploads. Each method is one critical section of the queue's lock.
pub mod Positions
pub mod Tokens
use gosoulseek.Prelude.{
  ℕ, suc, ◌+◌, ◌%◌, ◌^◌, ◌==◌, if◌then◌else◌, ◌&&◌, Bool, Bytes, bytes_eq, List, [], ◌∷◌, ◌++◌,
  length, Option, none, some,
}

pub record QueueEntry : Type 0 where
  pub username : Bytes
  pub filename : Bytes
  pub token : ℕ
  pub queued_at : ℕ

-- A position, or the error of a resolver.
pub data Position : Type 0 where
  place : ℕ → Position
  denied : Bytes → Position

abbrev pub QueueResolver : Type 0
QueueResolver = Bytes → Bytes → Position

pub record QueueManager : Type 0 where
  pub resolver : Option QueueResolver
  pub queue : List QueueEntry

unfoldable pub new_queue_manager : QueueManager
new_queue_manager = record { resolver = none; queue = [] }

unfoldable set_resolver : Option QueueResolver → QueueManager → QueueManager
set_resolver r q = record q { resolver = r }

-- `now` is what `time.Now()` answers.
unfoldable pub enqueue_upload : ℕ → Bytes → Bytes → ℕ → QueueManager → QueueManager × ℕ
enqueue_upload now username filename token q =
    let entry : QueueEntry = record {
      username = username;
      filename = filename;
      token = token;
      queued_at = now;
    } in
    let queue = q.queue ++ (entry ∷ []) in (record q { queue = queue }, length queue % 2 ^ 32)

-- The loop of `DequeueUpload`: the first entry with the token is cut out.
pub remove_token : ℕ → List QueueEntry → List QueueEntry
remove_token token [] = []
remove_token token (e ∷ es) = if e.token == token then es else e ∷ remove_token token es

pub dequeue_upload : ℕ → QueueManager → QueueManager
unfolding remove_token
dequeue_upload token q = record q { queue = remove_token token q.queue }

abbrev pub is_for : Bytes → Bytes → QueueEntry → Bool
is_for username filename e = bytes_eq e.username username && bytes_eq e.filename filename

-- The loop of `GetPosition`, at the index `i`.
unfoldable pub find_position : Bytes → Bytes → ℕ → List QueueEntry → ℕ
find_position username filename i [] = 0
find_position username filename i (e ∷ es) =
    if is_for username filename e
    then (i + 1) % 2 ^ 32
    else find_position username filename (i + 1) es

unfoldable pub get_position : Bytes → Bytes → QueueManager → ℕ
unfolding find_position
get_position username filename q = find_position username filename 0 q.queue

unfoldable pub resolve_position : Bytes → Bytes → QueueManager → Position
unfolding get_position
resolve_position username filename q = elim q.resolver [
  | none ↦ place (get_position username filename q)
  | some resolver ↦ resolver username filename
]

pub find_token : ℕ → List QueueEntry → Option QueueEntry
find_token token [] = none
find_token token (e ∷ es) = if e.token == token then some e else find_token token es

pub get_entry : ℕ → QueueManager → Option QueueEntry
unfolding find_token
get_entry token q = find_token token q.queue

unfoldable pub len : QueueManager → ℕ
len q = length q.queue
