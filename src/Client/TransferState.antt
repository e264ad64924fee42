-- ===== src/Client/TransferState.antt =====
-- client/transfer_state.go: the state of a transfer as bit flags in a `uint32`.
pub mod Flags
use gosoulseek.Prelude.{
  ℕ, ◌+◌, ◌^◌, ◌==◌, if◌then◌else◌, Bool, true, false, not, Bytes, List, [], ◌∷◌, ◌++◌,
}
use Prim.Native.Nat.{bit_and, bit_or}
use Prim.Native.Char.{Char, code}
use Prim.Native.String.{String}

abbrev pub state_none : ℕ
state_none = 0

abbrev pub requested : ℕ
requested = 2 ^ 0

abbrev pub queued : ℕ
queued = 2 ^ 1

abbrev pub initializing : ℕ
initializing = 2 ^ 2

abbrev pub in_progress : ℕ
in_progress = 2 ^ 3

abbrev pub completed : ℕ
completed = 2 ^ 4

abbrev pub succeeded : ℕ
succeeded = 2 ^ 5

abbrev pub cancelled : ℕ
cancelled = 2 ^ 6

abbrev pub timed_out : ℕ
timed_out = 2 ^ 7

abbrev pub errored : ℕ
errored = 2 ^ 8

abbrev pub rejected : ℕ
rejected = 2 ^ 9

abbrev pub aborted : ℕ
aborted = 2 ^ 10

abbrev pub locally : ℕ
locally = 2 ^ 11

abbrev pub remotely : ℕ
remotely = 2 ^ 12

-- `s & flag != 0`
unfoldable pub has : ℕ → ℕ → Bool
has s flag = not (bit_and s flag == 0)

unfoldable pub is_completed : ℕ → Bool
unfolding has
is_completed s = has s completed

pub is_queued : ℕ → Bool
unfolding has
is_queued s = has s queued

pub is_active : ℕ → Bool
unfolding is_completed
is_active s =
    if is_completed s
    then false
    else has s (bit_or requested (bit_or queued (bit_or initializing in_progress)))

pub is_local : ℕ → Bool
unfolding has
is_local s = has s locally

pub is_remote : ℕ → Bool
unfolding has
is_remote s = has s remotely

-- The code points of an ASCII text.
abbrev pub codes : String → Bytes
codes String.[] = []
codes (String.◌∷◌ c s) = code c ∷ codes s

-- The flags that `String` tests, in its order, with their labels.
abbrev pub labels : List (ℕ × String)
labels =
    (requested, "Requested")
    ∷ (queued, "Queued")
    ∷ (initializing, "Initializing")
    ∷ (in_progress, "InProgress")
    ∷ (completed, "Completed")
    ∷ (succeeded, "Succeeded")
    ∷ (cancelled, "Cancelled")
    ∷ (timed_out, "TimedOut")
    ∷ (errored, "Errored")
    ∷ (rejected, "Rejected")
    ∷ (aborted, "Aborted")
    ∷ (locally, "Locally")
    ∷ (remotely, "Remotely")
    ∷ []

-- `if s&flag != 0 { parts = append(parts, label) }` for each flag.
parts : ℕ → List (ℕ × String) → List String
unfolding has
parts s [] = []
parts s ((flag, label) ∷ rest) = if has s flag then label ∷ parts s rest else parts s rest

-- `strings.Join(parts, ", ")`
join : List String → Bytes
join [] = []
join (p ∷ ps) = codes p ++ join_rest ps
  where
    join_rest : List String → Bytes
    join_rest [] = []
    join_rest (q ∷ qs) = codes ", " ++ (codes q ++ join_rest qs)

unfoldable state_string : ℕ → Bytes
unfolding parts join
state_string s = if s == state_none then codes "None" else join (parts s labels)
