-- ===== src/Client/Registry.antt =====
-- client/transfer_registry.go: the transfers that are under way, by token, by remote token and by
-- file. A transfer is an object on a heap, and the indexes hold its address.
pub mod Invariant
pub mod Writes
pub mod Registration
pub mod Removal
pub mod Runs
pub mod Lookup
pub mod Keys
pub mod RemoteKeys
use gosoulseek.Prelude.{
  ℕ, suc, ◌+◌, ◌==◌, if◌then◌else◌, Bool, Bytes, List, [], ◌∷◌, ◌++◌, Option, none, some,
}
use gosoulseek.Prelude.Int.{ℤ, pos}
use gosoulseek.Peer.Transfer.{transfer_download, transfer_upload}
use gosoulseek.Client.KeyMap.{load, store, delete, nat_key, bytes_key}
use gosoulseek.Client.Decimal.{itoa}
use gosoulseek.Client.Errors.{TransferError, duplicate_transfer, transfer_not_found}
use gosoulseek.Client.Transfer.{
  Transfer, new_transfer, set_state, update_progress, file_key_of, close_transfer,
}

pub record Registry : Type 0 where
  pub heap : List (ℕ × Transfer)
  pub next : ℕ
  pub by_token : List (ℕ × ℕ)
  pub by_remote_token : List (Bytes × ℕ)
  pub by_file_key : List (Bytes × ℕ)

unfoldable pub new_registry : Registry
new_registry = record { heap = []; next = 0; by_token = []; by_remote_token = []; by_file_key = [] }

-- What a method answers: the address of a transfer, or an error.
pub data Answer : Type 0 where
  registered : ℕ → Answer
  refused : TransferError → Answer

-- `fileKey`
unfoldable pub file_key : ℕ → Bytes → Bytes → Bytes
file_key direction username filename = itoa direction ++ (b':' ∷ (username ++ (b':' ∷ filename)))

-- `username + ":" + itoa(remoteToken)`
pub remote_key : Bytes → ℕ → Bytes
remote_key username remote_token = username ++ (b':' ∷ itoa remote_token)

-- `register` once the file key is free: the rollback deletes it again where the token is taken.
register_token : ℕ → Bytes → Transfer → TransferError → Registry → Registry × Answer
register_token token key tr duplicate r = elim (load token r.by_token) [
  | some p ↦
      (record r { by_file_key = delete key (store key r.next r.by_file_key) }, refused duplicate)
  | none ↦ (
    record r {
      heap = store r.next tr r.heap;
      next = suc r.next;
      by_token = store token r.next r.by_token;
      by_file_key = store key r.next r.by_file_key;
    },
    registered r.next,
  )
]

unfoldable pub register : ℕ → Bytes → Bytes → ℕ → ℤ → Registry → Registry × Answer
unfolding register_token
register direction username filename token size r =
    let tr = new_transfer direction username filename token in
    let sized = record tr { size = size } in
    let key = file_key_of sized in
    let duplicate = duplicate_transfer direction username filename in
    elim (load key r.by_file_key) [
      | some p ↦ (r, refused duplicate)
      | none ↦ register_token token key sized duplicate r
    ]

unfoldable pub register_download : Bytes → Bytes → ℕ → Registry → Registry × Answer
unfolding register
register_download username filename token =
    register transfer_download username filename token (pos 0)

unfoldable pub register_upload : Bytes → Bytes → ℕ → ℤ → Registry → Registry × Answer
unfolding register
register_upload username filename token size = register transfer_upload username filename token size

unfoldable pub get_by_token : ℕ → Registry → Option ℕ
get_by_token token r = load token r.by_token

pub get_by_remote_token : Bytes → ℕ → Registry → Option ℕ
get_by_remote_token username remote_token r =
    load (remote_key username remote_token) r.by_remote_token

unfoldable pub get_by_file : Bytes → Bytes → ℕ → Registry → Option ℕ
get_by_file username filename direction r =
    load (file_key direction username filename) r.by_file_key

-- The object at an address.
unfoldable pub deref : ℕ → Registry → Option Transfer
deref p r = load p r.heap

-- A write to the object at an address.
unfoldable pub modify : (Transfer → Transfer) → ℕ → Registry → Registry
modify f p r = elim (load p r.heap) [ none ↦ r | some t ↦ record r { heap = store p (f t) r.heap } ]

-- A method on the transfer of a token: `none` is success.
abbrev on_token : ℕ → (ℕ → Registry → Registry) → Registry → Registry × Option TransferError
on_token token f r = elim (load token r.by_token) [
  | none ↦ (r, some (transfer_not_found token))
  | some p ↦ (f p r, none)
]

-- The remote token is written to the transfer, and its key is stored beside the keys of earlier ones.
index_remote : ℕ → ℕ → Registry → Registry
index_remote remote_token p r = elim (load p r.heap) [
  | none ↦ r
  | some t ↦ record r {
    heap = store p (record t { remote_token = remote_token }) r.heap;
    by_remote_token = store (remote_key t.username remote_token) p r.by_remote_token;
  }
]

pub set_remote_token : ℕ → ℕ → Registry → Registry × Option TransferError
unfolding index_remote
set_remote_token token remote_token = on_token token (index_remote remote_token)

pub set_state_of : ℕ → ℕ → ℕ → Registry → Registry × Option TransferError
unfolding modify
set_state_of now token state = on_token token (modify (set_state now state))

pub update_progress_of : ℕ → ℕ → ℤ → Registry → Registry × Option TransferError
unfolding modify
update_progress_of now token bytes = on_token token (modify (update_progress now bytes))

pub set_size_of : ℕ → ℤ → Registry → Registry × Option TransferError
unfolding modify
set_size_of token size = on_token token (modify (λ t. record t { size = size }))

pub complete_of : ℕ → ℕ → ℕ → Option TransferError → Registry → Registry × Option TransferError
unfolding modify
complete_of now token state error =
    on_token token (modify (λ t. set_state now state (record t { error = error })))

-- The indexes without a transfer: the remote key goes only where the remote token is not 0.
unindex : ℕ → Transfer → Registry → Registry
unindex token t r = record r {
  by_token = delete token r.by_token;
  by_file_key = delete (file_key_of t) r.by_file_key;
  by_remote_token =
      if t.remote_token == 0
      then r.by_remote_token
      else delete (remote_key t.username t.remote_token) r.by_remote_token;
}

-- `Remove`; `none` is the panic of closing a closed progress channel.
remove_at : ℕ → ℕ → Registry → Option Registry
unfolding unindex
remove_at token p r = elim (load p r.heap) [
  | none ↦ some (record r { by_token = delete token r.by_token })
  | some t ↦ elim (close_transfer t) [
    | none ↦ none
    | some closed ↦
        let left = unindex token t r in some (record left { heap = store p closed left.heap })
  ]
]

pub remove : ℕ → Registry → Option Registry
unfolding remove_at
remove token r = elim (load token r.by_token) [ none ↦ some r | some p ↦ remove_at token p r ]

-- `All`, `Downloads` and `Uploads`: the transfers of the token index, in some order.
all_of : List (ℕ × ℕ) → Registry → List Transfer
all_of [] r = []
all_of ((token, p) ∷ m) r =
    let rest = all_of m r in elim (load p r.heap) [ none ↦ rest | some t ↦ t ∷ rest ]

all : Registry → List Transfer
unfolding all_of
all r = all_of r.by_token r

with_direction : ℕ → List Transfer → List Transfer
with_direction d [] = []
with_direction d (t ∷ ts) =
    if t.direction == d then t ∷ with_direction d ts else with_direction d ts

unfoldable downloads : Registry → List Transfer
unfolding all with_direction
downloads r = with_direction transfer_download (all r)

unfoldable uploads : Registry → List Transfer
unfolding all with_direction
uploads r = with_direction transfer_upload (all r)
