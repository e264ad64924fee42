-- ===== src/Client/UploadRequest/Waiting.antt =====
-- What the processor of client/upload.go does with the uploads that client/upload_request.go queues.
use gosoulseek.Prelude.{ℕ, ◌≡◌, ◌≢◌, ◌⊎◌, ==_refl, refl, ◌∙◌, arith, ==_iff, inl, inr}
use gosoulseek.Prelude.{Bytes, List, [], ◌∷◌, ◌++◌, All, some}
use gosoulseek.Prelude.Int.{ℤ}
use gosoulseek.Peer.Transfer.{transfer_upload}
use gosoulseek.Client.Transfer.{Transfer, new_transfer}
use gosoulseek.Client.Queue.{QueueEntry}
use gosoulseek.Client.Registry.{Registry, registered, register_upload, get_by_token, deref}
use gosoulseek.Client.Registry.Invariant.{Inv}
use gosoulseek.Client.Registry.Registration.{register-Inv}
use gosoulseek.Client.Registry.Lookup.{Registers, Unchanged, register_decides}
use gosoulseek.Client.UploadRequest.{Uploads}

-- The upload of an entry is registered and in its first state.
pub record Waits (r : Registry) (e : QueueEntry) : Type 0 where
  pub address : ℕ
  pub tr : Transfer
  pub found : get_by_token e.token r ≡ some address
  pub at : deref address r ≡ some tr
  pub untouched : tr.state ≡ 0

pub record AllWait (s : Uploads) : Type 0 where
  pub consistent : Inv s.registry
  pub waiting : All (Waits s.registry) s.queue.queue

-- A registration keeps what waits, and a new upload waits.
module _ (token : ℕ) (username filename : Bytes) (size : ℤ) (r : Registry) (v : Inv r) where
  abbrev pub after : Registry
  after = (register_upload username filename token size r).0

  Decides : Type 0
  Decides =
      Registers transfer_upload username filename token size r after
      ⊎ (((p : ℕ) → (register_upload username filename token size r).1 ≢ registered p)
          × Unchanged r after)

  decides : Decides
  unfolding Decides register_upload
  decides = elim (register_decides transfer_upload token username filename size r (omega arith)) [
    | inl (_, reg) ↦ inl reg
    | inr (answer, _, same) ↦ inr ((λ p e. cc), same)
  ]

  keeps_waiting : (e : QueueEntry) → Waits r e → Waits after e
  unfolding Decides deref
  keeps_waiting e w = elim decides [
    | inl reg ↦
        let older = v.bounded w.address w.tr w.at in
        record {
          address = w.address;
          tr = w.tr;
          found =
              ground
                (arith, reg.by_tokens e.token, w.found, reg.token_was_free, ==_iff token e.token);
          at = ground (arith, reg.objects w.address, older, ==_iff r.next w.address, w.at);
          untouched = w.untouched;
        }
    | inr (_, same) ↦ record {
      address = w.address;
      tr = w.tr;
      found = same.same_tokens e.token ∙ w.found;
      at = same.same_heap w.address ∙ w.at;
      untouched = w.untouched;
    }
  ]

  pub all_keep_waiting : (es : List QueueEntry) → All (Waits r) es → All (Waits after) es
  all_keep_waiting [] h = tt
  all_keep_waiting (e ∷ es) (w, h) = (keeps_waiting e w, all_keep_waiting es h)

  pub new-Waits :
      (p : ℕ) (e : QueueEntry)
      → (register_upload username filename token size r).1 ≡ registered p
      → e.token ≡ token
      → Waits after e
  unfolding Decides new_transfer
  new-Waits p e answer named = elim decides [
    | inl reg ↦ record {
      address = r.next;
      tr = record (new_transfer transfer_upload username filename token) { size = size };
      found = ground (arith, reg.by_tokens e.token, ==_iff token e.token, named);
      at = ground (arith, reg.objects r.next, ==_refl r.next);
      untouched = refl;
    }
    | inr (never, _) ↦ absurd (never p answer)
  ]

  pub after-Inv : Inv after
  unfolding register_upload
  after-Inv = register-Inv transfer_upload token username filename size r v

pub All-snoc :
    {A : Type 0} (P : A → Type 0) (xs : List A) (x : A) → All P xs → P x → All P (xs ++ (x ∷ []))
All-snoc P [] x h hx = (hx, tt)
All-snoc P (y ∷ ys) x (hy, h) hx = (hy, All-snoc P ys x h hx)
