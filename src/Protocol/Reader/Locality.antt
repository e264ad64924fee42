-- ===== src/Protocol/Reader/Locality.antt =====
-- Two facts that hold of every decoder built from the reader's methods: after an error it changes
-- nothing, and a successful run does not look past the bytes that it takes.
use gosoulseek.Prelude.{ℕ, ◌≡◌, refl, sym, ap, ◌∙◌, ◌≢◌, arith}
use gosoulseek.Prelude.{Option, none, some}
use gosoulseek.Prelude.{[], ◌∷◌, ◌++◌, append_assoc, append-nil, Bytes, length, length-append}
use gosoulseek.Prelude.{take-append_le, drop-append_le}
use gosoulseek.Protocol.Reader.{
  Reader, Read, ◌>>=◌, return, source, ReadError, read_full, unless_failed,
}

abbrev pub IsSticky : {A : Type 0} → Read A → Type 0
IsSticky m = (r : Reader) (e : ReadError) → r.err ≡ some e → (m r).1 ≡ r

abbrev pub IsLocal : {A : Type 0} → Read A → Type 0
IsLocal m =
    (bs more left : Bytes)
    → (m (source bs)).1 ≡ source left
    → m (source (bs ++ more)) ≡ ((m (source bs)).0, source (left ++ more))

pub record Reads {A : Type 0} (m : Read A) : Type 0 where
  pub sticky : IsSticky m
  pub local : IsLocal m

-- `m` reads `s` as the value `a`, whatever follows.
abbrev pub Parses : {A : Type 0} → Read A → Bytes → A → Type 0
Parses m s a = (rest : Bytes) → m (source (s ++ rest)) ≡ (a, source rest)

pub return-Reads : {A : Type 0} (a : A) → Reads (return a)
return-Reads a = record { sticky = λ r e h. refl; local = λ bs more left h. cc }

pub bind-Parses :
    {A B : Type 0} (m : Read A) (f : A → Read B) (s t : Bytes) (a : A) (b : B)
    → Parses m s a
    → Parses (f a) t b
    → Parses (m >>= f) (s ++ t) b
bind-Parses m f s t a b p q rest = rw (append_assoc s t rest, p (t ++ rest)) (q rest)

pub return-Parses : {A : Type 0} (a : A) → Parses (return a) [] a
return-Parses a rest = refl

pub unless_failed-Reads : {A : Type 0} (z : A) (m : Read A) → IsLocal m → Reads (unless_failed z m)
unless_failed-Reads z m l = record { sticky = λ r e h. rw h; local = l }

-- A reader without an error is the source of what is left.
source_eta : (r : Reader) → r.err ≡ none → r ≡ source r.rest
source_eta r e = λ i. record { rest = r.rest; err = e i }

pub bind-IsLocal :
    {A B : Type 0} (m : Read A) (f : A → Read B)
    → IsLocal m
    → ((a : A) → Reads (f a))
    → IsLocal (m >>= f)
bind-IsLocal m f lm rf bs more left h = go (m (source bs)).1.err refl
  where
    go :
        (e : Option ReadError)
        → (m (source bs)).1.err ≡ e
        → (m >>= f) (source (bs ++ more)) ≡ (((m >>= f) (source bs)).0, source (left ++ more))
    go none e =
        let (a, r) = m (source bs) in
        let eta = source_eta r e in
        rw (lm bs more r.rest eta) (
          (rf a).local r.rest more left (ap (λ s. (f a s).1) (sym eta) ∙ h)
          ∙ ap (λ s. ((f a s).0, source (left ++ more))) (sym eta))
    go (some x) e =
        let (a, r) = m (source bs) in
        cc (ap (λ (s : Reader). s.err) ((rf a).sticky r x e), ap (λ (s : Reader). s.err) h)

pub bind-Reads :
    {A B : Type 0} (m : Read A) (f : A → Read B)
    → Reads m
    → ((a : A) → Reads (f a))
    → Reads (m >>= f)
bind-Reads m f rm rf = record {
  sticky = λ r e h.
      let (a, s) = m r in
      let same = rm.sticky r e h in (rf a).sticky s e (ap (λ (s : Reader). s.err) same ∙ h) ∙ same;
  local = bind-IsLocal m f rm.local rf;
}

pub read_full-IsLocal :
    {A : Type 0} (n : ℕ) (g : Option Bytes → A) → IsLocal (do bs ← read_full n; return (g bs))
unfolding read_full
read_full-IsLocal n g bs more left h =
    ground (arith, length-append bs more, take-append_le n bs more, drop-append_le n bs more)

-- A decoder that reads `s` as a value fails on every proper prefix of `s`.
pub Parses-truncated :
    {A : Type 0} (m : Read A) (s : Bytes) (a : A) (front : Bytes) (x : ℕ) (back : Bytes)
    → Reads m
    → Parses m s a
    → s ≡ front ++ (x ∷ back)
    → (m (source front)).1.err ≢ none
Parses-truncated m s a front x back rm p e ok =
    absurd (omega (arith, ap length left, length-append (m (source front)).1.rest (x ∷ back)))
  where
    whole : m (source (front ++ (x ∷ back))) ≡ (a, source [])
    whole = rw (append-nil, e) at (p [])

    left : (m (source front)).1.rest ++ (x ∷ back) ≡ []
    left = cc (whole, rm.local front (x ∷ back) _ (source_eta _ ok))
