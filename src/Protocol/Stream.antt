-- ===== src/Protocol/Stream.antt =====
-- A connection as its two ends see it, and the calls on it that the protocol makes (the futures of
-- rathole/src/protocol.rs, server.rs and client.rs). An `async` function is a function of the state
-- that it holds; its awaits are in the order of the source.
use rathole_with_proxy.Base.{
  ℕ, zero, suc, Option, none, some, [], ◌∷◌, ◌++◌, Bytes, length, take, drop, ltb, if◌then◌else◌,
  ◌≡◌, refl, ap, length-append, take-append, drop-append, arith,
}

pub data Error : Type 0 where
  broken undecodable version_mismatch no_such_service auth_failed stale_channel : Error
  panicked unexpected_hello unexpected_traffic : Error

pub data Result (A : Type 0) : Type 0 where
  err : Error → Result A
  ok : A → Result A

-- The bytes that the peer sends before it closes, those that it gets, and how many writes and
-- flushes still succeed.
pub record Conn : Type 0 where
  pub incoming : Bytes
  pub outgoing : Bytes
  pub writes : ℕ

abbrev pub Io : Type 0 → Type 0 → Type 0
Io S A = S → S × Result A

abbrev pub continue : {S A B : Type 0} → S × Result A → (A → Io S B) → S × Result B
continue (s, ok a) k = k a s
continue (s, err e) k = (s, err e)

infixl 5 ◌>>=◌
unfoldable pub ◌>>=◌ : {S A B : Type 0} → Io S A → (A → Io S B) → Io S B
(m >>= k) s = continue (m s) k

abbrev pub pure : {S A : Type 0} → A → Io S A
pure a s = (s, ok a)

abbrev pub bail : {S A : Type 0} → Error → Io S A
bail e s = (s, err e)

abbrev pub ok_or : {S A : Type 0} → Option A → Error → Io S A
ok_or none e = bail e
ok_or (some a) e = pure a

-- `AsyncReadExt::read_exact`: at the end of the stream it has read what there was.
unfoldable pub read_exact : ℕ → Io Conn Bytes
read_exact n c =
    if ltb (length c.incoming) n
    then (record c { incoming = [] }, err Error.broken)
    else (record c { incoming = drop n c.incoming }, ok (take n c.incoming))

-- `AsyncWriteExt::write_all`
unfoldable pub write_all : Bytes → Io Conn (Unit {0})
write_all bs c = elim c.writes [
  | zero ↦ (c, err Error.broken)
  | suc n ↦ (record c { outgoing = c.outgoing ++ bs; writes = n }, ok tt)
]

unfoldable pub flush : Io Conn (Unit {0})
flush c = elim c.writes [ zero ↦ (c, err Error.broken) | suc n ↦ (record c { writes = n }, ok tt) ]

-- `AsyncReadExt::read_u8`
unfoldable pub read_u8 : Io Conn ℕ
read_u8 c = elim c.incoming [
  | [] ↦ (c, err Error.broken)
  | b ∷ bs ↦ (record c { incoming = bs }, ok b)
]

-- The first bytes that the peer sends.
pub read_exact-append :
    (bs rest out : Bytes) (n w : ℕ)
    → n ≡ length bs
    → read_exact n (record { incoming = bs ++ rest; outgoing = out; writes = w })
      ≡ (record { incoming = rest; outgoing = out; writes = w }, ok bs)
unfolding read_exact
read_exact-append bs rest out n w h =
    ground (arith, length-append bs rest, take-append bs rest, drop-append bs rest)

-- A step that succeeds hands its result on.
pub bind-ok :
    {S A B : Type 0} (m : Io S A) (k : A → Io S B) (s t : S) (a : A)
    → m s ≡ (t, ok a)
    → (m >>= k) s ≡ k a t
unfolding ◌>>=◌
bind-ok m k s t a h = ap (λ r. continue r k) h

-- A step that fails ends the function.
pub bind-err :
    {S A B : Type 0} (m : Io S A) (k : A → Io S B) (s t : S) (e : Error)
    → m s ≡ (t, err e)
    → (m >>= k) s ≡ (t, err e)
unfolding ◌>>=◌
bind-err m k s t e h = ap (λ r. continue r k) h

continue_inverse :
    {S A B : Type 0} (r : S × Result A) (k : A → Io S B) (b : B)
    → (continue r k).1 ≡ ok b
    → (t : S) × (a : A) × (r ≡ (t, ok a)) × ((k a t).1 ≡ ok b)
continue_inverse (s, ok a) k b h = (s, a, refl, h)
continue_inverse (s, err e) k b h = absurd cc

-- A sequence that succeeds has a first step that succeeds.
pub bind_inverse :
    {S A B : Type 0} (m : Io S A) (k : A → Io S B) (s : S) (b : B)
    → ((m >>= k) s).1 ≡ ok b
    → (t : S) × (a : A) × (m s ≡ (t, ok a)) × ((k a t).1 ≡ ok b)
unfolding ◌>>=◌
bind_inverse m k s b h = continue_inverse (m s) k b h
