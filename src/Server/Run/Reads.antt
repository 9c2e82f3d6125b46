-- ===== src/Server/Run/Reads.antt =====
-- A session reads its connection from the front (rathole/src/server.rs: handle_connection up to the
-- wait for the proof).
use rathole_with_proxy.Base.{
  ℕ, zero, suc, ◌≡◌, refl, sym, ◌∙◌, ap, Option, none, some, [], ◌∷◌, ◌++◌, Bytes, take, drop,
  length, ltb, eqb, Bool-cases, inl, inr, ◌⊎◌, text_eq, HashMap, get,
}
use mathlib.Core.List.{append-nil, append_assoc}
use rathole_with_proxy.Config.{ServerServiceConfig}
use rathole_with_proxy.MultiMap.{key2}
use rathole_with_proxy.MultiMap.Table.{item_of}
use rathole_with_proxy.Protocol.{
  Codec, Format, Digest, Hello, current_proto_version, read_format, check_version, read_hello,
}
use rathole_with_proxy.Protocol.Stream.{
  Error, Result, ok, err, Conn, Io, ◌>>=◌, continue, ok_or, read_exact, write_all, flush,
}
use rathole_with_proxy.Server.{Session, ControlChannelHandle, give_to, do_data_channel_handshake}
use rathole_with_proxy.Server.Run.{find, first, begin}

-- What the second still reads is the end of what the first does.
abbrev pub IsRest : Conn → Conn → Type 0
IsRest a b = (front : Bytes) × (a.incoming ≡ front ++ b.incoming)

pub IsRest-refl : (a : Conn) → IsRest a a
IsRest-refl a = ([], refl)

pub IsRest-trans : (a b c : Conn) → IsRest a b → IsRest b c → IsRest a c
IsRest-trans a b c (p, q) (p', q') =
    (p ++ p', q ∙ ap (λ l. p ++ l) q' ∙ sym (append_assoc p p' c.incoming))

take-drop : (n : ℕ) (bs : Bytes) → take n bs ++ drop n bs ≡ bs
take-drop zero bs = refl
take-drop (suc n) [] = refl
take-drop (suc n) (b ∷ bs) = ap (◌∷◌ b) (take-drop n bs)

read_exact-IsRest : (n : ℕ) (c : Conn) → IsRest c (read_exact n c).0
unfolding read_exact
read_exact-IsRest n c = elim (Bool-cases (ltb (length c.incoming) n)) [
  | inl q ↦ rw q (c.incoming, sym (append-nil c.incoming))
  | inr q ↦ rw q (take n c.incoming, sym (take-drop n c.incoming))
]

module _ {S : Type 0} (conn : S → Conn) where
  -- Whatever comes of it, what is left is an end of what was there.
  abbrev pub Eats : {A : Type 0} → Io S A → Type 0
  Eats m = (s : S) → IsRest (conn s) (conn (m s).0)

  continue-Eats :
      {A B : Type 0} (c : Conn) (r : S × Result A) (k : A → Io S B)
      → IsRest c (conn r.0)
      → ((a : A) → Eats (k a))
      → IsRest c (conn (continue r k).0)
  continue-Eats c (s, ok a) k h hk = IsRest-trans c (conn s) (conn (k a s).0) h (hk a s)
  continue-Eats c (s, err e) k h hk = h

  bind-Eats :
      {A B : Type 0} (m : Io S A) (k : A → Io S B)
      → Eats m
      → ((a : A) → Eats (k a))
      → Eats (m >>= k)
  unfolding ◌>>=◌
  bind-Eats m k hm hk s = continue-Eats (conn s) (m s) k (hm s) hk

abbrev same : Conn → Conn
same c = c

abbrev pub of_session : Session → Conn
of_session s = s.conn

ℕ-cases : (n : ℕ) → (n ≡ 0) ⊎ ((m : ℕ) × (n ≡ suc m))
ℕ-cases zero = inl refl
ℕ-cases (suc n) = inr (n, refl)

write_all-Eats : (bs : Bytes) → Eats same (write_all bs)
unfolding write_all
write_all-Eats bs c = elim (ℕ-cases c.writes) [
  | inl q ↦ rw q (IsRest-refl c)
  | inr (n, q) ↦ rw q (IsRest-refl c)
]

flush-Eats : Eats same flush
unfolding flush
flush-Eats c = elim (ℕ-cases c.writes) [
  | inl q ↦ rw q (IsRest-refl c)
  | inr (n, q) ↦ rw q (IsRest-refl c)
]

ok_or-Eats : {A : Type 0} (o : Option A) (e : Error) → Eats same (ok_or o e)
ok_or-Eats none e = IsRest-refl
ok_or-Eats (some a) e = IsRest-refl

module _ (x : Codec) where
  read_format-Eats : {A : Type 0} (format : Format A) (n : ℕ) → Eats same (read_format x format n)
  read_format-Eats format n = bind-Eats same _ _ (read_exact-IsRest n) (λ buf. ok_or-Eats _ _)

  check_version-Eats : (h : Hello) → Eats same (check_version x h)
  check_version-Eats (Hello.control_channel_hello v d) c =
      elim (Bool-cases (eqb v current_proto_version)) [
        | inl q ↦ rw q (IsRest-refl c)
        | inr q ↦ rw q (IsRest-refl c)
      ]
  check_version-Eats (Hello.data_channel_hello v d) c =
      elim (Bool-cases (eqb v current_proto_version)) [
        | inl q ↦ rw q (IsRest-refl c)
        | inr q ↦ rw q (IsRest-refl c)
      ]

  read_hello-Eats : Eats same (read_hello x)
  unfolding read_hello
  read_hello-Eats = bind-Eats same _ _ (read_format-Eats x.hello _) check_version-Eats

  find-Eats : (d : Digest) (o : Option ServerServiceConfig) → Eats of_session (find x d o)
  find-Eats d none =
      bind-Eats of_session _ _
        (bind-Eats of_session _ _ (λ s. write_all-Eats _ s.conn) (λ b s. IsRest-refl s.conn))
        (λ a s. IsRest-refl s.conn)
  find-Eats d (some v) = λ s. IsRest-refl s.conn

  give_to-conn :
      (d : Digest) (o : Option (Digest × Digest × ControlChannelHandle)) (s : Session)
      → (give_to x d o s).0.conn ≡ s.conn
  give_to-conn d none s = refl
  give_to-conn d (some h) s = elim (Bool-cases h.2.alive) [ inl q ↦ rw q refl | inr q ↦ rw q refl ]

  data_channel-Eats : (d : Digest) → Eats of_session (do_data_channel_handshake x d)
  unfolding do_data_channel_handshake
  data_channel-Eats d s =
      ([], ap (λ (c : Conn). c.incoming) (sym (give_to-conn d (item_of key2 d s.channels) s)))

  first-Eats :
      (services : HashMap Digest ServerServiceConfig) (n : Digest) (h : Hello)
      → Eats of_session (first x services n h)
  first-Eats services n (Hello.control_channel_hello v d) =
      bind-Eats of_session _ _ (λ s. write_all-Eats _ s.conn)
        (λ a. bind-Eats of_session _ _ (λ s. flush-Eats s.conn) (λ b. find-Eats d (get d services)))
  first-Eats services n (Hello.data_channel_hello v d) =
      bind-Eats of_session _ _ (data_channel-Eats d) (λ a s. IsRest-refl s.conn)

  pub begin-Eats :
      (services : HashMap Digest ServerServiceConfig) (n : Digest)
      → Eats of_session (begin x services n)
  unfolding begin
  begin-Eats services n =
      bind-Eats of_session _ _ (λ s. read_hello-Eats s.conn) (first-Eats services n)
