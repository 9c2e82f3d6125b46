-- ===== src/Server/Run/Phases.antt =====
-- The two phases of a task are handle_connection (rathole/src/server.rs).
use rathole_with_proxy.Base.{◌≡◌, refl, ap, ◌∙◌, fun_ext, Option, none, some, HashMap, text_eq, get}
use rathole_with_proxy.Config.{ServerServiceConfig}
use rathole_with_proxy.Protocol.{Codec, Digest, Hello, Ack}
use rathole_with_proxy.Protocol.Stream.{Error, Result, ok, err, Io, ◌>>=◌, pure, continue}
use rathole_with_proxy.Server.{
  refuse, lookup, do_control_channel_handshake, do_data_channel_handshake, dispatch,
  handle_connection,
}
use rathole_with_proxy.Server.Run.{Progress, find, first, begin, finish}

module _ {S A B C : Type 0} where
  continue_assoc :
      (r : S × Result A) (k : A → Io S B) (l : B → Io S C)
      → continue (continue r k) l ≡ continue r (λ a. k a >>= l)
  unfolding ◌>>=◌
  continue_assoc (s, ok a) k l = refl
  continue_assoc (s, err e) k l = refl

  bind_assoc :
      (m : Io S A) (k : A → Io S B) (l : B → Io S C) → ((m >>= k) >>= l) ≡ (m >>= (λ a. k a >>= l))
  unfolding ◌>>=◌
  bind_assoc m k l = fun_ext (λ s. continue_assoc (m s) k l)

-- A step that returns nothing, and a result for it.
continue-pure :
    {S A : Type 0} (r : S × Result (Unit {0})) (a : A) (l : A → Io S (Unit {0}))
    → ((s : S) → l a s ≡ (s, ok tt))
    → continue (continue r (λ u. pure a)) l ≡ r
continue-pure (s, ok u) a l h = h s
continue-pure (s, err e) a l h = refl

module _ (x : Codec) (nonce : Digest) where
  find-lookup :
      (d : Digest) (o : Option ServerServiceConfig)
      → (find x d o >>= finish x nonce) ≡ lookup x nonce d o
  unfolding ◌>>=◌
  find-lookup d none = fun_ext λ s.
      continue-pure (refuse x Ack.service_not_exist Error.no_such_service s) Progress.over
        (finish x nonce) (λ t. refl)
  find-lookup d (some c) = refl

  data_channel-over :
      (d : Digest)
      → ((do_data_channel_handshake x d >>= (λ u. pure Progress.over)) >>= finish x nonce)
        ≡ do_data_channel_handshake x d
  unfolding ◌>>=◌
  data_channel-over d = fun_ext λ s.
      continue-pure (do_data_channel_handshake x d s) Progress.over (finish x nonce) (λ t. refl)

  first-dispatch :
      (services : HashMap Digest ServerServiceConfig) (h : Hello)
      → (first x services nonce h >>= finish x nonce) ≡ dispatch x services nonce h
  unfolding do_control_channel_handshake
  first-dispatch services (Hello.control_channel_hello v d) =
      bind_assoc _ _ _
      ∙ ap (◌>>=◌ _) (
          fun_ext
            λ a. bind_assoc _ _ _ ∙ ap (◌>>=◌ _) (fun_ext λ b. find-lookup d (get d services)))
  first-dispatch services (Hello.data_channel_hello v d) = data_channel-over d

  -- A task that is not interrupted does what handle_connection does.
  pub begin-finish :
      (services : HashMap Digest ServerServiceConfig)
      → (begin x services nonce >>= finish x nonce) ≡ handle_connection x services nonce
  unfolding begin handle_connection
  begin-finish services = bind_assoc _ _ _ ∙ ap (◌>>=◌ _) (fun_ext λ h. first-dispatch services h)
