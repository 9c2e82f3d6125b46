-- ===== src/Tests/Fair.antt =====
-- A lock that is given in the order of asking, as an instance of the lock of
-- rathole/src/main.rs's table of tunnels.
use mathlib.Core.List.{append-nil}
use rathole_with_proxy.Base.{
  ℕ, ◌≡◌, ◌≢◌, refl, ap, ◌∙◌, sym, Bool, true, false, ◌||◌, Option, none, some, List, [], ◌∷◌, ◌++◌,
  eqb, if◌then◌else◌, arith,
}
use rathole_with_proxy.Gateway.Locks.{Want, RwLock}

-- The last in the queue has asked last.
pub record Queue : Type 0 where
  pub holders : List (ℕ × Want)
  pub queue : List (ℕ × Want)

abbrev pub no_writer : List (ℕ × Want) → Bool
no_writer [] = true
no_writer ((n, Want.read) ∷ hs) = no_writer hs
no_writer ((n, Want.write) ∷ hs) = false

abbrev pub fits : Want → List (ℕ × Want) → Bool
fits Want.read hs = no_writer hs
fits Want.write [] = true
fits Want.write (h ∷ hs) = false

-- Those at the front of the queue that fit get the lock.
unfoldable pub grant : List (ℕ × Want) → List (ℕ × Want) → Queue
grant hs [] = record { holders = hs; queue = [] }
grant hs ((n, w) ∷ q) =
    let next = grant ((n, w) ∷ hs) q in
    if fits w hs then next else record { holders = hs; queue = (n, w) ∷ q }

unfoldable pub holds : ℕ → List (ℕ × Want) → Bool
holds n [] = false
holds n ((m, w) ∷ hs) = eqb n m || holds n hs

unfoldable pub without : ℕ → List (ℕ × Want) → List (ℕ × Want)
without n [] = []
without n ((m, w) ∷ hs) = let rest = without n hs in if eqb n m then rest else (m, w) ∷ rest

abbrev pub front : List (ℕ × Want) → Option ℕ
front [] = none
front ((n, Want.read) ∷ q) = none
front ((n, Want.write) ∷ q) = some n

holds-fits : (k : ℕ) (hs : List (ℕ × Want)) → holds k hs ≡ true → fits Want.write hs ≡ false
unfolding holds
holds-fits k [] h = absurd cc
holds-fits k (g ∷ hs) h = refl

-- While a task has the lock, a writer at the front lets nobody pass.
pub grant-front :
    (k m : ℕ) (hs q more : List (ℕ × Want))
    → holds k hs ≡ true
    → front q ≡ some m
    → grant hs (q ++ more) ≡ record { holders = hs; queue = q ++ more }
unfolding grant
grant-front k m hs [] more h f = absurd cc
grant-front k m hs ((n, Want.read) ∷ q) more h f = absurd cc
grant-front k m hs ((n, Want.write) ∷ q) more h f = rw (holds-fits k hs h) refl

pub front-append :
    (m : ℕ) (q more : List (ℕ × Want)) → front q ≡ some m → front (q ++ more) ≡ some m
front-append m [] more f = absurd cc
front-append m ((n, Want.read) ∷ q) more f = absurd cc
front-append m ((n, Want.write) ∷ q) more f = f

pub holds-without :
    (k n : ℕ) (hs : List (ℕ × Want))
    → holds k (without n hs) ≡ (if eqb n k then false else holds k hs)
unfolding holds without
holds-without k n [] = ground arith
holds-without k n ((m, w) ∷ hs) = ground (arith, holds-without k n hs)

abbrev pub ask : ℕ → Want → Queue → Queue
ask n w s = grant s.holders (s.queue ++ (n, w) ∷ [])

abbrev pub give_back : ℕ → Queue → Queue
give_back n s = grant (without n s.holders) s.queue

abbrev pub leave : ℕ → Queue → Queue
leave n s = grant s.holders (without n s.queue)

pub front-without :
    (m n : ℕ) (q : List (ℕ × Want)) → m ≢ n → front q ≡ some m → front (without n q) ≡ some m
unfolding without
front-without m n [] d f = absurd cc
front-without m n ((i, Want.read) ∷ q) d f = absurd cc
front-without m n ((i, Want.write) ∷ q) d f = ground arith

pub leave-front :
    (k m n : ℕ) (s : Queue)
    → holds k s.holders ≡ true
    → m ≢ n
    → front s.queue ≡ some m
    → leave n s ≡ record s { queue = without n s.queue }
leave-front k m n s h d f =
    let e = append-nil (without n s.queue) in
    ap (grant s.holders) (sym e)
    ∙ grant-front k m s.holders (without n s.queue) [] h (front-without m n s.queue d f)
    ∙ ap (λ q. record s { queue = q }) e

pub give_back-front :
    (k m n : ℕ) (s : Queue)
    → holds k s.holders ≡ true
    → k ≢ n
    → front s.queue ≡ some m
    → give_back n s ≡ record { holders = without n s.holders; queue = s.queue }
give_back-front k m n s h d f =
    let still : holds k (without n s.holders) ≡ true =
      ground (arith, holds-without k n s.holders, h, d) in
    let e = append-nil s.queue in
    ap (grant (without n s.holders)) (sym e)
    ∙ grant-front k m (without n s.holders) s.queue [] still f
    ∙ ap (λ q. record { holders = without n s.holders; queue = q }) e

abbrev pub idle : Queue
idle = record { holders = []; queue = [] }

pub give_back_idle : (k : ℕ) (w : Want) → give_back k (ask k w idle) ≡ idle
unfolding grant without
give_back_idle k Want.read = ground arith
give_back_idle k Want.write = ground arith

pub holds_idle : (k j : ℕ) (w : Want) → holds j (ask k w idle).holders ≡ eqb k j
unfolding grant holds
holds_idle k j Want.read = ground arith
holds_idle k j Want.write = ground arith

pub holds_behind : (k m j : ℕ) → holds j (ask m Want.write (ask k Want.read idle)).holders ≡ eqb k j
unfolding grant holds
holds_behind k m j = ground arith

pub front_behind : (k m : ℕ) → front (ask m Want.write (ask k Want.read idle)).queue ≡ some m
unfolding grant
front_behind k m = refl

abbrev pub fair : RwLock
fair = record {
  State = Queue;
  ask = ask;
  give_back = give_back;
  leave = leave;
  free = idle;
  holds = λ n s. holds n s.holders;
  next_writer = λ s. front s.queue;
  holds-ask = λ k m n j w s h f.
      ap (λ (z : Queue). holds j z.holders) (grant-front k m s.holders s.queue ((n, w) ∷ []) h f);
  next_writer-ask = λ k m n w s h f.
      ap (λ (z : Queue). front z.queue) (grant-front k m s.holders s.queue ((n, w) ∷ []) h f)
      ∙ front-append m s.queue ((n, w) ∷ []) f;
  holds-give_back = λ k m n j s h d f.
      ap (λ (z : Queue). holds j z.holders) (give_back-front k m n s h d f)
      ∙ holds-without j n s.holders;
  next_writer-give_back =
      λ k m n s h d f. ap (λ (z : Queue). front z.queue) (give_back-front k m n s h d f) ∙ f;
  holds-leave =
      λ k m n j s h d f. ap (λ (z : Queue). holds j z.holders) (leave-front k m n s h d f);
  next_writer-leave = λ k m n s h d f.
      ap (λ (z : Queue). front z.queue) (leave-front k m n s h d f) ∙ front-without m n s.queue d f;
  holds-free = holds_idle;
  give_back-free = give_back_idle;
  holds-behind_reader = holds_behind;
  next_writer-behind_reader = front_behind;
}
