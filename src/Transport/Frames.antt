-- ===== src/Transport/Frames.antt =====
-- The bytes of a tunnel as frames of a WebSocket (rathole/src/transport/websocket.rs: StreamWrapper and
-- WebsocketTunnel). A call that is pending is one that comes later.
use mathlib.Core.List.{append-nil, append_assoc}
use rathole_with_proxy.Base.{
  ℕ, zero, suc, ◌≡◌, ◌≤◌, refl, sym, ◌∙◌, ap, List, [], ◌∷◌, ◌++◌, Text, Bytes, length, map, arith,
}

pub data Frame : Type 0 where
  binary : Bytes → Frame
  text : Text → Frame
  other_frame : Frame

-- `None` of the socket is the end of the list.
pub data Incoming : Type 0 where
  frame : Frame → Incoming
  socket_error : Incoming

pub data ErrorKind : Type 0 where
  other invalid_data : ErrorKind

pub data Item : Type 0 where
  chunk : Bytes → Item
  failed : ErrorKind → Item

-- One item of the stream.
unfoldable pub poll_next : Incoming → Item
poll_next Incoming.socket_error = Item.failed ErrorKind.other
poll_next (Incoming.frame (Frame.binary b)) = Item.chunk b
poll_next (Incoming.frame (Frame.text t)) = Item.failed ErrorKind.invalid_data
poll_next (Incoming.frame Frame.other_frame) = Item.failed ErrorKind.invalid_data

-- The frames that have gone out, and how many more the socket takes.
pub record Sink : Type 0 where
  pub sent : List Frame
  pub writes : ℕ

pub data Written : Type 0 where
  ok : ℕ → Written
  err : Written

abbrev pub start_send : Frame → ℕ → Sink → Sink × Written
start_send f n sink = elim sink.writes [
  | zero ↦ (sink, Written.err)
  | suc more ↦ (record { sent = sink.sent ++ f ∷ []; writes = more }, Written.ok n)
]

-- The whole buffer is one frame, whatever its length.
unfoldable pub poll_write : Bytes → Sink → Sink × Written
poll_write buf sink = start_send (Frame.binary buf) (length buf) sink

unfoldable pub send_text : Text → Sink → Sink × Written
send_text t sink = start_send (Frame.text t) 0 sink

-- What a user of the tunnel does.
pub data Call : Type 0 where
  write : Bytes → Call
  control : Text → Call

abbrev pub call : Call → Sink → Sink × Written
call (Call.write bs) sink = poll_write bs sink
call (Call.control t) sink = send_text t sink

pub calls : List Call → Sink → Sink
calls [] sink = sink
calls (c ∷ cs) sink = calls cs (call c sink).0

-- How a reader of the peer ends: with the stream, or with an error.
pub data End : Type 0 where
  closed : End
  error : ErrorKind → End

abbrev pub prepend : Bytes → Bytes × End → Bytes × End
prepend b (bs, e) = (b ++ bs, e)

abbrev pub go_on : Item → Bytes × End → Bytes × End
go_on (Item.chunk b) rest = prepend b rest
go_on (Item.failed kind) rest = ([], End.error kind)

-- What a reader gets that joins the chunks up to an error.
unfoldable pub read_all : List Incoming → Bytes × End
unfolding poll_next
read_all [] = ([], End.closed)
read_all (i ∷ is) = go_on (poll_next i) (read_all is)

-- The bytes that are written before the first control message, and whether there is one.
unfoldable pub payload : List Call → Bytes × End
payload [] = ([], End.closed)
payload (Call.write bs ∷ cs) = prepend bs (payload cs)
payload (Call.control t ∷ cs) = ([], End.error ErrorKind.invalid_data)

abbrev frame_of : Call → Frame
frame_of (Call.write bs) = Frame.binary bs
frame_of (Call.control t) = Frame.text t

call-sent :
    (c : Call) (fs : List Frame) (n : ℕ)
    → (call c (record { sent = fs; writes = suc n })).0
      ≡ record { sent = fs ++ frame_of c ∷ []; writes = n }
unfolding poll_write send_text
call-sent (Call.write bs) fs n = refl
call-sent (Call.control t) fs n = refl

calls-sent :
    (cs : List Call) (fs : List Frame) (n : ℕ)
    → length cs ≤ n
    → (calls cs (record { sent = fs; writes = n })).sent ≡ fs ++ map frame_of cs
unfolding calls
calls-sent [] fs n h = sym (append-nil fs)
calls-sent (c ∷ cs) fs zero h = absurd (omega arith)
calls-sent (c ∷ cs) fs (suc n) h =
    ap (λ s. (calls cs s).sent) (call-sent c fs n)
    ∙ calls-sent cs (fs ++ frame_of c ∷ []) n (omega arith)
    ∙ append_assoc fs (frame_of c ∷ []) (map frame_of cs)

read_all-payload :
    (cs : List Call) → read_all (map (λ c. Incoming.frame (frame_of c)) cs) ≡ payload cs
unfolding read_all payload
read_all-payload [] = refl
read_all-payload (Call.write bs ∷ cs) = ap (prepend bs) (read_all-payload cs)
read_all-payload (Call.control t ∷ cs) = refl

map-map :
    (cs : List Call)
    → map Incoming.frame (map frame_of cs) ≡ map (λ c. Incoming.frame (frame_of c)) cs
map-map [] = refl
map-map (c ∷ cs) = ap (◌∷◌ (Incoming.frame (frame_of c))) (map-map cs)

-- However the bytes are cut into writes, the peer reads them all in their order, if the socket takes
-- them; a control message between them ends the reader with an error of invalid data, after the
-- bytes before it.
pub read_all-calls :
    (cs : List Call) (n : ℕ)
    → length cs ≤ n
    → read_all (map Incoming.frame (calls cs (record { sent = []; writes = n })).sent) ≡ payload cs
read_all-calls cs n h =
    ap (λ fs. read_all (map Incoming.frame fs)) (calls-sent cs [] n h)
    ∙ ap read_all (map-map cs)
    ∙ read_all-payload cs
