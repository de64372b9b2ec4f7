-- ===== src/Lsp/Connection.antt =====
-- Requests that wait for their responses: the pending table, the read loop and the ways in which a
-- request ends (internal/lsp/jsonrpc.go). Every critical section of the code is one operation here.
use rwx.Prelude.{
  ℕ, ◌+◌, Option, none, some, [], ◌∷◌, ◌==◌, nat_eq, Bytes, bytes_eq, bytes_beq, if◌then◌else◌, ◌≡◌,
}
use rwx.Prelude.Dict.{Dict, get, put, del}

-- `jsonrpcMessage`, as far as it is read: a request's id is positive.
pub record Message : Type 0 where
  pub id : Option ℕ
  pub method : Bytes
  pub result : Bytes
  pub error : Option Bytes

-- A channel of one place.
pub data Channel : Type 0 where
  waiting : Channel
  filled : Message → Channel
  closed : Channel

-- A channel is named by the request that made it.
pub record Conn : Type 0 where
  pub next_id : ℕ
  pub pending : Dict ℕ ℕ
  pub channels : Dict ℕ Channel

unfoldable pub new_conn : Conn
new_conn = record { next_id = 0; pending = []; channels = [] }

-- The start of `request`: a new id, its channel, and the entry in `pending`.
unfoldable pub begin_request : Conn → Conn
begin_request c =
    let id = c.next_id + 1 in
    record { next_id = id; pending = put c.pending id id; channels = put c.channels id waiting }

-- Where the sending fails, or the request's context is done first.
unfoldable pub forget : ℕ → Conn → Conn
forget id c = record c { pending = del c.pending id }

-- `ch <- msg`; `none` where the loop would block for ever or panic.
unfoldable pub deliver : Message → ℕ → Conn → Option Conn
deliver msg ch c = elim (get c.channels ch) [
  | none ↦ none
  | some slot ↦ elim slot [
    | waiting ↦ some (record c { channels = put c.channels ch (filled msg) })
    | filled _ ↦ none
    | closed ↦ none
  ]
]

unfoldable pub answered : Message → ℕ → Conn → Option Conn
unfolding deliver forget
answered msg id c = elim (get c.pending id) [
  | none ↦ some c
  | some ch ↦ deliver msg ch (forget id c)
]

-- One message in `readLoop`.
unfoldable pub receive : Message → Conn → Option Conn
unfolding answered bytes_beq
receive msg c = elim msg.id [
  | none ↦ some c
  | some id ↦ if msg.method == [] then answered msg id c else some c
]

-- The end of `readLoop`: every pending channel is closed; closing one twice panics.
unfoldable pub close_channel : ℕ → Dict ℕ Channel → Option (Dict ℕ Channel)
close_channel ch channels = elim (get channels ch) [
  | none ↦ none
  | some slot ↦ elim slot [
    | waiting ↦ some (put channels ch closed)
    | filled msg ↦ some channels
    | closed ↦ none
  ]
]

unfoldable pub close_entries : Dict ℕ ℕ → Dict ℕ Channel → Option (Dict ℕ Channel)
unfolding close_channel
close_entries [] channels = some channels
close_entries ((id, ch) ∷ entries) channels = elim (close_channel ch channels) [
  | none ↦ none
  | some channels' ↦ close_entries entries channels'
]

unfoldable pub close_all : Conn → Option Conn
unfolding close_entries
close_all c = elim (close_entries c.pending c.channels) [
  | none ↦ none
  | some channels ↦ some (record c { pending = []; channels = channels })
]

-- How a request ends that finds its channel so; `none` while it waits.
pub data Reply : Type 0 where
  response : Bytes → Reply
  lsp_error : Bytes → Reply
  connection_closed : Reply

unfoldable pub reply : Channel → Option Reply
reply waiting = none
reply closed = some connection_closed
reply (filled msg) = elim msg.error [
  | some text ↦ some (lsp_error text)
  | none ↦ some (response msg.result)
]

-- The steps of the read loop and of the requests, in any order.
pub data Step : Conn → Conn → Type 0 where
  begun : {c : Conn} → Step c (begin_request c)
  forgotten : {c : Conn} (id : ℕ) → Step c (forget id c)
  received : {c c' : Conn} (msg : Message) → receive msg c ≡ some c' → Step c c'
  ended : {c c' : Conn} → close_all c ≡ some c' → Step c c'

pub data Reach : Conn → Type 0 where
  start : Reach new_conn
  next : {c c' : Conn} → Reach c → Step c c' → Reach c'
